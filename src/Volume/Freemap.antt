-- ===== src/Volume/Freemap.antt =====
-- The records of kern/fs/sfs/sfs_record.c on the free block bitmap, applied twice.
use petrel_os.Base.{
  ℕ, ◌≡◌, refl, sym, ap, ◌∙◌, subst, inl, inr, true, false, not, arith, ◌==◌, if◌then◌else◌,
  ==_refl, Bool-cases, ==-cases, Outcome, done, panic, hang, Outcome-cases,
}
use petrel_os.Bitmap.{Bitmap, isset, mark, unmark}
use petrel_os.Bitmap.Valid.{IsValid, is_marked}
use petrel_os.Bitmap.Marks.{mark_lem, unmark_lem, isset-iff-marked}
use petrel_os.Volume.{Volume, bitmap_record}
use petrel_os.Volume.Fields.{again}

-- The bitmap that a record leaves.
abbrev chosen : ℕ → ℕ → Bitmap → Outcome Bitmap
chosen index setting b =
    if not (setting == 0)
    then (if isset b index == 0 then mark b index else done b)
    else (if isset b index == 0 then done b else unmark b index)

result_of : Bitmap → Outcome Bitmap → Bitmap
result_of b (done c) = c
result_of b panic = b
result_of b hang = b

isset-false : (b : Bitmap) (index : ℕ) → is_marked b index ≡ true → (isset b index == 0) ≡ false
isset-false b index marked = let (_, back) = isset-iff-marked b index in ground (arith, back marked)

isset-true : (b : Bitmap) (index : ℕ) → is_marked b index ≡ false → (isset b index == 0) ≡ true
isset-true b index clear = elim (==-cases (isset b index) 0) [
  | inl zero_byte ↦ ground arith
  | inr other ↦ let (forth, _) = isset-iff-marked b index in absurd (ground (arith, forth other))
]

mark-is_marked :
    {b c : Bitmap} (index : ℕ) → IsValid b → mark b index ≡ done c → is_marked c index ≡ true
unfolding result_of
mark-is_marked {b = b} {c = c} index valid e = elim (mark_lem index valid) [
  | inl (stop, _) ↦ absurd (ground (arith, stop, e))
  | inr (c', e', _, _, m) ↦
      subst (λ x. is_marked x index ≡ true) (ap (result_of b) (sym e' ∙ e))
        (m.added index ∙ ground (arith, ==_refl index))
]

unmark-is_marked :
    {b c : Bitmap} (index : ℕ) → IsValid b → unmark b index ≡ done c → is_marked c index ≡ false
unfolding result_of
unmark-is_marked {b = b} {c = c} index valid e = elim (unmark_lem index valid) [
  | inl (stop, _) ↦ absurd (ground (arith, stop, e))
  | inr (c', e', _, _, m) ↦
      subst (λ x. is_marked x index ≡ false) (ap (result_of b) (sym e' ∙ e))
        (m.removed index ∙ ground (arith, ==_refl index))
]

-- The bit of the index is what the record says.
chosen-is_marked :
    (index setting : ℕ) {b c : Bitmap}
    → IsValid b
    → chosen index setting b ≡ done c
    → is_marked c index ≡ not (setting == 0)
unfolding result_of
chosen-is_marked index setting {b} {c} valid e = elim (Bool-cases (setting == 0)) [
  | inl clears ↦ elim (Bool-cases (is_marked b index)) [
    | inl there ↦ rw clears (
        unmark-is_marked {b = b} {c = c} index valid (ground (arith, isset-false b index there, e)))
    | inr absent ↦
        let answer : done b ≡ done c = ground (arith, isset-true b index absent, e) in
        let same : b ≡ c = ap (result_of b) answer in rw (clears, sym same) absent
  ]
  | inr sets ↦ elim (Bool-cases (is_marked b index)) [
    | inr absent ↦
        rw sets (
          mark-is_marked {b = b} {c = c} index valid (ground (arith, isset-true b index absent, e)))
    | inl there ↦
        let answer : done b ≡ done c = ground (arith, isset-false b index there, e) in
        let same : b ≡ c = ap (result_of b) answer in rw (sets, sym same) there
  ]
]

chosen-chosen :
    (index setting : ℕ) (b c : Bitmap)
    → IsValid b
    → chosen index setting b ≡ done c
    → chosen index setting c ≡ done c
chosen-chosen index setting b c valid e =
    let bit = chosen-is_marked index setting valid e in
    elim (Bool-cases (setting == 0)) [
      | inl clears ↦ let test = isset-true c index (bit ∙ ap not clears) in rw (clears, test) refl
      | inr sets ↦ let test = isset-false c index (bit ∙ ap not sets) in rw (sets, test) refl
    ]

pub bitmap_record-again :
    (v : Volume) (index setting : ℕ)
    → IsValid v.freemap
    → again (λ w. bitmap_record w index setting) v ≡ bitmap_record v index setting
bitmap_record-again v index setting valid = elim (Outcome-cases (chosen index setting v.freemap)) [
  | inl (c, e) ↦ rw (e, chosen-chosen index setting v.freemap c valid e) refl
  | inr (inl e) ↦ rw e refl
  | inr (inr e) ↦ rw e refl
]
