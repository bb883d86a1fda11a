-- ===== src/Bitmap/Marks.antt =====
-- bitmap_mark and bitmap_unmark against the set of marked indices.
use petrel_os.Base.{
  ℕ, ◌/◌, ◌%◌, ◌≤◌, ◌<◌, ◌≡◌, refl, ◌∙◌, ◌≢◌, ◌↔◌, ◌⊎◌, inl, inr, true, false, not, ◌&&◌, ◌||◌,
  arith, ltb, ◌==◌, ==_refl, ltb→lt, Bool-cases, set, get_or, length-set, done, panic, ◌>>=◌,
}
use petrel_os.Bitmap.{Bitmap, mark, unmark, isset}
use petrel_os.Bitmap.Valid.{
  IsValid, is_marked, with_bit, without_bit, bytes-set, bit_at-with_bit, bit_at-without_bit,
  without_bit-with_bit, in_bounds, IsValid-set,
}
use petrel_os.Base.Bits.{bit_or-lt, bit_and-lt}

-- What setting one clear bit below `nbits` does.
pub record Marked (b c : Bitmap) (index : ℕ) : Type 0 where
  pub valid : IsValid c
  pub same_size : c.nbits ≡ b.nbits
  pub added : (j : ℕ) → is_marked c j ≡ (is_marked b j || (index == j))

pub record Unmarked (b c : Bitmap) (index : ℕ) : Type 0 where
  pub valid : IsValid c
  pub same_size : c.nbits ≡ b.nbits
  pub removed : (j : ℕ) → is_marked c j ≡ (is_marked b j && not (index == j))

pub with_bit-Marked :
    {b : Bitmap} (index : ℕ)
    → IsValid b
    → index < b.nbits
    → Marked b (record b { v = with_bit b.v index }) index
with_bit-Marked {b} index valid h = record {
  valid =
      IsValid-set valid (with_bit b.v index) (length-set b.v (index / 8) _)
        (bytes-set b.v valid.bytes (index / 8) _ (
          bit_or-lt (get_or b.v (index / 8) 0) (index % 8) (valid.bytes (index / 8)) (omega arith)))
        (λ i past.
          bit_at-with_bit b.v valid.bytes index i (in_bounds valid index h) ∙ ground arith);
  same_size = refl;
  added = λ j. bit_at-with_bit b.v valid.bytes index j (in_bounds valid index h);
}

without_bit-Unmarked :
    {b : Bitmap} (index : ℕ)
    → IsValid b
    → index < b.nbits
    → Unmarked b (record b { v = without_bit b.v index }) index
without_bit-Unmarked {b} index valid h = record {
  valid =
      IsValid-set valid (without_bit b.v index) (length-set b.v (index / 8) _)
        (bytes-set b.v valid.bytes (index / 8) _ (
          bit_and-lt (get_or b.v (index / 8) 0) (index % 8) (valid.bytes (index / 8))
            (omega arith)))
        (λ i past.
          bit_at-without_bit b.v valid.bytes index i (in_bounds valid index h) ∙ ground arith);
  same_size = refl;
  removed = λ j. bit_at-without_bit b.v valid.bytes index j (in_bounds valid index h);
}

-- On a valid bitmap, bitmap_mark panics exactly for an index out of range or already marked; for
-- any other it keeps the bitmap valid and of the same size, and marks that index and no other.
pub mark_lem :
    {b : Bitmap} (index : ℕ)
    → IsValid b
    → ((mark b index ≡ panic) × ((b.nbits ≤ index) ⊎ (is_marked b index ≡ true)))
      ⊎ ((c : Bitmap) × (mark b index ≡ done c)
          × (index < b.nbits)
          × (is_marked b index ≡ false)
          × Marked b c index)
unfolding mark
mark_lem {b} index valid = elim (Bool-cases (ltb index b.nbits)) [
  | inl h ↦ elim (Bool-cases (is_marked b index)) [
    | inl set ↦ inl (ground arith, inr set)
    | inr clear ↦ inr (
      record b { v = with_bit b.v index },
      ground arith,
      ltb→lt _ _ h,
      clear,
      with_bit-Marked index valid (ltb→lt _ _ h),
    )
  ]
  | inr h ↦ inl (ground arith, inl (ground arith))
]

-- On a valid bitmap, bitmap_unmark panics exactly for an index out of range or not marked; for
-- any other it keeps the bitmap valid and of the same size, and clears that index and no other.
pub unmark_lem :
    {b : Bitmap} (index : ℕ)
    → IsValid b
    → ((unmark b index ≡ panic) × ((b.nbits ≤ index) ⊎ (is_marked b index ≡ false)))
      ⊎ ((c : Bitmap) × (unmark b index ≡ done c)
          × (index < b.nbits)
          × (is_marked b index ≡ true)
          × Unmarked b c index)
unfolding unmark
unmark_lem {b} index valid = elim (Bool-cases (ltb index b.nbits)) [
  | inl h ↦ elim (Bool-cases (is_marked b index)) [
    | inl set ↦ inr (
      record b { v = without_bit b.v index },
      ground arith,
      ltb→lt _ _ h,
      set,
      without_bit-Unmarked index valid (ltb→lt _ _ h),
    )
    | inr clear ↦ inl (ground arith, inr clear)
  ]
  | inr h ↦ inl (ground arith, inl (ground arith))
]

-- Marking a clear index of a valid bitmap and unmarking it again gives the same bytes back.
unmark-mark :
    {b : Bitmap} (index : ℕ)
    → IsValid b
    → index < b.nbits
    → is_marked b index ≡ false
    → (mark b index >>= λ c. unmark c index) ≡ done b
unfolding mark unmark
unmark-mark {b} index valid h clear = ground (
  arith,
  (with_bit-Marked index valid h).added index,
  ==_refl index,
  without_bit-with_bit b.v valid.bytes index (in_bounds valid index h) clear,
)

-- bitmap_isset tells the marked indices: it returns 0 exactly for those that are not.
pub isset-iff-marked : (b : Bitmap) (index : ℕ) → (isset b index ≢ 0) ↔ (is_marked b index ≡ true)
unfolding isset
isset-iff-marked b index = ground arith
