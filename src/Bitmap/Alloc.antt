-- ===== src/Bitmap/Alloc.antt =====
-- bitmap_alloc against the set of marked indices.
use petrel_os.Base.{
  ℕ, zero, suc, ◌+◌, ◌*◌, ◌/◌, ◌%◌, ◌≤◌, ◌<◌, ◌≡◌, refl, ◌⊎◌, inl, inr, true, false, none, some,
  arith, ltb, ◌==◌, ==_iff, lt→ltb, ltb→lt, Bool-cases, length, set, get_or, Outcome, done, enospc,
  Return, ok, fail,
}
use petrel_os.Bitmap.{Bitmap, find_offset, take_bit, alloc_from, alloc}
use petrel_os.Bitmap.Valid.{IsValid, is_marked}
use petrel_os.Bitmap.Marks.{Marked, with_bit-Marked}
use petrel_os.Base.Bits.{bit, bit_all_ones, all_ones_of_bits}

-- What the inner loop finds from `offset` on.
record FirstClear (w from k : ℕ) : Type 0 where
  after : from ≤ k
  small : k < 8
  clear : bit w k ≡ false
  lowest : (j : ℕ) → from ≤ j → j < k → bit w j ≡ true

find_offset-cases :
    (rounds offset w : ℕ)
    → rounds + offset ≡ 8
    → ((find_offset rounds offset w ≡ none) × ((j : ℕ) → offset ≤ j → j < 8 → bit w j ≡ true))
      ⊎ ((k : ℕ) × (find_offset rounds offset w ≡ some k) × FirstClear w offset k)
unfolding find_offset
find_offset-cases zero offset w e = inl (refl, λ j h k. absurd (omega arith))
find_offset-cases (suc rounds) offset w e = elim (Bool-cases (bit w offset)) [
  | inr clear ↦ inr (
    offset,
    ground arith,
    record {
      after = omega arith;
      small = omega arith;
      clear = clear;
      lowest = λ j h k. absurd (omega arith);
    },
  )
  | inl set ↦ elim (find_offset-cases rounds (suc offset) w (omega arith)) [
    | inl (e', all) ↦ inl (
      ground arith,
      λ j h k. elim (Bool-cases (offset == j)) [
        | inl same ↦ rw (← (==_iff offset j).0 same) set
        | inr other ↦ all j (ground arith) k
      ],
    )
    | inr (k, e', first) ↦ inr (
      k,
      ground arith,
      record {
        after = omega (arith, first.after);
        small = first.small;
        clear = first.clear;
        lowest = λ j h l. elim (Bool-cases (offset == j)) [
          | inl same ↦ rw (← (==_iff offset j).0 same) set
          | inr other ↦ first.lowest j (ground arith) l
        ];
      },
    )
  ]
]

-- The outcome of the search: the lowest clear index is marked, or all are marked already.
pub data Allocated (b : Bitmap) : Outcome (Return (ℕ × Bitmap)) → Type 0 where
  full : ((j : ℕ) → j < b.nbits → is_marked b j ≡ true) → Allocated b (done (fail enospc))
  taken :
      (index : ℕ) (c : Bitmap)
      → index < b.nbits
      → is_marked b index ≡ false
      → ((j : ℕ) → j < index → is_marked b j ≡ true)
      → Marked b c index
      → Allocated b (done (ok (index, c)))

module _ {b : Bitmap} (valid : IsValid b) where
  spare_taken : (index : ℕ) → index / 8 < length b.v → is_marked b index ≡ false → index < b.nbits
  spare_taken index h clear = elim (Bool-cases (ltb index b.nbits)) [
    | inl lt ↦ ltb→lt _ _ lt
    | inr ge ↦ absurd (ground (arith, valid.spare index (ground arith) (omega arith)))
  ]

  take_bit-Allocated :
      (ix k : ℕ)
      → ix < length b.v
      → FirstClear (get_or b.v ix 0) 0 k
      → ((j : ℕ) → j < ix * 8 → is_marked b j ≡ true)
      → Allocated b (take_bit b ix (some k))
  unfolding take_bit
  take_bit-Allocated ix k h first below =
      let index : ℕ = ix * 8 + k in
      let q : index / 8 ≡ ix = omega (arith, first.small) in
      let r : index % 8 ≡ k = omega (arith, first.small) in
      let clear : is_marked b index ≡ false = rw (q, r) first.clear in
      let lt : index < b.nbits = spare_taken index (rw q h) clear in
      let marked = with_bit-Marked index valid lt in
      rw (lt→ltb index b.nbits lt) (taken index _ lt clear lowest (rw (q, r) at marked))
    where
      lowest : (j : ℕ) → j < ix * 8 + k → is_marked b j ≡ true
      lowest j hj = elim (Bool-cases (ltb j (ix * 8))) [
        | inl l ↦ below j (ltb→lt _ _ l)
        | inr g ↦
            let q : j / 8 ≡ ix = ground (arith, first.small) in
            rw q (first.lowest (j % 8) (omega arith) (ground arith))
      ]

  alloc_from-Allocated :
      (rounds ix : ℕ)
      → rounds + ix ≡ length b.v
      → ((j : ℕ) → j < ix * 8 → is_marked b j ≡ true)
      → Allocated b (alloc_from b rounds ix)
  unfolding alloc_from
  alloc_from-Allocated zero ix e below =
      full (λ j h. below j (omega (arith, valid.words, valid.small)))
  alloc_from-Allocated (suc rounds) ix e below = elim (Bool-cases (get_or b.v ix 0 == 255)) [
    | inl ones ↦ rw ones (
        alloc_from-Allocated rounds (suc ix) (omega arith) (λ j h.
          elim (Bool-cases (ltb j (ix * 8))) [
            | inl l ↦ below j (ltb→lt _ _ l)
            | inr g ↦
                let q : j / 8 ≡ ix = ground arith in
                rw (q, (==_iff (get_or b.v ix 0) 255).0 ones) (bit_all_ones (j % 8) (omega arith))
          ]))
    | inr more ↦ rw more (elim (find_offset-cases 8 0 (get_or b.v ix 0) refl) [
      | inl (e', all) ↦ absurd (
          ground (
            arith,
            all_ones_of_bits (get_or b.v ix 0) (valid.bytes ix) (λ k h. all k (omega arith) h),
          ))
      | inr (k, e', first) ↦ rw e' (take_bit-Allocated ix k (omega arith) first below)
    ])
  ]

-- On a valid bitmap bitmap_alloc never panics: it marks the lowest clear index, and no other, and
-- returns it, or returns ENOSPC when every index below `nbits` is marked.
pub alloc-Allocated : {b : Bitmap} → IsValid b → Allocated b (alloc b)
unfolding alloc
alloc-Allocated {b} valid =
    rw (← valid.words)
      (alloc_from-Allocated valid (length b.v) 0 (omega arith) (λ j h. absurd (omega arith)))
