-- ===== src/Bitmap/Valid.antt =====
-- The representation invariant of `struct bitmap`, and the view of it as a set of marked indices.
use petrel_os.Base.{
  ℕ, ◌+◌, ◌-◌, ◌*◌, ◌/◌, ◌%◌, ◌^◌, ◌≤◌, ◌<◌, bit_and, bit_or, ◌≡◌, ◌∙◌, ◌≢◌, Bool, true, false, not,
  ◌&&◌, ◌||◌, List, arith, ◌==◌, length, set, get_or, get_or-set_self, get_or-set_ne, set-set,
  set-get_or, set_past,
}
use petrel_os.Base.Bits.{bit, bit-bit_or, bit-bit_and, bit_and-bit_or}
use native.Mathlib.Decide.{ℕ_discrete, dec_lt}
use petrel_os.Bitmap.{Bitmap, words_for}

-- Is `index` marked in the bytes `v`?
abbrev pub bit_at : List ℕ → ℕ → Bool
bit_at v index = bit (get_or v (index / 8) 0) (index % 8)

abbrev pub is_marked : Bitmap → ℕ → Bool
is_marked b index = bit_at b.v index

-- The bytes cover the indices, and the spare bits of the last one are marked.
pub record IsValid (b : Bitmap) : Type 0 where
  pub small : b.nbits + 7 < 2 ^ 32
  pub words : length b.v ≡ words_for b.nbits
  pub bytes : (i : ℕ) → get_or b.v i 0 < 256
  pub spare : (i : ℕ) → b.nbits ≤ i → i < 8 * length b.v → is_marked b i ≡ true

same_place : (i j : ℕ) → i / 8 ≡ j / 8 → (i % 8 == j % 8) ≡ (i == j)
same_place i j e = ground arith

other_place : (i j : ℕ) → i / 8 ≢ j / 8 → (i == j) ≡ false
other_place i j e = ground arith

-- The bytes after bit `i` is set, and after it is cleared.
abbrev pub with_bit : List ℕ → ℕ → List ℕ
with_bit v i = set v (i / 8) (bit_or (get_or v (i / 8) 0) (2 ^ (i % 8)))

abbrev pub without_bit : List ℕ → ℕ → List ℕ
without_bit v i = set v (i / 8) (bit_and (get_or v (i / 8) 0) (255 - 2 ^ (i % 8)))

module _ (v : List ℕ) (bytes : (i : ℕ) → get_or v i 0 < 256) where
  pub bytes-set : (i w : ℕ) → w < 256 → (j : ℕ) → get_or (set v i w) j 0 < 256
  bytes-set i w hw j = elim (ℕ_discrete i j) [
    | yes e ↦ elim (dec_lt i (length v)) [
      | yes h ↦ rw (← e, get_or-set_self v i w 0 h) hw
      | no h ↦ rw (set_past v i w (omega arith)) (bytes j)
    ]
    | no ne ↦ rw (get_or-set_ne v i j w 0 ne) (bytes j)
  ]

  pub bit_at-with_bit :
      (i j : ℕ) → i / 8 < length v → bit_at (with_bit v i) j ≡ (bit_at v j || (i == j))
  bit_at-with_bit i j h = elim (ℕ_discrete (i / 8) (j / 8)) [
    | yes e ↦ rw (
      ← e,
      get_or-set_self v (i / 8) (bit_or (get_or v (i / 8) 0) (2 ^ (i % 8))) 0 h,
      bit-bit_or (get_or v (i / 8) 0) (i % 8) (j % 8) (bytes (i / 8)) (omega arith) (omega arith),
      same_place i j e,
    )
    | no ne ↦
        rw
          (
            get_or-set_ne v (i / 8) (j / 8) (bit_or (get_or v (i / 8) 0) (2 ^ (i % 8))) 0 ne,
            other_place i j ne,
          )
          (ground arith)
  ]

  pub bit_at-without_bit :
      (i j : ℕ) → i / 8 < length v → bit_at (without_bit v i) j ≡ (bit_at v j && not (i == j))
  bit_at-without_bit i j h = elim (ℕ_discrete (i / 8) (j / 8)) [
    | yes e ↦ rw (
      ← e,
      get_or-set_self v (i / 8) (bit_and (get_or v (i / 8) 0) (255 - 2 ^ (i % 8))) 0 h,
      bit-bit_and (get_or v (i / 8) 0) (i % 8) (j % 8) (bytes (i / 8)) (omega arith) (omega arith),
      same_place i j e,
    )
    | no ne ↦
        rw
          (
            get_or-set_ne v (i / 8) (j / 8) (bit_and (get_or v (i / 8) 0) (255 - 2 ^ (i % 8))) 0 ne,
            other_place i j ne,
          )
          (ground arith)
  ]

  -- Clearing the bit that was just set gives the same bytes back.
  pub without_bit-with_bit :
      (i : ℕ) → i / 8 < length v → bit_at v i ≡ false → without_bit (with_bit v i) i ≡ v
  without_bit-with_bit i h clear = rw (
    get_or-set_self v (i / 8) (bit_or (get_or v (i / 8) 0) (2 ^ (i % 8))) 0 h,
    set-set,
    bit_and-bit_or (get_or v (i / 8) 0) (i % 8) (bytes (i / 8)) (omega arith) clear,
    set-get_or,
  )

-- An index below `nbits` lies in the bytes.
pub in_bounds : {b : Bitmap} → IsValid b → (i : ℕ) → i < b.nbits → i / 8 < length b.v
in_bounds {b} valid i h = omega (arith, valid.words, valid.small)

-- A change of one bit below `nbits` keeps the invariant.
pub IsValid-set :
    {b : Bitmap}
    → IsValid b
    → (v : List ℕ) → length v ≡ length b.v
    → ((i : ℕ) → get_or v i 0 < 256)
    → ((i : ℕ) → b.nbits ≤ i → bit_at v i ≡ bit_at b.v i)
    → IsValid (record b { v = v })
IsValid-set {b} valid v len bytes keep = record {
  small = valid.small;
  words = len ∙ valid.words;
  bytes = bytes;
  spare = λ i h k. keep i h ∙ valid.spare i h (omega arith);
}
