-- ===== src/Bitmap/Create.antt =====
-- bitmap_create against the set of marked indices.
use petrel_os.Base.{
  ℕ, zero, suc, ◌+◌, ◌-◌, ◌*◌, ◌/◌, ◌%◌, ◌^◌, ◌<◌, bit_or, ◌≡◌, refl, ◌∙◌, inl, inr, Bool, true,
  false, ◌&&◌, ◌||◌, none, some, List, arith, ltb, leb, ltb→lt, Bool-cases, length, set, get_or,
  replicate, length-set, length-replicate, get_or-set_self, get_or-set_ne, get_or-replicate, done,
}
use petrel_os.Bitmap.{Bitmap, words_for, fill, leftover, create}
use petrel_os.Bitmap.Valid.{IsValid, is_marked, bit_at, bytes-set}
use petrel_os.Base.Bits.{bit, bit-bit_or, bit_or-lt, zero_bits}
use native.Mathlib.Decide.{ℕ_discrete}

fill-lt : (rounds j w : ℕ) → rounds + j ≡ 8 → w < 256 → fill rounds j w < 256
unfolding fill
fill-lt zero j w e h = h
fill-lt (suc rounds) j w e h =
    fill-lt rounds (suc j) (bit_or w (2 ^ j)) (omega arith) (bit_or-lt w j h (omega arith))

-- The loop sets the bits from `j` on, and no other.
bit-fill :
    (rounds j w k : ℕ)
    → rounds + j ≡ 8
    → w < 256
    → k < 8
    → bit (fill rounds j w) k ≡ (bit w k || leb j k)
unfolding fill
bit-fill zero j w k e h hk = ground arith
bit-fill (suc rounds) j w k e h hk =
    bit-fill rounds (suc j) (bit_or w (2 ^ j)) k (omega arith) (bit_or-lt w j h (omega arith)) hk
    ∙ ground (arith, bit-bit_or w j k h (omega arith) hk)

zeros-unmarked : (n j : ℕ) → bit_at (replicate n 0) j ≡ false
zeros-unmarked n j = rw (get_or-replicate {A = ℕ} n (j / 8) 0) (zero_bits (j % 8) (omega arith))

zeros-length : (n : ℕ) → length (replicate n (zero)) ≡ n
zeros-length n = length-replicate n zero

zeros-bytes : (n i : ℕ) → get_or (replicate n 0) i 0 < 256
zeros-bytes n i = rw (get_or-replicate {A = ℕ} n i 0) (omega arith)

-- A fresh bitmap is valid, has `nbits` indices, and none of them is marked.
pub record IsFresh (nbits : ℕ) (b : Bitmap) : Type 0 where
  pub valid : IsValid b
  pub size : b.nbits ≡ nbits
  pub empty : (i : ℕ) → i < nbits → is_marked b i ≡ false

module _ (nbits : ℕ) (small : nbits + 7 < 2 ^ 32) where
  abbrev ix : ℕ
  ix = words_for nbits - 1

  abbrev overbits : ℕ
  overbits = nbits - ix * 8

  abbrev filled : List ℕ
  filled = set (replicate (words_for nbits) 0) ix (fill (8 - overbits) overbits 0)

  bit_at-filled :
      nbits / 8 < words_for nbits
      → (i : ℕ) → i < 8 * words_for nbits
      → bit_at filled i ≡ leb nbits i
  bit_at-filled part i h = elim (ℕ_discrete ix (i / 8)) [
    | yes e ↦
        rw
          (
            ← e,
            get_or-set_self (replicate (words_for nbits) 0) ix (fill (8 - overbits) overbits 0) 0
                (omega (arith, zeros-length (words_for nbits))),
          )
          (bit-fill (8 - overbits) overbits 0 (i % 8) (omega arith) (omega arith) (omega arith)
            ∙ ground (arith, zero_bits (i % 8) (omega arith)))
    | no ne ↦
        rw
          (get_or-set_ne (replicate (words_for nbits) 0) ix (i / 8) (fill (8 - overbits) overbits 0)
            0 ne)
          (zeros-unmarked (words_for nbits) i ∙ ground arith)
  ]

  part-IsFresh : nbits / 8 < words_for nbits → IsFresh nbits (record { nbits = nbits; v = filled })
  part-IsFresh part = record {
    valid = record {
      small = small;
      words = length-set (replicate (words_for nbits) 0) ix _ ∙ zeros-length (words_for nbits);
      bytes =
          bytes-set (replicate (words_for nbits) 0) (zeros-bytes (words_for nbits)) ix _
            (fill-lt (8 - overbits) overbits 0 (omega arith) (omega arith));
      spare = λ i h k.
          bit_at-filled part i (
            omega (
              arith,
              length-set (replicate (words_for nbits) 0) ix (fill (8 - overbits) overbits 0),
              zeros-length (words_for nbits),
            ))
          ∙ ground arith;
    };
    size = refl;
    empty = λ i h. bit_at-filled part i (omega arith) ∙ ground arith;
  }

  whole-IsFresh :
      ¬ (nbits / 8 < words_for nbits)
      → IsFresh nbits (record { nbits = nbits; v = replicate (words_for nbits) 0 })
  whole-IsFresh whole = record {
    valid = record {
      small = small;
      words = zeros-length (words_for nbits);
      bytes = zeros-bytes (words_for nbits);
      spare = λ i h k. absurd (omega (arith, zeros-length (words_for nbits)));
    };
    size = refl;
    empty = λ i h. zeros-unmarked (words_for nbits) i;
  }

  -- When both allocations succeed, bitmap_create of a size that DIVROUNDUP does not wrap at
  -- returns a valid bitmap of that size in which no index is marked; it does not panic.
  pub create-IsFresh : (b : Bitmap) × (create true true nbits ≡ done (some b)) × IsFresh nbits b
  unfolding create leftover
  create-IsFresh = elim (Bool-cases (ltb (nbits / 8) (words_for nbits))) [
    | inl part ↦ (
      record { nbits = nbits; v = filled },
      ground (arith, get_or-replicate {A = ℕ} (words_for nbits) ix 0),
      part-IsFresh (ltb→lt _ _ part),
    )
    | inr whole ↦ (
      record { nbits = nbits; v = replicate (words_for nbits) 0 },
      ground arith,
      whole-IsFresh (λ h. ground arith),
    )
  ]

-- A failed allocation gives NULL.
create_no_memory :
    (got_b got_v : Bool) (nbits : ℕ)
    → (got_b && got_v) ≡ false
    → create got_b got_v nbits ≡ done none
unfolding create
create_no_memory got_b got_v nbits h = ground arith
