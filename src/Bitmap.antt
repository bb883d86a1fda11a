-- ===== src/Bitmap.antt =====
-- kern/lib/bitmap.c: a fixed-size array of bits kept in bytes. `unsigned` arithmetic wraps at 2^32.
-- An access of `b->v` goes by `get_or` and `set`; `Valid.IsValid` shows that none is out of range.
pub mod Valid
pub mod Marks
pub mod Alloc
pub mod Create
mod Tests
use petrel_os.Base.{
  ℕ, zero, suc, ◌+◌, ◌-◌, ◌*◌, ◌/◌, ◌%◌, ◌^◌, bit_and, bit_or, Bool, not, Option, none, some, List,
  ltb, ◌==◌, if◌then◌else◌, set, get_or, replicate, Outcome, done, panic, ◌>>=◌, ◌>>◌, kassert,
  enospc, Return, ok, fail,
}

-- `struct bitmap`; an element of `v` is a byte.
pub record Bitmap : Type 0 where
  pub nbits : ℕ
  pub v : List ℕ

-- DIVROUNDUP(nbits, BITS_PER_WORD)
abbrev pub words_for : ℕ → ℕ
words_for nbits = (nbits + 7) % 2 ^ 32 / 8

-- The loop that marks the bits from `j` on in the last byte; `rounds` is `BITS_PER_WORD - j`.
fill : ℕ → ℕ → ℕ → ℕ
fill zero j w = w
fill (suc rounds) j w = fill rounds (suc j) (bit_or w (2 ^ j))

leftover : Bitmap → Outcome Bitmap
unfolding fill
leftover b =
    let words = words_for b.nbits in
    let ix = words - 1 in
    let overbits = b.nbits - ix * 8 in
    if ltb (b.nbits / 8) words
    then (do
      kassert (b.nbits / 8 == ix)
      kassert (ltb 0 overbits)
      kassert (ltb overbits 8)
      done (record b { v = set b.v ix (fill (8 - overbits) overbits (get_or b.v ix 0)) }))
    else done b

-- The two arguments before the size say whether each `kmalloc` succeeds; `none` is NULL.
pub create : Bool → Bool → ℕ → Outcome (Option Bitmap)
unfolding leftover
create got_b got_v nbits = if not got_b then done none else if not got_v then done none else (do
  b ← leftover (record { nbits = nbits; v = replicate (words_for nbits) 0 })
  done (some b))

-- The inner loop of `bitmap_alloc`: the first clear bit of the byte `w` from `offset` on.
find_offset : ℕ → ℕ → ℕ → Option ℕ
find_offset zero offset w = none
find_offset (suc rounds) offset w =
    if bit_and w (2 ^ offset) == 0 then some offset else find_offset rounds (suc offset) w

-- What the outer loop does with a byte that is not all ones.
take_bit : Bitmap → ℕ → Option ℕ → Outcome (Return (ℕ × Bitmap))
take_bit b ix none = panic
take_bit b ix (some offset) = do
  kassert (ltb (ix * 8 + offset) b.nbits)
  done (ok (ix * 8 + offset, record b { v = set b.v ix (bit_or (get_or b.v ix 0) (2 ^ offset)) }))

-- The outer loop, with `rounds` bytes left from `ix` on.
alloc_from : Bitmap → ℕ → ℕ → Outcome (Return (ℕ × Bitmap))
unfolding find_offset take_bit
alloc_from b zero ix = done (fail enospc)
alloc_from b (suc rounds) ix =
    let here = take_bit b ix (find_offset 8 0 (get_or b.v ix 0)) in
    if get_or b.v ix 0 == 255 then alloc_from b rounds (suc ix) else here

pub alloc : Bitmap → Outcome (Return (ℕ × Bitmap))
alloc b = alloc_from b (words_for b.nbits) 0

-- `bitmap_isset` returns the masked byte, as a C truth value.
unfoldable pub isset : Bitmap → ℕ → ℕ
isset b index = bit_and (get_or b.v (index / 8) 0) (2 ^ (index % 8))

-- The byte and the mask that `bitmap_translate` gives are `index / 8` and `2 ^ (index % 8)`.
pub mark : Bitmap → ℕ → Outcome Bitmap
mark b index = do
  kassert (ltb index b.nbits)
  kassert (bit_and (get_or b.v (index / 8) 0) (2 ^ (index % 8)) == 0)
  done (record b { v = set b.v (index / 8) (bit_or (get_or b.v (index / 8) 0) (2 ^ (index % 8))) })

-- `~mask`, cut to a byte, is `255 - mask`.
pub unmark : Bitmap → ℕ → Outcome Bitmap
unmark b index = do
  kassert (ltb index b.nbits)
  kassert (not (bit_and (get_or b.v (index / 8) 0) (2 ^ (index % 8)) == 0))
  done (record b {
    v = set b.v (index / 8) (bit_and (get_or b.v (index / 8) 0) (255 - 2 ^ (index % 8)));
  })
