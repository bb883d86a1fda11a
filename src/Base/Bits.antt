-- ===== src/Base/Bits.antt =====
-- Facts about the bits of a byte (WORD_TYPE of kern/lib/bitmap.c), each checked at every value.
use Prim.Native.Nat.{ℕ, zero, suc, ◌-◌, ◌^◌, ◌<◌, bit_and, bit_or}
use mathlib.Core.Path.{◌≡◌, refl}
use mathlib.Core.Bool.{Bool, true, false, not, ◌&&◌, ◌||◌}
use native.Mathlib.Omega.{arith}
use petrel_os.Base.Tests.{◌==◌, ltb}

-- The test `test` succeeds for the numbers from 0 to `count` - 1.
every : ℕ → (ℕ → Bool) → Bool
every zero test = true
every (suc count) test = every count test && test count

every-at :
    (count : ℕ) (test : ℕ → Bool) (k : ℕ) → every count test ≡ true → k < count → test k ≡ true
unfolding every
every-at zero test k all inside = absurd (omega (arith, inside))
every-at (suc count) test k all inside = ground (arith, every-at count test k, all, inside)

-- Bit `k` of the byte `x`.
abbrev pub bit : ℕ → ℕ → Bool
bit x k = not (bit_and x (2 ^ k) == 0)

abbrev same : Bool → Bool → Bool
same true b = b
same false b = not b

same_sound : (a b : Bool) → same a b ≡ true → a ≡ b
same_sound true b h = ground arith
same_sound false b h = ground arith

-- A test of every byte against two bit positions.
abbrev for_bits : (ℕ → ℕ → ℕ → Bool) → Bool
for_bits p = every 256 (λ x. every 8 (λ k. every 8 (p x k)))

for_bits_sound :
    (p : ℕ → ℕ → ℕ → Bool) (x k j : ℕ)
    → for_bits p ≡ true
    → x < 256
    → k < 8
    → j < 8
    → p x k j ≡ true
for_bits_sound p x k j h hx hk hj =
    every-at 8 (p x k) j
      (every-at 8 (λ k. every 8 (p x k)) k
        (every-at 256 (λ x. every 8 (λ k. every 8 (p x k))) x h hx) hk)
      hj

bit-bit_or_table : for_bits (λ x k j. same (bit (bit_or x (2 ^ k)) j) (bit x j || (k == j))) ≡ true
unfolding every
bit-bit_or_table = refl

bit-bit_and_table :
    for_bits (λ x k j. same (bit (bit_and x (255 - 2 ^ k)) j) (bit x j && not (k == j))) ≡ true
unfolding every
bit-bit_and_table = refl

byte_table :
    for_bits (λ x k j.
      ltb (bit_or x (2 ^ k)) 256
      && ltb (bit_and x (255 - 2 ^ k)) 256
      && (bit x k || (bit_and (bit_or x (2 ^ k)) (255 - 2 ^ k) == x)))
    ≡ true
unfolding every
byte_table = refl

-- Setting bit `k` sets that bit alone.
pub bit-bit_or :
    (x k j : ℕ) → x < 256 → k < 8 → j < 8 → bit (bit_or x (2 ^ k)) j ≡ (bit x j || (k == j))
bit-bit_or x k j hx hk hj = same_sound _ _ (
    for_bits_sound (λ x k j. same (bit (bit_or x (2 ^ k)) j) (bit x j || (k == j))) x k j
      bit-bit_or_table hx hk hj)

-- Clearing bit `k` clears that bit alone.
pub bit-bit_and :
    (x k j : ℕ)
    → x < 256
    → k < 8
    → j < 8
    → bit (bit_and x (255 - 2 ^ k)) j ≡ (bit x j && not (k == j))
bit-bit_and x k j hx hk hj = same_sound _ _ (
    for_bits_sound (λ x k j. same (bit (bit_and x (255 - 2 ^ k)) j) (bit x j && not (k == j))) x k j
      bit-bit_and_table hx hk hj)

byte_facts :
    (x k : ℕ)
    → x < 256
    → k < 8
    → (ltb (bit_or x (2 ^ k)) 256
        && ltb (bit_and x (255 - 2 ^ k)) 256
        && (bit x k || (bit_and (bit_or x (2 ^ k)) (255 - 2 ^ k) == x)))
      ≡ true
byte_facts x k hx hk =
    for_bits_sound
      (λ x k j.
        ltb (bit_or x (2 ^ k)) 256
        && ltb (bit_and x (255 - 2 ^ k)) 256
        && (bit x k || (bit_and (bit_or x (2 ^ k)) (255 - 2 ^ k) == x)))
      x k 0 byte_table hx hk (omega arith)

-- A byte stays a byte.
pub bit_or-lt : (x k : ℕ) → x < 256 → k < 8 → bit_or x (2 ^ k) < 256
bit_or-lt x k hx hk = ground (arith, byte_facts x k hx hk)

pub bit_and-lt : (x k : ℕ) → x < 256 → k < 8 → bit_and x (255 - 2 ^ k) < 256
bit_and-lt x k hx hk = ground (arith, byte_facts x k hx hk)

-- Clearing the bit that was just set restores the byte, if the bit was clear.
pub bit_and-bit_or :
    (x k : ℕ) → x < 256 → k < 8 → bit x k ≡ false → bit_and (bit_or x (2 ^ k)) (255 - 2 ^ k) ≡ x
bit_and-bit_or x k hx hk h = ground (arith, byte_facts x k hx hk)

-- The byte with all bits set is the only one with no clear bit.
all_ones_table : every 256 (λ x. same (every 8 (bit x)) (x == 255)) ≡ true
unfolding every
all_ones_table = refl

pub bit_all_ones : (k : ℕ) → k < 8 → bit 255 k ≡ true
unfolding every
bit_all_ones k h = every-at 8 (bit 255) k refl h

every_complete : (n : ℕ) (p : ℕ → Bool) → ((k : ℕ) → k < n → p k ≡ true) → every n p ≡ true
unfolding every
every_complete zero p h = refl
every_complete (suc n) p h =
    ground (arith, h n (omega arith), every_complete n p (λ k hk. h k (omega arith)))

pub all_ones_of_bits : (x : ℕ) → x < 256 → ((k : ℕ) → k < 8 → bit x k ≡ true) → x ≡ 255
all_ones_of_bits x hx h = ground (
  arith,
  same_sound (every 8 (bit x)) (x == 255)
      (every-at 256 (λ x. same (every 8 (bit x)) (x == 255)) x all_ones_table hx),
  every_complete 8 (bit x) h,
)

pub zero_bits : (k : ℕ) → k < 8 → bit 0 k ≡ false
unfolding every
zero_bits k h = same_sound (bit 0 k) false (every-at 8 (λ k. same (bit 0 k) false) k refl h)
