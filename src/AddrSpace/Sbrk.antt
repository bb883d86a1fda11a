-- ===== src/AddrSpace/Sbrk.antt =====
-- kern/syscall/sbrk.c on the bounds of the heap.
use petrel_os.Base.{
  ℕ, zero, suc, ◌+◌, ◌-◌, ◌≤◌, ◌<◌, ◌≡◌, ◌⊎◌, inl, inr, ◌&&◌, arith, ltb, leb, leb→le, Bool-cases,
  enomem, einval, Return, ok, fail,
}
use petrel_os.Base.Int.{ℤ, pos, negsuc, ◌+ℤ◌, leb_ℤ}
use petrel_os.AddrSpace.{AddrSpace, heap_max, stack_base, wrap, to_long, grow, shrink, sys_sbrk}

-- The heap is in order: it starts before it ends, and ends below the stack and within its bound.
pub record IsBounded (s : AddrSpace) : Type 0 where
  pub ordered : s.heap_start ≤ s.heap_end
  pub below_stack : s.heap_end < stack_base
  pub within_max : s.heap_end < s.heap_start + heap_max

-- The result for each amount: what the break becomes, without any wrap-around, and what is returned.
pub data SbrkResult (s : AddrSpace) : ℤ → AddrSpace × Return ℕ → Type 0 where
  asked : SbrkResult s (pos 0) (s, ok s.heap_end)
  grown :
      (n : ℕ)
      → s.heap_end + n < stack_base
      → s.heap_end + n < s.heap_start + heap_max
      → SbrkResult s (pos n) (record s { heap_end = s.heap_end + n }, ok s.heap_end)
  no_room :
      (n : ℕ)
      → (stack_base ≤ s.heap_end + n) ⊎ (s.heap_start + heap_max ≤ s.heap_end + n)
      → SbrkResult s (pos n) (s, fail enomem)
  shrunk :
      (n : ℕ)
      → s.heap_start + suc n ≤ s.heap_end
      → SbrkResult s
          (negsuc n)
          (record s { heap_end = s.heap_end - suc n }, ok (s.heap_end - suc n))
  too_low : (n : ℕ) → s.heap_end < s.heap_start + suc n → SbrkResult s (negsuc n) (s, fail einval)

-- The amount is an `int`.
pub data IsInt : ℤ → Type 0 where
  positive : (n : ℕ) → n < 2147483648 → IsInt (pos n)
  negative : (n : ℕ) → n < 2147483648 → IsInt (negsuc n)

grow-SbrkResult :
    (s : AddrSpace) (n : ℕ) → IsBounded s → n < 2147483648 → SbrkResult s (pos n) (grow s (pos n))
unfolding grow
grow-SbrkResult s n b h =
    let top : wrap (s.heap_end + n) ≡ s.heap_end + n = omega (arith, b.below_stack, h) in
    let bound : wrap (s.heap_start + heap_max) ≡ s.heap_start + heap_max =
      omega (arith, b.ordered, b.below_stack) in
    rw (top, bound)
      (elim (Bool-cases
        (ltb (s.heap_end + n) stack_base && ltb (s.heap_end + n) (s.heap_start + heap_max))) [
          | inl fits ↦ rw fits (grown n (ground (arith, fits)) (ground (arith, fits)))
          | inr over ↦ rw over (no_room n (ground (arith, over)))
        ])

shrink-SbrkResult :
    (s : AddrSpace) (n : ℕ)
    → IsBounded s
    → n < 2147483648
    → SbrkResult s (negsuc n) (shrink s (negsuc n))
unfolding shrink ◌+ℤ◌
shrink-SbrkResult s n b h =
    let test : leb_ℤ (to_long s.heap_start) (to_long s.heap_end +ℤ negsuc n)
        ≡ leb (s.heap_start + suc n) s.heap_end =
      ground (arith, b.ordered, b.below_stack) in
    rw test (elim (Bool-cases (leb (s.heap_start + suc n) s.heap_end)) [
      | inl high ↦
          let top : wrap (s.heap_end + 4294967295 - n) ≡ s.heap_end - suc n =
            ground (arith, high, b.below_stack) in
          rw (high, top) (shrunk n (leb→le _ _ high))
      | inr low ↦ rw low (too_low n (ground (arith, low)))
    ])

-- What sys_sbrk does to a heap in order, for every `int`: it moves the break by exactly the amount
-- where that keeps the heap in order, and otherwise returns the error and leaves the break. A positive
-- amount returns the old break and a negative one the new.
pub sys_sbrk-SbrkResult :
    (s : AddrSpace) (amount : ℤ)
    → IsBounded s
    → IsInt amount
    → SbrkResult s amount (sys_sbrk s amount)
unfolding sys_sbrk
sys_sbrk-SbrkResult s (pos zero) b i = asked
sys_sbrk-SbrkResult s (pos (suc n)) b (positive _ h) = grow-SbrkResult s (suc n) b h
sys_sbrk-SbrkResult s (negsuc n) b (negative _ h) = shrink-SbrkResult s n b h

-- A heap in order is in order after sys_sbrk, whatever the amount.
sys_sbrk-IsBounded :
    (s : AddrSpace) (amount : ℤ) → IsBounded s → IsInt amount → IsBounded (sys_sbrk s amount).0
sys_sbrk-IsBounded s amount b i = go (sys_sbrk-SbrkResult s amount b i)
  where
    go : {a : ℤ} {r : AddrSpace × Return ℕ} → SbrkResult s a r → IsBounded r.0
    go asked = b
    go (grown n h k) = record {
      ordered = omega (arith, b.ordered);
      below_stack = h;
      within_max = k;
    }
    go (no_room n h) = b
    go (shrunk n h) = record {
      ordered = omega (arith, h);
      below_stack = omega (arith, b.below_stack);
      within_max = omega (arith, b.within_max);
    }
    go (too_low n h) = b
