-- ===== src/Uio/Progress.antt =====
-- The books that uiomove of kern/lib/uio.c keeps, and how those of successive moves add up.
use petrel_os.Base.{
  ℕ, ◌+◌, ◌-◌, ◌%◌, ◌^◌, ◌≤◌, ◌<◌, min, ◌≡◌, refl, ◌∙◌, subst, false, Option, none, some, List, [],
  ◌∷◌, arith, Outcome, done, Errno,
}
use petrel_os.Uio.{Iovec, Uio, Memory, advanced, is_sysspace}

-- The room in the buffers.
abbrev pub room : List Iovec → ℕ
room [] = 0
room (iov ∷ rest) = iov.iov_len + room rest

-- The struct says how much its buffers hold, in numbers of its types.
pub record IsWhole (u : Uio) : Type 0 where
  pub resid : u.uio_resid ≡ room u.uio_iov
  pub small : u.uio_resid < 2 ^ 32
  pub offset_small : u.uio_offset < 2 ^ 64

-- After `k` bytes more have been moved.
pub record Moved (u u' : Uio) (k : ℕ) : Type 0 where
  pub whole : IsWhole u'
  pub left : u'.uio_resid + k ≡ u.uio_resid
  pub offset : u'.uio_offset ≡ (u.uio_offset + k) % 2 ^ 64
  pub kept : (u'.uio_segflg ≡ u.uio_segflg) × (u'.uio_rw ≡ u.uio_rw) × (u'.uio_space ≡ u.uio_space)

-- What moving `n` bytes comes to: all that is asked for and that there is room for, or an error of
-- copyin or copyout after fewer.
pub data MoveResult (u : Uio) (n : ℕ) : Outcome (Option Errno × Uio × Memory) → Type 0 where
  moved :
      (u' : Uio) (m : Memory) → Moved u u' (min n u.uio_resid) → MoveResult u n (done (none, u', m))
  failed :
      (e : Errno) (u' : Uio) (m : Memory) (k : ℕ)
      → is_sysspace u.uio_segflg ≡ false
      → k < n
      → Moved u u' k
      → MoveResult u n (done (some e, u', m))

Moved-advanced :
    (u u' : Uio) (iov : Iovec) (rest : List Iovec) (size k : ℕ)
    → size ≤ u.uio_resid
    → u.uio_resid < 2 ^ 32
    → Moved (advanced u iov rest size) u' k
    → Moved u u' (k + size)
Moved-advanced u u' iov rest size k room_left small m = record {
  whole = m.whole;
  left = omega (arith, m.left, room_left, small);
  offset = m.offset ∙ wrapped;
  kept = m.kept;
}
  where
    wrapped : ((u.uio_offset + size) % 2 ^ 64 + k) % 2 ^ 64 ≡ (u.uio_offset + (k + size)) % 2 ^ 64
    wrapped = omega arith

min-less :
    (n r size : ℕ)
    → size ≤ n
    → size ≤ r
    → r < 2 ^ 32
    → min (n - size) ((r + (2 ^ 32 - size)) % 2 ^ 32) + size ≡ min n r
min-less n r size a b c = omega arith

pub advanced-MoveResult :
    (u : Uio) (iov : Iovec) (rest : List Iovec) (size n : ℕ)
    (r : Outcome (Option Errno × Uio × Memory))
    → size ≤ n
    → size ≤ u.uio_resid
    → u.uio_resid < 2 ^ 32
    → MoveResult (advanced u iov rest size) (n - size) r
    → MoveResult u n r
advanced-MoveResult u iov rest size n r a b c (moved u' m mv) = moved u' m (
    subst (Moved u u') (min-less n u.uio_resid size a b c)
      (Moved-advanced u u' iov rest size _ b c mv))
advanced-MoveResult u iov rest size n r a b c (failed e u' m k user less mv) =
    failed e u' m (k + size) user (omega (arith, less, a))
      (Moved-advanced u u' iov rest size k b c mv)

pub skipped-MoveResult :
    (u : Uio) (iovs : List Iovec) (n : ℕ) (r : Outcome (Option Errno × Uio × Memory))
    → MoveResult (record u { uio_iov = iovs }) n r
    → MoveResult u n r
skipped-MoveResult u iovs n r (moved u' m mv) =
    moved u' m (record { whole = mv.whole; left = mv.left; offset = mv.offset; kept = mv.kept })
skipped-MoveResult u iovs n r (failed e u' m k user less mv) =
    failed e u' m k user less
      (record { whole = mv.whole; left = mv.left; offset = mv.offset; kept = mv.kept })

pub unmoved : (u : Uio) → IsWhole u → Moved u u 0
unmoved u w = record {
  whole = w;
  left = omega arith;
  offset = omega (arith, w.offset_small);
  kept = (refl, refl, refl);
}
