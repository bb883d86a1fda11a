-- ===== src/Uio/Walk.antt =====
-- A walk over the buffers of a `struct uio`, one copy for each, and its laws.
use petrel_os.Base.{
  ℕ, ◌+◌, ◌-◌, min, ◌≡◌, refl, ap, ◌⊎◌, inl, inr, Bool, true, false, Option, none, some, List, [],
  ◌∷◌, arith, ltb, ◌==◌, if◌then◌else◌, ==-cases, Outcome, done, panic, hang, Errno,
}
use petrel_os.Copying.{with_copy, memmove-with_copy}
use petrel_os.Uio.{
  Iovec, Uio, Memory, Copier, UioSeg, UioRw, uio_sysspace, uio_userspace, uio_userispace, uio_read,
  uio_write, move_chunk, after_chunk, is_sysspace,
}
use petrel_os.Uio.Kernel.{target, origin}
use petrel_os.Uio.Progress.{room}

-- The bytes of one buffer, at `base`: in the kernel a copy, and otherwise what copyout or copyin does.
abbrev pub copy_of : Copier → Bool → UioRw → ℕ → ℕ → ℕ → Memory → Option Errno × Memory
copy_of c true rw_flag base ptr size m = (
  none,
  record m { kernel = with_copy m.kernel (target rw_flag base ptr) (origin rw_flag base ptr) size },
)
copy_of c false uio_read base ptr size m = c.copyout base ptr size m
copy_of c false uio_write base ptr size m = c.copyin ptr base size m

-- What follows the copy of a buffer; the first copy that fails is the last.
abbrev pub then_copy :
    (Memory → Option Errno × Memory × List Iovec)
    → List Iovec
    → Option Errno × Memory
    → Option Errno × Memory × List Iovec
then_copy next iovs (some e, m) = (some e, m, iovs)
then_copy next iovs (none, m) = next m

-- `n` bytes from or to `ptr` on, one buffer after the other: the error, the memory, and the buffers
-- with room that are left.
unfoldable pub copied :
    Copier → Bool → UioRw → ℕ → ℕ → List Iovec → Memory → Option Errno × Memory × List Iovec
copied c kernel rw_flag ptr n [] m = (none, m, [])
copied c kernel rw_flag ptr n (iov ∷ rest) m =
    let size = min n iov.iov_len in
    let skipped = copied c kernel rw_flag ptr n rest m in
    if iov.iov_len == 0
    then skipped
    else if n == 0
    then (none, m, iov ∷ rest)
    else then_copy
        (λ m'.
          if ltb n iov.iov_len
          then (none, m', record { iov_base = iov.iov_base + n; iov_len = iov.iov_len - n } ∷ rest)
          else copied c kernel rw_flag (ptr + size) (n - size) rest m')
        (iov ∷ rest) (copy_of c kernel rw_flag iov.iov_base ptr size m)

-- The buffers from the first with room on.
abbrev pub trimmed : List Iovec → List Iovec
trimmed [] = []
trimmed (iov ∷ rest) = let later = trimmed rest in if iov.iov_len == 0 then later else iov ∷ rest

abbrev pub view :
    Outcome (Option Errno × Uio × Memory) → Outcome (Option Errno × Memory × List Iovec)
view (done (e, u, m)) = done (e, m, trimmed u.uio_iov)
view panic = panic
view hang = hang

pub move_chunk-copy_of :
    (c : Copier) (seg : UioSeg) (rw_flag : UioRw) (base ptr size : ℕ) (m : Memory)
    → move_chunk c seg rw_flag base ptr size m ≡ copy_of c (is_sysspace seg) rw_flag base ptr size m
unfolding move_chunk
move_chunk-copy_of c uio_sysspace uio_read base ptr size m =
    ap (λ k. (none, record m { kernel = k })) (λ i a. memmove-with_copy m.kernel base ptr size a i)
move_chunk-copy_of c uio_sysspace uio_write base ptr size m =
    ap (λ k. (none, record m { kernel = k })) (λ i a. memmove-with_copy m.kernel ptr base size a i)
move_chunk-copy_of c uio_userspace uio_read base ptr size m = refl
move_chunk-copy_of c uio_userspace uio_write base ptr size m = refl
move_chunk-copy_of c uio_userispace uio_read base ptr size m = refl
move_chunk-copy_of c uio_userispace uio_write base ptr size m = refl

-- Nothing is copied where nothing is asked for, or there is no room.
pub copied-nothing :
    (c : Copier) (kernel : Bool) (rw_flag : UioRw) (ptr n : ℕ) (iovs : List Iovec) (m : Memory)
    → (n ≡ 0) ⊎ (room iovs ≡ 0)
    → copied c kernel rw_flag ptr n iovs m ≡ (none, m, trimmed iovs)
unfolding copied
copied-nothing c kernel rw_flag ptr n [] m nothing = refl
copied-nothing c kernel rw_flag ptr n (iov ∷ rest) m nothing = elim (==-cases iov.iov_len 0) [
  | inl empty ↦
      let test : (iov.iov_len == 0) ≡ true = ground (arith, empty) in
      rw test (copied-nothing c kernel rw_flag ptr n rest m (later nothing))
  | inr there ↦
      let test : (iov.iov_len == 0) ≡ false = ground (arith, there) in
      let test2 : (n == 0) ≡ true = ground (arith, there, nothing) in rw (test, test2) refl
]
  where
    later : (n ≡ 0) ⊎ (iov.iov_len + room rest ≡ 0) → (n ≡ 0) ⊎ (room rest ≡ 0)
    later (inl e) = inl e
    later (inr e) = inr (omega (arith, e))

pub view-after_chunk :
    (u : Uio) (next : Memory → Outcome (Option Errno × Uio × Memory))
    (walk : Memory → Option Errno × Memory × List Iovec) (p : Option Errno × Memory)
    → ((m : Memory) → view (next m) ≡ done (walk m))
    → view (after_chunk u next p) ≡ done (then_copy walk (trimmed u.uio_iov) p)
view-after_chunk u next walk (some e, m) same = refl
view-after_chunk u next walk (none, m) same = same m
