-- ===== src/Uio.antt =====
-- kern/lib/uio.c: the movement of data between the kernel and the buffers of a `struct uio`. A buffer
-- does not wrap around the end of memory; a size_t has 32 bits and an off_t 64.
pub mod Copied
pub mod Kernel
pub mod Moving
pub mod Progress
pub mod Walk
mod Zeros
mod Tests
use petrel_os.Base.{
  ℕ, zero, suc, ◌+◌, ◌-◌, ◌%◌, ◌^◌, Bool, true, false, ◌&&◌, Option, none, some, List, [], ◌∷◌, ltb,
  ◌==◌, if◌then◌else◌, length, Outcome, done, panic, hang, ◌>>=◌, ◌>>◌, kassert, Errno,
}
use petrel_os.Copying.{memmove}

pub data UioRw : Type 0 where
  uio_read uio_write : UioRw

pub data UioSeg : Type 0 where
  uio_userispace uio_userspace uio_sysspace : UioSeg

pub record Iovec : Type 0 where
  pub iov_base : ℕ
  pub iov_len : ℕ

-- `struct uio`; uio_iov and uio_iovcnt are the list.
pub record Uio : Type 0 where
  pub uio_iov : List Iovec
  pub uio_offset : ℕ
  pub uio_resid : ℕ
  pub uio_segflg : UioSeg
  pub uio_rw : UioRw
  pub uio_space : Option ℕ

pub record Memory : Type 0 where
  pub kernel : ℕ → ℕ
  pub user : ℕ → ℕ

-- copyout and copyin of kern/vm/copyinout.c, to the first address from the second: the error code, and
-- memory as they leave it.
pub record Copier : Type 0 where
  pub copyout : ℕ → ℕ → ℕ → Memory → Option Errno × Memory
  pub copyin : ℕ → ℕ → ℕ → Memory → Option Errno × Memory

-- The switch of uiomove; `base` is where the first buffer starts.
unfoldable pub move_chunk : Copier → UioSeg → UioRw → ℕ → ℕ → ℕ → Memory → Option Errno × Memory
move_chunk c uio_sysspace uio_read base ptr size m =
    (none, record m { kernel = memmove m.kernel base ptr size })
move_chunk c uio_sysspace uio_write base ptr size m =
    (none, record m { kernel = memmove m.kernel ptr base size })
move_chunk c uio_userspace uio_read base ptr size m = c.copyout base ptr size m
move_chunk c uio_userspace uio_write base ptr size m = c.copyin ptr base size m
move_chunk c uio_userispace uio_read base ptr size m = c.copyout base ptr size m
move_chunk c uio_userispace uio_write base ptr size m = c.copyin ptr base size m

-- The bookkeeping after a chunk of `size` bytes of the first buffer.
abbrev pub advanced : Uio → Iovec → List Iovec → ℕ → Uio
advanced u iov rest size = record u {
  uio_iov = record iov { iov_base = iov.iov_base + size; iov_len = iov.iov_len - size } ∷ rest;
  uio_resid = (u.uio_resid + (2 ^ 32 - size)) % 2 ^ 32;
  uio_offset = (u.uio_offset + size) % 2 ^ 64;
}

-- What a round comes to: an error code, or `next` with the memory after the chunk.
abbrev pub after_chunk :
    Uio
    → (Memory → Outcome (Option Errno × Uio × Memory))
    → Option Errno × Memory
    → Outcome (Option Errno × Uio × Memory)
after_chunk u next (some e, m) = done (some e, u, m)
after_chunk u next (none, m) = next m

-- The next buffer, when the first is used up; without one the kernel stops.
abbrev pub next_iovec :
    (Uio → Outcome (Option Errno × Uio × Memory))
    → Uio
    → List Iovec
    → Outcome (Option Errno × Uio × Memory)
next_iovec go u [] = panic
next_iovec go u (iov ∷ rest) = go (record u { uio_iov = iov ∷ rest })

-- A round of the loop, where `go` is the loop after it. To look at a buffer where there is none stops
-- the model.
abbrev pub round :
    Copier
    → (ℕ → ℕ → Uio → Memory → Outcome (Option Errno × Uio × Memory))
    → ℕ
    → ℕ
    → Uio
    → Memory
    → List Iovec
    → Outcome (Option Errno × Uio × Memory)
round c go ptr n u m [] = panic
round c go ptr n u m (iov ∷ rest) =
    let size = if ltb n iov.iov_len then n else iov.iov_len in
    let skipped = next_iovec (λ v. go ptr n v m) u rest in
    let moved =
      after_chunk u (go (ptr + size) (n - size) (advanced u iov rest size))
        (move_chunk c u.uio_segflg u.uio_rw iov.iov_base ptr size m) in
    if size == 0 then skipped else moved

-- The loop of uiomove, with fuel for its rounds.
unfoldable pub move_loop : ℕ → Copier → ℕ → ℕ → Uio → Memory → Outcome (Option Errno × Uio × Memory)
move_loop zero c ptr n u m = hang
move_loop (suc fuel) c ptr n u m =
    let more = round c (move_loop fuel c) ptr n u m u.uio_iov in
    if ltb 0 n && ltb 0 u.uio_resid then more else done (none, u, m)

abbrev pub is_sysspace : UioSeg → Bool
is_sysspace uio_sysspace = true
is_sysspace uio_userspace = false
is_sysspace uio_userispace = false

-- `p == q`, of two address spaces or NULL
abbrev pub same_space : Option ℕ → Option ℕ → Bool
same_space none none = true
same_space none (some q) = false
same_space (some p) none = false
same_space (some p) (some q) = p == q

-- `t_addrspace` is that of the current thread. Each round uses up a buffer or moves a byte.
unfoldable pub uiomove :
    Copier → Option ℕ → ℕ → ℕ → Uio → Memory → Outcome (Option Errno × Uio × Memory)
uiomove c t_addrspace ptr n u m = do
  kassert (same_space u.uio_space (if is_sysspace u.uio_segflg then none else t_addrspace))
  move_loop (suc (n + length u.uio_iov)) c ptr n u m

-- The loop of uiomovezeros, with fuel for its rounds; the 16 zeros are at the address `blank`.
unfoldable pub zero_after :
    (Uio → Memory → Outcome (Option Errno × Uio × Memory))
    → Option Errno × Uio × Memory
    → Outcome (Option Errno × Uio × Memory)
zero_after next (some e, u, m) = done (some e, u, m)
zero_after next (none, u, m) = next u m

unfoldable pub zeros_loop :
    ℕ → Copier → Option ℕ → ℕ → ℕ → Uio → Memory → Outcome (Option Errno × Uio × Memory)
unfolding zero_after
zeros_loop zero c t_addrspace blank n u m = hang
zeros_loop (suc fuel) c t_addrspace blank n u m =
    let amt = if ltb n 16 then n else 16 in
    let more =
      uiomove c t_addrspace blank amt u m
      >>= zero_after (zeros_loop fuel c t_addrspace blank (n - amt)) in
    if ltb 0 n then more else done (none, u, m)

abbrev pub is_read : UioRw → Bool
is_read uio_read = true
is_read uio_write = false

unfoldable pub uiomovezeros :
    Copier → Option ℕ → ℕ → ℕ → Uio → Memory → Outcome (Option Errno × Uio × Memory)
uiomovezeros c t_addrspace blank n u m = do
  kassert (is_read u.uio_rw)
  zeros_loop (suc n) c t_addrspace blank n u m

unfoldable pub uio_kinit : ℕ → ℕ → ℕ → UioRw → Uio
uio_kinit kbuf len pos rw_flag = record {
  uio_iov = record { iov_base = kbuf; iov_len = len } ∷ [];
  uio_offset = pos;
  uio_resid = len;
  uio_segflg = uio_sysspace;
  uio_rw = rw_flag;
  uio_space = none;
}
