-- ===== src/Uio/Tests.antt =====
-- Runs of Uio: two buffers of user memory with an empty one between them.
use petrel_os.Base.{
  ℕ, ◌+◌, ◌-◌, ◌%◌, ◌≡◌, refl, false, ◌&&◌, Option, none, some, [], ◌∷◌, arith, ltb, leb,
  if◌then◌else◌, Outcome, done, panic, hang, Errno, efault,
}
use petrel_os.Uio.{Uio, Memory, Copier, uio_userspace, uio_read, move_loop, move_chunk, uiomove}
use petrel_os.Uio.{uio_kinit, uio_write}
use petrel_os.Uio.Kernel.{IsCopy, uiomove-uio_kinit}
use petrel_os.Uio.Walk.{view, copied}
use petrel_os.Uio.Copied.{uiomove-copied}
use petrel_os.Uio.Progress.{IsWhole, MoveResult}

abbrev memory : Memory
memory = record { kernel = λ a. a % 256; user = λ a. 7 }

-- Addresses from 100 on are not mapped.
abbrev copier : Copier
copier = record {
  copyout = λ dst src size m.
      if leb (dst + size) 100
      then (
        none,
        record m {
          user =
              λ a. if leb dst a && ltb a (dst + size) then m.kernel (src + (a - dst)) else m.user a;
        },
      )
      else (some efault, m);
  copyin = λ dst src size m.
      if leb (src + size) 100
      then (
        none,
        record m {
          kernel =
              λ a. if leb dst a && ltb a (dst + size) then m.user (src + (a - dst)) else m.kernel a;
        },
      )
      else (some efault, m);
}

abbrev buffers : Uio
buffers = record {
  uio_iov =
      record { iov_base = 10; iov_len = 20 }
      ∷ record { iov_base = 40; iov_len = 0 }
      ∷ record { iov_base = 90; iov_len = 30 }
      ∷ [];
  uio_offset = 512;
  uio_resid = 50;
  uio_segflg = uio_userspace;
  uio_rw = uio_read;
  uio_space = some 3;
}

buffers-IsWhole : IsWhole buffers
buffers-IsWhole = record { resid = refl; small = omega arith; offset_small = omega arith }

abbrev summary : Outcome (Option Errno × Uio × Memory) → Outcome (Option Errno × ℕ × ℕ)
summary (done (e, u, m)) = done (e, u.uio_resid, u.uio_offset)
summary panic = panic
summary hang = hang

uiomove_moves : summary (uiomove copier (some 3) 1000 25 buffers memory) ≡ done (none, 25, 537)
unfolding uiomove move_loop move_chunk
uiomove_moves = refl

uiomove_fails :
    summary (uiomove copier (some 3) 1000 35 buffers memory) ≡ done (some efault, 30, 532)
unfolding uiomove move_loop move_chunk
uiomove_fails = refl

uiomove-copied_example :
    (view (uiomove copier (some 3) 1000 35 buffers memory)
      ≡ done (copied copier false uio_read 1000 35 buffers.uio_iov memory))
    × MoveResult buffers 35 (uiomove copier (some 3) 1000 35 buffers memory)
uiomove-copied_example = uiomove-copied copier (some 3) 1000 35 buffers memory buffers-IsWhole refl

uiomove-uio_kinit_example :
    (v : Uio) × (m' : Memory) × (uiomove copier
        (some 3)
        1000
        35
        (uio_kinit 2000 20 0 uio_write)
        memory
      ≡ done (none, v, m'))
    × (v.uio_resid ≡ 0)
    × IsCopy memory m' 1000 2000 20
uiomove-uio_kinit_example =
    uiomove-uio_kinit copier (some 3) 1000 35 2000 20 0 uio_write memory (omega arith)
