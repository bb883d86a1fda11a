-- ===== src/FileTable/Seek.antt =====
-- sys_lseek of kern/syscall/io_syscalls.c, by its conditions.
use petrel_os.Base.{
  ℕ, ◌≡◌, true, false, Option, none, some, update, Errno, einval, ebadf, espipe, Return, ok, fail,
}
use petrel_os.Base.Int.{ℤ, pos, ltb_ℤ}
use petrel_os.FileTable.{Files, fd_index, entry_of, Whence, new_position}

-- The descriptor `fd` refers to the open file `f`.
pub record Refers (s : Files) (fd : ℤ) (f : ℕ) : Type 0 where
  pub index : ℕ
  pub inside : fd_index fd ≡ some index
  pub entry : entry_of s.fd index ≡ some f

-- What sys_lseek comes to, by its conditions in their order.
pub data SeekResult (s : Files) (fd p size : ℤ) (tryseek : ℤ → Option Errno)
    : Option Whence → Files × Return ℤ → Type 0 where
  bad_whence : SeekResult s fd p size tryseek none (s, fail einval)
  not_open :
      (w : Whence)
      → ((f : ℕ) → ¬ Refers s fd f)
      → SeekResult s fd p size tryseek (some w) (s, fail ebadf)
  console :
      (w : Whence) (f : ℕ)
      → Refers s fd f
      → (s.files f).update_pos ≡ false
      → SeekResult s fd p size tryseek (some w) (s, fail espipe)
  before_start :
      (w : Whence) (f : ℕ)
      → Refers s fd f
      → (s.files f).update_pos ≡ true
      → ltb_ℤ (new_position w (s.files f) size p) (pos 0) ≡ true
      → SeekResult s fd p size tryseek (some w) (s, fail einval)
  refused :
      (w : Whence) (f : ℕ) (e : Errno)
      → Refers s fd f
      → (s.files f).update_pos ≡ true
      → ltb_ℤ (new_position w (s.files f) size p) (pos 0) ≡ false
      → tryseek (new_position w (s.files f) size p) ≡ some e
      → SeekResult s fd p size tryseek (some w) (s, fail e)
  moved :
      (w : Whence) (f : ℕ)
      → Refers s fd f
      → (s.files f).update_pos ≡ true
      → ltb_ℤ (new_position w (s.files f) size p) (pos 0) ≡ false
      → tryseek (new_position w (s.files f) size p) ≡ none
      → SeekResult s fd p size tryseek (some w) (
          let newpos = new_position w (s.files f) size p in
          (
            record s { files = update s.files f (record (s.files f) { offset = newpos }) },
            ok newpos,
          ))
