-- ===== src/FileTable.antt =====
-- The open files of a process: kern/syscall/io_syscalls.c on struct file_table of kern/include/thread.h,
-- and the inheritance of descriptors in kern/syscall/fork.c. Open files are objects that tables share,
-- so they stand in a store by their address. A file's mutex is taken and given back within one call.
-- What kmalloc, lock_create, copyinstr and the vnode operations answer are arguments.
pub mod Counts
pub mod Close
pub mod Dup
pub mod Open
pub mod OpenCounts
pub mod Fork
pub mod Seek
pub mod Transfer
mod Tests
use petrel_os.Base.{
  ℕ, zero, suc, ◌-◌, ◌%◌, ◌^◌, Bool, true, false, not, ◌||◌, Option, none, some, List, [], ◌∷◌, ltb,
  ◌==◌, if◌then◌else◌, update, set, get_or, Errno, enomem, einval, efault, ebadf, emfile, espipe,
  Return, ok, fail,
}
use petrel_os.Base.Int.{ℤ, pos, negsuc, ◌+ℤ◌, ◌-ℤ◌, eqb_ℤ, ltb_ℤ}

-- `struct file_table`
pub record OpenFile : Type 0 where
  pub status : ℕ
  pub offset : ℤ
  pub refcnt : ℤ
  pub update_pos : Bool
  pub vnode : ℕ

-- `fd` is the table of the calling thread, `others` those of all other threads; a NULL entry is
-- `none`. `live` tells the addresses of `files` that are allocated. `closed` lists the vnodes that
-- vfs_close was called on, the last one first.
pub record Files : Type 0 where
  pub fd : List (Option ℕ)
  pub others : List (List (Option ℕ))
  pub files : ℕ → OpenFile
  pub live : ℕ → Bool
  pub closed : List ℕ

-- MAX_FILE_DESCRIPTOR
abbrev pub max_file_descriptor : ℕ
max_file_descriptor = 16

-- The entry at a descriptor in range, `none` for NULL.
abbrev pub entry_of : List (Option ℕ) → ℕ → Option ℕ
entry_of fd i = get_or fd i none

-- The check `fd < 0 || fd >= MAX_FILE_DESCRIPTOR`, and the index where it fails.
abbrev pub fd_index : ℤ → Option ℕ
fd_index (pos n) = if ltb n max_file_descriptor then some n else none
fd_index (negsuc n) = none

abbrev pub same_file : Option ℕ → ℕ → Bool
same_file none f = false
same_file (some g) f = g == f

-- The loop "clear all references" of sys_close, over the descriptors from `i` on: it clears `n`.
clear_loop : ℕ → ℕ → ℕ → ℕ → List (Option ℕ) → List (Option ℕ)
clear_loop zero i n f fd = fd
clear_loop (suc rounds) i n f fd =
    clear_loop rounds (suc i) n f (if same_file (entry_of fd i) f then set fd n none else fd)

-- The body of sys_close for the open file `f` at the descriptor `n`.
pub close_file : Files → ℕ → ℕ → Files
unfolding clear_loop ◌-ℤ◌
close_file s n f =
    let file = s.files f in
    let left = file.refcnt -ℤ pos 1 in
    if eqb_ℤ left (pos 0)
    then record s {
      fd = set (clear_loop max_file_descriptor 0 n f s.fd) n none;
      files = update s.files f (record file { refcnt = left });
      live = update s.live f false;
      closed = file.vnode ∷ s.closed;
    }
    else record s { fd = set s.fd n none; files = update s.files f (record file { refcnt = left }) }

close_entry : Files → ℕ → Option ℕ → Files × Option Errno
unfolding close_file
close_entry s n none = (s, some ebadf)
close_entry s n (some f) = (close_file s n f, none)

close_at : Files → Option ℕ → Files × Option Errno
unfolding close_entry
close_at s none = (s, some ebadf)
close_at s (some n) = close_entry s n (entry_of s.fd n)

-- sys_close returns an error code, `none` for 0.
pub sys_close : Files → ℤ → Files × Option Errno
unfolding close_at
sys_close s fd = close_at s (fd_index fd)

-- The end of sys_dup2: `newfd`, free by now, shares the open file `f`.
pub share : Files → ℕ → ℕ → Files
unfolding ◌+ℤ◌
share s new f =
    let file = s.files f in
    record s {
      fd = set s.fd new (some f);
      files = update s.files f (record file { refcnt = file.refcnt +ℤ pos 1 });
    }

dup_files : Files → ℕ → ℕ → ℕ → Option ℕ → Files × Return ℕ
unfolding share close_entry
dup_files s old new f none = (share s new f, ok new)
dup_files s old new f (some g) =
    if old == new || (f == g)
    then (s, ok old)
    else (share (close_entry s new (some g)).0 new f, ok new)

dup_from : Files → ℕ → ℕ → Option ℕ → Files × Return ℕ
unfolding dup_files
dup_from s old new none = (s, fail ebadf)
dup_from s old new (some f) = dup_files s old new f (entry_of s.fd new)

dup_at : Files → Option ℕ → Option ℕ → Files × Return ℕ
unfolding dup_from
dup_at s (some old) (some new) = dup_from s old new (entry_of s.fd old)
dup_at s _ _ = (s, fail ebadf)

pub sys_dup2 : Files → ℤ → ℤ → Files × Return ℕ
unfolding dup_at
sys_dup2 s oldfd newfd = dup_at s (fd_index oldfd) (fd_index newfd)

-- What the calls in sys_open answer: the address from kmalloc, whether lock_create and the second
-- kmalloc succeed, whether copyinstr does, and the vnode or the error of vfs_open.
pub record OpenCalls : Type 0 where
  pub new_file : Option ℕ
  pub got_mutex : Bool
  pub got_kbuf : Bool
  pub copied : Bool
  pub opened : Return ℕ

-- The exits err2 to err4 of sys_open: the entry is freed and the descriptor cleared.
abbrev pub close_new : Files → ℕ → ℕ → Errno → Files × Return ℕ
close_new s i f e = (record s { fd = set s.fd i none; live = update s.live f false }, fail e)

-- The entry that kmalloc gave, at the descriptor.
abbrev pub with_entry : Files → ℕ → ℕ → Files
with_entry s i f = record s { fd = set s.fd i (some f); live = update s.live f true }

abbrev pub filled : Files → ℕ → ℕ → Files
filled s f flags = record s {
  files = update s.files f (record {
    status = flags % 4;
    offset = pos 0;
    refcnt = pos 1;
    update_pos = true;
    vnode = (s.files f).vnode;
  });
}

unfoldable pub open_vnode : Files → ℕ → ℕ → Return ℕ → Files × Return ℕ
open_vnode s i f (fail e) = close_new s i f e
open_vnode s i f (ok vnode) =
    (record s { files = update s.files f (record (s.files f) { vnode = vnode }) }, ok i)

-- sys_open at the free descriptor `i`.
open_at : Files → ℕ → ℕ → OpenCalls → Option ℕ → Files × Return ℕ
unfolding open_vnode
open_at s i flags calls none = (record s { fd = set s.fd i none }, fail enomem)
open_at s i flags calls (some f) =
    let s1 = with_entry s i f in
    let s2 = filled s1 f flags in
    if not calls.got_mutex
    then close_new s1 i f enomem
    else if not calls.got_kbuf
    then close_new s2 i f enomem
    else if not calls.copied
    then close_new s2 i f efault
    else open_vnode s2 i f calls.opened

-- The search of sys_open for a descriptor, with `rounds` left from `i` on.
open_loop : ℕ → ℕ → Files → ℕ → OpenCalls → Files × Return ℕ
unfolding open_at
open_loop zero i s flags calls = (s, fail emfile)
open_loop (suc rounds) i s flags calls =
    let rest = open_loop rounds (suc i) s flags calls in
    elim (entry_of s.fd i) [ some f ↦ rest | none ↦ open_at s i flags calls calls.new_file ]

-- `flags & O_ACCMODE` is `flags % 4`, and 3 is no access mode. A NULL file name is `false`.
pub sys_open : Files → Bool → ℕ → OpenCalls → Files × Return ℕ
unfolding open_loop
sys_open s filename flags calls =
    if flags % 4 == 3
    then (s, fail einval)
    else if not filename
    then (s, fail efault)
    else open_loop max_file_descriptor 0 s flags calls

-- The loop of sys_fork over the descriptors: the child's table, and each file shared once more.
pub inherit : List (Option ℕ) → (ℕ → OpenFile) → ℕ → OpenFile
unfolding ◌+ℤ◌
inherit [] files = files
inherit (none ∷ fd) files = inherit fd files
inherit (some f ∷ fd) files =
    inherit fd
      (let file = files f in update files f (record file { refcnt = file.refcnt +ℤ pos 1 }))

pub fork_files : Files → Files
unfolding inherit
fork_files s = record s { others = s.fd ∷ s.others; files = inherit s.fd s.files }

-- SEEK_SET, SEEK_CUR, SEEK_END
pub data Whence : Type 0 where
  seek_set seek_cur seek_end : Whence

-- What an off_t of 64 bits holds of a sum.
abbrev pub to_off_t : ℤ → ℤ
to_off_t (pos n) =
    if ltb (n % 2 ^ 64) (2 ^ 63) then pos (n % 2 ^ 64) else negsuc (2 ^ 64 - 1 - n % 2 ^ 64)
to_off_t (negsuc n) =
    if ltb (n % 2 ^ 64) (2 ^ 63) then negsuc (n % 2 ^ 64) else pos (2 ^ 64 - 1 - n % 2 ^ 64)

abbrev pub new_position : Whence → OpenFile → ℤ → ℤ → ℤ
new_position seek_set file size p = p
new_position seek_cur file size p = to_off_t (file.offset +ℤ p)
new_position seek_end file size p = to_off_t (size +ℤ p)

seek_to : Files → ℕ → ℤ → Option Errno → Files × Return ℤ
seek_to s f newpos (some e) = (s, fail e)
seek_to s f newpos none =
    let file = s.files f in
    (record s { files = update s.files f (record file { offset = newpos }) }, ok newpos)

seek_file : Files → Whence → ℤ → ℤ → (ℤ → Option Errno) → Option ℕ → Files × Return ℤ
unfolding seek_to
seek_file s whence p size tryseek none = (s, fail ebadf)
seek_file s whence p size tryseek (some f) =
    let newpos = new_position whence (s.files f) size p in
    if not (s.files f).update_pos
    then (s, fail espipe)
    else if ltb_ℤ newpos (pos 0)
    then (s, fail einval)
    else seek_to s f newpos (tryseek newpos)

seek_at : Files → Option ℕ → Whence → ℤ → ℤ → (ℤ → Option Errno) → Files × Return ℤ
unfolding seek_file
seek_at s none whence p size tryseek = (s, fail ebadf)
seek_at s (some n) whence p size tryseek = seek_file s whence p size tryseek (entry_of s.fd n)

-- sys_lseek; `none` is a `whence` that is none of the three, `size` is what VOP_STAT gives, and
-- `tryseek` is VOP_TRYSEEK.
pub sys_lseek : Files → ℤ → ℤ → Option Whence → ℤ → (ℤ → Option Errno) → Files × Return ℤ
unfolding seek_at
sys_lseek s fd p none size tryseek = (s, fail einval)
sys_lseek s fd p (some whence) size tryseek = seek_at s (fd_index fd) whence p size tryseek
