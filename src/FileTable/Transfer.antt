-- ===== src/FileTable/Transfer.antt =====
-- sys_rw of kern/syscall/io_syscalls.c, and sys_read and sys_write. What VOP_READ and VOP_WRITE do to
-- the offset of the uio, and the error that they return, is an argument.
use petrel_os.Base.{
  ℕ, ◌-◌, ◌%◌, ◌≡◌, refl, sym, ap, ◌∙◌, subst, ◌≢◌, inl, inr, Bool, true, false, not, ◌||◌, Option,
  none, some, arith, ltb, ◌==◌, if◌then◌else◌, ==_iff, ==_refl, Bool-cases, update, Errno, efault,
  ebadf, Return, ok, fail,
}
use petrel_os.Base.Int.{ℤ, pos, negsuc, ◌-ℤ◌}
use petrel_os.FileTable.{OpenFile, Files, fd_index, entry_of}
use petrel_os.FileTable.Counts.{IsCounted}

-- O_RDONLY and O_WRONLY
pub data Mode : Type 0 where
  rdonly wronly : Mode

abbrev pub mode_bits : Mode → ℕ
mode_bits rdonly = 0
mode_bits wronly = 1

-- The access of a file that was opened with `status`; 2 is O_RDWR.
abbrev pub allows : ℕ → Mode → Bool
allows status mode = (status == mode_bits mode) || (status == 2)

-- VOP_READ or VOP_WRITE on a vnode, from an offset and for a length: the offset that it leaves in the
-- uio, and its error code.
abbrev pub VnodeOp : Type 0
VnodeOp = Mode → ℕ → ℤ → ℕ → ℤ × Option Errno

-- A value of type off_t, assigned to an int of 32 bits.
abbrev pub to_int : ℤ → ℤ
to_int (pos n) =
    let m = n % 4294967296 in if ltb m 2147483648 then pos m else negsuc (4294967295 - m)
to_int (negsuc n) =
    let m = n % 4294967296 in if ltb m 2147483648 then negsuc m else pos (4294967295 - m)

-- The file after the transfer.
abbrev pub moved_file : OpenFile → ℤ → OpenFile
moved_file file offset = if file.update_pos then record file { offset = offset } else file

-- The result is `diff` and the error code, which sys_rw gives back together.
transfer : Files → ℕ → ℕ → Mode → VnodeOp → Files × Return (ℤ × Option Errno)
unfolding ◌-ℤ◌
transfer s f len mode op =
    let file = s.files f in
    let (offset, error) = op mode file.vnode file.offset len in
    (
      record s { files = update s.files f (moved_file file offset) },
      ok (to_int (offset -ℤ file.offset), error),
    )

rw_file : Files → Bool → ℕ → Mode → VnodeOp → Option ℕ → Files × Return (ℤ × Option Errno)
unfolding transfer
rw_file s buf len mode op none = (s, fail ebadf)
rw_file s buf len mode op (some f) =
    if not buf
    then (s, fail efault)
    else if not (allows (s.files f).status mode)
    then (s, fail ebadf)
    else transfer s f len mode op

rw_at : Files → Option ℕ → Bool → ℕ → Mode → VnodeOp → Files × Return (ℤ × Option Errno)
unfolding rw_file
rw_at s none buf len mode op = (s, fail ebadf)
rw_at s (some n) buf len mode op = rw_file s buf len mode op (entry_of s.fd n)

-- `buf` is false for NULL.
pub sys_rw : Files → ℤ → Bool → ℕ → Mode → VnodeOp → Files × Return (ℤ × Option Errno)
unfolding rw_at
sys_rw s fd buf len mode op = rw_at s (fd_index fd) buf len mode op

pub sys_read : Files → ℤ → Bool → ℕ → VnodeOp → Files × Return (ℤ × Option Errno)
unfolding sys_rw
sys_read s fd buf len op = sys_rw s fd buf len rdonly op

pub sys_write : Files → ℤ → Bool → ℕ → VnodeOp → Files × Return (ℤ × Option Errno)
unfolding sys_rw
sys_write s fd buf len op = sys_rw s fd buf len wronly op

-- The transfer moves the offset of a file by what it returns, or leaves a console where it is.
pub record IsMoved (s : Files) (f : ℕ) (mode : Mode) (len : ℕ) (op : VnodeOp) (s' : Files)
    (diff : ℤ) (error : Option Errno) : Type 0 where
  pub offset : (s'.files f).offset ≡ (
      if (s.files f).update_pos
      then (op mode (s.files f).vnode (s.files f).offset len).0
      else (s.files f).offset)
  pub result :
      diff ≡ to_int ((op mode (s.files f).vnode (s.files f).offset len).0 -ℤ (s.files f).offset)
  pub error_is : error ≡ (op mode (s.files f).vnode (s.files f).offset len).1
  pub refcnt : (g : ℕ) → (s'.files g).refcnt ≡ (s.files g).refcnt
  pub others : (g : ℕ) → g ≢ f → s'.files g ≡ s.files g
  pub table : s'.fd ≡ s.fd
  pub counted : IsCounted s → IsCounted s'

pub data RwResult (s : Files) (fd : ℤ) (buf : Bool) (len : ℕ) (mode : Mode) (op : VnodeOp)
    : Files × Return (ℤ × Option Errno) → Type 0 where
  not_open :
      ((n : ℕ) → fd_index fd ≡ some n → entry_of s.fd n ≡ none)
      → RwResult s fd buf len mode op (s, fail ebadf)
  no_buffer :
      (n f : ℕ)
      → fd_index fd ≡ some n
      → entry_of s.fd n ≡ some f
      → buf ≡ false
      → RwResult s fd buf len mode op (s, fail efault)
  no_access :
      (n f : ℕ)
      → fd_index fd ≡ some n
      → entry_of s.fd n ≡ some f
      → buf ≡ true
      → allows (s.files f).status mode ≡ false
      → RwResult s fd buf len mode op (s, fail ebadf)
  moved :
      (n f : ℕ) {s' : Files} (diff : ℤ) (error : Option Errno)
      → fd_index fd ≡ some n
      → entry_of s.fd n ≡ some f
      → buf ≡ true
      → allows (s.files f).status mode ≡ true
      → IsMoved s f mode len op s' diff error
      → RwResult s fd buf len mode op (s', ok (diff, error))

moved_file-refcnt : (file : OpenFile) (offset : ℤ) → (moved_file file offset).refcnt ≡ file.refcnt
moved_file-refcnt file offset = elim (Bool-cases file.update_pos) [
  | inl moves ↦ rw moves refl
  | inr stays ↦ rw stays refl
]

moved_file-offset :
    (file : OpenFile) (offset : ℤ)
    → (moved_file file offset).offset ≡ (if file.update_pos then offset else file.offset)
moved_file-offset file offset = by_pos file.update_pos
  where
    by_pos :
        (update_pos : Bool)
        → (if update_pos then record file { offset = offset } else file).offset
          ≡ (if update_pos then offset else file.offset)
    by_pos true = refl
    by_pos false = refl

transfer-RwResult :
    (s : Files) (fd : ℤ) (buf : Bool) (len : ℕ) (mode : Mode) (op : VnodeOp) (n f : ℕ)
    → fd_index fd ≡ some n
    → entry_of s.fd n ≡ some f
    → buf ≡ true
    → allows (s.files f).status mode ≡ true
    → RwResult s fd buf len mode op (transfer s f len mode op)
unfolding transfer
transfer-RwResult s fd buf len mode op n f i e b access = moved n f _ _ i e b access (record {
  offset =
      ap (λ x. x.offset) at_f
      ∙ moved_file-offset (s.files f) (op mode (s.files f).vnode (s.files f).offset len).0;
  result = refl;
  error_is = refl;
  refcnt = refcnt;
  others = λ g ne. rw (apart g ne) refl;
  table = refl;
  counted = λ c. record {
    size = c.size;
    counted = λ g alive. refcnt g ∙ c.counted g alive;
    used = c.used;
    dangling = c.dangling;
  };
})
  where
    file : OpenFile
    file = moved_file (s.files f) (op mode (s.files f).vnode (s.files f).offset len).0

    at_f : update s.files f file f ≡ file
    at_f = rw (==_refl f) refl

    apart : (g : ℕ) → g ≢ f → (g == f) ≡ false
    apart g ne = ground (arith, ==_iff g f, ne)

    refcnt : (g : ℕ) → (update s.files f file g).refcnt ≡ (s.files g).refcnt
    refcnt g = elim (Bool-cases (g == f)) [
      | inl one ↦
          let at_g : g ≡ f = (==_iff g f).0 one in
          subst (λ g. (update s.files f file g).refcnt ≡ (s.files g).refcnt) (sym at_g)
            (ap (λ x. x.refcnt) at_f
              ∙ moved_file-refcnt (s.files f) (op mode (s.files f).vnode (s.files f).offset len).0)
      | inr two ↦ rw two refl
    ]

-- What sys_rw does, whatever the vnode does: EBADF for a descriptor that is not open, EFAULT for a
-- NULL buffer, EBADF for a file that was not opened for the access, each with nothing changed; and
-- otherwise the offset of a file with a position becomes the one that the vnode left, the result is
-- the difference as an int and the vnode's error, and no other open file, no descriptor and no
-- reference count changes.
pub sys_rw-RwResult :
    (s : Files) (fd : ℤ) (buf : Bool) (len : ℕ) (mode : Mode) (op : VnodeOp)
    → RwResult s fd buf len mode op (sys_rw s fd buf len mode op)
unfolding sys_rw rw_at rw_file
sys_rw-RwResult s fd buf len mode op = at (fd_index fd) refl
  where
    access :
        (n f : ℕ) (allowed : Bool)
        → fd_index fd ≡ some n
        → entry_of s.fd n ≡ some f
        → buf ≡ true
        → allows (s.files f).status mode ≡ allowed
        → RwResult s fd buf len mode op
            (if not allowed then (s, fail ebadf) else transfer s f len mode op)
    access n f false i e b a = no_access n f i e b a
    access n f true i e b a = transfer-RwResult s fd buf len mode op n f i e b a

    buffer :
        (n f : ℕ) (given : Bool)
        → buf ≡ given
        → fd_index fd ≡ some n
        → entry_of s.fd n ≡ some f
        → RwResult s fd buf len mode op (
            if not given
            then (s, fail efault)
            else if not (allows (s.files f).status mode)
            then (s, fail ebadf)
            else transfer s f len mode op)
    buffer n f false b i e = no_buffer n f i e b
    buffer n f true b i e = access n f (allows (s.files f).status mode) i e b refl

    one_index : {m n : ℕ} → fd_index fd ≡ some m → fd_index fd ≡ some n → m ≡ n
    one_index i j = cc (i, j)

    entry :
        (n : ℕ) (o : Option ℕ)
        → fd_index fd ≡ some n
        → entry_of s.fd n ≡ o
        → RwResult s fd buf len mode op (rw_file s buf len mode op o)
    entry n none i e = not_open (λ m j. ap (entry_of s.fd) (one_index j i) ∙ e)
    entry n (some f) i e = buffer n f buf refl i e

    none_some : {n : ℕ} → fd_index fd ≡ none → fd_index fd ≡ some n → ⊥
    none_some i j = cc (i, j)

    at :
        (o : Option ℕ) → fd_index fd ≡ o → RwResult s fd buf len mode op (rw_at s o buf len mode op)
    at none i = not_open (λ n j. absurd (none_some i j))
    at (some n) i = entry n (entry_of s.fd n) i refl
