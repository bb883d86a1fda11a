-- ===== src/FileTable/Close.antt =====
-- sys_close of kern/syscall/io_syscalls.c on the table and the reference counts.
use petrel_os.Base.{
  ℕ, zero, suc, ◌+◌, ◌-◌, ◌<◌, ◌≡◌, refl, sym, ap, ◌∙◌, inl, inr, false, Option, none, some, List,
  ◌∷◌, arith, ◌==◌, ==_iff, lt→ltb, Bool-cases, Option-cases, update, length, set, length-set,
  set-set, set-get_or, Errno, ebadf,
}
use petrel_os.Base.Int.{ℤ, pos, ◌-ℤ◌}
use petrel_os.FileTable.{
  Files, max_file_descriptor, entry_of, same_file, fd_index, clear_loop, close_file, close_entry,
  close_at, sys_close,
}
use petrel_os.FileTable.Counts.{one_if, refs, refs_all, total, IsCounted, refs-set, entry-live}

-- Whatever the loop over the descriptors clears is the descriptor that is closed.
clear_loop-set :
    (rounds i n f : ℕ) (fd : List (Option ℕ))
    → set (clear_loop rounds i n f fd) n none ≡ set fd n none
unfolding clear_loop
clear_loop-set zero i n f fd = refl
clear_loop-set (suc rounds) i n f fd = elim (Bool-cases (same_file (entry_of fd i) f)) [
  | inl same ↦ rw same (clear_loop-set rounds (suc i) n f (set fd n none) ∙ set-set fd n none none)
  | inr other ↦ rw other (clear_loop-set rounds (suc i) n f fd)
]

pub one_less : (t : ℕ) → 0 < t → pos t -ℤ pos 1 ≡ pos (t - 1)
unfolding ◌-ℤ◌
one_less t h = ground arith

-- The state after the close, by the number of references that there were.
pub data Closed (s : Files) (n f : ℕ) : Files → Type 0 where
  last :
      total s f ≡ 1
      → Closed s n f (
          let file = s.files f in
          record s {
            fd = set s.fd n none;
            files = update s.files f (record file { refcnt = pos 0 });
            live = update s.live f false;
            closed = file.vnode ∷ s.closed;
          })
  shared :
      1 < total s f
      → Closed s n f (
          let file = s.files f in
          record s {
            fd = set s.fd n none;
            files = update s.files f (record file { refcnt = pos (total s f - 1) });
          })

pub close_file-Closed :
    (s : Files) (n f : ℕ) → IsCounted s → entry_of s.fd n ≡ some f → Closed s n f (close_file s n f)
unfolding close_file
close_file-Closed s n f c e =
    let alive = entry-live c n f e in
    let h = c.used f alive in
    let left : (s.files f).refcnt -ℤ pos 1 ≡ pos (total s f - 1) =
      ap (λ r. r -ℤ pos 1) (c.counted f alive) ∙ one_less (total s f) h in
    elim (Bool-cases (total s f == 1)) [
      | inl one ↦
          let e1 : total s f ≡ 1 = (==_iff (total s f) 1).0 one in
          let z : (s.files f).refcnt -ℤ pos 1 ≡ pos 0 = left ∙ ap pos (omega (arith, e1)) in
          rw (z, clear_loop-set max_file_descriptor 0 n f s.fd) (last e1)
      | inr more ↦
          let many : 1 < total s f = ground arith in
          rw (left, not_zero (total s f) many) (shared many)
    ]
  where
    not_zero : (t : ℕ) → 1 < t → (t - 1 + 0 == 0 + 0) ≡ false
    not_zero t h = ground arith

-- Clearing a descriptor takes one reference from its file, and none from any other.
total_cleared :
    (s : Files) (n f g : ℕ)
    → length s.fd ≡ max_file_descriptor
    → n < max_file_descriptor
    → entry_of s.fd n ≡ some f
    → refs g (set s.fd n none) + refs_all g s.others + one_if (f == g) ≡ total s g
total_cleared s n f g size h e =
    let r = refs-set g s.fd n none (omega (arith, size)) in
    let at_n : one_if (same_file (entry_of s.fd n) g) ≡ one_if (f == g) =
      ap (λ x. one_if (same_file x g)) e in
    omega (arith, r, at_n)

pub Closed-IsCounted :
    (s : Files) (n f : ℕ) {s' : Files}
    → IsCounted s
    → n < max_file_descriptor
    → entry_of s.fd n ≡ some f
    → Closed s n f s'
    → IsCounted s'
Closed-IsCounted s n f c h e (last one) = record {
  size = length-set s.fd n none ∙ c.size;
  counted = λ g alive. ground (arith, total_cleared s n f g c.size h e, c.counted g);
  used = λ g alive. ground (arith, total_cleared s n f g c.size h e, c.used g);
  dangling =
      λ g dead. ground (arith, total_cleared s n f g c.size h e, c.dangling g, ==_iff f g, one);
}
Closed-IsCounted s n f c h e (shared many) = record {
  size = length-set s.fd n none ∙ c.size;
  counted = λ g alive. ground (arith, total_cleared s n f g c.size h e, c.counted g, ==_iff f g);
  used = λ g alive. ground (arith, total_cleared s n f g c.size h e, c.used g, ==_iff f g, many);
  dangling = λ g dead. ground (arith, total_cleared s n f g c.size h e, c.dangling g, ==_iff f g);
}

-- The result of sys_close, and the state that it leaves.
pub data CloseResult (s : Files) (fd : ℤ) : Files × Option Errno → Type 0 where
  bad : ((n : ℕ) → fd_index fd ≡ some n → entry_of s.fd n ≡ none) → CloseResult s fd (s, some ebadf)
  closed :
      (n f : ℕ) {s' : Files}
      → fd_index fd ≡ some n
      → entry_of s.fd n ≡ some f
      → Closed s n f s'
      → CloseResult s fd (s', none)

pub fd_index-lt : (fd : ℤ) (n : ℕ) → fd_index fd ≡ some n → n < max_file_descriptor
fd_index-lt fd n e = ground arith

pub one_index : {o : Option ℕ} {m n : ℕ} → o ≡ some m → o ≡ some n → m ≡ n
one_index e e' = cc (e, e')

-- What sys_close does where the reference counts are right: EBADF, with nothing changed, for a
-- descriptor that is not open; otherwise one reference less, the descriptor cleared, and vfs_close on
-- the vnode exactly where that was the last reference.
pub sys_close-CloseResult : (s : Files) (fd : ℤ) → IsCounted s → CloseResult s fd (sys_close s fd)
unfolding sys_close close_at close_entry
sys_close-CloseResult s fd c = elim (Option-cases (fd_index fd)) [
  | inl out ↦ rw out (bad (λ n e. absurd (ground arith)))
  | inr (n, inside) ↦ elim (Option-cases (entry_of s.fd n)) [
    | inl null ↦ rw (inside, null) (bad (λ m e. ap (entry_of s.fd) (one_index e inside) ∙ null))
    | inr (f, e) ↦ rw (inside, e) (closed n f inside e (close_file-Closed s n f c e))
  ]
]

pub Closed-fd : (s : Files) (n f : ℕ) {s' : Files} → Closed s n f s' → s'.fd ≡ set s.fd n none
Closed-fd s n f (last h) = refl
Closed-fd s n f (shared h) = refl

-- Whether it was open or not, a descriptor in range refers to nothing after sys_close.
pub sys_close-fd :
    (s : Files) (n : ℕ)
    → IsCounted s
    → n < max_file_descriptor
    → (sys_close s (pos n)).0.fd ≡ set s.fd n none
sys_close-fd s n c h = go (sys_close-CloseResult s (pos n) c)
  where
    inside : fd_index (pos n) ≡ some n
    inside = rw (lt→ltb n max_file_descriptor h) refl

    go : {r : Files × Option Errno} → CloseResult s (pos n) r → r.0.fd ≡ set s.fd n none
    go (bad null) = sym (set-get_or s.fd n none) ∙ ap (set s.fd n) (null n inside)
    go (closed m f at e shut) =
        Closed-fd s m f shut ∙ ap (λ k. set s.fd k none) (one_index at inside)

-- Where the reference counts of all open files are right, they are right after sys_close, whatever
-- descriptor it is given.
pub sys_close-IsCounted : (s : Files) (fd : ℤ) → IsCounted s → IsCounted (sys_close s fd).0
sys_close-IsCounted s fd c = go (sys_close-CloseResult s fd c)
  where
    go : {r : Files × Option Errno} → CloseResult s fd r → IsCounted r.0
    go (bad h) = c
    go (closed n f inside e shut) = Closed-IsCounted s n f c (fd_index-lt fd n inside) e shut
