-- ===== src/FileTable/Dup.antt =====
-- sys_dup2 of kern/syscall/io_syscalls.c on the table and the reference counts.
use petrel_os.Base.{
  ℕ, ◌+◌, ◌<◌, ◌≡◌, refl, sym, ap, ◌∙◌, subst, ◌≢◌, inl, inr, true, ◌||◌, none, some, arith, ◌==◌,
  ==_iff, Bool-cases, Option-cases, length, set, length-set, get_or-set_self, set-set, ebadf,
  Return, ok, fail,
}
use petrel_os.Base.Int.{ℤ, pos, ◌+ℤ◌}
use petrel_os.FileTable.{
  Files, max_file_descriptor, entry_of, same_file, fd_index, close_file, close_entry, share,
  dup_files, dup_from, dup_at, sys_dup2,
}
use petrel_os.FileTable.Counts.{one_if, refs, refs_all, total, IsCounted, refs-set, entry-live}
use petrel_os.FileTable.Close.{Closed, Closed-fd, close_file-Closed, Closed-IsCounted, fd_index-lt}
use petrel_os.FileTable.Close

pub one_more : (t : ℕ) → pos t +ℤ pos 1 ≡ pos (t + 1)
unfolding ◌+ℤ◌
one_more t = ground arith

-- Filling a free descriptor adds one reference to its file, and none to any other.
total_shared :
    (s : Files) (n f g : ℕ)
    → length s.fd ≡ max_file_descriptor
    → n < max_file_descriptor
    → entry_of s.fd n ≡ none
    → refs g (set s.fd n (some f)) + refs_all g s.others ≡ total s g + one_if (f == g)
total_shared s n f g size h e =
    let r = refs-set g s.fd n (some f) (omega (arith, size)) in
    let at_n : one_if (same_file (entry_of s.fd n) g) ≡ 0 = ap (λ x. one_if (same_file x g)) e in
    omega (arith, r, at_n)

share-IsCounted :
    (s : Files) (n f : ℕ)
    → IsCounted s
    → n < max_file_descriptor
    → entry_of s.fd n ≡ none
    → s.live f ≡ true
    → IsCounted (share s n f)
unfolding share
share-IsCounted s n f c h e alive =
    let more : (s.files f).refcnt +ℤ pos 1 ≡ pos (total s f + 1) =
      ap (λ r. r +ℤ pos 1) (c.counted f alive) ∙ one_more (total s f) in
    record {
      size = length-set s.fd n (some f) ∙ c.size;
      counted =
          λ g live. ground (arith, total_shared s n f g c.size h e, c.counted g, ==_iff f g, more);
      used = λ g live. omega (arith, total_shared s n f g c.size h e, c.used g live);
      dangling =
          λ g dead. ground (arith, total_shared s n f g c.size h e, c.dangling g, ==_iff f g);
    }

-- After a close the descriptor is free, every other is as it was, and a file that another one refers
-- to is still open.
Closed-live :
    (s : Files) (n f : ℕ) {s' : Files}
    → Closed s n f s'
    → (g : ℕ) → f ≢ g
    → s.live g ≡ true
    → s'.live g ≡ true
Closed-live s n f (Close.last h) g ne alive = ground (arith, ==_iff f g, ==_iff g f)
Closed-live s n f (Close.shared h) g ne alive = alive

-- What sys_dup2 does.
pub data DupResult (s : Files) (oldfd newfd : ℤ) : Files × Return ℕ → Type 0 where
  bad :
      ((old new f : ℕ)
        → fd_index oldfd ≡ some old
        → fd_index newfd ≡ some new
        → entry_of s.fd old ≢ some f)
      → DupResult s oldfd newfd (s, fail ebadf)
  same :
      (old new f : ℕ)
      → fd_index oldfd ≡ some old
      → fd_index newfd ≡ some new
      → entry_of s.fd old ≡ some f
      → entry_of s.fd new ≡ some f
      → DupResult s oldfd newfd (s, ok old)
  shares :
      (old new f : ℕ) {s' : Files}
      → fd_index oldfd ≡ some old
      → fd_index newfd ≡ some new
      → entry_of s.fd old ≡ some f
      → s'.fd ≡ set s.fd new (some f)
      → IsCounted s'
      → DupResult s oldfd newfd (s', ok new)

-- The descriptor that was closed takes the file `f`.
reuse :
    (s s' : Files) (old new f g : ℕ)
    → IsCounted s
    → new < max_file_descriptor
    → entry_of s.fd old ≡ some f
    → entry_of s.fd new ≡ some g
    → g ≢ f
    → Closed s new g s'
    → IsCounted (share s' new f)
reuse s s' old new f g c h e e' ne shut =
    let left : s'.fd ≡ set s.fd new none = Closed-fd s new g shut in
    share-IsCounted s' new f (Closed-IsCounted s new g c h e' shut) h
      (ap (λ fd. entry_of fd new) left
        ∙ get_or-set_self s.fd new none none (omega (arith, h, c.size)))
      (Closed-live s new g shut f ne (entry-live c old f e))

reuse-fd :
    (s s' : Files) (new f g : ℕ) → Closed s new g s' → (share s' new f).fd ≡ set s.fd new (some f)
unfolding share
reuse-fd s s' new f g shut =
    ap (λ fd. set fd new (some f)) (Closed-fd s new g shut) ∙ set-set s.fd new none (some f)

share-fd : (s : Files) (new f : ℕ) → (share s new f).fd ≡ set s.fd new (some f)
unfolding share
share-fd s new f = refl

-- The two ways in which the descriptors already share a file.
one_file :
    (s : Files) (old new f g : ℕ)
    → entry_of s.fd old ≡ some f
    → entry_of s.fd new ≡ some g
    → (old == new || (f == g)) ≡ true
    → entry_of s.fd new ≡ some f
one_file s old new f g e e' one = elim (Bool-cases (f == g)) [
  | inl equal ↦ e' ∙ ap some (sym ((==_iff f g).0 equal))
  | inr other ↦
      let at_old : old ≡ new = (==_iff old new).0 (ground (arith, one, other)) in
      subst (λ n. entry_of s.fd n ≡ some f) at_old e
]

-- sys_dup2 with right counts gives EBADF and changes nothing, or finds that both descriptors already
-- refer to one file and changes nothing, or makes `newfd` refer to the file of `oldfd`, no other
-- descriptor changing, and keeps the counts right. (In the second case it returns `oldfd`.)
pub sys_dup2-DupResult :
    (s : Files) (oldfd newfd : ℤ) → IsCounted s → DupResult s oldfd newfd (sys_dup2 s oldfd newfd)
unfolding sys_dup2 dup_at dup_from dup_files close_entry
sys_dup2-DupResult s oldfd newfd c = elim (Option-cases (fd_index oldfd)) [
  | inl out ↦ rw out (bad (λ old new f i j e. cc (out, i)))
  | inr (old, i) ↦ elim (Option-cases (fd_index newfd)) [
    | inl out ↦ rw (i, out) (bad (λ old' new f i' j e. cc (out, j)))
    | inr (new, j) ↦ elim (Option-cases (entry_of s.fd old)) [
      | inl null ↦ rw (i, j, null) (bad (λ old' new' f i' j' e. cc (i, i', null, e)))
      | inr (f, e) ↦ elim (Option-cases (entry_of s.fd new)) [
        | inl null ↦
            rw (i, j, e, null)
              (shares old new f i j e (share-fd s new f)
                (share-IsCounted s new f c (fd_index-lt newfd new j) null (entry-live c old f e)))
        | inr (g, e') ↦ elim (Bool-cases (old == new || (f == g))) [
          | inl one ↦ rw (i, j, e, e', one) (same old new f i j e (one_file s old new f g e e' one))
          | inr two ↦
              rw (i, j, e, e', two)
                (shares old new f i j e
                  (reuse-fd s (close_file s new g) new f g (close_file-Closed s new g c e'))
                  (reuse s (close_file s new g) old new f g c (fd_index-lt newfd new j) e e'
                    (λ q. absurd (ground (arith, two, ==_iff f g, q)))
                    (close_file-Closed s new g c e')))
        ]
      ]
    ]
  ]
]
