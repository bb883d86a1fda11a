-- ===== src/FileTable/Fork.antt =====
-- The loop of kern/syscall/fork.c that gives the child the open files of its parent.
use petrel_os.Base.{
  ℕ, ◌+◌, ◌≡◌, sym, ap, ◌∙◌, inl, inr, false, Option, none, some, List, [], ◌∷◌, arith, ◌==◌,
  ==_iff, ==_refl, Bool-cases, update,
}
use petrel_os.Base.Int.{pos, ◌+ℤ◌}
use petrel_os.FileTable.{OpenFile, Files, inherit, fork_files}
use petrel_os.FileTable.Counts.{one_if, refs, total, IsCounted}
use petrel_os.FileTable.Dup.{one_more}

refcnt-bumped :
    (files : ℕ → OpenFile) (f g n : ℕ)
    → (files f).refcnt ≡ pos n
    → (update files g (record (files g) { refcnt = (files g).refcnt +ℤ pos 1 }) f).refcnt
      ≡ pos (n + one_if (g == f))
refcnt-bumped files f g n e = elim (Bool-cases (f == g)) [
  | inl one ↦ let at_g : f ≡ g = (==_iff f g).0 one in rw (one, sym at_g, e, ==_refl f) (one_more n)
  | inr two ↦
      let apart : (g == f) ≡ false = ground (arith, two, ==_iff f g, ==_iff g f) in
      rw (two, apart, e) (ap pos (omega arith))
]

inherit-refcnt :
    (fd : List (Option ℕ)) (files : ℕ → OpenFile) (f n : ℕ)
    → (files f).refcnt ≡ pos n
    → (inherit fd files f).refcnt ≡ pos (n + refs f fd)
unfolding inherit
inherit-refcnt [] files f n e = e ∙ ap pos (omega arith)
inherit-refcnt (none ∷ fd) files f n e = inherit-refcnt fd files f n e ∙ ap pos (omega arith)
inherit-refcnt (some g ∷ fd) files f n e =
    inherit-refcnt fd _ f (n + one_if (g == f)) (refcnt-bumped files f g n e) ∙ ap pos (omega arith)

-- sys_fork keeps the reference counts right, each file being shared as often more as the parent's
-- table refers to it.
pub fork_files-IsCounted : (s : Files) → IsCounted s → IsCounted (fork_files s)
unfolding fork_files
fork_files-IsCounted s c = record {
  size = c.size;
  counted = λ f alive.
      inherit-refcnt s.fd s.files f (total s f) (c.counted f alive) ∙ ap pos (omega arith);
  used = λ f alive. omega (arith, c.used f alive);
  dangling = λ f dead. omega (arith, c.dangling f dead);
}
