-- ===== src/FileTable/OpenCounts.antt =====
-- The reference counts after sys_open of kern/syscall/io_syscalls.c.
use petrel_os.Base.{
  ℕ, ◌+◌, ◌≡◌, refl, sym, ap, ◌∙◌, inl, inr, Bool, true, false, some, arith, ◌==◌, ==_iff, ==-cases,
  update, length, set, length-set, Return,
}
use petrel_os.Base.Int.{pos}
use petrel_os.FileTable.{Files, OpenCalls, entry_of, same_file, sys_open}
use petrel_os.FileTable.Counts.{one_if, total, IsCounted, refs-set}
use petrel_os.FileTable.Open.{
  IsLowest, IsRestored, IsOpened, OpenResult, bad_flags, no_name, full, refused, opened,
  sys_open-OpenResult,
}

-- Where the reference counts are right and kmalloc gives an address that is not in use, the counts are
-- right after sys_open, on an error too.
pub sys_open-IsCounted :
    (s : Files) (filename : Bool) (flags : ℕ) (calls : OpenCalls)
    → IsCounted s
    → ((f : ℕ) → calls.new_file ≡ some f → s.live f ≡ false)
    → IsCounted (sys_open s filename flags calls).0
sys_open-IsCounted s filename flags calls c fresh =
    go (sys_open-OpenResult s filename flags calls fresh)
  where
    total_opened :
        (s' : Files) (i f g : ℕ)
        → IsLowest s.fd i
        → s'.fd ≡ set s.fd i (some f)
        → s'.others ≡ s.others
        → total s' g ≡ total s g + one_if (f == g)
    total_opened s' i f g low e o =
        let r = refs-set g s.fd i (some f) (omega (arith, low.inside, c.size)) in
        let at_i : one_if (same_file (entry_of s.fd i) g) ≡ 0 =
          ap (λ x. one_if (same_file x g)) low.free in
        rw (e, o) (omega (arith, r, at_i))

    restored : {s' : Files} → IsRestored s s' → IsCounted s'
    restored {s'} r = record {
      size = ap length r.fd ∙ c.size;
      counted = λ g alive.
          let before : s.live g ≡ true = sym (r.live g) ∙ alive in
          ap (λ x. x.refcnt) (r.files g before)
          ∙ c.counted g before
          ∙ ap pos (sym (total_restored g));
      used = λ g alive. omega (arith, total_restored g, c.used g (sym (r.live g) ∙ alive));
      dangling = λ g dead. total_restored g ∙ c.dangling g (sym (r.live g) ∙ dead);
    }
      where
        total_restored : (g : ℕ) → total s' g ≡ total s g
        total_restored g = rw (r.fd, r.others) refl

    opened_counted :
        (i f vnode : ℕ) {s' : Files}
        → IsLowest s.fd i
        → s.live f ≡ false
        → IsOpened s i f vnode flags s'
        → IsCounted s'
    opened_counted i f vnode {s'} low dead_f r = record {
      size = ap length r.fd ∙ length-set s.fd i (some f) ∙ c.size;
      counted = λ g alive. elim (==-cases g f) [
        | inl e ↦
            let one : total s' g ≡ 1 =
              ground (arith, more g, c.dangling g, ap s.live e, dead_f, ==_iff f g, e) in
            ap (λ x. (s'.files x).refcnt) e ∙ ap (λ x. x.refcnt) r.entry ∙ ap pos (sym one)
        | inr ne ↦
            let before : s.live g ≡ true = ground (arith, at g, alive, ==_iff g f, ne) in
            let same : total s' g ≡ total s g = ground (arith, more g, ==_iff f g, ne) in
            ap (λ x. x.refcnt) (r.files g ne) ∙ c.counted g before ∙ ap pos (sym same)
      ];
      used = λ g alive. ground (arith, more g, at g, alive, c.used g, ==_iff f g, ==_iff g f);
      dangling = λ g dead. ground (arith, more g, at g, dead, c.dangling g, ==_iff f g, ==_iff g f);
    }
      where
        more : (g : ℕ) → total s' g ≡ total s g + one_if (f == g)
        more g = total_opened s' i f g low r.fd r.others.0

        at : (g : ℕ) → s'.live g ≡ update s.live f true g
        at g = ap (λ h. h g) r.live

    go : {r : Files × Return ℕ} → OpenResult s filename flags calls r → IsCounted r.0
    go (bad_flags h) = c
    go (no_name m h) = c
    go (full p h) = c
    go (refused i e p low h r) = restored r
    go (opened i f vnode p low ready o r) = opened_counted i f vnode low (fresh f ready.entry) r
