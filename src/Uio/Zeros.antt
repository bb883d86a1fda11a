-- ===== src/Uio/Zeros.antt =====
-- uiomovezeros of kern/lib/uio.c, as a sequence of calls of uiomove.
use petrel_os.Base.{
  ℕ, zero, suc, ◌+◌, ◌-◌, ◌%◌, ◌^◌, ◌≤◌, ◌<◌, min, ◌≡◌, sym, ap, ◌∙◌, subst, inl, inr, true, false,
  Option, none, arith, ltb, if◌then◌else◌, lt→ltb, lt-cases, Outcome, ◌>>=◌, Errno,
}
use petrel_os.Uio.{
  Uio, Memory, Copier, uio_read, is_sysspace, same_space, zero_after, zeros_loop, uiomovezeros,
  is_read,
}
use petrel_os.Uio.Moving.{uiomove-MoveResult}
use petrel_os.Uio.Progress.{IsWhole, Moved, MoveResult, moved, failed, unmoved}

Moved-trans : (u v x : Uio) (j k : ℕ) → Moved u v j → Moved v x k → Moved u x (j + k)
Moved-trans u v x j k a b = record {
  whole = b.whole;
  left = omega (arith, a.left, b.left);
  offset = b.offset ∙ (ap (λ o. (o + k) % 2 ^ 64) a.offset ∙ wrapped);
  kept = (b.kept.0 ∙ a.kept.0, b.kept.1 ∙ a.kept.1, b.kept.2 ∙ a.kept.2);
}
  where
    wrapped : ((u.uio_offset + j) % 2 ^ 64 + k) % 2 ^ 64 ≡ (u.uio_offset + (j + k)) % 2 ^ 64
    wrapped = omega arith

later-MoveResult :
    (u v : Uio) (amt n : ℕ) (r : Outcome (Option Errno × Uio × Memory))
    → amt ≤ n
    → Moved u v (min amt u.uio_resid)
    → MoveResult v (n - amt) r
    → MoveResult u n r
later-MoveResult u v amt n r a first (moved x m mv) =
    moved x m (subst (Moved u x) sum (Moved-trans u v x _ _ first mv))
  where
    sum : min amt u.uio_resid + min (n - amt) v.uio_resid ≡ min n u.uio_resid
    sum = omega (arith, first.left, a)
later-MoveResult u v amt n r a first (failed e x m k user less mv) =
    failed e x m (min amt u.uio_resid + k) (ap is_sysspace (sym first.kept.0) ∙ user)
      (omega (arith, a, less)) (Moved-trans u v x _ _ first mv)

zero_after-MoveResult :
    (u : Uio) (n amt : ℕ) (r : Outcome (Option Errno × Uio × Memory))
    (next : Uio → Memory → Outcome (Option Errno × Uio × Memory))
    → amt ≤ n
    → MoveResult u amt r
    → ((v : Uio) (m : Memory) (k : ℕ) → Moved u v k → MoveResult v (n - amt) (next v m))
    → MoveResult u n (r >>= zero_after next)
unfolding zero_after
zero_after-MoveResult u n amt r next a (moved v m mv) later =
    later-MoveResult u v amt n _ a mv (later v m _ mv)
zero_after-MoveResult u n amt r next a (failed e v m k user less mv) later =
    failed e v m k user (omega (arith, a, less)) mv

zeros_loop-MoveResult :
    (fuel : ℕ) (c : Copier) (t_addrspace : Option ℕ) (blank n : ℕ) (u : Uio) (m : Memory)
    → n < fuel
    → IsWhole u
    → same_space u.uio_space (if is_sysspace u.uio_segflg then none else t_addrspace) ≡ true
    → MoveResult u n (zeros_loop fuel c t_addrspace blank n u m)
unfolding zeros_loop zero_after
zeros_loop-MoveResult zero c t_addrspace blank n u m enough w own = absurd (omega arith)
zeros_loop-MoveResult (suc fuel) c t_addrspace blank n u m enough w own = elim (lt-cases 0 n) [
  | inr nothing ↦
      let test : ltb 0 n ≡ false = ground arith in
      let none_left : 0 ≡ min n u.uio_resid = omega (arith, nothing) in
      rw test (moved u m (subst (Moved u u) none_left (unmoved u w)))
  | inl asked ↦
      let amt = if ltb n 16 then n else 16 in
      let bounds : (0 < amt) × (amt ≤ n) = ground arith in
      rw (lt→ltb 0 n asked) (
        zero_after-MoveResult u n amt _ _ bounds.1
          (uiomove-MoveResult c t_addrspace blank amt u m w own)
          (λ v m' k mv.
            zeros_loop-MoveResult fuel c t_addrspace blank (n - amt) v m'
              (omega (arith, bounds, enough)) mv.whole (rw (mv.kept.0, mv.kept.2) own)))
]

-- uiomovezeros ends for a struct that reads, says how much its buffers hold, and is for the kernel or
-- for the address space of the current thread. It moves as much as was asked for and there is room for,
-- or copyout fails and it has moved less, however many calls of uiomove that takes; it counts what it moved,
-- and leaves the other fields alone.
uiomovezeros-MoveResult :
    (c : Copier) (t_addrspace : Option ℕ) (blank n : ℕ) (u : Uio) (m : Memory)
    → u.uio_rw ≡ uio_read
    → IsWhole u
    → same_space u.uio_space (if is_sysspace u.uio_segflg then none else t_addrspace) ≡ true
    → MoveResult u n (uiomovezeros c t_addrspace blank n u m)
unfolding uiomovezeros
uiomovezeros-MoveResult c t_addrspace blank n u m reading w own =
    let test : is_read u.uio_rw ≡ true = ap is_read reading in
    rw test (zeros_loop-MoveResult (suc n) c t_addrspace blank n u m (omega arith) w own)
