-- ===== src/Uio/Moving.antt =====
-- The loop of uiomove of kern/lib/uio.c.
use petrel_os.Base.{
  ℕ, zero, suc, ◌+◌, ◌-◌, ◌≤◌, ◌<◌, min, ◌≡◌, refl, ap, ◌∙◌, subst, ◌⊎◌, inl, inr, true, false,
  Option, none, some, List, [], ◌∷◌, arith, ltb, ◌==◌, if◌then◌else◌, lt→ltb, lt-cases, ==-cases,
  length, Outcome, Errno,
}
use petrel_os.Uio.{
  Iovec, Uio, Memory, Copier, UioSeg, UioRw, uio_sysspace, uio_userspace, uio_userispace, uio_read,
  uio_write, move_chunk, advanced, after_chunk, next_iovec, round, move_loop, is_sysspace,
  same_space, uiomove,
}
use petrel_os.Uio.Progress.{
  room, IsWhole, Moved, MoveResult, moved, failed, unmoved, advanced-MoveResult, skipped-MoveResult,
}

-- Only the copies from and to user memory fail.
chunk-user :
    (c : Copier) (seg : UioSeg) (rw_flag : UioRw) (base ptr size : ℕ) (m m' : Memory) (e : Errno)
    → move_chunk c seg rw_flag base ptr size m ≡ (some e, m')
    → is_sysspace seg ≡ false
unfolding move_chunk
chunk-user c uio_sysspace uio_read base ptr size m m' e h = cc
chunk-user c uio_sysspace uio_write base ptr size m m' e h = cc
chunk-user c uio_userspace rw_flag base ptr size m m' e h = refl
chunk-user c uio_userispace rw_flag base ptr size m m' e h = refl

pub advanced-IsWhole :
    (u : Uio) (iov : Iovec) (rest : List Iovec) (size : ℕ)
    → u.uio_iov ≡ iov ∷ rest
    → IsWhole u
    → size ≤ iov.iov_len
    → IsWhole (advanced u iov rest size)
advanced-IsWhole u iov rest size e w b =
    let resid : u.uio_resid ≡ iov.iov_len + room rest = w.resid ∙ ap room e in
    record {
      resid = omega (arith, resid, b, w.small);
      small = omega arith;
      offset_small = omega arith;
    }

chunk-MoveResult :
    (c : Copier) (go : ℕ → ℕ → Uio → Memory → Outcome (Option Errno × Uio × Memory))
    (ptr n size : ℕ) (u : Uio) (m : Memory) (iov : Iovec) (rest : List Iovec)
    → u.uio_iov ≡ iov ∷ rest
    → IsWhole u
    → 0 < size
    → size ≤ n
    → size ≤ iov.iov_len
    → ((u' : Uio) (m' : Memory)
        → IsWhole u'
        → n - size + length u'.uio_iov < n + length (iov ∷ rest)
        → MoveResult u' (n - size) (go (ptr + size) (n - size) u' m'))
    → MoveResult u n (
        after_chunk u
          (go (ptr + size) (n - size) (advanced u iov rest size))
          (move_chunk c u.uio_segflg u.uio_rw iov.iov_base ptr size m))
chunk-MoveResult c go ptr n size u m iov rest e w pos a b later =
    let resid : u.uio_resid ≡ iov.iov_len + room rest = w.resid ∙ ap room e in
    elim (answer (move_chunk c u.uio_segflg u.uio_rw iov.iov_base ptr size m)) [
      | inl (m', good) ↦ rw good (
          advanced-MoveResult u iov rest size n _ a (omega (arith, resid, b)) w.small (
            later (advanced u iov rest size) m' (advanced-IsWhole u iov rest size e w b)
              (omega (arith, pos, a))))
      | inr (err, m', bad) ↦ rw bad (
          failed err u m' 0 (chunk-user c u.uio_segflg u.uio_rw iov.iov_base ptr size m m' err bad)
            (omega (arith, pos, a)) (unmoved u w))
    ]
  where
    answer :
        (p : Option Errno × Memory)
        → ((m' : Memory) × (p ≡ (none, m')))
          ⊎ ((err : Errno) × (m' : Memory) × (p ≡ (some err, m')))
    answer (none, m') = inl (m', refl)
    answer (some err, m') = inr (err, m', refl)

skip-MoveResult :
    (c : Copier) (go : ℕ → ℕ → Uio → Memory → Outcome (Option Errno × Uio × Memory)) (ptr n : ℕ)
    (u : Uio) (m : Memory) (iov : Iovec) (rest : List Iovec)
    → u.uio_iov ≡ iov ∷ rest
    → IsWhole u
    → 0 < u.uio_resid
    → iov.iov_len ≡ 0
    → ((ptr' n' : ℕ) (u' : Uio) (m' : Memory)
        → IsWhole u'
        → n' + length u'.uio_iov < n + length (iov ∷ rest)
        → MoveResult u' n' (go ptr' n' u' m'))
    → MoveResult u n (next_iovec (λ v. go ptr n v m) u rest)
skip-MoveResult c go ptr n u m iov [] e w space empty later =
    absurd (omega (arith, w.resid, ap room e, space, empty))
skip-MoveResult c go ptr n u m iov (iov2 ∷ rest) e w space empty later =
    skipped-MoveResult u (iov2 ∷ rest) n _ (
      later ptr n (record u { uio_iov = iov2 ∷ rest }) m
        (record {
          resid = omega (arith, w.resid, ap room e, empty);
          small = w.small;
          offset_small = w.offset_small;
        })
        (omega arith))

round-MoveResult :
    (c : Copier) (go : ℕ → ℕ → Uio → Memory → Outcome (Option Errno × Uio × Memory)) (ptr n : ℕ)
    (u : Uio) (m : Memory) (iovs : List Iovec)
    → u.uio_iov ≡ iovs
    → IsWhole u
    → 0 < n
    → 0 < u.uio_resid
    → ((ptr' n' : ℕ) (u' : Uio) (m' : Memory)
        → IsWhole u'
        → n' + length u'.uio_iov < n + length iovs
        → MoveResult u' n' (go ptr' n' u' m'))
    → MoveResult u n (round c go ptr n u m iovs)
round-MoveResult c go ptr n u m [] e w some_bytes space later =
    absurd (omega (arith, w.resid, ap room e, space))
round-MoveResult c go ptr n u m (iov ∷ rest) e w some_bytes space later =
    elim (lt-cases n iov.iov_len) [
      | inl more ↦
          let test : (n == 0) ≡ false = ground arith in
          rw (lt→ltb n iov.iov_len more, test)
            (chunk-MoveResult c go ptr n n u m iov rest e w some_bytes (omega arith)
              (omega (arith, more)) (λ u' m'. later (ptr + n) (n - n) u' m'))
      | inr less ↦
          let test : ltb n iov.iov_len ≡ false = ground arith in
          rw test (elim (==-cases iov.iov_len 0) [
            | inl empty ↦
                let test2 : (iov.iov_len == 0) ≡ true = ground arith in
                rw test2 (skip-MoveResult c go ptr n u m iov rest e w space empty later)
            | inr there ↦
                let test2 : (iov.iov_len == 0) ≡ false = ground arith in
                rw test2 (
                  chunk-MoveResult c go ptr n iov.iov_len u m iov rest e w (omega (arith, there))
                    less (omega arith) (λ u' m'. later (ptr + iov.iov_len) (n - iov.iov_len) u' m'))
          ])
    ]

move_loop-MoveResult :
    (fuel : ℕ) (c : Copier) (ptr n : ℕ) (u : Uio) (m : Memory)
    → IsWhole u
    → n + length u.uio_iov < fuel
    → MoveResult u n (move_loop fuel c ptr n u m)
unfolding move_loop
move_loop-MoveResult zero c ptr n u m w enough = absurd (omega arith)
move_loop-MoveResult (suc fuel) c ptr n u m w enough = elim (lt-cases 0 n) [
  | inr nothing ↦
      let test : ltb 0 n ≡ false = ground arith in
      let none_left : 0 ≡ min n u.uio_resid = omega (arith, nothing) in
      rw test (moved u m (subst (Moved u u) none_left (unmoved u w)))
  | inl asked ↦ elim (lt-cases 0 u.uio_resid) [
    | inr full ↦
        let test : ltb 0 u.uio_resid ≡ false = ground arith in
        let none_left : 0 ≡ min n u.uio_resid = omega (arith, full) in
        rw (lt→ltb 0 n asked, test) (moved u m (subst (Moved u u) none_left (unmoved u w)))
    | inl space ↦
        rw (lt→ltb 0 n asked, lt→ltb 0 u.uio_resid space)
          (round-MoveResult c (move_loop fuel c) ptr n u m u.uio_iov refl w asked space
            (λ ptr' n' u' m' w' less.
              move_loop-MoveResult fuel c ptr' n' u' m' w' (omega (arith, less, enough))))
  ]
]

-- When the struct says how much its buffers hold, and is for the kernel or for the address space of the
-- current thread, uiomove ends. It moves as much as was asked for and there is room for; or copyin or
-- copyout fails and it has moved less. It counts what it moved in uio_resid, uio_offset and the
-- buffers, and leaves the other fields alone.
pub uiomove-MoveResult :
    (c : Copier) (t_addrspace : Option ℕ) (ptr n : ℕ) (u : Uio) (m : Memory)
    → IsWhole u
    → same_space u.uio_space (if is_sysspace u.uio_segflg then none else t_addrspace) ≡ true
    → MoveResult u n (uiomove c t_addrspace ptr n u m)
unfolding uiomove
uiomove-MoveResult c t_addrspace ptr n u m w own =
    rw own (move_loop-MoveResult (suc (n + length u.uio_iov)) c ptr n u m w (omega arith))
