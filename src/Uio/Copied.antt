-- ===== src/Uio/Copied.antt =====
-- The memory and the buffers that uiomove of kern/lib/uio.c leaves, against a walk over the buffers.
use petrel_os.Base.{
  ℕ, zero, suc, ◌+◌, ◌-◌, ◌≤◌, ◌<◌, min, ◌≡◌, refl, sym, ap, ◌∙◌, ◌⊎◌, inl, inr, Bool, true, false,
  Option, none, List, [], ◌∷◌, arith, ltb, ◌==◌, if◌then◌else◌, lt→ltb, lt-cases, ==-cases, length,
  Outcome, done, Errno,
}
use petrel_os.Uio.{
  Iovec, Uio, Memory, Copier, UioRw, move_chunk, advanced, after_chunk, next_iovec, round,
  move_loop, is_sysspace, same_space, uiomove,
}
use petrel_os.Uio.Progress.{room, IsWhole, MoveResult}
use petrel_os.Uio.Moving.{advanced-IsWhole, uiomove-MoveResult}
use petrel_os.Uio.Walk.{
  copy_of, then_copy, copied, trimmed, view, move_chunk-copy_of, copied-nothing, view-after_chunk,
}

chunk-copied :
    (c : Copier) (go : ℕ → ℕ → Uio → Memory → Outcome (Option Errno × Uio × Memory))
    (ptr n size : ℕ) (u : Uio) (m : Memory) (iov : Iovec) (rest : List Iovec)
    (walk : Memory → Option Errno × Memory × List Iovec)
    → u.uio_iov ≡ iov ∷ rest
    → IsWhole u
    → 0 < size
    → size ≤ n
    → size ≤ iov.iov_len
    → ((ptr' n' : ℕ) (u' : Uio) (m' : Memory)
        → u'.uio_segflg ≡ u.uio_segflg
        → u'.uio_rw ≡ u.uio_rw
        → IsWhole u'
        → n' + length u'.uio_iov < n + length (iov ∷ rest)
        → view (go ptr' n' u' m')
          ≡ done (copied c (is_sysspace u.uio_segflg) u.uio_rw ptr' n' u'.uio_iov m'))
    → ((m' : Memory)
        → copied c
            (is_sysspace u.uio_segflg)
            u.uio_rw
            (ptr + size)
            (n - size)
            (advanced u iov rest size).uio_iov
            m'
          ≡ walk m')
    → view (
        after_chunk u
          (go (ptr + size) (n - size) (advanced u iov rest size))
          (move_chunk c u.uio_segflg u.uio_rw iov.iov_base ptr size m))
      ≡ done (
          then_copy walk
            (iov ∷ rest)
            (copy_of c (is_sysspace u.uio_segflg) u.uio_rw iov.iov_base ptr size m))
chunk-copied c go ptr n size u m iov rest walk e w pos a b later same =
    let next = go (ptr + size) (n - size) (advanced u iov rest size) in
    let test : (iov.iov_len == 0) ≡ false = ground (arith, pos, b) in
    let trims : trimmed u.uio_iov ≡ iov ∷ rest = ap trimmed e ∙ rw test refl in
    ap (λ p. view (after_chunk u next p))
      (move_chunk-copy_of c u.uio_segflg u.uio_rw iov.iov_base ptr size m)
    ∙ view-after_chunk u next walk
        (copy_of c (is_sysspace u.uio_segflg) u.uio_rw iov.iov_base ptr size m)
        (λ m'.
          later (ptr + size) (n - size) (advanced u iov rest size) m' refl refl
            (advanced-IsWhole u iov rest size e w b) (omega (arith, pos, a))
          ∙ ap done (same m'))
    ∙ ap
        (λ iovs. done (
          then_copy walk iovs
            (copy_of c (is_sysspace u.uio_segflg) u.uio_rw iov.iov_base ptr size m)))
        trims

skip-copied :
    (c : Copier) (go : ℕ → ℕ → Uio → Memory → Outcome (Option Errno × Uio × Memory)) (ptr n : ℕ)
    (u : Uio) (m : Memory) (iov : Iovec) (rest : List Iovec)
    → u.uio_iov ≡ iov ∷ rest
    → IsWhole u
    → 0 < u.uio_resid
    → iov.iov_len ≡ 0
    → ((ptr' n' : ℕ) (u' : Uio) (m' : Memory)
        → u'.uio_segflg ≡ u.uio_segflg
        → u'.uio_rw ≡ u.uio_rw
        → IsWhole u'
        → n' + length u'.uio_iov < n + length (iov ∷ rest)
        → view (go ptr' n' u' m')
          ≡ done (copied c (is_sysspace u.uio_segflg) u.uio_rw ptr' n' u'.uio_iov m'))
    → view (next_iovec (λ v. go ptr n v m) u rest)
      ≡ done (copied c (is_sysspace u.uio_segflg) u.uio_rw ptr n rest m)
skip-copied c go ptr n u m iov [] e w space empty later =
    absurd (omega (arith, w.resid, ap room e, space, empty))
skip-copied c go ptr n u m iov (iov2 ∷ rest) e w space empty later =
    later ptr n (record u { uio_iov = iov2 ∷ rest }) m refl refl
      (record {
        resid = omega (arith, w.resid, ap room e, empty);
        small = w.small;
        offset_small = w.offset_small;
      })
      (omega arith)

-- The rest of the first buffer is all that is left, or nothing of it is.
copied-part :
    (c : Copier) (kernel : Bool) (rw_flag : UioRw) (ptr n base len : ℕ) (rest : List Iovec)
    (m : Memory)
    → n < len
    → copied c kernel rw_flag ptr (n - n) (record { iov_base = base; iov_len = len - n } ∷ rest) m
      ≡ (none, m, record { iov_base = base; iov_len = len - n } ∷ rest)
copied-part c kernel rw_flag ptr n base len rest m more =
    let test : (len - n == 0) ≡ false = ground (arith, more) in
    copied-nothing c kernel rw_flag ptr (n - n)
      (record { iov_base = base; iov_len = len - n } ∷ rest) m (inl (omega arith))
    ∙ rw test refl

copied-whole :
    (c : Copier) (kernel : Bool) (rw_flag : UioRw) (ptr n base len : ℕ) (rest : List Iovec)
    (m : Memory)
    → copied c kernel rw_flag ptr n (record { iov_base = base; iov_len = len - len } ∷ rest) m
      ≡ copied c kernel rw_flag ptr n rest m
unfolding copied
copied-whole c kernel rw_flag ptr n base len rest m =
    let test : (len - len == 0) ≡ true = ground arith in rw test refl

round-copied :
    (c : Copier) (go : ℕ → ℕ → Uio → Memory → Outcome (Option Errno × Uio × Memory)) (ptr n : ℕ)
    (u : Uio) (m : Memory) (iovs : List Iovec)
    → u.uio_iov ≡ iovs
    → IsWhole u
    → 0 < n
    → 0 < u.uio_resid
    → ((ptr' n' : ℕ) (u' : Uio) (m' : Memory)
        → u'.uio_segflg ≡ u.uio_segflg
        → u'.uio_rw ≡ u.uio_rw
        → IsWhole u'
        → n' + length u'.uio_iov < n + length iovs
        → view (go ptr' n' u' m')
          ≡ done (copied c (is_sysspace u.uio_segflg) u.uio_rw ptr' n' u'.uio_iov m'))
    → view (round c go ptr n u m iovs)
      ≡ done (copied c (is_sysspace u.uio_segflg) u.uio_rw ptr n iovs m)
unfolding copied
round-copied c go ptr n u m [] e w some_bytes space later =
    absurd (omega (arith, w.resid, ap room e, space))
round-copied c go ptr n u m (iov ∷ rest) e w some_bytes space later =
    elim (==-cases iov.iov_len 0) [
      | inl empty ↦
          let less : ltb n iov.iov_len ≡ false = ground (arith, empty) in
          let test : (iov.iov_len == 0) ≡ true = ground (arith, empty) in
          rw (less, test) (skip-copied c go ptr n u m iov rest e w space empty later)
      | inr there ↦
          let test : (iov.iov_len == 0) ≡ false = ground (arith, there) in
          let test2 : (n == 0) ≡ false = ground (arith, some_bytes) in
          elim (lt-cases n iov.iov_len) [
            | inl more ↦
                let size : min n iov.iov_len ≡ n = omega (arith, more) in
                rw (lt→ltb n iov.iov_len more, test, test2, size)
                  (chunk-copied c go ptr n n u m iov rest
                    (λ m'. (
                      none,
                      m',
                      record { iov_base = iov.iov_base + n; iov_len = iov.iov_len - n } ∷ rest,
                    ))
                    e w some_bytes (omega arith) (omega (arith, more)) later
                    (λ m'.
                      copied-part c (is_sysspace u.uio_segflg) u.uio_rw (ptr + n) n
                        (iov.iov_base + n) iov.iov_len rest m' more))
            | inr less ↦
                let size : min n iov.iov_len ≡ iov.iov_len = omega (arith, less) in
                let short : ltb n iov.iov_len ≡ false = ground (arith, less) in
                rw (short, test, test2, size)
                  (chunk-copied c go ptr n iov.iov_len u m iov rest
                    (λ m'.
                      copied c (is_sysspace u.uio_segflg) u.uio_rw (ptr + iov.iov_len)
                        (n - iov.iov_len) rest m')
                    e w (omega (arith, there)) less (omega arith) later
                    (λ m'.
                      copied-whole c (is_sysspace u.uio_segflg) u.uio_rw (ptr + iov.iov_len)
                        (n - iov.iov_len) (iov.iov_base + iov.iov_len) iov.iov_len rest m'))
          ]
    ]

move_loop-copied :
    (fuel : ℕ) (c : Copier) (ptr n : ℕ) (u : Uio) (m : Memory)
    → IsWhole u
    → n + length u.uio_iov < fuel
    → view (move_loop fuel c ptr n u m)
      ≡ done (copied c (is_sysspace u.uio_segflg) u.uio_rw ptr n u.uio_iov m)
unfolding move_loop
move_loop-copied zero c ptr n u m w enough = absurd (omega arith)
move_loop-copied (suc fuel) c ptr n u m w enough =
    let still = λ (nothing : (n ≡ 0) ⊎ (room u.uio_iov ≡ 0)).
      ap done
        (sym (copied-nothing c (is_sysspace u.uio_segflg) u.uio_rw ptr n u.uio_iov m nothing)) in
    elim (lt-cases 0 n) [
      | inr nothing ↦
          let test : ltb 0 n ≡ false = ground arith in
          rw test (still (inl (omega (arith, nothing))))
      | inl asked ↦ elim (lt-cases 0 u.uio_resid) [
        | inr full ↦
            let test : ltb 0 u.uio_resid ≡ false = ground arith in
            rw (lt→ltb 0 n asked, test) (still (inr (omega (arith, full, w.resid))))
        | inl space ↦
            rw (lt→ltb 0 n asked, lt→ltb 0 u.uio_resid space)
              (round-copied c (move_loop fuel c) ptr n u m u.uio_iov refl w asked space
                (λ ptr' n' u' m' seg flag w' less.
                  move_loop-copied fuel c ptr' n' u' m' w' (omega (arith, less, enough))
                  ∙ ap (λ s. done (copied c (is_sysspace s) u'.uio_rw ptr' n' u'.uio_iov m')) seg
                  ∙ ap (λ f. done (copied c (is_sysspace u.uio_segflg) f ptr' n' u'.uio_iov m'))
                      flag))
      ]
    ]

-- When the struct says how much its buffers hold, and is for the kernel or for the address space of the
-- current thread, uiomove ends. Its error, the memory and the buffers that are left are those of a walk
-- over the buffers that fills or empties one after the other, in the kernel as one copy each and
-- otherwise by copyout or copyin, up to the first error. Without an error it has moved as much as was
-- asked for and there is room for, and with one less; it counts what it moved in uio_resid and
-- uio_offset, and leaves the other fields alone.
pub uiomove-copied :
    (c : Copier) (t_addrspace : Option ℕ) (ptr n : ℕ) (u : Uio) (m : Memory)
    → IsWhole u
    → same_space u.uio_space (if is_sysspace u.uio_segflg then none else t_addrspace) ≡ true
    → (view (uiomove c t_addrspace ptr n u m)
        ≡ done (copied c (is_sysspace u.uio_segflg) u.uio_rw ptr n u.uio_iov m))
      × MoveResult u n (uiomove c t_addrspace ptr n u m)
unfolding uiomove
uiomove-copied c t_addrspace ptr n u m w own = (
  rw own (move_loop-copied (suc (n + length u.uio_iov)) c ptr n u m w (omega arith)),
  uiomove-MoveResult c t_addrspace ptr n u m w own,
)
