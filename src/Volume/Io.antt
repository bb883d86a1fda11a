-- ===== src/Volume/Io.antt =====
-- sfs_rwblock of kern/fs/sfs/sfs_io.c, which the reading and the writing of a block come to.
use petrel_os.Base.{
  ℕ, zero, suc, ◌+◌, ◌≤◌, ◌<◌, ◌≡◌, refl, sym, ap, ◌∙◌, false, arith, ltb, if◌then◌else◌, lt→ltb,
  Outcome, done, panic, hang,
}

-- What the device's d_io answers: no error, EINVAL, EIO, or another code.
pub data IoResult : Type 0 where
  io_ok io_einval io_eio : IoResult
  io_other : ℕ → IoResult

-- What follows an answer; `again` is what comes of another attempt.
abbrev pub respond : IoResult → ℕ → Outcome IoResult → Outcome IoResult
respond io_ok tries again = done io_ok
respond io_einval tries again = panic
respond io_eio tries again = if ltb tries 10 then again else done io_eio
respond (io_other code) tries again = done (io_other code)

-- The loop from the attempt `tries` on; `d_io` gives the answer at each attempt. The fuel is for the
-- attempts.
unfoldable pub rw_loop : ℕ → (ℕ → IoResult) → ℕ → Outcome IoResult
rw_loop zero d_io tries = hang
rw_loop (suc fuel) d_io tries = respond (d_io tries) tries (rw_loop fuel d_io (tries + 1))

unfoldable pub sfs_rwblock : (ℕ → IoResult) → Outcome IoResult
sfs_rwblock d_io = rw_loop 11 d_io 0

-- What a last answer comes to.
abbrev pub settled : IoResult → Outcome IoResult
settled io_einval = panic
settled result = done result

last_attempt :
    (d_io : ℕ → IoResult) (fuel tries : ℕ) (answer : IoResult)
    → d_io tries ≡ answer
    → (answer ≡ io_eio → tries ≡ 10)
    → rw_loop (suc fuel) d_io tries ≡ settled answer
unfolding rw_loop
last_attempt d_io fuel tries io_ok e last = rw e refl
last_attempt d_io fuel tries io_einval e last = rw e refl
last_attempt d_io fuel tries (io_other code) e last = rw e refl
last_attempt d_io fuel tries io_eio e last =
    let stop : ltb tries 10 ≡ false = ground (arith, last refl) in rw (e, stop) refl

retried :
    (d_io : ℕ → IoResult) (fuel tries : ℕ)
    → d_io tries ≡ io_eio
    → tries < 10
    → rw_loop (suc fuel) d_io tries ≡ rw_loop fuel d_io (tries + 1)
unfolding rw_loop
retried d_io fuel tries e few = rw (e, lt→ltb tries 10 few) refl

rw_loop-settles :
    (d_io : ℕ → IoResult) (n fuel tries : ℕ)
    → n < fuel
    → tries + n ≤ 10
    → ((k : ℕ) → k < tries + n → d_io k ≡ io_eio)
    → (d_io (tries + n) ≡ io_eio → tries + n ≡ 10)
    → rw_loop fuel d_io tries ≡ settled (d_io (tries + n))
rw_loop-settles d_io n zero tries enough few failing last = absurd (omega arith)
rw_loop-settles d_io zero (suc fuel) tries enough few failing last =
    let here : tries + 0 ≡ tries = omega arith in
    last_attempt d_io fuel tries (d_io (tries + 0)) (ap d_io (sym here)) (λ e. sym here ∙ last e)
rw_loop-settles d_io (suc n) (suc fuel) tries enough few failing last =
    let next : tries + 1 + n ≡ tries + suc n = omega arith in
    let rest =
      rw_loop-settles d_io n fuel (tries + 1) (omega (arith, enough)) (omega (arith, few))
        (λ k below. failing k (omega (arith, below))) (λ e. next ∙ last (ap d_io (sym next) ∙ e)) in
    retried d_io fuel tries (failing tries (omega arith)) (omega (arith, few))
    ∙ rest
    ∙ ap (λ k. settled (d_io k)) next

-- sfs_rwblock ends after at most eleven attempts. It comes to the answer of the first attempt that is
-- not EIO, if one of the eleven is not, and to EIO otherwise; an answer of EINVAL stops the kernel.
pub sfs_rwblock-settles :
    (d_io : ℕ → IoResult) (n : ℕ)
    → n ≤ 10
    → ((k : ℕ) → k < n → d_io k ≡ io_eio)
    → (d_io n ≡ io_eio → n ≡ 10)
    → sfs_rwblock d_io ≡ settled (d_io n)
unfolding sfs_rwblock
sfs_rwblock-settles d_io n few failing last =
    let same : 0 + n ≡ n = omega arith in
    rw_loop-settles d_io n 11 0 (omega arith) (omega arith)
      (λ k below. failing k (omega (arith, below))) (λ e. same ∙ last (ap d_io (sym same) ∙ e))
    ∙ ap (λ k. settled (d_io k)) same
