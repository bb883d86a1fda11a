-- ===== src/Process/Pids.antt =====
-- getpid of kern/syscall/fork.c on the process table.
use petrel_os.Base.{
  ℕ, zero, suc, ◌+◌, ◌-◌, ◌≤◌, ◌<◌, ◌≡◌, refl, ◌≢◌, inl, inr, Option, none, some, arith, ltb,
  ltb→lt, Bool-cases, Option-cases,
}
use petrel_os.Process.{pid_min, max_processes, pid_loop, getpid}

-- The pid is free, and every lower one from PID_MIN on is in use.
pub record IsLowestFree (table : ℕ → Option ℕ) (pid : ℕ) : Type 0 where
  pub at_least : pid_min ≤ pid
  pub inside : pid < max_processes
  pub free : table pid ≡ none
  pub below : (j : ℕ) → pid_min ≤ j → j < pid → table j ≢ none

pub data PidResult (table : ℕ → Option ℕ) : Option ℕ → Type 0 where
  found : (pid : ℕ) → IsLowestFree table pid → PidResult table (some pid)
  full : ((j : ℕ) → pid_min ≤ j → j < max_processes → table j ≢ none) → PidResult table none

one_used :
    (table : ℕ → Option ℕ) (i t : ℕ)
    → table i ≡ some t
    → ((j : ℕ) → pid_min ≤ j → j < i → table j ≢ none)
    → (j : ℕ) → pid_min ≤ j
    → j < suc i
    → table j ≢ none
one_used table i t used taken j lo h null = elim (Bool-cases (ltb j i)) [
  | inl below ↦ taken j lo (ltb→lt j i below) null
  | inr not_below ↦ clash i j (ground (arith, not_below, h)) used null
]
  where
    clash : (i j : ℕ) → i ≡ j → table i ≡ some t → table j ≡ none → ⊥
    clash i j e used null = cc (e, used, null)

pid_loop-PidResult :
    (table : ℕ → Option ℕ) (rounds i : ℕ)
    → pid_min ≤ i
    → i + rounds ≡ max_processes
    → ((j : ℕ) → pid_min ≤ j → j < i → table j ≢ none)
    → PidResult table (pid_loop rounds i table)
unfolding pid_loop
pid_loop-PidResult table zero i lo e taken = full (λ j h k. taken j h (omega (arith, k, e)))
pid_loop-PidResult table (suc rounds) i lo e taken = elim (Option-cases (table i)) [
  | inl null ↦
      rw (pid_loop, null)
        (found i (record { at_least = lo; inside = omega (arith, e); free = null; below = taken }))
  | inr (t, used) ↦
      rw (pid_loop, used)
        (pid_loop-PidResult table rounds (suc i) (omega (arith, lo)) (omega (arith, e))
          (one_used table i t used taken))
]

-- getpid gives the lowest pid from PID_MIN on that is free, and fails only when every pid below
-- MAX_PROCESSES is in use.
pub getpid-PidResult : (table : ℕ → Option ℕ) → PidResult table (getpid table)
unfolding getpid
getpid-PidResult table =
    pid_loop-PidResult table (max_processes - pid_min) pid_min (omega arith) refl
      (λ j lo h. absurd (omega (arith, lo, h)))
