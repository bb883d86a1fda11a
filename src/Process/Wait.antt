-- ===== src/Process/Wait.antt =====
-- sys_waitpid of kern/syscall/waitexit_syscalls.c, by its conditions.
use petrel_os.Base.{
  ℕ, ◌≡◌, ◌≢◌, Bool, true, false, Option, none, some, Outcome, done, hang, Errno, einval, efault,
  esrch, echild, Return, ok, fail,
}
use petrel_os.Base.Int.{ℤ, negsuc}
use petrel_os.Process.{Processes, Waited, current_thread, is_child, remove_child, pid_index}

-- The child `t` of the pid `pid` is waited for.
pub record IsWaited (p : Processes) (pid t : ℕ) (p' : Processes) (w : Waited) : Type 0 where
  pub status : w.status ≡ (p.threads t).exit_status
  pub result : w.result ≡ pid
  pub entry : p'.process_table pid ≡ none
  pub others : (q : ℕ) → q ≢ pid → p'.process_table q ≡ p.process_table q
  pub orphan : t ≢ p.current → (p'.threads t).parent_pid ≡ negsuc 0
  pub children : (current_thread p').children ≡ remove_child pid (current_thread p).children
  pub unchanged : (p'.files ≡ p.files) × ((p'.zombies ≡ p.zombies) × (p'.destroyed ≡ p.destroyed))

-- What sys_waitpid comes to, by its conditions in their order.
pub data WaitResult (p : Processes) (pid : ℤ) (status : Bool) (options : ℕ) (copyout : Option Errno)
    : Outcome (Processes × Return Waited) → Type 0 where
  bad_options : options ≢ 0 → WaitResult p pid status options copyout (done (p, fail einval))
  no_status :
      options ≡ 0 → status ≡ false → WaitResult p pid status options copyout (done (p, fail efault))
  no_process :
      options ≡ 0
      → status ≡ true
      → ((n : ℕ) → pid_index pid ≡ some n → p.process_table n ≡ none)
      → WaitResult p pid status options copyout (done (p, fail esrch))
  not_child :
      (n t : ℕ)
      → options ≡ 0
      → status ≡ true
      → pid_index pid ≡ some n
      → p.process_table n ≡ some t
      → is_child n (current_thread p).children ≡ false
      → WaitResult p pid status options copyout (done (p, fail echild))
  waits :
      (n t : ℕ)
      → options ≡ 0
      → status ≡ true
      → pid_index pid ≡ some n
      → p.process_table n ≡ some t
      → is_child n (current_thread p).children ≡ true
      → (p.threads t).signals ≡ 0
      → WaitResult p pid status options copyout hang
  waited :
      (n t : ℕ) (w : Waited) {p' : Processes}
      → options ≡ 0
      → status ≡ true
      → pid_index pid ≡ some n
      → p.process_table n ≡ some t
      → is_child n (current_thread p).children ≡ true
      → (p.threads t).signals ≢ 0
      → w.error ≡ copyout
      → IsWaited p n t p' w
      → WaitResult p pid status options copyout (done (p', ok w))
