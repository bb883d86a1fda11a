-- ===== src/Synch.antt =====
-- Semaphores and locks: kern/thread/synch.c, with the wait channels of kern/thread/thread.c. What runs
-- under the spinlock of a semaphore or a lock is one step; a thread that finds nothing to take is put
-- on the wait channel in the same step, since the channel is locked before the spinlock is released.
-- CURCPU_EXISTS() holds, and no thread is in an interrupt handler.
pub mod Semaphores
pub mod Locks
pub mod Conditions
mod Tests
use petrel_os.Base.{
  ℕ, ◌+◌, ◌-◌, Bool, true, false, not, Option, none, some, List, [], ◌∷◌, ◌++◌, ltb, ◌==◌,
  if◌then◌else◌, Outcome, done, ◌>>◌, kassert,
}

-- `struct semaphore` with the threads on its wait channel, the one that sleeps longest first.
pub record Semaphore : Type 0 where
  pub sem_count : ℕ
  pub sem_wchan : List ℕ

-- wchan_sleep, and wchan_wakeone with the thread that it makes runnable.
abbrev pub wchan_sleep : List ℕ → ℕ → List ℕ
wchan_sleep wc t = wc ++ (t ∷ [])

abbrev pub wchan_wakeone : List ℕ → List ℕ × List ℕ
wchan_wakeone [] = ([], [])
wchan_wakeone (t ∷ wc) = (wc, t ∷ [])

-- P from spinlock_acquire on: it returns (`true`), or sleeps and starts over when it is woken.
pub p_once : Semaphore → ℕ → Semaphore × Bool
p_once s t =
    if s.sem_count == 0
    then (record s { sem_wchan = wchan_sleep s.sem_wchan t }, false)
    else (record s { sem_count = s.sem_count - 1 }, true)

-- V, with the threads that it wakes. `sem_count` is an int, so an increment past its largest value
-- fails the assertion that the count is positive.
pub v : Semaphore → Outcome (Semaphore × List ℕ)
v s =
    kassert (ltb (s.sem_count + 1) 2147483648)
    >> (let woken = wchan_wakeone s.sem_wchan in
        done (record { sem_count = s.sem_count + 1; sem_wchan = woken.0 }, woken.1))

-- `struct lock` with the threads on its wait channel; NULL is `none`.
pub record Lock : Type 0 where
  pub lock : ℕ
  pub holder : Option ℕ
  pub lock_wchan : List ℕ

pub lock_create : Lock
lock_create = record { lock = 1; holder = none; lock_wchan = [] }

abbrev pub is_holder : Option ℕ → ℕ → Bool
is_holder none t = false
is_holder (some u) t = u == t

-- lock_acquire up to its loop: the assertion that the thread does not have the lock.
pub acquire_check : Lock → ℕ → Outcome (Unit {0})
acquire_check l t = kassert (not (is_holder l.holder t))

-- The loop of lock_acquire: it returns (`true`), or sleeps and starts over when it is woken.
pub acquire_once : Lock → ℕ → Lock × Bool
acquire_once l t =
    if l.lock == 0
    then (record l { lock_wchan = wchan_sleep l.lock_wchan t }, false)
    else (record l { lock = 0; holder = some t }, true)

-- lock_release, with the threads that it wakes.
pub lock_release : Lock → ℕ → Outcome (Lock × List ℕ)
lock_release l t =
    kassert (is_holder l.holder t)
    >> (let woken = wchan_wakeone l.lock_wchan in
        done (record { lock = l.lock + 1; holder = none; lock_wchan = woken.0 }, woken.1))
