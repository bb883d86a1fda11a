-- ===== src/Synch/Tests.antt =====
-- Two threads at a semaphore and at a lock.
use petrel_os.Base.{refl, some, [], ◌∷◌}
use petrel_os.Synch.{p_once, v, lock_create, acquire_check, acquire_once}
use petrel_os.Synch.Semaphores.{Semaphores, IsBalanced, Reachable-IsBalanced}
use petrel_os.Synch.Semaphores as Sems
use petrel_os.Synch.Locks.{Locks, IsExclusive, Reachable-IsExclusive}
use petrel_os.Synch.Locks as Lks

-- The thread 4 sleeps in P, and V wakes it.
abbrev signalled : Semaphores
signalled = record {
  sem = record { sem_count = 1; sem_wchan = [] };
  woken = 4 ∷ [];
  passed = 0;
  signals = 1;
}

to_signalled : Sems.Reachable (Sems.start 0) signalled
unfolding p_once v
to_signalled =
    Sems.after (Sems.after Sems.here (Sems.call_p 4))
      (Sems.call_v (record { sem_count = 1; sem_wchan = [] }) (4 ∷ []) refl)

Reachable-IsBalanced_example : IsBalanced 0 signalled
Reachable-IsBalanced_example = Reachable-IsBalanced 0 signalled to_signalled

-- The thread 4 has the lock, and 5 sleeps in lock_acquire.
abbrev contended : Locks
contended = record {
  lk = record { lock = 0; holder = some 4; lock_wchan = 5 ∷ [] };
  woken = [];
  inside = 4 ∷ [];
}

to_contended : Lks.Reachable Lks.start contended
unfolding lock_create acquire_check acquire_once
to_contended = Lks.after (Lks.after Lks.here (Lks.acquire 4 refl)) (Lks.acquire 5 refl)

Reachable-IsExclusive_example : IsExclusive contended
Reachable-IsExclusive_example = Reachable-IsExclusive contended to_contended

contended-IsExclusive : IsExclusive contended
contended-IsExclusive = Reachable-IsExclusive contended to_contended
