-- ===== src/Synch/Semaphores.antt =====
-- P and V of kern/thread/synch.c among threads that interleave.
use petrel_os.Base.{
  ℕ, suc, ◌+◌, ◌-◌, ◌≤◌, ◌<◌, min, ◌≡◌, refl, sym, ap, ◌∙◌, subst, ◌⊎◌, inl, inr, Bool, true, false,
  List, [], ◌∷◌, ◌++◌, arith, ltb, ◌==◌, ==_iff, Bool-cases, length, length-append, done, panic,
}
use petrel_os.Synch.{Semaphore, wchan_sleep, wchan_wakeone, p_once, v}

-- The semaphore among its threads: `woken` have been made runnable in P and have not run yet.
-- `passed` counts the calls of P that returned, and `signals` the calls of V.
pub record Semaphores : Type 0 where
  pub sem : Semaphore
  pub woken : List ℕ
  pub passed : ℕ
  pub signals : ℕ

abbrev pub start : ℕ → Semaphores
start count = record {
  sem = record { sem_count = count; sem_wchan = [] };
  woken = [];
  passed = 0;
  signals = 0;
}

abbrev pub count_pass : Bool → ℕ → ℕ
count_pass true n = n + 1
count_pass false n = n

-- A thread calls P; a woken thread goes on in P; a thread calls V.
pub data Step (s : Semaphores) : Semaphores → Type 0 where
  call_p :
      (t : ℕ)
      → Step s (let r = p_once s.sem t in record s { sem = r.0; passed = count_pass r.1 s.passed })
  resume_p :
      (front back : List ℕ) (t : ℕ)
      → s.woken ≡ front ++ (t ∷ back)
      → Step s (
          let r = p_once s.sem t in
          record s { sem = r.0; woken = front ++ back; passed = count_pass r.1 s.passed })
  call_v :
      (sem : Semaphore) (woken : List ℕ)
      → v s.sem ≡ done (sem, woken)
      → Step s (record s { sem = sem; woken = s.woken ++ woken; signals = s.signals + 1 })

pub data Reachable (s : Semaphores) : Semaphores → Type 0 where
  here : Reachable s s
  after : {s' s'' : Semaphores} → Reachable s s' → Step s' s'' → Reachable s s''

-- The count is what V added and P has not taken, and while a thread sleeps there is a woken thread for
-- every count, so that none sleeps beside a count that no thread is about to take.
pub record IsBalanced (initial : ℕ) (s : Semaphores) : Type 0 where
  pub balance : s.passed + s.sem.sem_count ≡ initial + s.signals
  pub awake : (0 < length s.sem.sem_wchan) → s.sem.sem_count ≤ length s.woken

p_once-cases :
    (s : Semaphore) (t : ℕ)
    → ((s.sem_count ≡ 0)
        × (p_once s t ≡ (record s { sem_wchan = wchan_sleep s.sem_wchan t }, false)))
      ⊎ ((0 < s.sem_count) × (p_once s t ≡ (record s { sem_count = s.sem_count - 1 }, true)))
unfolding p_once
p_once-cases s t = elim (Bool-cases (s.sem_count == 0)) [
  | inl empty ↦ inl ((==_iff s.sem_count 0).0 empty, rw empty refl)
  | inr some_left ↦ inr (ground (arith, some_left), rw some_left refl)
]

-- P by a thread that leaves `woken` to be run.
p_once-IsBalanced :
    (initial : ℕ) (s : Semaphores) (t : ℕ) (woken : List ℕ)
    → IsBalanced initial s
    → length s.woken ≤ suc (length woken)
    → IsBalanced initial (
        let r = p_once s.sem t in
        record s { sem = r.0; woken = woken; passed = count_pass r.1 s.passed })
p_once-IsBalanced initial s t woken k h = elim (p_once-cases s.sem t) [
  | inl (empty, e) ↦ rw e (record { balance = k.balance; awake = λ _. omega (arith, empty) })
  | inr (left, e) ↦ rw e (record {
    balance = omega (arith, k.balance, left);
    awake = λ asleep. omega (arith, k.awake asleep, h, left);
  })
]

wchan_wakeone-length :
    (wc : List ℕ)
    → (length (wchan_wakeone wc).0 + length (wchan_wakeone wc).1 ≡ length wc)
      × (min 1 (length wc) ≡ length (wchan_wakeone wc).1)
wchan_wakeone-length [] = (refl, omega arith)
wchan_wakeone-length (t ∷ wc) = (omega arith, omega arith)

v-cases :
    (s : Semaphore) (r : Semaphore × List ℕ)
    → v s ≡ done r
    → (r.0.sem_count ≡ s.sem_count + 1)
      × ((length r.0.sem_wchan + length r.1 ≡ length s.sem_wchan)
          × (min 1 (length s.sem_wchan) ≡ length r.1))
unfolding v
v-cases s r e = elim (Bool-cases (ltb (s.sem_count + 1) 2147483648)) [
  | inl fits ↦
      subst
        (λ r.
          (r.0.sem_count ≡ s.sem_count + 1)
          × ((length r.0.sem_wchan + length r.1 ≡ length s.sem_wchan)
              × (min 1 (length s.sem_wchan) ≡ length r.1)))
        (same (sym (rw fits refl) ∙ e)) (refl, wchan_wakeone-length s.sem_wchan)
  | inr over ↦ absurd (stopped (sym (rw over refl) ∙ e))
]
  where
    same : {a b : Semaphore × List ℕ} → done a ≡ done b → a ≡ b
    same e = cc e

    stopped : {a : Semaphore × List ℕ} → panic ≡ done a → ⊥
    stopped e = cc e

Step-IsBalanced :
    (initial : ℕ) (s s' : Semaphores) → IsBalanced initial s → Step s s' → IsBalanced initial s'
Step-IsBalanced initial s s' k (call_p t) = p_once-IsBalanced initial s t s.woken k (omega arith)
Step-IsBalanced initial s s' k (resume_p front back t e) =
    p_once-IsBalanced initial s t (front ++ back) k
      (omega (arith, ap length e, length-append front (t ∷ back), length-append front back))
Step-IsBalanced initial s s' k (call_v sem woken e) =
    let (count, (waiting, one)) = v-cases s.sem (sem, woken) e in
    record {
      balance = omega (arith, k.balance, count);
      awake = λ asleep. omega (
        arith,
        k.awake,
        count,
        waiting,
        one,
        asleep,
        length-append s.woken woken,
        k.awake (omega (arith, asleep, waiting)),
      );
    }

-- In every state that calls of P and V lead to, in any order and interleaving, the calls of P that
-- returned and the count together are the initial count and the calls of V; and while a thread sleeps,
-- at least as many woken threads as the count are about to run.
pub Reachable-IsBalanced :
    (initial : ℕ) (s : Semaphores) → Reachable (start initial) s → IsBalanced initial s
Reachable-IsBalanced initial s here = record {
  balance = omega arith;
  awake = λ h. absurd (omega (arith, h));
}
Reachable-IsBalanced initial s (after r step) =
    Step-IsBalanced initial _ s (Reachable-IsBalanced initial _ r) step
