-- ===== src/Synch/Locks.antt =====
-- lock_acquire and lock_release of kern/thread/synch.c among threads that interleave.
use petrel_os.Base.{
  ℕ, ◌+◌, ◌<◌, ◌≡◌, refl, sym, ap, ◌∙◌, subst, ◌⊎◌, inl, inr, Bool, true, false, none, some, List,
  [], ◌∷◌, ◌++◌, arith, ◌==◌, Bool-cases, length, length-append, done, panic,
}
use petrel_os.Synch.{
  Lock, wchan_wakeone, is_holder, lock_create, acquire_check, acquire_once, lock_release,
}

-- The lock among its threads: `woken` have been made runnable in lock_acquire and have not run yet,
-- and `inside` have returned from lock_acquire and not called lock_release.
pub record Locks : Type 0 where
  pub lk : Lock
  pub woken : List ℕ
  pub inside : List ℕ

abbrev pub start : Locks
unfolding lock_create
start = record { lk = lock_create; woken = []; inside = [] }

abbrev pub enter : Bool → ℕ → List ℕ → List ℕ
enter true t inside = t ∷ inside
enter false t inside = inside

-- A thread calls lock_acquire; a woken thread goes on in it; a thread calls lock_release.
pub data Step (s : Locks) : Locks → Type 0 where
  acquire :
      (t : ℕ)
      → acquire_check s.lk t ≡ done tt
      → Step s (let r = acquire_once s.lk t in record s { lk = r.0; inside = enter r.1 t s.inside })
  resume :
      (front back : List ℕ) (t : ℕ)
      → s.woken ≡ front ++ (t ∷ back)
      → Step s (
          let r = acquire_once s.lk t in
          record { lk = r.0; woken = front ++ back; inside = enter r.1 t s.inside })
  release :
      (front back : List ℕ) (t : ℕ) (lk : Lock) (woken : List ℕ)
      → s.inside ≡ front ++ (t ∷ back)
      → lock_release s.lk t ≡ done (lk, woken)
      → Step s (record { lk = lk; woken = s.woken ++ woken; inside = front ++ back })

pub data Reachable (s : Locks) : Locks → Type 0 where
  here : Reachable s s
  after : {s' s'' : Locks} → Reachable s s' → Step s' s'' → Reachable s s''

-- Free, with nobody inside and a woken thread where one sleeps; or held by the one thread inside.
pub data IsExclusive (s : Locks) : Type 0 where
  free :
      s.lk.lock ≡ 1
      → s.lk.holder ≡ none
      → s.inside ≡ []
      → ((length s.lk.lock_wchan ≡ 0) ⊎ (0 < length s.woken))
      → IsExclusive s
  held : (t : ℕ) → s.lk.lock ≡ 0 → s.lk.holder ≡ some t → s.inside ≡ t ∷ [] → IsExclusive s

-- lock_acquire by a thread that leaves `woken` to be run.
acquire_once-IsExclusive :
    (s : Locks) (t : ℕ) (woken : List ℕ)
    → IsExclusive s
    → IsExclusive (
        let r = acquire_once s.lk t in
        record { lk = r.0; woken = woken; inside = enter r.1 t s.inside })
unfolding acquire_once
acquire_once-IsExclusive s t woken (free one nobody empty awake) =
    let open_now : (s.lk.lock == 0) ≡ false = ground (arith, one) in
    rw open_now (held t refl refl (ap (◌∷◌ t) empty))
acquire_once-IsExclusive s t woken (held u zero_now holder inside) =
    let taken : (s.lk.lock == 0) ≡ true = ground (arith, zero_now) in
    rw taken (held u zero_now holder inside)

lock_release-cases :
    (l : Lock) (t : ℕ) (r : Lock × List ℕ)
    → lock_release l t ≡ done r
    → (r.0.lock ≡ l.lock + 1)
      × (r.0.holder ≡ none)
      × ((length r.0.lock_wchan ≡ 0) ⊎ (0 < length r.1))
      × (is_holder l.holder t ≡ true)
unfolding lock_release
lock_release-cases l t r e = elim (Bool-cases (is_holder l.holder t)) [
  | inl own ↦
      subst
        (λ r.
          (r.0.lock ≡ l.lock + 1)
          × (r.0.holder ≡ none)
          × ((length r.0.lock_wchan ≡ 0) ⊎ (0 < length r.1))
          × (is_holder l.holder t ≡ true))
        (same (sym (rw own refl) ∙ e)) (refl, refl, woken l.lock_wchan, own)
  | inr other ↦ absurd (stopped (sym (rw other refl) ∙ e))
]
  where
    same : {a b : Lock × List ℕ} → done a ≡ done b → a ≡ b
    same e = cc e

    stopped : {a : Lock × List ℕ} → panic ≡ done a → ⊥
    stopped e = cc e

    woken : (wc : List ℕ) → (length (wchan_wakeone wc).0 ≡ 0) ⊎ (0 < length (wchan_wakeone wc).1)
    woken [] = inl refl
    woken (t ∷ wc) = inr (omega arith)

pub Step-IsExclusive : (s s' : Locks) → IsExclusive s → Step s s' → IsExclusive s'
Step-IsExclusive s s' k (acquire t e) = acquire_once-IsExclusive s t s.woken k
Step-IsExclusive s s' k (resume front back t e) = acquire_once-IsExclusive s t (front ++ back) k
Step-IsExclusive s s' (free one nobody empty awake) (release front back t lk woken i e) =
    let (more, gone, wake, own) = lock_release-cases s.lk t (lk, woken) e in
    absurd (no_holder (subst (λ h. is_holder h t ≡ true) nobody own))
  where
    no_holder : false ≡ true → ⊥
    no_holder e = ground (arith, e)
Step-IsExclusive s s' (held u zero_now holder inside) (release front back t lk woken i e) =
    let (more, gone, wake, own) = lock_release-cases s.lk t (lk, woken) e in
    free (omega (arith, more, zero_now)) gone (single front back (sym i ∙ inside)) (runs wake)
  where
    single : (front back : List ℕ) → (front ++ (t ∷ back)) ≡ u ∷ [] → (front ++ back) ≡ []
    single [] back e = cc e
    single (b ∷ front) back e = absurd (omega (arith, ap length e, length-append front (t ∷ back)))

    runs :
        ((length lk.lock_wchan ≡ 0) ⊎ (0 < length woken))
        → (length lk.lock_wchan ≡ 0) ⊎ (0 < length (s.woken ++ woken))
    runs (inl h) = inl h
    runs (inr h) = inr (omega (arith, h, length-append s.woken woken))

-- In every state that calls of lock_acquire and lock_release lead to, in any order and interleaving,
-- either the lock is free, nobody is inside, and a thread sleeps only if some woken thread is about to
-- run; or exactly one thread is inside, and it is the holder.
pub Reachable-IsExclusive : (s : Locks) → Reachable start s → IsExclusive s
unfolding lock_create
Reachable-IsExclusive s here = free refl refl refl (inl refl)
Reachable-IsExclusive s (after r step) = Step-IsExclusive _ s (Reachable-IsExclusive _ r) step
