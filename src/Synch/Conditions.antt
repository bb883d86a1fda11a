-- ===== src/Synch/Conditions.antt =====
-- Condition variables: cv_wait, cv_signal and cv_broadcast of kern/thread/synch.c. A condition variable
-- is the list of the threads on its wait channel. cv_wait locks that channel before it releases the
-- lock, so that it is one step up to the point where the thread sleeps.
use petrel_os.Base.{
  ℕ, ◌+◌, ◌≡◌, refl, sym, ap, ◌∙◌, inl, inr, Bool, true, false, none, List, [], ◌∷◌, ◌++◌, arith,
  ==_iff, Bool-cases, Outcome, done, panic, ◌>>=◌, ◌>>◌, kassert,
}
use petrel_os.Synch.{Lock, wchan_sleep, wchan_wakeone, is_holder, lock_release}
use petrel_os.Synch.Locks.{Locks, IsExclusive, free, held, release, Step-IsExclusive}

pub lock_do_i_hold : Lock → ℕ → Bool
lock_do_i_hold l t = is_holder l.holder t

-- cv_wait up to wchan_sleep: the channel, the lock, and the threads that its release wakes. Once it is
-- woken, the thread calls lock_acquire.
pub cv_wait : List ℕ → Lock → ℕ → Outcome (List ℕ × (Lock × List ℕ))
cv_wait cv l t = lock_release l t >>= λ r. done (wchan_sleep cv t, r)

-- The channel and the threads that are woken.
pub cv_signal : List ℕ → Lock → ℕ → Outcome (List ℕ × List ℕ)
unfolding lock_do_i_hold
cv_signal cv l t = kassert (lock_do_i_hold l t) >> done (wchan_wakeone cv)

-- wchan_wakeall empties the channel.
pub cv_broadcast : List ℕ → Lock → ℕ → Outcome (List ℕ × List ℕ)
unfolding lock_do_i_hold
cv_broadcast cv l t = kassert (lock_do_i_hold l t) >> done ([], cv)

-- What the calls by the thread `t` come to.
pub data Guarded (s : Locks) (cv : List ℕ) (t : ℕ) : Type 0 where
  outside :
      is_holder s.lk.holder t ≡ false
      → cv_wait cv s.lk t ≡ panic
      → cv_signal cv s.lk t ≡ panic
      → cv_broadcast cv s.lk t ≡ panic
      → Guarded s cv t
  holding :
      (r : Lock × List ℕ)
      → is_holder s.lk.holder t ≡ true
      → cv_signal cv s.lk t ≡ done (wchan_wakeone cv)
      → cv_broadcast cv s.lk t ≡ done ([], cv)
      → cv_wait cv s.lk t ≡ done (cv ++ (t ∷ []), r)
      → IsExclusive (record { lk = r.0; woken = s.woken ++ r.1; inside = [] })
      → Guarded s cv t

lock_release-returns :
    (l : Lock) (t : ℕ)
    → is_holder l.holder t ≡ true
    → (r : Lock × List ℕ) × (lock_release l t ≡ done r)
unfolding lock_release
lock_release-returns l t own = (
  (
    record { lock = l.lock + 1; holder = none; lock_wchan = (wchan_wakeone l.lock_wchan).0 },
    (wchan_wakeone l.lock_wchan).1,
  ),
  rw own refl,
)

-- In every state that the lock can be in, cv_wait, cv_signal and cv_broadcast panic for a thread that
-- does not hold the lock. For the holder cv_signal wakes the thread that has slept longest,
-- cv_broadcast wakes all, and cv_wait puts the thread last on the channel and leaves the lock free, with
-- nobody inside and a woken thread where one sleeps in lock_acquire.
IsExclusive-Guarded : (s : Locks) (cv : List ℕ) (t : ℕ) → IsExclusive s → Guarded s cv t
unfolding cv_wait cv_signal cv_broadcast lock_do_i_hold lock_release
IsExclusive-Guarded s cv t x = elim (Bool-cases (is_holder s.lk.holder t)) [
  | inr other ↦ outside other (rw other refl) (rw other refl) (rw other refl)
  | inl own ↦
      let (r, e) = lock_release-returns s.lk t own in
      holding r own (rw own refl) (rw own refl) (waits r e)
        (Step-IsExclusive s _ x (release [] [] t r.0 r.1 (alone x own) e))
]
  where
    waits :
        (r : Lock × List ℕ)
        → lock_release s.lk t ≡ done r
        → cv_wait cv s.lk t ≡ done (cv ++ (t ∷ []), r)
    waits r e = ap (λ m. m >>= λ r. done (wchan_sleep cv t, r)) e

    alone : IsExclusive s → is_holder s.lk.holder t ≡ true → s.inside ≡ t ∷ []
    alone (free one nobody empty awake) own = absurd (ground (arith, nobody, own))
    alone (held u zero_now holder inside) own =
        let at_t : u ≡ t = (==_iff u t).0 (sym (ap (λ h. is_holder h t) holder) ∙ own) in
        inside ∙ ap (λ u. u ∷ []) at_t
