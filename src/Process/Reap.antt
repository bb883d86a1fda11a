-- ===== src/Process/Reap.antt =====
-- exorcise of kern/thread/thread.c on the list of zombies.
use petrel_os.Base.{
  ℕ, ◌≡◌, refl, ap, ◌∙◌, subst, ◌≢◌, inl, inr, Bool, true, false, ◌&&◌, ◌||◌, none, List, [], ◌∷◌,
  arith, ◌==◌, ==_iff, Bool-cases, update, done,
}
use petrel_os.Base.Int.{pos, eqb_ℤ}
use petrel_os.Process.{Processes, is_child, is_reaped, exorcise_loop, exorcise}

-- Every thread of the list is a zombie other than the current thread.
pub data AllZombies (p : Processes) : List ℕ → Type 0 where
  no_zombie : AllZombies p []
  zombie :
      (z : ℕ) {zs : List ℕ}
      → z ≢ p.current
      → (p.threads z).is_zombie ≡ true
      → AllZombies p zs
      → AllZombies p (z ∷ zs)

-- Only the threads and the current one matter.
same_zombies :
    (p q : Processes) (zs : List ℕ)
    → q.current ≡ p.current
    → q.threads ≡ p.threads
    → AllZombies p zs
    → AllZombies q zs
same_zombies p q [] c t no_zombie = no_zombie
same_zombies p q (z ∷ zs) c t (zombie _ ne dead rest) =
    zombie z (λ e. ne (e ∙ c)) (ap (λ f. (f z).is_zombie) t ∙ dead) (same_zombies p q zs c t rest)

-- What the loop does with the thread `z`.
exorcise_loop-destroyed :
    (zs : List ℕ) (p : Processes) (z : ℕ)
    → AllZombies p zs
    → (p' : Processes) × (exorcise_loop zs p ≡ done p')
      × (is_child z p'.destroyed
          ≡ (is_child z p.destroyed || (is_child z zs && is_reaped (p.threads z))))
      × (p'.zombies ≡ p.zombies)
unfolding exorcise_loop
exorcise_loop-destroyed [] p z none_left = (p, refl, ground arith, refl)
exorcise_loop-destroyed (y ∷ zs) p z (zombie _ ne zombie_state others) =
    let apart : (y == p.current) ≡ false = ground (arith, ==_iff y p.current, ne) in
    elim (Bool-cases (is_reaped (p.threads y))) [
      | inl dead ↦
          let next = record p {
            process_table = update p.process_table (p.threads y).pid none;
            destroyed = y ∷ p.destroyed;
          } in
          let (p', e, d, zs') =
            exorcise_loop-destroyed zs next z (same_zombies p next zs refl refl others) in
          (p', rw (apart, zombie_state, dead) e, d ∙ when_reaped dead, zs')
      | inr kept ↦
          let (p', e, d, zs') = exorcise_loop-destroyed zs p z others in
          (p', rw (apart, zombie_state, kept) e, d ∙ when_kept kept, zs')
    ]
  where
    when_reaped :
        is_reaped (p.threads y) ≡ true
        → ((y == z || is_child z p.destroyed) || (is_child z zs && is_reaped (p.threads z)))
          ≡ (is_child z p.destroyed || ((y == z || is_child z zs) && is_reaped (p.threads z)))
    when_reaped dead = elim (Bool-cases (y == z)) [
      | inl one ↦
          let at_z : is_reaped (p.threads z) ≡ true =
            subst (λ x. is_reaped (p.threads x) ≡ true) ((==_iff y z).0 one) dead in
          rw (one, at_z) (or_true (is_child z p.destroyed))
      | inr two ↦ rw two refl
    ]
      where
        or_true : (b : Bool) → true ≡ (b || true)
        or_true true = refl
        or_true false = refl

    when_kept :
        is_reaped (p.threads y) ≡ false
        → (is_child z p.destroyed || (is_child z zs && is_reaped (p.threads z)))
          ≡ (is_child z p.destroyed || ((y == z || is_child z zs) && is_reaped (p.threads z)))
    when_kept kept = elim (Bool-cases (y == z)) [
      | inl one ↦
          let at_z : is_reaped (p.threads z) ≡ false =
            subst (λ x. is_reaped (p.threads x) ≡ false) ((==_iff y z).0 one) kept in
          rw (one, at_z) (and_false (is_child z p.destroyed) (is_child z zs))
      | inr two ↦ rw two refl
    ]
      where
        and_false : (b c : Bool) → (b || (c && false)) ≡ (b || false)
        and_false b true = refl
        and_false b false = refl

-- Where every thread on the list of zombies is a zombie other than the current thread, exorcise returns
-- and empties the list, and of the threads on it it destroys exactly those whose parent_pid is 0: a
-- child that was waited for, or whose parent exited first, has -1 there and is dropped undestroyed.
pub exorcise-destroyed :
    (p : Processes) (z : ℕ)
    → AllZombies p p.zombies
    → (p' : Processes) × (exorcise p ≡ done p')
      × (p'.zombies ≡ [])
      × (is_child z p'.destroyed ≡ (
          is_child z p.destroyed
          || (is_child z p.zombies && eqb_ℤ (p.threads z).parent_pid (pos 0))))
unfolding exorcise
exorcise-destroyed p z dead =
    let emptied = record p { zombies = [] } in
    let (p', e, d, zs) =
      exorcise_loop-destroyed p.zombies emptied z
        (same_zombies p emptied p.zombies refl refl dead) in
    (p', e, zs, d)
