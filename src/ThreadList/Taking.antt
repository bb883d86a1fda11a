-- ===== src/ThreadList/Taking.antt =====
-- How kern/thread/threadlist.c takes threads off a list.
use petrel_os.Base.{
  ℕ, ◌+◌, ◌-◌, ◌%◌, ◌^◌, ◌≤◌, ◌≡◌, refl, sym, ap, ◌∙◌, subst, ◌⊎◌, inl, inr, Option, none, some,
  List, [], ◌∷◌, ◌++◌, arith, ==_refl, length, take, drop, length-append, Outcome, done,
}
use petrel_os.ThreadList.{
  Links, ThreadList, threadlist_remhead, threadlist_remtail, threadlist_remove,
  threadlist_removenode, count_down, take_node, tail_node,
}
use petrel_os.ThreadList.Places.{unlinked, removed_at, removenode-unlinked}
use petrel_os.ThreadList.Removal.{unlinked-IsLinked}
use petrel_os.ThreadList.Lists.{window-removed_at, take-append, drop-append, place-window}
use petrel_os.ThreadList.Sequence.{IsList, IsOff, IsList-length}

-- A thread unlinked from the place `p`.
removed-IsList :
    {l : Links} {tl : ThreadList} {xs : List ℕ} (q : IsList l tl xs) (p : ℕ)
    → 1 ≤ p
    → p ≤ tl.tl_count
    → IsList
        (unlinked l (q.place (p - 1)) (q.place (p + 1)) (q.place p))
        (count_down tl)
        (take (p - 1) xs ++ drop p xs)
removed-IsList {l} {tl} {xs} q p inside within =
    let count : (tl.tl_count + (2 ^ 32 - 1)) % 2 ^ 32 ≡ tl.tl_count - 1 =
      omega (arith, q.representable, inside, within) in
    rw count (record {
      place = removed_at q.place p;
      linked = unlinked-IsLinked q.linked p inside within;
      shows =
          window-removed_at q.place p tl.tl_count inside within
          ∙ ap (λ ys. take (p - 1) ys ++ drop p ys) q.shows;
      representable = omega (arith, q.representable);
    })

-- What an operation that takes the thread `t` off a list comes to: its node is free again.
pub record Removed (l' : Links) (tl' : ThreadList) (t : ℕ) (rest : List ℕ) : Type 0 where
  pub list : IsList l' tl' rest
  pub off : IsOff l' t

unlinked-Removed :
    {l : Links} {tl : ThreadList} {xs : List ℕ} (q : IsList l tl xs) (p : ℕ)
    → 1 ≤ p
    → p ≤ tl.tl_count
    → Removed
        (unlinked l (q.place (p - 1)) (q.place (p + 1)) (q.place p))
        (count_down tl)
        (q.place p)
        (take (p - 1) xs ++ drop p xs)
unlinked-Removed {l} {tl} {xs} q p inside within = record {
  list = removed-IsList q p inside within;
  off = record {
    no_prev = rw (==_refl (q.place p)) refl;
    no_next = rw (==_refl (q.place p)) refl;
    self = q.linked.selves p inside within;
  };
}

removenode-place :
    {l : Links} {tl : ThreadList} {xs : List ℕ} (q : IsList l tl xs) (p : ℕ)
    → 1 ≤ p
    → p ≤ tl.tl_count
    → threadlist_removenode l (q.place p)
      ≡ done (unlinked l (q.place (p - 1)) (q.place (p + 1)) (q.place p))
removenode-place {l} {tl} {xs} q p inside within =
    let w = q.linked in
    let back : p - 1 + 1 ≡ p = omega (arith, inside) in
    let prev : l.tln_prev (q.place p) ≡ some (q.place (p - 1)) =
      ap (λ k. l.tln_prev (q.place k)) (sym back) ∙ w.prevs (p - 1) (omega arith) in
    removenode-unlinked l (q.place (p - 1)) (q.place (p + 1)) (q.place p) prev (w.nexts p within)
      (λ e. absurd (omega (arith, inside, w.distinct p (p - 1) (omega arith) (omega arith) e)))

-- The node of a thread on the list is unlinked.
removenode-Removed :
    {l : Links} {tl : ThreadList} (t : ℕ) (before others : List ℕ)
    → IsList l tl (before ++ (t ∷ others))
    → (l' : Links) × (threadlist_removenode l t ≡ done l')
      × Removed l' (count_down tl) t (before ++ others)
removenode-Removed {l} {tl} t before others q =
    let p : ℕ = length before + 1 in
    let xs : List ℕ = before ++ (t ∷ others) in
    let (inside, here) = place-window q.place tl.tl_count before t others q.shows in
    let place : p - 1 ≡ length before = omega arith in
    let left : take (p - 1) xs ++ drop p xs ≡ before ++ others =
      ap (λ n. take n xs ++ drop p xs) place
      ∙ ap (λ ys. ys ++ drop p xs) (take-append before (t ∷ others))
      ∙ ap (λ ys. before ++ ys) (drop-append before t others) in
    let l' : Links = unlinked l (q.place (p - 1)) (q.place (p + 1)) (q.place p) in
    let r : Removed l' (count_down tl) (q.place p) (take (p - 1) xs ++ drop p xs) =
      unlinked-Removed q p (omega arith) (omega (arith, inside)) in
    (
      l',
      ap (threadlist_removenode l) (sym here)
          ∙ removenode-place q p (omega arith) (omega (arith, inside)),
      subst (λ x. Removed l' (count_down tl) x (before ++ others)) here
          (subst (Removed l' (count_down tl) (q.place p)) left r),
    )

pub data RemoveResult (t : ℕ) (rest : List ℕ) : Outcome (Links × ThreadList) → Type 0 where
  removed :
      (l' : Links) (tl' : ThreadList) → Removed l' tl' t rest → RemoveResult t rest (done (l', tl'))

-- threadlist_remove takes a thread out of the list wherever it is, and leaves its node on no list.
pub threadlist_remove-RemoveResult :
    {l : Links} {tl : ThreadList} (t : ℕ) (before others : List ℕ)
    → IsList l tl (before ++ (t ∷ others))
    → RemoveResult t (before ++ others) (threadlist_remove l tl t)
unfolding threadlist_remove
threadlist_remove-RemoveResult {l} {tl} t before others q =
    let (l', e, r) = removenode-Removed t before others q in rw e (removed l' (count_down tl) r)

-- What taking from an end comes to: nothing from the empty list, else the thread at that end.
pub data TakeResult (l : Links) (tl : ThreadList) (xs : List ℕ) (ends_with : ℕ → List ℕ → List ℕ)
    : Outcome (Option ℕ × Links × ThreadList) → Type 0 where
  empty : xs ≡ [] → TakeResult l tl xs ends_with (done (none, l, tl))
  taken :
      (t : ℕ) (rest : List ℕ) (l' : Links) (tl' : ThreadList)
      → xs ≡ ends_with t rest
      → Removed l' tl' t rest
      → TakeResult l tl xs ends_with (done (some t, l', tl'))

abbrev pub at_head : ℕ → List ℕ → List ℕ
at_head t rest = t ∷ rest

abbrev pub at_tail : ℕ → List ℕ → List ℕ
at_tail t rest = rest ++ (t ∷ [])

take_node-TakeResult :
    {l : Links} {tl : ThreadList} {xs : List ℕ} (ends_with : ℕ → List ℕ → List ℕ) (t : ℕ)
    (before others : List ℕ)
    → IsList l tl (before ++ (t ∷ others))
    → xs ≡ ends_with t (before ++ others)
    → TakeResult l tl xs ends_with (take_node l tl t)
take_node-TakeResult {l} {tl} ends_with t before others q same =
    let (l', e, r) = removenode-Removed t before others q in
    let self : l'.tln_self t ≡ some t = r.off.self in
    rw e (rw self (taken t (before ++ others) l' (count_down tl) same r))

-- threadlist_remhead returns NULL and changes nothing on the empty list; on any other it takes off the
-- first thread, returns it, and leaves its node on no list.
pub threadlist_remhead-TakeResult :
    {l : Links} {tl : ThreadList} (xs : List ℕ)
    → IsList l tl xs
    → TakeResult l tl xs at_head (threadlist_remhead l tl)
unfolding threadlist_remhead
threadlist_remhead-TakeResult {l} {tl} [] q =
    let w = q.linked in
    let ends : 0 + 1 ≡ tl.tl_count + 1 = omega (arith, IsList-length q) in
    let front : l.tln_next tl.tl_head ≡ some (q.place (0 + 1)) =
      ap l.tln_next (sym w.starts) ∙ w.nexts 0 (omega arith) in
    let past : l.tln_next (q.place (0 + 1)) ≡ none =
      ap (λ k. l.tln_next (q.place k)) ends ∙ w.last in
    rw (front, past) (empty refl)
threadlist_remhead-TakeResult {l} {tl} (t ∷ rest) q =
    let w = q.linked in
    let (inside, here) = place-window q.place tl.tl_count [] t rest q.shows in
    let front : l.tln_next tl.tl_head ≡ some t =
      ap l.tln_next (sym w.starts) ∙ w.nexts 0 (omega arith) ∙ ap some here in
    let next : l.tln_next t ≡ some (q.place (0 + 1 + 1)) =
      ap l.tln_next (sym here) ∙ w.nexts (0 + 1) (omega (arith, inside)) in
    rw (front, next) (take_node-TakeResult at_head t [] rest q refl)

append_nil : (xs : List ℕ) → xs ++ [] ≡ xs
append_nil [] = refl
append_nil (x ∷ xs) = ap (◌∷◌ x) (append_nil xs)

snoc-cases : (xs : List ℕ) → (xs ≡ []) ⊎ ((rest : List ℕ) × (t : ℕ) × (xs ≡ rest ++ (t ∷ [])))
snoc-cases [] = inl refl
snoc-cases (x ∷ xs) = inr (elim (snoc-cases xs) [
  | inl e ↦ ([], x, ap (◌∷◌ x) e)
  | inr (rest, t, e) ↦ (x ∷ rest, t, ap (◌∷◌ x) e)
])

remtail-nonempty :
    {l : Links} {tl : ThreadList} {xs : List ℕ} (rest : List ℕ) (t : ℕ)
    → xs ≡ rest ++ (t ∷ [])
    → IsList l tl (rest ++ (t ∷ []))
    → TakeResult l tl xs at_tail (tail_node l tl (l.tln_prev tl.tl_tail))
remtail-nonempty {l} {tl} {xs} rest t e q =
    let w = q.linked in
    let c : ℕ = tl.tl_count in
    let (inside, here) = place-window q.place c rest t [] q.shows in
    let size : c ≡ length rest + 1 = IsList-length q ∙ length-append rest (t ∷ []) in
    let last : q.place c ≡ t = ap q.place size ∙ here in
    let back : l.tln_prev tl.tl_tail ≡ some t =
      ap l.tln_prev (sym w.ends) ∙ w.prevs c (omega arith) ∙ ap some last in
    let before : c - 1 + 1 ≡ c = omega (arith, size) in
    let prev : l.tln_prev t ≡ some (q.place (c - 1)) =
      ap l.tln_prev (sym (ap q.place before ∙ last)) ∙ w.prevs (c - 1) (omega arith) in
    rw (back, prev)
      (take_node-TakeResult at_tail t rest [] q
        (e ∙ ap (λ ys. ys ++ (t ∷ [])) (sym (append_nil rest))))

-- threadlist_remtail returns NULL and changes nothing on the empty list; on any other it takes off the
-- last thread, returns it, and leaves its node on no list.
threadlist_remtail-TakeResult :
    {l : Links} {tl : ThreadList} (xs : List ℕ)
    → IsList l tl xs
    → TakeResult l tl xs at_tail (threadlist_remtail l tl)
unfolding threadlist_remtail
threadlist_remtail-TakeResult {l} {tl} xs q = elim (snoc-cases xs) [
  | inr (rest, t, e) ↦ remtail-nonempty rest t e (subst (IsList l tl) e q)
  | inl none_there ↦
      let w = q.linked in
      let size : tl.tl_count ≡ 0 = IsList-length q ∙ ap length none_there in
      let back : l.tln_prev tl.tl_tail ≡ some (q.place tl.tl_count) =
        ap l.tln_prev (sym w.ends) ∙ w.prevs tl.tl_count (omega arith) in
      let past : l.tln_prev (q.place tl.tl_count) ≡ none =
        ap (λ k. l.tln_prev (q.place k)) size ∙ w.first in
      rw (back, past) (empty none_there)
]
