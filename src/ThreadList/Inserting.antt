-- ===== src/ThreadList/Inserting.antt =====
-- threadlist_insertafter and threadlist_insertbefore of kern/thread/threadlist.c.
use petrel_os.Base.{
  ℕ, ◌+◌, ◌^◌, ◌≤◌, ◌<◌, ◌≡◌, sym, ap, ◌∙◌, subst, ◌≢◌, List, [], ◌∷◌, ◌++◌, arith, length, take,
  drop,
}
use petrel_os.ThreadList.{
  Links, ThreadList, threadlist_insertafter, threadlist_insertbefore, threadlist_insertafternode,
  threadlist_insertbeforenode, count_up,
}
use petrel_os.ThreadList.Places.{linked_in, insertafternode-linked_in, insertbeforenode-linked_in}
use petrel_os.ThreadList.Lists.{take-append, drop-append, drop-length, take-through, place-window}
use petrel_os.ThreadList.Sequence.{IsList, IsOff, Added, added, off_list, inserted-IsList}

-- threadlist_insertafter puts a thread that is on no list right after the given one.
threadlist_insertafter-Added :
    {l : Links} {tl : ThreadList} (t onlist : ℕ) (before others : List ℕ)
    → IsList l tl (before ++ (onlist ∷ others))
    → IsOff l t
    → tl.tl_count + 1 < 2 ^ 32
    → Added ((before ++ (onlist ∷ [])) ++ (t ∷ others)) (threadlist_insertafter l tl onlist t)
unfolding threadlist_insertafter
threadlist_insertafter-Added {l} {tl} t onlist before others q off room =
    let w = q.linked in
    let p : ℕ = length before + 1 in
    let xs : List ℕ = before ++ (onlist ∷ others) in
    let (inside, here) = place-window q.place tl.tl_count before onlist others q.shows in
    let within : p ≤ tl.tl_count = omega (arith, inside) in
    let apart : t ≢ q.place p = λ e. off_list w off p (omega (arith, inside)) (sym e) in
    let e =
      ap (λ n. threadlist_insertafternode l n t) (sym here)
      ∙ insertafternode-linked_in l (q.place p) (q.place (p + 1)) t (w.nexts p within) apart in
    let whole : take p xs ++ (t ∷ drop p xs) ≡ (before ++ (onlist ∷ [])) ++ (t ∷ others) =
      ap (λ ys. ys ++ (t ∷ drop p xs)) (take-through before onlist others)
      ∙ ap (λ ys. (before ++ (onlist ∷ [])) ++ (t ∷ ys)) (drop-append before onlist others) in
    let l' : Links = linked_in l (q.place p) (q.place (p + 1)) t in
    rw e (
      added l' (count_up tl)
        (subst (IsList l' (count_up tl)) whole (inserted-IsList q p t within off room)))

-- threadlist_insertbefore puts a thread that is on no list right before the given one.
threadlist_insertbefore-Added :
    {l : Links} {tl : ThreadList} (t onlist : ℕ) (before others : List ℕ)
    → IsList l tl (before ++ (onlist ∷ others))
    → IsOff l t
    → tl.tl_count + 1 < 2 ^ 32
    → Added (before ++ (t ∷ onlist ∷ others)) (threadlist_insertbefore l tl t onlist)
unfolding threadlist_insertbefore
threadlist_insertbefore-Added {l} {tl} t onlist before others q off room =
    let w = q.linked in
    let p : ℕ = length before in
    let xs : List ℕ = before ++ (onlist ∷ others) in
    let (inside, here) = place-window q.place tl.tl_count before onlist others q.shows in
    let within : p ≤ tl.tl_count = omega (arith, inside) in
    let apart : t ≢ q.place p = λ e. off_list w off p (omega (arith, inside)) (sym e) in
    let e =
      ap (λ n. threadlist_insertbeforenode l t n) (sym here)
      ∙ insertbeforenode-linked_in l (q.place p) (q.place (p + 1)) t (w.prevs p within) apart in
    let whole : take p xs ++ (t ∷ drop p xs) ≡ before ++ (t ∷ onlist ∷ others) =
      ap (λ ys. ys ++ (t ∷ drop p xs)) (take-append before (onlist ∷ others))
      ∙ ap (λ ys. before ++ (t ∷ ys)) (drop-length before (onlist ∷ others)) in
    let l' : Links = linked_in l (q.place p) (q.place (p + 1)) t in
    rw e (
      added l' (count_up tl)
        (subst (IsList l' (count_up tl)) whole (inserted-IsList q p t within off room)))
