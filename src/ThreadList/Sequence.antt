-- ===== src/ThreadList/Sequence.antt =====
-- The operations of kern/thread/threadlist.c against lists of threads.
use petrel_os.Base.{
  ℕ, ◌+◌, ◌%◌, ◌^◌, ◌≤◌, ◌<◌, ◌≡◌, refl, sym, ap, ◌∙◌, subst, ◌≢◌, inl, inr, false, none, some,
  List, [], ◌∷◌, ◌++◌, arith, ◌==◌, if◌then◌else◌, ==_refl, lt-cases, length, take, drop, Outcome,
  done,
}
use petrel_os.Base.Windows.{window}
use petrel_os.ThreadList.{
  threadlist_init, threadlistnode_init, Links, ThreadList, threadlist_addhead, threadlist_addtail,
  threadlist_insertafternode, threadlist_insertbeforenode, count_up,
}
use petrel_os.ThreadList.Places.{
  IsLinked, linked_in, inserted_at, insertafternode-linked_in, insertbeforenode-linked_in,
  linked_in-IsLinked,
}
use petrel_os.ThreadList.Lists.{window-inserted_at, length-window}

-- The list `tl` holds the threads `xs`, from head to tail.
pub record IsList (l : Links) (tl : ThreadList) (xs : List ℕ) : Type 0 where
  pub place : ℕ → ℕ
  pub linked : IsLinked l tl place
  pub shows : window place 1 tl.tl_count ≡ xs
  pub representable : tl.tl_count < 2 ^ 32

-- The node of the thread `t` is initialised and on no list.
pub record IsOff (l : Links) (t : ℕ) : Type 0 where
  pub no_prev : l.tln_prev t ≡ none
  pub no_next : l.tln_next t ≡ none
  pub self : l.tln_self t ≡ some t

pub off_list :
    {l : Links} {tl : ThreadList} {place : ℕ → ℕ} {t : ℕ}
    → IsLinked l tl place
    → IsOff l t
    → (k : ℕ) → k ≤ tl.tl_count + 1
    → place k ≢ t
off_list {l} {tl} {place} {t} w off k low e = elim (lt-cases tl.tl_count k) [
  | inr inside ↦
      let next : some (place (k + 1)) ≡ none =
        sym (w.nexts k inside) ∙ ap l.tln_next e ∙ off.no_next in
      absurd (ground (arith, next))
  | inl past ↦
      let last : tl.tl_count + 1 ≡ k = omega (arith, past, low) in
      let prev : some (place tl.tl_count) ≡ none =
        sym (w.prevs tl.tl_count (omega arith)) ∙ ap l.tln_prev (ap place last ∙ e) ∙ off.no_prev in
      absurd (ground (arith, prev))
]

-- A thread linked in after the place `p`.
pub inserted-IsList :
    {l : Links} {tl : ThreadList} {xs : List ℕ} (q : IsList l tl xs) (p t : ℕ)
    → p ≤ tl.tl_count
    → IsOff l t
    → tl.tl_count + 1 < 2 ^ 32
    → IsList
        (linked_in l (q.place p) (q.place (p + 1)) t)
        (count_up tl)
        (take p xs ++ (t ∷ drop p xs))
inserted-IsList {l} {tl} {xs} q p t within off room =
    let count : (tl.tl_count + 1) % 2 ^ 32 ≡ tl.tl_count + 1 = omega (arith, room) in
    let new = linked_in-IsLinked q.linked p t within (off_list q.linked off) off.self in
    rw count (record {
      place = inserted_at q.place p t;
      linked = new;
      shows =
          window-inserted_at q.place p t tl.tl_count within
          ∙ ap (λ ys. take p ys ++ (t ∷ drop p ys)) q.shows;
      representable = room;
    })

-- What an operation that adds a thread comes to.
pub data Added (xs : List ℕ) : Outcome (Links × ThreadList) → Type 0 where
  added : (l' : Links) (tl' : ThreadList) → IsList l' tl' xs → Added xs (done (l', tl'))

-- threadlist_addhead puts a thread that is on no list before all others.
threadlist_addhead-Added :
    {l : Links} {tl : ThreadList} {xs : List ℕ} (t : ℕ)
    → IsList l tl xs
    → IsOff l t
    → tl.tl_count + 1 < 2 ^ 32
    → Added (t ∷ xs) (threadlist_addhead l tl t)
unfolding threadlist_addhead
threadlist_addhead-Added {l} {tl} {xs} t q off room =
    let w = q.linked in
    let apart : t ≢ q.place 0 = λ e. off_list w off 0 (omega arith) (sym e) in
    let next : l.tln_next (q.place 0) ≡ some (q.place (0 + 1)) = w.nexts 0 (omega arith) in
    let e =
      ap (λ h. threadlist_insertafternode l h t) (sym w.starts)
      ∙ insertafternode-linked_in l (q.place 0) (q.place (0 + 1)) t next apart in
    rw e (added _ _ (inserted-IsList q 0 t (omega arith) off room))

drop-whole : (xs : List ℕ) → drop (length xs) xs ≡ []
drop-whole [] = refl
drop-whole (x ∷ xs) = drop-whole xs

take-whole : (xs : List ℕ) → take (length xs) xs ≡ xs
take-whole [] = refl
take-whole (x ∷ xs) = ap (◌∷◌ x) (take-whole xs)

pub IsList-length :
    {l : Links} {tl : ThreadList} {xs : List ℕ} → IsList l tl xs → tl.tl_count ≡ length xs
IsList-length {l} {tl} {xs} q = sym (length-window q.place 1 tl.tl_count) ∙ ap length q.shows

-- threadlist_addtail puts a thread that is on no list after all others.
pub threadlist_addtail-Added :
    {l : Links} {tl : ThreadList} {xs : List ℕ} (t : ℕ)
    → IsList l tl xs
    → IsOff l t
    → tl.tl_count + 1 < 2 ^ 32
    → Added (xs ++ (t ∷ [])) (threadlist_addtail l tl t)
unfolding threadlist_addtail
threadlist_addtail-Added {l} {tl} {xs} t q off room =
    let w = q.linked in
    let c : ℕ = tl.tl_count in
    let apart : t ≢ q.place c = λ e. off_list w off c (omega arith) (sym e) in
    let e =
      ap (λ n. threadlist_insertbeforenode l t n) (sym w.ends)
      ∙ insertbeforenode-linked_in l (q.place c) (q.place (c + 1)) t (w.prevs c (omega arith))
          apart in
    let whole : take c xs ++ (t ∷ drop c xs) ≡ xs ++ (t ∷ []) =
      ap (λ n. take n xs ++ (t ∷ drop n xs)) (IsList-length q)
      ∙ ap (λ ys. ys ++ (t ∷ drop (length xs) xs)) (take-whole xs)
      ∙ ap (λ ys. xs ++ (t ∷ ys)) (drop-whole xs) in
    rw e (added _ _ (subst (IsList _ _) whole (inserted-IsList q c t (omega arith) off room)))

-- threadlist_init makes an empty list of two different nodes, and threadlistnode_init a node that is on
-- no list.
threadlist_init-IsList :
    (l : Links) (head tail : ℕ)
    → head ≢ tail
    → (let (l', tl) = threadlist_init l head tail in IsList l' tl [])
unfolding threadlist_init window
threadlist_init-IsList l head tail apart =
    let other : (head == tail) ≡ false = ground arith in
    let other' : (tail == head) ≡ false = ground arith in
    record {
      place = λ k. if k == 0 then head else tail;
      linked = record {
        starts = refl;
        ends = refl;
        nexts = λ k low.
            let same : k ≡ 0 = omega (arith, low) in ground (arith, same, other, ==_refl head);
        prevs = λ k low.
            let same : k ≡ 0 = omega (arith, low) in ground (arith, same, other', ==_refl tail);
        first = ground (arith, other, ==_refl head);
        last = ground (arith, other', ==_refl tail);
        selves = λ k low high. absurd (omega arith);
        distinct = λ i j hi hj e. ground (arith, apart);
      };
      shows = refl;
      representable = omega arith;
    }

threadlistnode_init-IsOff : (l : Links) (t : ℕ) → IsOff (threadlistnode_init l t) t
unfolding threadlistnode_init
threadlistnode_init-IsOff l t = record {
  no_prev = rw (==_refl t) refl;
  no_next = rw (==_refl t) refl;
  self = rw (==_refl t) refl;
}
