-- ===== src/ThreadList/Places.antt =====
-- The nodes of a list of kern/thread/threadlist.c by their places, and what linking and unlinking a
-- node does to them.
use petrel_os.Base.{
  ℕ, ◌+◌, ◌-◌, ◌≤◌, ◌≡◌, refl, sym, ap, ◌∙◌, ◌≢◌, inl, inr, false, none, some, arith, ltb, leb,
  ◌==◌, if◌then◌else◌, ==_refl, lt-cases, ==-cases, update, done,
}
use petrel_os.ThreadList.{
  Links, ThreadList, threadlist_insertafternode, threadlist_insertbeforenode, threadlist_removenode,
}

-- The node at place 0 is the head, at place `tl_count` + 1 the tail, and the threads are between.
pub record IsLinked (l : Links) (tl : ThreadList) (at : ℕ → ℕ) : Type 0 where
  pub starts : at 0 ≡ tl.tl_head
  pub ends : at (tl.tl_count + 1) ≡ tl.tl_tail
  pub nexts : (k : ℕ) → k ≤ tl.tl_count → l.tln_next (at k) ≡ some (at (k + 1))
  pub prevs : (k : ℕ) → k ≤ tl.tl_count → l.tln_prev (at (k + 1)) ≡ some (at k)
  pub first : l.tln_prev (at 0) ≡ none
  pub last : l.tln_next (at (tl.tl_count + 1)) ≡ none
  pub selves : (k : ℕ) → 1 ≤ k → k ≤ tl.tl_count → l.tln_self (at k) ≡ some (at k)
  pub distinct : (i j : ℕ) → i ≤ tl.tl_count + 1 → j ≤ tl.tl_count + 1 → at i ≡ at j → i ≡ j

-- The links with `t` between the neighbours `p` and `n`, and those without it.
abbrev pub linked_in : Links → ℕ → ℕ → ℕ → Links
linked_in l p n t = record l {
  tln_prev = update (update l.tln_prev t (some p)) n (some t);
  tln_next = update (update l.tln_next t (some n)) p (some t);
}

abbrev pub unlinked : Links → ℕ → ℕ → ℕ → Links
unlinked l p n t = record l {
  tln_prev = update (update l.tln_prev n (some p)) t none;
  tln_next = update (update l.tln_next p (some n)) t none;
}

pub insertafternode-linked_in :
    (l : Links) (p n t : ℕ)
    → l.tln_next p ≡ some n
    → t ≢ p
    → threadlist_insertafternode l p t ≡ done (linked_in l p n t)
unfolding threadlist_insertafternode
insertafternode-linked_in l p n t next apart =
    let other : (t == p) ≡ false = ground arith in rw (next, ==_refl t, other, ==_refl t) refl

pub insertbeforenode-linked_in :
    (l : Links) (p n t : ℕ)
    → l.tln_prev n ≡ some p
    → t ≢ p
    → threadlist_insertbeforenode l t n ≡ done (linked_in l p n t)
unfolding threadlist_insertbeforenode
insertbeforenode-linked_in l p n t prev apart =
    let other : (t == p) ≡ false = ground arith in rw (prev, ==_refl t, other, ==_refl t) refl

pub removenode-unlinked :
    (l : Links) (p n t : ℕ)
    → l.tln_prev t ≡ some p
    → l.tln_next t ≡ some n
    → t ≢ p
    → threadlist_removenode l t ≡ done (unlinked l p n t)
unfolding threadlist_removenode
removenode-unlinked l p n t prev next apart =
    let other : (t == p) ≡ false = ground arith in rw (prev, next, other, prev) refl

-- The places with `t` after the place `p`, and those without the place `p`.
abbrev pub inserted_at : (ℕ → ℕ) → ℕ → ℕ → ℕ → ℕ
inserted_at at p t k = if leb k p then at k else if k == p + 1 then t else at (k - 1)

abbrev pub removed_at : (ℕ → ℕ) → ℕ → ℕ → ℕ
removed_at at p k = if ltb k p then at k else at (k + 1)

module _ {l : Links} {tl : ThreadList} {at : ℕ → ℕ} (w : IsLinked l tl at) where
  pub same_place : (i j : ℕ) → i ≤ tl.tl_count + 1 → j ≤ tl.tl_count + 1 → (at i == at j) ≡ (i == j)
  same_place i j hi hj = elim (==-cases i j) [
    | inl same ↦ ground (arith, ap at same)
    | inr apart ↦ elim (==-cases (at i) (at j)) [
      | inl e ↦ absurd (apart (w.distinct i j hi hj e))
      | inr e ↦ ground arith
    ]
  ]

  module _ (p t : ℕ) (within : p ≤ tl.tl_count)
      (fresh : (k : ℕ) → k ≤ tl.tl_count + 1 → at k ≢ t) where
    abbrev here : ℕ → ℕ
    here = inserted_at at p t

    not_new : (k : ℕ) → k ≤ tl.tl_count + 1 → (at k == t) ≡ false
    not_new k low = let no = fresh k low in ground arith

    inserted_next :
        (k : ℕ)
        → k ≤ tl.tl_count + 1
        → (linked_in l (at p) (at (p + 1)) t).tln_next (here k) ≡ some (here (k + 1))
    inserted_next k low = elim (lt-cases k p) [
      | inl before ↦ ground (
        arith,
        same_place k p (omega arith) (omega arith),
        not_new k low,
        w.nexts k (omega arith),
      )
      | inr from ↦ elim (==-cases k p) [
        | inl same ↦ ground (arith, same, ==_refl (at p))
        | inr past ↦ elim (==-cases k (p + 1)) [
          | inl new ↦
              let after_new : at (k + 1 - 1) ≡ at (p + 1) = ap at (omega (arith, new)) in
              ground (arith, new, not_new p (omega arith), ==_refl t, after_new)
          | inr later ↦
              let behind : at (k - 1 + 1) ≡ at (k + 1 - 1) = ap at (omega (arith, past, from)) in
              ground (
                arith,
                same_place (k - 1) p (omega arith) (omega arith),
                not_new (k - 1) (omega arith),
                w.nexts (k - 1) (omega arith),
                behind,
              )
        ]
      ]
    ]

    inserted_prev :
        (k : ℕ)
        → k ≤ tl.tl_count + 1
        → (linked_in l (at p) (at (p + 1)) t).tln_prev (here (k + 1)) ≡ some (here k)
    inserted_prev k low = elim (lt-cases k p) [
      | inl before ↦ ground (
        arith,
        same_place (k + 1) (p + 1) (omega arith) (omega arith),
        not_new (k + 1) (omega arith),
        w.prevs k (omega arith),
      )
      | inr from ↦ elim (==-cases k p) [
        | inl same ↦ ground (arith, same, ==_refl t, not_new (p + 1) (omega arith))
        | inr past ↦ elim (==-cases k (p + 1)) [
          | inl new ↦
              let after_new : at (k + 1 - 1) ≡ at (p + 1) = ap at (omega (arith, new)) in
              ground (arith, new, ==_refl (at (p + 1)), after_new)
          | inr later ↦
              let behind : at (k + 1 - 1) ≡ at (k - 1 + 1) = ap at (omega (arith, past, from)) in
              ground (
                arith,
                same_place (k - 1 + 1) (p + 1) (omega arith) (omega arith),
                not_new (k - 1 + 1) (omega arith),
                w.prevs (k - 1) (omega arith),
                behind,
              )
        ]
      ]
    ]

    -- The old place of a node that is not the new one.
    old_place : ℕ → ℕ
    old_place k = if leb k p then k else k - 1

    here_old : (k : ℕ) → k ≢ p + 1 → here k ≡ at (old_place k)
    unfolding old_place
    here_old k apart = ground arith

    here_new : here (p + 1) ≡ t
    here_new = ground arith

    old_place-within : (k : ℕ) → k ≢ p + 1 → k ≤ tl.tl_count + 1 + 1 → old_place k ≤ tl.tl_count + 1
    unfolding old_place
    old_place-within k apart low = ground arith

    inserted_distinct :
        (i j : ℕ) → i ≤ tl.tl_count + 1 + 1 → j ≤ tl.tl_count + 1 + 1 → here i ≡ here j → i ≡ j
    unfolding old_place
    inserted_distinct i j hi hj e = elim (==-cases i (p + 1)) [
      | inl i_new ↦ elim (==-cases j (p + 1)) [
        | inl j_new ↦ omega (arith, i_new, j_new)
        | inr j_old ↦ absurd (
            fresh (old_place j) (old_place-within j j_old hj)
              (sym (here_old j j_old) ∙ sym e ∙ ap here i_new ∙ here_new))
      ]
      | inr i_old ↦ elim (==-cases j (p + 1)) [
        | inl j_new ↦ absurd (
            fresh (old_place i) (old_place-within i i_old hi)
              (sym (here_old i i_old) ∙ e ∙ ap here j_new ∙ here_new))
        | inr j_old ↦
            let same =
              w.distinct (old_place i) (old_place j) (old_place-within i i_old hi)
                (old_place-within j j_old hj) (sym (here_old i i_old) ∙ e ∙ here_old j j_old) in
            ground (arith, same)
      ]
    ]

    inserted_self :
        l.tln_self t ≡ some t
        → (k : ℕ) → 1 ≤ k
        → k ≤ tl.tl_count + 1
        → l.tln_self (here k) ≡ some (here k)
    inserted_self self k low high = elim (lt-cases p k) [
      | inr before ↦ ground (arith, w.selves k low (omega (arith, within, before)))
      | inl past ↦ elim (==-cases k (p + 1)) [
        | inl new ↦ ground (arith, new, self)
        | inr later ↦ ground (arith, w.selves (k - 1) (omega arith) (omega arith))
      ]
    ]

    -- Linking in a new node keeps the list well linked, one place longer.
    pub linked_in-IsLinked :
        l.tln_self t ≡ some t
        → IsLinked
            (linked_in l (at p) (at (p + 1)) t)
            (record tl { tl_count = tl.tl_count + 1 })
            here
    linked_in-IsLinked self = record {
      starts = ground (arith, w.starts);
      ends = ground (arith, w.ends);
      nexts = inserted_next;
      prevs = inserted_prev;
      first = ground (
        arith,
        same_place 0 (p + 1) (omega arith) (omega arith),
        not_new 0 (omega arith),
        w.first,
      );
      last =
          let end : at (tl.tl_count + 1 + 1 - 1) ≡ at (tl.tl_count + 1) = ap at (omega arith) in
          ground (
            arith,
            same_place (tl.tl_count + 1) p (omega arith) (omega arith),
            not_new (tl.tl_count + 1) (omega arith),
            w.last,
            end,
          );
      selves = λ k low high. inserted_self self k low high;
      distinct = inserted_distinct;
    }
