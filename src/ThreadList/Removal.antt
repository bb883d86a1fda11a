-- ===== src/ThreadList/Removal.antt =====
-- What unlinking a node does to the places of a list of kern/thread/threadlist.c.
use petrel_os.Base.{
  ℕ, ◌+◌, ◌-◌, ◌≤◌, ◌≡◌, sym, ap, ◌∙◌, inl, inr, some, arith, ltb, if◌then◌else◌, lt-cases,
  ==-cases,
}
use petrel_os.ThreadList.{Links, ThreadList}
use petrel_os.ThreadList.Places.{IsLinked, unlinked, removed_at, same_place}

module _ {l : Links} {tl : ThreadList} {at : ℕ → ℕ} (w : IsLinked l tl at) where
  module _ (p : ℕ) (inside : 1 ≤ p) (within : p ≤ tl.tl_count) where
    abbrev left : ℕ → ℕ
    left = removed_at at p

    abbrev links : Links
    links = unlinked l (at (p - 1)) (at (p + 1)) (at p)

    removed_next : (k : ℕ) → k ≤ tl.tl_count - 1 → links.tln_next (left k) ≡ some (left (k + 1))
    removed_next k low = elim (lt-cases k p) [
      | inl before ↦ elim (==-cases k (p - 1)) [
        | inl neighbour ↦
            let same : at k ≡ at (p - 1) = ap at neighbour in
            let further : at (k + 1 + 1) ≡ at (p + 1) = ap at (omega (arith, neighbour, inside)) in
            ground (
              arith,
              same_place w k p (omega arith) (omega arith),
              same_place w k (p - 1) (omega arith) (omega arith),
              same,
              further,
            )
        | inr apart ↦ ground (
          arith,
          same_place w k p (omega arith) (omega arith),
          same_place w k (p - 1) (omega arith) (omega arith),
          w.nexts k (omega arith),
        )
      ]
      | inr from ↦ ground (
        arith,
        same_place w (k + 1) p (omega arith) (omega arith),
        same_place w (k + 1) (p - 1) (omega arith) (omega arith),
        w.nexts (k + 1) (omega arith),
      )
    ]

    removed_prev : (k : ℕ) → k ≤ tl.tl_count - 1 → links.tln_prev (left (k + 1)) ≡ some (left k)
    removed_prev k low = elim (lt-cases (k + 1) p) [
      | inl before ↦ ground (
        arith,
        same_place w (k + 1) p (omega arith) (omega arith),
        same_place w (k + 1) (p + 1) (omega arith) (omega arith),
        w.prevs k (omega arith),
      )
      | inr from ↦ elim (==-cases (k + 1) p) [
        | inl neighbour ↦
            let same : at k ≡ at (p - 1) = ap at (omega (arith, neighbour)) in
            ground (
              arith,
              same_place w (k + 1 + 1) p (omega arith) (omega arith),
              same_place w (k + 1 + 1) (p + 1) (omega arith) (omega arith),
              same,
            )
        | inr apart ↦ ground (
          arith,
          same_place w (k + 1 + 1) p (omega arith) (omega arith),
          same_place w (k + 1 + 1) (p + 1) (omega arith) (omega arith),
          w.prevs (k + 1) (omega arith),
        )
      ]
    ]

    old_place : ℕ → ℕ
    old_place k = if ltb k p then k else k + 1

    left_old : (k : ℕ) → left k ≡ at (old_place k)
    unfolding old_place
    left_old k = ground arith

    removed_distinct :
        (i j : ℕ) → i ≤ tl.tl_count - 1 + 1 → j ≤ tl.tl_count - 1 + 1 → left i ≡ left j → i ≡ j
    unfolding old_place
    removed_distinct i j hi hj e =
        let same =
          w.distinct (old_place i) (old_place j) (ground arith) (ground arith)
            (sym (left_old i) ∙ e ∙ left_old j) in
        ground (arith, same)

    removed_self : (k : ℕ) → 1 ≤ k → k ≤ tl.tl_count - 1 → l.tln_self (left k) ≡ some (left k)
    unfolding old_place
    removed_self k low high =
        let self = w.selves (old_place k) (ground arith) (ground arith) in
        ap l.tln_self (left_old k) ∙ self ∙ ap some (sym (left_old k))

    -- Unlinking a thread's node keeps the list well linked, one place shorter.
    pub unlinked-IsLinked : IsLinked links (record tl { tl_count = tl.tl_count - 1 }) left
    unlinked-IsLinked = record {
      starts = ground (arith, w.starts);
      ends =
          let end : at (tl.tl_count - 1 + 1 + 1) ≡ at (tl.tl_count + 1) = ap at (omega arith) in
          ground (arith, w.ends, end);
      nexts = removed_next;
      prevs = removed_prev;
      first = ground (
        arith,
        same_place w 0 p (omega arith) (omega arith),
        same_place w 0 (p + 1) (omega arith) (omega arith),
        w.first,
      );
      last =
          let end : at (tl.tl_count - 1 + 1 + 1) ≡ at (tl.tl_count + 1) = ap at (omega arith) in
          ground (
            arith,
            same_place w (tl.tl_count + 1) p (omega arith) (omega arith),
            same_place w (tl.tl_count + 1) (p - 1) (omega arith) (omega arith),
            w.last,
            end,
          );
      selves = removed_self;
      distinct = removed_distinct;
    }
