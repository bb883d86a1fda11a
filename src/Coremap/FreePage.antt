-- ===== src/Coremap/FreePage.antt =====
-- find_free_page against a description of the page that it picks.
use petrel_os.Base.{
  ℕ, zero, suc, ◌+◌, ◌≤◌, ◌<◌, ◌≡◌, subst, inl, inr, Bool, true, false, not, ◌&&◌, Option, none,
  some, List, arith, ◌==◌, if◌then◌else◌, ==_iff, Bool-cases, length, set, get_or-set_self,
  get_or-set_ne, set-set,
}
use petrel_os.Coremap.State.{CmEntry, is_free, Vm, entry_at, cme_set_busy, fresh_entry}
use petrel_os.Coremap.Select.{find_free, find_free_page}

-- A free page that nobody has pinned.
abbrev pub available : List CmEntry → ℕ → Bool
available cm i = is_free (entry_at cm i).state && not (entry_at cm i).busy_bit

-- Reading an entry after one was written.
pub entry_at-set :
    (cm : List CmEntry) (i j : ℕ) (e : CmEntry)
    → i < length cm
    → entry_at (set cm i e) j ≡ (if i == j then e else entry_at cm j)
entry_at-set cm i j e h = elim (Bool-cases (i == j)) [
  | inl same ↦ rw (same, ← (==_iff i j).0 same) (get_or-set_self cm i e fresh_entry h)
  | inr other ↦ rw other (get_or-set_ne cm i j e fresh_entry (λ q. ground arith))
]

-- Two changes of one entry come to one write.
pub edit_twice :
    (cm : List CmEntry) (i : ℕ) (f g : CmEntry → CmEntry)
    → i < length cm
    → (let cm' = set cm i (f (entry_at cm i)) in set cm' i (g (entry_at cm' i)))
      ≡ set cm i (g (f (entry_at cm i)))
edit_twice cm i f g h = rw (get_or-set_self cm i (f (entry_at cm i)) fresh_entry h, set-set)

-- The pick among the `rounds` entries from `from` on.
pub data FreePick (cm : List CmEntry) (from to : ℕ) : Option (ℕ × List CmEntry) → Type 0 where
  missing : ((j : ℕ) → from ≤ j → j < to → available cm j ≡ false) → FreePick cm from to none
  found :
      (k : ℕ)
      → from ≤ k
      → k < to
      → available cm k ≡ true
      → ((j : ℕ) → from ≤ j → j < k → available cm j ≡ false)
      → FreePick cm from to (some (k, cme_set_busy cm k true))

skip_one :
    (cm : List CmEntry) (from to : ℕ) (r : Option (ℕ × List CmEntry))
    → available cm from ≡ false
    → FreePick cm (suc from) to r
    → FreePick cm from to r
skip_one cm from to r no_page (missing none_left) = missing (λ j h k.
    elim (Bool-cases (from == j)) [
      | inl same ↦ rw (← (==_iff from j).0 same) no_page
      | inr other ↦ none_left j (ground arith) k
    ])
skip_one cm from to r no_page (found k after below page first) =
    found k (omega arith) below page (λ j h l. elim (Bool-cases (from == j)) [
      | inl same ↦ rw (← (==_iff from j).0 same) no_page
      | inr other ↦ first j (ground arith) l
    ])

find_free-FreePick :
    (rounds i : ℕ) (cm : List CmEntry)
    → rounds + i ≤ length cm
    → FreePick cm i (i + rounds) (find_free rounds i cm)
unfolding find_free
find_free-FreePick zero i cm h = missing (λ j a b. absurd (omega arith))
find_free-FreePick (suc rounds) i cm h =
    let rest : FreePick cm (suc i) (i + suc rounds) (find_free rounds (suc i) cm) =
      subst (λ (to : ℕ). FreePick cm (suc i) to (find_free rounds (suc i) cm)) (omega arith)
        (find_free-FreePick rounds (suc i) cm (omega arith)) in
    elim (Bool-cases (is_free (entry_at cm i).state)) [
      | inr not_free ↦ rw not_free (skip_one cm i _ _ (ground arith) rest)
      | inl is ↦ elim (Bool-cases (entry_at cm i).busy_bit) [
        | inl busy ↦ rw (is, busy) (skip_one cm i _ _ (ground arith) rest)
        | inr idle ↦
            rw
              (
                is,
                idle,
                get_or-set_self cm i (let e = entry_at cm i in record e { busy_bit = true })
                    fresh_entry (omega arith),
                is,
              )
              (found i (omega arith) (omega arith) (ground arith) (λ j a b. absurd (omega arith)))
      ]
    ]

pub data FindFreePage (vm : Vm) : Option (ℕ × Vm) → Type 0 where
  missing :
      ((j : ℕ) → j < vm.num_cm_entries → available vm.coremap j ≡ false) → FindFreePage vm none
  found :
      (k : ℕ)
      → k < vm.num_cm_entries
      → available vm.coremap k ≡ true
      → ((j : ℕ) → j < k → available vm.coremap j ≡ false)
      → FindFreePage vm (some (k, record vm { coremap = cme_set_busy vm.coremap k true }))

-- With a coremap of `num_cm_entries` entries find_free_page returns the lowest page that is free and
-- not pinned and pins it, changing nothing else; it returns -1 exactly if there is no such page.
pub find_free_page-FindFreePage :
    (vm : Vm) → length vm.coremap ≡ vm.num_cm_entries → FindFreePage vm (find_free_page vm)
unfolding find_free_page
find_free_page-FindFreePage vm e =
    go (find_free vm.num_cm_entries 0 vm.coremap)
      (find_free-FreePick vm.num_cm_entries 0 vm.coremap (omega arith))
  where
    go :
        (r : Option (ℕ × List CmEntry))
        → FreePick vm.coremap 0 (0 + vm.num_cm_entries) r
        → FindFreePage vm
            (elim r [ none ↦ none | some (ix, cm) ↦ some (ix, record vm { coremap = cm }) ])
    go r (missing none_left) = missing (λ j h. none_left j (omega arith) (omega arith))
    go r (found k after below page first) =
        found k (omega arith) page (λ j h. first j (omega arith) h)
