-- ===== src/Coremap/Select.antt =====
-- The choice of a page in kern/arch/mips/vm/coremap.c: find_free_page, choose_evict_page and
-- mark_allocated.
use petrel_os.Base.{
  ℕ, zero, suc, ◌+◌, ◌*◌, ◌%◌, Bool, true, false, Option, none, some, List, if◌then◌else◌, set,
  Outcome, done, hang, ◌>>◌, kassert,
}
use petrel_os.Base.Int.{pos, ◌+ℤ◌, ◌-ℤ◌, leb_ℤ, eqb_ℤ}
use petrel_os.Coremap.State.{
  is_free, is_fixed, entry_at, cme_set_busy, cme_set_use, cme_try_pin, CmEntry, Vm, fixed, dirty,
}

unfoldable pub reached_kpage_limit : Vm → Bool
unfolding ◌+ℤ◌ ◌-ℤ◌
reached_kpage_limit vm = leb_ℤ (pos vm.num_cm_entries -ℤ pos 10) (vm.num_cm_kernel +ℤ pos 1)

-- The loop of find_free_page, with `rounds` entries left from `i` on; `none` is -1.
unfoldable pub find_free : ℕ → ℕ → List CmEntry → Option (ℕ × List CmEntry)
find_free zero i cm = none
find_free (suc rounds) i cm =
    let rest = find_free rounds (suc i) cm in
    if is_free (entry_at cm i).state
    then elim (cme_try_pin cm i) [
      | none ↦ rest
      | some cm' ↦
          if is_free (entry_at cm' i).state
          then some (i, cm')
          else find_free rounds (suc i) (cme_set_busy cm' i false)
    ]
    else rest

unfoldable pub find_free_page : Vm → Option (ℕ × Vm)
unfolding find_free
find_free_page vm = elim (find_free vm.num_cm_entries 0 vm.coremap) [
  | none ↦ none
  | some (ix, cm) ↦ some (ix, record vm { coremap = cm })
]

-- One turn of the loop of choose_evict_page at the clock hand: the coremap after it, and whether the
-- entry is taken.
unfoldable pub clock_turn : List CmEntry → ℕ → List CmEntry × Bool
clock_turn cm hand =
    if is_fixed (entry_at cm hand).state then (cm, false) else elim (cme_try_pin cm hand) [
      | none ↦ (cm, false)
      | some cm' ↦
          if (entry_at cm' hand).use_bit
          then (cme_set_busy (cme_set_use cm' hand false) hand false, false)
          else (cm', true)
    ]

-- The loop, on fuel: the entry taken, the coremap and the next clock hand.
unfoldable pub clock_scan : ℕ → ℕ → List CmEntry → ℕ → Option (ℕ × List CmEntry × ℕ)
unfolding clock_turn
clock_scan zero n cm hand = none
clock_scan (suc fuel) n cm hand =
    let (cm', taken) = clock_turn cm hand in
    let rest = clock_scan fuel n cm' ((hand + 1) % n) in
    if taken then some (hand, cm', (hand + 1) % n) else rest

unfoldable pub chosen : Vm → Option (ℕ × List CmEntry × ℕ) → Outcome (ℕ × Vm)
chosen vm none = hang
chosen vm (some (ix, cm, hand)) = done (ix, record vm { coremap = cm; clock_hand = hand })

-- Two rounds of the clock are fuel enough where some entry can be taken; where none can, the loop
-- goes on until another thread unpins one.
unfoldable pub choose_evict_page : Vm → Outcome (ℕ × Vm)
unfolding clock_scan chosen
choose_evict_page vm =
    chosen vm (clock_scan (2 * vm.num_cm_entries) vm.num_cm_entries vm.coremap vm.clock_hand)

-- The entry and the counters that mark_allocated writes.
unfoldable pub allocated : Vm → ℕ → Bool → Vm
unfolding ◌+ℤ◌ ◌-ℤ◌
allocated vm ix iskern =
    let e = entry_at vm.coremap ix in
    record vm {
      coremap = set vm.coremap ix (record e {
        owner = none;
        disk_offset = none;
        vaddr_base = 0;
        use_bit = false;
        state = if iskern then fixed else dirty;
      });
      num_cm_free = vm.num_cm_free -ℤ pos 1;
      num_cm_kernel = if iskern then vm.num_cm_kernel +ℤ pos 1 else vm.num_cm_kernel;
      num_cm_user = if iskern then vm.num_cm_user else vm.num_cm_user +ℤ pos 1;
    }

-- The sum that mark_allocated asserts.
unfoldable pub counters_add_up : Vm → Bool
unfolding ◌+ℤ◌
counters_add_up vm =
    eqb_ℤ (vm.num_cm_free +ℤ vm.num_cm_user +ℤ vm.num_cm_kernel) (pos vm.num_cm_entries)

unfoldable pub mark_allocated : Vm → ℕ → Bool → Outcome Vm
unfolding allocated counters_add_up
mark_allocated vm ix iskern = do
  kassert (is_free (entry_at vm.coremap ix).state)
  kassert (entry_at vm.coremap ix).busy_bit
  kassert (counters_add_up (allocated vm ix iskern))
  done (allocated vm ix iskern)
