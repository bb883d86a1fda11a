-- ===== src/Coremap/Alloc.antt =====
-- alloc_one_page of kern/arch/mips/vm/coremap.c, with the eviction and its locks.
use petrel_os.Base.{
  ℕ, ◌/◌, Bool, true, false, not, ◌&&◌, Option, none, some, ltb, ◌==◌, if◌then◌else◌, update, set,
  Outcome, done, ◌>>=◌, ◌>>◌, kassert,
}
use petrel_os.Base.Int.{pos, ltb_ℤ}
use petrel_os.Coremap.State.{is_free, is_dirty, coremap_to_paddr, entry_at, Vm}
use petrel_os.Coremap.Select.{
  reached_kpage_limit, find_free_page, choose_evict_page, mark_allocated,
}
use petrel_os.Coremap.SwapSpace.{require, swapout, evict_page}

-- lock_acquire and lock_release on the `pt_lock` of an address space, where no other thread holds it.
unfoldable pub acquire_pt_lock : Vm → ℕ → Outcome Vm
acquire_pt_lock vm as' = do
  kassert (not (vm.holds as'))
  done (record vm { holds = update vm.holds as' true })

unfoldable pub release_pt_lock : Vm → ℕ → Outcome Vm
release_pt_lock vm as' = do
  kassert (vm.holds as')
  done (record vm { holds = update vm.holds as' false })

-- The locks that alloc_one_page takes before it evicts a page of the address space `victim`, in the
-- order of their addresses. The caller is a user address space, or the kernel (`none`).
unfoldable pub lock_victim : Vm → Option ℕ → ℕ → Outcome Vm
unfolding acquire_pt_lock release_pt_lock
lock_victim vm (some as') victim =
    if ltb victim as'
    then (do vm ← release_pt_lock vm as'; vm ← acquire_pt_lock vm victim; acquire_pt_lock vm as')
    else if ltb as' victim
    then acquire_pt_lock vm victim
    else done vm
lock_victim vm none victim = if vm.holds victim then done vm else acquire_pt_lock vm victim

unfoldable pub swapout_dirty : Vm → ℕ → Outcome Vm
unfolding swapout
swapout_dirty vm ix =
    if is_dirty (entry_at vm.coremap ix).state
    then (do (vm', _) ← swapout vm (coremap_to_paddr vm.base ix); done vm')
    else done vm

-- The eviction in alloc_one_page. The TLB is not part of the state, so the shootdowns leave it alone.
unfoldable pub evict : Vm → Option ℕ → ℕ → Outcome Vm
evict vm caller ix = do
  victim ← require (entry_at vm.coremap ix).owner
  let held_lock = vm.holds victim
  vm ← lock_victim vm caller victim
  vm ← swapout_dirty vm ix
  vm ← evict_page vm (coremap_to_paddr vm.base ix)
  if held_lock
      then done vm
      else (do owner ← require (entry_at vm.coremap ix).owner; release_pt_lock vm owner)

-- Where no free page is found: a page chosen by the clock, evicted unless it is free.
unfoldable pub reclaim : Vm → Option ℕ → Outcome (ℕ × Vm)
reclaim vm caller = do
  (ix, vm) ← choose_evict_page vm
  if is_free (entry_at vm.coremap ix).state
      then done (ix, vm)
      else (do vm ← evict vm caller ix; done (ix, vm))

unfoldable pub find_page : Vm → Option ℕ → Outcome (ℕ × Vm)
find_page vm caller =
    let reclaimed = reclaim vm caller in
    if ltb_ℤ (pos 0) vm.num_cm_free
    then elim (find_free_page vm) [ some found ↦ done found | none ↦ reclaimed ]
    else reclaimed

-- The end of alloc_one_page: the entry is marked, and a user page gets its owner and address.
unfoldable pub claim : Vm → Option ℕ → ℕ → ℕ → Outcome (Vm × ℕ)
claim vm none va ix = do
  kassert (is_free (entry_at vm.coremap ix).state)
  kassert (entry_at vm.coremap ix).busy_bit
  vm ← mark_allocated vm ix true
  done (vm, coremap_to_paddr vm.base ix)
claim vm (some as') va ix = do
  kassert (is_free (entry_at vm.coremap ix).state)
  kassert (entry_at vm.coremap ix).busy_bit
  vm ← mark_allocated vm ix false
  kassert (not (va == 0))
  let e = entry_at vm.coremap ix
  done (
    record vm {
      coremap = set vm.coremap ix (record e { owner = some as'; vaddr_base = va / 4096 });
    },
    coremap_to_paddr vm.base ix,
  )

abbrev pub is_kernel : Option ℕ → Bool
is_kernel none = true
is_kernel (some as') = false

-- alloc_one_page; the physical address 0 is INVALID_PADDR.
unfoldable pub alloc_one_page : Vm → Option ℕ → ℕ → Outcome (Vm × ℕ)
alloc_one_page vm caller va = do
  kassert (not (vm.num_cm_entries == 0))
  if is_kernel caller && reached_kpage_limit vm
      then done (vm, 0)
      else (do (ix, vm) ← find_page vm caller; claim vm caller va ix)
