-- ===== src/Coremap/Tests.antt =====
-- A machine with four pages: one of the kernel, a dirty user page, a free one and a clean one.
use petrel_os.Base.{
  ℕ, zero, suc, ◌+◌, ◌/◌, ◌%◌, ◌<◌, ◌≡◌, refl, true, false, none, some, List, [], ◌∷◌, arith,
  update, get_or, Outcome, done, panic, hang,
}
use petrel_os.Base.Int.{pos, negsuc, ◌-ℤ◌, ◌+ℤ◌}
use petrel_os.PageTable.{
  Pte, PageTable, zero_pte, get_pt_entry, write_pt_entry, pt_update, va_to_pa, pte_set_location,
  pte_set_present,
}
use petrel_os.PageTable.Translate.{in_frame}
use petrel_os.Coremap.State.{
  CmEntry, free, fixed, clean, dirty, Vm, entry_at, fresh_entry, cme_set_busy, coremap_to_paddr,
}
use petrel_os.Coremap.Select.{
  reached_kpage_limit, find_free, find_free_page, clock_turn, clock_scan, chosen, choose_evict_page,
  allocated, counters_add_up, mark_allocated,
}
use petrel_os.Coremap.SwapSpace.{
  reserved, swapfile_reserve_index, swapfile_free_index, write_page, read_page, swapout, evict_page,
  swapped_in, swapin,
}
use petrel_os.Coremap.Alloc.{
  acquire_pt_lock, release_pt_lock, lock_victim, swapout_dirty, evict, reclaim, find_page, claim,
  alloc_one_page,
}
use petrel_os.Coremap.Release.{free_coremap_page}
use petrel_os.Coremap.Clock.{evictable, Swept, choose_evict_page-ends}
use petrel_os.Coremap.Counters.{CountsMatch}
use petrel_os.Coremap.Freed.{user, free_coremap_page-Freeable}
use petrel_os.Bitmap.Valid.{IsValid}
use petrel_os.Coremap.Allocate.{Allocated, alloc_one_page-Allocated, alloc_one_page-loses_count}
use petrel_os.Coremap.Swap.{InMemory, OnDisk, evict_page-swapout, swapin-OnDisk}

abbrev kernel_entry : CmEntry
kernel_entry = record fresh_entry { state = fixed }

-- The page 1 of the coremap, at the disk offset 6, belongs to the address space 9.
abbrev dirty_entry : CmEntry
dirty_entry = record fresh_entry {
  owner = some 9;
  disk_offset = some 6;
  vaddr_base = 1024;
  state = dirty;
}

abbrev clean_entry : CmEntry
clean_entry = record dirty_entry { disk_offset = some 7; vaddr_base = 1025; state = clean }

abbrev table : PageTable
table = update (λ _. none) 1 (some (λ _. zero_pte))

abbrev machine : Vm
machine = record {
  coremap = kernel_entry ∷ dirty_entry ∷ fresh_entry ∷ clean_entry ∷ [];
  clock_hand = 0;
  num_cm_entries = 4;
  num_cm_free = pos 1;
  num_cm_kernel = pos 1;
  num_cm_user = pos 2;
  base = 64;
  disk_map = record { nbits = 16; v = 193 ∷ 0 ∷ [] };
  page_tables = λ _. table;
  holds = λ _. true;
  memory = λ _ _. 1;
  swapfile = λ _ _. 0;
  disk_error = λ _. none;
}

machine-CountsMatch : CountsMatch machine
machine-CountsMatch = record { entries = refl; frees = refl; kernels = refl; users = refl }

choose_evict_page-ends_example :
    (k : ℕ) × (mid : List CmEntry) × (choose_evict_page machine
      ≡ done (k, record machine { coremap = cme_set_busy mid k true; clock_hand = (k + 1) % 4 }))
    × (k < 4)
    × (evictable machine.coremap k ≡ true)
    × Swept machine.coremap mid
    × ((entry_at mid k).use_bit ≡ false)
choose_evict_page-ends_example =
    choose_evict_page-ends machine 1 refl (omega arith) (omega arith) refl

-- The free page is pinned.
abbrev pinned : Vm
pinned = record machine { coremap = cme_set_busy machine.coremap 2 true }

pinned-CountsMatch : CountsMatch pinned
pinned-CountsMatch = record { entries = refl; frees = refl; kernels = refl; users = refl }

alloc_one_page-Allocated_example :
    (vm' : Vm) × (ix pa : ℕ) × (alloc_one_page machine (some 9) 4202496 ≡ done (vm', pa))
    × Allocated machine vm' (some 9) 4202496 ix pa
alloc_one_page-Allocated_example =
    alloc_one_page-Allocated machine (some 9) 4202496 2 machine-CountsMatch (omega arith) refl refl
      refl

dirty-InMemory : InMemory machine 1 9 6 4194304 zero_pte
unfolding get_pt_entry
dirty-InMemory = record {
  inside = omega arith;
  below = omega arith;
  owner = refl;
  offset_is = refl;
  address = refl;
  is_dirty_page = refl;
  entry = refl;
  small = omega arith;
  disk = refl;
}

evict_page-swapout_example :
    let pa = coremap_to_paddr 64 1 in
    (mid out : Vm) × (swapout machine pa ≡ done (mid, none))
    × (evict_page mid pa ≡ done out)
    × OnDisk out 9 6 4194304 zero_pte (machine.memory (pa / 4096))
    × (entry_at out.coremap 1 ≡ (let e = entry_at machine.coremap 1 in record e { state = free }))
evict_page-swapout_example = evict_page-swapout machine 1 9 6 4194304 zero_pte dirty-InMemory

abbrev swapped_pte : Pte
swapped_pte = record zero_pte { exists = true }

-- The page at 0x400000 is on the disk.
abbrev swapped : Vm
swapped = record machine {
  page_tables = λ _.
      update (λ _. none) 1 (some (λ _. pte_set_location 6 (pte_set_present false swapped_pte)));
}

swapped-OnDisk : OnDisk swapped 9 6 4194304 swapped_pte (λ _. 0)
unfolding get_pt_entry
swapped-OnDisk = record { contents = refl; entry = refl; small = omega arith; disk = refl }

swapin-OnDisk_example :
    let dest = coremap_to_paddr 64 2 in
    (vm' : Vm) × (swapin swapped 9 4194304 dest ≡ done (vm', none))
    × (vm'.memory (dest / 4096) ≡ (λ _. 0))
    × (va_to_pa (vm'.page_tables 9) 4194304 ≡ in_frame (dest / 4096) 4194304)
    × (entry_at vm'.coremap 2 ≡ (
        let e = entry_at swapped.coremap 2 in
        record e { owner = some 9; disk_offset = some 6; vaddr_base = 1024; state = clean }))
swapin-OnDisk_example =
    swapin-OnDisk swapped 2 9 6 4194304 swapped_pte (λ _. 0) swapped-OnDisk refl refl (omega arith)
      (omega arith)

machine-map : IsValid machine.disk_map
machine-map = record {
  small = omega arith;
  words = refl;
  bytes = bytes_small;
  spare = λ i lo hi. absurd (omega (arith, lo, hi));
}
  where
    bytes_small : (i : ℕ) → get_or machine.disk_map.v i 0 < 256
    bytes_small zero = omega arith
    bytes_small (suc zero) = omega arith
    bytes_small (suc (suc i)) = omega arith

-- The dirty page is pinned.
abbrev to_free : Vm
to_free = record machine { coremap = cme_set_busy machine.coremap 1 true }

to_free-CountsMatch : CountsMatch to_free
to_free-CountsMatch = record { entries = refl; frees = refl; kernels = refl; users = refl }

free_coremap_page-Freeable_example :
    (vm' : Vm) × (free_coremap_page to_free 266240 false ≡ done vm')
    × CountsMatch vm'
    × (entry_at vm'.coremap 1 ≡ fresh_entry)
    × (vm'.memory 65 ≡ (λ _. 0))
free_coremap_page-Freeable_example =
    free_coremap_page-Freeable to_free 266240 false to_free-CountsMatch (omega arith)
      (user 9 6 refl refl refl refl (λ e. omega (arith, e)) machine-map (omega arith) refl)

-- A machine without a free page.
abbrev full : Vm
full = record machine {
  coremap = kernel_entry ∷ clean_entry ∷ [];
  num_cm_entries = 2;
  num_cm_free = pos 0;
  num_cm_user = pos 1;
}

abbrev state_of : Outcome (Vm × ℕ) → Vm
state_of (done (vm, pa)) = vm
state_of panic = full
state_of hang = full

full_allocated :
    alloc_one_page full (some 9) 4202496
    ≡ done (state_of (alloc_one_page full (some 9) 4202496), 266240)
unfolding reached_kpage_limit find_free find_free_page clock_turn clock_scan chosen
    choose_evict_page allocated counters_add_up mark_allocated reserved swapfile_reserve_index
    swapfile_free_index write_page read_page swapout evict_page swapped_in swapin acquire_pt_lock
    release_pt_lock lock_victim swapout_dirty evict reclaim find_page claim alloc_one_page
    get_pt_entry write_pt_entry pt_update ◌-ℤ◌ ◌+ℤ◌
full_allocated = refl

alloc_one_page-loses_count_example :
    ((state_of (alloc_one_page full (some 9) 4202496)).num_cm_free ≡ negsuc 0)
    × ¬ CountsMatch (state_of (alloc_one_page full (some 9) 4202496))
alloc_one_page-loses_count_example =
    alloc_one_page-loses_count full (state_of (alloc_one_page full (some 9) 4202496)) (some 9)
      4202496 266240 refl full_allocated (λ e. omega (arith, e))
