-- ===== src/Coremap/SwapSpace.antt =====
-- The swap space of kern/arch/mips/vm/coremap.c: its indices, and the moves of a page between memory
-- and the swap disk.
use petrel_os.Base.{
  ℕ, ◌*◌, ◌/◌, ◌%◌, ◌^◌, true, false, not, Option, none, some, map, ◌==◌, update, set, Outcome,
  done, panic, ◌>>=◌, ◌>>◌, kassert, Errno, Return, ok, fail,
}
use petrel_os.Bitmap.{Bitmap}
use petrel_os.Bitmap
use petrel_os.PageTable.{
  Pte, get_pt_entry, write_pt_entry, pte_set_present, pte_set_location, pte_get_location,
}
use petrel_os.Coremap.State.{
  is_clean, is_dirty, paddr_to_coremap, paddr_is_valid, entry_at, cme_set_state, Vm, free, clean,
}

-- swapfile_reserve_index: a full disk stops the machine.
unfoldable pub reserved : Vm → Return (ℕ × Bitmap) → Outcome (ℕ × Vm)
reserved vm (fail e) = panic
reserved vm (ok (index, map)) = done (index, record vm { disk_map = map })

unfoldable pub swapfile_reserve_index : Vm → Outcome (ℕ × Vm)
unfolding reserved
swapfile_reserve_index vm = Bitmap.alloc vm.disk_map >>= reserved vm

unfoldable pub swapfile_free_index : Vm → ℕ → Outcome Vm
swapfile_free_index vm index = do
  kassert (not (Bitmap.isset vm.disk_map index == 0))
  map ← Bitmap.unmark vm.disk_map index
  done (record vm { disk_map = map })

-- write_page and read_page between the physical page `ppn` and the disk: the error code of
-- VOP_WRITE or VOP_READ, `none` for 0.
unfoldable pub write_page : Vm → ℕ → ℕ → Vm × Option Errno
write_page vm ppn offset = elim (vm.disk_error offset) [
  | some e ↦ (vm, some e)
  | none ↦ (record vm { swapfile = update vm.swapfile offset (vm.memory ppn) }, none)
]

unfoldable pub read_page : Vm → ℕ → ℕ → Vm × Option Errno
read_page vm ppn offset = elim (vm.disk_error offset) [
  | some e ↦ (vm, some e)
  | none ↦ (record vm { memory = update vm.memory ppn (vm.swapfile offset) }, none)
]

-- A pointer or an offset that the code has asserted to be there.
abbrev pub require {ℓ} : {A : Type ℓ} → Option A → Outcome A
require none = panic
require (some a) = done a

unfoldable pub swapout : Vm → ℕ → Outcome (Vm × Option Errno)
swapout vm pa = do
  kassert (paddr_is_valid vm.base pa)
  let i = paddr_to_coremap vm.base pa
  offset ← require (entry_at vm.coremap i).disk_offset
  kassert (is_dirty (entry_at vm.coremap i).state)
  let (vm', error) = write_page vm (pa / 4096) offset
  done (elim error [
    | some e ↦ (vm', some e)
    | none ↦ (record vm' { coremap = cme_set_state vm'.coremap i clean }, none)
  ])

unfoldable pub evict_page : Vm → ℕ → Outcome Vm
evict_page vm pa = do
  kassert (paddr_is_valid vm.base pa)
  let i = paddr_to_coremap vm.base pa
  let e = entry_at vm.coremap i
  kassert (is_clean e.state)
  offset ← require e.disk_offset
  as' ← require e.owner
  let va = e.vaddr_base * 4096 % 2 ^ 32
  let pt = vm.page_tables as'
  pte ← require (get_pt_entry pt va)
  let pt' = write_pt_entry pt va (pte_set_location offset (pte_set_present false pte))
  done (record vm {
    page_tables = update vm.page_tables as' pt';
    coremap = cme_set_state vm.coremap i free;
  })

-- What swapin writes to the coremap entry and the page table once the page is read.
unfoldable pub swapped_in : Vm → ℕ → ℕ → ℕ → ℕ → Pte → Vm
swapped_in vm as' vpn dest offset pte =
    let idx = paddr_to_coremap vm.base dest in
    let e = entry_at vm.coremap idx in
    let pt = vm.page_tables as' in
    record vm {
      coremap = set vm.coremap idx (record e {
        disk_offset = some offset;
        vaddr_base = vpn / 4096;
        owner = some as';
        state = clean;
      });
      page_tables =
          update vm.page_tables as'
            (write_pt_entry pt vpn (pte_set_location (dest / 4096) (pte_set_present true pte)));
    }

unfoldable pub swapin : Vm → ℕ → ℕ → ℕ → Outcome (Vm × Option Errno)
swapin vm as' vpn dest = do
  kassert (vm.holds as')
  kassert (paddr_is_valid vm.base dest)
  pte ← require (get_pt_entry (vm.page_tables as') vpn)
  kassert pte.exists
  kassert (not pte.present)
  let offset = pte_get_location pte
  let (vm', error) = read_page vm (dest / 4096) offset
  done (elim error [
    | some e ↦ (vm', some e)
    | none ↦ (swapped_in vm' as' vpn dest offset pte, none)
  ])
