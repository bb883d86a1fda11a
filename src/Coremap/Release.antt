-- ===== src/Coremap/Release.antt =====
-- The ends of a page's life in kern/arch/mips/vm/coremap.c: alloc_kpages, free_coremap_page,
-- free_kpages and coremap_bootstrap.
use petrel_os.Base.{
  ℕ, ◌+◌, ◌-◌, ◌*◌, ◌/◌, ◌%◌, ◌^◌, Bool, true, false, not, ◌&&◌, ◌||◌, none, some, ltb, leb, ◌==◌,
  if◌then◌else◌, update, set, replicate, Outcome, done, ◌>>=◌, ◌>>◌, kassert,
}
use petrel_os.Base.Int.{pos, ◌+ℤ◌, ◌-ℤ◌}
use petrel_os.Coremap.State.{
  is_free, is_fixed, fresh_entry, paddr_to_coremap, entry_at, cme_set_state, cme_set_busy, CmEntry,
  Vm, free,
}
use petrel_os.Coremap.SwapSpace.{swapfile_free_index, require}
use petrel_os.Coremap.Alloc.{alloc_one_page}

-- alloc_kpages, of an int as a pattern: the kernel virtual address of the page, 0 (NULL) on failure.
unfoldable pub alloc_kpages : Vm → ℕ → Outcome (Vm × ℕ)
alloc_kpages vm npages = if ltb 1 npages then done (vm, 0) else (do
  (vm, pa) ← alloc_one_page vm none 0
  if pa == 0
      then done (vm, 0)
      else done (
        record vm { coremap = cme_set_busy vm.coremap (paddr_to_coremap vm.base pa) false },
        (pa + 0x80000000) % 2 ^ 32,
      ))

-- The checks of free_coremap_page for a kernel page.
unfoldable pub kernel_page : CmEntry → Bool
kernel_page e =
    elim e.owner [ none ↦ true | some as' ↦ false ]
    && elim e.disk_offset [ none ↦ true | some o ↦ false ]
    && (e.vaddr_base == 0)
    && is_fixed e.state
    && not e.use_bit

-- free_coremap_page after its checks: the page is zeroed and its entry made available.
unfoldable pub release_page : Vm → ℕ → ℕ → Vm
unfolding ◌+ℤ◌
release_page vm ix pa = record vm {
  memory = update vm.memory (pa / 4096) (λ _. 0);
  coremap = cme_set_busy (cme_set_state vm.coremap ix free) ix false;
  num_cm_free = vm.num_cm_free +ℤ pos 1;
}

unfoldable pub free_user_entry : Vm → ℕ → Outcome Vm
unfolding swapfile_free_index ◌-ℤ◌
free_user_entry vm ix = do
  let e = entry_at vm.coremap ix
  as' ← require e.owner
  offset ← require e.disk_offset
  kassert (not (e.vaddr_base == 0))
  vm ← swapfile_free_index vm offset
  done (record vm {
    coremap =
        set vm.coremap ix
          (record e { owner = none; disk_offset = none; vaddr_base = 0; use_bit = false });
    num_cm_user = vm.num_cm_user -ℤ pos 1;
  })

-- `int` comparison: an index whose pattern is negative passes the first check.
unfoldable pub free_coremap_page : Vm → ℕ → Bool → Outcome Vm
unfolding kernel_page release_page free_user_entry ◌-ℤ◌
free_coremap_page vm pa iskern = do
  let ix = paddr_to_coremap vm.base pa
  let e = entry_at vm.coremap ix
  kassert (ltb ix vm.num_cm_entries || leb (2 ^ 31) ix)
  kassert (not (is_free e.state))
  kassert (iskern || e.busy_bit)
  if iskern
      then (do
        kassert (kernel_page e)
        let vm' = record vm { num_cm_kernel = vm.num_cm_kernel -ℤ pos 1 }
        done (release_page vm' ix pa))
      else (do vm ← free_user_entry vm ix; done (release_page vm ix pa))

unfoldable pub free_kpages : Vm → ℕ → Outcome Vm
free_kpages vm va = free_coremap_page vm ((va + 0x80000000) % 2 ^ 32) true

-- coremap_bootstrap, for memory from `lo` to `hi`: the coremap takes the first `size` bytes, 16 for
-- each entry. The page tables, locks, memory and disk are as they were.
unfoldable pub coremap_bootstrap : Vm → ℕ → ℕ → Outcome Vm
coremap_bootstrap vm lo hi = do
  kassert (lo % 4096 == 0)
  kassert (hi % 4096 == 0)
  let npages = (hi + (2 ^ 32 - lo)) % 2 ^ 32 / 4096
  let size = (npages * 16 + 4095) % 2 ^ 32 / 4096 * 4096
  let base = (lo + size) % 2 ^ 32 / 4096
  let n = (hi / 4096 + (2 ^ 32 - base)) % 2 ^ 32
  done (record vm {
    coremap = replicate n fresh_entry;
    clock_hand = 0;
    num_cm_entries = n;
    num_cm_free = pos n;
    num_cm_kernel = pos 0;
    num_cm_user = pos 0;
    base = base;
  })
