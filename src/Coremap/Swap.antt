-- ===== src/Coremap/Swap.antt =====
-- swapout, evict_page and swapin on one page and its entry in the page table.
use petrel_os.Base.{
  ℕ, ◌+◌, ◌*◌, ◌/◌, ◌%◌, ◌^◌, ◌<◌, ◌≡◌, refl, ap, ◌∙◌, true, false, none, some, arith, ==_refl,
  update, length, get_or-set_self, done,
}
use petrel_os.PageTable.{
  Pte, get_pt_entry, write_pt_entry, pte_set_present, pte_set_location, pte_get_location, va_to_pa,
  pa_of_entry,
}
use petrel_os.PageTable.Translate.{get_pt_entry-write, in_frame}
use petrel_os.Coremap.State.{
  free, clean, dirty, Vm, Page, entry_at, fresh_entry, coremap_to_paddr, paddr_to_coremap,
  paddr_is_valid, cme_set_state,
}
use petrel_os.Coremap.FreePage.{edit_twice}
use petrel_os.Coremap.SwapSpace.{swapout, write_page, read_page, evict_page, swapin, swapped_in}

-- The two conversions are inverse for a page below 4 GB.
paddr_to_coremap-coremap_to_paddr :
    (base i : ℕ) → i + base < 2 ^ 20 → paddr_to_coremap base (coremap_to_paddr base i) ≡ i
paddr_to_coremap-coremap_to_paddr base i h = omega arith

valid_paddr :
    (base i : ℕ) → i + base < 2 ^ 20 → paddr_is_valid base (coremap_to_paddr base i) ≡ true
valid_paddr base i h = ground arith

-- The page `ix` is in memory, dirty, with a disk offset and a page table entry of its owner.
pub record InMemory (vm : Vm) (ix as' offset va : ℕ) (pte : Pte) : Type 0 where
  pub inside : ix < length vm.coremap
  pub below : ix + vm.base < 2 ^ 20
  pub owner : (entry_at vm.coremap ix).owner ≡ some as'
  pub offset_is : (entry_at vm.coremap ix).disk_offset ≡ some offset
  pub address : (entry_at vm.coremap ix).vaddr_base * 4096 % 2 ^ 32 ≡ va
  pub is_dirty_page : (entry_at vm.coremap ix).state ≡ dirty
  pub entry : get_pt_entry (vm.page_tables as') va ≡ some pte
  pub small : offset < 2 ^ 19
  pub disk : vm.disk_error offset ≡ none

-- The page of `va` is on the disk at `offset`, and its contents are `page`.
pub record OnDisk (vm : Vm) (as' offset va : ℕ) (pte : Pte) (page : Page) : Type 0 where
  pub contents : vm.swapfile offset ≡ page
  pub entry :
      get_pt_entry (vm.page_tables as') va
      ≡ some (pte_set_location offset (pte_set_present false pte))
  pub small : offset < 2 ^ 19
  pub disk : vm.disk_error offset ≡ none

swapout-writes :
    (vm : Vm) (pa ix offset : ℕ)
    → paddr_is_valid vm.base pa ≡ true
    → paddr_to_coremap vm.base pa ≡ ix
    → (entry_at vm.coremap ix).disk_offset ≡ some offset
    → (entry_at vm.coremap ix).state ≡ dirty
    → vm.disk_error offset ≡ none
    → swapout vm pa
      ≡ done (
        record vm {
          swapfile = update vm.swapfile offset (vm.memory (pa / 4096));
          coremap = cme_set_state vm.coremap ix clean;
        },
        none,
      )
unfolding swapout write_page
swapout-writes vm pa ix offset valid index o s disk = ground arith

evict_page-writes :
    (vm : Vm) (pa ix as' offset va : ℕ) (pte : Pte)
    → paddr_is_valid vm.base pa ≡ true
    → paddr_to_coremap vm.base pa ≡ ix
    → (entry_at vm.coremap ix).state ≡ clean
    → (entry_at vm.coremap ix).disk_offset ≡ some offset
    → (entry_at vm.coremap ix).owner ≡ some as'
    → (entry_at vm.coremap ix).vaddr_base * 4096 % 2 ^ 32 ≡ va
    → get_pt_entry (vm.page_tables as') va ≡ some pte
    → evict_page vm pa
      ≡ done (record vm {
        page_tables = update vm.page_tables as' (
            write_pt_entry
              (vm.page_tables as')
              va
              (pte_set_location offset (pte_set_present false pte)));
        coremap = cme_set_state vm.coremap ix free;
      })
unfolding evict_page
evict_page-writes vm pa ix as' offset va pte valid index s o owner v entry = ground arith

-- Where the disk answers, swapping out a dirty page and evicting it succeeds: its contents are then on
-- the disk, at the offset that its page table entry holds, and its coremap entry is free.
pub evict_page-swapout :
    (vm : Vm) (ix as' offset va : ℕ) (pte : Pte)
    → InMemory vm ix as' offset va pte
    → let pa = coremap_to_paddr vm.base ix in
      (mid out : Vm) × (swapout vm pa ≡ done (mid, none))
      × (evict_page mid pa ≡ done out)
      × OnDisk out as' offset va pte (vm.memory (pa / 4096))
      × (entry_at out.coremap ix ≡ (let e = entry_at vm.coremap ix in record e { state = free }))
evict_page-swapout vm ix as' offset va pte m = (written, out, swaps, evicts, on_disk, left)
  where
    pa : ℕ
    pa = coremap_to_paddr vm.base ix

    index : paddr_to_coremap vm.base pa ≡ ix
    index = paddr_to_coremap-coremap_to_paddr vm.base ix m.below

    valid : paddr_is_valid vm.base pa ≡ true
    valid = valid_paddr vm.base ix m.below

    written : Vm
    written = record vm {
      swapfile = update vm.swapfile offset (vm.memory (pa / 4096));
      coremap = cme_set_state vm.coremap ix clean;
    }

    gone : Pte
    gone = pte_set_location offset (pte_set_present false pte)

    out : Vm
    out = record written {
      page_tables = update vm.page_tables as' (write_pt_entry (vm.page_tables as') va gone);
      coremap = cme_set_state (cme_set_state vm.coremap ix clean) ix free;
    }

    here :
        entry_at written.coremap ix ≡ (let e = entry_at vm.coremap ix in record e { state = clean })
    here = get_or-set_self vm.coremap ix _ fresh_entry m.inside

    swaps : swapout vm pa ≡ done (written, none)
    swaps = swapout-writes vm pa ix offset valid index m.offset_is m.is_dirty_page m.disk

    evicts : evict_page written pa ≡ done out
    evicts =
        evict_page-writes written pa ix as' offset va pte valid index (rw here)
          (rw here m.offset_is) (rw here m.owner) (rw here m.address) m.entry

    on_disk : OnDisk out as' offset va pte (vm.memory (pa / 4096))
    on_disk = record {
      contents = rw (==_refl offset);
      entry = rw (
        ==_refl as',
        get_pt_entry-write (vm.page_tables as') va va gone pte m.entry,
        ==_refl (va / 4096),
      );
      small = m.small;
      disk = m.disk;
    }

    left : entry_at out.coremap ix ≡ (let e = entry_at vm.coremap ix in record e { state = free })
    left =
        ap (λ c. entry_at c ix)
          (edit_twice vm.coremap ix (λ e. record e { state = clean })
            (λ e. record e { state = free }) m.inside)
        ∙ get_or-set_self vm.coremap ix _ fresh_entry m.inside

swapin-reads :
    (vm : Vm) (dest as' offset va : ℕ) (gone : Pte)
    → vm.holds as' ≡ true
    → paddr_is_valid vm.base dest ≡ true
    → get_pt_entry (vm.page_tables as') va ≡ some gone
    → gone.exists ≡ true
    → gone.present ≡ false
    → pte_get_location gone ≡ offset
    → vm.disk_error offset ≡ none
    → swapin vm as' va dest
      ≡ done (
        swapped_in
            (record vm { memory = update vm.memory (dest / 4096) (vm.swapfile offset) })
            as'
            va
            dest
            offset
            gone,
        none,
      )
unfolding swapin read_page
swapin-reads vm dest as' offset va gone held valid entry exists absent location disk = ground arith

back_in_frame :
    (ppn va : ℕ) (gone : Pte)
    → gone.exists ≡ true
    → ppn < 2 ^ 20
    → pa_of_entry va (some (pte_set_location ppn (pte_set_present true gone))) ≡ in_frame ppn va
unfolding pa_of_entry
back_in_frame ppn va gone exists h = ground arith

-- Once the page of `va` is on the disk, swapin into any page `dest` that the kernel may use succeeds,
-- whatever has become of the rest of memory since: the page table then maps `va` to `dest`, which
-- holds the contents that were swapped out.
pub swapin-OnDisk :
    (vm : Vm) (ix as' offset va : ℕ) (pte : Pte) (page : Page)
    → OnDisk vm as' offset va pte page
    → pte.exists ≡ true
    → vm.holds as' ≡ true
    → ix < length vm.coremap
    → ix + vm.base < 2 ^ 20
    → let dest = coremap_to_paddr vm.base ix in
      (vm' : Vm) × (swapin vm as' va dest ≡ done (vm', none))
      × (vm'.memory (dest / 4096) ≡ page)
      × (va_to_pa (vm'.page_tables as') va ≡ in_frame (dest / 4096) va)
      × (entry_at vm'.coremap ix ≡ (
          let e = entry_at vm.coremap ix in
          record e {
            owner = some as';
            disk_offset = some offset;
            vaddr_base = va / 4096;
            state = clean;
          }))
swapin-OnDisk vm ix as' offset va pte page d exists held inside below =
    (after, does, read, mapped, entry)
  where
    dest : ℕ
    dest = coremap_to_paddr vm.base ix

    gone : Pte
    gone = pte_set_location offset (pte_set_present false pte)

    back : Pte
    back = pte_set_location (dest / 4096) (pte_set_present true gone)

    after : Vm
    after =
        swapped_in (record vm { memory = update vm.memory (dest / 4096) (vm.swapfile offset) }) as'
          va dest offset gone

    location : pte_get_location gone ≡ offset
    location = ground (arith, d.small)

    does : swapin vm as' va dest ≡ done (after, none)
    does =
        swapin-reads vm dest as' offset va gone held (valid_paddr vm.base ix below) d.entry exists
          refl location d.disk

    read : after.memory (dest / 4096) ≡ page
    read = unfold swapped_in in rw (==_refl (dest / 4096)) d.contents

    mapped : va_to_pa (after.page_tables as') va ≡ in_frame (dest / 4096) va
    mapped =
        unfold swapped_in va_to_pa in
        rw
          (
            ==_refl as',
            get_pt_entry-write (vm.page_tables as') va va back gone d.entry,
            ==_refl (va / 4096),
          )
          (back_in_frame (dest / 4096) va gone exists (omega arith))

    entry : entry_at after.coremap ix ≡ (
        let e = entry_at vm.coremap ix in
        record e {
          owner = some as';
          disk_offset = some offset;
          vaddr_base = va / 4096;
          state = clean;
        })
    entry =
        unfold swapped_in in
        rw (paddr_to_coremap-coremap_to_paddr vm.base ix below)
          (get_or-set_self vm.coremap ix _ fresh_entry inside)
