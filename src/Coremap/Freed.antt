-- ===== src/Coremap/Freed.antt =====
-- free_coremap_page on the pages that are in order.
use petrel_os.Base.{
  ℕ, ◌/◌, ◌^◌, ◌<◌, ◌≡◌, refl, ◌≢◌, inl, inr, Bool, true, false, ◌||◌, none, some, arith, ltb, leb,
  ◌==◌, ==_iff, set, done,
}
use petrel_os.Base.Int.{pos, ◌-ℤ◌}
use petrel_os.Coremap.State.{
  CmEntry, CmeState, is_free, is_fixed, Vm, entry_at, fresh_entry, paddr_to_coremap,
}
use petrel_os.Coremap.Release.{free_coremap_page, kernel_page, release_page, free_user_entry}
use petrel_os.Coremap.SwapSpace.{swapfile_free_index}
use petrel_os.Bitmap.{isset}
use petrel_os.Bitmap.Valid.{IsValid, is_marked}
use petrel_os.Bitmap.Marks.{unmark_lem, isset-iff-marked}
use petrel_os.Coremap.Counters.{is_user, CountsMatch}
use petrel_os.Coremap.Freeing.{IsReset, free_coremap_page-CountsMatch}

-- The page may be freed: as a kernel page, or as a pinned user page with its place on the disk.
pub data Freeable (vm : Vm) (ix : ℕ) : Bool → Type 0 where
  kernel :
      is_fixed (entry_at vm.coremap ix).state ≡ true
      → IsReset (entry_at vm.coremap ix)
      → Freeable vm ix true
  user :
      (a offset : ℕ)
      → is_user (entry_at vm.coremap ix).state ≡ true
      → (entry_at vm.coremap ix).busy_bit ≡ true
      → (entry_at vm.coremap ix).owner ≡ some a
      → (entry_at vm.coremap ix).disk_offset ≡ some offset
      → (entry_at vm.coremap ix).vaddr_base ≢ 0
      → IsValid vm.disk_map
      → offset < vm.disk_map.nbits
      → is_marked vm.disk_map offset ≡ true
      → Freeable vm ix false

swapfile_free_index-returns :
    (vm : Vm) (offset : ℕ)
    → IsValid vm.disk_map
    → offset < vm.disk_map.nbits
    → is_marked vm.disk_map offset ≡ true
    → (vm' : Vm) × (swapfile_free_index vm offset ≡ done vm')
unfolding swapfile_free_index
swapfile_free_index-returns vm offset valid inside marked = elim (unmark_lem offset valid) [
  | inl (stopped, why) ↦ absurd (ground (arith, inside, marked, why))
  | inr (freed_map, unmarked, _, _, _) ↦
      let set_there : (isset vm.disk_map offset == 0) ≡ false =
        not_zero (isset vm.disk_map offset) ((isset-iff-marked vm.disk_map offset).1 marked) in
      (record vm { disk_map = freed_map }, rw (set_there, unmarked) refl)
]
  where
    not_zero : (n : ℕ) → n ≢ 0 → (n == 0) ≡ false
    not_zero n h = ground (arith, ==_iff n 0, h)

free_user_entry-returns :
    (vm : Vm) (ix a offset : ℕ)
    → (entry_at vm.coremap ix).owner ≡ some a
    → (entry_at vm.coremap ix).disk_offset ≡ some offset
    → (entry_at vm.coremap ix).vaddr_base ≢ 0
    → (mid : Vm) → swapfile_free_index vm offset ≡ done mid
    → (vm' : Vm) × (free_user_entry vm ix ≡ done vm')
unfolding free_user_entry
free_user_entry-returns vm ix a offset o d v mid freed =
    let address : ((entry_at vm.coremap ix).vaddr_base == 0) ≡ false =
      ground (arith, ==_iff (entry_at vm.coremap ix).vaddr_base 0, v) in
    (
      record mid {
        coremap = set mid.coremap ix (record (entry_at vm.coremap ix) {
          owner = none;
          disk_offset = none;
          vaddr_base = 0;
          use_bit = false;
        });
        num_cm_user = mid.num_cm_user -ℤ pos 1;
      },
      rw (o, d, address, freed) refl,
    )

taken_state : (s : CmeState) → (is_fixed s || is_user s) ≡ true → is_free s ≡ false
taken_state s h = ground (arith, h)

kernel_page-IsReset : (e : CmEntry) → is_fixed e.state ≡ true → IsReset e → kernel_page e ≡ true
unfolding kernel_page
kernel_page-IsReset e f r = rw (r.no_owner, r.no_offset, r.no_address, r.unused, f) refl

in_range : (ix n : ℕ) → ix < n → (ltb ix n || leb (2 ^ 31) ix) ≡ true
in_range ix n h = ground (arith, h)

free_user_page-returns :
    (vm vm' : Vm) (pa : ℕ)
    → paddr_to_coremap vm.base pa < vm.num_cm_entries
    → is_user (entry_at vm.coremap (paddr_to_coremap vm.base pa)).state ≡ true
    → (entry_at vm.coremap (paddr_to_coremap vm.base pa)).busy_bit ≡ true
    → free_user_entry vm (paddr_to_coremap vm.base pa) ≡ done vm'
    → free_coremap_page vm pa false ≡ done (release_page vm' (paddr_to_coremap vm.base pa) pa)
unfolding free_coremap_page
free_user_page-returns vm vm' pa h is_u busy e =
    let taken : is_free (entry_at vm.coremap (paddr_to_coremap vm.base pa)).state ≡ false =
      taken_state (entry_at vm.coremap (paddr_to_coremap vm.base pa)).state
        (ground (arith, is_u)) in
    rw (in_range _ _ h, taken, e, busy) refl

free_kernel_page-returns :
    (vm : Vm) (pa : ℕ)
    → paddr_to_coremap vm.base pa < vm.num_cm_entries
    → is_fixed (entry_at vm.coremap (paddr_to_coremap vm.base pa)).state ≡ true
    → IsReset (entry_at vm.coremap (paddr_to_coremap vm.base pa))
    → (vm' : Vm) × (free_coremap_page vm pa true ≡ done vm')
unfolding free_coremap_page
free_kernel_page-returns vm pa h is_kernel reset = (
  release_page (record vm { num_cm_kernel = vm.num_cm_kernel -ℤ pos 1 })
      (paddr_to_coremap vm.base pa) pa,
  rw
      (
        in_range _ _ h,
        taken_state (entry_at vm.coremap (paddr_to_coremap vm.base pa)).state
            (ground (arith, is_kernel)),
        kernel_page-IsReset _ is_kernel reset,
      )
      refl,
)

-- free_coremap_page returns on a page that is in order: for a kernel page, a fixed entry that is
-- otherwise reset; for a user page, a pinned clean or dirty entry with an owner, an address and a
-- place that is taken on the swap disk. Where the counters were right they are right afterwards, the
-- entry is as coremap_bootstrap left it, and the page is zeroed.
pub free_coremap_page-Freeable :
    (vm : Vm) (pa : ℕ) (iskern : Bool)
    → CountsMatch vm
    → paddr_to_coremap vm.base pa < vm.num_cm_entries
    → Freeable vm (paddr_to_coremap vm.base pa) iskern
    → (vm' : Vm) × (free_coremap_page vm pa iskern ≡ done vm')
      × CountsMatch vm'
      × (entry_at vm'.coremap (paddr_to_coremap vm.base pa) ≡ fresh_entry)
      × (vm'.memory (pa / 4096) ≡ (λ _. 0))
free_coremap_page-Freeable vm pa true m h (kernel is_kernel reset) =
    let (vm', e) = free_kernel_page-returns vm pa h is_kernel reset in
    let (counts, entry, zeroed) = free_coremap_page-CountsMatch vm vm' pa true m h refl e in
    (vm', e, counts, entry, zeroed)
free_coremap_page-Freeable vm pa false m h (user a offset is_u busy o d v valid inside marked) =
    let (mid, freed) = swapfile_free_index-returns vm offset valid inside marked in
    let (after, entry) =
      free_user_entry-returns vm (paddr_to_coremap vm.base pa) a offset o d v mid freed in
    let e = free_user_page-returns vm after pa h is_u busy entry in
    let (counts, fresh, zeroed) = free_coremap_page-CountsMatch vm _ pa false m h is_u e in
    (_, e, counts, fresh, zeroed)
