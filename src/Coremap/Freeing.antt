-- ===== src/Coremap/Freeing.antt =====
-- free_coremap_page against the counters of pages.
use petrel_os.Base.{
  ℕ, ◌/◌, ◌<◌, ◌≡◌, refl, ◌∙◌, inl, inr, Bool, true, false, ◌||◌, none, map, arith, ==_refl,
  Option-cases, length, set, length-set, get_or-set_self, done, Outcome-cases,
}
use petrel_os.Base.Int.{pos, ◌+ℤ◌, ◌-ℤ◌}
use petrel_os.Coremap.State.{
  CmEntry, free, is_free, is_fixed, Vm, entry_at, cme_set_state, cme_set_busy, fresh_entry,
  paddr_to_coremap,
}
use petrel_os.Coremap.Release.{free_coremap_page, kernel_page, release_page, free_user_entry}
use petrel_os.Bitmap.{Bitmap}
use petrel_os.Bitmap
use petrel_os.Coremap.FreePage.{edit_twice}
use petrel_os.Coremap.SwapSpace.{swapfile_free_index}
use petrel_os.Coremap.Counters.{is_user, one_if, tally, tally-set, tally-pos, CountsMatch}

swapfile_free_index-done :
    (vm vm' : Vm) (offset : ℕ)
    → swapfile_free_index vm offset ≡ done vm'
    → (map : Bitmap) × (vm' ≡ (record vm { disk_map = map }))
unfolding swapfile_free_index
swapfile_free_index-done vm vm' offset e = elim (Outcome-cases (Bitmap.unmark vm.disk_map offset)) [
  | inl (map, unmarked) ↦ (map, ground arith)
  | inr stopped ↦ absurd (ground arith)
]

-- What free_user_entry leaves of the entry.
abbrev unowned : CmEntry → CmEntry
unowned e = record e { owner = none; disk_offset = none; vaddr_base = 0; use_bit = false }

free_user_entry-done :
    (vm vm' : Vm) (ix : ℕ)
    → free_user_entry vm ix ≡ done vm'
    → (map : Bitmap) × (vm' ≡ (record vm {
      disk_map = map;
      coremap = set vm.coremap ix (unowned (entry_at vm.coremap ix));
      num_cm_user = vm.num_cm_user -ℤ pos 1;
    }))
unfolding free_user_entry
free_user_entry-done vm vm' ix e = elim (Option-cases (entry_at vm.coremap ix).owner) [
  | inl none_there ↦ absurd (ground arith)
  | inr (owner, o) ↦ elim (Option-cases (entry_at vm.coremap ix).disk_offset) [
    | inl none_there ↦ absurd (ground arith)
    | inr (offset, d) ↦ elim (Outcome-cases (swapfile_free_index vm offset)) [
      | inl (mid, freed) ↦
          let (map, same) = swapfile_free_index-done vm mid offset freed in (map, ground arith)
      | inr stopped ↦ absurd (ground arith)
    ]
  ]
]

-- The page that release_page makes available was counted nowhere.
record Uncounted (vm : Vm) (ix : ℕ) : Type 0 where
  entries : length vm.coremap ≡ vm.num_cm_entries
  inside : ix < vm.num_cm_entries
  frees :
      vm.num_cm_free +ℤ pos (one_if (is_free (entry_at vm.coremap ix).state))
      ≡ pos (tally is_free vm.coremap)
  kernels :
      vm.num_cm_kernel +ℤ pos (one_if (is_fixed (entry_at vm.coremap ix).state))
      ≡ pos (tally is_fixed vm.coremap)
  users :
      vm.num_cm_user +ℤ pos (one_if (is_user (entry_at vm.coremap ix).state))
      ≡ pos (tally is_user vm.coremap)
  taken : is_free (entry_at vm.coremap ix).state ≡ false

-- What a freed page must be: all but its state and pin are reset.
pub record IsReset (e : CmEntry) : Type 0 where
  pub no_owner : e.owner ≡ none
  pub no_offset : e.disk_offset ≡ none
  pub no_address : e.vaddr_base ≡ 0
  pub unused : e.use_bit ≡ false

release_page-CountsMatch :
    (vm : Vm) (ix pa : ℕ)
    → Uncounted vm ix
    → IsReset (entry_at vm.coremap ix)
    → CountsMatch (release_page vm ix pa)
      × (entry_at (release_page vm ix pa).coremap ix ≡ fresh_entry)
      × ((release_page vm ix pa).memory (pa / 4096) ≡ (λ _. 0))
unfolding release_page ◌+ℤ◌
release_page-CountsMatch vm ix pa u r =
    let e = entry_at vm.coremap ix in
    let h : ix < length vm.coremap = omega (arith, u.entries, u.inside) in
    let twice : cme_set_busy (cme_set_state vm.coremap ix free) ix false
        ≡ set vm.coremap ix (record e { state = free; busy_bit = false }) =
      edit_twice vm.coremap ix (λ e. record e { state = free }) (λ e. record e { busy_bit = false })
        h in
    (
      record {
        entries = rw twice (length-set vm.coremap ix _ ∙ u.entries);
        frees = rw twice (
            ground (
              arith,
              tally-set is_free vm.coremap ix (record e { state = free; busy_bit = false }) h,
            ));
        kernels = rw twice (
            ground (
              arith,
              tally-set is_fixed vm.coremap ix (record e { state = free; busy_bit = false }) h,
            ));
        users = rw twice (
            ground (
              arith,
              tally-set is_user vm.coremap ix (record e { state = free; busy_bit = false }) h,
            ));
      },
      rw
          (
            twice,
            get_or-set_self vm.coremap ix (record e { state = free; busy_bit = false }) fresh_entry
                h,
          )
          (ground arith),
      rw ==_refl,
    )

free_kernel-done :
    (vm vm' : Vm) (pa : ℕ)
    → free_coremap_page vm pa true ≡ done vm'
    → let ix = paddr_to_coremap vm.base pa in
      (is_fixed (entry_at vm.coremap ix).state ≡ true)
      × IsReset (entry_at vm.coremap ix)
      × (vm' ≡ release_page (record vm { num_cm_kernel = vm.num_cm_kernel -ℤ pos 1 }) ix pa)
unfolding free_coremap_page kernel_page
free_kernel-done vm vm' pa e = (ground arith, ground arith, ground arith)

free_user-done :
    (vm vm' : Vm) (pa : ℕ)
    → free_coremap_page vm pa false ≡ done vm'
    → let ix = paddr_to_coremap vm.base pa in
      (map : Bitmap) × (is_free (entry_at vm.coremap ix).state ≡ false)
      × (vm'
          ≡ release_page
              (record vm {
                disk_map = map;
                coremap = set vm.coremap ix (unowned (entry_at vm.coremap ix));
                num_cm_user = vm.num_cm_user -ℤ pos 1;
              })
              ix
              pa)
unfolding free_coremap_page
free_user-done vm vm' pa e =
    elim (Outcome-cases (free_user_entry vm (paddr_to_coremap vm.base pa))) [
      | inl (mid, freed) ↦
          let (map, same) = free_user_entry-done vm mid (paddr_to_coremap vm.base pa) freed in
          (map, ground arith, ground arith)
      | inr stopped ↦ absurd (ground arith)
    ]

kernel_Uncounted :
    (vm : Vm) (ix : ℕ)
    → CountsMatch vm
    → ix < vm.num_cm_entries
    → is_fixed (entry_at vm.coremap ix).state ≡ true
    → Uncounted (record vm { num_cm_kernel = vm.num_cm_kernel -ℤ pos 1 }) ix
unfolding ◌+ℤ◌ ◌-ℤ◌
kernel_Uncounted vm ix m h kern =
    let some_fixed = tally-pos is_fixed vm.coremap ix (omega (arith, m.entries)) kern in
    record {
      entries = m.entries;
      inside = h;
      frees = ground arith;
      kernels = ground (arith, some_fixed);
      users = ground arith;
      taken = ground arith;
    }

user_Uncounted :
    (vm : Vm) (map : Bitmap) (ix : ℕ)
    → CountsMatch vm
    → ix < vm.num_cm_entries
    → is_user (entry_at vm.coremap ix).state ≡ true
    → Uncounted
        (record vm {
          disk_map = map;
          coremap = set vm.coremap ix (unowned (entry_at vm.coremap ix));
          num_cm_user = vm.num_cm_user -ℤ pos 1;
        })
        ix
unfolding ◌+ℤ◌ ◌-ℤ◌
user_Uncounted vm map ix m h user =
    let e' : CmEntry = unowned (entry_at vm.coremap ix) in
    let inside : ix < length vm.coremap = omega (arith, m.entries) in
    let some_user = tally-pos is_user vm.coremap ix inside user in
    let here = get_or-set_self vm.coremap ix e' fresh_entry inside in
    record {
      entries = length-set vm.coremap ix e' ∙ m.entries;
      inside = h;
      frees = ground (arith, here, tally-set is_free vm.coremap ix e' inside);
      kernels = ground (arith, here, tally-set is_fixed vm.coremap ix e' inside);
      users = ground (arith, here, some_user, tally-set is_user vm.coremap ix e' inside);
      taken = ground (arith, here);
    }

user_IsReset :
    (vm : Vm) (ix : ℕ)
    → CountsMatch vm
    → ix < vm.num_cm_entries
    → IsReset (entry_at (set vm.coremap ix (unowned (entry_at vm.coremap ix))) ix)
user_IsReset vm ix m h =
    rw
      (get_or-set_self vm.coremap ix (unowned (entry_at vm.coremap ix)) fresh_entry
        (omega (arith, m.entries)))
      (record { no_owner = refl; no_offset = refl; no_address = refl; unused = refl })

-- free_coremap_page, where it returns, keeps the counters right, whichever kind of page is freed; the
-- entry is then free, unpinned and as coremap_bootstrap left it, and the page is zeroed. The page
-- that is freed as a user page must be clean or dirty: that it is, the code does not check.
pub free_coremap_page-CountsMatch :
    (vm vm' : Vm) (pa : ℕ) (iskern : Bool)
    → CountsMatch vm
    → paddr_to_coremap vm.base pa < vm.num_cm_entries
    → (iskern || is_user (entry_at vm.coremap (paddr_to_coremap vm.base pa)).state) ≡ true
    → free_coremap_page vm pa iskern ≡ done vm'
    → CountsMatch vm'
      × (entry_at vm'.coremap (paddr_to_coremap vm.base pa) ≡ fresh_entry)
      × (vm'.memory (pa / 4096) ≡ (λ _. 0))
free_coremap_page-CountsMatch vm vm' pa true m h kind e =
    let (kern, reset, same) = free_kernel-done vm vm' pa e in
    rw same (release_page-CountsMatch _ _ pa (kernel_Uncounted vm _ m h kern) reset)
free_coremap_page-CountsMatch vm vm' pa false m h kind e =
    let (map, taken, same) = free_user-done vm vm' pa e in
    rw same
      (release_page-CountsMatch _ _ pa (user_Uncounted vm map _ m h kind) (user_IsReset vm _ m h))
