-- ===== src/Coremap/Allocate.antt =====
-- alloc_one_page against the counters of pages.
use petrel_os.Base.{
  ℕ, ◌/◌, ◌<◌, ◌≡◌, refl, sym, ap, ◌∙◌, ◌≢◌, inl, inr, Bool, true, false, not, ◌&&◌, ◌||◌, Option,
  none, some, arith, ◌==◌, Option-cases, length, set, get_or-set_self, get_or-set_ne, done,
  Outcome-cases,
}
use petrel_os.Base.Int.{pos, negsuc, ◌-ℤ◌}
use petrel_os.Coremap.State.{is_free, Vm, entry_at, fresh_entry, coremap_to_paddr, cme_set_busy}
use petrel_os.Coremap.Select.{
  mark_allocated, allocated, chosen, choose_evict_page, find_free_page, reached_kpage_limit,
}
use petrel_os.Coremap.SwapSpace.{swapout, write_page, evict_page}
use petrel_os.Coremap.Alloc.{
  acquire_pt_lock, release_pt_lock, lock_victim, swapout_dirty, evict, reclaim, find_page, claim,
  is_kernel, alloc_one_page,
}
use petrel_os.Coremap.FreePage.{available, FindFreePage, find_free_page-FindFreePage}
use petrel_os.Coremap.Counters.{
  CountsMatch, tally, mark_allocated-CountsMatch, allocated_entry, set-CountsMatch, tally-pos,
}

acquire-keeps :
    (vm vm' : Vm) (a : ℕ) → acquire_pt_lock vm a ≡ done vm' → vm'.num_cm_free ≡ vm.num_cm_free
unfolding acquire_pt_lock
acquire-keeps vm vm' a e = ground arith

release-keeps :
    (vm vm' : Vm) (a : ℕ) → release_pt_lock vm a ≡ done vm' → vm'.num_cm_free ≡ vm.num_cm_free
unfolding release_pt_lock
release-keeps vm vm' a e = ground arith

lock_victim-keeps :
    (vm vm' : Vm) (caller : Option ℕ) (victim : ℕ)
    → lock_victim vm caller victim ≡ done vm'
    → vm'.num_cm_free ≡ vm.num_cm_free
unfolding lock_victim acquire_pt_lock release_pt_lock
lock_victim-keeps vm vm' none victim e = ground arith
lock_victim-keeps vm vm' (some a) victim e = ground arith

swapout_dirty-keeps :
    (vm vm' : Vm) (ix : ℕ) → swapout_dirty vm ix ≡ done vm' → vm'.num_cm_free ≡ vm.num_cm_free
unfolding swapout_dirty swapout write_page
swapout_dirty-keeps vm vm' ix e = ground arith

evict_page-keeps :
    (vm vm' : Vm) (pa : ℕ) → evict_page vm pa ≡ done vm' → vm'.num_cm_free ≡ vm.num_cm_free
unfolding evict_page
evict_page-keeps vm vm' pa e = ground arith

evict-keeps :
    (vm vm' : Vm) (caller : Option ℕ) (ix : ℕ)
    → evict vm caller ix ≡ done vm'
    → vm'.num_cm_free ≡ vm.num_cm_free
unfolding evict
evict-keeps vm vm' caller ix e = elim (Option-cases (entry_at vm.coremap ix).owner) [
  | inl missing ↦ absurd (ground arith)
  | inr (victim, o) ↦ elim (Outcome-cases (lock_victim vm caller victim)) [
    | inr stopped ↦ absurd (ground arith)
    | inl (v₁, e₁) ↦ elim (Outcome-cases (swapout_dirty v₁ ix)) [
      | inr stopped ↦ absurd (ground arith)
      | inl (v₂, e₂) ↦ elim (Outcome-cases (evict_page v₂ (coremap_to_paddr v₂.base ix))) [
        | inr stopped ↦ absurd (ground arith)
        | inl (v₃, e₃) ↦ elim (Option-cases (entry_at v₃.coremap ix).owner) [
          | inl missing ↦ ground (
            arith,
            lock_victim-keeps vm v₁ caller victim e₁,
            swapout_dirty-keeps v₁ v₂ ix e₂,
            evict_page-keeps v₂ v₃ (coremap_to_paddr v₂.base ix) e₃,
          )
          | inr (a, o') ↦ ground (
            arith,
            lock_victim-keeps vm v₁ caller victim e₁,
            swapout_dirty-keeps v₁ v₂ ix e₂,
            evict_page-keeps v₂ v₃ (coremap_to_paddr v₂.base ix) e₃,
            release-keeps v₃ vm' a,
          )
        ]
      ]
    ]
  ]
]

choose-keeps :
    (vm vm' : Vm) (ix : ℕ)
    → choose_evict_page vm ≡ done (ix, vm')
    → vm'.num_cm_free ≡ vm.num_cm_free
unfolding choose_evict_page chosen
choose-keeps vm vm' ix e = ground arith

reclaim-keeps :
    (vm vm' : Vm) (caller : Option ℕ) (ix : ℕ)
    → reclaim vm caller ≡ done (ix, vm')
    → vm'.num_cm_free ≡ vm.num_cm_free
unfolding reclaim
reclaim-keeps vm vm' caller ix e = elim (Outcome-cases (choose_evict_page vm)) [
  | inr stopped ↦ absurd (ground arith)
  | inl ((k, v₁), e₁) ↦ elim (Outcome-cases (evict v₁ caller k)) [
    | inr stopped ↦ ground (arith, choose-keeps vm v₁ k e₁)
    | inl (v₂, e₂) ↦ ground (arith, choose-keeps vm v₁ k e₁, evict-keeps v₁ v₂ caller k e₂)
  ]
]

claim-counts :
    (vm vm' : Vm) (caller : Option ℕ) (va ix pa : ℕ)
    → claim vm caller va ix ≡ done (vm', pa)
    → vm'.num_cm_free ≡ vm.num_cm_free -ℤ pos 1
unfolding claim mark_allocated allocated
claim-counts vm vm' none va ix pa e = ground arith
claim-counts vm vm' (some a) va ix pa e = ground arith

find_page-reclaims :
    (vm : Vm) (caller : Option ℕ) → vm.num_cm_free ≡ pos 0 → find_page vm caller ≡ reclaim vm caller
unfolding find_page
find_page-reclaims vm caller e = rw e

-- Where alloc_one_page returns a page, it found one and claimed it.
alloc_one_page-done :
    (vm vm' : Vm) (caller : Option ℕ) (va pa : ℕ)
    → alloc_one_page vm caller va ≡ done (vm', pa)
    → pa ≢ 0
    → (ix : ℕ) × (mid : Vm) × (find_page vm caller ≡ done (ix, mid))
      × (claim mid caller va ix ≡ done (vm', pa))
unfolding alloc_one_page
alloc_one_page-done vm vm' caller va pa e page = elim (Outcome-cases (find_page vm caller)) [
  | inr stopped ↦ absurd (ground arith)
  | inl ((ix, mid), found) ↦ (ix, mid, found, ground arith)
]

-- When num_cm_free is 0, an alloc_one_page that returns a page takes num_cm_free to -1, so that the
-- counters do not match the coremap afterwards.
pub alloc_one_page-loses_count :
    (vm vm' : Vm) (caller : Option ℕ) (va pa : ℕ)
    → vm.num_cm_free ≡ pos 0
    → alloc_one_page vm caller va ≡ done (vm', pa)
    → pa ≢ 0
    → (vm'.num_cm_free ≡ negsuc 0) × ¬ CountsMatch vm'
alloc_one_page-loses_count vm vm' caller va pa none_free e page =
    (lost, λ m. ground (arith, m.frees, lost))
  where
    lost : vm'.num_cm_free ≡ negsuc 0
    lost =
        let (ix, mid, found, claimed) = alloc_one_page-done vm vm' caller va pa e page in
        claim-counts mid vm' caller va ix pa claimed
        ∙ ap (λ n. n -ℤ pos 1)
            (reclaim-keeps vm mid caller ix (sym (find_page-reclaims vm caller none_free) ∙ found)
              ∙ none_free)
        ∙ unfold ◌-ℤ◌ in refl

pub record Allocated (vm vm' : Vm) (caller : Option ℕ) (va ix pa : ℕ) : Type 0 where
  pub inside : ix < vm.num_cm_entries
  pub was_available : available vm.coremap ix ≡ true
  pub lowest : (j : ℕ) → j < ix → available vm.coremap j ≡ false
  pub address : pa ≡ coremap_to_paddr vm.base ix
  pub counts : CountsMatch vm'
  pub entry : entry_at vm'.coremap ix ≡ (elim caller [
    | none ↦ allocated_entry true
    | some a ↦
        (let e = allocated_entry false in record e { owner = some a; vaddr_base = va / 4096 })
  ])
  pub others : (j : ℕ) → j ≢ ix → entry_at vm'.coremap j ≡ entry_at vm.coremap j

-- The state in which find_free_page has pinned the page.
abbrev pinned : Vm → ℕ → Vm
pinned vm ix = record vm { coremap = cme_set_busy vm.coremap ix true }

-- The owner and the address that the end of alloc_one_page gives a user page.
abbrev owned : Vm → ℕ → ℕ → ℕ → Vm
owned vm a va ix =
    let e = entry_at vm.coremap ix in
    record vm { coremap = set vm.coremap ix (record e { owner = some a; vaddr_base = va / 4096 }) }

module _ (vm : Vm) (ix : ℕ) (m : CountsMatch vm) (h : ix < vm.num_cm_entries)
    (page : available vm.coremap ix ≡ true) where
  pin_entry :
      entry_at (pinned vm ix).coremap ix
      ≡ (let e = entry_at vm.coremap ix in record e { busy_bit = true })
  pin_entry = get_or-set_self vm.coremap ix _ fresh_entry (omega (arith, m.entries))

  pinned-CountsMatch : CountsMatch (pinned vm ix)
  pinned-CountsMatch = set-CountsMatch vm ix _ m h refl

  marked :
      (iskern : Bool)
      → (mark_allocated (pinned vm ix) ix iskern ≡ done (allocated (pinned vm ix) ix iskern))
        × CountsMatch (allocated (pinned vm ix) ix iskern)
        × (entry_at (allocated (pinned vm ix) ix iskern).coremap ix ≡ allocated_entry iskern)
  marked iskern =
      mark_allocated-CountsMatch (pinned vm ix) ix iskern pinned-CountsMatch h
        (rw pin_entry (ground arith)) (rw pin_entry)

  allocated-others :
      (iskern : Bool) (j : ℕ)
      → j ≢ ix
      → entry_at (allocated (pinned vm ix) ix iskern).coremap j ≡ entry_at vm.coremap j
  unfolding allocated
  allocated-others iskern j ne =
      get_or-set_ne (pinned vm ix).coremap ix j _ fresh_entry (λ e. ne (sym e))
      ∙ get_or-set_ne vm.coremap ix j _ fresh_entry (λ e. ne (sym e))

  allocated_scalars :
      (iskern : Bool)
      → ((allocated (pinned vm ix) ix iskern).base ≡ vm.base)
        × ((allocated (pinned vm ix) ix iskern).num_cm_entries ≡ vm.num_cm_entries)
  unfolding allocated
  allocated_scalars iskern = (refl, refl)

  -- What the end of alloc_one_page does to the state in which the page has just been pinned.
  claim-Allocated :
      (caller : Option ℕ) (va : ℕ)
      → (is_kernel caller || not (va == 0)) ≡ true
      → ((j : ℕ) → j < ix → available vm.coremap j ≡ false)
      → (vm' : Vm) × (claim (pinned vm ix) caller va ix ≡ done (vm', coremap_to_paddr vm.base ix))
        × Allocated vm vm' caller va ix (coremap_to_paddr vm.base ix)
  unfolding claim
  claim-Allocated none va address first =
      let (does, counts, entry) = marked true in
      let scalars = allocated_scalars true in
      (
        allocated (pinned vm ix) ix true,
        rw (pin_entry, does) (ground (arith, page, scalars.0)),
        record {
          inside = h;
          was_available = page;
          lowest = first;
          address = refl;
          counts = counts;
          entry = entry;
          others = allocated-others true;
        },
      )
  claim-Allocated (some a) va address first =
      let (does, counts, entry) = marked false in
      let mid = allocated (pinned vm ix) ix false in
      let scalars = allocated_scalars false in
      let inside : ix < length mid.coremap = omega (arith, counts.entries, scalars.1) in
      (
        owned mid a va ix,
        rw (pin_entry, does) (ground (arith, page, address, scalars.0)),
        record {
          inside = h;
          was_available = page;
          lowest = first;
          address = refl;
          counts = set-CountsMatch mid ix _ counts (omega (arith, scalars.1)) refl;
          entry = get_or-set_self mid.coremap ix _ fresh_entry inside ∙ rw entry;
          others = λ j ne.
              get_or-set_ne mid.coremap ix j _ fresh_entry (λ e. ne (sym e))
              ∙ allocated-others false j ne;
        },
      )

-- Where the counters are right and a page is free and not pinned, for a user page at an address other
-- than 0 or for a kernel page below the kernel's limit, alloc_one_page passes its assertions and takes
-- the lowest such page: it keeps the counters right, returns the page's physical address and leaves its
-- entry pinned, a kernel page's without an owner, a user page's dirty with its owner and address. No
-- other entry changes.
pub alloc_one_page-Allocated :
    (vm : Vm) (caller : Option ℕ) (va i : ℕ)
    → CountsMatch vm
    → i < vm.num_cm_entries
    → available vm.coremap i ≡ true
    → (is_kernel caller && reached_kpage_limit vm) ≡ false
    → (is_kernel caller || not (va == 0)) ≡ true
    → (vm' : Vm) × (ix pa : ℕ) × (alloc_one_page vm caller va ≡ done (vm', pa))
      × Allocated vm vm' caller va ix pa
unfolding alloc_one_page find_page
alloc_one_page-Allocated vm caller va i m h page limit address =
    let some_free = tally-pos is_free vm.coremap i (omega (arith, m.entries)) (ground arith) in
    go (find_free_page vm) (find_free_page-FindFreePage vm m.entries) some_free refl
  where
    go :
        (r : Option (ℕ × Vm))
        → FindFreePage vm r
        → 0 < tally is_free vm.coremap
        → find_free_page vm ≡ r
        → (vm' : Vm) × (ix pa : ℕ) × (alloc_one_page vm caller va ≡ done (vm', pa))
          × Allocated vm vm' caller va ix pa
    go r (FindFreePage.missing none_left) some_free e = absurd (ground (arith, none_left i))
    go r (FindFreePage.found k below here first) some_free e =
        let (vm', does, is) = claim-Allocated vm k m below here caller va address first in
        (vm', k, coremap_to_paddr vm.base k, ground (arith, m.frees, limit), is)
