-- ===== src/Coremap/Counters.antt =====
-- The counters num_cm_free, num_cm_kernel and num_cm_user against the entries that they count.
use petrel_os.Base.{
  ℕ, zero, suc, ◌+◌, ◌<◌, ◌≡◌, ap, ◌∙◌, Bool, true, false, ◌||◌, none, List, [], ◌∷◌, arith,
  if◌then◌else◌, length, set, length-set, get_or-set_self, done,
}
use petrel_os.Base.Int.{pos, ◌+ℤ◌, ◌-ℤ◌}
use petrel_os.Coremap.State.{
  CmEntry, CmeState, fixed, dirty, is_free, is_fixed, is_clean, is_dirty, Vm, entry_at, fresh_entry,
}
use petrel_os.Coremap.Select.{mark_allocated, allocated, counters_add_up}

abbrev pub is_user : CmeState → Bool
is_user s = is_clean s || is_dirty s

abbrev pub one_if : Bool → ℕ
one_if true = 1
one_if false = 0

-- How many entries have a state that `p` holds of.
abbrev pub tally : (CmeState → Bool) → List CmEntry → ℕ
tally p [] = 0
tally p (e ∷ cm) = one_if (p e.state) + tally p cm

pub tally-set :
    (p : CmeState → Bool) (cm : List CmEntry) (i : ℕ) (e : CmEntry)
    → i < length cm
    → tally p (set cm i e) + one_if (p (entry_at cm i).state) ≡ tally p cm + one_if (p e.state)
tally-set p [] i e h = absurd (omega arith)
tally-set p (x ∷ cm) zero e h = omega arith
tally-set p (x ∷ cm) (suc i) e h = omega (arith, tally-set p cm i e (omega arith))

tally-total :
    (cm : List CmEntry) → tally is_free cm + tally is_fixed cm + tally is_user cm ≡ length cm
tally-total [] = omega arith
tally-total (e ∷ cm) = ground (arith, tally-total cm)

-- The counters are the numbers of entries that are free, fixed, and clean or dirty.
pub record CountsMatch (vm : Vm) : Type 0 where
  pub entries : length vm.coremap ≡ vm.num_cm_entries
  pub frees : vm.num_cm_free ≡ pos (tally is_free vm.coremap)
  pub kernels : vm.num_cm_kernel ≡ pos (tally is_fixed vm.coremap)
  pub users : vm.num_cm_user ≡ pos (tally is_user vm.coremap)

pub tally-pos :
    (p : CmeState → Bool) (cm : List CmEntry) (i : ℕ)
    → i < length cm
    → p (entry_at cm i).state ≡ true
    → 0 < tally p cm
tally-pos p [] i h is = absurd (omega arith)
tally-pos p (x ∷ cm) zero h is = ground arith
tally-pos p (x ∷ cm) (suc i) h is = omega (arith, tally-pos p cm i (omega arith) is)

CountsMatch-adds_up : (vm : Vm) → CountsMatch vm → counters_add_up vm ≡ true
unfolding counters_add_up ◌+ℤ◌
CountsMatch-adds_up vm m = ground (arith, tally-total vm.coremap)

allocated-CountsMatch :
    (vm : Vm) (ix : ℕ) (iskern : Bool)
    → CountsMatch vm
    → ix < vm.num_cm_entries
    → is_free (entry_at vm.coremap ix).state ≡ true
    → CountsMatch (allocated vm ix iskern)
unfolding allocated ◌+ℤ◌ ◌-ℤ◌
allocated-CountsMatch vm ix iskern m h is =
    let e = entry_at vm.coremap ix in
    let e' : CmEntry = record e {
      owner = none;
      disk_offset = none;
      vaddr_base = 0;
      use_bit = false;
      state = if iskern then fixed else dirty;
    } in
    record {
      entries = length-set vm.coremap ix e' ∙ m.entries;
      frees = ground (arith, tally-set is_free vm.coremap ix e');
      kernels = ground (arith, tally-set is_fixed vm.coremap ix e');
      users = ground (arith, tally-set is_user vm.coremap ix e');
    }

-- A change of an entry that keeps its state keeps the counters right.
pub set-CountsMatch :
    (vm : Vm) (ix : ℕ) (e' : CmEntry)
    → CountsMatch vm
    → ix < vm.num_cm_entries
    → e'.state ≡ (entry_at vm.coremap ix).state
    → CountsMatch (record vm { coremap = set vm.coremap ix e' })
set-CountsMatch vm ix e' m h same =
    let inside : ix < length vm.coremap = omega (arith, m.entries) in
    record {
      entries = length-set vm.coremap ix e' ∙ m.entries;
      frees =
          m.frees
          ∙ ap pos (
              omega (
                arith,
                tally-set is_free vm.coremap ix e' inside,
                ap (λ t. one_if (is_free t)) same,
              ));
      kernels =
          m.kernels
          ∙ ap pos (
              omega (
                arith,
                tally-set is_fixed vm.coremap ix e' inside,
                ap (λ t. one_if (is_fixed t)) same,
              ));
      users =
          m.users
          ∙ ap pos (
              omega (
                arith,
                tally-set is_user vm.coremap ix e' inside,
                ap (λ t. one_if (is_user t)) same,
              ));
    }

-- What mark_allocated leaves at the index.
abbrev pub allocated_entry : Bool → CmEntry
allocated_entry iskern = record {
  owner = none;
  disk_offset = none;
  vaddr_base = 0;
  state = if iskern then fixed else dirty;
  busy_bit = true;
  use_bit = false;
}

-- mark_allocated of a free and pinned entry passes its assertions and keeps the counters right; the
-- entry becomes a fixed or a dirty one, still pinned, without an owner, a disk offset or an address.
pub mark_allocated-CountsMatch :
    (vm : Vm) (ix : ℕ) (iskern : Bool)
    → CountsMatch vm
    → ix < vm.num_cm_entries
    → is_free (entry_at vm.coremap ix).state ≡ true
    → (entry_at vm.coremap ix).busy_bit ≡ true
    → (mark_allocated vm ix iskern ≡ done (allocated vm ix iskern))
      × CountsMatch (allocated vm ix iskern)
      × (entry_at (allocated vm ix iskern).coremap ix ≡ allocated_entry iskern)
unfolding mark_allocated
mark_allocated-CountsMatch vm ix iskern m h is pinned =
    let after = allocated-CountsMatch vm ix iskern m h is in
    (
      rw (is, pinned, CountsMatch-adds_up (allocated vm ix iskern) after),
      after,
      unfold allocated in
          ground (arith, get_or-set_self vm.coremap ix (allocated_entry iskern) fresh_entry),
    )
