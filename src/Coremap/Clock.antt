-- ===== src/Coremap/Clock.antt =====
-- The clock of choose_evict_page.
use petrel_os.Base.{
  ℕ, zero, suc, ◌+◌, ◌-◌, ◌*◌, ◌%◌, ◌<◌, ◌≡◌, refl, sym, ap, ◌∙◌, subst, ◌⊎◌, inl, inr, Bool, true,
  false, not, ◌&&◌, Option, some, List, arith, ltb, leb, ==_iff, ltb→lt, Bool-cases, length, set,
  length-set, get_or-set_self, done,
}
use native.Mathlib.Nat.{mod-eq_of_lt, mod-lt, mod_self}
use petrel_os.Coremap.State.{
  CmEntry, is_fixed, Vm, entry_at, cme_set_busy, cme_set_use, fresh_entry,
}
use petrel_os.Coremap.Select.{clock_turn, clock_scan, chosen, choose_evict_page}
use petrel_os.Coremap.FreePage.{entry_at-set, edit_twice}

-- A page that the clock may take: not a kernel page, and not pinned.
abbrev pub evictable : List CmEntry → ℕ → Bool
evictable cm i = not (is_fixed (entry_at cm i).state) && not (entry_at cm i).busy_bit

-- `cm'` is `cm` with some use bits cleared.
pub record Swept (cm cm' : List CmEntry) : Type 0 where
  pub same_length : length cm' ≡ length cm
  pub same_entry :
      (j : ℕ)
      → (let e = entry_at cm j in record e { use_bit = (entry_at cm' j).use_bit }) ≡ entry_at cm' j
  pub cleared : (j : ℕ) → (entry_at cm j).use_bit ≡ false → (entry_at cm' j).use_bit ≡ false

Swept-refl : (cm : List CmEntry) → Swept cm cm
Swept-refl cm = record { same_length = refl; same_entry = λ j. refl; cleared = λ j h. h }

Swept-trans : {a b c : List CmEntry} → Swept a b → Swept b c → Swept a c
Swept-trans s t = record {
  same_length = t.same_length ∙ s.same_length;
  same_entry = λ j. ground (arith, s.same_entry j, t.same_entry j);
  cleared = λ j h. t.cleared j (s.cleared j h);
}

pub Swept-evictable :
    {cm cm' : List CmEntry} → Swept cm cm' → (j : ℕ) → evictable cm' j ≡ evictable cm j
Swept-evictable {cm} {cm'} s j = rw (← s.same_entry j)

-- Pinning a page, clearing its use bit and unpinning it again comes to one write.
passed_over :
    (cm : List CmEntry) (hand : ℕ)
    → hand < length cm
    → cme_set_busy (cme_set_use (cme_set_busy cm hand true) hand false) hand false
      ≡ (let e = entry_at cm hand in set cm hand (record e { busy_bit = false; use_bit = false }))
passed_over cm hand h =
    ap (λ c. cme_set_busy c hand false)
      (edit_twice cm hand (λ e. record e { busy_bit = true }) (λ e. record e { use_bit = false }) h)
    ∙ edit_twice cm hand (λ e. record e { busy_bit = true; use_bit = false })
        (λ e. record e { busy_bit = false }) h

write-Swept :
    (cm : List CmEntry) (hand : ℕ)
    → hand < length cm
    → (entry_at cm hand).busy_bit ≡ false
    → Swept cm
        (let e = entry_at cm hand in set cm hand (record e { busy_bit = false; use_bit = false }))
write-Swept cm hand h idle =
    let e = entry_at cm hand in
    let e' : CmEntry = record e { busy_bit = false; use_bit = false } in
    record {
      same_length = length-set cm hand e';
      same_entry = λ j. ground (arith, entry_at-set cm hand j e' h, ==_iff hand j);
      cleared = λ j c. ground (arith, entry_at-set cm hand j e' h);
    }

-- One turn takes the page under the hand, or clears its use bit where it may be evicted.
turn-cases :
    (cm : List CmEntry) (hand : ℕ)
    → hand < length cm
    → ((clock_turn cm hand ≡ (cme_set_busy cm hand true, true))
        × (evictable cm hand ≡ true)
        × ((entry_at cm hand).use_bit ≡ false))
      ⊎ ((cm' : List CmEntry) × (clock_turn cm hand ≡ (cm', false))
          × Swept cm cm'
          × (evictable cm hand ≡ true
              → ((entry_at cm hand).use_bit ≡ true) × ((entry_at cm' hand).use_bit ≡ false)))
unfolding clock_turn
turn-cases cm hand h =
    let e = entry_at cm hand in
    let pin = get_or-set_self cm hand (record e { busy_bit = true }) fresh_entry h in
    elim (Bool-cases (is_fixed e.state)) [
      | inl kern ↦ inr (cm, rw kern, Swept-refl cm, λ c. absurd (ground arith))
      | inr user ↦ elim (Bool-cases e.busy_bit) [
        | inl busy ↦ inr (cm, rw (user, busy), Swept-refl cm, λ c. absurd (ground arith))
        | inr idle ↦ elim (Bool-cases e.use_bit) [
          | inl used ↦ inr (
            set cm hand (record e { busy_bit = false; use_bit = false }),
            ground (arith, pin, passed_over cm hand h),
            write-Swept cm hand h idle,
            λ c. (
              used,
              rw (
                  get_or-set_self cm hand (record e { busy_bit = false; use_bit = false })
                    fresh_entry h),
            ),
          )
          | inr unused ↦ inl (ground (arith, pin), ground arith, unused)
        ]
      ]
    ]

-- The hand stands `d` places before `i`, going round at `n`.
abbrev Before : ℕ → ℕ → ℕ → ℕ → Type 0
Before hand d i n = (hand + d ≡ i) ⊎ (hand + d ≡ i + n)

hand-next-lt : (hand n : ℕ) → hand < n → (hand + 1) % n < n
hand-next-lt hand n h = mod-lt (hand + 1) (omega arith)

Before-next :
    (hand d i n : ℕ) → hand < n → i < n → Before hand (suc d) i n → Before ((hand + 1) % n) d i n
Before-next hand d i n h hi b = elim (Bool-cases (ltb (hand + 1) n)) [
  | inl below ↦ rw (mod-eq_of_lt (ltb→lt (hand + 1) n below)) (omega arith)
  | inr past ↦ let e : hand + 1 ≡ n = ground arith in rw (e, mod_self) (omega (arith, e))
]

-- What a scan of `cm` comes to: the page was evictable when the scan began, its use bit is clear,
-- and it is pinned; of all the other entries only use bits have changed.
pub data ClockPick (cm : List CmEntry) (n : ℕ) : Option (ℕ × List CmEntry × ℕ) → Type 0 where
  picked :
      (k : ℕ) (mid : List CmEntry)
      → k < n
      → Swept cm mid
      → evictable cm k ≡ true
      → (entry_at mid k).use_bit ≡ false
      → ClockPick cm n (some (k, cme_set_busy mid k true, (k + 1) % n))

ClockPick-Swept :
    {cm cm' : List CmEntry} {n : ℕ} {r : Option (ℕ × List CmEntry × ℕ)}
    → Swept cm cm'
    → ClockPick cm' n r
    → ClockPick cm n r
ClockPick-Swept s (picked k mid h t can unused) =
    picked k mid h (Swept-trans s t) (sym (Swept-evictable s k) ∙ can) unused

take_here :
    (cm : List CmEntry) (n hand : ℕ)
    → hand < n
    → evictable cm hand ≡ true
    → (entry_at cm hand).use_bit ≡ false
    → ClockPick cm n (some (hand, cme_set_busy cm hand true, (hand + 1) % n))
take_here cm n hand h can unused = picked hand cm h (Swept-refl cm) can unused

-- The hand reaches a page with a clear use bit within the distance to it.
scan_unused :
    (d fuel n i hand : ℕ) (cm : List CmEntry)
    → d < fuel
    → length cm ≡ n
    → hand < n
    → i < n
    → Before hand d i n
    → d < n
    → evictable cm i ≡ true
    → (entry_at cm i).use_bit ≡ false
    → ClockPick cm n (clock_scan fuel n cm hand)
unfolding clock_scan
scan_unused d zero n i hand cm lt len h hi b hd can unused = absurd (omega arith)
scan_unused zero (suc fuel) n i hand cm lt len h hi b hd can unused =
    let e : hand ≡ i = omega arith in
    elim (turn-cases cm hand (omega arith)) [
      | inl (turn, ok_here, clear) ↦ rw turn (take_here cm n hand h ok_here clear)
      | inr (cm', turn, swept, clears) ↦ absurd (ground (arith, clears (rw e can)))
    ]
scan_unused (suc d) (suc fuel) n i hand cm lt len h hi b hd can unused =
    elim (turn-cases cm hand (omega arith)) [
      | inl (turn, ok_here, clear) ↦ rw turn (take_here cm n hand h ok_here clear)
      | inr (cm', turn, swept, clears) ↦ rw turn (
          ClockPick-Swept swept (
            scan_unused d fuel n i ((hand + 1) % n) cm' (omega arith) (swept.same_length ∙ len)
              (hand-next-lt hand n h) hi (Before-next hand d i n h hi b) (omega arith)
              (Swept-evictable swept i ∙ can) (swept.cleared i unused)))
    ]

-- The hand reaches any evictable page, and a second round finds its use bit clear.
scan_evictable :
    (d fuel n i hand : ℕ) (cm : List CmEntry)
    → d + n < fuel
    → length cm ≡ n
    → hand < n
    → i < n
    → Before hand d i n
    → d < n
    → evictable cm i ≡ true
    → ClockPick cm n (clock_scan fuel n cm hand)
unfolding clock_scan
scan_evictable d zero n i hand cm lt len h hi b hd can = absurd (omega arith)
scan_evictable zero (suc fuel) n i hand cm lt len h hi b hd can =
    let e : hand ≡ i = omega arith in
    elim (turn-cases cm hand (omega arith)) [
      | inl (turn, ok_here, clear) ↦ rw turn (take_here cm n hand h ok_here clear)
      | inr (cm', turn, swept, clears) ↦ rw turn (
          ClockPick-Swept swept (
            scan_unused (n - 1) fuel n i ((hand + 1) % n) cm' (omega arith)
              (swept.same_length ∙ len) (hand-next-lt hand n h) hi
              (Before-next hand (n - 1) i n h hi (omega arith)) (omega arith)
              (Swept-evictable swept i ∙ can)
              (subst (λ (j : ℕ). (entry_at cm' j).use_bit ≡ false) e (clears (rw e can)).1)))
    ]
scan_evictable (suc d) (suc fuel) n i hand cm lt len h hi b hd can =
    elim (turn-cases cm hand (omega arith)) [
      | inl (turn, ok_here, clear) ↦ rw turn (take_here cm n hand h ok_here clear)
      | inr (cm', turn, swept, clears) ↦ rw turn (
          ClockPick-Swept swept (
            scan_evictable d fuel n i ((hand + 1) % n) cm' (omega arith) (swept.same_length ∙ len)
              (hand-next-lt hand n h) hi (Before-next hand d i n h hi b) (omega arith)
              (Swept-evictable swept i ∙ can)))
    ]

distance : (hand i n : ℕ) → hand < n → i < n → (d : ℕ) × Before hand d i n × (d < n)
distance hand i n h hi = elim (Bool-cases (leb hand i)) [
  | inl le ↦ (i - hand, inl (ground arith), ground arith)
  | inr gt ↦ (i + n - hand, inr (ground arith), ground arith)
]

-- If some page is neither a kernel page nor pinned, choose_evict_page ends, within two rounds of the
-- clock. It returns a page that was such a one and pins it; every other entry keeps all but perhaps
-- its use bit, which can only be cleared, and the rest of the state keeps all but the clock hand.
pub choose_evict_page-ends :
    (vm : Vm) (i : ℕ)
    → length vm.coremap ≡ vm.num_cm_entries
    → vm.clock_hand < vm.num_cm_entries
    → i < vm.num_cm_entries
    → evictable vm.coremap i ≡ true
    → (k : ℕ) × (mid : List CmEntry) × (choose_evict_page vm
        ≡ done (
          k,
          record vm { coremap = cme_set_busy mid k true; clock_hand = (k + 1) % vm.num_cm_entries },
        ))
      × (k < vm.num_cm_entries)
      × (evictable vm.coremap k ≡ true)
      × Swept vm.coremap mid
      × ((entry_at mid k).use_bit ≡ false)
unfolding choose_evict_page chosen
choose_evict_page-ends vm i len hand hi can =
    let (d, before, small) = distance vm.clock_hand i vm.num_cm_entries hand hi in
    go _ (
      scan_evictable d (2 * vm.num_cm_entries) vm.num_cm_entries i vm.clock_hand vm.coremap
        (omega arith) len hand hi before small can)
  where
    go :
        (r : Option (ℕ × List CmEntry × ℕ))
        → ClockPick vm.coremap vm.num_cm_entries r
        → (k : ℕ) × (mid : List CmEntry) × (chosen vm r
            ≡ done (
              k,
              record vm {
                coremap = cme_set_busy mid k true;
                clock_hand = (k + 1) % vm.num_cm_entries;
              },
            ))
          × (k < vm.num_cm_entries)
          × (evictable vm.coremap k ≡ true)
          × Swept vm.coremap mid
          × ((entry_at mid k).use_bit ≡ false)
    go r (picked k mid lt swept was unused) = (k, mid, refl, lt, was, swept, unused)
