-- ===== src/AddrSpace/Layout.antt =====
-- as_define_region and as_get_permissions of kern/vm/addrspace.c on the list of regions.
use petrel_os.Base.{
  ℕ, ◌+◌, ◌%◌, ◌≤◌, ◌<◌, ◌≡◌, refl, sym, ◌∙◌, inl, inr, Bool, true, false, Option, none, some, List,
  [], ◌∷◌, ◌++◌, arith, ltb, Bool-cases, Errno, enomem,
}
use petrel_os.Base.Int.{pos, negsuc}
use petrel_os.AddrSpace.{
  Region, AddrSpace, page_size, wrap, aligned, contains, region_permissions, raise_heap,
  record_region, permissions_loop, as_get_permissions, as_define_region, user_stack,
}

-- Every region ends below `top`.
pub data AllBelow (top : ℕ) : List Region → Type 0 where
  none_left : AllBelow top []
  below :
      (r : Region) {rs : List Region}
      → r.base + r.sz ≤ top
      → AllBelow top rs
      → AllBelow top (r ∷ rs)

-- The heap lies above every region.
pub record IsLaidOut (s : AddrSpace) : Type 0 where
  pub above : AllBelow s.heap_start s.regions
  pub ordered : s.heap_start ≤ s.heap_end

-- The aligned region holds whole pages, and exactly those that the segment meets.
pub record IsAligned (vaddr sz : ℕ) (r : Region) : Type 0 where
  pub base_aligned : r.base % page_size ≡ 0
  pub size_aligned : r.sz % page_size ≡ 0
  pub starts : r.base ≤ vaddr
  pub starts_near : vaddr < r.base + page_size
  pub ends : vaddr + sz ≤ r.base + r.sz
  pub ends_near : r.base + r.sz < vaddr + sz + page_size
  pub no_wrap : wrap (r.base + r.sz) ≡ r.base + r.sz

aligned-IsAligned :
    (vaddr sz : ℕ) (readable writeable executable : Bool)
    → vaddr + sz ≤ user_stack
    → IsAligned vaddr sz (aligned vaddr sz readable writeable executable)
aligned-IsAligned vaddr sz readable writeable executable h = record {
  base_aligned = omega arith;
  size_aligned = omega arith;
  starts = omega arith;
  starts_near = omega arith;
  ends = omega (arith, h);
  ends_near = omega (arith, h);
  no_wrap = omega (arith, h);
}

-- What as_define_region comes to, and what it leaves.
pub data DefineResult (s : AddrSpace) (vaddr sz : ℕ)
    (readable writeable executable got_region : Bool) (added : Option Errno)
    : AddrSpace × Option Errno → Type 0 where
  recorded :
      (r : Region) {s' : AddrSpace}
      → got_region ≡ true
      → added ≡ none
      → IsAligned vaddr sz r
      → (r.readable ≡ readable) × (r.writeable ≡ writeable) × (r.executable ≡ executable)
      → s'.regions ≡ s.regions ++ (r ∷ [])
      → IsLaidOut s'
      → DefineResult s vaddr sz readable writeable executable got_region added (s', none)
  no_region :
      {s' : AddrSpace}
      → got_region ≡ false
      → s'.regions ≡ s.regions
      → IsLaidOut s'
      → DefineResult s vaddr sz readable writeable executable got_region added (s', some enomem)
  not_added :
      (e : Errno) {s' : AddrSpace}
      → got_region ≡ true
      → added ≡ some e
      → s'.regions ≡ s.regions
      → IsLaidOut s'
      → DefineResult s vaddr sz readable writeable executable got_region added (s', some e)

raise_heap-regions : (s : AddrSpace) (top : ℕ) → (raise_heap s top).regions ≡ s.regions
raise_heap-regions s top = elim (Bool-cases (ltb s.heap_start top)) [
  | inl low ↦ rw low refl
  | inr high ↦ rw high refl
]

permissions_loop-hit :
    (r : Region) (rs : List Region) (va : ℕ)
    → contains r va ≡ true
    → permissions_loop (r ∷ rs) va ≡ pos (region_permissions r)
unfolding permissions_loop
permissions_loop-hit r rs va h = rw h refl

permissions_loop-miss :
    (r : Region) (rs : List Region) (va : ℕ)
    → contains r va ≡ false
    → permissions_loop (r ∷ rs) va ≡ permissions_loop rs va
unfolding permissions_loop
permissions_loop-miss r rs va h = rw h refl

permissions_loop-append :
    (rs : List Region) (r : Region) (va : ℕ)
    → contains r va ≡ true
    → permissions_loop rs va ≡ negsuc 0
    → permissions_loop (rs ++ (r ∷ [])) va ≡ pos (region_permissions r)
permissions_loop-append [] r va h e = permissions_loop-hit r [] va h
permissions_loop-append (q ∷ rs) r va h e = elim (Bool-cases (contains q va)) [
  | inl hit ↦ absurd (pos_negsuc (sym (permissions_loop-hit q rs va hit) ∙ e))
  | inr miss ↦
      permissions_loop-miss q (rs ++ (r ∷ [])) va miss
      ∙ permissions_loop-append rs r va h (sym (permissions_loop-miss q rs va miss) ∙ e)
]
  where
    pos_negsuc : {n : ℕ} → pos n ≡ negsuc 0 → ⊥
    pos_negsuc e = cc e

permissions_loop-kept :
    (rs : List Region) (r : Region) (va n : ℕ)
    → permissions_loop rs va ≡ pos n
    → permissions_loop (rs ++ (r ∷ [])) va ≡ pos n
unfolding permissions_loop
permissions_loop-kept [] r va n e = absurd (cc e)
permissions_loop-kept (q ∷ rs) r va n e = elim (Bool-cases (contains q va)) [
  | inl hit ↦
      permissions_loop-hit q (rs ++ (r ∷ [])) va hit ∙ sym (permissions_loop-hit q rs va hit) ∙ e
  | inr miss ↦
      permissions_loop-miss q (rs ++ (r ∷ [])) va miss
      ∙ permissions_loop-kept rs r va n (sym (permissions_loop-miss q rs va miss) ∙ e)
]

-- Once a segment of user memory is defined, as_get_permissions gives its flags on every address of it
-- that lay in no region before.
as_get_permissions-as_define_region :
    (s : AddrSpace) (vaddr sz va : ℕ) (readable writeable executable : Bool)
    → vaddr + sz ≤ user_stack
    → vaddr ≤ va
    → va < vaddr + sz
    → as_get_permissions s va ≡ negsuc 0
    → as_get_permissions (as_define_region s vaddr sz readable writeable executable true none).0 va
      ≡ pos (region_permissions (aligned vaddr sz readable writeable executable))
unfolding as_get_permissions as_define_region record_region
as_get_permissions-as_define_region s vaddr sz va readable writeable executable h lo hi e =
    let r = aligned vaddr sz readable writeable executable in
    let fits = aligned-IsAligned vaddr sz readable writeable executable h in
    let inside : contains r va ≡ true =
      rw fits.no_wrap (ground (arith, lo, hi, fits.starts, fits.ends)) in
    rw (raise_heap-regions s (wrap (r.base + r.sz)))
      (permissions_loop-append s.regions r va inside e)

-- No address of an earlier region changes its flags, whatever as_define_region is given.
as_get_permissions-kept :
    (s : AddrSpace) (vaddr sz va n : ℕ) (readable writeable executable got_region : Bool)
    (added : Option Errno)
    → as_get_permissions s va ≡ pos n
    → as_get_permissions
        (as_define_region s vaddr sz readable writeable executable got_region added).0
        va
      ≡ pos n
unfolding as_get_permissions as_define_region record_region
as_get_permissions-kept s vaddr sz va n readable writeable executable got_region added e =
    go got_region added
  where
    r : Region
    r = aligned vaddr sz readable writeable executable

    go :
        (got_region : Bool) (added : Option Errno)
        → permissions_loop
            (record_region (raise_heap s (wrap (r.base + r.sz))) r got_region added).0.regions
            va
          ≡ pos n
    go false added = rw (raise_heap-regions s (wrap (r.base + r.sz))) e
    go true (some _) = rw (raise_heap-regions s (wrap (r.base + r.sz))) e
    go true none =
        rw (raise_heap-regions s (wrap (r.base + r.sz))) (permissions_loop-kept s.regions r va n e)
