-- ===== src/Coremap/State.antt =====
-- The state of kern/arch/mips/vm/coremap.c, struct cm_entry of kern/arch/mips/include/coremap.h, and
-- the accessors of an entry.
use petrel_os.Base.{
  ℕ, ◌+◌, ◌-◌, ◌*◌, ◌/◌, ◌%◌, ◌^◌, Bool, true, false, ◌&&◌, Option, none, some, List, leb, ◌==◌,
  if◌then◌else◌, set, get_or, Errno,
}
use petrel_os.Base.Int.{ℤ}
use petrel_os.Bitmap.{Bitmap}
use petrel_os.PageTable.{PageTable}

-- CME_FREE, CME_FIXED, CME_CLEAN, CME_DIRTY
pub data CmeState : Type 0 where
  free fixed clean dirty : CmeState

abbrev pub is_free : CmeState → Bool
is_free free = true
is_free _ = false

abbrev pub is_fixed : CmeState → Bool
is_fixed fixed = true
is_fixed _ = false

abbrev pub is_clean : CmeState → Bool
is_clean clean = true
is_clean _ = false

abbrev pub is_dirty : CmeState → Bool
is_dirty dirty = true
is_dirty _ = false

-- `struct cm_entry`. A NULL `as`, and a `disk_offset` of -1, are `none`.
pub record CmEntry : Type 0 where
  pub owner : Option ℕ
  pub disk_offset : Option ℕ
  pub vaddr_base : ℕ
  pub state : CmeState
  pub busy_bit : Bool
  pub use_bit : Bool

-- What coremap_bootstrap writes to each entry.
abbrev pub fresh_entry : CmEntry
fresh_entry = record {
  owner = none;
  disk_offset = none;
  vaddr_base = 0;
  state = free;
  busy_bit = false;
  use_bit = false;
}

-- The bytes of a page, by their offset.
abbrev pub Page : Type 0
Page = ℕ → ℕ

-- The variables of coremap.c and what its functions reach: the page table and the `pt_lock` of each
-- address space (by its address), physical memory by page number, the pages of the swap disk, and
-- the error, if any, with which the disk answers at each page.
pub record Vm : Type 0 where
  pub coremap : List CmEntry
  pub clock_hand : ℕ
  pub num_cm_entries : ℕ
  pub num_cm_free : ℤ
  pub num_cm_kernel : ℤ
  pub num_cm_user : ℤ
  pub base : ℕ
  pub disk_map : Bitmap
  pub page_tables : ℕ → PageTable
  pub holds : ℕ → Bool
  pub memory : ℕ → Page
  pub swapfile : ℕ → Page
  pub disk_error : ℕ → Option Errno

-- COREMAP_TO_PADDR and PADDR_TO_COREMAP, on 32 bits
abbrev pub coremap_to_paddr : ℕ → ℕ → ℕ
coremap_to_paddr base i = 4096 * (i + base) % 2 ^ 32

abbrev pub paddr_to_coremap : ℕ → ℕ → ℕ
paddr_to_coremap base pa = (pa / 4096 + (2 ^ 32 - base)) % 2 ^ 32

-- PADDR_IS_VALID
abbrev pub paddr_is_valid : ℕ → ℕ → Bool
paddr_is_valid base pa = leb (base * 4096 % 2 ^ 32) pa && (pa % 4096 == 0)

-- The entry at an index; every index that the functions use is below `num_cm_entries`.
abbrev pub entry_at : List CmEntry → ℕ → CmEntry
entry_at cm ix = get_or cm ix fresh_entry

abbrev pub cme_set_state : List CmEntry → ℕ → CmeState → List CmEntry
cme_set_state cm ix s = let e = entry_at cm ix in set cm ix (record e { state = s })

abbrev pub cme_set_busy : List CmEntry → ℕ → Bool → List CmEntry
cme_set_busy cm ix busy = let e = entry_at cm ix in set cm ix (record e { busy_bit = busy })

abbrev pub cme_set_use : List CmEntry → ℕ → Bool → List CmEntry
cme_set_use cm ix use_it = let e = entry_at cm ix in set cm ix (record e { use_bit = use_it })

abbrev pub cme_set_offset : List CmEntry → ℕ → ℕ → List CmEntry
cme_set_offset cm ix offset =
    let e = entry_at cm ix in set cm ix (record e { disk_offset = some offset })

-- cme_try_pin: `none` where the entry is busy.
abbrev pub cme_try_pin : List CmEntry → ℕ → Option (List CmEntry)
cme_try_pin cm ix = if (entry_at cm ix).busy_bit then none else some (cme_set_busy cm ix true)
