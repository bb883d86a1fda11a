-- ===== src/PageTable.antt =====
-- The two-level page table of kern/vm/addrspace.c (struct pt_ent and the pt_ and pte_ functions of
-- kern/include/addrspace.h). An address and an int are 32-bit patterns, so they wrap at 2^32; the
-- bit fields of struct pt_ent keep 20 and 10 bits. A page of memory that kmalloc gives or refuses
-- is an argument.
pub mod Translate
mod Tests
use petrel_os.Base.{
  ℕ, ◌+◌, ◌-◌, ◌*◌, ◌/◌, ◌%◌, ◌^◌, Bool, true, false, not, ◌||◌, Option, none, some, ltb, leb,
  if◌then◌else◌, update, Outcome, done, panic, ◌>>=◌, ◌>>◌, kassert, enomem, Return, ok, fail,
}

-- `struct pt_ent`, its two signed bit fields as patterns.
pub record Pte : Type 0 where
  pub page_paddr_base : ℕ
  pub permissions : ℕ
  pub present : Bool
  pub exists : Bool

-- A secondary table is a page of 1024 entries, and NULL is `none`.
abbrev pub PageTable : Type 0
PageTable = ℕ → Option (ℕ → Pte)

-- PT_PRIMARY_INDEX, PT_SECONDARY_INDEX and ADDRESS_OFFSET
abbrev pub primary_index : ℕ → ℕ
primary_index va = va / 2 ^ 22

abbrev pub secondary_index : ℕ → ℕ
secondary_index va = va / 4096 % 1024

abbrev pub address_offset : ℕ → ℕ
address_offset va = va % 4096

-- A pattern of `bits` bits, read as a signed number and widened to 32 bits.
abbrev pub sign_extend : ℕ → ℕ → ℕ
sign_extend bits x = if ltb x (2 ^ (bits - 1)) then x else x + (2 ^ 32 - 2 ^ bits)

abbrev pub pte_get_location : Pte → ℕ
pte_get_location pte = sign_extend 20 pte.page_paddr_base

abbrev pub pte_set_location : ℕ → Pte → Pte
pte_set_location location pte = record pte { page_paddr_base = location % 2 ^ 20 }

abbrev pub pte_get_permissions : Pte → ℕ
pte_get_permissions pte = sign_extend 10 pte.permissions

abbrev pub pte_set_permissions : ℕ → Pte → Pte
pte_set_permissions permissions pte = record pte { permissions = permissions % 2 ^ 10 }

abbrev pub pte_set_present : Bool → Pte → Pte
pte_set_present present pte = record pte { present = present }

abbrev pub pte_set_exists : Bool → Pte → Pte
pte_set_exists exists pte = record pte { exists = exists }

-- `none` is NULL, from a kmalloc that fails.
pub pt_create : Bool → Option PageTable
pt_create got = if got then some (λ _. none) else none

-- get_pt_entry, whose pointer the callers read or write through at once: a read, and `write_pt_entry`.
unfoldable pub get_pt_entry : PageTable → ℕ → Option Pte
get_pt_entry pt va = elim (pt (primary_index va)) [
  | none ↦ none
  | some dir ↦ some (dir (secondary_index va))
]

unfoldable pub write_pt_entry : PageTable → ℕ → Pte → PageTable
write_pt_entry pt va pte = elim (pt (primary_index va)) [
  | none ↦ pt
  | some dir ↦ update pt (primary_index va) (some (update dir (secondary_index va) pte))
]

-- INVALID_PADDR
abbrev pub invalid_paddr : ℕ
invalid_paddr = 0

unfoldable pub pa_of_entry : ℕ → Option Pte → ℕ
pa_of_entry va none = invalid_paddr
pa_of_entry va (some pte) =
    if not pte.present || not pte.exists
    then invalid_paddr
    else (pte_get_location pte * 4096 % 2 ^ 32 + address_offset va) % 2 ^ 32

unfoldable pub va_to_pa : PageTable → ℕ → ℕ
unfolding get_pt_entry pa_of_entry
va_to_pa pt va = pa_of_entry va (get_pt_entry pt va)

abbrev pub zero_pte : Pte
zero_pte = record { page_paddr_base = 0; permissions = 0; present = false; exists = false }

-- The first part of pt_insert: the secondary table of `va`, allocated and zeroed where it is NULL.
with_secondary : PageTable → ℕ → Bool → Return PageTable
with_secondary pt va got = elim (pt (primary_index va)) [
  | some dir ↦ ok pt
  | none ↦ if got then ok (update pt (primary_index va) (some (λ _. zero_pte))) else fail enomem
]

-- The second part: the entry must not exist, and is filled in.
fill_entry : PageTable → ℕ → ℕ → ℕ → Option Pte → Outcome PageTable
unfolding write_pt_entry
fill_entry pt va ppn permissions none = panic
fill_entry pt va ppn permissions (some pte) = do
  kassert (not pte.exists)
  done (
      write_pt_entry pt va (
        pte_set_exists true
          (pte_set_present true (pte_set_permissions permissions (pte_set_location ppn pte)))))

insert_into : Return PageTable → ℕ → ℕ → ℕ → Outcome (Return PageTable)
unfolding get_pt_entry fill_entry
insert_into (fail e) va ppn permissions = done (fail e)
insert_into (ok pt) va ppn permissions = do
  pt' ← fill_entry pt va ppn permissions (get_pt_entry pt va)
  done (ok pt')

-- The masked test of `ppn` is `ppn < 2^20`.
unfoldable pub pt_insert : PageTable → ℕ → ℕ → ℕ → Bool → Outcome (Return PageTable)
unfolding with_secondary insert_into
pt_insert pt va ppn permissions got = do
  kassert (ltb ppn (2 ^ 20))
  kassert (leb permissions 7)
  insert_into (with_secondary pt va got) va ppn permissions

-- pt_remove and pt_update return -1, here `none`, where there is no secondary table.
unfoldable pub pt_remove : PageTable → ℕ → Option PageTable
unfolding get_pt_entry write_pt_entry
pt_remove pt va = elim (get_pt_entry pt va) [
  | none ↦ none
  | some pte ↦ some (write_pt_entry pt va (pte_set_exists false pte))
]

unfoldable pub pt_update : PageTable → ℕ → ℕ → ℕ → Bool → Option PageTable
unfolding get_pt_entry write_pt_entry
pt_update pt va ppn permissions is_present = elim (get_pt_entry pt va) [
  | none ↦ none
  | some pte ↦ some (
      write_pt_entry pt va (
        pte_set_permissions permissions
          (pte_set_exists true (pte_set_present is_present (pte_set_location ppn pte)))))
]
