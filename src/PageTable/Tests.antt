-- ===== src/PageTable/Tests.antt =====
-- One page mapped at the virtual address 0x400000, and read at 0x400010.
use petrel_os.Base.{ℕ, ◌≡◌, refl, true, false, none, some, arith, if◌then◌else◌, update, done, ok}
use petrel_os.PageTable.{
  with_secondary, insert_into, fill_entry, pa_of_entry, Pte, PageTable, zero_pte, get_pt_entry,
  write_pt_entry, va_to_pa, pt_insert, pt_remove, invalid_paddr,
}
use petrel_os.PageTable.Translate.{
  same_page, is_mapped, PtInsert, pt_insert-PtInsert, pt_remove-pt_insert,
}

abbrev page_at : ℕ
page_at = 4194304

abbrev empty : PageTable
empty = λ _. none

-- The page is in the frame 5.
abbrev entry : Pte
entry = record { page_paddr_base = 5; permissions = 3; present = true; exists = true }

abbrev one_page : PageTable
one_page = update (update empty 1 (some (λ _. zero_pte))) 1 (some (update (λ _. zero_pte) 0 entry))

inserted : pt_insert empty page_at 5 3 true ≡ done (ok one_page)
unfolding pt_insert get_pt_entry write_pt_entry with_secondary insert_into fill_entry
inserted = refl

translated : va_to_pa one_page 4194320 ≡ 20496
unfolding va_to_pa get_pt_entry pa_of_entry
translated = refl

pt_insert-PtInsert_example : PtInsert empty page_at 5 true (pt_insert empty page_at 5 3 true)
pt_insert-PtInsert_example = pt_insert-PtInsert empty page_at 5 3 true (omega arith) (omega arith)

pt_remove-pt_insert_example :
    (pt'' : PageTable) × (pt_remove one_page page_at ≡ some pt'')
    × ((va' : ℕ)
        → va_to_pa pt'' va' ≡ (if same_page page_at va' then invalid_paddr else va_to_pa empty va'))
    × (is_mapped pt'' page_at ≡ false)
pt_remove-pt_insert_example =
    pt_remove-pt_insert empty one_page page_at 5 3 true (omega arith) (omega arith) inserted
