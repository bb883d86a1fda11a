-- ===== src/PageTable/Translate.antt =====
-- What the page table operations do to the translation of every address.
use petrel_os.Base.{
  ℕ, ◌+◌, ◌*◌, ◌/◌, ◌^◌, ◌≤◌, ◌<◌, ◌≡◌, sym, ◌∙◌, subst, ◌⊎◌, inl, inr, Bool, true, false, ◌&&◌,
  ◌||◌, Option, none, some, arith, ◌==◌, if◌then◌else◌, ==_refl, lt→ltb, le→leb, Bool-cases,
  Option-cases, update, Outcome, done, panic, enomem, Return, ok, fail,
}
use petrel_os.PageTable.{
  Pte, PageTable, primary_index, secondary_index, address_offset, get_pt_entry, write_pt_entry,
  va_to_pa, pa_of_entry, with_secondary, fill_entry, insert_into, pt_insert, pt_remove, pt_update,
  zero_pte, invalid_paddr, pte_set_location, pte_set_permissions, pte_set_present, pte_set_exists,
}

-- Two addresses lie in one page.
abbrev pub same_page : ℕ → ℕ → Bool
same_page va va' = va / 4096 == va' / 4096

-- The two indices determine the page, and the page the indices.
page_indices :
    (va va' : ℕ)
    → same_page va va'
      ≡ (primary_index va == primary_index va' && secondary_index va == secondary_index va')
page_indices va va' = ground arith

-- A write through the entry of `va` is read back at the addresses of that page, and only there.
pub get_pt_entry-write :
    (pt : PageTable) (va va' : ℕ) (pte old : Pte)
    → get_pt_entry pt va ≡ some old
    → get_pt_entry (write_pt_entry pt va pte) va'
      ≡ (if same_page va va' then some pte else get_pt_entry pt va')
unfolding get_pt_entry write_pt_entry
get_pt_entry-write pt va va' pte old e = ground (arith, page_indices va va')

-- Is there an existing entry for the address?
exists_in : Option Pte → Bool
exists_in none = false
exists_in (some pte) = pte.exists

pub is_mapped : PageTable → ℕ → Bool
unfolding exists_in
is_mapped pt va = exists_in (get_pt_entry pt va)

pub has_secondary : PageTable → ℕ → Bool
has_secondary pt va = elim (pt (primary_index va)) [ none ↦ false | some dir ↦ true ]

-- The secondary table that pt_insert allocates holds no entry that exists.
with_secondary-keeps :
    (pt pt' : PageTable) (va : ℕ) (got : Bool)
    → with_secondary pt va got ≡ ok pt'
    → (has_secondary pt' va ≡ true)
      × ((va' : ℕ) → va_to_pa pt' va' ≡ va_to_pa pt va')
      × ((va' : ℕ) → is_mapped pt' va' ≡ is_mapped pt va')
unfolding with_secondary va_to_pa is_mapped has_secondary
with_secondary-keeps pt pt' va got e = (ground arith, λ va'. ground arith, λ va'. ground arith)

entry_of_secondary :
    (pt : PageTable) (va : ℕ)
    → has_secondary pt va ≡ true
    → (pte : Pte) × (get_pt_entry pt va ≡ some pte)
unfolding has_secondary get_pt_entry
entry_of_secondary pt va h = elim (Option-cases (pt (primary_index va))) [
  | inl e ↦ absurd (ground arith)
  | inr (dir, e) ↦ (dir (secondary_index va), rw (e, get_pt_entry))
]

-- An address whose page is that of `ppn`.
abbrev pub in_frame : ℕ → ℕ → ℕ
in_frame ppn va = ppn * 4096 + address_offset va

filled_pa :
    (va' ppn permissions : ℕ) (pte : Pte)
    → ppn < 2 ^ 20
    → pa_of_entry va' (
        some (
          pte_set_exists true
            (pte_set_present true (pte_set_permissions permissions (pte_set_location ppn pte)))))
      ≡ in_frame ppn va'
unfolding pa_of_entry
filled_pa va' ppn permissions pte h = ground arith

-- What a successful pt_insert does.
pub record Inserted (pt pt' : PageTable) (va ppn : ℕ) : Type 0 where
  pub translates :
      (va' : ℕ)
      → va_to_pa pt' va' ≡ (if same_page va va' then in_frame ppn va' else va_to_pa pt va')
  pub maps : (va' : ℕ) → is_mapped pt' va' ≡ (if same_page va va' then true else is_mapped pt va')

write-Inserted :
    (pt : PageTable) (va ppn permissions : ℕ) (pte : Pte)
    → get_pt_entry pt va ≡ some pte
    → ppn < 2 ^ 20
    → Inserted pt
        (write_pt_entry pt va (
          pte_set_exists true
            (pte_set_present true (pte_set_permissions permissions (pte_set_location ppn pte)))))
        va
        ppn
unfolding va_to_pa is_mapped
write-Inserted pt va ppn permissions pte e h = record {
  translates = λ va'.
      let new : Pte =
        pte_set_exists true
          (pte_set_present true (pte_set_permissions permissions (pte_set_location ppn pte))) in
      ground (arith, get_pt_entry-write pt va va' new pte e, filled_pa va' ppn permissions pte h);
  maps = λ va'.
      let new : Pte =
        pte_set_exists true
          (pte_set_present true (pte_set_permissions permissions (pte_set_location ppn pte))) in
      ground (arith, get_pt_entry-write pt va va' new pte e);
}

pub data PtInsert (pt : PageTable) (va ppn : ℕ) (got : Bool)
    : Outcome (Return PageTable) → Type 0 where
  exists : is_mapped pt va ≡ true → PtInsert pt va ppn got panic
  no_memory :
      has_secondary pt va ≡ false → got ≡ false → PtInsert pt va ppn got (done (fail enomem))
  inserted :
      (pt' : PageTable)
      → is_mapped pt va ≡ false
      → (has_secondary pt va || got) ≡ true
      → Inserted pt pt' va ppn
      → PtInsert pt va ppn got (done (ok pt'))

fill_entry-cases :
    (pt : PageTable) (va ppn permissions : ℕ)
    → has_secondary pt va ≡ true
    → ppn < 2 ^ 20
    → ((is_mapped pt va ≡ true) × (fill_entry pt va ppn permissions (get_pt_entry pt va) ≡ panic))
      ⊎ ((pt' : PageTable) × (is_mapped pt va ≡ false)
          × (fill_entry pt va ppn permissions (get_pt_entry pt va) ≡ done pt')
          × Inserted pt pt' va ppn)
unfolding fill_entry is_mapped
fill_entry-cases pt va ppn permissions h small =
    let (pte, e) = entry_of_secondary pt va h in
    elim (Bool-cases pte.exists) [
      | inl there ↦ inl (ground arith, ground arith)
      | inr absent ↦ inr (
        write_pt_entry pt va (
            pte_set_exists true
              (pte_set_present true (pte_set_permissions permissions (pte_set_location ppn pte)))),
        ground arith,
        ground arith,
        write-Inserted pt va ppn permissions pte e small,
      )
    ]

insert_into-PtInsert :
    (pt mid : PageTable) (va ppn permissions : ℕ) (got : Bool)
    → ppn < 2 ^ 20
    → (has_secondary pt va || got) ≡ true
    → with_secondary pt va got ≡ ok mid
    → PtInsert pt va ppn got (insert_into (ok mid) va ppn permissions)
unfolding insert_into
insert_into-PtInsert pt mid va ppn permissions got small given e =
    let (has, same, maps) = with_secondary-keeps pt mid va got e in
    elim (fill_entry-cases mid va ppn permissions has small) [
      | inl (there, stop) ↦ rw stop (exists (sym (maps va) ∙ there))
      | inr (pt', absent, fills, ins) ↦ rw fills (
          inserted pt' (sym (maps va) ∙ absent) given (record {
            translates = λ va'. ins.translates va' ∙ rw (same va');
            maps = λ va'. ins.maps va' ∙ rw (maps va');
          }))
    ]

secondary-cases :
    (pt : PageTable) (va : ℕ) (got : Bool)
    → ((has_secondary pt va ≡ false) × (got ≡ false) × (with_secondary pt va got ≡ fail enomem))
      ⊎ ((mid : PageTable) × ((has_secondary pt va || got) ≡ true)
          × (with_secondary pt va got ≡ ok mid))
unfolding has_secondary with_secondary
secondary-cases pt va got = elim (Option-cases (pt (primary_index va))) [
  | inr (dir, e) ↦ inr (pt, ground arith, ground arith)
  | inl e ↦ elim (Bool-cases got) [
    | inl yes_got ↦
        inr (update pt (primary_index va) (some (λ _. zero_pte)), ground arith, ground arith)
    | inr no_got ↦ inl (ground arith, no_got, ground arith)
  ]
]

-- pt_insert at a page number of 20 bits and permissions up to 7: it panics exactly where an entry
-- for the address exists; it returns ENOMEM exactly where the secondary table has to be allocated
-- and cannot be; otherwise the address's page, and no other, is translated anew, to the given page.
pub pt_insert-PtInsert :
    (pt : PageTable) (va ppn permissions : ℕ) (got : Bool)
    → ppn < 2 ^ 20
    → permissions ≤ 7
    → PtInsert pt va ppn got (pt_insert pt va ppn permissions got)
unfolding pt_insert
pt_insert-PtInsert pt va ppn permissions got small few =
    rw (lt→ltb ppn (2 ^ 20) small, le→leb permissions 7 few)
      (elim (secondary-cases pt va got) [
        | inl (lacks, refused, e) ↦ rw e (unfold insert_into in no_memory lacks refused)
        | inr (mid, given, e) ↦
            rw e (insert_into-PtInsert pt mid va ppn permissions got small given e)
      ])

-- What pt_remove does: the page is unmapped and has no translation, and no other is touched.
pub record Removed (pt pt' : PageTable) (va : ℕ) : Type 0 where
  pub translates :
      (va' : ℕ) → va_to_pa pt' va' ≡ (if same_page va va' then invalid_paddr else va_to_pa pt va')
  pub maps : (va' : ℕ) → is_mapped pt' va' ≡ (if same_page va va' then false else is_mapped pt va')

-- pt_remove fails exactly where there is no secondary table for the address.
pt_remove-Removed :
    (pt : PageTable) (va : ℕ)
    → ((has_secondary pt va ≡ false) × (pt_remove pt va ≡ none))
      ⊎ ((pt' : PageTable) × (has_secondary pt va ≡ true)
          × (pt_remove pt va ≡ some pt')
          × Removed pt pt' va)
unfolding pt_remove va_to_pa is_mapped pa_of_entry
pt_remove-Removed pt va = elim (Bool-cases (has_secondary pt va)) [
  | inr lacks ↦ inl (lacks, unfold has_secondary in ground arith)
  | inl has ↦
      let (pte, e) = entry_of_secondary pt va has in
      let gone : Pte = pte_set_exists false pte in
      inr (
        write_pt_entry pt va gone,
        has,
        ground arith,
        record {
          translates = λ va'. ground (arith, get_pt_entry-write pt va va' gone pte e);
          maps = λ va'. ground (arith, get_pt_entry-write pt va va' gone pte e);
        },
      )
]

mapped-has_secondary :
    (pt : PageTable) (va : ℕ) → is_mapped pt va ≡ true → has_secondary pt va ≡ true
unfolding is_mapped has_secondary get_pt_entry
mapped-has_secondary pt va h = ground arith

Inserted-write :
    {pt : PageTable} {va ppn : ℕ} {got : Bool} {r : Outcome (Return PageTable)} (pt' : PageTable)
    → PtInsert pt va ppn got r
    → r ≡ done (ok pt')
    → Inserted pt pt' va ppn
Inserted-write pt' (exists h) e = absurd (ground arith)
Inserted-write pt' (no_memory h g) e = absurd (ground arith)
Inserted-write {pt} {va} {ppn} pt' (inserted pt'' h _ ins) e =
    subst (λ t. Inserted pt t va ppn) (ground arith) ins

-- pt_remove undoes pt_insert: after a pt_insert that succeeds it succeeds too, and then the page is
-- unmapped and has no translation, and every other address is translated as before the insertion.
pub pt_remove-pt_insert :
    (pt pt' : PageTable) (va ppn permissions : ℕ) (got : Bool)
    → ppn < 2 ^ 20
    → permissions ≤ 7
    → pt_insert pt va ppn permissions got ≡ done (ok pt')
    → (pt'' : PageTable) × (pt_remove pt' va ≡ some pt'')
      × ((va' : ℕ)
          → va_to_pa pt'' va' ≡ (if same_page va va' then invalid_paddr else va_to_pa pt va'))
      × (is_mapped pt'' va ≡ false)
pt_remove-pt_insert pt pt' va ppn permissions got small few e =
    let ins = Inserted-write pt' (pt_insert-PtInsert pt va ppn permissions got small few) e in
    let has = mapped-has_secondary pt' va (ins.maps va ∙ rw (==_refl (va / 4096))) in
    elim (pt_remove-Removed pt' va) [
      | inl (lacks, _) ↦ absurd (ground arith)
      | inr (pt'', _, removes, gone) ↦ (
        pt'',
        removes,
        λ va'. ground (arith, gone.translates va', ins.translates va'),
        gone.maps va ∙ rw (==_refl (va / 4096)),
      )
    ]

-- pt_update, where the secondary table exists, makes the page present at the new location or marks
-- it as swapped out (it then has no translation); no other address is touched. It fails only where
-- there is no secondary table.
pt_update_lem :
    (pt : PageTable) (va ppn permissions : ℕ) (is_present : Bool)
    → ppn < 2 ^ 20
    → ((has_secondary pt va ≡ false) × (pt_update pt va ppn permissions is_present ≡ none))
      ⊎ ((pt' : PageTable) × (has_secondary pt va ≡ true)
          × (pt_update pt va ppn permissions is_present ≡ some pt')
          × (is_mapped pt' va ≡ true)
          × ((va' : ℕ)
              → va_to_pa pt' va' ≡ (
                  if same_page va va'
                  then (if is_present then in_frame ppn va' else invalid_paddr)
                  else va_to_pa pt va')))
unfolding pt_update va_to_pa is_mapped pa_of_entry
pt_update_lem pt va ppn permissions is_present small = elim (Bool-cases (has_secondary pt va)) [
  | inr lacks ↦ inl (lacks, unfold has_secondary in ground arith)
  | inl has ↦
      let (pte, e) = entry_of_secondary pt va has in
      let new : Pte =
        pte_set_permissions permissions
          (pte_set_exists true (pte_set_present is_present (pte_set_location ppn pte))) in
      inr (
        write_pt_entry pt va new,
        has,
        ground arith,
        ground (arith, get_pt_entry-write pt va va new pte e),
        λ va'. ground (arith, get_pt_entry-write pt va va' new pte e),
      )
]
