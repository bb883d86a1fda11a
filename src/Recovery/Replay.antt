-- ===== src/Recovery/Replay.antt =====
-- The two passes of recover, in kern/fs/sfs/sfs_fs.c, against the list of the records.
use petrel_os.Base.{
  ℕ, ◌+◌, ◌%◌, ◌^◌, ◌≤◌, ◌<◌, ◌≡◌, refl, ap, ◌∙◌, inl, inr, Bool, true, false, not, ◌&&◌, ◌||◌,
  List, [], ◌∷◌, arith, ◌==◌, if◌then◌else◌, Bool-cases, ==-cases, Outcome, done, ◌>>=◌,
}
use petrel_os.Bitmap.{Bitmap, isset, mark}
use petrel_os.Bitmap.Valid.{IsValid, is_marked}
use petrel_os.Bitmap.Create.{create-IsFresh}
use petrel_os.Bitmap.Marks.{mark_lem, isset-iff-marked}
use petrel_os.Journal.{Record, Device, Journal}
use petrel_os.Journal.Blocks.{IsWorking}
use petrel_os.Volume.{Volume, Ambient, apply_record}
use petrel_os.Recovery.{
  if_set, is_commit, first_pass, fs_journal_iterator, sfs_mapio, RecoverMemory, cleared_summary,
  recover, created,
}
use petrel_os.Recovery.Passes.{run, visited, journal_iterator-run, bind-ap}

-- Is there a commit record of the transaction `id`?
unfoldable pub is_committed : List Record → ℕ → Bool
is_committed [] id = false
is_committed (r ∷ rs) id = (is_commit r.changed && (r.transaction_id == id)) || is_committed rs id

-- The records whose transaction is committed by some record of `all`, in their order.
unfoldable pub committed_of : List Record → List Record → List Record
committed_of all [] = []
committed_of all (r ∷ rs) =
    let rest = committed_of all rs in if is_committed all r.transaction_id then r ∷ rest else rest

-- No record has an id over `most`.
unfoldable pub AllWithin : ℕ → List Record → Type 0
AllWithin most [] = Unit {0}
AllWithin most (r ∷ rs) = (r.transaction_id ≤ most) × AllWithin most rs

-- What the first pass has noted.
record Noted (b c : Bitmap) (rs : List Record) : Type 0 where
  valid : IsValid c
  same_size : c.nbits ≡ b.nbits
  notes : (id : ℕ) → is_marked c id ≡ (is_marked b id || is_committed rs id)

isset-eq : (b : Bitmap) (id : ℕ) → (isset b id == 0) ≡ not (is_marked b id)
isset-eq b id = elim (==-cases (isset b id) 0) [
  | inl unset ↦ elim (Bool-cases (is_marked b id)) [
    | inl marked ↦ let (_, back) = isset-iff-marked b id in absurd (back marked unset)
    | inr clear ↦ ground arith
  ]
  | inr there ↦ let (forth, _) = isset-iff-marked b id in ground (arith, forth there)
]

first_pass-new :
    (r : Record) (b : Bitmap)
    → IsValid b
    → r.transaction_id < b.nbits
    → is_commit r.changed ≡ true
    → is_marked b r.transaction_id ≡ false
    → (c : Bitmap) × (mark b r.transaction_id ≡ done c) × Noted b c (r ∷ [])
unfolding is_committed
first_pass-new r b valid inside commits clear = elim (mark_lem r.transaction_id valid) [
  | inl (_, inl outside) ↦ absurd (omega (arith, inside, outside))
  | inl (_, inr marked) ↦ absurd (ground (arith, marked, clear))
  | inr (c, e, _, _, m) ↦ (
    c,
    e,
    record {
      valid = m.valid;
      same_size = m.same_size;
      notes = λ id. m.added id ∙ ground (arith, commits);
    },
  )
]

first_pass-Noted :
    (r : Record) (b : Bitmap)
    → IsValid b
    → r.transaction_id < b.nbits
    → (c : Bitmap) × (first_pass r b ≡ done c) × Noted b c (r ∷ [])
unfolding first_pass is_committed
first_pass-Noted r b valid inside = elim (Bool-cases (is_commit r.changed)) [
  | inr change ↦ (
    b,
    ground (arith, change),
    record { valid = valid; same_size = refl; notes = λ id. ground (arith, change) },
  )
  | inl commits ↦ elim (Bool-cases (is_marked b r.transaction_id)) [
    | inl marked ↦ (
      b,
      ground (arith, commits, isset-eq b r.transaction_id, marked),
      record { valid = valid; same_size = refl; notes = λ id. ground (arith, commits, marked) },
    )
    | inr clear ↦
        let (c, e, n) = first_pass-new r b valid inside commits clear in
        (c, ground (arith, commits, isset-eq b r.transaction_id, clear, e), n)
  ]
]

run-Noted :
    (rs : List Record) (b : Bitmap) (most : ℕ)
    → IsValid b
    → most < b.nbits
    → AllWithin most rs
    → (c : Bitmap) × (run first_pass rs b ≡ done c) × Noted b c rs
unfolding run AllWithin is_committed
run-Noted [] b most valid inside small =
    (b, refl, record { valid = valid; same_size = refl; notes = λ id. ground arith })
run-Noted (r ∷ rs) b most valid inside (small, smalls) =
    let (c, e, n) = first_pass-Noted r b valid (omega (arith, small)) in
    let (c', e', n') = run-Noted rs c most n.valid (omega (arith, n.same_size)) smalls in
    (
      c',
      ap (λ m. m >>= run first_pass rs) e ∙ e',
      record {
        valid = n'.valid;
        same_size = n'.same_size ∙ n.same_size;
        notes = λ id. ground (arith, n.notes id, n'.notes id);
      },
    )

-- The second pass takes the records of committed transactions.
run-if_set :
    (f : Record → Volume → Outcome Volume) (all rs : List Record) (b : Bitmap) (most : ℕ)
    (s : Volume)
    → ((id : ℕ) → id ≤ most → is_marked b id ≡ is_committed all id)
    → AllWithin most rs
    → run (if_set b f) rs s ≡ run f (committed_of all rs) s
unfolding run committed_of AllWithin
run-if_set f all [] b most s notes within = refl
run-if_set f all (r ∷ rs) b most s notes (small, smalls) =
    elim (Bool-cases (is_committed all r.transaction_id)) [
      | inl commits ↦
          let test : (isset b r.transaction_id == 0) ≡ false =
            isset-eq b r.transaction_id ∙ ap not (notes r.transaction_id small ∙ commits) in
          rw (test, commits)
            (bind-ap (f r s) _ _ (λ s'. run-if_set f all rs b most s' notes smalls))
      | inr lost ↦
          let test : (isset b r.transaction_id == 0) ≡ true =
            isset-eq b r.transaction_id ∙ ap not (notes r.transaction_id small ∙ lost) in
          rw (test, lost) (run-if_set f all rs b most s notes smalls)
    ]

-- The memory of every kmalloc that recover calls.
abbrev pub all_memory : RecoverMemory
all_memory = record {
  got_s = true;
  got_b = true;
  got_v = true;
  got_r1 = true;
  got_s1 = true;
  got_r2 = true;
  got_s2 = true;
}

-- recover, where the device answers, kmalloc gives, and no record that the iterators visit has an id
-- over the summary's greatest: it comes to applying, in the order of the journal, exactly the records
-- whose transaction has a commit record among those visited, then writing the free block bitmap and
-- emptying the journal's summary. It stops the kernel exactly where one of those records does.
pub recover-run :
    {d : Device}
    → IsWorking d
    → (a : Ambient) (v : Volume) (j : Journal) → j.max_id + 8 < 2 ^ 32
    → AllWithin j.max_id (visited j)
    → recover d all_memory a v j ≡ (
        run (λ r w. apply_record a w r) (committed_of (visited j) (visited j)) v >>= λ w.
        done (sfs_mapio w, cleared_summary d j))
unfolding recover created fs_journal_iterator
recover-run {d} ok_device a v j small within =
    let size : (j.max_id + 1) % 2 ^ 32 ≡ j.max_id + 1 = omega (arith, small) in
    let (b, e, fresh) = create-IsFresh (j.max_id + 1) (omega (arith, small)) in
    let (c, e', n) =
      run-Noted (visited j) b j.max_id fresh.valid (omega (arith, fresh.size)) within in
    let notes : (id : ℕ) → id ≤ j.max_id → is_marked c id ≡ is_committed (visited j) id = λ id few.
      n.notes id
      ∙ ap (λ x. x || is_committed (visited j) id) (fresh.empty id (omega (arith, few))) in
    let apply : Record → Volume → Outcome Volume = λ r w. apply_record a w r in
    simp (ok_device.reading_summary, size)
      (rw
        (
          e,
          journal_iterator-run first_pass ok_device j b,
          e',
          journal_iterator-run (if_set c apply) ok_device j v,
          run-if_set apply (visited j) (visited j) c j.max_id v notes within,
        )
        refl)
