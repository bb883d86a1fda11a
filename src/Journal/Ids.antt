-- ===== src/Journal/Ids.antt =====
-- The greatest transaction id that the summary of the journal keeps, in kern/fs/sfs/sfs_vnode.c.
use petrel_os.Base.{ℕ, ◌-◌, ◌≤◌, ◌<◌, ◌≡◌, refl, ◌∙◌, inl, inr, false, arith, ltb, lt→ltb, lt-cases}
use petrel_os.Journal.{Journal}
use petrel_os.Journal.Flush.{Flushed}
use petrel_os.Journal.Log.{IsLog}

-- The summary's greatest id bounds the ids of the records that it counts.
abbrev pub IsBounded : Journal → Type 0
IsBounded j = (k : ℕ) → k < j.num_entries → (j.slots k).transaction_id ≤ j.max_id

-- A flush keeps the ids of the records in the journal within the greatest id of its summary, so that
-- the bitmap that recovery makes has a bit for each of them.
Flushed-IsBounded : (j j' : Journal) → IsLog j → IsBounded j → Flushed j j' → IsBounded j'
Flushed-IsBounded j j' l bounded f k below = elim (lt-cases k j.journal_offset) [
  | inl old ↦
      let same : j'.slots k ≡ j.slots k =
        f.holds k (omega (arith, below, f.entries)) ∙ rw (lt→ltb k j.journal_offset old) refl in
      rw same (omega (arith, bounded k (omega (arith, old, l.entries)), f.grows))
  | inr new ↦
      let past : ltb k j.journal_offset ≡ false = ground arith in
      let same : j'.slots k ≡ j.log_buf (k - j.journal_offset) =
        f.holds k (omega (arith, below, f.entries)) ∙ rw past refl in
      rw same (f.bounds (k - j.journal_offset) (omega (arith, below, new, f.entries, f.offset)))
]
