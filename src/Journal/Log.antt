-- ===== src/Journal/Log.antt =====
-- The journal and the log buffer of kern/fs/sfs/sfs_vnode.c as one list of records.
use petrel_os.Base.{
  suc, ◌+◌, ◌≤◌, ◌<◌, ◌≡◌, refl, ap, ◌∙◌, inl, inr, true, false, List, [], ◌∷◌, ◌++◌, arith, ◌==◌,
  ==-cases, update, Outcome, done, panic, ◌>>=◌, ◌>>◌, kassert,
}
use petrel_os.Journal.{Record, Device, Journal, buf_records, max_jn_entries}
use petrel_os.Base.Windows.{window, window-ap, window-suc}
use petrel_os.Journal.Blocks.{IsWorking, merged}
use petrel_os.Journal.Flush.{Flushed, FlushResult, full, flushed, flush_log_buf-FlushResult}
use petrel_os.Journal.Transactions.{log_record}

-- The log: the records in the journal, then those in the log buffer.
abbrev pub logged : Journal → List Record
logged j = window (merged j) 0 (j.journal_offset + j.log_buf_offset)

-- The records in the journal alone, as the summary counts them.
abbrev pub on_disk : Journal → List Record
on_disk j = window j.slots 0 j.num_entries

-- The state between two calls: the log buffer is within its bounds, and the summary counts what the
-- journal holds.
pub record IsLog (j : Journal) : Type 0 where
  pub fits_buffer : j.log_buf_offset ≤ buf_records
  pub fits_journal : j.journal_offset ≤ max_jn_entries
  pub entries : j.num_entries ≡ j.journal_offset

-- Nothing of the log is lost or reordered by a flush, and it is all on disk.
pub Flushed-logged :
    (j j' : Journal) → Flushed j j' → (logged j' ≡ logged j) × (on_disk j' ≡ logged j)
Flushed-logged j j' f =
    let size : j'.journal_offset + j'.log_buf_offset ≡ j.journal_offset + j.log_buf_offset =
      omega (arith, f.offset, f.empties) in
    let count : j'.num_entries ≡ j.journal_offset + j.log_buf_offset =
      omega (arith, f.offset, f.entries) in
    (
      ap (window (merged j') 0) size
          ∙ window-ap (merged j') (merged j) 0 _ (λ k below. ground (arith, f.holds k, f.offset)),
      ap (window j'.slots 0) count
          ∙ window-ap j'.slots (merged j) 0 _ (λ k below. f.holds k (omega (arith, f.offset))),
    )

-- What `record` does with the log.
pub record Recorded (j j' : Journal) (r : Record) : Type 0 where
  pub appends : logged j' ≡ logged j ++ (r ∷ [])
  pub keeps : IsLog j'
  pub size : j'.journal_offset + j'.log_buf_offset ≡ j.journal_offset + j.log_buf_offset + 1
  pub transactions :
      (j'.next_transaction_id ≡ j.next_transaction_id)
      × (j'.num_active_transactions ≡ j.num_active_transactions)
      × (j'.in_checkpoint ≡ j.in_checkpoint)
      × (j'.refs ≡ j.refs)

abbrev appended : Record → Journal → Journal
appended r j = record j {
  log_buf = update j.log_buf j.log_buf_offset r;
  log_buf_offset = j.log_buf_offset + 1;
}

appended-Recorded :
    (r : Record) (j : Journal)
    → IsLog j
    → j.log_buf_offset < buf_records
    → Recorded j (appended r j) r
appended-Recorded r j l room = record {
  appends =
      let more : j.journal_offset + (j.log_buf_offset + 1)
          ≡ suc (j.journal_offset + j.log_buf_offset) =
        omega arith in
      ap (window (merged (appended r j)) 0) more
      ∙ window-suc (merged (appended r j)) 0 (j.journal_offset + j.log_buf_offset)
      ∙ (let before : window (merged (appended r j)) 0 (j.journal_offset + j.log_buf_offset)
              ≡ window (merged j) 0 (j.journal_offset + j.log_buf_offset) =
            window-ap _ _ 0 _ (λ k below. ground arith) in
          let last : merged (appended r j) (0 + (j.journal_offset + j.log_buf_offset)) ≡ r =
            ground arith in
          rw (before, last));
  keeps = record { fits_buffer = omega arith; fits_journal = l.fits_journal; entries = l.entries };
  size = omega arith;
  transactions = (refl, refl, refl, refl);
}

pub data RecordResult (j : Journal) (r : Record) : Outcome Journal → Type 0 where
  stops : max_jn_entries < j.journal_offset + j.log_buf_offset → RecordResult j r panic
  recorded : (j' : Journal) → Recorded j j' r → RecordResult j r (done j')

Flushed-appended :
    {j j' : Journal} (r : Record)
    → IsLog j
    → j.journal_offset + j.log_buf_offset ≤ max_jn_entries
    → Flushed j j'
    → Recorded j (appended r j') r
Flushed-appended {j} {j'} r l fits f =
    let kept : IsLog j' = record {
      fits_buffer = omega (arith, f.empties);
      fits_journal = omega (arith, f.offset);
      entries = f.entries;
    } in
    let added = appended-Recorded r j' kept (omega (arith, f.empties)) in
    let (same, _) = Flushed-logged j j' f in
    record {
      appends = added.appends ∙ ap (◌++ (r ∷ [])) same;
      keeps = added.keeps;
      size = omega (arith, added.size, f.offset, f.empties);
      transactions = f.transactions;
    }

FlushResult-appended :
    {j : Journal} {m : Outcome Journal} (r : Record)
    → IsLog j
    → FlushResult j m
    → RecordResult j r (
        (m >>= λ after. kassert (after.log_buf_offset == 0) >> done after) >>= λ now.
        done (appended r now))
FlushResult-appended r l (full over) = stops over
FlushResult-appended r l (flushed j' fits f) =
    let test : (j'.log_buf_offset == 0) ≡ true = ground (arith, f.empties) in
    rw test (recorded _ (Flushed-appended r l fits f))

-- `record`, where the device answers and kmalloc gives, puts the record at the end of the log and
-- changes nothing else of it; it stops the kernel only where it has to write out a full log buffer
-- and the journal has no room for it.
pub log_record-RecordResult :
    {d : Device}
    → IsWorking d
    → (r : Record) (j : Journal) → IsLog j
    → RecordResult j r (log_record d true true r j)
unfolding log_record
log_record-RecordResult {d} ok_device r j l = elim (==-cases j.log_buf_offset 128) [
  | inl whole ↦
      let test : (j.log_buf_offset == 128) ≡ true = ground arith in
      rw test (FlushResult-appended r l (flush_log_buf-FlushResult ok_device j))
  | inr room ↦
      let test : (j.log_buf_offset == 128) ≡ false = ground arith in
      rw test (recorded _ (appended-Recorded r j l (omega (arith, l.fits_buffer, room))))
]
