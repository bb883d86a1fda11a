-- ===== src/Journal/Flush.antt =====
-- flush_log_buf of kern/fs/sfs/sfs_vnode.c as a whole, with the journal's summary.
use petrel_os.Base.{
  ℕ, zero, suc, ◌+◌, ◌≤◌, ◌<◌, ◌≡◌, refl, ap, ◌⊎◌, inl, inr, true, false, arith, ltb, leb, ◌==◌,
  if◌then◌else◌, ==_refl, lt→ltb, le→leb, lt-cases, ==-cases, Outcome, done, panic, ◌>>=◌, ◌>>◌,
  kassert,
}
use petrel_os.Journal.{
  Record, Device, Journal, full_blocks, last_block, greatest_id, flush_records, update_summary,
  flush_log_buf, max_jn_entries,
}
use petrel_os.Journal.Blocks.{
  IsWorking, merged, at_offset, Written, Wrote, wrote, Ended, ended, full_blocks-Ended,
  last_block-done, partial-Wrote,
}

abbrev finish : Device → Journal → ℕ × Journal → Outcome (ℕ × Journal)
finish d j blocks = do
  (i, after_all) ← last_block d blocks
  kassert (i == after_all.log_buf_offset)
  done (greatest_id j.log_buf j.log_buf_offset, record after_all { log_buf_offset = 0 })

-- What the steps after a step of flush_log_buf come to.
abbrev Finished : Journal → Outcome (ℕ × Journal) → Type 0
Finished j m =
    (o : ℕ) × (s : ℕ → Record) × Written j j.log_buf_offset o s
    × (m
        ≡ done (
          greatest_id j.log_buf j.log_buf_offset,
          record (at_offset j o s) { log_buf_offset = 0 },
        ))

Ended-finish :
    {d : Device}
    → IsWorking d
    → {j : Journal} {m : Outcome (ℕ × Journal)} → Ended j m
    → Finished j (m >>= finish d j)
Ended-finish ok_device {j} (ended i o s w few) =
    let (o', s', w', e) = last_block-done ok_device w few in
    (o', s', w', rw (e, ==_refl j.log_buf_offset))

Wrote-finish :
    {d : Device}
    → IsWorking d
    → {j : Journal} {m : Outcome (ℕ × Journal)} → Wrote j m
    → Finished j (m >>= λ start. full_blocks (suc j.log_buf_offset) d start >>= finish d j)
Wrote-finish ok_device {j} (wrote i o s w) =
    Ended-finish ok_device (full_blocks-Ended ok_device (suc j.log_buf_offset) w (omega arith))

-- With records in the log buffer, flush_log_buf writes them all.
flush_records-Finished : {d : Device} → IsWorking d → (j : Journal) → Finished j (flush_records d j)
unfolding flush_records
flush_records-Finished ok_device j = Wrote-finish ok_device (partial-Wrote ok_device j)

greatest_id-bounds :
    (buffer : ℕ → Record) (n k : ℕ) → k < n → (buffer k).transaction_id ≤ greatest_id buffer n
unfolding greatest_id
greatest_id-bounds buffer zero k below = absurd (omega arith)
greatest_id-bounds buffer (suc n) k below = elim (==-cases k n) [
  | inl last ↦ ground (arith, ap (λ x. (buffer x).transaction_id) last)
  | inr before ↦ ground (arith, greatest_id-bounds buffer n k (omega (arith, below, before)))
]

greatest_id-attained :
    (buffer : ℕ → Record) (n : ℕ)
    → (greatest_id buffer n ≡ 0)
      ⊎ ((k : ℕ) × (k < n) × ((buffer k).transaction_id ≡ greatest_id buffer n))
unfolding greatest_id
greatest_id-attained buffer zero = inl refl
greatest_id-attained buffer (suc n) =
    elim (lt-cases (greatest_id buffer n) (buffer n).transaction_id) [
      | inl more ↦ rw (lt→ltb _ _ more) (inr (n, omega arith, refl))
      | inr less ↦
          let test : ltb (greatest_id buffer n) (buffer n).transaction_id ≡ false =
            ground (arith, less) in
          rw test (elim (greatest_id-attained buffer n) [
            | inl zero_id ↦ inl zero_id
            | inr (k, below, same) ↦ inr (k, omega (arith, below), same)
          ])
    ]

summary_attained :
    (old : ℕ) (buffer : ℕ → Record) (n : ℕ)
    → (let m = if ltb old (greatest_id buffer n) then greatest_id buffer n else old in
        (m ≡ old) ⊎ ((k : ℕ) × (k < n) × ((buffer k).transaction_id ≡ m)))
summary_attained old buffer n = elim (lt-cases old (greatest_id buffer n)) [
  | inr kept ↦
      let test : ltb old (greatest_id buffer n) ≡ false = ground (arith, kept) in rw test (inl refl)
  | inl more ↦ rw (lt→ltb _ _ more) (elim (greatest_id-attained buffer n) [
    | inl zero_id ↦ absurd (omega (arith, zero_id, more))
    | inr found ↦ inr found
  ])
]

-- What a flush does to the journal.
pub record Flushed (j j' : Journal) : Type 0 where
  pub offset : j'.journal_offset ≡ j.journal_offset + j.log_buf_offset
  pub empties : j'.log_buf_offset ≡ 0
  pub holds : (k : ℕ) → k < j'.journal_offset → j'.slots k ≡ merged j k
  pub entries : j'.num_entries ≡ j'.journal_offset
  pub grows : j.max_id ≤ j'.max_id
  pub bounds : (k : ℕ) → k < j.log_buf_offset → (j.log_buf k).transaction_id ≤ j'.max_id
  pub attained :
      (j'.max_id ≡ j.max_id)
      ⊎ ((k : ℕ) × (k < j.log_buf_offset) × ((j.log_buf k).transaction_id ≡ j'.max_id))
  pub transactions :
      (j'.next_transaction_id ≡ j.next_transaction_id)
      × (j'.num_active_transactions ≡ j.num_active_transactions)
      × (j'.in_checkpoint ≡ j.in_checkpoint)
      × (j'.refs ≡ j.refs)

update_summary-Flushed :
    {d : Device}
    → IsWorking d
    → (j : Journal) {o : ℕ} {s : ℕ → Record} → Written j j.log_buf_offset o s
    → Flushed j (
        update_summary d
          (greatest_id j.log_buf j.log_buf_offset)
          (record (at_offset j o s) { log_buf_offset = 0 }))
unfolding update_summary
update_summary-Flushed {d} ok_device j w =
    rw (ok_device.reading_summary, ok_device.writing_summary)
      (record {
        offset = w.offset;
        empties = refl;
        holds = w.holds;
        entries = refl;
        grows = ground arith;
        bounds = λ k below. ground (arith, greatest_id-bounds j.log_buf j.log_buf_offset k below);
        attained = summary_attained j.max_id j.log_buf j.log_buf_offset;
        transactions = (refl, refl, refl, refl);
      })

-- flush_log_buf without records in the log buffer.
update_summary-empty :
    {d : Device}
    → IsWorking d
    → (j : Journal) → j.log_buf_offset ≡ 0
    → Flushed j (update_summary d 0 j)
unfolding update_summary
update_summary-empty {d} ok_device j empty =
    rw (ok_device.reading_summary, ok_device.writing_summary)
      (record {
        offset = omega (arith, empty);
        empties = empty;
        holds = λ k below. ground arith;
        entries = refl;
        grows = ground arith;
        bounds = λ k below. absurd (omega (arith, below, empty));
        attained = inl (ground arith);
        transactions = (refl, refl, refl, refl);
      })

-- What flush_log_buf comes to: it stops where the journal is full.
pub data FlushResult (j : Journal) : Outcome Journal → Type 0 where
  full : max_jn_entries < j.journal_offset + j.log_buf_offset → FlushResult j panic
  flushed :
      (j' : Journal)
      → j.journal_offset + j.log_buf_offset ≤ max_jn_entries
      → Flushed j j'
      → FlushResult j (done j')

-- The assertion on the size of the journal, and the summary.
summarise-FlushResult :
    (j now : Journal) (j' : Journal)
    → now.journal_offset ≡ j.journal_offset + j.log_buf_offset
    → Flushed j j'
    → FlushResult j (kassert (leb now.journal_offset max_jn_entries) >> done j')
summarise-FlushResult j now j' e f = elim (lt-cases 3072 now.journal_offset) [
  | inl over ↦
      let test : leb now.journal_offset 3072 ≡ false = ground arith in
      rw test (full (omega (arith, e)))
  | inr fits ↦ rw (le→leb _ 3072 fits) (flushed j' (omega (arith, e)) f)
]

-- flush_log_buf, where the device answers and kmalloc gives: it stops the kernel exactly where the
-- journal would hold more than its 3072 records; otherwise it empties the log buffer and the journal
-- then holds, in order, what it held and after it the records of the log buffer; the summary counts
-- them all, and its greatest id is the least number that is not below its old one nor below the id of
-- any record flushed; no transaction is touched.
pub flush_log_buf-FlushResult :
    {d : Device} → IsWorking d → (j : Journal) → FlushResult j (flush_log_buf d true true j)
unfolding flush_log_buf
flush_log_buf-FlushResult {d} ok_device j = elim (==-cases j.log_buf_offset 0) [
  | inl empty ↦
      let test : (j.log_buf_offset == 0) ≡ true = ground arith in
      rw test (
        summarise-FlushResult j j (update_summary d 0 j) (omega (arith, empty))
          (update_summary-empty ok_device j empty))
  | inr some_there ↦
      let test : (j.log_buf_offset == 0) ≡ false = ground arith in
      let (o, s, w, e) = flush_records-Finished ok_device j in
      rw (test, e)
        (summarise-FlushResult j (at_offset j o s) _ w.offset
          (update_summary-Flushed ok_device j w))
]
