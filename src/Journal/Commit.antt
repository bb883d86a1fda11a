-- ===== src/Journal/Commit.antt =====
-- commit and checkpoint of kern/fs/sfs/sfs_vnode.c on the log.
use petrel_os.Base.{
  ◌+◌, ◌-◌, ◌/◌, ◌≤◌, ◌<◌, ◌≡◌, refl, sym, ap, ◌∙◌, inl, inr, Bool, true, false, ◌&&◌, [], ◌∷◌,
  ◌++◌, arith, ltb, if◌then◌else◌, lt→ltb, Bool-cases, lt-cases, Outcome, done, panic, hang, ◌>>=◌,
  ok,
}
use petrel_os.Journal.{Record, Device, Journal, rec_commit, max_jn_entries, flush_log_buf}
use petrel_os.Journal.Blocks.{IsWorking}
use petrel_os.Journal.Flush.{Flushed, FlushResult, full, flushed, flush_log_buf-FlushResult}
use petrel_os.Base.Windows.{window}
use petrel_os.Journal.Transactions.{
  Transaction, check_and_record, end_transaction, release_bufs, commit, ignoring, checkpoint,
  CommitMemory,
}
use petrel_os.Journal.Log.{
  logged, on_disk, IsLog, Recorded, RecordResult, recorded, log_record-RecordResult, Flushed-logged,
}

abbrev pub commit_of : Transaction → Record
commit_of t = record { transaction_id = t.id; changed = rec_commit }

-- The transaction `t` is committed: its commit record and all records before it are on disk, and what
-- it held is given back.
pub record Committed (j j' : Journal) (t : Transaction) : Type 0 where
  pub durable : on_disk j' ≡ logged j ++ (commit_of t ∷ [])
  pub all_durable : logged j' ≡ on_disk j'
  pub keeps : IsLog j'
  pub released : j'.refs ≡ release_bufs t.bufs j.refs
  pub ended : j'.num_active_transactions + 1 ≡ j.num_active_transactions

-- The journal is empty, and no transaction is under way.
pub record IsCleared (j : Journal) : Type 0 where
  pub none_on_disk : on_disk j ≡ []
  pub none_logged : logged j ≡ []
  pub quiet : j.num_active_transactions ≡ 0
  pub keeps : IsLog j

pub data CommitResult (j : Journal) (t : Transaction) (do_checkpoint : Bool)
    : Outcome Journal → Type 0 where
  overflows :
      max_jn_entries < j.journal_offset + j.log_buf_offset + 1
      → CommitResult j t do_checkpoint panic
  committed : (j' : Journal) → Committed j j' t → CommitResult j t do_checkpoint (done j')
  cleared :
      (mid j' : Journal)
      → Committed j mid t
      → max_jn_entries / 2 < mid.journal_offset
      → do_checkpoint ≡ true
      → IsCleared j'
      → CommitResult j t do_checkpoint (done j')
  waits :
      (mid : Journal)
      → Committed j mid t
      → max_jn_entries / 2 < mid.journal_offset
      → do_checkpoint ≡ true
      → 0 < mid.num_active_transactions
      → CommitResult j t do_checkpoint hang

-- The memory of every kmalloc that a commit calls.
abbrev pub all_memory : CommitMemory
all_memory = record {
  got_record = true;
  got_tmp = true;
  got_s = true;
  got_tmp2 = true;
  got_s2 = true;
  got_checkpoint = true;
}

-- What a checkpoint leaves.
abbrev emptied : Journal → Journal
emptied j = record j {
  num_entries = 0;
  max_id = 0;
  journal_offset = 0;
  next_transaction_id = 0;
  in_checkpoint = false;
}

emptied-IsCleared :
    (j : Journal) → j.log_buf_offset ≡ 0 → j.num_active_transactions ≡ 0 → IsCleared (emptied j)
unfolding window
emptied-IsCleared j empty over = record {
  none_on_disk = refl;
  none_logged = rw empty refl;
  quiet = over;
  keeps = record { fits_buffer = omega (arith, empty); fits_journal = omega arith; entries = refl };
}

checkpoint-CommitResult :
    {d : Device}
    → IsWorking d
    → {j mid : Journal} {t : Transaction} → Committed j mid t
    → mid.log_buf_offset ≡ 0
    → max_jn_entries / 2 < mid.journal_offset
    → CommitResult j t true (checkpoint d true mid)
unfolding checkpoint
checkpoint-CommitResult {d} ok_device {j} {mid} {t} c empty half =
    elim (Bool-cases mid.in_checkpoint) [
      | inl busy ↦ simp busy (committed mid c)
      | inr idle ↦ elim (lt-cases 0 mid.num_active_transactions) [
        | inl active ↦ rw (idle, lt→ltb 0 _ active) (waits mid c half refl active)
        | inr over ↦
            let test : ltb 0 mid.num_active_transactions ≡ false = ground arith in
            rw (idle, test, ok_device.writing_summary)
              (cleared mid (emptied mid) c half refl
                (emptied-IsCleared mid empty (omega (arith, over))))
      ]
    ]

-- What end_transaction leaves.
ended-Committed :
    {j before after : Journal} {t : Transaction}
    → Recorded j before (commit_of t)
    → Flushed before after
    → before.journal_offset + before.log_buf_offset ≤ max_jn_entries
    → 0 < j.num_active_transactions
    → Committed j
        (record after {
          refs = release_bufs t.bufs after.refs;
          num_active_transactions = after.num_active_transactions - 1;
        })
        t
ended-Committed {j} {before} {after} {t} r f fits active =
    let (same, disk) = Flushed-logged before after f in
    let (_, actives, _, refs) = r.transactions in
    let (_, actives2, _, refs2) = f.transactions in
    record {
      durable = disk ∙ r.appends;
      all_durable = same ∙ sym disk;
      keeps = record {
        fits_buffer = omega (arith, f.empties);
        fits_journal = omega (arith, f.offset);
        entries = f.entries;
      };
      released = ap (release_bufs t.bufs) (refs2 ∙ refs);
      ended = omega (arith, actives, actives2);
    }

-- What commit does once the log is on disk.
abbrev after_flush : Device → Transaction → Bool → Journal → Outcome Journal
after_flush d t do_checkpoint synced = do
  ended ← end_transaction t synced
  (if ltb (max_jn_entries / 2) (ended.journal_offset + ended.log_buf_offset) && do_checkpoint
      then checkpoint d true ended
      else done ended)

maybe_checkpoint-CommitResult :
    {d : Device}
    → IsWorking d
    → {j : Journal} (mid : Journal) (t : Transaction) (do_checkpoint : Bool) → Committed j mid t
    → mid.log_buf_offset ≡ 0
    → CommitResult j t do_checkpoint (
        if ltb (max_jn_entries / 2) (mid.journal_offset + mid.log_buf_offset) && do_checkpoint
        then checkpoint d true mid
        else done mid)
maybe_checkpoint-CommitResult {d} ok_device {j} mid t true c empty =
    elim (lt-cases 1536 (mid.journal_offset + mid.log_buf_offset)) [
      | inl half ↦
          rw (lt→ltb 1536 _ half)
            (checkpoint-CommitResult ok_device c empty (omega (arith, half, empty)))
      | inr less ↦
          let test : ltb 1536 (mid.journal_offset + mid.log_buf_offset) ≡ false = ground arith in
          rw test (committed mid c)
    ]
maybe_checkpoint-CommitResult {d} ok_device mid t false c empty =
    let test : (ltb 1536 (mid.journal_offset + mid.log_buf_offset) && false) ≡ false =
      ground arith in
    rw test (committed mid c)

after_flush-CommitResult :
    {d : Device}
    → IsWorking d
    → {j before : Journal} (t : Transaction) (do_checkpoint : Bool) {m : Outcome Journal}
    → Recorded j before (commit_of t)
    → 0 < j.num_active_transactions
    → FlushResult before m
    → CommitResult j t do_checkpoint (m >>= after_flush d t do_checkpoint)
unfolding end_transaction
after_flush-CommitResult ok_device t do_checkpoint r active (full over) =
    overflows (omega (arith, r.size, over))
after_flush-CommitResult ok_device {j} t do_checkpoint r active (flushed after fits f) =
    let c = ended-Committed {t = t} r f fits active in
    let (_, actives, _, _) = r.transactions in
    let (_, actives2, _, _) = f.transactions in
    let going : ltb 0 after.num_active_transactions ≡ true =
      lt→ltb 0 _ (omega (arith, actives, actives2)) in
    rw going (maybe_checkpoint-CommitResult ok_device _ t do_checkpoint c f.empties)

after_record-CommitResult :
    {d : Device}
    → IsWorking d
    → {j : Journal} (t : Transaction) (do_checkpoint : Bool) {m : Outcome Journal}
    → 0 < j.num_active_transactions
    → RecordResult j (commit_of t) m
    → CommitResult j t do_checkpoint (
        (m >>= λ j'. done (ok j')) >>= λ result.
        flush_log_buf d true true (ignoring j result) >>= after_flush d t do_checkpoint)
unfolding ignoring
after_record-CommitResult ok_device t do_checkpoint active (RecordResult.stops over) =
    overflows (omega (arith, over))
after_record-CommitResult ok_device t do_checkpoint active (recorded before r) =
    after_flush-CommitResult ok_device t do_checkpoint r active
      (flush_log_buf-FlushResult ok_device before)

-- commit, of a transaction that is under way, where the device answers and kmalloc gives: it stops the
-- kernel only where the journal has no room for the commit record; otherwise all that was logged, and
-- the commit record after it, is on disk in the order in which it was logged, and the buffers of the
-- transaction are given back. Where it takes a checkpoint the journal is over half full; the
-- checkpoint then waits while other transactions are under way, and else empties the journal.
pub commit-CommitResult :
    {d : Device}
    → IsWorking d
    → (t : Transaction) (do_checkpoint : Bool) (j : Journal) → IsLog j
    → 0 < j.num_active_transactions
    → CommitResult j t do_checkpoint (commit d all_memory t do_checkpoint j)
unfolding commit check_and_record end_transaction ignoring
commit-CommitResult ok_device t do_checkpoint j l active =
    after_record-CommitResult ok_device t do_checkpoint active
      (log_record-RecordResult ok_device (commit_of t) j l)
