-- ===== src/Journal/Tests.antt =====
-- A journal of four records, with two more in the log buffer and one transaction under way.
use petrel_os.Base.{◌≡◌, refl, true, false, some, [], ◌∷◌, arith, done}
use petrel_os.Journal.{Record, Device, Journal, rec_isize, rec_bitmap, flush_log_buf}
use petrel_os.Journal.Blocks.{IsWorking}
use petrel_os.Journal.Flush.{FlushResult, flush_log_buf-FlushResult}
use petrel_os.Journal.Transactions.{
  Transaction, create_transaction, hold_buffer_cache, hold_in, abort, commit, buf_incref,
}
use petrel_os.Journal.Log.{IsLog}
use petrel_os.Journal.Commit.{CommitResult, all_memory, commit-CommitResult}
use petrel_os.Journal.Buffers.{AreCounts, begun, held, abort-Holding}

abbrev device : Device
device = record {
  reads = λ b. true;
  writes = λ b. true;
  reads_summary = true;
  writes_summary = true;
  stale_max_id = 0;
}

device-IsWorking : IsWorking device
device-IsWorking = record {
  reading = λ b. refl;
  writing = λ b. refl;
  reading_summary = refl;
  writing_summary = refl;
}

abbrev size_record : Record
size_record = record { transaction_id = 3; changed = rec_isize 1 512 }

abbrev journal : Journal
journal = record {
  log_buf = λ k. size_record;
  log_buf_offset = 2;
  journal_offset = 4;
  slots = λ k. record { transaction_id = 2; changed = rec_bitmap k 1 };
  num_entries = 4;
  max_id = 2;
  next_transaction_id = 4;
  num_active_transactions = 1;
  in_checkpoint = false;
  refs = λ b. 0;
}

abbrev transaction : Transaction
transaction = record { id = 3; bufs = [] }

journal-IsLog : IsLog journal
journal-IsLog = record { fits_buffer = omega arith; fits_journal = omega arith; entries = refl }

flush_log_buf-FlushResult_example : FlushResult journal (flush_log_buf device true true journal)
flush_log_buf-FlushResult_example = flush_log_buf-FlushResult device-IsWorking journal

commit-CommitResult_example :
    CommitResult journal transaction true (commit device all_memory transaction true journal)
commit-CommitResult_example =
    commit-CommitResult device-IsWorking transaction true journal journal-IsLog (omega arith)

-- A transaction that holds the buffer 5.
abbrev started : Journal
started = record journal { next_transaction_id = 5; num_active_transactions = 2 }

abbrev holding : Journal
holding = record started { refs = buf_incref 5 started.refs }

abbrev fresh : Transaction
fresh = record { id = 4; bufs = [] }

abbrev holder : Transaction
holder = record { id = 4; bufs = 5 ∷ [] }

created : create_transaction true true journal ≡ done (some fresh, started)
unfolding create_transaction
created = refl

holds_five : hold_buffer_cache true (some fresh) 5 started ≡ done (some holder, holding)
unfolding hold_buffer_cache hold_in
holds_five = refl

journal-AreCounts : AreCounts journal.refs
journal-AreCounts b = omega arith

abort-Holding_example :
    (j3 : Journal) × (abort holder holding ≡ done j3)
    × (j3.refs ≡ journal.refs)
    × (j3.num_active_transactions ≡ journal.num_active_transactions)
abort-Holding_example =
    abort-Holding journal journal-AreCounts created (held true 5 begun holds_five)
