-- ===== src/Recovery/Tests.antt =====
-- A journal of one block, whose transaction 3 is committed.
use petrel_os.Base.{ℕ, ◌≡◌, refl, true, false, [], ◌∷◌, arith, ◌==◌, if◌then◌else◌, done, ◌>>=◌}
use petrel_os.Base.Windows.{window}
use petrel_os.Journal.{Record, Device, Journal, rec_isize, rec_commit}
use petrel_os.Journal.Blocks.{IsWorking}
use petrel_os.Journal.Transactions.{Transaction}
use petrel_os.Journal.Commit.{all_memory as commit_memory}
use petrel_os.Volume.{Volume, Ambient, apply_record}
use petrel_os.Recovery.{recover, sfs_mapio, cleared_summary}
use petrel_os.Recovery.Passes.{run, visited}
use petrel_os.Recovery.Replay.{AllWithin, committed_of, is_committed, all_memory, recover-run}

abbrev device : Device
device = record {
  reads = λ b. true;
  writes = λ b. true;
  reads_summary = true;
  writes_summary = true;
  stale_max_id = 0;
}

device-IsWorking : IsWorking device
device-IsWorking = record {
  reading = λ b. refl;
  writing = λ b. refl;
  reading_summary = refl;
  writing_summary = refl;
}

abbrev size_record : Record
size_record = record { transaction_id = 3; changed = rec_isize 7 512 }

abbrev lost_record : Record
lost_record = record { transaction_id = 2; changed = rec_isize 8 512 }

abbrev commit_record : Record
commit_record = record { transaction_id = 3; changed = rec_commit }

-- Slots from 5 on were never written.
abbrev slots : ℕ → Record
slots k = if k == 0 then size_record else if k == 4 then commit_record else lost_record

-- Before the commit, the last four records are in the log buffer.
abbrev before : Journal
before = record {
  log_buf = λ k. if k == 0 then size_record else lost_record;
  log_buf_offset = 4;
  journal_offset = 0;
  slots = λ k. lost_record;
  num_entries = 0;
  max_id = 0;
  next_transaction_id = 4;
  num_active_transactions = 2;
  in_checkpoint = false;
  refs = λ b. 0;
}

abbrev journal : Journal
journal = record {
  log_buf = λ k. size_record;
  log_buf_offset = 0;
  journal_offset = 5;
  slots = slots;
  num_entries = 5;
  max_id = 3;
  next_transaction_id = 4;
  num_active_transactions = 1;
  in_checkpoint = false;
  refs = λ b. 0;
}

abbrev transaction : Transaction
transaction = record { id = 3; bufs = [] }

abbrev volume : Volume
volume = record {
  blocks = λ b. [];
  read_fails = λ b. false;
  write_fails = λ b. false;
  nblocks = 4096;
  freemap = record { nbits = 8; v = 0 ∷ [] };
  freemapdirty = false;
}

abbrev ambient : Ambient
ambient = record { got = true; lands = true; stray = [] }

replayed : committed_of (visited journal) (visited journal) ≡ size_record ∷ commit_record ∷ []
unfolding committed_of is_committed window
replayed = refl

journal-AllWithin : AllWithin 3 (visited journal)
unfolding AllWithin window
journal-AllWithin =
    (omega arith, (omega arith, (omega arith, (omega arith, (omega arith, (omega arith, tt))))))

recover-run_example : recover device all_memory ambient volume journal ≡ (
    run (λ r w. apply_record ambient w r) (committed_of (visited journal) (visited journal)) volume
    >>= λ w. done (sfs_mapio w, cleared_summary device journal))
recover-run_example =
    recover-run device-IsWorking ambient volume journal (omega arith) journal-AllWithin
