-- ===== src/Journal/Transactions.antt =====
-- The transactions of kern/fs/sfs/sfs_vnode.c: create_transaction, hold_buffer_cache, record,
-- check_and_record, commit, abort and checkpoint. sync_fs_buffers, which writes the buffers of files
-- and directories, changes nothing of the journal's state.
use petrel_os.Base.{
  ℕ, ◌+◌, ◌-◌, ◌/◌, ◌%◌, ◌^◌, Bool, true, false, not, ◌&&◌, Option, none, some, List, [], ◌∷◌, ◌++◌,
  ltb, ◌==◌, if◌then◌else◌, update, Outcome, done, panic, hang, ◌>>=◌, ◌>>◌, kassert, enomem,
  Return, ok, fail,
}
use petrel_os.Journal.{
  Change, Record, Device, Journal, rec_commit, buf_records, max_jn_entries, flush_log_buf,
}

-- `struct transaction`; a buffer is a number.
pub record Transaction : Type 0 where
  pub id : ℕ
  pub bufs : List ℕ

-- The two arguments say whether kmalloc and array_create succeed; `none` is NULL.
unfoldable pub create_transaction : Bool → Bool → Journal → Outcome (Option Transaction × Journal)
create_transaction got_t got_bufs j =
    if not got_t
    then done (none, j)
    else if not got_bufs
    then done (none, j)
    else if j.in_checkpoint
    then hang
    else done (
      some (record { id = j.next_transaction_id; bufs = [] }),
      record j {
        next_transaction_id = j.next_transaction_id + 1;
        num_active_transactions = j.num_active_transactions + 1;
      },
    )

-- The search of hold_buffer_cache.
abbrev pub holds_buffer : List ℕ → ℕ → Bool
holds_buffer [] buffer = false
holds_buffer (b ∷ bufs) buffer = if b == buffer then true else holds_buffer bufs buffer

-- buf_incref and buf_decref of kern/vfs/buf.c, on unsigned counts
abbrev pub buf_incref : ℕ → (ℕ → ℕ) → ℕ → ℕ
buf_incref buffer refs = update refs buffer ((refs buffer + 1) % 2 ^ 32)

abbrev pub buf_decref : ℕ → (ℕ → ℕ) → ℕ → ℕ
buf_decref buffer refs = update refs buffer ((refs buffer + (2 ^ 32 - 1)) % 2 ^ 32)

-- On a transaction that is not NULL. The Boolean says whether array_add has memory.
unfoldable pub hold_in : Bool → Transaction → ℕ → Journal → Outcome (Transaction × Journal)
hold_in got t buffer j =
    if holds_buffer t.bufs buffer
    then done (t, j)
    else if got
    then done
        (record t { bufs = t.bufs ++ (buffer ∷ []) }, record j { refs = buf_incref buffer j.refs })
    else panic

-- The code returns 0 wherever it returns.
unfoldable pub hold_buffer_cache :
    Bool → Option Transaction → ℕ → Journal → Outcome (Option Transaction × Journal)
unfolding hold_in
hold_buffer_cache got none buffer j = done (none, j)
hold_buffer_cache got (some t) buffer j = do (t', j') ← hold_in got t buffer j; done (some t', j')

-- `record`; the two Booleans are for the kmallocs of flush_log_buf.
unfoldable pub log_record : Device → Bool → Bool → Record → Journal → Outcome Journal
log_record d got_tmp got_s r j = do
  now ←
      if j.log_buf_offset == buf_records
      then (do
        flushed ← flush_log_buf d got_tmp got_s j
        kassert (flushed.log_buf_offset == 0)
        done flushed)
      else done j
  done (record now {
    log_buf = update now.log_buf now.log_buf_offset r;
    log_buf_offset = now.log_buf_offset + 1;
  })

-- `none` for the record is NULL.
unfoldable pub check_and_record :
    Device → Bool → Bool → Option Change → Transaction → Journal → Outcome (Return Journal)
check_and_record d got_tmp got_s none t j = done (fail enomem)
check_and_record d got_tmp got_s (some changed) t j = do
  j' ← log_record d got_tmp got_s (record { transaction_id = t.id; changed = changed }) j
  done (ok j')

-- The loop of commit and abort, from the last buffer to the first.
unfoldable pub release_bufs : List ℕ → (ℕ → ℕ) → ℕ → ℕ
release_bufs [] refs = refs
release_bufs (b ∷ bufs) refs = buf_decref b (release_bufs bufs refs)

-- How commit and abort end a transaction.
unfoldable pub end_transaction : Transaction → Journal → Outcome Journal
end_transaction t j = do
  kassert (ltb 0 j.num_active_transactions)
  done (record j {
    refs = release_bufs t.bufs j.refs;
    num_active_transactions = j.num_active_transactions - 1;
  })

unfoldable pub abort : Transaction → Journal → Outcome Journal
abort t j = end_transaction t j

-- The summary's block is read and written unchecked. The Boolean is for kmalloc.
unfoldable pub checkpoint : Device → Bool → Journal → Outcome Journal
checkpoint d got_s j =
    if j.in_checkpoint then done j else if ltb 0 j.num_active_transactions then hang else (do
      kassert got_s
      done (record j {
        num_entries = if d.writes_summary then 0 else j.num_entries;
        max_id = if d.writes_summary then 0 else j.max_id;
        journal_offset = 0;
        next_transaction_id = 0;
        in_checkpoint = false;
      }))

-- What the kmallocs of a commit answer: for the record, for the flush within `record`, for the flush
-- of commit, and for checkpoint.
pub record CommitMemory : Type 0 where
  pub got_record : Bool
  pub got_tmp : Bool
  pub got_s : Bool
  pub got_tmp2 : Bool
  pub got_s2 : Bool
  pub got_checkpoint : Bool

-- commit does not look at what check_and_record returns.
unfoldable pub ignoring : Journal → Return Journal → Journal
ignoring j (ok j') = j'
ignoring j (fail _) = j

-- Where kmalloc refuses the record, the write through NULL stops the kernel.
unfoldable pub commit : Device → CommitMemory → Transaction → Bool → Journal → Outcome Journal
unfolding ignoring
commit d m t do_checkpoint j = do
  kassert m.got_record
  result ← check_and_record d m.got_tmp m.got_s (some rec_commit) t j
  flushed ← flush_log_buf d m.got_tmp2 m.got_s2 (ignoring j result)
  ended ← end_transaction t flushed
  (if ltb (max_jn_entries / 2) (ended.journal_offset + ended.log_buf_offset) && do_checkpoint
      then checkpoint d m.got_checkpoint ended
      else done ended)
