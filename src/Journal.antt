-- ===== src/Journal.antt =====
-- The journal of SFS: the records of kern/include/sfs.h and kern/fs/sfs/sfs_record.c, and the
-- transactions, the log buffer and the blocks of the journal in kern/fs/sfs/sfs_vnode.c. A call is one
-- step of one thread: no other runs between its lines, and a wait for another is `hang`.
pub mod Blocks
pub mod Flush
pub mod Transactions
pub mod Log
pub mod Commit
pub mod Ids
pub mod Buffers
mod Tests
use petrel_os.Base.{
  ℕ, zero, suc, ◌+◌, ◌-◌, ◌*◌, ◌/◌, ◌%◌, Bool, not, Option, none, some, List, [], ◌++◌, ltb, leb,
  ◌==◌, if◌then◌else◌, take, replicate, Outcome, done, panic, hang, ◌>>=◌, ◌>>◌, kassert,
}

-- The `changed` union of `struct record` with its transaction_type; a name is the 60 bytes of its field.
pub data Change : Type 0 where
  rec_inode : (inode_num id_lvl set_indirect offset blockno : ℕ) → Change
  rec_itype : (inode_num type : ℕ) → Change
  rec_isize : (inode_num size : ℕ) → Change
  rec_ilink : (inode_num linkcount : ℕ) → Change
  rec_dir : (parent_inode slot inode : ℕ) (sfd_name : List ℕ) → Change
  rec_bitmap : (index setting : ℕ) → Change
  rec_commit : Change
  rec_invalid : Change

-- `struct record`
pub record Record : Type 0 where
  pub transaction_id : ℕ
  pub changed : Change

-- What `bzero` and then `strcpy` leave in a field of 60 bytes.
abbrev pub name_field : List ℕ → List ℕ
name_field name = take 60 (name ++ replicate 60 0)

-- The makerec functions give a record without its transaction id; `none` is NULL, from kmalloc.
pub makerec_inode : Bool → ℕ → ℕ → ℕ → ℕ → ℕ → Option Change
makerec_inode got inode_num id_lvl set_indirect offset blockno =
    if got then some (rec_inode inode_num id_lvl set_indirect offset blockno) else none

pub makerec_itype : Bool → ℕ → ℕ → Option Change
makerec_itype got inode_num type = if got then some (rec_itype inode_num type) else none

pub makerec_isize : Bool → ℕ → ℕ → Option Change
makerec_isize got inode_num size = if got then some (rec_isize inode_num size) else none

pub makerec_ilink : Bool → ℕ → ℕ → Option Change
makerec_ilink got inode_num linkcount = if got then some (rec_ilink inode_num linkcount) else none

-- `none` for the name is a NULL pointer.
field_of : Option (List ℕ) → List ℕ
field_of none = name_field []
field_of (some name) = name_field name

pub makerec_dir : Bool → ℕ → ℕ → ℕ → Option (List ℕ) → Option Change
unfolding field_of
makerec_dir got parent_inode slot inode sfd_name =
    if got then some (rec_dir parent_inode slot inode (field_of sfd_name)) else none

pub makerec_bitmap : Bool → ℕ → ℕ → Option Change
makerec_bitmap got index setting = if got then some (rec_bitmap index setting) else none

-- BUF_RECORDS, REC_PER_BLK and MAX_JN_ENTRIES
abbrev pub buf_records : ℕ
buf_records = 128

abbrev pub rec_per_blk : ℕ
rec_per_blk = 6

abbrev pub max_jn_entries : ℕ
max_jn_entries = 3072

-- What the device does: whether a block of the journal, and its summary, can be read and written, and
-- the max_id that the memory of an unread summary happens to hold.
pub record Device : Type 0 where
  pub reads : ℕ → Bool
  pub writes : ℕ → Bool
  pub reads_summary : Bool
  pub writes_summary : Bool
  pub stale_max_id : ℕ

-- The globals, and the journal on disk: slot `k` is the record `k % 6` of its block `k / 6`, and
-- num_entries and max_id are the summary's. `log_buf` goes on past its 128 records with what follows
-- it in memory. `refs` are the reference counts of the buffers.
pub record Journal : Type 0 where
  pub log_buf : ℕ → Record
  pub log_buf_offset : ℕ
  pub journal_offset : ℕ
  pub slots : ℕ → Record
  pub num_entries : ℕ
  pub max_id : ℕ
  pub next_transaction_id : ℕ
  pub num_active_transactions : ℕ
  pub in_checkpoint : Bool
  pub refs : ℕ → ℕ

-- The records of the block `b` are overwritten by those of `source`.
abbrev pub put_block : (ℕ → Record) → ℕ → (ℕ → Record) → ℕ → Record
put_block slots b source k = if k / rec_per_blk == b then source (k % rec_per_blk) else slots k

-- The partial block of flush_log_buf, whose write is not checked. The number is that of the records
-- done, `i`.
pub partial : Device → Journal → Outcome (ℕ × Journal)
partial d j =
    let b = j.journal_offset / rec_per_blk in
    let part = j.journal_offset % rec_per_blk in
    let room = rec_per_blk - part in
    let n = if ltb room j.log_buf_offset then room else j.log_buf_offset in
    let tmp : ℕ → Record =
      λ k. if ltb k part then j.slots (b * rec_per_blk + k) else j.log_buf (k - part) in
    if part == 0
    then done (0, j)
    else if not (d.reads b)
    then panic
    else done (
      n,
      record j {
        slots = if d.writes b then put_block j.slots b tmp else j.slots;
        journal_offset = j.journal_offset + n;
      },
    )

-- A block written from `log_buf[i]` on, `n` records of which count.
pub write_from : Device → ℕ → ℕ → Journal → Outcome (ℕ × Journal)
write_from d i n j =
    let b = j.journal_offset / rec_per_blk in
    if d.writes b
    then done (
      i + n,
      record j {
        slots = put_block j.slots b (λ k. j.log_buf (i + k));
        journal_offset = j.journal_offset + n;
      },
    )
    else panic

-- The loop over full blocks, with fuel for its rounds.
pub full_blocks : ℕ → Device → ℕ × Journal → Outcome (ℕ × Journal)
full_blocks zero d (i, j) = hang
full_blocks (suc fuel) d (i, j) =
    let rest = write_from d i rec_per_blk j >>= full_blocks fuel d in
    if leb rec_per_blk (j.log_buf_offset - i) then rest else done (i, j)

-- The last block.
pub last_block : Device → ℕ × Journal → Outcome (ℕ × Journal)
last_block d (i, j) =
    if not (leb i j.log_buf_offset)
    then panic
    else if j.log_buf_offset == i
    then done (i, j)
    else write_from d i (j.log_buf_offset - i) j

-- The greatest transaction id of the first records of the log buffer.
pub greatest_id : (ℕ → Record) → ℕ → ℕ
greatest_id buffer zero = 0
greatest_id buffer (suc n) =
    let m = greatest_id buffer n in let id = (buffer n).transaction_id in if ltb m id then id else m

-- What flush_log_buf does with records in the log buffer; the number is the greatest id.
pub flush_records : Device → Journal → Outcome (ℕ × Journal)
flush_records d j = do
  start ← partial d j
  blocks ← full_blocks (suc j.log_buf_offset) d start
  (i, after_all) ← last_block d blocks
  kassert (i == after_all.log_buf_offset)
  done (greatest_id j.log_buf j.log_buf_offset, record after_all { log_buf_offset = 0 })

-- The summary, whose block is read and written unchecked.
pub update_summary : Device → ℕ → Journal → Journal
update_summary d greatest j =
    let old = if d.reads_summary then j.max_id else d.stale_max_id in
    if d.writes_summary
    then record j {
      num_entries = j.journal_offset;
      max_id = if ltb old greatest then greatest else old;
    }
    else j

-- The two arguments after the device say whether the two kmallocs succeed.
pub flush_log_buf : Device → Bool → Bool → Journal → Outcome Journal
flush_log_buf d got_tmp got_s j = if not got_tmp then panic else (do
  (greatest, flushed) ← if j.log_buf_offset == 0 then done (0, j) else flush_records d j
  kassert (leb flushed.journal_offset max_jn_entries)
  kassert got_s
  done (update_summary d greatest flushed))
