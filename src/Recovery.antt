-- ===== src/Recovery.antt =====
-- Recovery of an SFS volume at mount: recover and first_pass of kern/fs/sfs/sfs_fs.c, with
-- journal_iterator and fs_journal_iterator of kern/fs/sfs/sfs_vnode.c.
pub mod Passes
pub mod Replay
pub mod Durable
mod Tests
use petrel_os.Base.{
  ℕ, zero, suc, ◌+◌, ◌-◌, ◌*◌, ◌/◌, ◌%◌, ◌^◌, Bool, true, false, ◌&&◌, ◌||◌, Option, none, some,
  ◌==◌, if◌then◌else◌, take, drop, Outcome, done, panic, ◌>>=◌, ◌>>◌, kassert,
}
use petrel_os.Bitmap.{Bitmap, create, isset, mark}
use petrel_os.Journal.{Change, Record, Device, Journal, rec_commit, rec_per_blk}
use petrel_os.Volume.{Volume, Ambient, apply_record, sfs_writeblock, sfs_blocksize}

-- The inner loop of the iterators: what `f` does with the records of the slots from `k` on.
unfoldable pub slot_loop {ℓ} :
    {S : Type ℓ} → (Record → S → Outcome S) → (ℕ → Record) → ℕ → ℕ → S → Outcome S
slot_loop f slots zero k s = done s
slot_loop f slots (suc n) k s = f (slots k) s >>= slot_loop f slots n (k + 1)

-- The outer loop, from the block `i` on, which has to be read first.
unfoldable pub block_loop {ℓ} :
    {S : Type ℓ} → Device → (Record → S → Outcome S) → (ℕ → Record) → ℕ → ℕ → S → Outcome S
block_loop d f slots zero i s = done s
block_loop d f slots (suc n) i s =
    let rest =
      slot_loop f slots rec_per_blk (i * rec_per_blk) s >>= block_loop d f slots n (i + 1) in
    if d.reads i then rest else panic

-- `ROUNDUP(entries, REC_PER_BLK)/REC_PER_BLK`
abbrev pub blocks_for : ℕ → ℕ
blocks_for entries = (entries + (rec_per_blk - 1)) / rec_per_blk * rec_per_blk / rec_per_blk

-- journal_iterator, for a function on the state `s`. The Booleans are for the kmallocs of the block,
-- whose answer is not checked, and of the summary.
unfoldable pub journal_iterator {ℓ} :
    {S : Type ℓ} → Device → Bool → Bool → Journal → (Record → S → Outcome S) → S → Outcome S
journal_iterator d got_r got_s j f s = do
  kassert got_s
  kassert d.reads_summary
  kassert (got_r || (blocks_for j.num_entries == 0))
  block_loop d f j.slots (blocks_for j.num_entries) 0 s

-- What fs_journal_iterator does with a record: `f`, if its transaction is in the bitmap. Nothing checks
-- that its id is within the bitmap; what the memory after it holds is taken to be 0.
abbrev pub if_set {ℓ} : {S : Type ℓ} → Bitmap → (Record → S → Outcome S) → Record → S → Outcome S
if_set b f r s = if isset b r.transaction_id == 0 then done s else f r s

unfoldable pub fs_journal_iterator {ℓ} :
    {S : Type ℓ}
    → Device
    → Bool
    → Bool
    → Journal
    → Bitmap
    → (Record → S → Outcome S)
    → S
    → Outcome S
fs_journal_iterator d got_r got_s j b f s = journal_iterator d got_r got_s j (if_set b f) s

abbrev pub is_commit : Change → Bool
is_commit change = elim change [ rec_commit ↦ true | _ ↦ false ]

unfoldable pub first_pass : Record → Bitmap → Outcome Bitmap
first_pass r b =
    if is_commit r.changed && (isset b r.transaction_id == 0)
    then mark b r.transaction_id
    else done b

-- The blocks of the free block bitmap, from the block `i` of it on; a failed write ends the loop.
unfoldable pub mapio_loop : ℕ → ℕ → Volume → Volume
mapio_loop zero i v = v
mapio_loop (suc n) i v =
    let rest =
      mapio_loop n (i + 1)
        (sfs_writeblock v (2 + i) (take sfs_blocksize (drop (i * sfs_blocksize) v.freemap.v))) in
    if v.write_fails (2 + i) then v else rest

-- SFS_FS_BITBLOCKS, on 32 bits
abbrev pub bitblocks : Volume → ℕ
bitblocks v = (v.nblocks + 4095) % 2 ^ 32 / 4096 * 4096 / 4096

-- sfs_mapio, to write; the lock that it wants is held.
abbrev pub sfs_mapio : Volume → Volume
sfs_mapio v = mapio_loop (bitblocks v) 0 v

-- What the kmallocs of recover answer: for the summary, for the bitmap, and in the two iterators.
pub record RecoverMemory : Type 0 where
  pub got_s : Bool
  pub got_b : Bool
  pub got_v : Bool
  pub got_r1 : Bool
  pub got_s1 : Bool
  pub got_r2 : Bool
  pub got_s2 : Bool

unfoldable pub created : Option Bitmap → Outcome Bitmap
created none = panic
created (some b) = done b

-- The summary is written unchecked.
unfoldable pub cleared_summary : Device → Journal → Journal
cleared_summary d j = record j {
  num_entries = if d.writes_summary then 0 else j.num_entries;
  max_id = if d.writes_summary then 0 else j.max_id;
}

unfoldable pub recover :
    Device → RecoverMemory → Ambient → Volume → Journal → Outcome (Volume × Journal)
unfolding created
recover d m a v j = do
  kassert m.got_s
  kassert d.reads_summary
  fresh ← create m.got_b m.got_v ((j.max_id + 1) % 2 ^ 32)
  b ← created fresh
  ids ← journal_iterator d m.got_r1 m.got_s1 j first_pass b
  replayed ← fs_journal_iterator d m.got_r2 m.got_s2 j ids (λ r w. apply_record a w r) v
  done (sfs_mapio replayed, cleared_summary d j)
