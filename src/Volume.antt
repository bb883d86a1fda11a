-- ===== src/Volume.antt =====
-- The blocks of an SFS volume, and the changes that the records of its journal stand for:
-- kern/fs/sfs/sfs_record.c, with the structures of kern/include/kern/sfs.h.
pub mod Bytes
pub mod Bmap
pub mod Io
pub mod Fields
pub mod Inodes
pub mod Freemap
pub mod Entries
pub mod Apply
mod Tests
use petrel_os.Base.{
  ℕ, zero, suc, ◌+◌, ◌-◌, ◌*◌, ◌/◌, ◌%◌, ◌^◌, Bool, true, not, List, [], ◌∷◌, ◌++◌, ltb, leb, ◌==◌,
  if◌then◌else◌, update, get_or, Outcome, done, panic, ◌>>=◌, ◌>>◌, kassert, einval, Return, ok,
  fail,
}
use petrel_os.Bitmap.{Bitmap, isset, mark, unmark}
use petrel_os.Journal.{
  Record, name_field, rec_inode, rec_itype, rec_isize, rec_ilink, rec_dir, rec_bitmap, rec_commit,
  rec_invalid,
}

-- The disk, as 512 bytes a block and the blocks that it fails to read and to write, and of the
-- `struct sfs_fs` the size and the free block bitmap.
pub record Volume : Type 0 where
  pub blocks : ℕ → List ℕ
  pub read_fails : ℕ → Bool
  pub write_fails : ℕ → Bool
  pub nblocks : ℕ
  pub freemap : Bitmap
  pub freemapdirty : Bool

-- sfs_writeblock where its result is not looked at.
abbrev pub sfs_writeblock : Volume → ℕ → List ℕ → Volume
sfs_writeblock v block bytes = record v {
  blocks = if v.write_fails block then v.blocks else update v.blocks block bytes;
}

-- The bytes `xs` are copied to the offset `off` of a buffer; what would go past its end is left out.
unfoldable pub splice : List ℕ → ℕ → List ℕ → List ℕ
splice [] off xs = []
splice (b ∷ bs) (suc off) xs = b ∷ splice bs off xs
splice (b ∷ bs) zero [] = b ∷ bs
splice (b ∷ bs) zero (x ∷ xs) = x ∷ splice bs zero xs

-- A big-endian number of 16 or of 32 bits, as its bytes.
abbrev pub half_bytes : ℕ → List ℕ
half_bytes x = x / 2 ^ 8 % 256 ∷ x % 256 ∷ []

abbrev pub word_bytes : ℕ → List ℕ
word_bytes x = x / 2 ^ 24 % 256 ∷ x / 2 ^ 16 % 256 ∷ x / 2 ^ 8 % 256 ∷ x % 256 ∷ []

abbrev pub get_word : List ℕ → ℕ → ℕ
get_word bytes off =
    get_or bytes off 0 * 2 ^ 24
    + get_or bytes (off + 1) 0 * 2 ^ 16
    + get_or bytes (off + 2) 0 * 2 ^ 8
    + get_or bytes (off + 3) 0

-- Where the fields of `struct sfs_inode` are.
abbrev pub sfi_size : ℕ
sfi_size = 0

abbrev pub sfi_type : ℕ
sfi_type = 4

abbrev pub sfi_linkcount : ℕ
sfi_linkcount = 6

abbrev pub sfi_direct : ℕ
sfi_direct = 8

abbrev pub sfi_indirect : ℕ
sfi_indirect = 68

abbrev pub sfi_dindirect : ℕ
sfi_dindirect = 72

abbrev pub sfi_tindirect : ℕ
sfi_tindirect = 76

-- SFS_BLOCKSIZE, SFS_NDIRECT and SFS_DBPERIDB
abbrev pub sfs_blocksize : ℕ
sfs_blocksize = 512

abbrev pub sfs_ndirect : ℕ
sfs_ndirect = 15

abbrev pub sfs_dbperidb : ℕ
sfs_dbperidb = 128

-- The Boolean is for kmalloc, which is not checked: sfs_readblock through NULL stops the kernel.
unfoldable pub get_inode : Bool → Volume → ℕ → Outcome (List ℕ)
get_inode got v inode_num = do
  kassert got
  kassert (not (v.read_fails inode_num))
  done (v.blocks inode_num)

-- The offset into the block at level `i`, and what is left of the file block after it.
abbrev pub level_offset : ℕ → ℕ → ℕ × ℕ
level_offset i fileblock =
    if i == 3
    then (let idoff = fileblock / (sfs_dbperidb * sfs_dbperidb) in
        (idoff, fileblock - idoff * (sfs_dbperidb * sfs_dbperidb)))
    else if i == 2
    then (let idoff = fileblock / sfs_dbperidb in (idoff, fileblock - idoff * sfs_dbperidb))
    else (fileblock, fileblock)

-- The loop of sfs_bmap_r at the levels from `i` down. `iddata`, which nothing initialises, points where
-- it happens to: `lands` says whether that is memory which the kernel can write, and the kernel stops
-- where it is not.
unfoldable pub bmap_loop : Bool → Volume → ℕ → ℕ → ℕ → Outcome ℕ
bmap_loop lands v zero fileblock next_block = done next_block
bmap_loop lands v (suc i) fileblock next_block =
    let (idoff, left) = level_offset (suc i) fileblock in
    let rest = bmap_loop lands v i left (get_word (v.blocks next_block) (4 * idoff)) in
    if not lands then panic else if v.read_fails next_block then panic else rest

-- sfs_bmap_r on the bytes of an inode; its result is `diskblock`.
unfoldable pub sfs_bmap_r : Bool → Volume → List ℕ → ℕ → Outcome (Return ℕ)
sfs_bmap_r lands v inode fileblock =
    let past = fileblock - sfs_ndirect in
    let descend : ℕ → ℕ → ℕ → Outcome (Return ℕ) = λ indir left next_block. (do
      kassert (not (next_block == 0))
      block ← bmap_loop lands v indir left next_block
      done (ok block)) in
    if leb
      (sfs_ndirect
        + sfs_dbperidb
        + sfs_dbperidb * sfs_dbperidb
        + sfs_dbperidb * sfs_dbperidb * sfs_dbperidb)
      fileblock
    then done (fail einval)
    else if ltb fileblock sfs_ndirect
    then done (ok (get_word inode (sfi_direct + 4 * fileblock)))
    else if leb (sfs_dbperidb + sfs_dbperidb * sfs_dbperidb) past
    then descend 3 (past - (sfs_dbperidb + sfs_dbperidb * sfs_dbperidb))
        (get_word inode sfi_tindirect)
    else if leb sfs_dbperidb past
    then descend 2 (past - sfs_dbperidb) (get_word inode sfi_dindirect)
    else descend 1 past (get_word inode sfi_indirect)

-- The string in a field, up to its first 0.
abbrev pub until_nul : List ℕ → List ℕ
until_nul [] = []
until_nul (c ∷ cs) = let rest = until_nul cs in if c == 0 then [] else c ∷ rest

-- `struct sfs_dir`
abbrev pub dir_bytes : ℕ → List ℕ → List ℕ
dir_bytes inode sfd_name = word_bytes inode ++ name_field (until_nul sfd_name)

-- A field of an inode is overwritten, and the inode written back.
abbrev pub store_field : Bool → Volume → ℕ → ℕ → List ℕ → Outcome Volume
store_field got v inode_num off field = do
  inode ← get_inode got v inode_num
  done (sfs_writeblock v inode_num (splice inode off field))

-- What happens at a level of indirection: a pointer of the inode is set, or one in the block that the
-- pointer names (if that block cannot be read, `stray` is what the buffer on the stack holds).
abbrev pub store_indirect : List ℕ → Volume → List ℕ → ℕ → ℕ → Bool → ℕ → ℕ → Volume
store_indirect stray v inode inode_num pointer set_indirect offset blockno =
    let indir = get_word inode pointer in
    let bytes = if v.read_fails indir then stray else v.blocks indir in
    if set_indirect
    then sfs_writeblock v inode_num (splice inode pointer (word_bytes blockno))
    else sfs_writeblock v indir (splice bytes (4 * offset) (word_bytes blockno))

-- A level over 3 leaves the pointer uninitialised; the model stops there.
abbrev pub inode_record :
    Bool → List ℕ → Volume → (inode_num id_lvl set_indirect offset blockno : ℕ) → Outcome Volume
inode_record got stray v inode_num id_lvl set_indirect offset blockno = do
  inode ← get_inode got v inode_num
  (if id_lvl == 0
      then done
          (sfs_writeblock v inode_num (splice inode (sfi_direct + 4 * offset) (word_bytes blockno)))
      else if leb id_lvl 3
      then done (
          store_indirect stray v inode inode_num (sfi_indirect + 4 * (id_lvl - 1))
            (not (set_indirect == 0)) offset blockno)
      else panic)

abbrev pub bitmap_record : Volume → ℕ → ℕ → Outcome Volume
bitmap_record v index setting = do
  freemap ←
      if not (setting == 0)
      then (if isset v.freemap index == 0 then mark v.freemap index else done v.freemap)
      else (if isset v.freemap index == 0 then done v.freemap else unmark v.freemap index)
  done (record v { freemap = freemap; freemapdirty = true })

-- `KASSERT(sfs_bmap_r(...) == 0)`
abbrev pub mapped_block : Return ℕ → Outcome ℕ
mapped_block (ok block) = done block
mapped_block (fail _) = panic

-- `sizeof(struct sfs_dir)*slot`, of 32 bits
abbrev pub dir_position : ℕ → ℕ
dir_position slot = 64 * slot % 2 ^ 32

abbrev pub dir_record :
    Bool → Bool → Volume → (parent_inode slot inode : ℕ) → List ℕ → Outcome Volume
dir_record got lands v parent_inode slot inode sfd_name = do
  parent ← get_inode got v parent_inode
  mapped ← sfs_bmap_r lands v parent (dir_position slot / sfs_blocksize)
  dirblock ← mapped_block mapped
  kassert (not (v.read_fails dirblock))
  kassert (not (v.write_fails dirblock))
  done (
      sfs_writeblock v dirblock
        (splice (v.blocks dirblock) (dir_position slot % sfs_blocksize) (dir_bytes inode sfd_name)))

-- What is taken from outside: kmalloc's answer, where `iddata` points, and the bytes on the stack.
pub record Ambient : Type 0 where
  pub got : Bool
  pub lands : Bool
  pub stray : List ℕ

unfoldable pub apply_record : Ambient → Volume → Record → Outcome Volume
apply_record a v r = elim r.changed [
  | rec_inode inode_num id_lvl set_indirect offset blockno ↦
      inode_record a.got a.stray v inode_num id_lvl set_indirect offset blockno
  | rec_itype inode_num type ↦ store_field a.got v inode_num sfi_type (half_bytes type)
  | rec_isize inode_num size ↦ store_field a.got v inode_num sfi_size (word_bytes size)
  | rec_ilink inode_num linkcount ↦
      store_field a.got v inode_num sfi_linkcount (half_bytes linkcount)
  | rec_dir parent_inode slot inode sfd_name ↦
      dir_record a.got a.lands v parent_inode slot inode sfd_name
  | rec_bitmap index setting ↦ bitmap_record v index setting
  | rec_commit ↦ done v
  | rec_invalid ↦ panic
]
