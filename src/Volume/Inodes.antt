-- ===== src/Volume/Inodes.antt =====
-- The records of kern/fs/sfs/sfs_record.c that set a field of an inode, against the layout of struct
-- sfs_inode in kern/include/kern/sfs.h.
use petrel_os.Base.{
  ℕ, zero, suc, ◌+◌, ◌-◌, ◌*◌, ◌^◌, ◌≤◌, ◌<◌, ◌≡◌, refl, ap, ◌∙◌, ◌≢◌, ◌⊎◌, true, false, ◌&&◌, List,
  arith, ltb, leb, ==_refl, length, get_or, done,
}
use petrel_os.Journal.{Change, rec_isize, rec_itype, rec_ilink}
use petrel_os.Volume.{
  sfs_writeblock, Volume, Ambient, splice, word_bytes, half_bytes, store_field, get_inode,
  apply_record,
}
use petrel_os.Volume.Bytes.{get_or-splice, blocks-sfs_writeblock}

-- The number that `width` bytes from `off` on stand for, the first byte being the highest.
abbrev pub big_endian : List ℕ → ℕ → ℕ → ℕ
big_endian bs off zero = 0
big_endian bs off (suc width) = big_endian bs off width * 256 + get_or bs (off + width) 0

-- sfi_size is a u32 at 0, sfi_type a u16 at 4 and sfi_linkcount a u16 at 6.
pub data FieldOf : Change → (inode_num off width value : ℕ) → Type 0 where
  size_field : (inode_num size : ℕ) → FieldOf (rec_isize inode_num size) inode_num 0 4 size
  type_field : (inode_num type : ℕ) → FieldOf (rec_itype inode_num type) inode_num 4 2 type
  link_field :
      (inode_num linkcount : ℕ) → FieldOf (rec_ilink inode_num linkcount) inode_num 6 2 linkcount

-- The field of the inode has the value, and nothing else on the volume changes.
pub record IsStored (v w : Volume) (inode_num off width value : ℕ) : Type 0 where
  pub field : big_endian (w.blocks inode_num) off width ≡ value
  pub bytes :
      (k : ℕ)
      → (k < off) ⊎ (off + width ≤ k)
      → get_or (w.blocks inode_num) k 0 ≡ get_or (v.blocks inode_num) k 0
  pub blocks : (b : ℕ) → inode_num ≢ b → w.blocks b ≡ v.blocks b
  pub freemap : (w.freemap ≡ v.freemap) × (w.freemapdirty ≡ v.freemapdirty)

outside :
    (bs : List ℕ) (off : ℕ) (xs : List ℕ) (k : ℕ)
    → off + length xs ≤ length bs
    → (k < off) ⊎ (off + length xs ≤ k)
    → get_or (splice bs off xs) k 0 ≡ get_or bs k 0
outside bs off xs k fits out =
    let test : (leb off k && ltb k (off + length xs)) ≡ false = ground (arith, out) in
    get_or-splice bs off xs k fits ∙ rw test refl

within :
    (bs : List ℕ) (off : ℕ) (xs : List ℕ) (k : ℕ)
    → off + length xs ≤ length bs
    → k < length xs
    → get_or (splice bs off xs) (off + k) 0 ≡ get_or xs k 0
within bs off xs k fits inside =
    let test : (leb off (off + k) && ltb (off + k) (off + length xs)) ≡ true =
      ground (arith, inside) in
    let same : off + k - off ≡ k = omega arith in
    get_or-splice bs off xs (off + k) fits ∙ rw (test, same) refl

word_field :
    (bs : List ℕ) (off x : ℕ)
    → off + 4 ≤ length bs
    → x < 2 ^ 32
    → big_endian (splice bs off (word_bytes x)) off 4 ≡ x
word_field bs off x fits small =
    let b0 = within bs off (word_bytes x) 0 fits (omega arith) in
    let b1 = within bs off (word_bytes x) 1 fits (omega arith) in
    let b2 = within bs off (word_bytes x) 2 fits (omega arith) in
    let b3 = within bs off (word_bytes x) 3 fits (omega arith) in
    omega (arith, b0, b1, b2, b3, small)

half_field :
    (bs : List ℕ) (off x : ℕ)
    → off + 2 ≤ length bs
    → x < 2 ^ 16
    → big_endian (splice bs off (half_bytes x)) off 2 ≡ x
half_field bs off x fits small =
    let b0 = within bs off (half_bytes x) 0 fits (omega arith) in
    let b1 = within bs off (half_bytes x) 1 fits (omega arith) in omega (arith, b0, b1, small)

-- What writing the block of an inode comes to.
store_field-IsStored :
    (v : Volume) (inode_num off value : ℕ) (field : List ℕ)
    → v.read_fails inode_num ≡ false
    → v.write_fails inode_num ≡ false
    → off + length field ≤ length (v.blocks inode_num)
    → big_endian (splice (v.blocks inode_num) off field) off (length field) ≡ value
    → (w : Volume) × (store_field true v inode_num off field ≡ done w)
      × IsStored v w inode_num off (length field) value
unfolding get_inode
store_field-IsStored v inode_num off value field reads writes fits stored =
    let block : (sfs_writeblock v inode_num (splice (v.blocks inode_num) off field)).blocks
          inode_num
        ≡ splice (v.blocks inode_num) off field =
      rw (writes, ==_refl inode_num) refl in
    (
      sfs_writeblock v inode_num (splice (v.blocks inode_num) off field),
      simp reads refl,
      record {
        field = ap (λ bs. big_endian bs off (length field)) block ∙ stored;
        bytes = λ k out.
            ap (λ bs. get_or bs k 0) block ∙ outside (v.blocks inode_num) off field k fits out;
        blocks = λ b apart. blocks-sfs_writeblock v inode_num b _ apart;
        freemap = (refl, refl);
      },
    )

-- Replaying a record of the size, the type or the link count of an inode, where kmalloc gives and the
-- inode's block of 512 bytes can be read and written: it returns, the field of the inode then reads as
-- the value recorded, if that fits in the field, and no other byte of the inode, no other block and no
-- bit of the free block bitmap changes.
pub apply_record-IsStored :
    (a : Ambient) (v : Volume) (id : ℕ) (change : Change) (inode_num off width value : ℕ)
    → FieldOf change inode_num off width value
    → a.got ≡ true
    → v.read_fails inode_num ≡ false
    → v.write_fails inode_num ≡ false
    → length (v.blocks inode_num) ≡ 512
    → value < 256 ^ width
    → (w : Volume) × (apply_record a v (record { transaction_id = id; changed = change }) ≡ done w)
      × IsStored v w inode_num off width value
unfolding apply_record
apply_record-IsStored a v id change inode_num off width value f got reads writes size small =
    go f small
  where
    go :
        {change : Change} {off width value : ℕ}
        → FieldOf change inode_num off width value
        → value < 256 ^ width
        → (w : Volume) × (apply_record a v (record { transaction_id = id; changed = change })
            ≡ done w)
          × IsStored v w inode_num off width value
    go (size_field n x) less = rw got (
        store_field-IsStored v n 0 x (word_bytes x) reads writes (omega (arith, size))
          (word_field (v.blocks n) 0 x (omega (arith, size)) (omega (arith, less))))
    go (type_field n x) less = rw got (
        store_field-IsStored v n 4 x (half_bytes x) reads writes (omega (arith, size))
          (half_field (v.blocks n) 4 x (omega (arith, size)) (omega (arith, less))))
    go (link_field n x) less = rw got (
        store_field-IsStored v n 6 x (half_bytes x) reads writes (omega (arith, size))
          (half_field (v.blocks n) 6 x (omega (arith, size)) (omega (arith, less))))
