-- ===== src/Volume/Fields.antt =====
-- The records of kern/fs/sfs/sfs_record.c on inodes, applied twice.
use petrel_os.Base.{
  ℕ, ◌+◌, ◌-◌, ◌*◌, ◌≡◌, refl, ap, ◌∙◌, ◌≢◌, inl, inr, Bool, true, false, List, leb, ◌==◌,
  if◌then◌else◌, Bool-cases, Outcome, done, panic, ◌>>=◌,
}
use petrel_os.Volume.{
  Volume, Ambient, sfs_writeblock, splice, get_word, sfi_indirect, get_inode, store_field,
  inode_record,
}
use petrel_os.Volume.Bytes.{sfs_writeblock-twice, sfs_writeblock-same, blocks-sfs_writeblock}

-- A computation done again on its result.
abbrev pub again : (Volume → Outcome Volume) → Volume → Outcome Volume
again f v = f v >>= f

pub store_field-again :
    (got : Bool) (v : Volume) (inode_num off : ℕ) (field : List ℕ)
    → again (λ w. store_field got w inode_num off field) v ≡ store_field got v inode_num off field
unfolding get_inode
store_field-again false v inode_num off field = refl
store_field-again true v inode_num off field = elim (Bool-cases (v.read_fails inode_num)) [
  | inl broken ↦ rw broken refl
  | inr fine ↦ simp fine (ap done (sfs_writeblock-twice v inode_num off field))
]

stops-again :
    (got : Bool) (v : Volume) (inode_num : ℕ)
    → again (λ w. get_inode got w inode_num >>= λ inode. panic) v
      ≡ (get_inode got v inode_num >>= λ inode. panic)
unfolding get_inode
stops-again false v inode_num = refl
stops-again true v inode_num = elim (Bool-cases (v.read_fails inode_num)) [
  | inl broken ↦ rw broken refl
  | inr fine ↦ rw fine refl
]

-- A block that is read, or not, is written with a change, and so again.
block-again :
    (bad : Bool) (stray : List ℕ) (v : Volume) (block off : ℕ) (field : List ℕ)
    → (let once =
          sfs_writeblock v block (splice (if bad then stray else v.blocks block) off field) in
        sfs_writeblock once block (splice (if bad then stray else once.blocks block) off field)
        ≡ once)
block-again true stray v block off field = sfs_writeblock-same v block (splice stray off field)
block-again false stray v block off field = sfs_writeblock-twice v block off field

-- A pointer in the indirect block that an inode names is set.
abbrev point : List ℕ → ℕ → ℕ → List ℕ → Volume → List ℕ → Volume
point stray pointer off field v inode =
    let indir = get_word inode pointer in
    sfs_writeblock v indir (splice (if v.read_fails indir then stray else v.blocks indir) off field)

set_pointer-again :
    (got : Bool) (stray : List ℕ) (v : Volume) (inode_num pointer off : ℕ) (field : List ℕ)
    → get_word (v.blocks inode_num) pointer ≢ inode_num
    → again
        (λ w. get_inode got w inode_num >>= λ inode. done (point stray pointer off field w inode))
        v
      ≡ (get_inode got v inode_num >>= λ inode. done (point stray pointer off field v inode))
unfolding get_inode
set_pointer-again false stray v inode_num pointer off field apart = refl
set_pointer-again true stray v inode_num pointer off field apart =
    elim (Bool-cases (v.read_fails inode_num)) [
      | inl broken ↦ rw broken refl
      | inr fine ↦
          let indir : ℕ = get_word (v.blocks inode_num) pointer in
          let once : Volume = point stray pointer off field v (v.blocks inode_num) in
          let kept : once.blocks inode_num ≡ v.blocks inode_num =
            blocks-sfs_writeblock v indir inode_num _ apart in
          simp fine (
            ap done (
              ap (point stray pointer off field once) kept
              ∙ block-again (v.read_fails indir) stray v indir off field))
    ]

pub inode_record-again :
    (a : Ambient) (v : Volume) (inode_num id_lvl set_indirect offset blockno : ℕ)
    → get_word (v.blocks inode_num) (sfi_indirect + 4 * (id_lvl - 1)) ≢ inode_num
    → again (λ w. inode_record a.got a.stray w inode_num id_lvl set_indirect offset blockno) v
      ≡ inode_record a.got a.stray v inode_num id_lvl set_indirect offset blockno
inode_record-again a v inode_num id_lvl set_indirect offset blockno apart =
    elim (Bool-cases (id_lvl == 0)) [
      | inl direct ↦ rw direct (store_field-again a.got v inode_num _ _)
      | inr indirect ↦ elim (Bool-cases (leb id_lvl 3)) [
        | inr beyond ↦ rw (indirect, beyond) (stops-again a.got v inode_num)
        | inl within ↦ elim (Bool-cases (set_indirect == 0)) [
          | inl contents ↦
              rw (indirect, within, contents)
                (set_pointer-again a.got a.stray v inode_num (sfi_indirect + 4 * (id_lvl - 1)) _ _
                  apart)
          | inr whole ↦ rw (indirect, within, whole) (store_field-again a.got v inode_num _ _)
        ]
      ]
    ]
