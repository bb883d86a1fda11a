-- ===== src/Volume/Tests.antt =====
-- A volume of empty blocks.
use petrel_os.Base.{
  ℕ, ◌≡◌, refl, true, false, List, [], ◌∷◌, ◌++◌, arith, ltb, ◌==◌, if◌then◌else◌, replicate, done,
  ok,
}
use petrel_os.Journal.{Record, rec_isize}
use petrel_os.Volume.{Volume, Ambient, bmap_loop, sfs_bmap_r, apply_record}
use petrel_os.Volume.Io.{IoResult, io_ok, io_eio, sfs_rwblock, settled, sfs_rwblock-settles}
use petrel_os.Volume.Bmap.{BmapResult, sfs_bmap_r-BmapResult}
use petrel_os.Volume.Inodes.{IsStored, size_field, apply_record-IsStored}

-- Every word of block 7 is 9, and every other block is empty.
abbrev volume : Volume
volume = record {
  blocks = λ b. if b == 7 then 0 ∷ 0 ∷ 0 ∷ 9 ∷ 0 ∷ 0 ∷ 0 ∷ 9 ∷ [] else [];
  read_fails = λ b. false;
  write_fails = λ b. false;
  nblocks = 4096;
  freemap = record { nbits = 8; v = 0 ∷ [] };
  freemapdirty = false;
}

-- An inode whose indirect block is the block 7.
abbrev inode : List ℕ
inode = replicate 68 0 ++ (0 ∷ 0 ∷ 0 ∷ 7 ∷ [])

second_indirect : sfs_bmap_r true volume inode 16 ≡ done (ok 9)
unfolding sfs_bmap_r bmap_loop
second_indirect = refl

sfs_bmap_r-BmapResult_example : BmapResult true volume inode 16 (sfs_bmap_r true volume inode 16)
sfs_bmap_r-BmapResult_example = sfs_bmap_r-BmapResult true volume inode 16

abbrev ambient : Ambient
ambient = record { got = true; lands = true; stray = [] }

abbrev size_record : Record
size_record = record { transaction_id = 3; changed = rec_isize 7 512 }

-- Every block has 512 bytes.
abbrev disk : Volume
disk = record volume { blocks = λ b. replicate 512 0 }

apply_record-IsStored_example :
    (w : Volume) × (apply_record ambient disk size_record ≡ done w) × IsStored disk w 7 0 4 512
apply_record-IsStored_example =
    apply_record-IsStored ambient disk 3 (rec_isize 7 512) 7 0 4 512 (size_field 7 512) refl refl
      refl refl (omega arith)

-- A device that fails twice.
abbrev flaky : ℕ → IoResult
flaky k = if ltb k 2 then io_eio else io_ok

sfs_rwblock-settles_example : sfs_rwblock flaky ≡ settled (flaky 2)
sfs_rwblock-settles_example =
    sfs_rwblock-settles flaky 2 (omega arith) (λ k below. ground arith) (λ e. absurd (ground arith))
