-- ===== src/Volume/Apply.antt =====
-- apply_record of kern/fs/sfs/sfs_record.c done once and done again.
use petrel_os.Base.{ℕ, ◌+◌, ◌-◌, ◌*◌, ◌/◌, ◌≡◌, refl, ◌≢◌, List, done, ok}
use petrel_os.Bitmap.Valid.{IsValid}
use petrel_os.Journal.{
  Change, Record, rec_inode, rec_itype, rec_isize, rec_ilink, rec_dir, rec_bitmap, rec_commit,
  rec_invalid,
}
use petrel_os.Volume.{
  Volume, Ambient, sfs_writeblock, get_word, sfi_indirect, sfs_blocksize, sfs_bmap_r, dir_record,
  dir_position, apply_record,
}
use petrel_os.Volume.Fields.{again, store_field-again, inode_record-again}
use petrel_os.Volume.Freemap.{bitmap_record-again}
use petrel_os.Volume.Entries.{put_entry-again}

-- What a record names is apart from where it is found: an indirect block is not the inode's own, the
-- block of a directory is neither the inode's nor one that leads to it, and the free block bitmap is
-- a valid one.
abbrev pub IsSeparate : Ambient → Volume → Change → Type 0
IsSeparate a v (rec_inode inode_num id_lvl set_indirect offset blockno) =
    get_word (v.blocks inode_num) (sfi_indirect + 4 * (id_lvl - 1)) ≢ inode_num
IsSeparate a v (rec_dir parent_inode slot inode sfd_name) =
    (block : ℕ)
    → sfs_bmap_r a.lands v (v.blocks parent_inode) (dir_position slot / sfs_blocksize)
      ≡ done (ok block)
    → (block ≢ parent_inode)
      × ((bytes : List ℕ)
          → sfs_bmap_r a.lands (sfs_writeblock v block bytes) (v.blocks parent_inode)
              (dir_position slot / sfs_blocksize)
            ≡ done (ok block))
IsSeparate a v (rec_bitmap index setting) = IsValid v.freemap
IsSeparate a v change = Unit {0}

dir_record-again :
    (a : Ambient) (v : Volume) (parent_inode slot inode : ℕ) (sfd_name : List ℕ)
    → IsSeparate a v (rec_dir parent_inode slot inode sfd_name)
    → again (λ w. dir_record a.got a.lands w parent_inode slot inode sfd_name) v
      ≡ dir_record a.got a.lands v parent_inode slot inode sfd_name
dir_record-again a v parent_inode slot inode sfd_name apart =
    put_entry-again a.got a.lands v parent_inode slot _ apart

change-again :
    (a : Ambient) (v : Volume) (id : ℕ) (change : Change)
    → IsSeparate a v change
    → again (λ w. apply_record a w (record { transaction_id = id; changed = change })) v
      ≡ apply_record a v (record { transaction_id = id; changed = change })
unfolding apply_record
change-again a v id (rec_inode inode_num id_lvl set_indirect offset blockno) apart =
    inode_record-again a v inode_num id_lvl set_indirect offset blockno apart
change-again a v id (rec_itype inode_num type) apart = store_field-again a.got v inode_num _ _
change-again a v id (rec_isize inode_num size) apart = store_field-again a.got v inode_num _ _
change-again a v id (rec_ilink inode_num linkcount) apart = store_field-again a.got v inode_num _ _
change-again a v id (rec_dir parent_inode slot inode sfd_name) apart =
    dir_record-again a v parent_inode slot inode sfd_name apart
change-again a v id (rec_bitmap index setting) apart = bitmap_record-again v index setting apart
change-again a v id rec_commit apart = refl
change-again a v id rec_invalid apart = refl

-- Where a record does not overwrite the pointers by which its block is found, to apply it twice in a
-- row comes to the same as to apply it once, stops of the kernel included.
apply_record-again :
    (a : Ambient) (v : Volume) (r : Record)
    → IsSeparate a v r.changed
    → again (λ w. apply_record a w r) v ≡ apply_record a v r
apply_record-again a v r apart = change-again a v r.transaction_id r.changed apart
