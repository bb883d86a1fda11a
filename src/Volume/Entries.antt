-- ===== src/Volume/Entries.antt =====
-- The records of kern/fs/sfs/sfs_record.c on directories, applied twice.
use petrel_os.Base.{
  ℕ, ◌/◌, ◌%◌, ◌≡◌, refl, sym, ap, ◌∙◌, ◌≢◌, inl, inr, Bool, true, false, not, List, Bool-cases,
  Outcome, done, ◌>>=◌, ◌>>◌, kassert, ok, fail, Outcome-cases,
}
use petrel_os.Volume.{
  mapped_block, Volume, sfs_writeblock, splice, sfs_blocksize, get_inode, sfs_bmap_r, dir_position,
}
use petrel_os.Volume.Bytes.{sfs_writeblock-twice, blocks-sfs_writeblock}
use petrel_os.Volume.Fields.{again}

-- A directory entry is written into its block.
abbrev put_entry : Bool → Bool → Volume → ℕ → ℕ → List ℕ → Outcome Volume
put_entry got lands v parent_inode slot entry = do
  parent ← get_inode got v parent_inode
  mapped ← sfs_bmap_r lands v parent (dir_position slot / sfs_blocksize)
  dirblock ← mapped_block mapped
  kassert (not (v.read_fails dirblock))
  kassert (not (v.write_fails dirblock))
  done (
      sfs_writeblock v dirblock
        (splice (v.blocks dirblock) (dir_position slot % sfs_blocksize) entry))

put_entry-done :
    (lands : Bool) (v : Volume) (parent_inode slot block : ℕ) (entry : List ℕ)
    → v.read_fails parent_inode ≡ false
    → sfs_bmap_r lands v (v.blocks parent_inode) (dir_position slot / sfs_blocksize)
      ≡ done (ok block)
    → v.read_fails block ≡ false
    → v.write_fails block ≡ false
    → put_entry true lands v parent_inode slot entry
      ≡ done (
          sfs_writeblock v block
            (splice (v.blocks block) (dir_position slot % sfs_blocksize) entry))
unfolding get_inode
put_entry-done lands v parent_inode slot block entry fine e good writable =
    rw (fine, e, good, writable) refl

put_entry-once :
    (lands : Bool) (v : Volume) (parent_inode slot block : ℕ) (entry : List ℕ)
    → v.read_fails parent_inode ≡ false
    → sfs_bmap_r lands v (v.blocks parent_inode) (dir_position slot / sfs_blocksize)
      ≡ done (ok block)
    → v.read_fails block ≡ false
    → v.write_fails block ≡ false
    → (block ≢ parent_inode)
      × ((bytes : List ℕ)
          → sfs_bmap_r lands
              (sfs_writeblock v block bytes)
              (v.blocks parent_inode)
              (dir_position slot / sfs_blocksize)
            ≡ done (ok block))
    → again (λ w. put_entry true lands w parent_inode slot entry) v
      ≡ put_entry true lands v parent_inode slot entry
put_entry-once lands v parent_inode slot block entry fine e good writable (apart, mapped) =
    let off : ℕ = dir_position slot % sfs_blocksize in
    let bytes : List ℕ = splice (v.blocks block) off entry in
    let w : Volume = sfs_writeblock v block bytes in
    let put : Volume → Outcome Volume = λ x. put_entry true lands x parent_inode slot entry in
    let first : put v ≡ done w =
      put_entry-done lands v parent_inode slot block entry fine e good writable in
    let kept = blocks-sfs_writeblock v block parent_inode bytes apart in
    let found =
      ap (λ b. sfs_bmap_r lands w b (dir_position slot / sfs_blocksize)) kept ∙ mapped bytes in
    let second = put_entry-done lands w parent_inode slot block entry fine found good writable in
    ap (λ m. m >>= put) first
    ∙ second
    ∙ ap done (sfs_writeblock-twice v block off entry)
    ∙ sym first

pub put_entry-again :
    (got lands : Bool) (v : Volume) (parent_inode slot : ℕ) (entry : List ℕ)
    → ((block : ℕ)
        → sfs_bmap_r lands v (v.blocks parent_inode) (dir_position slot / sfs_blocksize)
          ≡ done (ok block)
        → (block ≢ parent_inode)
          × ((bytes : List ℕ)
              → sfs_bmap_r lands
                  (sfs_writeblock v block bytes)
                  (v.blocks parent_inode)
                  (dir_position slot / sfs_blocksize)
                ≡ done (ok block)))
    → again (λ w. put_entry got lands w parent_inode slot entry) v
      ≡ put_entry got lands v parent_inode slot entry
unfolding get_inode
put_entry-again false lands v parent_inode slot entry apart = refl
put_entry-again true lands v parent_inode slot entry apart =
    elim (Bool-cases (v.read_fails parent_inode)) [
      | inl broken ↦ rw broken refl
      | inr fine ↦
          elim (Outcome-cases
            (sfs_bmap_r lands v (v.blocks parent_inode) (dir_position slot / sfs_blocksize))) [
              | inr (inl e) ↦ rw (fine, e) refl
              | inr (inr e) ↦ rw (fine, e) refl
              | inl (fail _, e) ↦ rw (fine, e) refl
              | inl (ok block, e) ↦ elim (Bool-cases (v.read_fails block)) [
                | inl bad ↦ rw (fine, e, bad) refl
                | inr good ↦ elim (Bool-cases (v.write_fails block)) [
                  | inl locked ↦ rw (fine, e, good, locked) refl
                  | inr writable ↦
                      put_entry-once lands v parent_inode slot block entry fine e good writable
                        (apart block e)
                ]
              ]
            ]
    ]
