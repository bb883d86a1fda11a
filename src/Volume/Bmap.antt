-- ===== src/Volume/Bmap.antt =====
-- sfs_bmap_r of kern/fs/sfs/sfs_record.c against the digits of the file block's number.
use petrel_os.Base.{
  ℕ, zero, suc, ◌+◌, ◌-◌, ◌*◌, ◌/◌, ◌^◌, ◌≤◌, ◌<◌, ◌≡◌, refl, ◌≢◌, inl, inr, Bool, true, false, not,
  List, [], ◌∷◌, arith, ltb, leb, ◌==◌, if◌then◌else◌, lt→ltb, le→leb, lt-cases, ==-cases, length,
  Outcome, done, panic, ◌>>=◌, ◌>>◌, kassert, einval, Return, ok, fail,
}
use petrel_os.Volume.{
  Volume, get_word, sfi_direct, sfi_indirect, sfs_ndirect, bmap_loop, sfs_bmap_r,
}

-- Follow a path of indices through indirect blocks.
unfoldable pub fetch : Bool → Volume → List ℕ → ℕ → Outcome ℕ
fetch lands v [] block = done block
fetch lands v (d ∷ ds) block =
    let rest = fetch lands v ds (get_word (v.blocks block) (4 * d)) in
    if not lands then panic else if v.read_fails block then panic else rest

-- The number that the digits `ds` write in base 128.
abbrev pub value : List ℕ → ℕ
value [] = 0
value (d ∷ ds) = d * 128 ^ length ds + value ds

abbrev pub AllDigits : List ℕ → Type 0
AllDigits [] = Unit {0}
AllDigits (d ∷ ds) = (d < 128) × AllDigits ds

-- The first file block that takes `levels` indirect blocks to reach.
abbrev pub first_block : ℕ → ℕ
first_block zero = 0
first_block (suc zero) = 15
first_block (suc (suc n)) = first_block (suc n) + 128 ^ suc n

-- The file block is reached by the path `ds`, of one to three steps.
pub record IsPath (fileblock : ℕ) (ds : List ℕ) : Type 0 where
  pub levels : (1 ≤ length ds) × (length ds ≤ 3)
  pub digits : AllDigits ds
  pub number : fileblock ≡ first_block (length ds) + value ds

-- Where in the inode the path starts.
abbrev pub start_of : List ℕ → ℕ
start_of ds = sfi_indirect + 4 * (length ds - 1)

pub data BmapResult (lands : Bool) (v : Volume) (inode : List ℕ) (fileblock : ℕ)
    : Outcome (Return ℕ) → Type 0 where
  too_large : first_block 4 ≤ fileblock → BmapResult lands v inode fileblock (done (fail einval))
  direct :
      fileblock < sfs_ndirect
      → BmapResult lands v inode fileblock (done (ok (get_word inode (sfi_direct + 4 * fileblock))))
  unmapped :
      (ds : List ℕ)
      → IsPath fileblock ds
      → get_word inode (start_of ds) ≡ 0
      → BmapResult lands v inode fileblock panic
  followed :
      (ds : List ℕ)
      → IsPath fileblock ds
      → get_word inode (start_of ds) ≢ 0
      → BmapResult lands v inode fileblock
          (fetch lands v ds (get_word inode (start_of ds)) >>= λ block. done (ok block))

loop1 :
    (lands : Bool) (v : Volume) (x block : ℕ)
    → bmap_loop lands v 1 x block ≡ fetch lands v (x ∷ []) block
unfolding bmap_loop fetch
loop1 lands v x block = refl

loop2 :
    (lands : Bool) (v : Volume) (x block : ℕ)
    → bmap_loop lands v 2 x block ≡ fetch lands v ((x / 128) ∷ (x - x / 128 * 128) ∷ []) block
unfolding bmap_loop fetch
loop2 lands v x block = refl

loop3 :
    (lands : Bool) (v : Volume) (x block : ℕ)
    → (let y = x - x / 16384 * 16384 in
        bmap_loop lands v 3 x block
        ≡ fetch lands v ((x / 16384) ∷ (y / 128) ∷ (y - y / 128 * 128) ∷ []) block)
unfolding bmap_loop fetch
loop3 lands v x block = refl

descend-BmapResult :
    (lands : Bool) (v : Volume) (inode : List ℕ) (fileblock indir left : ℕ) (ds : List ℕ)
    → IsPath fileblock ds
    → ((block : ℕ) → bmap_loop lands v indir left block ≡ fetch lands v ds block)
    → BmapResult lands v inode fileblock (do
      kassert (not (get_word inode (start_of ds) == 0))
      block ← bmap_loop lands v indir left (get_word inode (start_of ds))
      done (ok block))
descend-BmapResult lands v inode fileblock indir left ds path same =
    rw (same (get_word inode (start_of ds))) (elim (==-cases (get_word inode (start_of ds)) 0) [
      | inl missing ↦
          let test : (get_word inode (start_of ds) == 0) ≡ true = ground arith in
          rw test (unmapped ds path missing)
      | inr there ↦
          let test : (get_word inode (start_of ds) == 0) ≡ false = ground arith in
          rw test (followed ds path there)
    ])

path1 :
    (fileblock : ℕ)
    → 15 ≤ fileblock
    → fileblock - 15 < 128
    → IsPath fileblock ((fileblock - 15) ∷ [])
path1 fileblock past less = record {
  levels = (omega arith, omega arith);
  digits = (less, tt);
  number = omega arith;
}

path2 :
    (fileblock : ℕ)
    → 143 ≤ fileblock
    → fileblock - 15 < 16512
    → (let x = fileblock - 15 - 128 in IsPath fileblock ((x / 128) ∷ (x - x / 128 * 128) ∷ []))
path2 fileblock past less = record {
  levels = (omega arith, omega arith);
  digits = (omega arith, (omega arith, tt));
  number = omega arith;
}

path3 :
    (fileblock : ℕ)
    → 16527 ≤ fileblock
    → fileblock < 2113679
    → (let x = fileblock - 15 - 16512 in
        let y = x - x / 16384 * 16384 in
        IsPath fileblock ((x / 16384) ∷ (y / 128) ∷ (y - y / 128 * 128) ∷ []))
path3 fileblock past less = record {
  levels = (omega arith, omega arith);
  digits = (omega arith, (omega arith, (omega arith, tt)));
  number = omega arith;
}

-- sfs_bmap_r finds the block of a file that the number of
-- the file block stands for: EINVAL from 2113679 on; below 15 the direct pointer; above, the number
-- less the blocks before its level is written in base 128, and its one to three digits are the
-- indices in the indirect blocks from the pointer of that level on. It stops the kernel exactly where
-- that pointer is 0, an indirect block cannot be read, or iddata points to no memory.
pub sfs_bmap_r-BmapResult :
    (lands : Bool) (v : Volume) (inode : List ℕ) (fileblock : ℕ)
    → BmapResult lands v inode fileblock (sfs_bmap_r lands v inode fileblock)
unfolding sfs_bmap_r
sfs_bmap_r-BmapResult lands v inode fileblock = elim (lt-cases fileblock 15) [
  | inl small ↦
      let test : leb 2113679 fileblock ≡ false = ground arith in
      rw (test, lt→ltb fileblock 15 small) (direct small)
  | inr past ↦ elim (lt-cases fileblock 2113679) [
    | inr large ↦ rw (le→leb _ _ large) (too_large large)
    | inl fits ↦
        let test : leb 2113679 fileblock ≡ false = ground arith in
        let test2 : ltb fileblock 15 ≡ false = ground arith in
        rw (test, test2)
          (elim (lt-cases (fileblock - 15) 16512) [
            | inr three ↦
                (let no_less : leb 16512 (fileblock - 15) ≡ true = le→leb _ _ three in
                  rw no_less (
                    descend-BmapResult lands v inode fileblock 3 (fileblock - 15 - 16512) _
                      (path3 fileblock (omega (arith, three)) fits)
                      (loop3 lands v (fileblock - 15 - 16512))))
            | inl less ↦ elim (lt-cases (fileblock - 15) 128) [
              | inr two ↦
                  (let test3 : leb 16512 (fileblock - 15) ≡ false = ground arith in
                    rw (test3, le→leb _ _ two)
                      (descend-BmapResult lands v inode fileblock 2 (fileblock - 15 - 128) _
                        (path2 fileblock (omega (arith, two)) less)
                        (loop2 lands v (fileblock - 15 - 128))))
              | inl one ↦
                  (let test3 : leb 16512 (fileblock - 15) ≡ false = ground arith in
                    let test4 : leb 128 (fileblock - 15) ≡ false = ground arith in
                    rw (test3, test4)
                      (descend-BmapResult lands v inode fileblock 1 (fileblock - 15) _
                        (path1 fileblock past one) (loop1 lands v (fileblock - 15))))
            ]
          ])
  ]
]
