-- ===== src/Volume/Bytes.antt =====
-- Bytes copied into a buffer, and blocks written over.
use petrel_os.Base.{
  ℕ, zero, suc, ◌+◌, ◌-◌, ◌≤◌, ◌≡◌, refl, ap, ◌∙◌, ◌≢◌, inl, inr, false, ◌&&◌, List, [], ◌∷◌, arith,
  ltb, leb, ◌==◌, if◌then◌else◌, ==_refl, Bool-cases, update, length, get_or,
}
use petrel_os.Volume.{Volume, sfs_writeblock, splice}

-- A second copy of the same length to the same place hides the first.
splice-splice :
    (bs : List ℕ) (off : ℕ) (xs ys : List ℕ)
    → length xs ≡ length ys
    → splice (splice bs off xs) off ys ≡ splice bs off ys
unfolding splice
splice-splice [] off xs ys e = refl
splice-splice (b ∷ bs) (suc off) xs ys e = ap (◌∷◌ b) (splice-splice bs off xs ys e)
splice-splice (b ∷ bs) zero [] ys e = refl
splice-splice (b ∷ bs) zero (x ∷ xs) [] e = absurd (omega (arith, e))
splice-splice (b ∷ bs) zero (x ∷ xs) (y ∷ ys) e =
    ap (◌∷◌ y) (splice-splice bs zero xs ys (omega (arith, e)))

length-splice : (bs : List ℕ) (off : ℕ) (xs : List ℕ) → length (splice bs off xs) ≡ length bs
unfolding splice
length-splice [] off xs = refl
length-splice (b ∷ bs) (suc off) xs = ap suc (length-splice bs off xs)
length-splice (b ∷ bs) zero [] = refl
length-splice (b ∷ bs) zero (x ∷ xs) = ap suc (length-splice bs zero xs)

-- What a buffer holds after a copy within it.
pub get_or-splice :
    (bs : List ℕ) (off : ℕ) (xs : List ℕ) (k : ℕ)
    → off + length xs ≤ length bs
    → get_or (splice bs off xs) k 0
      ≡ (if leb off k && ltb k (off + length xs) then get_or xs (k - off) 0 else get_or bs k 0)
unfolding splice
get_or-splice [] off xs k fits = ground arith
get_or-splice (b ∷ bs) (suc off) xs zero fits = ground arith
get_or-splice (b ∷ bs) (suc off) xs (suc k) fits =
    get_or-splice bs off xs k (omega (arith, fits)) ∙ ground arith
get_or-splice (b ∷ bs) zero [] k fits = ground arith
get_or-splice (b ∷ bs) zero (x ∷ xs) zero fits = ground arith
get_or-splice (b ∷ bs) zero (x ∷ xs) (suc k) fits =
    get_or-splice bs zero xs k (omega (arith, fits)) ∙ ground arith

update_at :
    (m : ℕ → List ℕ) (k : ℕ) (v w : List ℕ) (j : ℕ) → update (update m k v) k w j ≡ update m k w j
update_at m k v w j = ground arith

update-update : (m : ℕ → List ℕ) (k : ℕ) (v w : List ℕ) → update (update m k v) k w ≡ update m k w
update-update m k v w = λ i j. update_at m k v w j i

-- Bytes written twice over at one place of a block are as after the first write.
pub sfs_writeblock-twice :
    (v : Volume) (block off : ℕ) (field : List ℕ)
    → (let once = sfs_writeblock v block (splice (v.blocks block) off field) in
        sfs_writeblock once block (splice (once.blocks block) off field) ≡ once)
sfs_writeblock-twice v block off field =
    ap (λ m. record v { blocks = m })
      (elim (Bool-cases (v.write_fails block)) [
        | inl broken ↦ rw broken refl
        | inr fine ↦
            rw (fine, ==_refl block, splice-splice (v.blocks block) off field field refl)
              (update-update v.blocks block _ _)
      ])

pub sfs_writeblock-same :
    (v : Volume) (block : ℕ) (bytes : List ℕ)
    → sfs_writeblock (sfs_writeblock v block bytes) block bytes ≡ sfs_writeblock v block bytes
sfs_writeblock-same v block bytes =
    ap (λ m. record v { blocks = m })
      (elim (Bool-cases (v.write_fails block)) [
        | inl broken ↦ rw broken refl
        | inr fine ↦ rw fine (update-update v.blocks block _ _)
      ])

-- Another block keeps what it holds.
pub blocks-sfs_writeblock :
    (v : Volume) (block other : ℕ) (bytes : List ℕ)
    → block ≢ other
    → (sfs_writeblock v block bytes).blocks other ≡ v.blocks other
blocks-sfs_writeblock v block other bytes apart = elim (Bool-cases (v.write_fails block)) [
  | inl broken ↦ rw broken refl
  | inr fine ↦ let test : (other == block) ≡ false = ground arith in rw (fine, test) refl
]
