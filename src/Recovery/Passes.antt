-- ===== src/Recovery/Passes.antt =====
-- The loops of the journal iterators, in kern/fs/sfs/sfs_vnode.c, as runs over the list of the records.
use petrel_os.Base.{
  ℕ, zero, suc, ◌+◌, ◌*◌, ◌≡◌, refl, sym, ap, ◌∙◌, true, List, [], ◌∷◌, ◌++◌, arith, Outcome, done,
  panic, hang, ◌>>=◌,
}
use petrel_os.Journal.{Record, Device, Journal, rec_per_blk}
use petrel_os.Journal.Blocks.{IsWorking}
use petrel_os.Base.Windows.{window, window-append}
use petrel_os.Recovery.{slot_loop, block_loop, blocks_for, journal_iterator}

-- `f` on the records of a list, in order, up to where the kernel stops.
unfoldable pub run {ℓ} : {S : Type ℓ} → (Record → S → Outcome S) → List Record → S → Outcome S
run f [] s = done s
run f (r ∷ rs) s = f r s >>= run f rs

-- The records that the iterators visit: all of the blocks that hold some entry.
abbrev pub visited : Journal → List Record
visited j = window j.slots 0 (rec_per_blk * blocks_for j.num_entries)

pub bind-ap {ℓ κ} :
    {S : Type ℓ} {T : Type κ} (m : Outcome S) (g h : S → Outcome T)
    → ((s : S) → g s ≡ h s)
    → (m >>= g) ≡ (m >>= h)
bind-ap (done s) g h same = same s
bind-ap panic g h same = refl
bind-ap hang g h same = refl

bind_assoc {ℓ} :
    {S : Type ℓ} (m : Outcome S) (g h : S → Outcome S) → ((m >>= g) >>= h) ≡ (m >>= λ s. g s >>= h)
bind_assoc (done s) g h = refl
bind_assoc panic g h = refl
bind_assoc hang g h = refl

-- The records of a block and those of the blocks after it.
window-block :
    (slots : ℕ → Record) (i n : ℕ)
    → window slots (i * rec_per_blk) rec_per_blk
        ++ window slots ((i + 1) * rec_per_blk) (rec_per_blk * n)
      ≡ window slots (i * rec_per_blk) (rec_per_blk * suc n)
window-block slots i n =
    let next : (i + 1) * 6 ≡ i * 6 + 6 = omega arith in
    let size : 6 + 6 * n ≡ 6 * suc n = omega arith in
    ap (λ k. window slots (i * 6) 6 ++ window slots k (6 * n)) next
    ∙ sym (window-append slots (i * 6) 6 (6 * n))
    ∙ ap (window slots (i * 6)) size

module _ {ℓ} {S : Type ℓ} (f : Record → S → Outcome S) where
  run-append : (rs qs : List Record) (s : S) → run f (rs ++ qs) s ≡ (run f rs s >>= run f qs)
  unfolding run
  run-append [] qs s = refl
  run-append (r ∷ rs) qs s =
      bind-ap (f r s) _ _ (run-append rs qs) ∙ sym (bind_assoc (f r s) (run f rs) (run f qs))

  slot_loop-run :
      (slots : ℕ → Record) (n k : ℕ) (s : S) → slot_loop f slots n k s ≡ run f (window slots k n) s
  unfolding slot_loop run window
  slot_loop-run slots zero k s = refl
  slot_loop-run slots (suc n) k s = bind-ap (f (slots k) s) _ _ (slot_loop-run slots n (k + 1))

  block_loop-run :
      {d : Device}
      → IsWorking d
      → (slots : ℕ → Record) (n i : ℕ) (s : S)
      → block_loop d f slots n i s ≡ run f (window slots (i * rec_per_blk) (rec_per_blk * n)) s
  unfolding block_loop
  block_loop-run ok_device slots zero i s = unfold run in unfold window in refl
  block_loop-run {d} ok_device slots (suc n) i s =
      let here : List Record = window slots (i * 6) 6 in
      let later : List Record = window slots ((i + 1) * 6) (6 * n) in
      simp (ok_device.reading i) (
        ap (λ m. m >>= block_loop d f slots n (i + 1)) (slot_loop-run slots 6 (i * 6) s)
        ∙ bind-ap (run f here s) _ _ (block_loop-run ok_device slots n (i + 1))
        ∙ sym (run-append here later s)
        ∙ ap (λ rs. run f rs s) (window-block slots i n))

  -- journal_iterator, where the device answers and kmalloc gives, calls its function on each record of
  -- each block that holds an entry, in the order of the journal; it thus also visits the records past
  -- the last entry in the last block.
  pub journal_iterator-run :
      {d : Device}
      → IsWorking d
      → (j : Journal) (s : S) → journal_iterator d true true j f s ≡ run f (visited j) s
  unfolding journal_iterator
  journal_iterator-run {d} ok_device j s =
      simp ok_device.reading_summary
        (block_loop-run ok_device j.slots (blocks_for j.num_entries) 0 s)
