-- ===== src/Recovery/Durable.antt =====
-- A transaction from its commit, in kern/fs/sfs/sfs_vnode.c, to its recovery, in kern/fs/sfs/sfs_fs.c.
use petrel_os.Base.{
  ℕ, zero, suc, ◌+◌, ◌-◌, ◌*◌, ◌/◌, ◌%◌, ◌≤◌, ◌<◌, ◌≡◌, Bool, true, List, [], arith, Outcome, done,
  panic, hang,
}
use mathlib.Core.List.{Memᴰ}
use petrel_os.Journal.{Record, Journal, rec_per_blk, max_jn_entries}
use petrel_os.Base.Windows.{window}
use petrel_os.Recovery.{blocks_for}
use petrel_os.Recovery.Passes.{visited}
use petrel_os.Journal.Ids.{IsBounded}
use petrel_os.Recovery.Replay.{committed_of, AllWithin}

-- What is in the last block past the records that the summary counts.
abbrev pub stale : Journal → List Record
stale j = window j.slots j.num_entries (rec_per_blk * blocks_for j.num_entries - j.num_entries)

window-AllWithin :
    (f : ℕ → Record) (start n most : ℕ)
    → ((k : ℕ) → k < start + n → (f k).transaction_id ≤ most)
    → AllWithin most (window f start n)
unfolding window AllWithin
window-AllWithin f start zero most bound = tt
window-AllWithin f start (suc n) most bound = (
  bound start (omega arith),
  window-AllWithin f (start + 1) n most (λ k below. bound k (omega (arith, below))),
)

-- Where the entries fill whole blocks, recovery visits no record whose id is over the summary's
-- greatest.
visited-AllWithin :
    (j : Journal) → IsBounded j → j.num_entries % rec_per_blk ≡ 0 → AllWithin j.max_id (visited j)
visited-AllWithin j bounded whole =
    window-AllWithin j.slots 0 _ j.max_id (λ k below. bounded k (omega (arith, whole, below)))

-- What a recovery finds of the record `r` after commit: the commit comes to this where the journal is
-- not emptied, and where it is, or the call waits to do so, the journal came to it before.
pub data DurableResult (j : Journal) (do_checkpoint : Bool) (r : Record)
    : Outcome Journal → Type 0 where
  overflows :
      max_jn_entries < j.journal_offset + j.log_buf_offset + 1
      → DurableResult j do_checkpoint r panic
  kept :
      (j' : Journal)
      → Memᴰ r (committed_of (visited j') (visited j'))
      → DurableResult j do_checkpoint r (done j')
  emptied :
      (mid j' : Journal)
      → Memᴰ r (committed_of (visited mid) (visited mid))
      → max_jn_entries / 2 < mid.journal_offset
      → do_checkpoint ≡ true
      → j'.num_active_transactions ≡ 0
      → visited j' ≡ []
      → DurableResult j do_checkpoint r (done j')
  waits :
      (mid : Journal)
      → Memᴰ r (committed_of (visited mid) (visited mid))
      → max_jn_entries / 2 < mid.journal_offset
      → do_checkpoint ≡ true
      → 0 < mid.num_active_transactions
      → DurableResult j do_checkpoint r hang
