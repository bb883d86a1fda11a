-- ===== src/Journal/Blocks.antt =====
-- The blocks that flush_log_buf of kern/fs/sfs/sfs_vnode.c writes, one after the other.
use petrel_os.Base.{
  ℕ, zero, suc, ◌+◌, ◌-◌, ◌*◌, ◌/◌, ◌%◌, ◌≤◌, ◌<◌, ◌≡◌, refl, ap, subst, ◌⊎◌, inl, inr, true, false,
  arith, ltb, leb, ◌==◌, if◌then◌else◌, le→leb, lt-cases, ==-cases, Outcome, done,
}
use petrel_os.Journal.{
  Record, Device, Journal, rec_per_blk, put_block, partial, write_from, full_blocks, last_block,
}

-- Every block can be read and written.
pub record IsWorking (d : Device) : Type 0 where
  pub reading : (b : ℕ) → d.reads b ≡ true
  pub writing : (b : ℕ) → d.writes b ≡ true
  pub reading_summary : d.reads_summary ≡ true
  pub writing_summary : d.writes_summary ≡ true

-- The journal with the log buffer after it.
abbrev pub merged : Journal → ℕ → Record
merged j k = if ltb k j.journal_offset then j.slots k else j.log_buf (k - j.journal_offset)

-- The state of `j` with the slots `s` and the journal offset `o`.
abbrev pub at_offset : Journal → ℕ → (ℕ → Record) → Journal
at_offset j o s = record j { slots = s; journal_offset = o }

-- The first `i` records of the log buffer have been written, up to the slot `o`.
pub record Written (j : Journal) (i o : ℕ) (s : ℕ → Record) : Type 0 where
  pub offset : o ≡ j.journal_offset + i
  pub within : i ≤ j.log_buf_offset
  pub aligned : (o % rec_per_blk ≡ 0) ⊎ (i ≡ j.log_buf_offset)
  pub holds : (k : ℕ) → k < o → s k ≡ merged j k

-- A step of flush_log_buf writes on, up to the record `i`.
pub data Wrote (j : Journal) : Outcome (ℕ × Journal) → Type 0 where
  wrote : (i o : ℕ) (s : ℕ → Record) → Written j i o s → Wrote j (done (i, at_offset j o s))

put_block-holds :
    (j : Journal) (i o n : ℕ) (s : ℕ → Record)
    → Written j i o s
    → o % rec_per_blk ≡ 0
    → n ≤ rec_per_blk
    → (k : ℕ) → k < o + n
    → put_block s (o / rec_per_blk) (λ x. j.log_buf (i + x)) k ≡ merged j k
put_block-holds j i o n s w even few k below = elim (lt-cases k o) [
  | inr beyond ↦
      let there : i + k % 6 ≡ k - j.journal_offset = omega (arith, w.offset) in
      ground (arith, w.offset, ap j.log_buf there)
  | inl before ↦ ground (arith, w.holds k before)
]

-- One write that starts a block and stays within it.
write_from-Wrote :
    {d : Device} (ok_device : IsWorking d) {j : Journal} {i o n : ℕ} {s : ℕ → Record}
    → Written j i o s
    → o % rec_per_blk ≡ 0
    → n ≤ rec_per_blk
    → i + n ≤ j.log_buf_offset
    → (n ≡ rec_per_blk) ⊎ (i + n ≡ j.log_buf_offset)
    → (s' : ℕ → Record) × Written j (i + n) (o + n) s'
      × (write_from d i n (at_offset j o s) ≡ done (i + n, at_offset j (o + n) s'))
unfolding write_from
write_from-Wrote ok_device {j} {i} {o} {n} {s} w even few fits last = (
  put_block s (o / rec_per_blk) (λ x. j.log_buf (i + x)),
  record {
    offset = omega (arith, w.offset);
    within = fits;
    aligned = ground arith;
    holds = put_block-holds j i o n s w even few;
  },
  rw (ok_device.writing (o / rec_per_blk)),
)

-- The partial block that the last flush left is filled up.
partial-holds :
    (j : Journal) (n k : ℕ)
    → n ≤ j.log_buf_offset
    → n ≤ rec_per_blk - j.journal_offset % rec_per_blk
    → k < j.journal_offset + n
    → put_block j.slots
        (j.journal_offset / rec_per_blk)
        (λ x.
          if ltb x (j.journal_offset % rec_per_blk)
          then j.slots (j.journal_offset / rec_per_blk * rec_per_blk + x)
          else j.log_buf (x - j.journal_offset % rec_per_blk))
        k
      ≡ merged j k
partial-holds j n k few room below = elim (==-cases (k / 6) (j.journal_offset / 6)) [
  | inl here ↦
      let same : j.journal_offset / 6 * 6 + k % 6 ≡ k = omega (arith, here) in
      let later : k % 6 - j.journal_offset % 6 ≡ k - j.journal_offset = omega (arith, here) in
      ground (arith, ap j.slots same, ap j.log_buf later)
  | inr elsewhere ↦ ground arith
]

pub partial-Wrote : {d : Device} → IsWorking d → (j : Journal) → Wrote j (partial d j)
unfolding partial
partial-Wrote {d} ok_device j = elim (==-cases (j.journal_offset % 6) 0) [
  | inl even ↦ rw even (
      wrote 0 j.journal_offset j.slots (record {
        offset = omega arith;
        within = omega arith;
        aligned = inl even;
        holds = λ k below. ground arith;
      }))
  | inr odd ↦
      let n : ℕ =
        if ltb (6 - j.journal_offset % 6) j.log_buf_offset
        then 6 - j.journal_offset % 6
        else j.log_buf_offset in
      let few : n ≤ j.log_buf_offset = ground arith in
      let room : n ≤ 6 - j.journal_offset % 6 = ground arith in
      let begun : (j.journal_offset % 6 == 0) ≡ false = ground arith in
      rw (begun, ok_device.reading (j.journal_offset / 6), ok_device.writing (j.journal_offset / 6))
        (wrote n _ _ (record {
          offset = refl;
          within = few;
          aligned = ground arith;
          holds = λ k. partial-holds j n k few room;
        }))
]

-- The state of the loop over full blocks, and where it ends.
pub data Ended (j : Journal) : Outcome (ℕ × Journal) → Type 0 where
  ended :
      (i o : ℕ) (s : ℕ → Record)
      → Written j i o s
      → j.log_buf_offset - i < rec_per_blk
      → Ended j (done (i, at_offset j o s))

lt→leb-false : {n : ℕ} → n < 6 → leb 6 n ≡ false
lt→leb-false h = ground arith

pub full_blocks-Ended :
    {d : Device}
    → IsWorking d
    → {j : Journal} (fuel : ℕ) {i o : ℕ} {s : ℕ → Record} → Written j i o s
    → j.log_buf_offset - i < fuel
    → Ended j (full_blocks fuel d (i, at_offset j o s))
unfolding full_blocks
full_blocks-Ended ok_device zero w enough = absurd (omega arith)
full_blocks-Ended {d} ok_device {j} (suc fuel) {i} {o} {s} w enough =
    elim (lt-cases (j.log_buf_offset - i) 6) [
      | inl few ↦ rw (lt→leb-false few) (ended i o s w few)
      | inr more ↦
          let even : o % 6 ≡ 0 = ground (arith, w.aligned) in
          let (s', w', e) =
            write_from-Wrote ok_device {n = 6} w even (omega arith) (omega arith) (inl refl) in
          rw (le→leb 6 _ more, e) (full_blocks-Ended ok_device fuel w' (omega arith))
    ]

pub last_block-done :
    {d : Device}
    → IsWorking d
    → {j : Journal} {i o : ℕ} {s : ℕ → Record} → Written j i o s
    → j.log_buf_offset - i < rec_per_blk
    → (o' : ℕ) × (s' : ℕ → Record) × Written j j.log_buf_offset o' s'
      × (last_block d (i, at_offset j o s) ≡ done (j.log_buf_offset, at_offset j o' s'))
unfolding last_block
last_block-done {d} ok_device {j} {i} {o} {s} w few = elim (==-cases j.log_buf_offset i) [
  | inl all ↦ (
    o,
    s,
    record {
      offset = omega (arith, w.offset);
      within = omega arith;
      aligned = inr refl;
      holds = w.holds;
    },
    ground arith,
  )
  | inr rest ↦
      let n : ℕ = j.log_buf_offset - i in
      let whole : i + n ≡ j.log_buf_offset = omega (arith, w.within) in
      let (s', w', e) =
        write_from-Wrote ok_device {n = n} w (ground (arith, w.aligned)) (omega arith) (omega arith)
          (inr whole) in
      let more : (j.log_buf_offset == i) ≡ false = ground arith in
      (
        o + n,
        s',
        subst (λ x. Written j x (o + n) s') whole w',
        rw (le→leb i j.log_buf_offset w.within, more, e, whole),
      )
]
