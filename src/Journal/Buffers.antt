-- ===== src/Journal/Buffers.antt =====
-- The buffers that a transaction holds, in kern/fs/sfs/sfs_vnode.c.
use petrel_os.Base.{
  ℕ, ◌+◌, ◌-◌, ◌^◌, ◌<◌, ◌≡◌, refl, ap, ◌∙◌, subst, inl, inr, Bool, true, Option, none, some, List,
  [], ◌∷◌, ◌++◌, arith, ltb, lt→ltb, Bool-cases, ==-cases, Outcome, done, panic, hang,
}
use petrel_os.Journal.{Journal}
use petrel_os.Journal.Transactions.{
  Transaction, holds_buffer, buf_incref, buf_decref, release_bufs, hold_buffer_cache, hold_in,
  create_transaction, abort, end_transaction,
}

release_bufs-append :
    (bufs : List ℕ) (b : ℕ) (refs : ℕ → ℕ)
    → release_bufs (bufs ++ (b ∷ [])) refs ≡ release_bufs bufs (buf_decref b refs)
unfolding release_bufs
release_bufs-append [] b refs = refl
release_bufs-append (x ∷ bufs) b refs = ap (buf_decref x) (release_bufs-append bufs b refs)

-- The counts are 32-bit patterns.
abbrev pub AreCounts : (ℕ → ℕ) → Type 0
AreCounts refs = (b : ℕ) → refs b < 2 ^ 32

decref_at :
    (b : ℕ) (refs : ℕ → ℕ)
    → ((k : ℕ) → refs k < 2 ^ 32)
    → (k : ℕ) → buf_decref b (buf_incref b refs) k ≡ refs k
decref_at b refs counts k = elim (==-cases k b) [
  | inl here ↦ ground (arith, counts k, ap refs here)
  | inr elsewhere ↦ ground arith
]

buf_decref-buf_incref :
    (b : ℕ) (refs : ℕ → ℕ) → ((k : ℕ) → refs k < 2 ^ 32) → buf_decref b (buf_incref b refs) ≡ refs
buf_decref-buf_incref b refs counts = λ i k. decref_at b refs counts k i

buf_incref-AreCounts : (b : ℕ) (refs : ℕ → ℕ) → AreCounts refs → AreCounts (buf_incref b refs)
buf_incref-AreCounts b refs counts k = ground (arith, counts k)

-- What a transaction and the state become when it holds some buffers, one after the other.
pub data Holding (t : Transaction) (j : Journal) : Transaction → Journal → Type 0 where
  begun : Holding t j t j
  held :
      {t1 t2 : Transaction} {j1 j2 : Journal} (got : Bool) (buffer : ℕ)
      → Holding t j t1 j1
      → hold_buffer_cache got (some t1) buffer j1 ≡ done (some t2, j2)
      → Holding t j t2 j2

-- What holding a buffer leaves to give back, and to count.
record SameDebt (t : Transaction) (j : Journal) (t' : Transaction) (j' : Journal) : Type 0 where
  debt : release_bufs t'.bufs j'.refs ≡ release_bufs t.bufs j.refs
  counts : AreCounts j'.refs
  active : j'.num_active_transactions ≡ j.num_active_transactions

abbrev with_buffer : Transaction → ℕ → Transaction
with_buffer t buffer = record t { bufs = t.bufs ++ (buffer ∷ []) }

abbrev counted : Journal → ℕ → Journal
counted j buffer = record j { refs = buf_incref buffer j.refs }

transaction_of : Transaction → Outcome (Option Transaction × Journal) → Transaction
transaction_of t (done (some t', j')) = t'
transaction_of t (done (none, j')) = t
transaction_of t panic = t
transaction_of t hang = t

journal_of : Journal → Outcome (Option Transaction × Journal) → Journal
journal_of j (done (t', j')) = j'
journal_of j panic = j
journal_of j hang = j

abbrev answer : Transaction → Journal → Outcome (Option Transaction × Journal)
answer t j = done (some t, j)

done-SameDebt :
    {t t1 t2 : Transaction} {j j1 j2 : Journal}
    → SameDebt t j t1 j1
    → answer t1 j1 ≡ answer t2 j2
    → SameDebt t j t2 j2
unfolding transaction_of journal_of
done-SameDebt {t} {t1} {t2} {j} {j1} {j2} s e =
    subst (λ x. SameDebt t j x j2) (ap (transaction_of t1) e)
      (subst (λ x. SameDebt t j t1 x) (ap (journal_of j1) e) s)

held-SameDebt :
    {t t1 t2 : Transaction} {j j1 j2 : Journal} (got : Bool) (buffer : ℕ)
    → SameDebt t j t1 j1
    → hold_buffer_cache got (some t1) buffer j1 ≡ done (some t2, j2)
    → SameDebt t j t2 j2
unfolding hold_buffer_cache hold_in
held-SameDebt {t} {t1} {t2} {j} {j1} {j2} got buffer s e =
    elim (Bool-cases (holds_buffer t1.bufs buffer)) [
      | inl there ↦ done-SameDebt s (ground (arith, there, e))
      | inr absent ↦ elim (Bool-cases got) [
        | inr refused ↦ absurd (ground (arith, absent, refused, e))
        | inl given ↦
            let new : SameDebt t j (with_buffer t1 buffer) (counted j1 buffer) = record {
              debt =
                  release_bufs-append t1.bufs buffer (buf_incref buffer j1.refs)
                  ∙ ap (release_bufs t1.bufs) (buf_decref-buf_incref buffer j1.refs s.counts)
                  ∙ s.debt;
              counts = buf_incref-AreCounts buffer j1.refs s.counts;
              active = s.active;
            } in
            done-SameDebt new (ground (arith, absent, given, e))
      ]
    ]

Holding-SameDebt :
    {t : Transaction} {j : Journal} {t' : Transaction} {j' : Journal}
    → AreCounts j.refs
    → Holding t j t' j'
    → SameDebt t j t' j'
Holding-SameDebt counts begun = record { debt = refl; counts = counts; active = refl }
Holding-SameDebt counts (held got buffer h e) =
    held-SameDebt got buffer (Holding-SameDebt counts h) e

-- What create_transaction leaves to give back, and to count.
record Created (j : Journal) (t : Transaction) (j1 : Journal) : Type 0 where
  debt : release_bufs t.bufs j1.refs ≡ j.refs
  counts : AreCounts j1.refs
  active : j1.num_active_transactions ≡ j.num_active_transactions + 1

abbrev started : Journal → Journal
started j = record j {
  next_transaction_id = j.next_transaction_id + 1;
  num_active_transactions = j.num_active_transactions + 1;
}

create_transaction-Created :
    {j j1 : Journal} {t : Transaction}
    → AreCounts j.refs
    → create_transaction true true j ≡ answer t j1
    → Created j t j1
unfolding create_transaction transaction_of journal_of release_bufs
create_transaction-Created {j} {j1} {t} counts e = elim (Bool-cases j.in_checkpoint) [
  | inl busy ↦ absurd (ground (arith, busy, e))
  | inr idle ↦
      let t0 : Transaction = record { id = j.next_transaction_id; bufs = [] } in
      let e' : answer t0 (started j) ≡ answer t j1 = ground (arith, idle, e) in
      let first : Created j t0 (started j) = record {
        debt = refl;
        counts = counts;
        active = refl;
      } in
      subst (λ x. Created j x j1) (ap (transaction_of t0) e')
        (subst (λ x. Created j t0 x) (ap (journal_of j) e') first)
]

-- A transaction that is created, holds any buffers by hold_buffer_cache and is then aborted leaves the
-- reference count of every buffer and the number of active transactions as they were before; the
-- abort does not stop the kernel.
pub abort-Holding :
    (j : Journal) {t t' : Transaction} {j1 j2 : Journal}
    → AreCounts j.refs
    → create_transaction true true j ≡ done (some t, j1)
    → Holding t j1 t' j2
    → (j3 : Journal) × (abort t' j2 ≡ done j3)
      × (j3.refs ≡ j.refs)
      × (j3.num_active_transactions ≡ j.num_active_transactions)
unfolding abort end_transaction
abort-Holding j {t} {t'} {j1} {j2} counts e holding =
    let c = create_transaction-Created {j = j} {j1 = j1} {t = t} counts e in
    let s = Holding-SameDebt c.counts holding in
    let going : ltb 0 j2.num_active_transactions ≡ true =
      lt→ltb 0 _ (omega (arith, c.active, s.active)) in
    (
      record j2 {
        refs = release_bufs t'.bufs j2.refs;
        num_active_transactions = j2.num_active_transactions - 1;
      },
      rw going refl,
      s.debt ∙ c.debt,
      omega (arith, c.active, s.active),
    )
