-- ===== src/Uio/Kernel.antt =====
-- uiomove of kern/lib/uio.c on a buffer of the kernel that uio_kinit sets up.
use petrel_os.Base.{
  ℕ, suc, ◌+◌, ◌-◌, ◌%◌, ◌^◌, ◌≤◌, ◌<◌, min, ◌≡◌, refl, ap, ◌∙◌, ◌⊎◌, inl, inr, false, ◌&&◌, Option,
  none, [], arith, ltb, ◌==◌, if◌then◌else◌, lt→ltb, ==-cases, done,
}
use petrel_os.Copying.{memmove, memmove-with_copy, inside, outside}
use petrel_os.Uio.{
  Uio, Memory, Copier, UioRw, uio_sysspace, uio_read, uio_write, move_chunk, advanced, move_loop,
  uiomove, uio_kinit,
}

-- One round moves it all.
kinit_round :
    (f : ℕ) (c : Copier) (ptr n kbuf len pos : ℕ) (rw_flag : UioRw) (m : Memory)
    → 0 < n
    → 0 < len
    → len < 2 ^ 32
    → (move_loop (suc (suc f)) c ptr n (uio_kinit kbuf len pos rw_flag) m)
      ≡ done (
        none,
        advanced
            (uio_kinit kbuf len pos rw_flag)
            (record { iov_base = kbuf; iov_len = len })
            []
            (min n len),
        (move_chunk c uio_sysspace rw_flag kbuf ptr (min n len) m).1,
      )
unfolding move_loop uio_kinit move_chunk
kinit_round f c ptr n kbuf len pos uio_read m asked space small =
    let chunk : (if ltb n len then n else len) ≡ min n len = ground arith in
    let moves : (min n len == 0) ≡ false = ground (arith, asked, space) in
    let last : (ltb 0 (n - min n len) && ltb 0 ((len + (2 ^ 32 - min n len)) % 2 ^ 32)) ≡ false =
      ground (arith, small) in
    rw (lt→ltb 0 n asked, lt→ltb 0 len space, chunk, moves, last) refl
kinit_round f c ptr n kbuf len pos uio_write m asked space small =
    let chunk : (if ltb n len then n else len) ≡ min n len = ground arith in
    let moves : (min n len == 0) ≡ false = ground (arith, asked, space) in
    let last : (ltb 0 (n - min n len) && ltb 0 ((len + (2 ^ 32 - min n len)) % 2 ^ 32)) ≡ false =
      ground (arith, small) in
    rw (lt→ltb 0 n asked, lt→ltb 0 len space, chunk, moves, last) refl

-- `m'` is `m` with the `k` bytes from `src` on also from `dst` on.
pub record IsCopy (m m' : Memory) (dst src k : ℕ) : Type 0 where
  pub copied : (i : ℕ) → i < k → m'.kernel (dst + i) ≡ m.kernel (src + i)
  pub kept : (a : ℕ) → (a < dst) ⊎ (dst + k ≤ a) → m'.kernel a ≡ m.kernel a
  pub user_kept : m'.user ≡ m.user

memmove-IsCopy :
    (m : Memory) (dst src k : ℕ)
    → IsCopy m (record m { kernel = memmove m.kernel dst src k }) dst src k
memmove-IsCopy m dst src k = record {
  copied = λ i less.
      let same : dst + i - dst ≡ i = omega arith in
      memmove-with_copy m.kernel dst src k (dst + i)
      ∙ inside m.kernel dst src k (dst + i) (omega arith) (omega (arith, less))
      ∙ ap (λ j. m.kernel (src + j)) same;
  kept = λ a out. memmove-with_copy m.kernel dst src k a ∙ outside m.kernel dst src k a out;
  user_kept = refl;
}

-- Where the bytes go, and where they come from.
abbrev pub target : UioRw → ℕ → ℕ → ℕ
target uio_read kbuf ptr = kbuf
target uio_write kbuf ptr = ptr

abbrev pub origin : UioRw → ℕ → ℕ → ℕ
origin uio_read kbuf ptr = ptr
origin uio_write kbuf ptr = kbuf

no-IsCopy : (m : Memory) (dst src k : ℕ) → k ≡ 0 → IsCopy m m dst src k
no-IsCopy m dst src k nothing = record {
  copied = λ i less. absurd (omega (arith, less, nothing));
  kept = λ a out. refl;
  user_kept = refl;
}

chunk-IsCopy :
    (c : Copier) (rw_flag : UioRw) (kbuf ptr k : ℕ) (m : Memory)
    → IsCopy m
        (move_chunk c uio_sysspace rw_flag kbuf ptr k m).1
        (target rw_flag kbuf ptr)
        (origin rw_flag kbuf ptr)
        k
unfolding move_chunk
chunk-IsCopy c uio_read kbuf ptr k m = memmove-IsCopy m kbuf ptr k
chunk-IsCopy c uio_write kbuf ptr k m = memmove-IsCopy m ptr kbuf k

kinit_nothing :
    (f : ℕ) (c : Copier) (ptr n kbuf len pos : ℕ) (rw_flag : UioRw) (m : Memory)
    → min n len ≡ 0
    → (move_loop (suc f) c ptr n (uio_kinit kbuf len pos rw_flag) m)
      ≡ done (none, uio_kinit kbuf len pos rw_flag, m)
unfolding move_loop uio_kinit
kinit_nothing f c ptr n kbuf len pos rw_flag m nothing =
    let test : (ltb 0 n && ltb 0 len) ≡ false = ground (arith, nothing) in rw test refl

-- On a buffer of the kernel that uio_kinit sets up, uiomove ends without an error. As many bytes as are
-- asked for, or as the buffer has when it has fewer, are then a copy: of the memory from `ptr` on in
-- the buffer when reading, and of the buffer from `ptr` on when writing. It counts them off uio_resid,
-- and no other memory changes.
pub uiomove-uio_kinit :
    (c : Copier) (t_addrspace : Option ℕ) (ptr n kbuf len pos : ℕ) (rw_flag : UioRw) (m : Memory)
    → len < 2 ^ 32
    → (v : Uio) × (m' : Memory) × (uiomove c t_addrspace ptr n (uio_kinit kbuf len pos rw_flag) m
        ≡ done (none, v, m'))
      × (v.uio_resid ≡ len - min n len)
      × IsCopy m m' (target rw_flag kbuf ptr) (origin rw_flag kbuf ptr) (min n len)
unfolding uiomove uio_kinit
uiomove-uio_kinit c t_addrspace ptr n kbuf len pos rw_flag m small = elim (==-cases (min n len) 0) [
  | inl nothing ↦ (
    uio_kinit kbuf len pos rw_flag,
    m,
    kinit_nothing (n + 1) c ptr n kbuf len pos rw_flag m nothing,
    omega (arith, nothing),
    no-IsCopy m _ _ (min n len) nothing,
  )
  | inr some_bytes ↦
      let fuel : n + 1 ≡ suc n = omega arith in
      (
        advanced (uio_kinit kbuf len pos rw_flag) (record { iov_base = kbuf; iov_len = len }) []
            (min n len),
        (move_chunk c uio_sysspace rw_flag kbuf ptr (min n len) m).1,
        rw fuel (
            kinit_round n c ptr n kbuf len pos rw_flag m (omega (arith, some_bytes))
              (omega (arith, some_bytes)) small),
        omega (arith, small),
        chunk-IsCopy c rw_flag kbuf ptr (min n len) m,
      )
]
