-- ===== src/FileTable/Open.antt =====
-- sys_open of kern/syscall/io_syscalls.c: the descriptor that it takes, and its error exits.
use petrel_os.Base.{
  ℕ, zero, suc, ◌+◌, ◌%◌, ◌<◌, ◌≡◌, refl, sym, ap, ◌∙◌, subst, ◌≢◌, inl, inr, Bool, true, false,
  not, ◌&&◌, Option, none, some, List, arith, ltb, ◌==◌, if◌then◌else◌, ==_iff, ==_refl, ltb→lt,
  Bool-cases, Option-cases, update, set, set-set, set-get_or, Errno, enomem, einval, efault, emfile,
  Return, ok, fail,
}
use petrel_os.Base.Int.{pos}
use petrel_os.FileTable.{
  OpenFile, with_entry, filled, Files, OpenCalls, max_file_descriptor, entry_of, open_vnode,
  open_at, open_loop, sys_open,
}

-- Everything that sys_open calls before vfs_open succeeds, with the entry at `f`.
pub record IsReady (calls : OpenCalls) (f : ℕ) : Type 0 where
  pub entry : calls.new_file ≡ some f
  pub mutex : calls.got_mutex ≡ true
  pub kbuf : calls.got_kbuf ≡ true
  pub copied : calls.copied ≡ true

-- The step of sys_open that fails first, and its error.
pub data CallError (calls : OpenCalls) : Errno → Type 0 where
  no_entry : calls.new_file ≡ none → CallError calls enomem
  no_memory :
      (f : ℕ)
      → calls.new_file ≡ some f
      → (calls.got_mutex && calls.got_kbuf) ≡ false
      → CallError calls enomem
  not_copied :
      (f : ℕ)
      → calls.new_file ≡ some f
      → calls.got_mutex ≡ true
      → calls.got_kbuf ≡ true
      → calls.copied ≡ false
      → CallError calls efault
  not_opened : (f : ℕ) (e : Errno) → IsReady calls f → calls.opened ≡ fail e → CallError calls e

-- The tests of the arguments pass.
pub record IsProper (filename : Bool) (flags : ℕ) : Type 0 where
  pub mode : flags % 4 ≢ 3
  pub named : filename ≡ true

-- The tables, and the open files that are allocated, are as they were.
pub record IsRestored (s s' : Files) : Type 0 where
  pub fd : s'.fd ≡ s.fd
  pub others : s'.others ≡ s.others
  pub live : (g : ℕ) → s'.live g ≡ s.live g
  pub files : (g : ℕ) → s.live g ≡ true → s'.files g ≡ s.files g
  pub closed : s'.closed ≡ s.closed

-- The descriptor `i` refers to the new open file `f`, and nothing else changes.
pub record IsOpened (s : Files) (i f vnode flags : ℕ) (s' : Files) : Type 0 where
  pub fd : s'.fd ≡ set s.fd i (some f)
  pub entry : s'.files f ≡ record {
    status = flags % 4;
    offset = pos 0;
    refcnt = pos 1;
    update_pos = true;
    vnode = vnode;
  }
  pub files : (g : ℕ) → g ≢ f → s'.files g ≡ s.files g
  pub live : s'.live ≡ update s.live f true
  pub others : (s'.others ≡ s.others) × (s'.closed ≡ s.closed)

-- `i` is the lowest descriptor that refers to nothing.
pub record IsLowest (fd : List (Option ℕ)) (i : ℕ) : Type 0 where
  pub inside : i < max_file_descriptor
  pub free : entry_of fd i ≡ none
  pub below : (j : ℕ) → j < i → entry_of fd j ≢ none

-- What sys_open returns, and the state that it leaves.
pub data OpenResult (s : Files) (filename : Bool) (flags : ℕ) (calls : OpenCalls)
    : Files × Return ℕ → Type 0 where
  bad_flags : flags % 4 ≡ 3 → OpenResult s filename flags calls (s, fail einval)
  no_name : flags % 4 ≢ 3 → filename ≡ false → OpenResult s filename flags calls (s, fail efault)
  full :
      IsProper filename flags
      → ((j : ℕ) → j < max_file_descriptor → entry_of s.fd j ≢ none)
      → OpenResult s filename flags calls (s, fail emfile)
  refused :
      (i : ℕ) (e : Errno) {s' : Files}
      → IsProper filename flags
      → IsLowest s.fd i
      → CallError calls e
      → IsRestored s s'
      → OpenResult s filename flags calls (s', fail e)
  opened :
      (i f vnode : ℕ) {s' : Files}
      → IsProper filename flags
      → IsLowest s.fd i
      → IsReady calls f
      → calls.opened ≡ ok vnode
      → IsOpened s i f vnode flags s'
      → OpenResult s filename flags calls (s', ok i)

cleared : (s : Files) (i : ℕ) → entry_of s.fd i ≡ none → set s.fd i none ≡ s.fd
cleared s i free = subst (λ e. set s.fd i e ≡ s.fd) free (set-get_or s.fd i none)

-- What close_new leaves of a state that differs from `s` in the new entry only.
closed-IsRestored :
    (s : Files) (i f : ℕ) (files : ℕ → OpenFile)
    → entry_of s.fd i ≡ none
    → s.live f ≡ false
    → ((g : ℕ) → g ≢ f → files g ≡ s.files g)
    → IsRestored s (record s {
      fd = set (set s.fd i (some f)) i none;
      files = files;
      live = update (update s.live f true) f false;
    })
closed-IsRestored s i f files free fresh same = record {
  fd = set-set s.fd i (some f) none ∙ cleared s i free;
  others = refl;
  live = λ g. elim (Bool-cases (g == f)) [
    | inl one ↦ rw one (sym (ap s.live ((==_iff g f).0 one) ∙ fresh))
    | inr two ↦ rw two refl
  ];
  files = λ g alive. same g (λ e. cc (e, alive, fresh));
  closed = refl;
}

filled-other :
    (s : Files) (i f flags g : ℕ) → g ≢ f → (filled (with_entry s i f) f flags).files g ≡ s.files g
filled-other s i f flags g ne =
    let other : (g == f) ≡ false = ground (arith, ==_iff g f, ne) in rw other refl

open_vnode-OpenResult :
    (s : Files) (filename : Bool) (i f flags : ℕ) (calls : OpenCalls) (r : Return ℕ)
    → s.live f ≡ false
    → IsProper filename flags
    → IsLowest s.fd i
    → IsReady calls f
    → calls.opened ≡ r
    → OpenResult s filename flags calls (open_vnode (filled (with_entry s i f) f flags) i f r)
unfolding open_vnode
open_vnode-OpenResult s filename i f flags calls (fail e) fresh p low ready o =
    refused i e p low (not_opened f e ready o)
      (closed-IsRestored s i f _ low.free fresh (filled-other s i f flags))
open_vnode-OpenResult s filename i f flags calls (ok vnode) fresh p low ready o =
    opened i f vnode p low ready o (record {
      fd = refl;
      entry = rw (==_refl f) refl;
      files =
          λ g ne. let other : (g == f) ≡ false = ground (arith, ==_iff g f, ne) in rw other refl;
      live = refl;
      others = (refl, refl);
    })

open_at-OpenResult :
    (s : Files) (filename : Bool) (i flags : ℕ) (calls : OpenCalls) (new_file : Option ℕ)
    → ((f : ℕ) → new_file ≡ some f → s.live f ≡ false)
    → IsProper filename flags
    → IsLowest s.fd i
    → calls.new_file ≡ new_file
    → OpenResult s filename flags calls (open_at s i flags calls new_file)
unfolding open_at
open_at-OpenResult s filename i flags calls none fresh p low new =
    refused i enomem p low (no_entry new) (record {
      fd = cleared s i low.free;
      others = refl;
      live = λ g. refl;
      files = λ g alive. refl;
      closed = refl;
    })
open_at-OpenResult s filename i flags calls (some f) fresh p low new =
    let restored = closed-IsRestored s i f _ low.free (fresh f refl) (filled-other s i f flags) in
    elim (Bool-cases calls.got_mutex) [
      | inr lacks ↦ simp lacks (
          refused i enomem p low (no_memory f new (ground (arith, lacks)))
            (closed-IsRestored s i f s.files low.free (fresh f refl) (λ g ne. refl)))
      | inl mutex ↦ elim (Bool-cases calls.got_kbuf) [
        | inr lacks ↦
            simp (mutex, lacks)
              (refused i enomem p low (no_memory f new (ground (arith, mutex, lacks))) restored)
        | inl kbuf ↦ elim (Bool-cases calls.copied) [
          | inr lacks ↦
              simp (mutex, kbuf, lacks)
                (refused i efault p low (not_copied f new mutex kbuf lacks) restored)
          | inl copied ↦
              simp (mutex, kbuf, copied)
                (open_vnode-OpenResult s filename i f flags calls calls.opened (fresh f refl) p low
                  (record { entry = new; mutex = mutex; kbuf = kbuf; copied = copied }) refl)
        ]
      ]
    ]

open_loop-OpenResult :
    (s : Files) (filename : Bool) (rounds i flags : ℕ) (calls : OpenCalls)
    → ((f : ℕ) → calls.new_file ≡ some f → s.live f ≡ false)
    → IsProper filename flags
    → i + rounds ≡ max_file_descriptor
    → ((j : ℕ) → j < i → entry_of s.fd j ≢ none)
    → OpenResult s filename flags calls (open_loop rounds i s flags calls)
unfolding open_loop
open_loop-OpenResult s filename zero i flags calls fresh p e taken =
    full p (λ j h. taken j (omega (arith, h, e)))
open_loop-OpenResult s filename (suc rounds) i flags calls fresh p e taken =
    elim (Option-cases (entry_of s.fd i)) [
      | inl null ↦
          rw (open_loop, null)
            (open_at-OpenResult s filename i flags calls calls.new_file fresh p
              (record { inside = omega (arith, e); free = null; below = taken }) refl)
      | inr (f, used) ↦
          rw (open_loop, used)
            (open_loop-OpenResult s filename rounds (suc i) flags calls fresh p (omega (arith, e))
              (one_taken i f used taken))
    ]
  where
    one_taken :
        (i f : ℕ)
        → entry_of s.fd i ≡ some f
        → ((j : ℕ) → j < i → entry_of s.fd j ≢ none)
        → (j : ℕ) → j < suc i
        → entry_of s.fd j ≢ none
    one_taken i f used taken j h null = elim (Bool-cases (ltb j i)) [
      | inl below ↦ taken j (ltb→lt j i below) null
      | inr not_below ↦ absurd (none_some j i f (ground (arith, not_below, h)) used null)
    ]
      where
        none_some : (j i f : ℕ) → i ≡ j → entry_of s.fd i ≡ some f → entry_of s.fd j ≡ none → ⊥
        none_some j i f e used null = cc (e, used, null)

-- What sys_open does, whatever the calls answer, where kmalloc gives an address that is not in use: it
-- refuses flags without an access mode, then a NULL name, then a full table; then it gives the error of
-- the first call that fails, every table and allocated open file being again as before; and where all
-- succeed the lowest free descriptor refers to a new open file with the vnode of vfs_open, nothing else
-- changing.
pub sys_open-OpenResult :
    (s : Files) (filename : Bool) (flags : ℕ) (calls : OpenCalls)
    → ((f : ℕ) → calls.new_file ≡ some f → s.live f ≡ false)
    → OpenResult s filename flags calls (sys_open s filename flags calls)
unfolding sys_open
sys_open-OpenResult s filename flags calls fresh = elim (Bool-cases (flags % 4 == 3)) [
  | inl bad ↦ rw bad (bad_flags ((==_iff (flags % 4) 3).0 bad))
  | inr good ↦ rw good (by_name filename (λ e. absurd (ground (arith, good, e))))
]
  where
    by_name :
        (filename : Bool)
        → flags % 4 ≢ 3
        → OpenResult s filename flags calls (
            if not filename
            then (s, fail efault)
            else open_loop max_file_descriptor 0 s flags calls)
    by_name false mode = no_name mode refl
    by_name true mode =
        open_loop-OpenResult s true max_file_descriptor 0 flags calls fresh
          (record { mode = mode; named = refl }) refl (λ j h. absurd (omega (arith, h)))
