-- ===== src/Process/Fork.antt =====
-- sys_fork of kern/syscall/fork.c, with its error exits.
use petrel_os.Base.{
  ℕ, ◌≤◌, ◌<◌, ◌≡◌, refl, sym, ap, ◌∙◌, subst, ◌≢◌, inl, inr, Bool, true, false, ◌&&◌, Option, none,
  some, [], ◌∷◌, arith, ◌==◌, ==_iff, ==_refl, Bool-cases, update, Errno, enomem, enproc, Return,
  ok, fail,
}
use petrel_os.Base.Int.{pos}
use petrel_os.FileTable.{fork_files}
use petrel_os.FileTable.Counts.{IsCounted}
use petrel_os.FileTable.Fork.{fork_files-IsCounted}
use petrel_os.Process.{
  pid_min, max_processes, Processes, child_pidlist, child_waiting_on, child_as, wait_on_parent,
  wait_on_child, init_data, ForkCalls, current_thread, populate, fork_thread, fork_pid, getpid,
  sys_fork,
}
use petrel_os.Process.Pids.{IsLowestFree, PidResult, found, full, getpid-PidResult}

-- Everything is as it was before.
pub record IsUndone (p p' : Processes) : Type 0 where
  pub table : (pid : ℕ) → p'.process_table pid ≡ p.process_table pid
  pub threads : p'.threads ≡ p.threads
  pub held : p'.held ≡ p.held
  pub files : p'.files ≡ p.files
  pub rest : (p'.current ≡ p.current) × ((p'.zombies ≡ p.zombies) × (p'.destroyed ≡ p.destroyed))

-- The child `child` of the pid `childpid` beside its parent.
pub record IsForked (p : Processes) (childpid new_as child : ℕ) (p' : Processes) : Type 0 where
  pub lowest : IsLowestFree p.process_table childpid
  pub entry : p'.process_table childpid ≡ some child
  pub others : (pid : ℕ) → pid ≢ childpid → p'.process_table pid ≡ p.process_table pid
  pub parent : (p'.threads child).parent_pid ≡ pos (current_thread p).pid
  pub own_pid : (p'.threads child).pid ≡ childpid
  pub no_children : (p'.threads child).children ≡ []
  pub directory : (p'.threads child).t_cwd ≡ (current_thread p).t_cwd
  pub space : (p'.threads child).t_addrspace ≡ some new_as
  pub children : (current_thread p').children ≡ childpid ∷ (current_thread p).children
  pub held : p'.held ≡ child_pidlist ∷ child_waiting_on ∷ child_as ∷ p.held
  pub files : p'.files ≡ fork_files p.files

-- Every allocation in sys_fork succeeds, and as_copy does.
abbrev pub all_given : ForkCalls → Bool
all_given calls =
    calls.got_data && calls.got_wait_on_child && calls.got_wait_on_parent && calls.copied_as
    && calls.got_waiting_on && calls.got_pidlist

-- Why sys_fork fails, and its error.
pub data ForkError (p : Processes) (calls : ForkCalls) : Errno → Type 0 where
  no_pid :
      ((pid : ℕ) → pid_min ≤ pid → pid < max_processes → p.process_table pid ≢ none)
      → ForkError p calls enproc
  not_given :
      (childpid : ℕ)
      → IsLowestFree p.process_table childpid
      → all_given calls ≡ false
      → ForkError p calls enomem
  no_thread :
      (childpid : ℕ) (e : Errno)
      → IsLowestFree p.process_table childpid
      → all_given calls ≡ true
      → calls.forked ≡ fail e
      → ForkError p calls e

pub data ForkResult (p : Processes) (calls : ForkCalls) : Processes × Return ℕ → Type 0 where
  failed :
      (e : Errno) {p' : Processes}
      → ForkError p calls e
      → IsUndone p p'
      → ForkResult p calls (p', fail e)
  forked :
      (childpid child : ℕ) {p' : Processes}
      → all_given calls ≡ true
      → calls.forked ≡ ok child
      → IsForked p childpid calls.new_as child p'
      → ForkResult p calls (p', ok childpid)

-- What the error exits leave, once everything that was allocated is freed.
abbrev undo : Processes → ℕ → Processes
undo p childpid = record p {
  process_table = update (update p.process_table childpid (some p.current)) childpid none;
}

undo-IsUndone :
    (p : Processes) (childpid : ℕ) → p.process_table childpid ≡ none → IsUndone p (undo p childpid)
undo-IsUndone p childpid free = record {
  table = λ pid. elim (Bool-cases (pid == childpid)) [
    | inl one ↦ rw one (sym (ap p.process_table ((==_iff pid childpid).0 one) ∙ free))
    | inr two ↦ rw two refl
  ];
  threads = refl;
  held = refl;
  files = refl;
  rest = (refl, (refl, refl));
}

-- What populate gets: the pid reserved, and everything allocated.
abbrev ready : Processes → ℕ → Processes
ready p childpid = record p {
  process_table = update p.process_table childpid (some p.current);
  held =
      child_pidlist ∷ child_waiting_on ∷ child_as ∷ wait_on_parent ∷ wait_on_child ∷ init_data
      ∷ p.held;
}

populate-IsForked :
    (p : Processes) (childpid new_as child : ℕ)
    → IsLowestFree p.process_table childpid
    → child ≢ p.current
    → IsForked p childpid new_as child (populate (ready p childpid) childpid new_as child)
unfolding populate
populate-IsForked p childpid new_as child l ne =
    let apart : (child == p.current) ≡ false = ground (arith, ==_iff child p.current, ne) in
    record {
      lowest = l;
      entry = rw (==_refl childpid) refl;
      others = λ pid other. rw (the_other pid other) refl;
      parent = rw (apart, ==_refl child) refl;
      own_pid = rw (apart, ==_refl child) refl;
      no_children = rw (apart, ==_refl child) refl;
      directory = rw (apart, ==_refl child) refl;
      space = rw (apart, ==_refl child) refl;
      children = rw (==_refl p.current) refl;
      held = refl;
      files = refl;
    }
  where
    the_other : (pid : ℕ) → pid ≢ childpid → (pid == childpid) ≡ false
    the_other pid other = ground (arith, ==_iff pid childpid, other)

fork_thread-ForkResult :
    (p : Processes) (childpid : ℕ) (calls : ForkCalls) (r : Return ℕ)
    → IsLowestFree p.process_table childpid
    → all_given calls ≡ true
    → calls.forked ≡ r
    → ((child : ℕ) → r ≡ ok child → child ≢ p.current)
    → ForkResult p calls (fork_thread (ready p childpid) childpid calls.new_as r)
unfolding fork_thread
fork_thread-ForkResult p childpid calls (fail e) l given answer fresh =
    failed e (no_thread childpid e l given answer) (undo-IsUndone p childpid l.free)
fork_thread-ForkResult p childpid calls (ok child) l given answer fresh =
    forked childpid child given answer
      (populate-IsForked p childpid calls.new_as child l (fresh child refl))

fork_pid-ForkResult :
    (p : Processes) (childpid : ℕ) (calls : ForkCalls)
    → IsLowestFree p.process_table childpid
    → ((child : ℕ) → calls.forked ≡ ok child → child ≢ p.current)
    → ForkResult p calls (fork_pid p childpid calls)
unfolding fork_pid
fork_pid-ForkResult p childpid calls l fresh =
    let undone : all_given calls ≡ false → ForkResult p calls (undo p childpid, fail enomem) =
      λ lacks. failed enomem (not_given childpid l lacks) (undo-IsUndone p childpid l.free) in
    elim (Bool-cases calls.got_data) [
      | inr lacks ↦ simp lacks (undone (ground (arith, lacks)))
      | inl c0 ↦ elim (Bool-cases calls.got_wait_on_child) [
        | inr lacks ↦ simp (c0, lacks) (undone (ground (arith, c0, lacks)))
        | inl c1 ↦ elim (Bool-cases calls.got_wait_on_parent) [
          | inr lacks ↦ simp (c0, c1, lacks) (undone (ground (arith, c0, c1, lacks)))
          | inl c2 ↦ elim (Bool-cases calls.copied_as) [
            | inr lacks ↦ simp (c0, c1, c2, lacks) (undone (ground (arith, c0, c1, c2, lacks)))
            | inl c3 ↦ elim (Bool-cases calls.got_waiting_on) [
              | inr lacks ↦
                  simp (c0, c1, c2, c3, lacks) (undone (ground (arith, c0, c1, c2, c3, lacks)))
              | inl c4 ↦ elim (Bool-cases calls.got_pidlist) [
                | inr lacks ↦
                    simp (c0, c1, c2, c3, c4, lacks)
                      (undone (ground (arith, c0, c1, c2, c3, c4, lacks)))
                | inl c5 ↦
                    simp (c0, c1, c2, c3, c4, c5)
                      (fork_thread-ForkResult p childpid calls calls.forked l
                        (ground (arith, c0, c1, c2, c3, c4, c5)) refl fresh)
              ]
            ]
          ]
        ]
      ]
    ]

pub sys_fork-ForkResult :
    (p : Processes) (calls : ForkCalls)
    → ((child : ℕ) → calls.forked ≡ ok child → child ≢ p.current)
    → ForkResult p calls (sys_fork p calls)
unfolding sys_fork
sys_fork-ForkResult p calls fresh = go (getpid p.process_table) (getpid-PidResult p.process_table)
  where
    go :
        (o : Option ℕ)
        → PidResult p.process_table o
        → ForkResult p calls
            (elim o [ none ↦ (p, fail enproc) | some childpid ↦ fork_pid p childpid calls ])
    go none (full h) = failed enproc (no_pid h) (record {
      table = λ pid. refl;
      threads = refl;
      held = refl;
      files = refl;
      rest = (refl, (refl, refl));
    })
    go (some childpid) (found _ l) = fork_pid-ForkResult p childpid calls l fresh

-- Where thread_fork gives a thread other than the caller and the reference counts of the open files are
-- right, they are right after sys_fork, on an error too.
pub sys_fork-IsCounted :
    (p : Processes) (calls : ForkCalls)
    → ((child : ℕ) → calls.forked ≡ ok child → child ≢ p.current)
    → IsCounted p.files
    → IsCounted (sys_fork p calls).0.files
sys_fork-IsCounted p calls fresh c = go (sys_fork-ForkResult p calls fresh)
  where
    go : {r : Processes × Return ℕ} → ForkResult p calls r → IsCounted r.0.files
    go (failed e why u) = subst IsCounted (sym u.files) c
    go (forked childpid child given e f) =
        subst IsCounted (sym f.files) (fork_files-IsCounted p.files c)
