-- ===== src/Process/Exit.antt =====
-- sys__exit of kern/syscall/waitexit_syscalls.c, with thread_exit.
use petrel_os.Base.{
  ℕ, zero, suc, ◌+◌, ◌<◌, ◌≡◌, refl, sym, ap, ◌∙◌, subst, ◌≢◌, ◌⊎◌, inl, inr, true, false, ◌||◌,
  Option, none, some, List, [], ◌∷◌, ◌++◌, arith, ◌==◌, if◌then◌else◌, ==_iff, ==_refl, Bool-cases,
  update, set, get_or-set_self, get_or-set_ne, done,
}
use petrel_os.Base.Int.{pos, negsuc, ltb_ℤ}
use petrel_os.FileTable.{Files, max_file_descriptor, entry_of, sys_close}
use petrel_os.FileTable.Counts.{IsCounted}
use petrel_os.FileTable.Close.{sys_close-fd, sys_close-IsCounted, one_index}
use petrel_os.Process.{
  Thread, Processes, current_thread, close_loop, make_orphan, orphan_loop, thread_exit, wait_exit,
  is_child, sys__exit, listed, cleaned_up,
}

-- Every pid in the list is that of a thread other than the current one.
pub data Children (table : ℕ → Option ℕ) (current : ℕ) : List ℕ → Type 0 where
  no_child : Children table current []
  child :
      (pid t : ℕ) {pids : List ℕ}
      → table pid ≡ some t
      → t ≢ current
      → Children table current pids
      → Children table current (pid ∷ pids)

-- The threads of the list are orphans, and no thread changed in any other way.
pub record IsOrphaned (table : ℕ → Option ℕ) (current : ℕ) (pids : List ℕ)
    (threads threads' : ℕ → Thread) : Type 0 where
  pub each :
      (pid t : ℕ)
      → is_child pid pids ≡ true
      → table pid ≡ some t
      → (threads' t).parent_pid ≡ negsuc 0
  pub own : threads' current ≡ threads current
  pub rest : (t : ℕ) → (threads' t ≡ threads t) ⊎ (threads' t ≡ make_orphan (threads t))

orphan-step :
    (table : ℕ → Option ℕ) (current pid t : ℕ) (pids : List ℕ) (threads threads' : ℕ → Thread)
    → table pid ≡ some t
    → t ≢ current
    → IsOrphaned table current pids (update threads t (make_orphan (threads t))) threads'
    → IsOrphaned table current (pid ∷ pids) threads threads'
orphan-step table current pid t pids threads threads' e ne r = record {
  each = λ q u member at. elim (Bool-cases (pid == q)) [
    | inl one ↦
        let same_pid : pid ≡ q = (==_iff pid q).0 one in
        let same_thread : t ≡ u = one_index (sym (ap table same_pid) ∙ e) at in
        subst (λ u. (threads' u).parent_pid ≡ negsuc 0) same_thread (orphan (r.rest t))
    | inr two ↦ r.each q u (tail q member two) at
  ];
  own = r.own ∙ unchanged current (λ x. ne (sym x));
  rest = λ u. elim (Bool-cases (u == t)) [
    | inl one ↦
        subst (λ u. (threads' u ≡ threads u) ⊎ (threads' u ≡ make_orphan (threads u)))
          (sym ((==_iff u t).0 one)) (inr (collapsed (r.rest t)))
    | inr two ↦ other u two (r.rest u)
  ];
}
  where
    at_t : update threads t (make_orphan (threads t)) t ≡ make_orphan (threads t)
    at_t = rw (==_refl t) refl

    unchanged : (u : ℕ) → u ≢ t → update threads t (make_orphan (threads t)) u ≡ threads u
    unchanged u h = let apart : (u == t) ≡ false = ground (arith, ==_iff u t, h) in rw apart refl

    collapsed :
        (threads' t ≡ update threads t (make_orphan (threads t)) t)
          ⊎ (threads' t ≡ make_orphan (update threads t (make_orphan (threads t)) t))
        → threads' t ≡ make_orphan (threads t)
    collapsed (inl h) = h ∙ at_t
    collapsed (inr h) = h ∙ ap make_orphan at_t

    orphan :
        (threads' t ≡ update threads t (make_orphan (threads t)) t)
          ⊎ (threads' t ≡ make_orphan (update threads t (make_orphan (threads t)) t))
        → (threads' t).parent_pid ≡ negsuc 0
    orphan h = ap (λ x. x.parent_pid) (collapsed h)

    tail :
        (q : ℕ) → (pid == q || is_child q pids) ≡ true → (pid == q) ≡ false → is_child q pids ≡ true
    tail q member two = ground (arith, member, two)

    other :
        (u : ℕ)
        → (u == t) ≡ false
        → (threads' u ≡ update threads t (make_orphan (threads t)) u)
          ⊎ (threads' u ≡ make_orphan (update threads t (make_orphan (threads t)) u))
        → (threads' u ≡ threads u) ⊎ (threads' u ≡ make_orphan (threads u))
    other u two h = subst (λ x. (threads' u ≡ x) ⊎ (threads' u ≡ make_orphan x)) (rw two refl) h

orphan_loop-IsOrphaned :
    (table : ℕ → Option ℕ) (current : ℕ) (pids : List ℕ) (threads : ℕ → Thread)
    → Children table current pids
    → (threads' : ℕ → Thread) × (orphan_loop pids table threads ≡ done threads')
      × IsOrphaned table current pids threads threads'
unfolding orphan_loop
orphan_loop-IsOrphaned table current [] threads no_child = (
  threads,
  refl,
  record {
    each = λ pid t member e. absurd (ground (arith, member));
    own = refl;
    rest = λ t. inl refl;
  },
)
orphan_loop-IsOrphaned table current (pid ∷ pids) threads (child _ t e ne cs) =
    let (threads', returns, r) =
      orphan_loop-IsOrphaned table current pids (update threads t (make_orphan (threads t))) cs in
    (
      threads',
      rw (orphan_loop, e) returns,
      orphan-step table current pid t pids threads threads' e ne r,
    )

close_loop-IsCounted : (rounds i : ℕ) (s : Files) → IsCounted s → IsCounted (close_loop rounds i s)
unfolding close_loop
close_loop-IsCounted zero i s c = c
close_loop-IsCounted (suc rounds) i s c =
    close_loop-IsCounted rounds (suc i) (sys_close s (pos i)).0 (sys_close-IsCounted s (pos i) c)

-- Closing one descriptor after the other leaves none open.
close_loop-closed :
    (rounds i : ℕ) (s : Files)
    → IsCounted s
    → i + rounds ≡ max_file_descriptor
    → ((j : ℕ) → j < i → entry_of s.fd j ≡ none)
    → (j : ℕ) → j < max_file_descriptor
    → entry_of (close_loop rounds i s).fd j ≡ none
unfolding close_loop
close_loop-closed zero i s c e shut j h = shut j (omega (arith, e, h))
close_loop-closed (suc rounds) i s c e shut j h =
    close_loop-closed rounds (suc i) (sys_close s (pos i)).0 (sys_close-IsCounted s (pos i) c)
      (omega (arith, e)) one_more j h
  where
    one_more : (j : ℕ) → j < suc i → entry_of (sys_close s (pos i)).0.fd j ≡ none
    one_more j h =
        ap (λ fd. entry_of fd j) (sys_close-fd s i c (omega (arith, e)))
        ∙ elim (Bool-cases (i == j)) [
          | inl one ↦
              subst (λ j. entry_of (set s.fd i none) j ≡ none) ((==_iff i j).0 one)
                (get_or-set_self s.fd i none none (omega (arith, c.size, e)))
          | inr two ↦
              get_or-set_ne s.fd i j none none (λ x. absurd (ground (arith, x, two)))
              ∙ shut j (ground (arith, h, two))
        ]

-- What an exited process leaves.
pub record IsExited (p : Processes) (exitcode : ℕ) (p' : Processes) : Type 0 where
  pub counted : IsCounted p'.files
  pub closed : (j : ℕ) → j < max_file_descriptor → entry_of p'.files.fd j ≡ none
  pub orphans :
      (pid t : ℕ)
      → is_child pid (current_thread p).children ≡ true
      → p.process_table pid ≡ some t
      → t ≢ p.current
      → (p'.threads t).parent_pid ≡ negsuc 0
  pub status : (current_thread p').exit_status ≡ wait_exit exitcode
  pub no_children : (current_thread p').children ≡ []
  pub signalled : (current_thread p').signals ≡ (
      if ltb_ℤ (pos 0) (current_thread p).parent_pid
      then (current_thread p).signals + 1
      else (current_thread p).signals)
  pub zombie : p'.zombies ≡ p.zombies ++ (p.current ∷ [])
  pub table : p'.process_table ≡ p.process_table
  pub zombie_state : (current_thread p').is_zombie ≡ true
  pub gives_back :
      (p'.decreffed ≡ listed (current_thread p).t_cwd p.decreffed)
      × (p'.as_destroyed ≡ listed (current_thread p).t_addrspace p.as_destroyed)
  pub cleared : ((current_thread p').t_cwd ≡ none) × ((current_thread p').t_addrspace ≡ none)

-- The thread holds no buffer of the buffer cache, and has reserved none.
pub record HoldsNone (t : Thread) : Type 0 where
  pub busy : t.t_busy_buffers ≡ 0
  pub reserved : t.t_reserved_buffers ≡ 0

-- The state that sys__exit hands to thread_exit.
abbrev leaving : Processes → ℕ → (ℕ → Thread) → Processes
leaving p exitcode threads = record p {
  files = close_loop max_file_descriptor 0 p.files;
  threads =
      update threads p.current
        (record (threads p.current) { children = []; exit_status = wait_exit exitcode });
}

thread_exit-IsExited :
    (p : Processes) (exitcode : ℕ) (threads : ℕ → Thread)
    → IsCounted p.files
    → IsOrphaned p.process_table p.current (current_thread p).children p.threads threads
    → HoldsNone (current_thread p)
    → (p' : Processes) × (thread_exit (leaving p exitcode threads) ≡ done p')
      × IsExited p exitcode p'
unfolding thread_exit close_loop
thread_exit-IsExited p exitcode threads c r h = (
  cleaned_up (leaving p exitcode threads),
  rw (busy, reserved) refl,
  record {
    counted = close_loop-IsCounted max_file_descriptor 0 p.files c;
    closed =
        close_loop-closed max_file_descriptor 0 p.files c refl (λ j h. absurd (omega (arith, h)));
    orphans = λ pid t member e ne. rw (apart t ne) (r.each pid t member e);
    status = rw (==_refl p.current) refl;
    no_children = rw (==_refl p.current) refl;
    signalled = rw (==_refl p.current, r.own) refl;
    zombie = refl;
    table = refl;
    zombie_state = rw (==_refl p.current) refl;
    gives_back = rw (==_refl p.current, r.own) (refl, refl);
    cleared = rw (==_refl p.current) (refl, refl);
  },
)
  where
    apart : (t : ℕ) → t ≢ p.current → (t == p.current) ≡ false
    apart t ne = ground (arith, ==_iff t p.current, ne)

    busy : ((current_thread (leaving p exitcode threads)).t_busy_buffers == 0) ≡ true
    busy = rw (==_refl p.current, r.own, h.busy) refl

    reserved : ((current_thread (leaving p exitcode threads)).t_reserved_buffers == 0) ≡ true
    reserved = rw (==_refl p.current, r.own, h.reserved) refl

-- sys__exit returns where the counts of the open files are right and the process table has every
-- child, and the thread neither holds nor has reserved a buffer. Then every descriptor of the process is closed and the counts are still right, every child
-- has parent_pid -1, the exit status is stored, V is called exactly where there is a parent, the
-- working directory is given back and the address space destroyed, and the thread is the last zombie.
pub sys__exit-IsExited :
    (p : Processes) (exitcode : ℕ)
    → IsCounted p.files
    → Children p.process_table p.current (current_thread p).children
    → HoldsNone (current_thread p)
    → (p' : Processes) × (sys__exit p exitcode ≡ done p') × IsExited p exitcode p'
unfolding sys__exit close_loop
sys__exit-IsExited p exitcode c cs h =
    let (threads, returns, r) =
      orphan_loop-IsOrphaned p.process_table p.current (current_thread p).children p.threads cs in
    let (p', exits, result) = thread_exit-IsExited p exitcode threads c r h in
    (p', rw returns exits, result)
