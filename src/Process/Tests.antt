-- ===== src/Process/Tests.antt =====
-- A process that forks, exits and is waited for.
use petrel_os.Base.{
  ℕ, ◌≡◌, refl, ap, ◌≢◌, true, false, ◌&&◌, ◌||◌, none, some, [], ◌∷◌, arith, ◌==◌, update,
  replicate, done, Return, ok, fail,
}
use petrel_os.Base.Int.{pos, eqb_ℤ}
use petrel_os.FileTable.{Files}
use petrel_os.FileTable.Counts.{IsCounted}
use petrel_os.Process.{Processes, ForkCalls, is_child, getpid, sys_fork, sys__exit, exorcise}
use petrel_os.Process.Fork.{sys_fork-IsCounted}
use petrel_os.Process.Exit.{Children, no_child, child, IsExited, sys__exit-IsExited}
use petrel_os.Process.Reap.{AllZombies, no_zombie, zombie, exorcise-destroyed}

abbrev no_files : Files
no_files = record {
  fd = replicate 16 none;
  others = [];
  files = λ _. record { status = 0; offset = pos 0; refcnt = pos 0; update_pos = false; vnode = 0 };
  live = λ _. false;
  closed = [];
}

no_files-IsCounted : IsCounted no_files
no_files-IsCounted = record {
  size = refl;
  counted = λ f e. ground (arith, e);
  used = λ f e. ground (arith, e);
  dangling = λ f e. refl;
}

-- The thread 20 is the process 2, which has the child 3, the thread 30; that one has exited.
abbrev family : Processes
family = record {
  current = 20;
  process_table = update (update (λ _. none) 2 (some 20)) 3 (some 30);
  threads =
      update
        (λ _. record {
          pid = 2;
          parent_pid = pos 0;
          exit_status = 0;
          children = 3 ∷ [];
          signals = 0;
          t_busy_buffers = 0;
          t_reserved_buffers = 0;
          t_cwd = some 90;
          t_addrspace = some 91;
          is_zombie = false;
        })
        30
        (record {
          pid = 3;
          parent_pid = pos 2;
          exit_status = 28;
          children = [];
          signals = 1;
          t_busy_buffers = 0;
          t_reserved_buffers = 0;
          t_cwd = none;
          t_addrspace = none;
          is_zombie = true;
        });
  zombies = 30 ∷ [];
  destroyed = [];
  decreffed = [];
  as_destroyed = [];
  held = [];
  files = no_files;
}

abbrev fork_calls : ForkCalls
fork_calls = record {
  got_data = true;
  got_wait_on_child = true;
  got_wait_on_parent = true;
  copied_as = true;
  got_waiting_on = true;
  got_pidlist = true;
  new_as = 92;
  forked = ok 40;
}

-- The thread that thread_fork gives is not the caller.
fresh : (t : ℕ) → fork_calls.forked ≡ ok t → t ≢ 20
fresh t e h = omega (arith, ap value e, h)
  where
    value : Return ℕ → ℕ
    value (ok n) = n
    value (fail e) = 0

forked_pid : (sys_fork family fork_calls).1 ≡ ok 4
unfolding sys_fork getpid
forked_pid = refl

-- The process with a file open at the descriptor 2.
abbrev with_file : Files
with_file = record no_files {
  fd = none ∷ none ∷ some 7 ∷ replicate 13 none;
  files = λ _. record { status = 0; offset = pos 0; refcnt = pos 1; update_pos = true; vnode = 4 };
  live = λ f. f == 7;
}

with_file-IsCounted : IsCounted with_file
with_file-IsCounted = record {
  size = refl;
  counted = λ f e. ground (arith, e);
  used = λ f e. ground (arith, e);
  dangling = λ f e. ground (arith, e);
}

abbrev reading : Processes
reading = record family { files = with_file }

sys_fork-IsCounted_example : IsCounted (sys_fork reading fork_calls).0.files
sys_fork-IsCounted_example = sys_fork-IsCounted reading fork_calls fresh with_file-IsCounted

family-Children : Children family.process_table 20 (3 ∷ [])
family-Children = child 3 30 refl (λ e. omega (arith, e)) no_child

sys__exit-IsExited_example :
    (p' : Processes) × (sys__exit family 7 ≡ done p') × IsExited family 7 p'
sys__exit-IsExited_example =
    sys__exit-IsExited family 7 no_files-IsCounted family-Children
      (record { busy = refl; reserved = refl })

family-AllZombies : AllZombies family (30 ∷ [])
family-AllZombies = zombie 30 (λ e. omega (arith, e)) refl no_zombie

exorcise-destroyed_example :
    (p' : Processes) × (exorcise family ≡ done p')
    × (p'.zombies ≡ [])
    × (is_child 30 p'.destroyed ≡ (
        is_child 30 family.destroyed
        || (is_child 30 family.zombies && eqb_ℤ (family.threads 30).parent_pid (pos 0))))
exorcise-destroyed_example = exorcise-destroyed family 30 family-AllZombies

-- The zombie is dropped from the list, and not destroyed.
dropped : exorcise family ≡ done (record family { zombies = [] })
unfolding exorcise
dropped = refl
