-- ===== src/Process.antt =====
-- Processes: kern/syscall/fork.c, kern/syscall/waitexit_syscalls.c and, of kern/thread/thread.c,
-- thread_exit and exorcise. Threads stand in a store by their address. What
-- kmalloc, sem_create, as_copy, thread_fork and copyout answer are arguments.
pub mod Pids
pub mod Fork
pub mod Exit
pub mod Wait
pub mod Reap
mod Tests
use petrel_os.Base.{
  ℕ, zero, suc, ◌+◌, ◌-◌, ◌*◌, ◌%◌, Bool, true, false, not, ◌||◌, Option, none, some, List, [], ◌∷◌,
  ◌++◌, ltb, ◌==◌, if◌then◌else◌, update, Outcome, done, panic, hang, ◌>>=◌, ◌>>◌, kassert, Errno,
  enomem, einval, efault, esrch, echild, enproc, Return, ok, fail,
}
use petrel_os.Base.Int.{ℤ, pos, negsuc, ltb_ℤ, eqb_ℤ}
use petrel_os.FileTable.{Files, max_file_descriptor, sys_close, fork_files}

-- The fields of `struct thread` that the process system calls use; `signals` is the count of the
-- semaphore `waiting_on`, a pid_list is the list of its pids, and `is_zombie` is t_state == S_ZOMBIE.
pub record Thread : Type 0 where
  pub pid : ℕ
  pub parent_pid : ℤ
  pub exit_status : ℕ
  pub children : List ℕ
  pub signals : ℕ
  pub t_busy_buffers : ℕ
  pub t_reserved_buffers : ℕ
  pub t_cwd : Option ℕ
  pub t_addrspace : Option ℕ
  pub is_zombie : Bool

-- What sys_fork allocates.
pub data Resource : Type 0 where
  init_data wait_on_child wait_on_parent child_as child_waiting_on child_pidlist : Resource

-- `current` is curthread, and `files` has its descriptors. `zombies` is curcpu->c_zombies, and
-- `destroyed` lists what thread_destroy was called on, `decreffed` the vnodes that thread_exit called
-- VOP_DECREF on, and `as_destroyed` the address spaces that it destroyed. `held` lists what sys_fork has allocated and
-- not freed.
pub record Processes : Type 0 where
  pub current : ℕ
  pub process_table : ℕ → Option ℕ
  pub threads : ℕ → Thread
  pub zombies : List ℕ
  pub destroyed : List ℕ
  pub decreffed : List ℕ
  pub as_destroyed : List ℕ
  pub held : List Resource
  pub files : Files

-- PID_MIN, MAX_PROCESSES and PID_MAX
abbrev pub pid_min : ℕ
pid_min = 2

abbrev pub max_processes : ℕ
max_processes = 256

-- The loop of getpid, with `rounds` left from `i` on.
pid_loop : ℕ → ℕ → (ℕ → Option ℕ) → Option ℕ
pid_loop zero i table = none
pid_loop (suc rounds) i table =
    let rest = pid_loop rounds (suc i) table in elim (table i) [ none ↦ some i | some t ↦ rest ]

-- getpid gives `none` for -1.
pub getpid : (ℕ → Option ℕ) → Option ℕ
unfolding pid_loop
getpid table = pid_loop (max_processes - pid_min) pid_min table

-- What the calls in sys_fork answer: whether each allocation succeeds, whether as_copy does, and
-- what address space it gives, and the new thread or the error of thread_fork.
pub record ForkCalls : Type 0 where
  pub got_data : Bool
  pub got_wait_on_child : Bool
  pub got_wait_on_parent : Bool
  pub copied_as : Bool
  pub got_waiting_on : Bool
  pub got_pidlist : Bool
  pub new_as : ℕ
  pub forked : Return ℕ

abbrev pub hold : Processes → Resource → Processes
hold p r = record p { held = r ∷ p.held }

abbrev code_of : Resource → ℕ
code_of init_data = 0
code_of wait_on_child = 1
code_of wait_on_parent = 2
code_of child_as = 3
code_of child_waiting_on = 4
code_of child_pidlist = 5

abbrev pub without : Resource → List Resource → List Resource
without r [] = []
without r (x ∷ xs) = if code_of x == code_of r then xs else x ∷ without r xs

-- kfree, sem_destroy or as_destroy.
abbrev pub release : Processes → Resource → Processes
release p r = record p { held = without r p.held }

abbrev pub current_thread : Processes → Thread
current_thread p = p.threads p.current

-- The error exits, from the last label to the first; each frees one thing and falls through.
abbrev pub err2 : ℕ → Errno → Processes → Processes × Return ℕ
err2 childpid e p = (record p { process_table = update p.process_table childpid none }, fail e)

abbrev pub err3 : ℕ → Errno → Processes → Processes × Return ℕ
err3 childpid e p = err2 childpid e (release p init_data)

abbrev pub err4 : ℕ → Errno → Processes → Processes × Return ℕ
err4 childpid e p = err3 childpid e (release p wait_on_child)

abbrev pub err5 : ℕ → Errno → Processes → Processes × Return ℕ
err5 childpid e p = err4 childpid e (release p wait_on_parent)

abbrev pub err8 : ℕ → Errno → Processes → Processes × Return ℕ
err8 childpid e p = err5 childpid e (release p child_as)

abbrev pub err9 : ℕ → Errno → Processes → Processes × Return ℕ
err9 childpid e p = err8 childpid e (release p child_waiting_on)

abbrev pub err10 : ℕ → Errno → Processes → Processes × Return ℕ
err10 childpid e p = err9 childpid e (release p child_pidlist)

-- "Populate child thread", and what follows up to the return.
pub populate : Processes → ℕ → ℕ → ℕ → Processes
populate p childpid new_as child =
    let parent = current_thread p in
    record p {
      process_table = update p.process_table childpid (some child);
      threads =
          update
            (update p.threads child (record (p.threads child) {
              pid = childpid;
              parent_pid = pos parent.pid;
              children = [];
              signals = 0;
              t_cwd = parent.t_cwd;
              t_addrspace = some new_as;
            }))
            p.current (record parent { children = childpid ∷ parent.children });
      held = without init_data (without wait_on_child (without wait_on_parent p.held));
      files = fork_files p.files;
    }

fork_thread : Processes → ℕ → ℕ → Return ℕ → Processes × Return ℕ
unfolding populate
fork_thread p childpid new_as (fail e) = err10 childpid e p
fork_thread p childpid new_as (ok child) = (populate p childpid new_as child, ok childpid)

-- sys_fork with the pid reserved: the allocations in their order.
fork_pid : Processes → ℕ → ForkCalls → Processes × Return ℕ
unfolding fork_thread
fork_pid p childpid calls =
    let p0 = record p { process_table = update p.process_table childpid (some p.current) } in
    let p1 = hold p0 init_data in
    let p2 = hold p1 wait_on_child in
    let p3 = hold p2 wait_on_parent in
    let p4 = hold p3 child_as in
    let p5 = hold p4 child_waiting_on in
    if not calls.got_data
    then err2 childpid enomem p0
    else if not calls.got_wait_on_child
    then err3 childpid enomem p1
    else if not calls.got_wait_on_parent
    then err4 childpid enomem p2
    else if not calls.copied_as
    then err5 childpid enomem p3
    else if not calls.got_waiting_on
    then err8 childpid enomem p4
    else if not calls.got_pidlist
    then err9 childpid enomem p5
    else fork_thread (hold p5 child_pidlist) childpid calls.new_as calls.forked

pub sys_fork : Processes → ForkCalls → Processes × Return ℕ
unfolding getpid fork_pid
sys_fork p calls = elim (getpid p.process_table) [
  | none ↦ (p, fail enproc)
  | some childpid ↦ fork_pid p childpid calls
]

-- The loop of sys__exit over the descriptors.
close_loop : ℕ → ℕ → Files → Files
close_loop zero i files = files
close_loop (suc rounds) i files = close_loop rounds (suc i) (sys_close files (pos i)).0

abbrev pub make_orphan : Thread → Thread
make_orphan t = record t { parent_pid = negsuc 0 }

-- The loop of sys__exit over the children; an entry of the process table that is NULL is not to be
-- dereferenced.
orphan_loop : List ℕ → (ℕ → Option ℕ) → (ℕ → Thread) → Outcome (ℕ → Thread)
orphan_loop [] table threads = done threads
orphan_loop (pid ∷ pids) table threads = elim (table pid) [
  | none ↦ panic
  | some t ↦ orphan_loop pids table (update threads t (make_orphan (threads t)))
]

abbrev pub listed : Option ℕ → List ℕ → List ℕ
listed none xs = xs
listed (some x) xs = x ∷ xs

-- What thread_exit leaves: the working directory is given back, the address space destroyed, V called
-- on `waiting_on` if there is a parent, and the thread a zombie.
abbrev pub cleaned_up : Processes → Processes
cleaned_up p =
    let cur = current_thread p in
    record p {
      threads = update p.threads p.current (record cur {
        signals = if ltb_ℤ (pos 0) cur.parent_pid then cur.signals + 1 else cur.signals;
        t_cwd = none;
        t_addrspace = none;
        is_zombie = true;
      });
      zombies = p.zombies ++ (p.current ∷ []);
      decreffed = listed cur.t_cwd p.decreffed;
      as_destroyed = listed cur.t_addrspace p.as_destroyed;
    }

-- thread_exit, up to the switch to another thread. The check of the stack's guard band is left out.
thread_exit : Processes → Outcome Processes
thread_exit p = do
  kassert ((current_thread p).t_busy_buffers == 0)
  kassert ((current_thread p).t_reserved_buffers == 0)
  done (cleaned_up p)

-- `_MKWAIT_EXIT` on the 32 bits of an exit code.
abbrev pub wait_exit : ℕ → ℕ
wait_exit exitcode = exitcode * 4 % 4294967296

pub sys__exit : Processes → ℕ → Outcome Processes
unfolding close_loop orphan_loop thread_exit
sys__exit p exitcode =
    let files = close_loop max_file_descriptor 0 p.files in
    orphan_loop (current_thread p).children p.process_table p.threads >>= λ threads.
    (thread_exit (record p {
      files = files;
      threads =
          update threads p.current
            (record (threads p.current) { children = []; exit_status = wait_exit exitcode });
    }))

abbrev pub is_child : ℕ → List ℕ → Bool
is_child pid [] = false
is_child pid (c ∷ cs) = c == pid || is_child pid cs

-- "Remove pid from list of children"
abbrev pub remove_child : ℕ → List ℕ → List ℕ
remove_child pid [] = []
remove_child pid (c ∷ cs) = if c == pid then cs else c ∷ remove_child pid cs

-- The status that sys_waitpid copies out, and the error code of copyout.
pub record Waited : Type 0 where
  pub status : ℕ
  pub error : Option Errno
  pub result : ℕ

-- The part of sys_waitpid after P returned: the child `t` has exited.
reap : Processes → ℕ → ℕ → Option Errno → Processes × Return Waited
reap p pid t copyout =
    let cur = current_thread p in
    let child = p.threads t in
    (
      record p {
        process_table = update p.process_table pid none;
        threads =
            update (update p.threads t (make_orphan (record child { signals = child.signals - 1 })))
              p.current (record cur { children = remove_child pid cur.children });
      },
      ok (record { status = child.exit_status; error = copyout; result = pid }),
    )

wait_child : Processes → ℕ → ℕ → Option Errno → Outcome (Processes × Return Waited)
unfolding reap
wait_child p pid t copyout =
    if not (is_child pid (current_thread p).children)
    then done (p, fail echild)
    else if (p.threads t).signals == 0
    then hang
    else done (reap p pid t copyout)

-- `pid < PID_MIN || pid > PID_MAX`, and the pid where it fails.
abbrev pub pid_index : ℤ → Option ℕ
pid_index (pos n) = if ltb n pid_min || ltb max_processes n then none else some n
pid_index (negsuc n) = none

wait_pid : Processes → Option ℕ → Option Errno → Outcome (Processes × Return Waited)
unfolding wait_child
wait_pid p none copyout = done (p, fail esrch)
wait_pid p (some pid) copyout = elim (p.process_table pid) [
  | none ↦ done (p, fail esrch)
  | some t ↦ wait_child p pid t copyout
]

-- sys_waitpid, `status` being false for NULL; it hangs while the child has not exited. `copyout` is
-- the error code of copyout.
pub sys_waitpid : Processes → ℤ → Bool → ℕ → Option Errno → Outcome (Processes × Return Waited)
unfolding wait_pid
sys_waitpid p pid status options copyout =
    if not (options == 0)
    then done (p, fail einval)
    else if not status
    then done (p, fail efault)
    else wait_pid p (pid_index pid) copyout

-- `!z->parent_pid > 0`, which reads `(!z->parent_pid) > 0`.
abbrev pub is_reaped : Thread → Bool
is_reaped z = eqb_ℤ z.parent_pid (pos 0)

-- The loop of exorcise, over the zombies.
exorcise_loop : List ℕ → Processes → Outcome Processes
exorcise_loop [] p = done p
exorcise_loop (z ∷ zs) p =
    let next =
      if is_reaped (p.threads z)
      then record p {
        process_table = update p.process_table (p.threads z).pid none;
        destroyed = z ∷ p.destroyed;
      }
      else p in
    let rest = exorcise_loop zs next in
    kassert (not (z == p.current)) >> (kassert (p.threads z).is_zombie >> rest)

pub exorcise : Processes → Outcome Processes
unfolding exorcise_loop
exorcise p = exorcise_loop p.zombies (record p { zombies = [] })
