-- ===== src/ThreadList.antt =====
-- Doubly linked lists of threads: kern/thread/threadlist.c and struct threadlist of
-- kern/include/threadlist.h. A thread is named by the address of its t_listnode; DEBUGASSERT checks
-- nothing in this kernel. To write through a NULL pointer stops the kernel.
pub mod Places
pub mod Removal
pub mod Lists
pub mod Sequence
pub mod Inserting
pub mod Taking
mod Tests
use petrel_os.Base.{
  ℕ, ◌+◌, ◌-◌, ◌%◌, ◌^◌, Bool, true, false, not, Option, none, some, ◌==◌, if◌then◌else◌, update,
  Outcome, done, panic, ◌>>=◌, ◌>>◌, kassert,
}

-- The fields of all list nodes, by address; `none` is NULL.
pub record Links : Type 0 where
  pub tln_prev : ℕ → Option ℕ
  pub tln_next : ℕ → Option ℕ
  pub tln_self : ℕ → Option ℕ

-- `struct threadlist`, its two nodes by their addresses.
pub record ThreadList : Type 0 where
  pub tl_head : ℕ
  pub tl_tail : ℕ
  pub tl_count : ℕ

unfoldable pub threadlistnode_init : Links → ℕ → Links
threadlistnode_init l t = record {
  tln_prev = update l.tln_prev t none;
  tln_next = update l.tln_next t none;
  tln_self = update l.tln_self t (some t);
}

abbrev pub is_null : Option ℕ → Bool
is_null none = true
is_null (some x) = false

unfoldable pub threadlistnode_cleanup : Links → ℕ → Outcome (Unit {0})
threadlistnode_cleanup l t = do
  kassert (is_null (l.tln_next t))
  kassert (is_null (l.tln_prev t))
  kassert (not (is_null (l.tln_self t)))

unfoldable pub threadlist_init : Links → ℕ → ℕ → Links × ThreadList
threadlist_init l head tail = (
  record {
    tln_prev = update (update l.tln_prev head none) tail (some head);
    tln_next = update (update l.tln_next head (some tail)) tail none;
    tln_self = update (update l.tln_self head none) tail none;
  },
  record { tl_head = head; tl_tail = tail; tl_count = 0 },
)

unfoldable pub threadlist_isempty : ThreadList → Bool
threadlist_isempty tl = tl.tl_count == 0

unfoldable pub threadlist_cleanup : ThreadList → Outcome (Unit {0})
threadlist_cleanup tl = do kassert (threadlist_isempty tl); kassert (tl.tl_count == 0)

-- `p->tln_next = x` and `p->tln_prev = x`
abbrev pub store_next : Option ℕ → Option ℕ → Links → Outcome Links
store_next none x l = panic
store_next (some p) x l = done (record l { tln_next = update l.tln_next p x })

abbrev pub store_prev : Option ℕ → Option ℕ → Links → Outcome Links
store_prev none x l = panic
store_prev (some p) x l = done (record l { tln_prev = update l.tln_prev p x })

-- How both insertions end: the neighbours of the new node are made to point at it.
abbrev pub join : ℕ → Links → Outcome Links
join addee l = do
  l' ← store_next (l.tln_prev addee) (some addee) l
  store_prev (l'.tln_next addee) (some addee) l'

unfoldable pub threadlist_insertafternode : Links → ℕ → ℕ → Outcome Links
threadlist_insertafternode l onlist addee = join addee (record l {
  tln_prev = update l.tln_prev addee (some onlist);
  tln_next = update l.tln_next addee (l.tln_next onlist);
})

unfoldable pub threadlist_insertbeforenode : Links → ℕ → ℕ → Outcome Links
threadlist_insertbeforenode l addee onlist = join addee (record l {
  tln_prev = update l.tln_prev addee (l.tln_prev onlist);
  tln_next = update l.tln_next addee (some onlist);
})

unfoldable pub threadlist_removenode : Links → ℕ → Outcome Links
threadlist_removenode l tln = do
  l1 ← store_next (l.tln_prev tln) (l.tln_next tln) l
  l2 ← store_prev (l1.tln_next tln) (l1.tln_prev tln) l1
  done
      (record l2 { tln_prev = update l2.tln_prev tln none; tln_next = update l2.tln_next tln none })

-- `tl_count` is unsigned.
abbrev pub count_up : ThreadList → ThreadList
count_up tl = record tl { tl_count = (tl.tl_count + 1) % 2 ^ 32 }

abbrev pub count_down : ThreadList → ThreadList
count_down tl = record tl { tl_count = (tl.tl_count + (2 ^ 32 - 1)) % 2 ^ 32 }

unfoldable pub threadlist_addhead : Links → ThreadList → ℕ → Outcome (Links × ThreadList)
threadlist_addhead l tl t = do
  l' ← threadlist_insertafternode l tl.tl_head t
  done (l', count_up tl)

unfoldable pub threadlist_addtail : Links → ThreadList → ℕ → Outcome (Links × ThreadList)
threadlist_addtail l tl t = do
  l' ← threadlist_insertbeforenode l t tl.tl_tail
  done (l', count_up tl)

-- What remhead and remtail do with the node at the end of the list; the first of the result is the
-- thread, `none` where it is NULL.
abbrev pub take_node : Links → ThreadList → ℕ → Outcome (Option ℕ × Links × ThreadList)
take_node l tl tln = do l' ← threadlist_removenode l tln; done (l'.tln_self tln, l', count_down tl)

abbrev pub head_node : Links → ThreadList → Option ℕ → Outcome (Option ℕ × Links × ThreadList)
head_node l tl none = panic
head_node l tl (some tln) =
    let rest = take_node l tl tln in if is_null (l.tln_next tln) then done (none, l, tl) else rest

abbrev pub tail_node : Links → ThreadList → Option ℕ → Outcome (Option ℕ × Links × ThreadList)
tail_node l tl none = panic
tail_node l tl (some tln) =
    let rest = take_node l tl tln in if is_null (l.tln_prev tln) then done (none, l, tl) else rest

unfoldable pub threadlist_remhead : Links → ThreadList → Outcome (Option ℕ × Links × ThreadList)
threadlist_remhead l tl = head_node l tl (l.tln_next tl.tl_head)

unfoldable pub threadlist_remtail : Links → ThreadList → Outcome (Option ℕ × Links × ThreadList)
threadlist_remtail l tl = tail_node l tl (l.tln_prev tl.tl_tail)

unfoldable pub threadlist_insertafter : Links → ThreadList → ℕ → ℕ → Outcome (Links × ThreadList)
threadlist_insertafter l tl onlist addee = do
  l' ← threadlist_insertafternode l onlist addee
  done (l', count_up tl)

unfoldable pub threadlist_insertbefore : Links → ThreadList → ℕ → ℕ → Outcome (Links × ThreadList)
threadlist_insertbefore l tl addee onlist = do
  l' ← threadlist_insertbeforenode l addee onlist
  done (l', count_up tl)

unfoldable pub threadlist_remove : Links → ThreadList → ℕ → Outcome (Links × ThreadList)
threadlist_remove l tl t = do l' ← threadlist_removenode l t; done (l', count_down tl)
