-- ===== src/AddrSpace.antt =====
-- The layout of an address space: the regions, the heap and the stack of kern/vm/addrspace.c, and
-- kern/syscall/sbrk.c. The page table of the address space is modelled by PageTable. Addresses are
-- 32 bits wide and wrap around; what lock_create, pt_create, array_create, kmalloc and array_add
-- answer are arguments.
pub mod Layout
pub mod Sbrk
mod Tests
use petrel_os.Base.{
  ℕ, zero, suc, ◌+◌, ◌-◌, ◌*◌, ◌%◌, Bool, true, false, ◌&&◌, Option, none, some, List, [], ◌∷◌,
  ◌++◌, ltb, leb, if◌then◌else◌, Errno, enomem, einval, Return, ok, fail,
}
use petrel_os.Base.Int.{ℤ, pos, negsuc, ◌+ℤ◌, leb_ℤ}

-- `struct region`
pub record Region : Type 0 where
  pub base : ℕ
  pub sz : ℕ
  pub readable : Bool
  pub writeable : Bool
  pub executable : Bool

-- `struct addrspace` without its page table and the lock of that.
pub record AddrSpace : Type 0 where
  pub heap_start : ℕ
  pub heap_end : ℕ
  pub regions : List Region
  pub is_loading : Bool

-- PAGE_SIZE, HEAP_MAX, USERSTACK and STACK_PAGES
abbrev pub page_size : ℕ
page_size = 4096

abbrev pub heap_max : ℕ
heap_max = 1073741824

abbrev pub user_stack : ℕ
user_stack = 2147483648

abbrev pub stack_pages : ℕ
stack_pages = 20

-- The value of an unsigned expression of 32 bits.
abbrev pub wrap : ℕ → ℕ
wrap n = n % 4294967296

-- `x & PAGE_FRAME`
abbrev pub page_frame : ℕ → ℕ
page_frame x = x - x % page_size

-- as_create, by whether lock_create, pt_create and array_create succeed.
pub as_create : Bool → Bool → Bool → Option AddrSpace
as_create lock page_table regions =
    if lock && (page_table && regions)
    then some (record { heap_start = 0; heap_end = 0; regions = []; is_loading = false })
    else none

-- "Update heap_start" of as_define_region for a region that ends at `top`.
abbrev pub raise_heap : AddrSpace → ℕ → AddrSpace
raise_heap s top = if ltb s.heap_start top then record s { heap_start = top; heap_end = top } else s

record_region : AddrSpace → Region → Bool → Option Errno → AddrSpace × Option Errno
record_region s r false added = (s, some enomem)
record_region s r true (some e) = (s, some e)
record_region s r true none = (record s { regions = s.regions ++ (r ∷ []) }, none)

-- The base and the length that as_define_region aligns.
abbrev pub aligned : ℕ → ℕ → Bool → Bool → Bool → Region
aligned vaddr sz readable writeable executable = record {
  base = page_frame vaddr;
  sz = page_frame (wrap (wrap (sz + vaddr % page_size) + page_size - 1));
  readable = readable;
  writeable = writeable;
  executable = executable;
}

-- as_define_region; `got_region` is whether kmalloc succeeds, and `added` is what array_add returns.
pub as_define_region :
    AddrSpace → ℕ → ℕ → Bool → Bool → Bool → Bool → Option Errno → AddrSpace × Option Errno
unfolding record_region
as_define_region s vaddr sz readable writeable executable got_region added =
    let r = aligned vaddr sz readable writeable executable in
    record_region (raise_heap s (wrap (r.base + r.sz))) r got_region added

abbrev pub contains : Region → ℕ → Bool
contains r va = leb r.base va && ltb va (wrap (r.base + r.sz))

-- VM_READ, VM_WRITE and VM_EXEC of a region together.
abbrev pub region_permissions : Region → ℕ
region_permissions r =
    (if r.readable then 1 else 0) + (if r.writeable then 2 else 0) + (if r.executable then 4 else 0)

-- The loop of as_get_permissions.
permissions_loop : List Region → ℕ → ℤ
permissions_loop [] va = negsuc 0
permissions_loop (r ∷ rs) va =
    let rest = permissions_loop rs va in if contains r va then pos (region_permissions r) else rest

pub as_get_permissions : AddrSpace → ℕ → ℤ
unfolding permissions_loop
as_get_permissions s va = permissions_loop s.regions va

pub as_prepare_load : AddrSpace → AddrSpace
as_prepare_load s = record s { is_loading = true }

pub as_complete_load : AddrSpace → AddrSpace
as_complete_load s = record s { is_loading = false }

-- The stack pointer of as_define_stack.
pub as_define_stack : AddrSpace → ℕ
as_define_stack s = user_stack

-- `(long) x` for an unsigned x, which is 32 bits wide too.
abbrev pub to_long : ℕ → ℤ
to_long x = if ltb x 2147483648 then pos x else negsuc (4294967295 - x)

-- `x + amount` for an unsigned x.
abbrev pub add_int : ℕ → ℤ → ℕ
add_int x (pos n) = wrap (x + n)
add_int x (negsuc n) = wrap (x + 4294967295 - n)

-- `USERSTACK - STACK_PAGES * PAGE_SIZE`
abbrev pub stack_base : ℕ
stack_base = user_stack - stack_pages * page_size

grow : AddrSpace → ℤ → AddrSpace × Return ℕ
grow s amount =
    let top = add_int s.heap_end amount in
    if ltb top stack_base && ltb top (wrap (s.heap_start + heap_max))
    then (record s { heap_end = top }, ok s.heap_end)
    else (s, fail enomem)

shrink : AddrSpace → ℤ → AddrSpace × Return ℕ
unfolding ◌+ℤ◌
shrink s amount =
    let top = add_int s.heap_end amount in
    if leb_ℤ (to_long s.heap_start) (to_long s.heap_end +ℤ amount)
    then (record s { heap_end = top }, ok top)
    else (s, fail einval)

pub sys_sbrk : AddrSpace → ℤ → AddrSpace × Return ℕ
unfolding grow shrink
sys_sbrk s (pos zero) = (s, ok s.heap_end)
sys_sbrk s (pos (suc n)) = grow s (pos (suc n))
sys_sbrk s (negsuc n) = shrink s (negsuc n)
