-- ===== src/Lib.antt =====
-- The kernel of petrel-os, an OS/161 system: a model of the parts that keep the memory, the open files,
-- the processes and the journal of the file system, in a shallow embedding, and the theorems about it.
--
-- Base has what the other modules share: lists and integers over the native numbers, the outcome of a
-- kernel function (it returns, it panics, or it waits), and error codes. A pointer is a number or an
-- address in a store, NULL is `none`, and what the code takes from kmalloc, from the disk or from
-- another part that is not modelled is an argument.
--
-- Bitmap is kern/lib/bitmap.c: bitmap_create, bitmap_alloc, bitmap_mark, bitmap_unmark and
-- bitmap_isset as `create`, `alloc`, `mark`, `unmark` and `isset`, on a list of bytes.
--
-- PageTable is the two-level page table of kern/vm/addrspace.c: get_pt_entry, va_to_pa, pt_insert,
-- pt_remove, pt_update and the accessors of struct pt_ent, whose bit fields are signed where the
-- declaration makes them so. A pointer to an entry is a read, or a write at the same address.
--
-- AddrSpace is the rest of the layout: as_define_region, as_get_permissions and their neighbours in
-- kern/vm/addrspace.c, and kern/syscall/sbrk.c. Addresses wrap around at 32 bits. as_copy, as_destroy
-- and vm_fault are not modelled.
--
-- Coremap is kern/arch/mips/vm/coremap.c. Coremap.State has the state: the coremap and its counters,
-- the page tables, physical memory and the swap disk, with the disk's errors as a part of it.
-- Coremap.Select has find_free_page, choose_evict_page and mark_allocated; Coremap.SwapSpace the swap
-- disk, swapout, swapin and evict_page; Coremap.Alloc alloc_one_page; Coremap.Release the freeing of
-- pages, alloc_kpages and coremap_bootstrap. Each function is one step of one thread: other threads do
-- not run between its lines. The loop of choose_evict_page runs on fuel of two rounds of the clock,
-- which is enough wherever some page can be taken. The TLB, pin_all_pages and the thread that cleans
-- pages are not modelled.
--
-- FileTable is kern/syscall/io_syscalls.c, and the inheritance of descriptors in
-- kern/syscall/fork.c; what a vnode does in sys_rw (FileTable.Transfer) is an argument. Open files
-- stand in a store by their address, since threads share them; the store tells which addresses are
-- allocated. The descriptors of all other threads are part of the state, so that a reference count can
-- be compared with the references that there are.
--
-- Process is kern/syscall/fork.c, kern/syscall/waitexit_syscalls.c and, of kern/thread/thread.c,
-- thread_exit and exorcise. It uses FileTable: sys__exit closes every descriptor by
-- sys_close, and sys_fork shares every open file by `fork_files`. What sys_fork allocates and frees is
-- listed. sys_waitpid on a child that has not exited hangs: the call goes on in the state that the
-- child leaves.
--
-- Synch is P, V, lock_acquire and lock_release of kern/thread/synch.c, and in Synch.Conditions cv_wait,
-- cv_signal and cv_broadcast. One step is what runs under the spinlock; the states that any
-- interleaving of the threads reaches are an inductive relation.
--
-- Array is kern/lib/array.c and the inline functions of kern/include/array.h. The loop that doubles
-- the size runs on fuel of one round more than the size asked for, which is enough up to 2^31. The
-- model of array_setsize stops where the size in bytes wraps around at 32 bits, from 2^30 elements on.
--
-- ThreadList is kern/thread/threadlist.c: nodes in a store of links, and lists with their two bookends.
-- ThreadList.Places and ThreadList.Removal see a list as a function from places to nodes, and
-- ThreadList.Sequence, ThreadList.Inserting and ThreadList.Taking as a list of threads.
--
-- Journal is the journal of kern/fs/sfs/sfs_vnode.c with the records of kern/include/sfs.h: `log_record`
-- is record, and the loop of flush_log_buf over full blocks has fuel for each record of the log buffer
-- and one round more. A record on disk is a slot, six to a block. Journal.Transactions has commit,
-- abort, checkpoint and the buffers that a transaction holds; Journal.Log sees the journal and the log
-- buffer as one list of records. A call is one step of one thread.
--
-- Volume is kern/fs/sfs/sfs_record.c on blocks of bytes: apply_record, and sfs_bmap_r as the digits of a
-- number in base 128. Volume.Io is sfs_rwblock of kern/fs/sfs/sfs_io.c, with the device's answers as an
-- argument and fuel for its eleven attempts; elsewhere a block can be read or not, and written or not.
-- What the code leaves uninitialised is an argument. Recovery is recover of kern/fs/sfs/sfs_fs.c: it uses
-- Journal for the records, Bitmap for the set of committed transactions, and Volume to apply them.
--
-- Copying is memcpy and memmove of common/libc/string, by words where the addresses and the length
-- allow it and by bytes elsewhere, on memory as a function. `with_copy` is one assignment of the loops,
-- and also says what they come to.
--
-- Uio is kern/lib/uio.c: uiomove, uiomovezeros and uio_kinit, with memmove from Copying, and copyin and
-- copyout as arguments. Its loops run on fuel of a round for each byte and each buffer, and one more,
-- which is enough since a round moves a byte or takes the next buffer. Uio.Walk says what one call
-- moves, and Uio.Progress how it is counted.
--
-- Not modelled are the rest of the file system (kern/fs/sfs), the buffer cache and the names of
-- kern/vfs, the scheduler, program loading, kmalloc, device drivers and what is written in assembly,
-- and everything at user level.
pub mod Base
pub mod Array
pub mod Bitmap
pub mod PageTable
pub mod AddrSpace
pub mod FileTable
pub mod Journal
pub mod Copying
pub mod Uio
pub mod Volume
pub mod Recovery
pub mod Coremap
pub mod Synch
pub mod ThreadList
pub mod Process
