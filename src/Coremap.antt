-- ===== src/Coremap.antt =====
-- kern/arch/mips/vm/coremap.c: one entry for each physical page, its counters, and the swap space
-- behind it. The state is what one thread sees between two waits: cme_try_pin is atomic, and the spin
-- locks busy_lock and stat_lock, which are taken and given back within one function, are not part of
-- it. `State`, `Select`, `SwapSpace`, `Alloc` and `Release` hold the code, the others the theorems.
pub mod State
pub mod Select
pub mod SwapSpace
pub mod Alloc
pub mod Release
pub mod FreePage
pub mod Clock
pub mod Counters
pub mod Freeing
pub mod Freed
pub mod Allocate
pub mod Swap
mod Tests
