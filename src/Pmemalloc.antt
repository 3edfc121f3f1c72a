-- ===== src/Pmemalloc.antt =====
-- libpmemalloc/pmemalloc.c: a pool of clumps in persistent memory.
pub mod Layout
pub mod Ops
pub mod Blocks
pub mod Coalesce
pub mod OnList
pub mod Redo
pub mod Clear
pub mod Finish
pub mod RecoverClump
pub mod Activate
pub mod Free
pub mod Recover
pub mod RecoverSafe
pub mod Restart
pub mod Init
pub mod AddOn
pub mod Reserve
pub mod ReserveSafe
pub mod Checked
pub mod Stats
pub mod Report
