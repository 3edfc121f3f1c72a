-- ===== src/Pmemalloc/Ops.antt =====
-- The functions of libpmemalloc/pmemalloc.c.
pub mod Recover
pub mod Coalesce
pub mod Reserve
pub mod Change
pub mod Open
pub mod Check
