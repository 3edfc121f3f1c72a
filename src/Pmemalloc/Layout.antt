-- ===== src/Pmemalloc/Layout.antt =====
-- libpmemalloc/pmemalloc.h and pmemalloc.c: where things stand in a pool. Pointers are offsets from
-- the start of the pool (what the code calls relative pointers), so `PMEM` is the identity.
use linux_examples.Base.{ℕ, ◌+◌, ◌*◌, ◌/◌, ◌%◌, Bool, if◌then◌else◌}
use linux_examples.Pmem.Cache.{data_persist}

abbrev pub hdr_offset : ℕ
hdr_offset = 12288

abbrev pub clump_offset : ℕ
clump_offset = 16384

abbrev pub static_offset : ℕ
static_offset = 4096

abbrev pub min_pool_size : ℕ
min_pool_size = 1024 * 1024

abbrev pub chunk_size : ℕ
chunk_size = 64

abbrev pub num_on : ℕ
num_on = 3

-- The states kept in the low six bits of a clump's size.
abbrev pub state_free : ℕ
state_free = 0

abbrev pub state_reserved : ℕ
state_reserved = 1

abbrev pub state_activating : ℕ
state_activating = 2

abbrev pub state_active : ℕ
state_active = 3

abbrev pub state_freeing : ℕ
state_freeing = 4

-- `struct clump`: where the fields of a clump at `clp` stand.
abbrev pub on_off : ℕ → ℕ → ℕ
on_off clp i = clp + 16 + 16 * i

abbrev pub on_ptr : ℕ → ℕ → ℕ
on_ptr clp i = clp + 24 + 16 * i

-- `w & ~PMEM_STATE_MASK`
abbrev pub size_of : ℕ → ℕ
size_of w = w / 64 * 64

-- `w & PMEM_STATE_MASK`
abbrev pub state_of : ℕ → ℕ
state_of w = w % 64

-- `sz | state`, for a multiple `sz` of 64 and a state below 64.
abbrev pub with_state : ℕ → ℕ → ℕ
with_state sz state = sz + state

-- `flags`, as the epoch's `persist_set` decides it.
abbrev pub epoch_flags : Bool → ℕ
epoch_flags persist_set = if persist_set then 0 else data_persist
