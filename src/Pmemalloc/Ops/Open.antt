-- ===== src/Pmemalloc/Ops/Open.antt =====
-- libpmemalloc/pmemalloc.c: `pmemalloc_init` and `pmemalloc_static_area`.
use linux_examples.Base.{ℕ, ◌+◌, ◌-◌, ◌*◌, ◌/◌, Bool, Option, none, some, ltb, if◌then◌else◌}
use linux_examples.Pmem.{Mem, write, Run, run, Prog, ◌>>◌}
use linux_examples.Pmemalloc.Layout.{
  hdr_offset, clump_offset, static_offset, min_pool_size, chunk_size,
}
use linux_examples.Pmemalloc.Ops.Recover.{recover}
use linux_examples.Pmemalloc.Ops.Coalesce.{coalesce_free}

-- PMEM_SIGNATURE, "*PMEMALLOC_POOL" and its NUL, as two little-endian words.
abbrev pub signature_low : ℕ
signature_low = 0x4c4c414d454d502a

abbrev pub signature_high : ℕ
signature_high = 0x4c4f4f505f434f

-- `(size & ~(PMEM_CHUNK_SIZE - 1)) - PMEM_CHUNK_SIZE`: where the end mark stands.
abbrev pub last_clump_offset : ℕ → ℕ
last_clump_offset size = size / chunk_size * chunk_size - chunk_size

-- The file that `pmemalloc_init` writes where there was none: zeros, the first clump's size, and
-- the pool header. `none` is EINVAL.
unfoldable pub create_pool : ℕ → Option Mem
create_pool size =
    let zeros : Mem = λ x. 0 in
    let clump = write zeros clump_offset (last_clump_offset size - clump_offset) in
    let low = write clump hdr_offset signature_low in
    let high = write low (hdr_offset + 8) signature_high in
    if ltb size min_pool_size then none else some (write high (hdr_offset + 16) size)

-- The rest of `pmemalloc_init`, on the mapped file.
unfoldable pub start_pool : Bool → ℕ → Prog (Unit {0})
start_pool persist_set fuel = recover fuel >> coalesce_free persist_set fuel

-- `pmemalloc_init`, on the file's contents if it exists, where the calls of the operating system
-- succeed: the memory of the pool that is returned, or `none` for NULL.
unfoldable pub init : Bool → ℕ → Option Mem → ℕ → Option (Run (Unit {0}))
init persist_set fuel (some file) size = some (run (start_pool persist_set fuel) file)
init persist_set fuel none size = elim (create_pool size) [
  | none ↦ none
  | some file ↦ some (run (start_pool persist_set fuel) file)
]

-- `pmemalloc_static_area`
abbrev pub static_area : ℕ
static_area = static_offset
