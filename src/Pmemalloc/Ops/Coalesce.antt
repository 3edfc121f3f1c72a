-- ===== src/Pmemalloc/Ops/Coalesce.antt =====
-- libpmemalloc/pmemalloc.c: `pmemalloc_coalesce_free`.
use linux_examples.Base.{ℕ, zero, suc, ◌+◌, Bool, ◌==◌, if◌then◌else◌}
use linux_examples.Pmem.{Prog, pure, stuck, ◌>>=◌, ◌>>◌, load, store, persist}
use linux_examples.Pmemalloc.Layout.{
  clump_offset, state_free, size_of, state_of, with_state, epoch_flags,
}

-- The variables of the loop of `pmemalloc_coalesce_free`: no free clump is pending, or one
-- (`firstfree` alone is set), or several (`lastfree` too), with `csize` bytes.
pub data Pending : Type 0 where
  nothing : Pending
  one : (firstfree csize : ℕ) → Pending
  several : (firstfree csize : ℕ) → Pending

-- `if (state == PMEM_STATE_FREE) …`: the variables after a free clump of `sz` bytes at `clp`.
abbrev pub add_free : Pending → ℕ → ℕ → Pending
add_free nothing clp sz = one clp sz
add_free (one first csize) clp sz = several first (csize + sz)
add_free (several first csize) clp sz = several first (csize + sz)

-- The write of a coalesced size, where two free clumps or more are pending.
abbrev pub write_pending : ℕ → Pending → Prog (Unit {0})
write_pending flags nothing = pure tt
write_pending flags (one first csize) = pure tt
write_pending flags (several first csize) = do
  store first (with_state csize state_free)
  persist first 64 flags

unfoldable pub coalesce_from : ℕ → ℕ → ℕ → Pending → Prog (Unit {0})
coalesce_from flags zero clp p = stuck
coalesce_from flags (suc fuel) clp p = do
  w ← load clp
  let more = coalesce_from flags fuel (clp + size_of w) (add_free p clp (size_of w))
  let next = coalesce_from flags fuel (clp + size_of w) nothing
  if w == 0
      then write_pending 0 p
      else if state_of w == state_free
      then more
      else write_pending flags p >> next

-- `pmemalloc_coalesce_free`
unfoldable pub coalesce_free : Bool → ℕ → Prog (Unit {0})
coalesce_free persist_set fuel = coalesce_from (epoch_flags persist_set) fuel clump_offset nothing
