-- ===== src/Pmemalloc/Ops/Change.antt =====
-- libpmemalloc/pmemalloc.c: `pmemalloc_onactive`, `pmemalloc_onfree`, `pmemalloc_activate` and
-- `pmemalloc_free`.
use linux_examples.Base.{ℕ, zero, suc, ◌+◌, ◌-◌, Bool, ◌==◌, if◌then◌else◌}
use linux_examples.Pmem.{Prog, fatal, ◌>>=◌, ◌>>◌, load, store, persist}
use linux_examples.Pmemalloc.Layout.{
  chunk_size, num_on, state_free, state_reserved, state_activating, state_active, state_freeing,
  on_off, on_ptr, size_of, state_of, with_state, epoch_flags,
}
use linux_examples.Pmemalloc.Ops.Recover.{finish}
use linux_examples.Pmemalloc.Ops.Coalesce.{coalesce_free}

-- The loop of `pmemalloc_onactive` and `pmemalloc_onfree`: the first unused entry is filled.
unfoldable pub add_on : ℕ → ℕ → ℕ → ℕ → ℕ → ℕ → Prog (Unit {0})
add_on flags clp parentp nptr zero i = fatal
add_on flags clp parentp nptr (suc n) i = do
  off ← load (on_off clp i)
  let rest = add_on flags clp parentp nptr n (i + 1)
  if off == 0
      then (do
        store (on_ptr clp i) nptr
        persist clp 64 flags
        store (on_off clp i) parentp
        persist clp 64 0)
      else rest

-- `pmemalloc_onactive`
unfoldable pub onactive : ℕ → ℕ → ℕ → Prog (Unit {0})
onactive ptr parentp nptr = do
  let clp = ptr - chunk_size
  w ← load clp
  if state_of w == state_reserved then add_on 0 clp parentp nptr num_on 0 else fatal

-- `pmemalloc_onfree`
unfoldable pub onfree : Bool → ℕ → ℕ → ℕ → Prog (Unit {0})
onfree persist_set ptr parentp nptr = do
  let clp = ptr - chunk_size
  w ← load clp
  if state_of w == state_active
      then add_on (epoch_flags persist_set) clp parentp nptr num_on 0
      else fatal

-- `pmemalloc_activate`
unfoldable pub activate : ℕ → Prog (Unit {0})
activate ptr = do
  let clp = ptr - chunk_size
  w ← load clp
  if state_of w == state_reserved
      then (do
        persist ptr (w - chunk_size) 0
        store clp (with_state (size_of w) state_activating)
        persist clp 64 0
        finish 0 0 clp (size_of w) state_active)
      else fatal

-- `pmemalloc_free` down to the call of `pmemalloc_coalesce_free`.
unfoldable pub free_clump : Bool → ℕ → Prog (Unit {0})
free_clump persist_set ptr = do
  let clp = ptr - chunk_size
  let flags = epoch_flags persist_set
  w ← load clp
  if state_of w == state_active
      then (do
        store clp (with_state (size_of w) state_freeing)
        persist clp 64 flags
        finish flags flags clp (size_of w) state_free)
      else if state_of w == state_reserved
      then (do store clp (with_state (size_of w) state_free); persist clp 64 flags)
      else fatal

-- `pmemalloc_free`
unfoldable pub free : Bool → ℕ → ℕ → Prog (Unit {0})
free persist_set fuel ptr = free_clump persist_set ptr >> coalesce_free persist_set fuel
