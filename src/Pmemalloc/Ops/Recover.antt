-- ===== src/Pmemalloc/Ops/Recover.antt =====
-- libpmemalloc/pmemalloc.c: `pmemalloc_recover`, and the running of a list that it shares.
use linux_examples.Base.{ℕ, zero, suc, ◌+◌, ◌==◌, if◌then◌else◌}
use linux_examples.Pmem.{Prog, pure, stuck, ◌>>=◌, ◌>>◌, load, store, persist}
use linux_examples.Pmemalloc.Layout.{
  clump_offset, num_on, state_free, state_reserved, state_activating, state_active, state_freeing,
  on_off, on_ptr, size_of, state_of, with_state,
}

-- `for (i = PMEM_NUM_ON - 1; i >= 0; i--) clp->on[i].off = 0;`, from index `n - 1` down.
unfoldable pub clear_on : ℕ → ℕ → Prog (Unit {0})
clear_on clp zero = pure tt
clear_on clp (suc i) = store (on_off clp i) 0 >> clear_on clp i

-- `for (i = 0; i < PMEM_NUM_ON; i++) if (clp->on[i].off) { *dest = ptr_; persist } else break;`,
-- with `n` rounds left from index `i` on.
unfoldable pub run_on : ℕ → ℕ → ℕ → ℕ → Prog (Unit {0})
run_on flags clp zero i = pure tt
run_on flags clp (suc n) i = do
  dest ← load (on_off clp i)
  let rest = run_on flags clp n (i + 1)
  if dest == 0
      then pure tt
      else (do v ← load (on_ptr clp i); store dest v; persist dest 8 flags; rest)

-- Runs the list, clears it and moves the clump on to `state`. `hflags` goes with the last persist.
unfoldable pub finish : ℕ → ℕ → ℕ → ℕ → ℕ → Prog (Unit {0})
finish flags hflags clp sz state = do
  run_on flags clp num_on 0
  clear_on clp num_on
  persist clp 64 0
  store clp (with_state sz state)
  persist clp 64 hflags

-- The body of the loop of `pmemalloc_recover`, for a clump at `clp` whose size word is `w`.
unfoldable pub recover_clump : ℕ → ℕ → Prog (Unit {0})
recover_clump clp w =
    let sz = size_of w in
    let state = state_of w in
    if state == state_reserved
    then (do
      clear_on clp num_on
      persist clp 64 0
      store clp (with_state sz state_free)
      persist clp 64 0)
    else if state == state_activating
    then finish 0 0 clp sz state_active
    else if state == state_freeing
    then finish 0 0 clp sz state_free
    else pure tt

-- `pmemalloc_recover`, from the clump at `clp` on.
unfoldable pub recover_from : ℕ → ℕ → Prog (Unit {0})
recover_from zero clp = stuck
recover_from (suc fuel) clp = do
  w ← load clp
  let rest = recover_from fuel (clp + size_of w)
  if w == 0 then pure tt else recover_clump clp w >> rest

unfoldable pub recover : ℕ → Prog (Unit {0})
recover fuel = recover_from fuel clump_offset
