-- ===== src/Pmemalloc/Ops/Check.antt =====
-- libpmemalloc/pmemalloc.c: `pmemalloc_check`, up to the printing of its report.
use linux_examples.Base.{
  ℕ, zero, suc, ◌+◌, ◌-◌, ◌%◌, ◌^◌, ◌&&◌, ◌||◌, List, get_or, set, replicate, ltb, ◌==◌,
  if◌then◌else◌,
}
use linux_examples.Pmem.{Prog, pure, fatal, stuck, ◌>>=◌, ◌>>◌, load}
use linux_examples.Pmemalloc.Layout.{
  clump_offset, hdr_offset, min_pool_size, chunk_size, state_free, state_active, on_off, size_of,
  state_of,
}
use linux_examples.Pmemalloc.Ops.Open.{signature_low, signature_high, last_clump_offset}

-- PMEM_STATE_UNUSED: the number of states, and the place of the overall totals.
abbrev pub state_unused : ℕ
state_unused = 5

-- `stats[state]`; `bytes` has 64 bits and `count` 32.
pub record Stat : Type 0 where
  pub largest : ℕ
  pub smallest : ℕ
  pub bytes : ℕ
  pub count : ℕ

abbrev pub no_stat : Stat
no_stat = record { largest = 0; smallest = 0; bytes = 0; count = 0 }

-- The statistics of one kind, with one more clump of `sz` bytes.
unfoldable pub count_clump : ℕ → Stat → Stat
count_clump sz s = record {
  largest = if ltb s.largest sz then sz else s.largest;
  smallest = if (s.smallest == 0) || ltb sz s.smallest then sz else s.smallest;
  bytes = (s.bytes + sz) % 2 ^ 64;
  count = (s.count + 1) % 2 ^ 32;
}

unfoldable pub count_at : ℕ → ℕ → List Stat → List Stat
count_at kind sz stats = set stats kind (count_clump sz (get_or stats kind no_stat))

-- `ASSERTeq(clp->on[i].off, 0)` for the three entries
unfoldable pub assert_empty : ℕ → Prog (Unit {0})
assert_empty clp = do
  o₀ ← load (on_off clp 0)
  o₁ ← load (on_off clp 1)
  o₂ ← load (on_off clp 2)
  if (o₀ == 0) && (o₁ == 0) && (o₂ == 0) then pure tt else fatal

-- The `switch` on the state.
unfoldable pub check_state : ℕ → ℕ → Prog (Unit {0})
check_state clp state =
    if (state == state_free) || (state == state_active)
    then assert_empty clp
    else if ltb state state_unused
    then pure tt
    else fatal

-- The loop: where the list of clumps ends, and the statistics.
unfoldable pub check_from : ℕ → ℕ → List Stat → Prog (ℕ × List Stat)
check_from zero clp stats = stuck
check_from (suc fuel) clp stats = do
  w ← load clp
  let sz = size_of w
  let rest = check_from fuel (clp + sz) (count_at (state_of w) sz (count_at state_unused sz stats))
  if w == 0 then pure (clp, stats) else check_state clp (state_of w) >> rest

-- `pmemalloc_check`, on a file of `st_size` bytes: the statistics that it prints.
unfoldable pub check_pool : ℕ → ℕ → Prog (List Stat)
check_pool fuel st_size = do
  low ← load hdr_offset
  high ← load (hdr_offset + 8)
  w ← load clump_offset
  let clumptotal = last_clump_offset st_size - clump_offset
  let rest = check_from fuel clump_offset (replicate (state_unused + 1) no_stat)
  if ltb st_size min_pool_size
      then fatal
      else if (low == signature_low) && (high == signature_high)
      then (if clump_offset + clumptotal + st_size % 64 + chunk_size == st_size
          then (if w == 0
              then fatal
              else (rest >>= λ r. if r.0 == last_clump_offset st_size then pure r.1 else fatal))
          else fatal)
      else fatal
