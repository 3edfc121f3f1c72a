-- ===== src/Pmemalloc/Ops/Reserve.antt =====
-- libpmemalloc/pmemalloc.c: `pmemalloc_reserve`.
use linux_examples.Base.{
  ℕ, zero, suc, ◌+◌, ◌-◌, ◌*◌, ◌/◌, ◌%◌, ◌^◌, ◌&&◌, Option, none, some, leb, ◌==◌, if◌then◌else◌,
}
use linux_examples.Pmem.{Prog, pure, fatal, stuck, ◌>>=◌, ◌>>◌, load, store, persist}
use linux_examples.Pmemalloc.Layout.{
  clump_offset, chunk_size, num_on, state_free, state_reserved, on_off, on_ptr, size_of, state_of,
  with_state,
}

-- `roundup(size + PMEM_CHUNK_SIZE, PMEM_CHUNK_SIZE)`, in the 64 bits of `size_t`.
unfoldable pub round_size : ℕ → ℕ
round_size size = ((size + chunk_size) % 2 ^ 64 + 63) % 2 ^ 64 / 64 * 64

-- `for (i = 0; i < PMEM_NUM_ON; i++) { clp->on[i].off = 0; clp->on[i].ptr_ = 0; }`
unfoldable pub reset_on : ℕ → ℕ → ℕ → Prog (Unit {0})
reset_on clp zero i = pure tt
reset_on clp (suc n) i = do store (on_off clp i) 0; store (on_ptr clp i) 0; reset_on clp n (i + 1)

-- `memset(a, '\0', 8 * n)`
unfoldable pub zero_words : ℕ → ℕ → Prog (Unit {0})
zero_words zero a = pure tt
zero_words (suc n) a = store a 0 >> zero_words n (a + 8)

-- The branch of `pmemalloc_reserve` where a free clump of `sz` bytes at `clp` fits.
unfoldable pub take_clump : ℕ → ℕ → ℕ → Prog (Unit {0})
unfolding reset_on zero_words
take_clump nsize clp sz =
    let leftover = sz - nsize in
    if leb (chunk_size * 2) leftover
    then (do
      zero_words 8 (clp + nsize)
      store (clp + nsize) (with_state leftover state_free)
      persist (clp + nsize) 64 0
      reset_on clp num_on 0
      persist clp 64 0
      store clp (with_state nsize state_reserved)
      persist clp 64 0)
    else (do
      reset_on clp num_on 0
      persist clp 64 0
      store clp (with_state sz state_reserved)
      persist clp 64 0)

-- The first-fit loop. It returns the clump that was taken.
unfoldable pub first_fit : ℕ → ℕ → ℕ → Prog (Option ℕ)
first_fit nsize zero clp = stuck
first_fit nsize (suc fuel) clp = do
  w ← load clp
  let rest = first_fit nsize fuel (clp + size_of w)
  if w == 0
      then pure none
      else if (state_of w == state_free) && leb nsize (size_of w)
      then take_clump nsize clp (size_of w) >> pure (some clp)
      else rest

-- Where the search starts.
abbrev pub start_of : ℕ → ℕ
start_of gclp = if gclp == 0 then clump_offset else gclp

-- `pmemalloc_reserve`: the pointer, or `none` with errno ENOMEM, and the global `gclp`, where the
-- next search starts (0 before the first).
unfoldable pub reserve : ℕ → ℕ → ℕ → Prog (Option ℕ × ℕ)
reserve fuel gclp size = do
  let start = start_of gclp
  w ← load start
  if w == 0 then fatal else (do
    found ← first_fit (round_size size) fuel start
    pure (elim found [ none ↦ (none, gclp) | some clp ↦ (some (clp + chunk_size), clp) ]))
