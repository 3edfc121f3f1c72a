-- ===== src/Tests/Crash.antt =====
-- libpmemalloc/pmemalloc.c at concrete pools: the theorems on crashes.
use linux_examples.Base.{
  ◌^◌, ◌-◌, ◌+◌, some, ℕ, ◌≡◌, refl, inl, inr, true, false, not, ◌&&◌, [], ◌∷◌, arith, ◌==◌,
  if◌then◌else◌,
}
use linux_examples.Pmem.{Mem, write}
use linux_examples.Pmem.Cache.{Cache, data_persist, persist_cl, persist_cache, covers}
use linux_examples.Pmem.Safe.{Safe}
use linux_examples.Pmem.Settle.{Settled, Vals, persist_cl-flushes, persist_cl_wraps}
use linux_examples.Pmemalloc.Layout.{on_off, on_ptr}
use linux_examples.Pmemalloc.Ops.Change.{activate, free_clump, onactive}
use linux_examples.Pmemalloc.Ops.Reserve.{reserve, round_size, start_of}
use linux_examples.Pmemalloc.Finish.{IsList, finished}
use linux_examples.Pmemalloc.Activate.{ActivatesOrNot, Filled, activate-atomic}
use linux_examples.Pmemalloc.Free.{FreesOrNot, free-atomic}
use linux_examples.Pmemalloc.AddOn.{AddsOrNot, onactive-atomic}
use linux_examples.Pmemalloc.ReserveSafe.{ReservesOrNot, reserve-atomic}

-- The first clump, of 192 bytes, with the size word `w` and the assignments of 16448 to 4096 and of
-- 7 to 4104 on its list. The end mark follows.
abbrev clump_with : ℕ → Mem
clump_with w =
    write (write (write (write (write (λ x. 0) 16384 w) 16400 4096) 16408 16448) 16416 4104) 16424 7

clump-IsList : (w : ℕ) → IsList (clump_with w) 16384
clump-IsList w = record {
  positive = omega arith;
  leaves = λ i lt. ground arith;
  distinct = λ i j a b. ground arith;
}

-- All is durable but the word at 16448, which the caller has written.
abbrev filled_cache : Cache
filled_cache = record { mem = clump_with 193; old = λ x. if x == 16448 then 5 ∷ [] else [] }

Filled-Vals : Vals (Filled (clump_with 193) 16384 192) filled_cache
Filled-Vals x v (inl e) = inl e
Filled-Vals x v (inr o) = inr (ground (arith, o))

activate-atomic_example :
    Safe true
      (ActivatesOrNot (clump_with 193) 16384 192)
      (λ _ c'. Settled (finished (clump_with 193) 16384 (192 + 3)) c')
      (activate (16384 + 64))
      filled_cache
activate-atomic_example =
    activate-atomic (clump_with 193) 16384 192 refl refl (omega arith) (clump-IsList 193) true
      filled_cache refl refl Filled-Vals

abbrev settled_cache : Mem → Cache
settled_cache m = record { mem = m; old = λ x. [] }

settled_cache-Settled : (m : Mem) → Settled m (settled_cache m)
settled_cache-Settled m x v (inl e) = e
settled_cache-Settled m x v (inr o) = absurd o

free-atomic_example :
    Safe true
      (FreesOrNot (clump_with 195) 16384 192)
      (λ _ c'. Settled (finished (clump_with 195) 16384 192) c')
      (free_clump true (16384 + 64))
      (settled_cache (clump_with 195))
free-atomic_example =
    free-atomic (clump_with 195) 16384 192 refl refl (clump-IsList 195) true
      (settled_cache (clump_with 195)) refl (settled_cache-Settled (clump_with 195))

onactive-atomic_example :
    Safe true
      (AddsOrNot (clump_with 193) 16384 4112 16448)
      (λ _ c'.
        Settled (write (write (clump_with 193) (on_ptr 16384 2) 16448) (on_off 16384 2) 4112) c')
      (onactive (16384 + 64) 4112 16448)
      (settled_cache (clump_with 193))
onactive-atomic_example =
    onactive-atomic (clump_with 193) 16384 4112 16448 (ground arith) true 2
      (settled_cache (clump_with 193)) refl refl (omega arith) (λ j lt. ground arith)
      (λ j le lt. ground arith) (settled_cache-Settled (clump_with 193))

-- A free clump of 512 bytes, and the end mark.
abbrev free_pool : Mem
free_pool = write (λ x. 0) 16384 512

reserve-atomic_example :
    Safe true
      (ReservesOrNot (round_size 100) (start_of 0) (512 ∷ []))
      (λ _ c'. Settled c'.mem c' × ReservesOrNot (round_size 100) (start_of 0) (512 ∷ []) c'.mem)
      (reserve 2 0 100)
      (settled_cache free_pool)
reserve-atomic_example =
    reserve-atomic true 2 0 100 512 [] free_pool (settled_cache free_pool) (refl, omega arith, refl)
      refl (omega arith) (omega arith) (settled_cache-Settled free_pool)

persist_cl-flushes_example :
    (c' : Cache) × (persist_cl false 16440 16 10 filled_cache ≡ some c')
    × (c'.mem ≡ clump_with 193)
    × ((x : ℕ)
        → c'.old x ≡ (
            if (10 == data_persist) && not false
            then filled_cache.old x
            else if covers 16440 16 x
            then []
            else filled_cache.old x))
    × (c' ≡ persist_cache false 16440 16 10 filled_cache)
persist_cl-flushes_example = persist_cl-flushes false 16440 16 10 filled_cache (omega arith)

-- The last line below 2 ^ 64, and the first one.
persist_cl_wraps_example : persist_cl true (2 ^ 64 - 64) 128 0 filled_cache ≡ some filled_cache
persist_cl_wraps_example =
    persist_cl_wraps true (2 ^ 64 - 64) 128 0 filled_cache (omega arith) (omega arith)
