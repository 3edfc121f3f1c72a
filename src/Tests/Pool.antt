-- ===== src/Tests/Pool.antt =====
-- libpmemalloc/pmemalloc.c at concrete pools: reserving, recovering and coalescing.
use linux_examples.Base.{
  ℕ, ◌+◌, ◌-◌, ◌^◌, ◌≤◌, ◌≡◌, refl, Bool, true, ◌&&◌, ◌||◌, some, List, [], ◌∷◌, inl, inr, arith,
  leb, ltb, ◌==◌, map,
}
use linux_examples.Pmem.{Mem, write}
use linux_examples.Pmem.Cache.{Cache}
use linux_examples.Pmem.Safe.{Safe}
use linux_examples.Pmem.Settle.{Settled}
use linux_examples.Pmem.Ends
use linux_examples.Pmem.Ends.{Ends}
use linux_examples.Pmemalloc.Ops.Check.{check_pool}
use linux_examples.Pmemalloc.Checked.{IsPool, Walk}
use linux_examples.Pmemalloc.Report.{IsReport, check_pool-IsReport}
use linux_examples.Pmemalloc.Ops.Reserve.{reserve, round_size, start_of}
use linux_examples.Pmemalloc.Ops.Recover.{recover}
use linux_examples.Pmemalloc.Ops.Coalesce.{coalesce_free}
use linux_examples.Pmemalloc.Ops.Open.{
  start_pool, create_pool, last_clump_offset, signature_low, signature_high,
}
use linux_examples.Pmemalloc.Layout.{clump_offset, min_pool_size, hdr_offset}
use linux_examples.Pmemalloc.Blocks.{Blocks}
use linux_examples.Pmemalloc.Coalesce.{
  merge_words, cons_merge, Coalesced, bytes, coalesce_free-merges,
}
use linux_examples.Pmemalloc.Recover.{IsReady, recovered}
use linux_examples.Pmemalloc.Restart.{recover-restarts}
use linux_examples.Pmemalloc.Init.{InOrder, start_pool-InOrder, create_pool-Blocks}
use linux_examples.Pmemalloc.Reserve.{Reserved, reserve-refines, round_size_wraps}

-- A reserved clump of 128 bytes with an assignment of 16448 to 4096 on its list, a free one of 64
-- bytes, an activating one of 128 bytes with an assignment of 16576 to 4104, and the end mark.
abbrev crashed : Mem
crashed =
    write
      (write
        (write (write (write (write (write (λ x. 0) 16384 129) 16400 4096) 16408 16448) 16512 64)
          16576 130)
        16592 4104)
      16600 16576

abbrev words : List ℕ
words = 129 ∷ 64 ∷ 130 ∷ []

crashed-Blocks : Blocks crashed clump_offset words
crashed-Blocks = (refl, omega arith, (refl, omega arith, (refl, omega arith, refl)))

-- The headers of the three clumps, which follow on one another but for the first's second half, and
-- the end mark.
abbrev header : ℕ → Bool
header x = leb 16384 x && (ltb x 16448 || (leb 16512 x && (ltb x 16640 || x == 16704)))

crashed-IsReady : IsReady header crashed clump_offset words
crashed-IsReady = (
  (λ x lo hi. ground arith),
  (λ i lt. ground arith),
  (λ i j a b. ground arith),
  (
    (λ x lo hi. ground arith),
    (λ i lt. ground arith),
    (λ i j a b. ground arith),
    ((λ x lo hi. ground arith), (λ i lt. ground arith), (λ i j a b. ground arith), refl),
  ),
)

abbrev durable : Cache
durable = record { mem = crashed; old = λ x. [] }

durable-Settled : Settled crashed durable
durable-Settled x v (inl e) = e
durable-Settled x v (inr o) = absurd o

recover-restarts_example :
    (m' : Mem) × Blocks m' clump_offset (map recovered words)
    × Safe true
        (λ img. Ends (λ _ m''. m'' ≡ m') (recover 4) img)
        (λ _ c'. Settled m' c')
        (recover 4)
        durable
recover-restarts_example =
    recover-restarts header true 4 crashed words durable crashed-Blocks crashed-IsReady
      (omega arith) durable-Settled

start_pool-InOrder_example :
    Ends
      (λ _ m'.
        Blocks m' clump_offset (merge_words (map recovered words))
        × InOrder (bytes words) (merge_words (map recovered words)))
      (start_pool true 4)
      crashed
start_pool-InOrder_example =
    start_pool-InOrder header true 4 crashed words crashed-Blocks crashed-IsReady
      (omega arith, (omega arith, (omega arith, tt))) (omega arith)

-- What the recovery makes of these clumps, and the coalescing after it.
recovered-words : merge_words (map recovered words) ≡ 192 ∷ 131 ∷ []
unfolding merge_words cons_merge recovered
recovered-words = refl

coalesce_free-merges_example :
    Ends (Coalesced clump_offset (merge_words words) crashed) (coalesce_free true 4) crashed
coalesce_free-merges_example =
    coalesce_free-merges true 4 crashed words crashed-Blocks (omega arith)

abbrev free_pool : Mem
free_pool = write (λ x. 0) 16384 512

reserve-refines_example :
    Ends (Reserved (round_size 100) 0 (start_of 0) (512 ∷ []) free_pool) (reserve 2 0 100) free_pool
reserve-refines_example =
    reserve-refines 2 0 100 512 [] free_pool (refl, omega arith, refl) (omega arith) (omega arith)

-- A request of 1000 bytes takes 1088.
round_size_1000 : round_size 1000 ≡ 1088
unfolding round_size
round_size_1000 = refl

round_size_wraps_example : round_size (2 ^ 64 - 100) ≤ 64
round_size_wraps_example = round_size_wraps (2 ^ 64 - 100) (omega arith) (omega arith)

abbrev new_pool : Mem
new_pool =
    write
      (write
        (write (write (λ x. 0) clump_offset (last_clump_offset (2 ^ 20) - clump_offset)) hdr_offset
          signature_low)
        (hdr_offset + 8) signature_high)
      (hdr_offset + 16) (2 ^ 20)

created : create_pool (2 ^ 20) ≡ some new_pool
unfolding create_pool
created = refl

create_pool-Blocks_example :
    Blocks new_pool clump_offset ((last_clump_offset (2 ^ 20) - clump_offset) ∷ [])
    × (min_pool_size ≤ 2 ^ 20)
    × (bytes ((last_clump_offset (2 ^ 20) - clump_offset) ∷ []) + clump_offset + 64 ≤ 2 ^ 20)
create_pool-Blocks_example = create_pool-Blocks (2 ^ 20) new_pool created

new_pool-IsPool : IsPool new_pool (2 ^ 20)
new_pool-IsPool = (omega arith, refl, refl, ground arith)

new_pool-Walk : Walk new_pool clump_offset (1032128 ∷ []) (last_clump_offset (2 ^ 20))
new_pool-Walk = (refl, omega arith, (omega arith, λ e. (refl, refl, refl)), (refl, refl))

check_pool-IsReport_example :
    Ends
      (λ stats m'. IsReport (1032128 ∷ []) stats × (m' ≡ new_pool))
      (check_pool 2 (2 ^ 20))
      new_pool
check_pool-IsReport_example =
    check_pool-IsReport 2 (2 ^ 20) new_pool (1032128 ∷ []) new_pool-IsPool new_pool-Walk
      (omega arith)
