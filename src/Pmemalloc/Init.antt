-- ===== src/Pmemalloc/Init.antt =====
-- `pmemalloc_init` of libpmemalloc/pmemalloc.c: the pool file that it writes, and the pool that it
-- finds.
use linux_examples.Base.{
  ℕ, ◌+◌, ◌-◌, ◌≤◌, ◌<◌, ◌≡◌, ◌∙◌, refl, Bool, true, ◌||◌, ◌&&◌, inl, inr, Bool-cases, some, arith,
  ◌==◌, List, [], ◌∷◌, map, length, All,
}
use linux_examples.Pmem.{Mem}
use linux_examples.Pmem.Ends
use linux_examples.Pmem.Ends.{Ends}
use linux_examples.Pmemalloc.Layout.{state_of, clump_offset, min_pool_size}
use linux_examples.Pmemalloc.Ops.Recover.{recover}
use linux_examples.Pmemalloc.Ops.Coalesce.{coalesce_free}
use linux_examples.Pmemalloc.Ops.Open.{start_pool, create_pool, last_clump_offset}
use linux_examples.Pmemalloc.Blocks.{Blocks}
use linux_examples.Pmemalloc.Coalesce.{
  merge_words, cons_merge, is_free, Separated, merge_words_lem, coalesce_free-merges, Coalesced,
  bytes,
}
use linux_examples.Pmemalloc.Recover.{recovered, size_of-recovered, IsReady, recover-Blocks}

length-map : (ws : List ℕ) → length (map recovered ws) ≡ length ws
length-map [] = refl
length-map (w ∷ ws) = ground (arith, length-map ws)

-- A size word that the allocator writes.
abbrev pub IsState : ℕ → Type 0
IsState w = state_of w < 5

-- Free or active.
abbrev pub IsStable : ℕ → Type 0
IsStable w = ((state_of w == 0) || (state_of w == 3)) ≡ true

recovered-IsStable : (w : ℕ) → IsState w → IsStable (recovered w)
unfolding recovered
recovered-IsStable w h = ground arith

map-IsStable : (ws : List ℕ) → All IsState ws → All IsStable (map recovered ws)
map-IsStable [] h = tt
map-IsStable (w ∷ ws) h = (recovered-IsStable w h.0, map-IsStable ws h.1)

All-cons_merge :
    (w : ℕ) (ws : List ℕ) → IsStable w → All IsStable ws → All IsStable (cons_merge w ws)
unfolding cons_merge
All-cons_merge w [] h k = (h, tt)
All-cons_merge w (v ∷ vs) h k = elim (Bool-cases (is_free w && is_free v)) [
  | inl e ↦ rw e (ground arith, k.1)
  | inr e ↦ rw e (h, k)
]

All-merge_words : (ws : List ℕ) → All IsStable ws → All IsStable (merge_words ws)
unfolding merge_words
All-merge_words [] h = tt
All-merge_words (w ∷ ws) h = All-cons_merge w (merge_words ws) h.0 (All-merge_words ws h.1)

bytes-recovered : (ws : List ℕ) → bytes (map recovered ws) ≡ bytes ws
unfolding bytes
bytes-recovered [] = refl
bytes-recovered (w ∷ ws) = omega (arith, bytes-recovered ws, size_of-recovered w)

-- The clumps `vs` of a pool in order: each is free or active, no two neighbours are both free, and
-- there are `size` bytes of them.
pub record InOrder (size : ℕ) (vs : List ℕ) : Type 0 where
  pub stable : All IsStable vs
  pub separated : Separated vs
  pub total : bytes vs ≡ size

-- The recovery and the coalescing of `pmemalloc_init`, on a pool whose clumps have the size words
-- `ws`, each with a known state, and lists that assign to distinct words outside of all headers,
-- with more fuel than clumps. They end; the clumps are those of `ws` recovered, every run of
-- adjacent free ones merged: each is free or active, no two neighbours are both free, and they have
-- as many bytes as before.
pub start_pool-InOrder :
    (header : ℕ → Bool) (persist_set : Bool) (fuel : ℕ) (m : Mem) (ws : List ℕ)
    → Blocks m clump_offset ws
    → IsReady header m clump_offset ws
    → All IsState ws
    → length ws < fuel
    → Ends
        (λ _ m'.
          Blocks m' clump_offset (merge_words (map recovered ws))
          × InOrder (bytes ws) (merge_words (map recovered ws)))
        (start_pool persist_set fuel)
        m
unfolding start_pool
start_pool-InOrder header persist_set fuel m ws b r a f =
    let post = λ (u : Unit {0}) (m' : Mem).
      Blocks m' clump_offset (merge_words (map recovered ws))
      × InOrder (bytes ws) (merge_words (map recovered ws)) in
    let (total, separated) = merge_words_lem (map recovered ws) in
    Ends.bind (λ _ m'. Blocks m' clump_offset (map recovered ws)) post (recover fuel)
      (λ _. coalesce_free persist_set fuel) m (recover-Blocks header fuel m ws b r f)
      λ u m' b'.
        Ends.mono (Coalesced clump_offset (merge_words (map recovered ws)) m') post
          (coalesce_free persist_set fuel) m'
          (coalesce_free-merges persist_set fuel m' (map recovered ws) b'
            (omega (arith, length-map ws)))
          λ v m'' k. (
            k.0,
            record {
              stable = All-merge_words (map recovered ws) (map-IsStable ws a);
              separated = separated;
              total = total ∙ bytes-recovered ws;
            },
          )

-- Where `pmemalloc_init` creates a pool, the size is at least the smallest allowed, and the file
-- holds one free clump, from the first clump's place to the end mark, which fits in the file.
pub create_pool-Blocks :
    (size : ℕ) (m : Mem)
    → create_pool size ≡ some m
    → Blocks m clump_offset ((last_clump_offset size - clump_offset) ∷ [])
      × (min_pool_size ≤ size)
      × (bytes ((last_clump_offset size - clump_offset) ∷ []) + clump_offset + 64 ≤ size)
unfolding create_pool bytes
create_pool-Blocks size m h = ground arith
