-- ===== src/Pmemalloc/Restart.antt =====
-- `pmemalloc_recover` of libpmemalloc/pmemalloc.c over a whole pool, cut off by a crash and run
-- again.
use linux_examples.Base.{
  ℕ, zero, suc, ◌+◌, ◌%◌, ◌<◌, ◌≡◌, ◌∙◌, refl, inl, inr, Bool, false, arith, ◌==◌, List, [], ◌∷◌,
  map, length,
}
use linux_examples.Pmem.{Mem, ◌>>◌}
use linux_examples.Pmem.Ends
use linux_examples.Pmem.Ends.{Ends}
use linux_examples.Pmem.Cache.{Cache}
use linux_examples.Pmem.Safe
use linux_examples.Pmem.Safe.{Safe}
use linux_examples.Pmem.Settle.{Settled}
use linux_examples.Pmemalloc.Layout.{size_of, clump_offset}
use linux_examples.Pmemalloc.Ops.Recover.{recover_clump, recover_from, recover}
use linux_examples.Pmemalloc.Blocks.{Blocks}
use linux_examples.Pmemalloc.Recover.{
  IsReady, SameEarlier, IsReady-frame, recovered, recover-Blocks,
}
use linux_examples.Pmemalloc.RecoverSafe.{
  after, Redoes, recover_clump-Safe, recover_clump-after, after-same, after-stable,
}

-- The memory after the recovery of the clumps from `c` on, with the size words `ws`.
unfoldable pub final : Mem → ℕ → List ℕ → Mem
final m c [] = m
final m c (w ∷ ws) = final (after m c w) (c + size_of w) ws

-- A step of the loop over the clumps, at a clump that is not the end mark.
Ends-step :
    (Q : Unit {0} → Mem → Type 0) (fuel c v : ℕ) (img : Mem)
    → img c ≡ v
    → (v == 0) ≡ false
    → Ends Q (recover_clump c v >> recover_from fuel (c + size_of v)) img
    → Ends Q (recover_from (suc fuel) c) img
unfolding recover_from
Ends-step Q fuel c v img e ne s = rw (e, Ends, ne) s

module _ (header : ℕ → Bool) where
  IsReady-next :
      (m : Mem) (c w : ℕ) (ws : List ℕ)
      → 0 < c
      → c % 64 ≡ 0
      → Blocks m c (w ∷ ws)
      → IsReady header m c (w ∷ ws)
      → IsReady header (after m c w) (c + size_of w) ws × Blocks (after m c w) (c + size_of w) ws
  IsReady-next m c w ws pos al b r =
      IsReady-frame header ws (c + size_of w) m (after m c w)
        (λ x lo h. after-same header m c w ws pos al b.0 r x h (inr (omega (arith, b.1)))) b.2 r.3

  recover_from-final :
      (fuel c : ℕ) (m : Mem) (ws : List ℕ)
      → 0 < c
      → c % 64 ≡ 0
      → Blocks m c ws
      → IsReady header m c ws
      → length ws < fuel
      → Ends (λ _ m'. m' ≡ final m c ws) (recover_from fuel c) m
  unfolding recover_from final
  recover_from-final zero c m ws pos al b r f = absurd (omega arith)
  recover_from-final (suc fuel) c m [] pos al b r f = rw (b, Ends) refl
  recover_from-final (suc fuel) c m (w ∷ ws) pos al b r f =
      let ne : (w == 0) ≡ false = ground (arith, b.1) in
      let next = c + size_of w in
      let (r', b') = IsReady-next m c w ws pos al b r in
      Ends-step (λ _ m'. m' ≡ final m c (w ∷ ws)) fuel c w m b.0 ne
        (Ends.bind (λ _ m'. m' ≡ after m c w) (λ _ m'. m' ≡ final m c (w ∷ ws)) (recover_clump c w)
          (λ _. recover_from fuel next) m (recover_clump-after header m c w ws pos al b.0 r)
          λ u m' k. rw k (
            recover_from-final fuel next (after m c w) ws (omega arith) (omega arith) b' r'
              (omega arith)))

  -- Of a crash image: the recovery, run again, has the same result, and the headers before `c` are
  -- as they were.
  abbrev Resumes : ℕ → ℕ → Mem → List ℕ → Mem → Type 0
  Resumes fuel c m ws img =
      Ends (λ _ m'. m' ≡ final m c ws) (recover_from fuel c) img × SameEarlier header c m img

  module _ (fuel c : ℕ) (m : Mem) (w : ℕ) (ws : List ℕ) (pos : 0 < c) (al : c % 64 ≡ 0)
      (b : Blocks m c (w ∷ ws)) (r : IsReady header m c (w ∷ ws)) (f : length ws < fuel) where
    -- The images of the work on the first clump.
    Resumes-here : (img : Mem) → Redoes header m c w img → Resumes (suc fuel) c m (w ∷ ws) img
    unfolding final
    Resumes-here img k =
        let size = k.size in
        let ne : (img c == 0) ≡ false = ground (arith, b.1, size) in
        let (r', b') = IsReady-next m c w ws pos al b r in
        let Q : Unit {0} → Mem → Type 0 = λ _ m'. m' ≡ final m c (w ∷ ws) in
        (
          Ends-step Q fuel c (img c) img refl ne (
              Ends.bind (λ _ m'. m' ≡ after m c w) Q (recover_clump c (img c))
                (λ _. recover_from fuel (c + size_of (img c))) img k.again
                λ u m' e.
                  rw (e, size)
                    (recover_from-final fuel (c + size_of w) (after m c w) ws (omega (arith, pos))
                      (omega (arith, al)) b' r' f)),
          k.same,
        )

    -- The images of the work on the clumps behind it.
    Resumes-behind :
        (img : Mem)
        → Resumes fuel (c + size_of w) (after m c w) ws img
        → Resumes (suc fuel) c m (w ∷ ws) img
    unfolding final
    Resumes-behind img k =
        let marked = r.0 c (omega arith) (omega arith) in
        let word : img c ≡ after m c w c = k.1 c (omega (arith, b.1)) marked in
        let (stable, size) = after-stable header m c w ws pos al b.0 r in
        let ne : (after m c w c == 0) ≡ false = ground (arith, b.1, size) in
        let Q : Unit {0} → Mem → Type 0 = λ _ m'. m' ≡ final m c (w ∷ ws) in
        (
          Ends-step Q fuel c (after m c w c) img word ne (rw (stable, size) k.0),
          λ x lt h.
              k.1 x (omega (arith, lt)) h ∙ after-same header m c w ws pos al b.0 r x h (inl lt),
        )

  recover_from-Safe :
      (e : Bool) (fuel c : ℕ) (m : Mem) (ws : List ℕ) (cache : Cache)
      → 0 < c
      → c % 64 ≡ 0
      → Blocks m c ws
      → IsReady header m c ws
      → length ws < fuel
      → Settled m cache
      → Safe e (Resumes fuel c m ws) (λ _ c'. Settled (final m c ws) c') (recover_from fuel c) cache
  unfolding recover_from final
  recover_from-Safe e zero c m ws cache pos al b r f settled = absurd (omega arith)
  recover_from-Safe e (suc fuel) c m [] cache pos al b r f settled =
      let word : cache.mem c ≡ 0 = settled c _ (inl refl) ∙ b in rw (word, Safe) settled
  recover_from-Safe e (suc fuel) c m (w ∷ ws) cache pos al b r f settled =
      let word : cache.mem c ≡ w = settled c _ (inl refl) ∙ b.0 in
      let ne : (w == 0) ≡ false = ground (arith, b.1) in
      let next = c + size_of w in
      let m₁ = after m c w in
      let Q : Unit {0} → Cache → Type 0 = λ _ c'. Settled (final m₁ next ws) c' in
      let (r', b') = IsReady-next m c w ws pos al b r in
      rw (word, Safe, ne)
        (Safe.bind e (Resumes (suc fuel) c m (w ∷ ws)) (λ _ c'. Settled m₁ c') Q (recover_clump c w)
          (λ _. recover_from fuel next) cache
          (Safe.mono e (Redoes header m c w) (Resumes (suc fuel) c m (w ∷ ws))
            (Resumes-here fuel c m w ws pos al b r (omega (arith, f))) (λ _ c'. Settled m₁ c')
            (λ _ c'. Settled m₁ c') (recover_clump c w) cache
            (recover_clump-Safe header m c w ws pos al b.0 r e cache settled) (λ u c' k. k))
          λ u c' k.
            Safe.mono e (Resumes fuel next m₁ ws) (Resumes (suc fuel) c m (w ∷ ws))
              (Resumes-behind fuel c m w ws pos al b r (omega (arith, f))) Q Q
              (recover_from fuel next) c'
              (recover_from-Safe e fuel next m₁ ws c' (omega arith) (omega arith) b' r'
                (omega arith) k)
              (λ u c' k. k))

  -- pmemalloc_recover, on a durable pool of clumps with lists that assign to distinct words outside
  -- of all headers, with more fuel than clumps: it ends with everything durable and each clump
  -- recovered, and from whatever image a crash leaves before one of its stores and persists the
  -- recovery, run again, ends in exactly that memory.
  pub recover-restarts :
      (e : Bool) (fuel : ℕ) (m : Mem) (ws : List ℕ) (cache : Cache)
      → Blocks m clump_offset ws
      → IsReady header m clump_offset ws
      → length ws < fuel
      → Settled m cache
      → (m' : Mem) × Blocks m' clump_offset (map recovered ws)
        × Safe e
            (λ img. Ends (λ _ m''. m'' ≡ m') (recover fuel) img)
            (λ _ c'. Settled m' c')
            (recover fuel)
            cache
  unfolding recover
  recover-restarts e fuel m ws cache b r f settled =
      let end = final m clump_offset ws in
      let both =
        Ends.both (λ _ m'. m' ≡ end) (λ _ m'. Blocks m' clump_offset (map recovered ws))
          (recover_from fuel clump_offset) m
          (recover_from-final fuel clump_offset m ws (omega arith) (omega arith) b r f)
          (recover-Blocks header fuel m ws b r f) in
      let (u, m', out) =
        Ends.outcome (λ _ m'. (m' ≡ end) × Blocks m' clump_offset (map recovered ws))
          (recover_from fuel clump_offset) m both in
      (
        end,
        (rw out.0 at out.1),
        Safe.mono e (Resumes fuel clump_offset m ws)
            (λ img. Ends (λ _ m''. m'' ≡ end) (recover fuel) img) (λ img k. k.0)
            (λ _ c'. Settled end c') (λ _ c'. Settled end c') (recover_from fuel clump_offset) cache
            (recover_from-Safe e fuel clump_offset m ws cache (omega arith) (omega arith) b r f
              settled)
            (λ u c' k. k),
      )
