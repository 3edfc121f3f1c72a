-- ===== src/Pmemalloc/Free.antt =====
-- `pmemalloc_free` of libpmemalloc/pmemalloc.c, up to the coalescing, and crashes.
use linux_examples.Base.{
  ℕ, ◌+◌, ◌-◌, ◌%◌, ◌≡◌, ◌∙◌, sym, ap, subst, refl, ◌⊎◌, inl, inr, Bool, true, arith,
}
use linux_examples.Pmem.{Mem, write}
use linux_examples.Pmem.Ends
use linux_examples.Pmem.Ends.{Ends}
use linux_examples.Pmem.Cache.{Cache}
use linux_examples.Pmem.Safe.{Safe}
use linux_examples.Pmem.Settle.{Settled, atomic_store}
use linux_examples.Pmemalloc.Layout.{size_of, state_of}
use linux_examples.Pmemalloc.Ops.Recover.{finish, recover_clump}
use linux_examples.Pmemalloc.Ops.Change.{free_clump}
use linux_examples.Pmemalloc.Finish.{
  IsList, IsList-write, Cut, Cut-self, finished, finish-finished, finish-Safe,
}
use linux_examples.Pmemalloc.RecoverClump.{
  recover_clump-freeing, recover_clump-stable, finished-write,
}

-- Of a crash image: the recovery of the clump leaves it active and all as it was, or free with
-- every assignment of its list made.
abbrev pub FreesOrNot : Mem → ℕ → ℕ → Mem → Type 0
FreesOrNot m c sz img =
    Ends (λ _ m'. (m' ≡ m) ⊎ (m' ≡ finished m c sz)) (recover_clump c (img c)) img

module _ (m : Mem) (c sz : ℕ) (al : c % 64 ≡ 0) (al' : sz % 64 ≡ 0) (l : IsList m c) where
  same_image : m c ≡ sz + 3 → FreesOrNot m c sz m
  same_image at =
      let state : state_of (m c) ≡ 3 = omega arith in
      rw (recover_clump-stable c (m c) (ground arith) (ground arith) (ground arith)) (inl refl)

  freeing_image :
      (img : Mem) → Cut (write m c (sz + 4)) c img → img c ≡ sz + 4 → FreesOrNot m c sz img
  freeing_image img cut at =
      let state : state_of (img c) ≡ 4 = omega arith in
      let size : size_of (img c) ≡ sz = omega arith in
      let m' = write m c (sz + 4) in
      let e : finished m' c (sz + 0) ≡ finished m c sz =
        finished-write m c (sz + 4) (sz + 0) ∙ ap (finished m c) (omega arith) in
      rw (recover_clump-freeing c (img c) state, size)
        (Ends.mono (λ _ r. r ≡ finished m' c (sz + 0)) (λ _ r. (r ≡ m) ⊎ (r ≡ finished m c sz))
          (finish 0 0 c sz 0) img
          (finish-finished 0 0 c sz 0 m' img (IsList-write m c (sz + 4) l) cut)
          λ u r k. inr (k ∙ e))

  free_image : FreesOrNot m c sz (finished m c sz)
  free_image =
      let state : state_of (finished m c sz c) ≡ 0 = ground arith in
      rw (recover_clump-stable c (finished m c sz c) (ground arith) (ground arith) (ground arith))
        (inr refl)

  -- `pmemalloc_free` down to the coalescing, while the epoch persists data, of an active clump of
  -- `sz` bytes at `c`, both multiples of 64, whose list assigns to distinct words outside of its
  -- header, from a durable state. The call ends, with everything durable: the list run and cleared
  -- and the clump free. Whatever image a crash leaves before one of its stores and persists, the
  -- recovery of the clump ends, and gives either that final memory or the one before the call.
  pub free-atomic :
      (e : Bool) (cache : Cache)
      → m c ≡ sz + 3
      → Settled m cache
      → Safe e
          (FreesOrNot m c sz)
          (λ _ c'. Settled (finished m c sz) c')
          (free_clump true (c + 64))
          cache
  unfolding free_clump
  free-atomic e cache at settled =
      let head : c + 64 - 64 ≡ c = omega arith in
      let word : cache.mem c ≡ sz + 3 = settled c _ (inl refl) ∙ at in
      let state : state_of (sz + 3) ≡ 3 = omega arith in
      let size : size_of (sz + 3) ≡ sz = omega arith in
      let P = FreesOrNot m c sz in
      let m' = write m c (sz + 4) in
      let end : finished m' c (sz + 0) ≡ finished m c sz =
        finished-write m c (sz + 4) (sz + 0) ∙ ap (finished m c) (omega arith) in
      rw (head, word, Safe, state, size)
        (atomic_store e P (λ _ c'. Settled (finished m c sz) c') (finish 0 0 c sz 0) m c (sz + 4) c
          64 cache (ground arith) settled (same_image at)
          (freeing_image m' (Cut-self m' c) (ground arith))
          λ c' s.
            subst (λ (k : Mem). Safe e P (λ _ c''. Settled k c'') (finish 0 0 c sz 0) c') end
              (finish-Safe e P m' c sz 0 (IsList-write m c (sz + 4) l) al
                (λ img cut at'. freeing_image img cut (at' ∙ ground arith))
                (subst P (sym end) free_image) c' s))
