-- ===== src/Pmemalloc/Activate.antt =====
-- `pmemalloc_activate` of libpmemalloc/pmemalloc.c and crashes: what the recovery makes of the
-- images.
use linux_examples.Base.{
  ℕ, ◌+◌, ◌-◌, ◌%◌, ◌≤◌, ◌<◌, ◌≡◌, ◌∙◌, sym, ap, subst, refl, ◌⊎◌, inl, inr, Bool, true, false,
  arith,
}
use linux_examples.Pmem.{Mem, write}
use linux_examples.Pmem.Ends
use linux_examples.Pmem.Ends.{Ends}
use linux_examples.Pmem.Cache.{Cache, persist_cache, covers}
use linux_examples.Pmem.Safe.{Safe}
use linux_examples.Pmem.Settle.{Vals, Settled, Vals-persist, Vals-Durable, atomic_store}
use linux_examples.Pmemalloc.Layout.{on_off, size_of, state_of}
use linux_examples.Pmemalloc.Ops.Recover.{clear_on, finish, recover_clump}
use linux_examples.Pmemalloc.Ops.Change.{activate}
use linux_examples.Pmemalloc.Finish.{
  IsList, IsList-write, Cut, Cut-self, finished, finish-finished, finish-Safe,
}
use linux_examples.Pmemalloc.RecoverClump.{
  recover_clump-reserved, recover_clump-activating, recover_clump-stable, finished-write,
}

-- The clump is free again, with an empty list, and nothing outside of it has changed.
pub record RolledBack (m : Mem) (c sz : ℕ) (m' : Mem) : Type 0 where
  pub free : m' c ≡ sz
  pub empty₀ : m' (on_off c 0) ≡ 0
  pub empty₁ : m' (on_off c 1) ≡ 0
  pub empty₂ : m' (on_off c 2) ≡ 0
  pub same : (x : ℕ) → (x < c) ⊎ (c + sz ≤ x) → m' x ≡ m x

-- Of a crash image: the recovery of the clump rolls it back, or leaves it active with every
-- assignment of its list made.
abbrev pub ActivatesOrNot : Mem → ℕ → ℕ → Mem → Type 0
ActivatesOrNot m c sz img =
    Ends (λ _ m'. RolledBack m c sz m' ⊎ (m' ≡ finished m c (sz + 3))) (recover_clump c (img c)) img

-- What may not be durable before the call: the memory that the caller has filled in.
abbrev pub Filled : Mem → ℕ → ℕ → ℕ → ℕ → Type 0
Filled m c sz x v = (v ≡ m x) ⊎ ((c + 64 ≤ x) × (x < c + sz))

module _ (m : Mem) (c sz : ℕ) (al : c % 64 ≡ 0) (al' : sz % 64 ≡ 0) (big : 64 ≤ sz)
    (l : IsList m c) where
  reserved_image :
      (img : Mem)
      → m c ≡ sz + 1
      → ((x : ℕ) → (img x ≡ m x) ⊎ ((c + 64 ≤ x) × (x < c + sz)))
      → ActivatesOrNot m c sz img
  unfolding clear_on
  reserved_image img at k =
      let word : img c ≡ sz + 1 = ground (arith, k c) in
      let state : state_of (img c) ≡ 1 = omega arith in
      rw (recover_clump-reserved c (img c) state) (
        inl record {
          free = ground arith;
          empty₀ = ground arith;
          empty₁ = ground arith;
          empty₂ = ground arith;
          same = λ x out. ground (arith, k x);
        })

  activating_image :
      (img : Mem) → Cut (write m c (sz + 2)) c img → img c ≡ sz + 2 → ActivatesOrNot m c sz img
  activating_image img cut at =
      let state : state_of (img c) ≡ 2 = omega arith in
      let size : size_of (img c) ≡ sz = omega arith in
      let m' = write m c (sz + 2) in
      rw (recover_clump-activating c (img c) state, size)
        (Ends.mono (λ _ r. r ≡ finished m' c (sz + 3))
          (λ _ r. RolledBack m c sz r ⊎ (r ≡ finished m c (sz + 3))) (finish 0 0 c sz 3) img
          (finish-finished 0 0 c sz 3 m' img (IsList-write m c (sz + 2) l) cut)
          λ u r e. inr (e ∙ finished-write m c (sz + 2) (sz + 3)))

  active_image : ActivatesOrNot m c sz (finished (write m c (sz + 2)) c (sz + 3))
  active_image =
      let state : state_of (finished (write m c (sz + 2)) c (sz + 3) c) ≡ 3 = ground arith in
      rw
        (recover_clump-stable c (finished (write m c (sz + 2)) c (sz + 3) c) (ground arith)
          (ground arith) (ground arith))
        (inr (finished-write m c (sz + 2) (sz + 3)))

  covered : (x v : ℕ) → covers (c + 64) (sz + 1 - 64) x ≡ false → Filled m c sz x v → v ≡ m x
  covered x v out (inl e) = e
  covered x v out (inr r) = let h : covers (c + 64) (sz + 1 - 64) x ≡ true = ground arith in cc

  -- `pmemalloc_activate` of a reserved clump of `sz` bytes, 64 at least, at `c`, both multiples of
  -- 64, whose list assigns to distinct words outside of its header, from a state in which only the
  -- caller's part of the clump may not be durable yet. The call ends, with everything durable: the
  -- list run and cleared and the clump active. Whatever image a crash leaves before one of its
  -- stores and persists, the recovery of the clump ends, and gives either exactly that final memory
  -- or the clump free with an empty list and nothing changed outside of it.
  pub activate-atomic :
      (e : Bool) (cache : Cache)
      → m c ≡ sz + 1
      → cache.mem ≡ m
      → Vals (Filled m c sz) cache
      → Safe e
          (ActivatesOrNot m c sz)
          (λ _ c'. Settled (finished m c (sz + 3)) c')
          (activate (c + 64))
          cache
  unfolding activate
  activate-atomic e cache at mem vals =
      let head : c + 64 - 64 ≡ c = omega arith in
      let word : cache.mem c ≡ sz + 1 = ap (λ (f : Mem). f c) mem ∙ at in
      let state : state_of (sz + 1) ≡ 1 = omega arith in
      let size : size_of (sz + 1) ≡ sz = omega arith in
      let P = ActivatesOrNot m c sz in
      let m' = write m c (sz + 2) in
      let cache' = persist_cache e (c + 64) (sz + 1 - 64) 0 cache in
      let settled : Settled m cache' =
        subst (λ (k : Mem). Settled k cache') mem
          (Vals-persist (Filled m c sz) e (c + 64) (sz + 1 - 64) cache vals
            λ x v out k. covered x v out k ∙ sym (ap (λ (f : Mem). f x) mem)) in
      let reserved : P m = reserved_image m at (λ x. inl refl) in
      let activating : P m' = activating_image m' (Cut-self m' c) (ground arith) in
      rw (head, word, Safe, state, size)
        (
          Vals-Durable P (Filled m c sz) cache vals (λ img k. reserved_image img at k),
          atomic_store e P (λ _ c'. Settled (finished m c (sz + 3)) c') (finish 0 0 c sz 3) m c
              (sz + 2) c 64 cache' (ground arith) settled reserved activating
              λ c' s.
                subst (λ (k : Mem). Safe e P (λ _ c''. Settled k c'') (finish 0 0 c sz 3) c')
                  (finished-write m c (sz + 2) (sz + 3))
                  (finish-Safe e P m' c sz 3 (IsList-write m c (sz + 2) l) al
                    (λ img cut at'. activating_image img cut (at' ∙ ground arith)) active_image c'
                    s),
        )
