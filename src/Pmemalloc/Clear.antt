-- ===== src/Pmemalloc/Clear.antt =====
-- The clearing of a clump's list in libpmemalloc/pmemalloc.c, with the store of the size word
-- behind it, and crashes.
use linux_examples.Base.{
  ℕ, ◌+◌, ◌%◌, ◌≤◌, ◌<◌, ◌≡◌, ap, subst, refl, ◌⊎◌, inl, inr, Bool, false, ◌||◌, arith, ◌==◌,
  Bool-cases,
}
use linux_examples.Pmem.{Mem, write, pure, ◌>>◌, persist, store}
use linux_examples.Pmem.Cache.{Cache, persist_cache, store_cache, covers}
use linux_examples.Pmem.Safe.{Safe}
use linux_examples.Pmem.Settle.{
  Vals, Settled, Settled-mem, Vals-store, Vals-persist, Vals-Durable, atomic_store,
}
use linux_examples.Pmemalloc.Layout.{on_off, num_on, with_state}
use linux_examples.Pmemalloc.Ops.Recover.{clear_on}

abbrev pub cleared : ℕ → Mem → Mem
cleared c m = write (write (write m (on_off c 2) 0) (on_off c 1) 0) (on_off c 0) 0

-- The values that a word may have while the list at `c` is cleared in the memory `base`.
abbrev pub Clearing : Mem → ℕ → ℕ → ℕ → Type 0
Clearing base c x v =
    (v ≡ base x) ⊎ (((x ≡ on_off c 0) ⊎ (x ≡ on_off c 1) ⊎ (x ≡ on_off c 2)) × (v ≡ 0))

cleared-Clearing : (base : Mem) (c x : ℕ) → Clearing base c x (cleared c base x)
cleared-Clearing base c x =
    elim (Bool-cases ((x == on_off c 0) || (x == on_off c 1) || (x == on_off c 2))) [
      | inl e ↦ inr (ground arith, ground arith)
      | inr e ↦ inl (ground arith)
    ]

uncovered :
    (base : Mem) (c x v : ℕ) (cache : Cache)
    → Settled base cache
    → (c % 64 ≡ 0)
    → covers c 64 x ≡ false
    → Clearing base c x v
    → v ≡ cleared c cache.mem x
uncovered base c x v cache settled al out k =
    let now : cache.mem x ≡ base x = settled x (cache.mem x) (inl refl) in
    let far : (x < c) ⊎ (c + 64 ≤ x) = ground arith in
    elim k [
      | inl e ↦ ground arith
      | inr z ↦ absurd (elim z.0 [ inl a ↦ omega arith | inr b ↦ omega arith ])
    ]

-- The list is cleared in the settled memory `base`, under a predicate `P` that holds of every image
-- on the way and of the memory at the end.
module _ (e : Bool) (P : Mem → Type 0) (base : Mem) (c sz state : ℕ) (al : c % 64 ≡ 0)
    (clearing_P : (img : Mem) → ((x : ℕ) → Clearing base c x (img x)) → P img)
    (hdone : P (write (cleared c base) c (with_state sz state))) where
  pub clear_on-Safe :
      (cache : Cache)
      → Settled base cache
      → Safe e P
          (λ _ c'. Settled (write (cleared c base) c (with_state sz state)) c')
          (clear_on c num_on
            >> (persist c 64 0 >> (store c (with_state sz state) >> persist c 64 0)))
          cache
  unfolding clear_on
  clear_on-Safe cache settled =
      let ok = Clearing base c in
      let v₀ : Vals ok cache = λ x v i. inl (settled x v i) in
      let c₁ = store_cache (on_off c 2) 0 cache in
      let v₁ = Vals-store ok (on_off c 2) 0 cache v₀ (ground arith) in
      let c₂ = store_cache (on_off c 1) 0 c₁ in
      let v₂ = Vals-store ok (on_off c 1) 0 c₁ v₁ (ground arith) in
      let c₃ = store_cache (on_off c 0) 0 c₂ in
      let v₃ = Vals-store ok (on_off c 0) 0 c₂ v₂ (ground arith) in
      let mem₃ : c₃.mem ≡ cleared c base = ap (cleared c) (Settled-mem base cache settled) in
      let s₃ =
        subst (λ (k : Mem). Settled k (persist_cache e c 64 0 c₃)) mem₃
          (Vals-persist ok e c 64 c₃ v₃ λ x v out k. uncovered base c x v cache settled al out k) in
      (
        Vals-Durable P ok cache v₀ clearing_P,
        (
          Vals-Durable P ok c₁ v₁ clearing_P,
          (
            Vals-Durable P ok c₂ v₂ clearing_P,
            (
              Vals-Durable P ok c₃ v₃ clearing_P,
              atomic_store e P (λ _ c'. Settled (write (cleared c base) c (with_state sz state)) c')
                  (pure tt) (cleared c base) c (with_state sz state) c 64
                  (persist_cache e c 64 0 c₃) (ground arith) s₃
                  (clearing_P (cleared c base) (cleared-Clearing base c)) hdone λ c' s'. s',
            ),
          ),
        ),
      )
