-- ===== src/Pmemalloc/ReserveSafe.antt =====
-- `pmemalloc_reserve` of libpmemalloc/pmemalloc.c and crashes.
use linux_examples.Base.{
  ℕ, zero, suc, ◌+◌, ◌-◌, ◌*◌, ◌%◌, ◌^◌, ◌≤◌, ◌<◌, ◌≡◌, ◌∙◌, sym, subst, ◌⊎◌, inl, inr, refl, Bool,
  true, false, Option, some, List, [], ◌∷◌, arith, leb, ◌==◌, if◌then◌else◌, length, Bool-cases,
}
use linux_examples.Pmem.{Mem, write, Prog, ◌>>◌, pure, store, persist}
use linux_examples.Pmem.Cache.{Cache, persist_cache, store_cache}
use linux_examples.Pmem.Safe
use linux_examples.Pmem.Safe.{Safe, Durable}
use linux_examples.Pmem.Settle.{
  Vals, Settled, Settled-mem, Vals-store, Vals-persist, Vals-Durable, atomic_store,
}
use linux_examples.Pmemalloc.Layout.{size_of, on_off, on_ptr, num_on}
use linux_examples.Pmemalloc.Ops.Reserve.{
  take_clump, first_fit, reserve, start_of, zero_words, reset_on, round_size,
}
use linux_examples.Pmemalloc.Blocks.{Blocks, SameBelow, Blocks-frame}
use linux_examples.Pmemalloc.Reserve.{
  fits, taken-Blocks, reserve_words, round_size-aligned, round_size-ge,
}

-- Stores into a region whose words may take any value.
module _ (e : Bool) (P : Mem → Type 0) (Q : Unit {0} → Cache → Type 0) (ok : ℕ → ℕ → Type 0)
    (any : (img : Mem) → ((x : ℕ) → ok x (img x)) → P img) (rest : Prog (Unit {0}))
    (next : (cache : Cache) → Vals ok cache → Safe e P Q rest cache) where
  zero_words-Safe :
      (n a : ℕ) (cache : Cache)
      → ((x : ℕ) → a ≤ x → x < a + 8 * n → ok x 0)
      → Vals ok cache
      → Safe e P Q (zero_words n a >> rest) cache
  unfolding zero_words
  zero_words-Safe zero a cache free v = next cache v
  zero_words-Safe (suc n) a cache free v = (
    Vals-Durable P ok cache v any,
    zero_words-Safe n (a + 8) (store_cache a 0 cache)
        (λ x lo hi. free x (omega arith) (omega arith))
        (Vals-store ok a 0 cache v (free a (omega arith) (omega arith))),
  )

  reset_on-Safe :
      (c n i : ℕ) (cache : Cache)
      → i + n ≤ 3
      → ((x : ℕ) → c < x → x < c + 64 → ok x 0)
      → Vals ok cache
      → Safe e P Q (reset_on c n i >> rest) cache
  unfolding reset_on
  reset_on-Safe c zero i cache b free v = next cache v
  reset_on-Safe c (suc n) i cache b free v =
      let c₁ = store_cache (on_off c i) 0 cache in
      let v₁ =
        Vals-store ok (on_off c i) 0 cache v (free (on_off c i) (omega arith) (omega arith)) in
      (
        Vals-Durable P ok cache v any,
        (
          Vals-Durable P ok c₁ v₁ any,
          reset_on-Safe c n (i + 1) (store_cache (on_ptr c i) 0 c₁) (omega arith) free
              (Vals-store ok (on_ptr c i) 0 c₁ v₁ (free (on_ptr c i) (omega arith) (omega arith))),
        ),
      )

module _ (e : Bool) (P : Mem → Type 0) (m : Mem) (nsize c sz : ℕ) (al : c % 64 ≡ 0)
    (al' : nsize % 64 ≡ 0) (big : 64 ≤ nsize) (le : nsize ≤ sz)
    (before : (img : Mem) → ((x : ℕ) → (img x ≡ m x) ⊎ ((c < x) × (x < c + sz))) → P img)
    (after : (img : Mem)
      → ((x : ℕ) → (x < c) ⊎ (c + sz ≤ x) → img x ≡ m x)
      → (if leb 128 (sz - nsize)
          then (img c ≡ nsize + 1) × (img (c + nsize) ≡ sz - nsize)
          else (img c ≡ sz + 1) × Unit {0})
      → P img) where
  abbrev After : Unit {0} → Cache → Type 0
  After _ c' = Settled c'.mem c' × P c'.mem

  -- The second half: the list of the clump is reset, and its size word set to `v`.
  reset-Safe :
      (v : ℕ) (m₁ : Mem) (cache : Cache)
      → Settled m₁ cache
      → ((x : ℕ) → (m₁ x ≡ m x) ⊎ ((c + 64 ≤ x) × (x < c + sz)))
      → ((m₂ : Mem) → ((x : ℕ) → (x ≤ c) ⊎ (c + 64 ≤ x) → m₂ x ≡ m₁ x) → P (write m₂ c v))
      → Safe e P After
          (reset_on c num_on 0 >> (persist c 64 0 >> (store c v >> persist c 64 0)))
          cache
  reset-Safe v m₁ cache s near done =
      reset_on-Safe e P After ok any (persist c 64 0 >> (store c v >> persist c 64 0))
        (λ cache' vals. (
          Vals-Durable P ok cache' vals any,
          atomic_store e P After (pure tt) cache'.mem c v c 64 (persist_cache e c 64 0 cache')
              (ground arith)
              (Vals-persist ok e c 64 cache' vals
                (λ x u out k. ground (arith, vals x (cache'.mem x) (inl refl))))
              (any cache'.mem λ x. vals x _ (inl refl)) (finish cache' vals)
              λ c'' s''.
                subst (λ (k : Mem). Settled k c'' × P k)
                  (sym (Settled-mem (write cache'.mem c v) c'' s'')) (s'', finish cache' vals),
        ))
        c num_on 0 cache (omega arith) (λ x lo hi. inr (lo, hi)) (λ x u i. inl (s x u i))
    where
      ok : ℕ → ℕ → Type 0
      ok x u = (u ≡ m₁ x) ⊎ ((c < x) × (x < c + 64))

      any : (img : Mem) → ((x : ℕ) → ok x (img x)) → P img
      any img k = before img λ x. ground (arith, k x, near x)

      finish : (cache' : Cache) → Vals ok cache' → P (write cache'.mem c v)
      finish cache' vals = done cache'.mem λ x far. ground (arith, vals x (cache'.mem x) (inl refl))

  pub take_clump-Safe :
      (cache : Cache) → Settled m cache → Safe e P After (take_clump nsize c sz) cache
  unfolding take_clump
  take_clump-Safe cache s = elim (Bool-cases (leb 128 (sz - nsize))) [
    | inr t ↦ rw t (
        reset-Safe (sz + 1) m cache s (λ x. inl refl)
          λ m₂ k.
            after (write m₂ c (sz + 1)) (λ x out. ground (arith, k x)) (rw t (ground arith, tt)))
    | inl t ↦ rw t (
        zero_words-Safe e P After ok (any t)
          (store (c + nsize) (sz - nsize + 0)
            >> (persist (c + nsize) 64 0
                >> (reset_on c num_on 0
                    >> (persist c 64 0 >> (store c (nsize + 1) >> persist c 64 0)))))
          (λ cache' vals.
            let c₁ = store_cache (c + nsize) (sz - nsize + 0) cache' in
            let v₁ = Vals-store ok (c + nsize) (sz - nsize + 0) cache' vals (ground arith) in
            (
              Vals-Durable P ok cache' vals (any t),
              (
                Vals-Durable P ok c₁ v₁ (any t),
                reset-Safe (nsize + 1) c₁.mem (persist_cache e (c + nsize) 64 0 c₁)
                    (Vals-persist ok e (c + nsize) 64 c₁ v₁
                      λ x u out k. ground (arith, vals x (cache'.mem x) (inl refl)))
                    (λ x. ground (arith, v₁ x (c₁.mem x) (inl refl)))
                    λ m₂ k.
                      after (write m₂ c (nsize + 1))
                        (λ x out. ground (arith, k x, vals x (cache'.mem x) (inl refl)))
                        (rw t (ground arith, ground (arith, k (c + nsize)))),
              ),
            ))
          8 (c + nsize) cache (λ x lo hi. inr (lo, ground arith)) (λ x u i. inl (s x u i)))
  ]
    where
      ok : ℕ → ℕ → Type 0
      ok x u = (u ≡ m x) ⊎ ((c + nsize ≤ x) × (x < c + nsize + 64))

      any : leb 128 (sz - nsize) ≡ true → (img : Mem) → ((x : ℕ) → ok x (img x)) → P img
      any t img k = before img λ x. ground (arith, k x)

-- The clumps from `c` on, before a reservation of `nsize` bytes or after it.
abbrev pub ReservesOrNot : ℕ → ℕ → List ℕ → Mem → Type 0
ReservesOrNot nsize c ws img = Blocks img c ws ⊎ Blocks img c (reserve_words nsize ws)

module _ (e : Bool) (P : Mem → Type 0) (nsize : ℕ) (al' : nsize % 64 ≡ 0) (big : 64 ≤ nsize) where
  abbrev Found : Option ℕ → Cache → Type 0
  Found _ c' = Settled c'.mem c' × P c'.mem

  -- The loop, from the clump at `c` on: `P` holds where the clumps from `c` on are as they were,
  -- and where they are as after the reservation, with nothing changed below.
  first_fit-Safe :
      (fuel c : ℕ) (ws : List ℕ) (m : Mem) (cache : Cache)
      → Blocks m c ws
      → c % 64 ≡ 0
      → length ws < fuel
      → Settled m cache
      → ((img : Mem) → SameBelow c m img → Blocks img c ws → P img)
      → ((img : Mem) → SameBelow c m img → Blocks img c (reserve_words nsize ws) → P img)
      → Safe e P Found (first_fit nsize fuel c) cache
  unfolding first_fit reserve_words
  first_fit-Safe zero c ws m cache b al f s old new = absurd (omega arith)
  first_fit-Safe (suc fuel) c [] m cache b al f s old new =
      let z : cache.mem c ≡ 0 = s c _ (inl refl) ∙ b in
      rw (Safe, z)
        (subst (λ (k : Mem). Settled k cache × P k) (sym (Settled-mem m cache s))
          (s, old m (λ x h. refl) b))
  first_fit-Safe (suc fuel) c (w ∷ ws) m cache b al f s old new =
      let word : cache.mem c ≡ w = s c _ (inl refl) ∙ b.0 in
      let ne : (w == 0) ≡ false = ground arith in
      let next = c + size_of w in
      rw (Safe, word, ne)
        (elim (Bool-cases (fits nsize w)) [
          | inl t ↦ rw t (
              Safe.bind e P (λ _ c'. Settled c'.mem c' × P c'.mem) Found
                (take_clump nsize c (size_of w)) (λ _. pure (some c)) cache
                (take_clump-Safe e P m nsize c (size_of w) al al' big (ground arith)
                  (λ img k.
                    old img (λ x h. ground (arith, k x))
                      (
                        ground (arith, k c),
                        b.1,
                        Blocks-frame ws next m img (λ x h. ground (arith, k x)) b.2,
                      ))
                  (λ img out head.
                    new img (λ x h. out x (inl h))
                      (rw t (taken-Blocks nsize c w ws m img b.2 al' big (ground arith) out head)))
                  cache s)
                λ u c' k. k)
          | inr t ↦ rw t (
              first_fit-Safe fuel next ws m cache b.2 (omega arith) (omega arith) s
                (λ img same b'.
                  old img (λ x h. same x (omega arith)) (same c (omega arith) ∙ b.0, b.1, b'))
                (λ img same b'.
                  new img (λ x h. same x (omega arith))
                    (rw t (same c (omega arith) ∙ b.0, b.1, b'))))
        ])

-- `pmemalloc_reserve` from a durable state, where the search starts at a clump at a multiple of 64,
-- with more fuel than there are clumps from there on, and a size that is not within 127 of 2 ^ 64.
-- The call ends, with everything durable. Whatever image a crash leaves before one of its stores
-- and persists has the clumps as they were before the call or as first fit leaves them.
pub reserve-atomic :
    (e : Bool) (fuel gclp size w : ℕ) (ws : List ℕ) (m : Mem) (cache : Cache)
    → Blocks m (start_of gclp) (w ∷ ws)
    → start_of gclp % 64 ≡ 0
    → size + 127 < 2 ^ 64
    → length (w ∷ ws) < fuel
    → Settled m cache
    → Safe e
        (ReservesOrNot (round_size size) (start_of gclp) (w ∷ ws))
        (λ _ c'.
          Settled c'.mem c' × ReservesOrNot (round_size size) (start_of gclp) (w ∷ ws) c'.mem)
        (reserve fuel gclp size)
        cache
unfolding reserve
reserve-atomic e fuel gclp size w ws m cache b al small f s =
    let start = start_of gclp in
    let nsize = round_size size in
    let P = ReservesOrNot nsize start (w ∷ ws) in
    let word : cache.mem start ≡ w = s start _ (inl refl) ∙ b.0 in
    let ne : (w == 0) ≡ false = ground arith in
    rw (Safe, word, ne)
      (Safe.bind e P (λ _ c'. Settled c'.mem c' × P c'.mem) (λ _ c'. Settled c'.mem c' × P c'.mem)
        (first_fit nsize fuel start) _ cache
        (first_fit-Safe e P nsize (round_size-aligned size)
          (omega (arith, round_size-ge size small)) fuel start (w ∷ ws) m cache b al f s
          (λ img same b'. inl b') (λ img same b'. inr b'))
        λ r c' k. k)
