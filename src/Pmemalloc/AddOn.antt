-- ===== src/Pmemalloc/AddOn.antt =====
-- `pmemalloc_onactive` of libpmemalloc/pmemalloc.c: an assignment is added to a clump's list.
use linux_examples.Base.{
  ℕ, zero, suc, ◌+◌, ◌-◌, ◌%◌, ◌≤◌, ◌<◌, ◌≡◌, ◌≢◌, ◌∙◌, refl, ◌⊎◌, inl, inr, Bool, false, arith,
  ◌==◌, if◌then◌else◌, List, [], ◌∷◌, ◌++◌,
}
use linux_examples.Pmem.{Mem, write, pure, store_word, persist_range}
use linux_examples.Pmem.Cache.{Cache}
use linux_examples.Pmem.Safe.{Safe}
use linux_examples.Pmem.Settle.{Settled, atomic_store}
use linux_examples.Pmemalloc.Layout.{on_off, on_ptr, state_of}
use linux_examples.Pmemalloc.Ops.Change.{add_on, onactive}

-- The assignments (where, what) of the list of the clump at `c`, up to its first unused entry.
unfoldable pub on_list : Mem → ℕ → ℕ → ℕ → List (ℕ × ℕ)
on_list m c zero i = []
on_list m c (suc n) i =
    if m (on_off c i) == 0 then [] else (m (on_off c i), m (on_ptr c i)) ∷ on_list m c n (i + 1)

module _ (e : Bool) (P : Mem → Type 0) (m : Mem) (c parentp nptr k : ℕ) (al : c % 64 ≡ 0)
    (lt : k < 3) where
  -- The entry `k` filled in.
  abbrev pub filled : Mem
  filled = write (write m (on_ptr c k) nptr) (on_off c k) parentp

  add_on-Safe :
      (n i d : ℕ) (cache : Cache)
      → i + d ≡ k
      → d < n
      → ((j : ℕ) → j < k → m (on_off c j) ≢ 0)
      → m (on_off c k) ≡ 0
      → Settled m cache
      → P m
      → P (write m (on_ptr c k) nptr)
      → P filled
      → Safe e P (λ _ c'. Settled filled c') (add_on 0 c parentp nptr n i) cache
  unfolding add_on
  add_on-Safe zero i d cache at room used unused s p p₁ p₂ = absurd (omega arith)
  add_on-Safe (suc n) i zero cache at room used unused s p p₁ p₂ =
      let here : i ≡ k = omega arith in
      let z : cache.mem (on_off c k) ≡ 0 = s _ _ (inl refl) ∙ unused in
      let Q = λ (u : Unit {0}) (c' : Cache). Settled filled c' in
      rw (here, Safe, z)
        (atomic_store e P Q (store_word (on_off c k) parentp (persist_range c 64 0 (pure tt))) m
          (on_ptr c k) nptr c 64 cache (ground arith) s p p₁
          λ c₁ s₁.
            atomic_store e P Q (pure tt) (write m (on_ptr c k) nptr) (on_off c k) parentp c 64 c₁
              (ground arith) s₁ p₁ p₂ λ c₂ s₂. s₂)
  add_on-Safe (suc n) i (suc d) cache at room used unused s p p₁ p₂ =
      let off : cache.mem (on_off c i) ≡ m (on_off c i) = s _ _ (inl refl) in
      let nz : (m (on_off c i) == 0) ≡ false = ground (arith, used i (omega arith)) in
      rw (Safe, off, nz)
        (add_on-Safe n (i + 1) d cache (omega arith) (omega arith) used unused s p p₁ p₂)

-- Of a crash image: the list is as it was, or has the new assignment at its end; all else is as it
-- was.
abbrev pub AddsOrNot : Mem → ℕ → ℕ → ℕ → Mem → Type 0
AddsOrNot m c parentp nptr img =
    ((x : ℕ) → (x < c) ⊎ (c + 64 ≤ x) → img x ≡ m x)
    × (img c ≡ m c)
    × ((on_list img c 3 0 ≡ on_list m c 3 0)
        ⊎ (on_list img c 3 0 ≡ on_list m c 3 0 ++ (parentp, nptr) ∷ []))

module _ (m : Mem) (c parentp nptr : ℕ) (pos : parentp ≢ 0) where
  adds_ptr :
      (k : ℕ)
      → k < 3
      → ((j : ℕ) → j < k → m (on_off c j) ≢ 0)
      → m (on_off c k) ≡ 0
      → AddsOrNot m c parentp nptr (write m (on_ptr c k) nptr)
  unfolding on_list
  adds_ptr zero lt used z = ((λ x out. ground arith), ground arith, inl (ground arith))
  adds_ptr (suc zero) lt used z =
      let u₀ = used 0 (omega arith) in ((λ x out. ground arith), ground arith, inl (ground arith))
  adds_ptr (suc (suc zero)) lt used z =
      let u₀ = used 0 (omega arith) in
      let u₁ = used 1 (omega arith) in ((λ x out. ground arith), ground arith, inl (ground arith))
  adds_ptr (suc (suc (suc k))) lt used z = absurd (omega arith)

  adds_filled :
      (k : ℕ)
      → k < 3
      → ((j : ℕ) → j < k → m (on_off c j) ≢ 0)
      → m (on_off c k) ≡ 0
      → ((j : ℕ) → k < j → j < 3 → m (on_off c j) ≡ 0)
      → AddsOrNot m c parentp nptr (write (write m (on_ptr c k) nptr) (on_off c k) parentp)
  unfolding on_list
  adds_filled zero lt used z rest =
      let r₁ = rest 1 (omega arith) (omega arith) in
      ((λ x out. ground arith), ground arith, inr (ground arith))
  adds_filled (suc zero) lt used z rest =
      let u₀ = used 0 (omega arith) in
      let r₂ = rest 2 (omega arith) (omega arith) in
      ((λ x out. ground arith), ground arith, inr (ground arith))
  adds_filled (suc (suc zero)) lt used z rest =
      let u₀ = used 0 (omega arith) in
      let u₁ = used 1 (omega arith) in ((λ x out. ground arith), ground arith, inr (ground arith))
  adds_filled (suc (suc (suc k))) lt used z rest = absurd (omega arith)

  -- `pmemalloc_onactive` on a reserved clump at a multiple of 64, from a durable state, where `k`
  -- of the three entries of its list, and not all, are used and the destination is not 0. The call
  -- ends, with everything durable and the entry `k` filled in. Whatever image a crash leaves before
  -- one of its stores and persists has the old list or the old list with the assignment at its end,
  -- and the same size word and the same memory outside of the header.
  pub onactive-atomic :
      (e : Bool) (k : ℕ) (cache : Cache)
      → c % 64 ≡ 0
      → state_of (m c) ≡ 1
      → k < 3
      → ((j : ℕ) → j < k → m (on_off c j) ≢ 0)
      → ((j : ℕ) → k ≤ j → j < 3 → m (on_off c j) ≡ 0)
      → Settled m cache
      → Safe e
          (AddsOrNot m c parentp nptr)
          (λ _ c'. Settled (write (write m (on_ptr c k) nptr) (on_off c k) parentp) c')
          (onactive (c + 64) parentp nptr)
          cache
  unfolding onactive
  onactive-atomic e k cache al state lt used unused s =
      let head : c + 64 - 64 ≡ c = omega arith in
      let word : cache.mem c ≡ m c = s _ _ (inl refl) in
      let z = unused k (omega arith) lt in
      rw (head, Safe, word, state)
        (add_on-Safe e (AddsOrNot m c parentp nptr) m c parentp nptr k al lt 3 0 k cache
          (omega arith) lt used z s ((λ x out. refl), refl, inl refl) (adds_ptr k lt used z)
          (adds_filled k lt used z (λ j a b. unused j (omega arith) b)))
