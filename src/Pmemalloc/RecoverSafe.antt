-- ===== src/Pmemalloc/RecoverSafe.antt =====
-- `pmemalloc_recover` of libpmemalloc/pmemalloc.c, cut off by a crash and run again.
use linux_examples.Base.{
  ℕ, ◌+◌, ◌%◌, ◌≤◌, ◌<◌, ◌≡◌, ◌∙◌, sym, ap, fun_ext, refl, ◌⊎◌, inl, inr, Bool, true, arith, ◌==◌,
  if◌then◌else◌, Bool-cases, List, ◌∷◌,
}
use linux_examples.Pmem.{Mem, write, pure}
use linux_examples.Pmem.Ends.{Ends}
use linux_examples.Pmem.Cache.{Cache}
use linux_examples.Pmem.Safe.{Safe}
use linux_examples.Pmem.Settle.{Settled}
use linux_examples.Pmemalloc.Layout.{size_of, state_of}
use linux_examples.Pmemalloc.Ops.Recover.{clear_on, finish, recover_clump}
use linux_examples.Pmemalloc.Clear.{cleared, Clearing, clear_on-Safe}
use linux_examples.Pmemalloc.Finish.{IsList, Cut, Cut-self, finished, finish-finished, finish-Safe}
use linux_examples.Pmemalloc.Recover.{IsReady, SameEarlier, applied_unmarked, ready-IsList}
use linux_examples.Pmemalloc.RecoverClump.{
  recover_clump-reserved, recover_clump-activating, recover_clump-freeing, recover_clump-stable,
}

-- The memory after the recovery of the clump at `c` with the size word `w`.
unfoldable pub after : Mem → ℕ → ℕ → Mem
after m c w =
    if state_of w == 1
    then write (cleared c m) c (size_of w + 0)
    else if state_of w == 2
    then finished m c (size_of w + 3)
    else if state_of w == 4
    then finished m c (size_of w + 0)
    else m

after-cases :
    (m : Mem) (c w : ℕ)
    → ((state_of w ≡ 1) × (after m c w ≡ write (cleared c m) c (size_of w + 0)))
      ⊎ ((t : ℕ) × ((t ≡ 0) ⊎ (t ≡ 3))
          × (recover_clump c w ≡ finish 0 0 c (size_of w) t)
          × (after m c w ≡ finished m c (size_of w + t)))
      ⊎ ((recover_clump c w ≡ pure tt) × (after m c w ≡ m))
unfolding after
after-cases m c w = elim (Bool-cases (state_of w == 1)) [
  | inl h ↦ inl (ground arith, rw h refl)
  | inr h ↦ elim (Bool-cases (state_of w == 2)) [
    | inl h₂ ↦ inr (inl (3, inr refl, recover_clump-activating c w (ground arith), rw (h, h₂) refl))
    | inr h₂ ↦ elim (Bool-cases (state_of w == 4)) [
      | inl h₄ ↦
          inr (inl (0, inl refl, recover_clump-freeing c w (ground arith), rw (h, h₂, h₄) refl))
      | inr h₄ ↦ inr (inr (recover_clump-stable c w h h₂ h₄, rw (h, h₂, h₄) refl))
    ]
  ]
]

module _ (header : ℕ → Bool) where
  -- Of a crash image: the recovery of the clump, run again, has the same result, and the headers
  -- before the clump are as they were.
  pub record Redoes (m : Mem) (c w : ℕ) (img : Mem) : Type 0 where
    pub again : Ends (λ _ m'. m' ≡ after m c w) (recover_clump c (img c)) img
    pub size : size_of (img c) ≡ size_of w
    pub same : SameEarlier header c m img

  module _ (m : Mem) (c w : ℕ) (ws : List ℕ) (pos : 0 < c) (al : c % 64 ≡ 0) (at : m c ≡ w)
      (r : IsReady header m c (w ∷ ws)) where
    list : IsList m c
    list = ready-IsList header m c w ws pos r

    finished_same : (v : ℕ) → SameEarlier header c m (finished m c v)
    finished_same v x lt h = ground (arith, applied_unmarked header m c 3 0 m x r.1 (omega arith) h)

    -- Where the recovery is `finish` with the state `t`, of a stable clump.
    finish_clump-Safe :
        (t : ℕ) (e : Bool) (cache : Cache)
        → (t ≡ 0) ⊎ (t ≡ 3)
        → recover_clump c w ≡ finish 0 0 c (size_of w) t
        → after m c w ≡ finished m c (size_of w + t)
        → Settled m cache
        → Safe e (Redoes m c w) (λ _ c'. Settled (after m c w) c') (recover_clump c w) cache
    finish_clump-Safe t e cache stable run result settled =
        let cut_image : (img : Mem) → Cut m c img → img c ≡ m c → Redoes m c w img = λ img cut same.
          (let word : img c ≡ w = same ∙ at in
            record {
              again = rw (word, run, result) (finish-finished 0 0 c (size_of w) t m img list cut);
              size = ap size_of word;
              same = λ x lt h. ground (
                arith,
                cut.rest x (omega arith, omega arith, omega arith, omega arith),
                applied_unmarked header m c 3 0 m x r.1 (omega arith) h,
              );
            }) in
        let done : Redoes m c w (finished m c (size_of w + t)) = record {
          again =
              rw
                (recover_clump-stable c (finished m c (size_of w + t) c) (ground arith)
                  (ground arith) (ground arith))
                (sym result);
          size = ground arith;
          same = finished_same (size_of w + t);
        } in
        rw (run, result)
          (finish-Safe e (Redoes m c w) m c (size_of w) t list al cut_image done cache settled)

    reserved_clump-Safe :
        (e : Bool) (cache : Cache)
        → state_of w ≡ 1
        → after m c w ≡ write (cleared c m) c (size_of w + 0)
        → Settled m cache
        → Safe e (Redoes m c w) (λ _ c'. Settled (after m c w) c') (recover_clump c w) cache
    unfolding clear_on
    reserved_clump-Safe e cache state result settled =
        let run = recover_clump-reserved c w state in
        let clearing : (img : Mem) → ((x : ℕ) → Clearing m c x (img x)) → Redoes m c w img =
          λ img k.
            (let word : img c ≡ w = ground (arith, k c, at) in
              let whole : write (cleared c img) c (size_of w + 0)
                  ≡ write (cleared c m) c (size_of w + 0) =
                fun_ext λ x. ground (arith, k x) in
              record {
                again = rw (word, run, result) whole;
                size = ap size_of word;
                same = λ x lt h. ground (arith, k x);
              }) in
        let done : Redoes m c w (write (cleared c m) c (size_of w + 0)) = record {
          again =
              rw
                (recover_clump-stable c (write (cleared c m) c (size_of w + 0) c) (ground arith)
                  (ground arith) (ground arith))
                (sym result);
          size = ground arith;
          same = λ x lt h. ground arith;
        } in
        rw (run, result)
          (clear_on-Safe e (Redoes m c w) m c (size_of w) 0 al clearing done cache settled)

    pub recover_clump-Safe :
        (e : Bool) (cache : Cache)
        → Settled m cache
        → Safe e (Redoes m c w) (λ _ c'. Settled (after m c w) c') (recover_clump c w) cache
    recover_clump-Safe e cache settled = elim (after-cases m c w) [
      | inl (state, result) ↦ reserved_clump-Safe e cache state result settled
      | inr (inl (t, stable, run, result)) ↦ finish_clump-Safe t e cache stable run result settled
      | inr (inr (run, result)) ↦ rw (run, result) settled
    ]

    pub recover_clump-after : Ends (λ _ m'. m' ≡ after m c w) (recover_clump c w) m
    unfolding clear_on
    recover_clump-after = elim (after-cases m c w) [
      | inl (state, result) ↦ rw (recover_clump-reserved c w state, result) refl
      | inr (inl (t, stable, run, result)) ↦
          rw (run, result) (finish-finished 0 0 c (size_of w) t m m list (Cut-self m c))
      | inr (inr (run, result)) ↦ rw (run, result) refl
    ]

    -- What the recovery of the clump leaves of the headers.
    pub after-same : (x : ℕ) → header x ≡ true → (x < c) ⊎ (c + 64 ≤ x) → after m c w x ≡ m x
    after-same x h out = elim (after-cases m c w) [
      | inl (state, result) ↦ rw result (ground arith)
      | inr (inl (t, stable, run, result)) ↦
          rw result (ground (arith, applied_unmarked header m c 3 0 m x r.1 (omega arith) h))
      | inr (inr (run, result)) ↦ rw result refl
    ]

    -- The clump is stable, and of the same size.
    pub after-stable :
        (recover_clump c (after m c w c) ≡ pure tt) × (size_of (after m c w c) ≡ size_of w)
    after-stable = elim (after-cases m c w) [
      | inl (state, result) ↦ rw result (
        recover_clump-stable c (write (cleared c m) c (size_of w + 0) c) (ground arith)
            (ground arith) (ground arith),
        ground arith,
      )
      | inr (inl (t, stable, run, result)) ↦ rw result (
        recover_clump-stable c (finished m c (size_of w + t) c) (ground arith) (ground arith)
            (ground arith),
        ground arith,
      )
      | inr (inr (run, result)) ↦ rw (result, at) (run, refl)
    ]
