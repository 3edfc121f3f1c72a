-- ===== src/Pmemalloc/Recover.antt =====
-- `pmemalloc_recover` of libpmemalloc/pmemalloc.c over a whole pool.
use linux_examples.Base.{
  ℕ, zero, suc, ◌+◌, ◌≤◌, ◌<◌, ◌≡◌, ◌∙◌, refl, ◌⊎◌, inl, inr, Bool, true, false, ◌&&◌, arith, leb,
  ltb, ◌==◌, if◌then◌else◌, Bool-cases, List, [], ◌∷◌, map, length,
}
use linux_examples.Pmem.{Mem, write}
use linux_examples.Pmem.Ends
use linux_examples.Pmem.Ends.{Ends}
use linux_examples.Pmemalloc.Layout.{on_off, on_ptr, size_of, state_of, clump_offset}
use linux_examples.Pmemalloc.Ops.Recover.{clear_on, finish, recover_clump, recover_from, recover}
use linux_examples.Pmemalloc.Blocks.{Blocks}
use linux_examples.Pmemalloc.OnList.{applied}
use linux_examples.Pmemalloc.Redo.{Distinct}
use linux_examples.Pmemalloc.Finish.{IsList, Cut-self, finished, finish-finished}
use linux_examples.Pmemalloc.RecoverClump.{
  recover_clump-reserved, recover_clump-activating, recover_clump-freeing, recover_clump-stable,
}

-- The size word of a clump after the recovery.
unfoldable pub recovered : ℕ → ℕ
recovered w =
    if state_of w == 1
    then size_of w
    else if state_of w == 2
    then size_of w + 3
    else if state_of w == 4
    then size_of w
    else w

pub size_of-recovered : (w : ℕ) → size_of (recovered w) ≡ size_of w
unfolding recovered
size_of-recovered w = ground arith

-- `header` marks the words of clump headers. The clumps from `c` on have headers that it marks, and
-- lists that assign to distinct words that it does not mark.
module _ (header : ℕ → Bool) where
  abbrev pub IsReady : Mem → ℕ → List ℕ → Type 0
  IsReady m c [] = header c ≡ true
  IsReady m c (w ∷ ws) =
      ((x : ℕ) → c ≤ x → x < c + 64 → header x ≡ true)
      × ((i : ℕ) → i < 3 → header (m (on_off c i)) ≡ false)
      × Distinct m c
      × IsReady m (c + size_of w) ws

  abbrev pub SameHeaders : ℕ → Mem → Mem → Type 0
  SameHeaders c m m' = (x : ℕ) → c ≤ x → header x ≡ true → m' x ≡ m x

  abbrev pub SameEarlier : ℕ → Mem → Mem → Type 0
  SameEarlier c m m' = (x : ℕ) → x < c → header x ≡ true → m' x ≡ m x

  pub IsReady-frame :
      (ws : List ℕ) (c : ℕ) (m m' : Mem)
      → SameHeaders c m m'
      → Blocks m c ws
      → IsReady m c ws
      → IsReady m' c ws × Blocks m' c ws
  IsReady-frame [] c m m' same b r = (r, ground (arith, same c))
  IsReady-frame (w ∷ ws) c m m' same b r =
      let off = λ (i : ℕ) (h : i < 3).
        same (on_off c i) (omega arith) (r.0 (on_off c i) (omega arith) (omega arith)) in
      let (r', b') =
        IsReady-frame ws (c + size_of w) m m' (λ x h k. same x (omega arith) k) b.2 r.3 in
      (
        (
          r.0,
          (λ i h. rw (off i h) (r.1 i h)),
          (λ i j a h. rw (off i (omega arith), off j h) (r.2 i j a h)),
          r',
        ),
        (same c (omega arith) (r.0 c (omega arith) (omega arith)) ∙ b.0, b.1, b'),
      )

  pub applied_unmarked :
      (h : Mem) (c n i : ℕ) (m : Mem) (x : ℕ)
      → ((i : ℕ) → i < 3 → header (h (on_off c i)) ≡ false)
      → i + n ≤ 3
      → header x ≡ true
      → applied h c n i m x ≡ m x
  unfolding applied
  applied_unmarked h c zero i m x out b k = refl
  applied_unmarked h c (suc n) i m x out b k = elim (Bool-cases (x == h (on_off c i))) [
    | inl e ↦
        (let same : x ≡ h (on_off c i) = ground arith in
          absurd (let o = rw (← same) at (out i (omega arith)) in cc))
    | inr e ↦ ground (
      arith,
      applied_unmarked h c n (i + 1) (write m (h (on_off c i)) (h (on_ptr c i))) x out (omega arith)
          k,
    )
  ]

  -- What the recovery of one clump does to the headers.
  abbrev Recovered : ℕ → ℕ → Mem → Unit {0} → Mem → Type 0
  Recovered c w m _ m' =
      (m' c ≡ recovered w) × ((x : ℕ) → header x ≡ true → (x < c) ⊎ (c + 64 ≤ x) → m' x ≡ m x)

  pub ready-IsList : (m : Mem) (c w : ℕ) (ws : List ℕ) → 0 < c → IsReady m c (w ∷ ws) → IsList m c
  ready-IsList m c w ws pos r = record {
    positive = pos;
    leaves = λ i h.
        let o = m (on_off c i) in
        elim (Bool-cases (leb c o && ltb o (c + 64))) [
          | inl e ↦
              let marked = r.0 o (ground arith) (ground arith) in
              let unmarked = r.1 i h in absurd (cc)
          | inr e ↦ ground arith
        ];
    distinct = r.2;
  }

  finished-Recovered :
      (m : Mem) (c w t : ℕ) (ws : List ℕ)
      → 0 < c
      → IsReady m c (w ∷ ws)
      → recovered w ≡ size_of w + t
      → Ends (Recovered c w m) (finish 0 0 c (size_of w) t) m
  finished-Recovered m c w t ws pos r e =
      Ends.mono (λ _ m'. m' ≡ finished m c (size_of w + t)) (Recovered c w m)
        (finish 0 0 c (size_of w) t) m
        (finish-finished 0 0 c (size_of w) t m m (ready-IsList m c w ws pos r) (Cut-self m c))
        λ u m' k. rw k (
          ground arith,
          λ x h out. ground (arith, applied_unmarked m c 3 0 m x r.1 (omega arith) h),
        )

  recover_clump-Recovered :
      (m : Mem) (c w : ℕ) (ws : List ℕ)
      → 0 < c
      → IsReady m c (w ∷ ws)
      → m c ≡ w
      → Ends (Recovered c w m) (recover_clump c w) m
  unfolding recovered clear_on
  recover_clump-Recovered m c w ws pos r at = elim (Bool-cases (state_of w == 1)) [
    | inl e ↦ rw (recover_clump-reserved c w (ground arith)) (ground arith, λ x h out. ground arith)
    | inr e ↦ elim (Bool-cases (state_of w == 2)) [
      | inl e₂ ↦
          rw (recover_clump-activating c w (ground arith))
            (finished-Recovered m c w 3 ws pos r (ground arith))
      | inr e₂ ↦ elim (Bool-cases (state_of w == 4)) [
        | inl e₄ ↦
            rw (recover_clump-freeing c w (ground arith))
              (finished-Recovered m c w 0 ws pos r (ground arith))
        | inr e₄ ↦ rw (recover_clump-stable c w e e₂ e₄) (ground arith, λ x h out. refl)
      ]
    ]
  ]

  abbrev RecoveredFrom : ℕ → List ℕ → Mem → Unit {0} → Mem → Type 0
  RecoveredFrom c ws m _ m' = Blocks m' c (map recovered ws) × SameEarlier c m m'

  recover_from-Blocks :
      (fuel c : ℕ) (m : Mem) (ws : List ℕ)
      → 0 < c
      → Blocks m c ws
      → IsReady m c ws
      → length ws < fuel
      → Ends (RecoveredFrom c ws m) (recover_from fuel c) m
  unfolding recover_from
  recover_from-Blocks zero c m ws pos b r f = absurd (omega arith)
  recover_from-Blocks (suc fuel) c m [] pos b r f = rw (b, Ends) (b, λ x lt h. refl)
  recover_from-Blocks (suc fuel) c m (w ∷ ws) pos b r f =
      let ne : (w == 0) ≡ false = ground arith in
      let next = c + size_of w in
      rw (b.0, Ends, ne)
        (Ends.bind (Recovered c w m) (RecoveredFrom c (w ∷ ws) m) (recover_clump c w)
          (λ _. recover_from fuel next) m (recover_clump-Recovered m c w ws pos r b.0)
          λ u m' k.
            let (r', b') =
              IsReady-frame ws next m m' (λ x lo h. k.1 x h (inr (omega arith))) b.2 r.3 in
            Ends.mono (RecoveredFrom next ws m') (RecoveredFrom c (w ∷ ws) m)
              (recover_from fuel next) m'
              (recover_from-Blocks fuel next m' ws (omega arith) b' r' (omega arith))
              λ v m'' t. (
                (
                  t.1 c (omega arith) (r.0 c (omega arith) (omega arith)) ∙ k.0,
                  rw (size_of-recovered w) b.1,
                  rw (size_of-recovered w) t.0,
                ),
                λ x lt h. t.1 x (omega arith) h ∙ k.1 x h (inl lt),
              ))

  -- `pmemalloc_recover`, on a pool whose clumps have the size words `ws` and lists that assign to
  -- distinct words outside of all headers, with more fuel than clumps. It ends, and each clump has
  -- its place and its recovered state: reserved and freeing ones are free, activating ones active.
  pub recover-Blocks :
      (fuel : ℕ) (m : Mem) (ws : List ℕ)
      → Blocks m clump_offset ws
      → IsReady m clump_offset ws
      → length ws < fuel
      → Ends (λ _ m'. Blocks m' clump_offset (map recovered ws)) (recover fuel) m
  unfolding recover
  recover-Blocks fuel m ws b r f =
      Ends.mono (RecoveredFrom clump_offset ws m)
        (λ _ m'. Blocks m' clump_offset (map recovered ws)) (recover_from fuel clump_offset) m
        (recover_from-Blocks fuel clump_offset m ws (omega arith) b r f) λ u m' t. t.0
