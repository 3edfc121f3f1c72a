-- ===== src/Pmemalloc/Coalesce.antt =====
-- `pmemalloc_coalesce_free` of libpmemalloc/pmemalloc.c, and the merging of adjacent free clumps on
-- the list of size words.
use linux_examples.Base.{
  ℕ, zero, suc, ◌+◌, ◌%◌, ◌≤◌, ◌<◌, ◌≡◌, ◌∙◌, ap, inl, inr, refl, Bool, false, ◌&&◌, List, [], ◌∷◌,
  arith, ◌==◌, if◌then◌else◌, length, Bool-cases,
}
use linux_examples.Pmem.{Mem}
use linux_examples.Pmem.Ends
use linux_examples.Pmem.Ends.{Ends}
use linux_examples.Pmemalloc.Layout.{size_of, state_of, clump_offset, epoch_flags}
use linux_examples.Pmemalloc.Ops.Coalesce.{
  Pending, nothing, one, several, add_free, write_pending, coalesce_from, coalesce_free,
}
use linux_examples.Pmemalloc.Blocks.{Blocks, SameFrom, SameBelow, Blocks-frame}

abbrev pub is_free : ℕ → Bool
is_free w = state_of w == 0

-- Puts a clump in front of merged ones: two free neighbours become one.
unfoldable pub cons_merge : ℕ → List ℕ → List ℕ
cons_merge w [] = w ∷ []
cons_merge w (v ∷ vs) = if is_free w && is_free v then (w + v) ∷ vs else w ∷ v ∷ vs

-- The clumps with every run of adjacent free ones merged, from the last to the first.
unfoldable pub merge_words : List ℕ → List ℕ
merge_words [] = []
merge_words (w ∷ ws) = cons_merge w (merge_words ws)

cons_merge-cons_merge :
    (s w : ℕ) (ws : List ℕ)
    → s % 64 ≡ 0
    → w % 64 ≡ 0
    → cons_merge s (cons_merge w ws) ≡ cons_merge (s + w) ws
unfolding cons_merge
cons_merge-cons_merge s w [] hs hw = ground arith
cons_merge-cons_merge s w (v ∷ vs) hs hw = ground arith

cons_merge_other :
    (s w : ℕ) (ws : List ℕ) → is_free w ≡ false → cons_merge s (cons_merge w ws) ≡ s ∷ w ∷ ws
unfolding cons_merge
cons_merge_other s w [] h = ground arith
cons_merge_other s w (v ∷ vs) h = ground arith

cons_merge_kept : (w : ℕ) (ws : List ℕ) → is_free w ≡ false → cons_merge w ws ≡ w ∷ ws
unfolding cons_merge
cons_merge_kept w [] h = refl
cons_merge_kept w (v ∷ vs) h = ground arith

-- Where the pending free clumps start, and what they and the clumps behind them become.
first_of : Pending → ℕ → ℕ
first_of nothing clp = clp
first_of (one first csize) clp = first
first_of (several first csize) clp = first

merged : Pending → List ℕ → List ℕ
merged nothing ws = merge_words ws
merged (one first csize) ws = cons_merge csize (merge_words ws)
merged (several first csize) ws = cons_merge csize (merge_words ws)

-- The pending free clumps fill the memory up to `clp`.
Fills : Mem → ℕ → Pending → Type 0
Fills m clp nothing = Unit
Fills m clp (one first csize) =
    (m first ≡ csize) × (first + csize ≡ clp) × (csize % 64 ≡ 0) × (64 ≤ csize)
Fills m clp (several first csize) = (first + csize ≡ clp) × (csize % 64 ≡ 0) × (64 ≤ csize)

abbrev pub Coalesced : ℕ → List ℕ → Mem → Unit {0} → Mem → Type 0
Coalesced c ws m _ m' = Blocks m' c ws × SameBelow c m m'

add_free-Fills :
    (m : Mem) (clp w : ℕ) (p : Pending)
    → m clp ≡ w
    → w % 64 ≡ 0
    → 64 ≤ w
    → Fills m clp p
    → Fills m (clp + w) (add_free p clp w)
unfolding Fills
add_free-Fills m clp w nothing e a l f = omega arith
add_free-Fills m clp w (one first csize) e a l f = omega arith
add_free-Fills m clp w (several first csize) e a l f = omega arith

first_of-add_free :
    (clp w : ℕ) (p : Pending) → first_of (add_free p clp w) (clp + w) ≡ first_of p clp
unfolding first_of
first_of-add_free clp w nothing = refl
first_of-add_free clp w (one first csize) = refl
first_of-add_free clp w (several first csize) = refl

merged-add_free :
    (m : Mem) (clp w : ℕ) (ws : List ℕ) (p : Pending)
    → w % 64 ≡ 0
    → Fills m clp p
    → merged (add_free p clp w) ws ≡ merged p (w ∷ ws)
unfolding merged merge_words Fills
merged-add_free m clp w ws nothing a f = refl
merged-add_free m clp w ws (one first csize) a f =
    ground (arith, cons_merge-cons_merge csize w (merge_words ws))
merged-add_free m clp w ws (several first csize) a f =
    ground (arith, cons_merge-cons_merge csize w (merge_words ws))

-- The write at the end of the list.
write_pending-end :
    (flags : ℕ) (m : Mem) (clp : ℕ) (p : Pending)
    → m clp ≡ 0
    → Fills m clp p
    → Ends (Coalesced (first_of p clp) (merged p []) m) (write_pending flags p) m
unfolding merged first_of merge_words cons_merge Fills
write_pending-end flags m clp nothing z f = (z, λ x h. refl)
write_pending-end flags m clp (one first csize) z f =
    let at : first + size_of csize ≡ clp = omega arith in ((f.0, omega arith, rw at z), λ x h. refl)
write_pending-end flags m clp (several first csize) z f =
    let at : first + size_of csize ≡ clp = omega arith in
    ((ground arith, omega arith, rw at (ground arith)), λ x h. ground arith)

-- The write in front of a clump that is not free, when the rest of the loop is known.
Before : ℕ → ℕ → Pending → List ℕ → Mem → Unit {0} → Mem → Type 0
Before clp w p ws m _ m' =
    (m' clp ≡ w)
    × SameFrom clp m m'
    × SameBelow (first_of p clp) m m'
    × ((m'' : Mem)
        → Blocks m'' clp (w ∷ merge_words ws)
        → SameBelow clp m' m''
        → Blocks m'' (first_of p clp) (merged p (w ∷ ws)))

write_pending-Before :
    (flags : ℕ) (m : Mem) (clp w : ℕ) (ws : List ℕ) (p : Pending)
    → m clp ≡ w
    → is_free w ≡ false
    → Fills m clp p
    → Ends (Before clp w p ws m) (write_pending flags p) m
unfolding merged first_of merge_words Fills Before
write_pending-Before flags m clp w ws nothing e k f =
    (e, (λ x h. refl), (λ x h. refl), λ m'' b s. rw (cons_merge_kept w (merge_words ws) k) b)
write_pending-Before flags m clp w ws (one first csize) e k f =
    let at : first + size_of csize ≡ clp = omega arith in
    (
      e,
      (λ x h. refl),
      (λ x h. refl),
      λ m'' b s.
          rw (cons_merge_other csize w (merge_words ws) k)
            (s first (omega arith) ∙ f.0, omega arith, rw at b),
    )
write_pending-Before flags m clp w ws (several first csize) e k f =
    let at : first + size_of csize ≡ clp = omega arith in
    (
      ground arith,
      (λ x h. ground arith),
      (λ x h. ground arith),
      λ m'' b s.
          rw (cons_merge_other csize w (merge_words ws) k)
            (ground (arith, s first), omega arith, rw at b),
    )

first_of-le : (m : Mem) (clp : ℕ) (p : Pending) → Fills m clp p → first_of p clp ≤ clp
unfolding first_of Fills
first_of-le m clp nothing f = omega arith
first_of-le m clp (one first csize) f = omega arith
first_of-le m clp (several first csize) f = omega arith

coalesce_from-Blocks :
    (flags fuel : ℕ) (m : Mem) (clp : ℕ) (ws : List ℕ) (p : Pending)
    → Blocks m clp ws
    → Fills m clp p
    → length ws < fuel
    → Ends (Coalesced (first_of p clp) (merged p ws) m) (coalesce_from flags fuel clp p) m
unfolding coalesce_from Before Fills merge_words merged first_of
coalesce_from-Blocks flags zero m clp ws p b f l = absurd (omega arith)
coalesce_from-Blocks flags (suc fuel) m clp [] p b f l =
    rw (b, Ends) (write_pending-end 0 m clp p b f)
coalesce_from-Blocks flags (suc fuel) m clp (w ∷ ws) p b f l =
    let ne : (w == 0) ≡ false = ground arith in
    rw (b.0, Ends, ne)
      (elim (Bool-cases (is_free w)) [
        | inl e ↦
            let whole : size_of w ≡ w = ground arith in
            let a : w % 64 ≡ 0 = ground arith in
            let big : 64 ≤ w = omega arith in
            let ih =
              coalesce_from-Blocks flags fuel m (clp + w) ws (add_free p clp w) (rw whole at b.2)
                (add_free-Fills m clp w p b.0 a big f) (omega arith) in
            rw (e, whole) (rw (first_of-add_free clp w p, merged-add_free m clp w ws p a f) at ih)
        | inr e ↦
            let next = clp + size_of w in
            let done = Coalesced (first_of p clp) (merged p (w ∷ ws)) m in
            rw e (
              Ends.bind (Before clp w p ws m) done (write_pending flags p)
                (λ _. coalesce_from flags fuel next nothing) m
                (write_pending-Before flags m clp w ws p b.0 e f)
                λ u m' r.
                  Ends.mono (Coalesced next (merge_words ws) m') done
                    (coalesce_from flags fuel next nothing) m'
                    (coalesce_from-Blocks flags fuel m' next ws nothing
                      (Blocks-frame ws next m m' (λ x h. r.1 x (omega arith)) b.2) tt (omega arith))
                    λ v m'' t. (
                      r.3 m'' (t.1 clp (omega arith) ∙ r.0, b.1, t.0) (λ x h. t.1 x (omega arith)),
                      λ x h. t.1 x (omega (arith, first_of-le m clp p f)) ∙ r.2 x h,
                    ))
      ])

-- `pmemalloc_coalesce_free`, with more fuel than there are clumps, ends, and leaves the pool's
-- clumps with every run of adjacent free ones merged; nothing below the first clump changes.
pub coalesce_free-merges :
    (persist_set : Bool) (fuel : ℕ) (m : Mem) (ws : List ℕ)
    → Blocks m clump_offset ws
    → length ws < fuel
    → Ends (Coalesced clump_offset (merge_words ws) m) (coalesce_free persist_set fuel) m
unfolding coalesce_free Fills merge_words merged first_of
coalesce_free-merges persist_set fuel m ws b f =
    coalesce_from-Blocks (epoch_flags persist_set) fuel m clump_offset ws nothing b tt f

unfoldable pub bytes : List ℕ → ℕ
bytes [] = 0
bytes (w ∷ ws) = size_of w + bytes ws

-- No two adjacent clumps are both free.
abbrev pub Separated : List ℕ → Type 0
Separated [] = Unit
Separated (w ∷ []) = Unit
Separated (w ∷ v ∷ ws) = ((is_free w && is_free v) ≡ false) × Separated (v ∷ ws)

bytes-cons_merge : (w : ℕ) (ws : List ℕ) → bytes (cons_merge w ws) ≡ size_of w + bytes ws
unfolding bytes cons_merge
bytes-cons_merge w [] = refl
bytes-cons_merge w (v ∷ vs) = ground arith

Separated-cons_merge : (w : ℕ) (ws : List ℕ) → Separated ws → Separated (cons_merge w ws)
unfolding cons_merge
Separated-cons_merge w [] s = tt
Separated-cons_merge w (v ∷ []) s = elim (Bool-cases (is_free w && is_free v)) [
  | inl e ↦ rw e tt
  | inr e ↦ rw e (e, tt)
]
Separated-cons_merge w (v ∷ u ∷ us) s = elim (Bool-cases (is_free w && is_free v)) [
  | inl e ↦ rw e (ground arith, s.1)
  | inr e ↦ rw e (e, s)
]

-- Merging keeps the number of bytes, and leaves no two free clumps side by side.
pub merge_words_lem :
    (ws : List ℕ) → (bytes (merge_words ws) ≡ bytes ws) × Separated (merge_words ws)
unfolding merge_words bytes
merge_words_lem [] = (refl, tt)
merge_words_lem (w ∷ ws) =
    let (b, s) = merge_words_lem ws in
    (
      bytes-cons_merge w (merge_words ws) ∙ ap (λ (n : ℕ). size_of w + n) b,
      Separated-cons_merge w (merge_words ws) s,
    )
