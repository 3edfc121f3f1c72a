-- ===== src/Pmemalloc/Reserve.antt =====
-- `pmemalloc_reserve` of libpmemalloc/pmemalloc.c, and first fit on the list of size words.
use linux_examples.Base.{
  ℕ, zero, suc, ◌+◌, ◌-◌, ◌%◌, ◌^◌, ◌≤◌, ◌<◌, ◌≡◌, ◌∙◌, ◌⊎◌, refl, Bool, true, false, ◌&&◌, Option,
  none, some, List, [], ◌∷◌, ◌++◌, arith, leb, ◌==◌, if◌then◌else◌, length, Bool-cases, inl, inr,
}
use linux_examples.Pmem.{Mem, pure}
use linux_examples.Pmem.Ends
use linux_examples.Pmem.Ends.{Ends}
use linux_examples.Pmemalloc.Layout.{size_of, state_of, chunk_size}
use linux_examples.Pmemalloc.Ops.Reserve.{take_clump, first_fit, round_size, reserve, start_of}
use linux_examples.Pmemalloc.Blocks.{Blocks, SameBelow, Blocks-frame}

-- The size that is reserved for a request is a multiple of 64.
pub round_size-aligned : (size : ℕ) → round_size size % 64 ≡ 0
unfolding round_size
round_size-aligned size = omega arith

-- Where the request is within 127 of 2 ^ 64, the sum wraps: no more than the header of a clump is
-- asked for.
pub round_size_wraps : (size : ℕ) → size < 2 ^ 64 → 2 ^ 64 ≤ size + 127 → round_size size ≤ 64
unfolding round_size
round_size_wraps size small big = omega arith

pub round_size-ge : (size : ℕ) → size + 127 < 2 ^ 64 → 64 + size ≤ round_size size
unfolding round_size
round_size-ge size h = omega arith

-- A free clump of at least `nsize` bytes.
abbrev pub fits : ℕ → ℕ → Bool
fits nsize w = (state_of w == 0) && leb nsize (size_of w)

-- What becomes of the clump that is taken: it is split where 128 bytes or more are left over.
unfoldable pub taken : ℕ → ℕ → List ℕ
taken nsize sz = if leb 128 (sz - nsize) then (nsize + 1) ∷ (sz - nsize) ∷ [] else (sz + 1) ∷ []

-- First fit on the list.
unfoldable pub reserve_words : ℕ → List ℕ → List ℕ
reserve_words nsize [] = []
reserve_words nsize (w ∷ ws) =
    if fits nsize w then taken nsize (size_of w) ++ ws else w ∷ reserve_words nsize ws

-- The address of the first clump that fits, in clumps from `c` on.
unfoldable pub fit_at : ℕ → ℕ → List ℕ → Option ℕ
fit_at nsize c [] = none
fit_at nsize c (w ∷ ws) = if fits nsize w then some c else fit_at nsize (c + size_of w) ws

-- What `take_clump` leaves in memory: the size words, and all outside of the old clump.
Split : ℕ → ℕ → ℕ → Mem → Unit {0} → Mem → Type 0
Split nsize c sz m _ m' =
    (m' c ≡ nsize + 1)
    × (m' (c + nsize) ≡ sz - nsize)
    × ((x : ℕ) → (x < c) ⊎ (c + sz ≤ x) → m' x ≡ m x)

take_clump-Split :
    (nsize c sz : ℕ) (m : Mem)
    → 64 ≤ nsize
    → leb 128 (sz - nsize) ≡ true
    → Ends (Split nsize c sz m) (take_clump nsize c sz) m
unfolding take_clump Split
take_clump-Split nsize c sz m lo e = rw e (ground arith, ground arith, ground arith)

Whole : ℕ → ℕ → Mem → Unit {0} → Mem → Type 0
Whole c sz m _ m' = (m' c ≡ sz + 1) × ((x : ℕ) → (x < c) ⊎ (c + 64 ≤ x) → m' x ≡ m x)

take_clump-Whole :
    (nsize c sz : ℕ) (m : Mem)
    → leb 128 (sz - nsize) ≡ false
    → Ends (Whole c sz m) (take_clump nsize c sz) m
unfolding take_clump Whole
take_clump-Whole nsize c sz m e = rw e (ground arith, ground arith)

abbrev pub Taken : ℕ → ℕ → ℕ → List ℕ → Mem → Unit {0} → Mem → Type 0
Taken nsize c sz ws m _ m' = Blocks m' c (taken nsize sz ++ ws) × SameBelow c m m'

-- The clumps from `c` on, where the clump that was taken has its new size words.
pub taken-Blocks :
    (nsize c w : ℕ) (ws : List ℕ) (m img : Mem)
    → Blocks m (c + size_of w) ws
    → nsize % 64 ≡ 0
    → 64 ≤ nsize
    → nsize ≤ size_of w
    → ((x : ℕ) → (x < c) ⊎ (c + size_of w ≤ x) → img x ≡ m x)
    → (if leb 128 (size_of w - nsize)
        then (img c ≡ nsize + 1) × (img (c + nsize) ≡ size_of w - nsize)
        else (img c ≡ size_of w + 1) × Unit {0})
    → Blocks img c (taken nsize (size_of w) ++ ws)
unfolding taken
taken-Blocks nsize c w ws m img b al lo hi out = elim (Bool-cases (leb 128 (size_of w - nsize))) [
  | inl e ↦
      let end : c + size_of (nsize + 1) + size_of (size_of w - nsize) ≡ c + size_of w =
        ground arith in
      let second : c + size_of (nsize + 1) ≡ c + nsize = omega arith in
      rw e λ h. (
        h.0,
        ground arith,
        (
          rw second h.1,
          ground arith,
          rw end (Blocks-frame ws (c + size_of w) m img (λ x k. out x (inr k)) b),
        ),
      )
  | inr e ↦
      let end : c + size_of (size_of w + 1) ≡ c + size_of w = omega arith in
      rw e λ h.
        (h.0, omega arith, rw end (Blocks-frame ws (c + size_of w) m img (λ x k. out x (inr k)) b))
]

-- Taking a clump that fits replaces its size word by those of `taken`, and changes nothing below.
pub take_clump-Blocks :
    (nsize c w : ℕ) (ws : List ℕ) (m : Mem)
    → Blocks m (c + size_of w) ws
    → nsize % 64 ≡ 0
    → 64 ≤ nsize
    → nsize ≤ size_of w
    → Ends (Taken nsize c (size_of w) ws m) (take_clump nsize c (size_of w)) m
unfolding Split Whole
take_clump-Blocks nsize c w ws m b al lo hi =
    let sz = size_of w in
    let put = λ (m' : Mem) (out : (x : ℕ) → (x < c) ⊎ (c + sz ≤ x) → m' x ≡ m x).
      taken-Blocks nsize c w ws m m' b al lo hi out in
    elim (Bool-cases (leb 128 (sz - nsize))) [
      | inl e ↦
          Ends.mono (Split nsize c sz m) (Taken nsize c sz ws m) (take_clump nsize c sz) m
            (take_clump-Split nsize c sz m lo e)
            λ u m' s. (put m' s.2 (rw e (s.0, s.1)), λ x h. s.2 x (inl h))
      | inr e ↦
          Ends.mono (Whole c sz m) (Taken nsize c sz ws m) (take_clump nsize c sz) m
            (take_clump-Whole nsize c sz m e)
            λ u m' s. (put m' (λ x h. s.1 x (ground arith)) (rw e (s.0, tt)), λ x h. s.1 x (inl h))
    ]

Fitted : ℕ → ℕ → List ℕ → Mem → Option ℕ → Mem → Type 0
Fitted nsize c ws m r m' =
    (r ≡ fit_at nsize c ws) × Blocks m' c (reserve_words nsize ws) × SameBelow c m m'

first_fit-Blocks :
    (nsize fuel c : ℕ) (ws : List ℕ) (m : Mem)
    → Blocks m c ws
    → nsize % 64 ≡ 0
    → 64 ≤ nsize
    → length ws < fuel
    → Ends (Fitted nsize c ws m) (first_fit nsize fuel c) m
unfolding first_fit fit_at reserve_words Fitted
first_fit-Blocks nsize zero c ws m b al lo f = absurd (omega arith)
first_fit-Blocks nsize (suc fuel) c [] m b al lo f = rw (b, Ends) (refl, b, λ x h. refl)
first_fit-Blocks nsize (suc fuel) c (w ∷ ws) m b al lo f =
    let ne : (w == 0) ≡ false = ground arith in
    rw (b.0, Ends, ne)
      (elim (Bool-cases (fits nsize w)) [
        | inl e ↦ rw e (
            Ends.bind (Taken nsize c (size_of w) ws m) (Fitted nsize c (w ∷ ws) m)
              (take_clump nsize c (size_of w)) (λ u. pure (some c)) m
              (take_clump-Blocks nsize c w ws m b.2 al lo (ground arith))
              λ u m' t. (rw e, rw e t.0, t.1))
        | inr e ↦ rw e (
            Ends.mono (Fitted nsize (c + size_of w) ws m) (Fitted nsize c (w ∷ ws) m)
              (first_fit nsize fuel (c + size_of w)) m
              (first_fit-Blocks nsize fuel (c + size_of w) ws m b.2 al lo (omega arith))
              λ r m' t.
                (rw e t.0, rw e (t.2 c (omega arith) ∙ b.0, b.1, t.1), λ x h. t.2 x (omega arith)))
      ])

abbrev pub Reserved : ℕ → ℕ → ℕ → List ℕ → Mem → Option ℕ × ℕ → Mem → Type 0
Reserved nsize gclp start ws m r m' =
    (r ≡ elim (fit_at nsize start ws) [
      | none ↦ (none, gclp)
      | some clp ↦ (some (clp + chunk_size), clp)
    ])
    × Blocks m' start (reserve_words nsize ws)
    × SameBelow start m m'

-- `pmemalloc_reserve`, where the search starts at a clump, with more fuel than there are clumps
-- from there on, and a size that is not within 127 of 2 ^ 64. It ends, and does what first fit does
-- on the list of size words: it returns the memory behind the header of the first free clump that
-- is large enough and remembers that clump, or ENOMEM if there is none; that clump is reserved, and
-- split where 128 bytes or more are left over; nothing below the start changes.
pub reserve-refines :
    (fuel gclp size : ℕ) (w : ℕ) (ws : List ℕ) (m : Mem)
    → Blocks m (start_of gclp) (w ∷ ws)
    → size + 127 < 2 ^ 64
    → length (w ∷ ws) < fuel
    → Ends (Reserved (round_size size) gclp (start_of gclp) (w ∷ ws) m) (reserve fuel gclp size) m
unfolding reserve Fitted
reserve-refines fuel gclp size w ws m b small f =
    let ne : (w == 0) ≡ false = ground arith in
    let start = start_of gclp in
    let nsize = round_size size in
    rw (b.0, Ends, ne)
      (Ends.bind (Fitted nsize start (w ∷ ws) m) (Reserved nsize gclp start (w ∷ ws) m)
        (first_fit nsize fuel start) _ m
        (first_fit-Blocks nsize fuel start (w ∷ ws) m b (round_size-aligned size)
          (omega (arith, round_size-ge size small)) f)
        λ r m' t. (rw t.0, t.1, t.2))
