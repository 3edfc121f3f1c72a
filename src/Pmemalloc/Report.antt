-- ===== src/Pmemalloc/Report.antt =====
-- The statistics that `pmemalloc_check` of libpmemalloc/pmemalloc.c prints of a pool.
use linux_examples.Base.{
  ℕ, ◌+◌, ◌^◌, ◌≤◌, ◌<◌, ◌≡◌, ◌∙◌, ap, subst, sym, refl, inl, inr, true, false, ◌||◌, List, [], ◌∷◌,
  All, arith, ◌==◌, if◌then◌else◌, length, length-set, get_or, get_or-set, get_or-replicate,
  Bool-cases, replicate,
}
use linux_examples.Pmem.{Mem}
use linux_examples.Pmem.Ends
use linux_examples.Pmem.Ends.{Ends}
use linux_examples.Pmemalloc.Layout.{clump_offset, size_of, state_of}
use linux_examples.Pmemalloc.Ops.Open.{last_clump_offset}
use linux_examples.Pmemalloc.Ops.Check.{
  Stat, no_stat, state_unused, count_clump, count_at, check_pool,
}
use linux_examples.Pmemalloc.Checked.{IsPool, Walk, tally, check_pool-tally}
use linux_examples.Pmemalloc.Stats.{
  sizes, IsStat, Adds, Adds-nil, count_clump-bounds, Adds-cons, Adds-IsStat,
}

-- A count changes the statistics of its kind.
count_at-get :
    (stats : List Stat) (i j sz : ℕ)
    → i < length stats
    → get_or (count_at i sz stats) j no_stat
      ≡ (if i == j then count_clump sz (get_or stats j no_stat) else get_or stats j no_stat)
unfolding count_at
count_at-get stats i j sz inside =
    get_or-set stats i j (count_clump sz (get_or stats i no_stat)) no_stat inside
    ∙ elim (Bool-cases (i == j)) [
      | inl y ↦
          let same : i ≡ j = ground arith in
          rw y (ap (λ (n : ℕ). count_clump sz (get_or stats n no_stat)) same)
      | inr n ↦ rw n refl
    ]

length-count_at : (stats : List Stat) (i sz : ℕ) → length (count_at i sz stats) ≡ length stats
unfolding count_at
length-count_at stats i sz = length-set stats i (count_clump sz (get_or stats i no_stat))

-- The counts of a clump in the state `st` change the statistics of that state and the totals.
counted :
    (stats : List Stat) (st kind sz : ℕ)
    → length stats ≡ 6
    → st < 5
    → kind ≤ 5
    → get_or (count_at st sz (count_at state_unused sz stats)) kind no_stat ≡ (
        if (kind == 5) || (st == kind)
        then count_clump sz (get_or stats kind no_stat)
        else get_or stats kind no_stat)
counted stats st kind sz len known le =
    let stats₁ = count_at state_unused sz stats in
    let first = count_at-get stats state_unused kind sz (omega arith) in
    let next = count_at-get stats₁ st kind sz (omega (arith, length-count_at stats 5 sz)) in
    next ∙ elim (Bool-cases (kind == 5)) [
      | inl five ↦
          let other : (st == kind) ≡ false = ground arith in
          let total : (state_unused == kind) ≡ true = ground arith in
          rw (other, five) (first ∙ rw total refl)
      | inr less ↦
          let other : (state_unused == kind) ≡ false = ground arith in
          rw less
            (ap (λ (s : Stat). if st == kind then count_clump sz s else s) (first ∙ rw other refl))
    ]

-- The statistics of each kind behind `tally`.
tally-Adds :
    (ws : List ℕ) (stats : List Stat) (kind : ℕ)
    → All (λ w. state_of w < 5) ws
    → All (λ w. 0 < size_of w) ws
    → length stats ≡ 6
    → kind ≤ 5
    → (get_or stats kind no_stat).count < 2 ^ 32
    → (get_or stats kind no_stat).bytes < 2 ^ 64
    → (length (tally ws stats) ≡ 6)
      × Adds (sizes kind ws) (get_or stats kind no_stat) (get_or (tally ws stats) kind no_stat)
unfolding tally sizes
tally-Adds [] stats kind known pos len le c b = (len, Adds-nil (get_or stats kind no_stat) c b)
tally-Adds (w ∷ ws) stats kind known pos len le c b =
    let sz = size_of w in
    let stats₁ = count_at state_unused sz stats in
    let stats' = count_at (state_of w) sz stats₁ in
    let now = counted stats (state_of w) kind sz len known.0 le in
    let len' : length stats' ≡ 6 =
      length-count_at stats₁ (state_of w) sz ∙ length-count_at stats state_unused sz ∙ len in
    let s = get_or stats kind no_stat in
    elim (Bool-cases ((kind == 5) || (state_of w == kind))) [
      | inl y ↦
          let new : get_or stats' kind no_stat ≡ count_clump sz s = now ∙ rw y refl in
          let (n, a) =
            tally-Adds ws stats' kind known.1 pos.1 len' le (rw new (count_clump-bounds sz s).0)
              (rw new (count_clump-bounds sz s).1) in
          (
            n,
            rw y (
                Adds-cons sz (sizes kind ws) s (get_or (tally ws stats') kind no_stat) pos.0 (
                  subst
                    (λ (u : Stat). Adds (sizes kind ws) u (get_or (tally ws stats') kind no_stat))
                    new a)),
          )
      | inr o ↦
          let new : get_or stats' kind no_stat ≡ s = now ∙ rw o refl in
          let (n, a) = tally-Adds ws stats' kind known.1 pos.1 len' le (rw new c) (rw new b) in
          (
            n,
            rw o (
                subst (λ (u : Stat). Adds (sizes kind ws) u (get_or (tally ws stats') kind no_stat))
                  new a),
          )
    ]

-- A clump on the way to the end mark has a size: one without would be its own successor.
Walk-no_end :
    (m : Mem) (c : ℕ) (ws : List ℕ) (end : ℕ) → 0 < m c → size_of (m c) ≡ 0 → Walk m c ws end → ⊥
Walk-no_end m c [] end pos z walk = omega (arith, walk.0)
Walk-no_end m c (w ∷ ws) end pos z walk =
    let same : size_of w ≡ 0 = ap size_of (sym walk.0) ∙ z in
    let here : c + size_of w ≡ c = omega (arith, same) in
    Walk-no_end m c ws end pos z (subst (λ (a : ℕ). Walk m a ws end) here walk.3)

Walk-positive :
    (m : Mem) (c : ℕ) (ws : List ℕ) (end : ℕ)
    → Walk m c ws end
    → All (λ w. 0 < size_of w) ws × All (λ w. state_of w < 5) ws
Walk-positive m c [] end walk = (tt, tt)
Walk-positive m c (w ∷ ws) end walk =
    let (sized, known) = Walk-positive m (c + size_of w) ws end walk.3 in
    elim (Bool-cases (size_of w == 0)) [
      | inl z ↦
          let at_c : m c ≡ w = walk.0 in
          absurd (
            Walk-no_end m c (w ∷ ws) end (omega (arith, at_c, walk.1))
              (ap size_of at_c ∙ ground arith) walk)
      | inr p ↦ ((ground arith, sized), (walk.2.0, known))
    ]

sizes-positive :
    (kind : ℕ) (ws : List ℕ) → All (λ w. 0 < size_of w) ws → All (λ x. 0 < x) (sizes kind ws)
unfolding sizes
sizes-positive kind [] pos = tt
sizes-positive kind (w ∷ ws) pos = elim (Bool-cases ((kind == 5) || (state_of w == kind))) [
  | inl y ↦ rw y (pos.0, sizes-positive kind ws pos.1)
  | inr n ↦ rw n (sizes-positive kind ws pos.1)
]

-- What `stats` are to hold of clumps with the size words `ws`.
abbrev pub IsReport : List ℕ → List Stat → Type 0
IsReport ws stats =
    (length stats ≡ 6)
    × ((kind : ℕ) → kind ≤ 5 → IsStat (sizes kind ws) (get_or stats kind no_stat))

tally-IsReport :
    (m : Mem) (c end : ℕ) (ws : List ℕ)
    → Walk m c ws end
    → IsReport ws (tally ws (replicate 6 no_stat))
tally-IsReport m c end ws walk =
    let (pos, known) = Walk-positive m c ws end walk in
    let start = replicate 6 no_stat in
    let none : (kind : ℕ) → get_or start kind no_stat ≡ no_stat =
      λ kind. get_or-replicate 6 kind no_stat in
    let all : (kind : ℕ)
        → kind ≤ 5
        → (length (tally ws start) ≡ 6)
          × Adds (sizes kind ws) (get_or start kind no_stat)
              (get_or (tally ws start) kind no_stat) =
      λ kind le.
        tally-Adds ws start kind known pos refl le (rw (none kind) (omega arith))
          (rw (none kind) (omega arith)) in
    (
      (all 0 (omega arith)).0,
      λ kind le.
          Adds-IsStat (sizes kind ws) (get_or (tally ws start) kind no_stat)
            (sizes-positive kind ws pos)
            (subst (λ (u : Stat). Adds (sizes kind ws) u (get_or (tally ws start) kind no_stat))
              (none kind) (all kind le).1),
    )

-- pmemalloc_check, on a file with a pool's header, and with sound clumps that lead from the first
-- one's place to the end mark, with more fuel than clumps. It ends and changes nothing, and what it
-- is to print of the clumps in each state, and of all, is how many they are modulo 2 ^ 32, the sum
-- of their sizes modulo 2 ^ 64, the largest and the smallest of these, or 0 where there are none.
pub check_pool-IsReport :
    (fuel st_size : ℕ) (m : Mem) (ws : List ℕ)
    → IsPool m st_size
    → Walk m clump_offset ws (last_clump_offset st_size)
    → length ws < fuel
    → Ends (λ stats m'. IsReport ws stats × (m' ≡ m)) (check_pool fuel st_size) m
check_pool-IsReport fuel st_size m ws p walk f =
    Ends.mono (λ stats m'. (stats ≡ tally ws (replicate 6 no_stat)) × (m' ≡ m))
      (λ stats m'. IsReport ws stats × (m' ≡ m)) (check_pool fuel st_size) m
      (check_pool-tally fuel st_size m ws p walk f)
      λ stats m' e. (
        subst (IsReport ws) (sym e.0)
            (tally-IsReport m clump_offset (last_clump_offset st_size) ws walk),
        e.1,
      )
