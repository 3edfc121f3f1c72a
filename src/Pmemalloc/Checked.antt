-- ===== src/Pmemalloc/Checked.antt =====
-- What `pmemalloc_check` of libpmemalloc/pmemalloc.c accepts.
use linux_examples.Base.{
  ℕ, zero, suc, ◌+◌, ◌-◌, ◌%◌, ◌≤◌, ◌<◌, ◌≡◌, ◌≢◌, ap, inl, inr, refl, true, false, ◌||◌, List, [],
  ◌∷◌, arith, ltb, ◌==◌, length, Bool-cases, replicate,
}
use linux_examples.Pmem.{Mem}
use linux_examples.Pmem.Ends
use linux_examples.Pmem.Ends.{Ends}
use linux_examples.Pmemalloc.Layout.{
  clump_offset, hdr_offset, min_pool_size, on_off, size_of, state_of,
}
use linux_examples.Pmemalloc.Ops.Open.{signature_low, signature_high, last_clump_offset}
use linux_examples.Pmemalloc.Ops.Check.{
  Stat, no_stat, count_at, assert_empty, check_state, check_from, check_pool, state_unused,
}

-- What is asked of a clump at `c` with the size word `w`: a known state, and an empty list if it is
-- free or active.
abbrev pub IsSound : Mem → ℕ → ℕ → Type 0
IsSound m c w =
    (state_of w < 5)
    × (((state_of w == 0) || (state_of w == 3)) ≡ true
        → (m (on_off c 0) ≡ 0) × (m (on_off c 1) ≡ 0) × (m (on_off c 2) ≡ 0))

-- From `c` on the memory holds sound clumps with the size words `ws`, up to the end mark at `end`.
abbrev pub Walk : Mem → ℕ → List ℕ → ℕ → Type 0
Walk m c [] end = (m c ≡ 0) × (c ≡ end)
Walk m c (w ∷ ws) end = (m c ≡ w) × (0 < w) × IsSound m c w × Walk m (c + size_of w) ws end

-- The statistics of a list of size words.
unfoldable pub tally : List ℕ → List Stat → List Stat
tally [] stats = stats
tally (w ∷ ws) stats =
    tally ws (count_at (state_of w) (size_of w) (count_at state_unused (size_of w) stats))

check_state-accepts :
    (m : Mem) (c w : ℕ) → IsSound m c w → Ends (λ _ m'. m' ≡ m) (check_state c (state_of w)) m
unfolding check_state assert_empty
check_state-accepts m c w s = elim (Bool-cases ((state_of w == 0) || (state_of w == 3))) [
  | inl y ↦ (let e = s.1 y in rw (y, Ends, e.0, e.1, e.2) refl)
  | inr n ↦ (let known : ltb (state_of w) 5 ≡ true = ground (arith, s.0) in rw (n, known) refl)
]

check_from-accepts :
    (fuel c end : ℕ) (m : Mem) (ws : List ℕ) (stats : List Stat)
    → Walk m c ws end
    → length ws < fuel
    → Ends (λ r m'. (r ≡ (end, tally ws stats)) × (m' ≡ m)) (check_from fuel c stats) m
unfolding check_from tally
check_from-accepts zero c end m ws stats w f = absurd (omega arith)
check_from-accepts (suc fuel) c end m [] stats w f =
    rw (w.0, Ends) (ap (λ (e : ℕ). (e, stats)) w.1, refl)
check_from-accepts (suc fuel) c end m (w ∷ ws) stats walk f =
    let ne : (w == 0) ≡ false = ground arith in
    let stats' = count_at (state_of w) (size_of w) (count_at state_unused (size_of w) stats) in
    rw (walk.0, Ends, ne)
      (Ends.bind (λ _ m'. m' ≡ m) (λ r m'. (r ≡ (end, tally ws stats')) × (m' ≡ m))
        (check_state c (state_of w)) (λ _. check_from fuel (c + size_of w) stats') m
        (check_state-accepts m c w walk.2)
        λ u m' e.
          rw e (check_from-accepts fuel (c + size_of w) end m ws stats' walk.3 (omega arith)))

-- A run that ends has walked over sound clumps.
Walked : ℕ → List Stat → Mem → ℕ × List Stat → Type 0
Walked c stats m r = (ws : List ℕ) × Walk m c ws r.0 × (r.1 ≡ tally ws stats)

-- The rest of what the check asks for.
abbrev pub IsPool : Mem → ℕ → Type 0
IsPool m st_size =
    (min_pool_size ≤ st_size)
    × (m hdr_offset ≡ signature_low)
    × (m (hdr_offset + 8) ≡ signature_high)
    × (m clump_offset ≢ 0)

-- The sizes of the sections always add up.
sections :
    (n : ℕ)
    → min_pool_size ≤ n
    → clump_offset + (last_clump_offset n - clump_offset) + n % 64 + 64 ≡ n
sections n h = omega arith

-- `pmemalloc_check`, on a file with a pool's header, and with sound clumps that lead from the first
-- one's place to the end mark, with more fuel than clumps. It ends, changes nothing and has the
-- statistics of the clumps.
pub check_pool-tally :
    (fuel st_size : ℕ) (m : Mem) (ws : List ℕ)
    → IsPool m st_size
    → Walk m clump_offset ws (last_clump_offset st_size)
    → length ws < fuel
    → Ends
        (λ stats m'. (stats ≡ tally ws (replicate 6 no_stat)) × (m' ≡ m))
        (check_pool fuel st_size)
        m
unfolding check_pool
check_pool-tally fuel st_size m ws p walk f =
    let size : ltb st_size min_pool_size ≡ false = ground (arith, p.0) in
    let some_clump : (m clump_offset == 0) ≡ false = ground (arith, p.3) in
    let end = last_clump_offset st_size in
    let stats = tally ws (replicate 6 no_stat) in
    let sum : (clump_offset + (end - clump_offset) + st_size % 64 + 64 == st_size) ≡ true =
      ground (arith, sections st_size p.0) in
    let at_end : (end == end) ≡ true = ground arith in
    rw (Ends, size, p.1, p.2, sum, some_clump)
      (Ends.bind (λ r m'. (r ≡ (end, stats)) × (m' ≡ m)) (λ r m'. (r ≡ stats) × (m' ≡ m))
        (check_from fuel clump_offset (replicate 6 no_stat)) _ m
        (check_from-accepts fuel clump_offset end m ws (replicate 6 no_stat) walk f)
        λ r m' e. rw (e.0, at_end) (refl, e.1))
