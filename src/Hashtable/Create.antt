-- ===== src/Hashtable/Create.antt =====
-- `create_hashtable` of c-hashtable/hashtable.c: an empty table whose size is a prime above the
-- minimum.
use linux_examples.Base.{
  ℕ, zero, suc, ◌+◌, ◌^◌, ◌<◌, ◌≡◌, subst, refl, true, none, some, List, [], ◌∷◌, ◌⊎◌, arith, ltb,
  get_or, get_elem?, replicate, Bool-cases, inl, inr,
}
use linux_examples.Hashtable.{KeyFns, Hashtable, primes, pick_size, create}
use linux_examples.Hashtable.Expand.{IsValid, lookup, IsTable-empty}

pick_size-found :
    (minsize i j : ℕ) (ps : List ℕ)
    → ((n : ℕ) → get_elem? primes (i + n) ≡ get_elem? ps n)
    → minsize < get_or ps j 0
    → (size : ℕ) × (pindex : ℕ) × (pick_size minsize ps i ≡ (size, pindex))
      × (minsize < size)
      × (get_elem? primes pindex ≡ some size)
unfolding pick_size
pick_size-found minsize i j [] at lt = absurd (omega arith)
pick_size-found minsize i zero (p ∷ ps) at lt =
    let found : ltb minsize p ≡ true = ground arith in
    let here : i + 0 ≡ i = omega arith in
    rw found (p, i, refl, lt, subst (λ (n : ℕ). get_elem? primes n ≡ some p) here (at 0))
pick_size-found minsize i (suc j) (p ∷ ps) at lt = elim (Bool-cases (ltb minsize p)) [
  | inl found ↦
      let here : i + 0 ≡ i = omega arith in
      rw found
        (p, i, refl, ground arith, subst (λ (n : ℕ). get_elem? primes n ≡ some p) here (at 0))
  | inr miss ↦ rw miss (
      pick_size-found minsize (i + 1) j ps
        (λ n.
          let next : i + suc n ≡ i + 1 + n = omega arith in
          subst (λ (k : ℕ). get_elem? primes k ≡ get_elem? ps n) next (at (suc n)))
        lt)
]

module _ {K V : Type 0} (keys : KeyFns K) where
  -- `create_hashtable`, where the allocations succeed: it refuses a minimum above 2 ^ 30, and else
  -- gives a valid table without entries, whose size is larger than the minimum.
  pub create-IsValid :
      (load_limit : ℕ → ℕ) (minsize : ℕ)
      → ((2 ^ 30 < minsize) × (create {K = K} {V = V} load_limit true minsize ≡ none))
        ⊎ ((h : Hashtable K V) × (create load_limit true minsize ≡ some h)
            × (minsize < h.tablelength)
            × (h.loadlimit ≡ load_limit h.tablelength)
            × (h.entrycount ≡ 0)
            × IsValid keys h
            × ((q : K) → lookup keys h q ≡ []))
  unfolding create
  create-IsValid load_limit minsize = elim (Bool-cases (ltb (2 ^ 30) minsize)) [
    | inl over ↦ rw over (inl (ground arith, refl))
    | inr fine ↦
        let (size, pindex, eq, lt, sized) =
          pick_size-found minsize 0 25 primes (λ n. let z : 0 + n ≡ n = omega arith in rw z refl)
            (ground arith) in
        let empty = IsTable-empty keys size in
        rw (fine, eq)
          (inr (
            record {
              tablelength = size;
              table = replicate size [];
              entrycount = 0;
              loadlimit = load_limit size;
              primeindex = pindex;
            },
            refl,
            lt,
            refl,
            refl,
            record {
              laid = record {
                sized = sized;
                positive = omega arith;
                len = empty.len;
                at = empty.at;
              };
              total = empty.total;
              bounded = omega arith;
            },
            empty.found,
          ))
  ]
