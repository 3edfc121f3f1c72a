-- ===== src/Hashtable/Expand.antt =====
-- `hashtable_expand` of c-hashtable/hashtable.c: the entries move to a table of the next prime
-- size.
use linux_examples.Base.{
  ℕ, suc, ◌+◌, ◌-◌, ◌≤◌, ◌<◌, ◌≡◌, ◌∙◌, sym, ap, subst, refl, true, false, some, List, [], ◌∷◌,
  arith, ◌==◌, ltb, if◌then◌else◌, length, All, get_or, get_elem?, replicate, length-replicate,
  get_or-replicate, Bool-cases, inl, inr,
}
use linux_examples.Hashtable.{
  KeyFns, Entry, Chain, Hashtable, hash, index_for, transfer_chain, transfer, grow, expand, word,
  primes, prime_table_length,
}
use linux_examples.Hashtable.Primes.{primes-next}
use linux_examples.Hashtable.Values.{
  rev_onto, count, count-replicate, matches, values, home, AtHome, IsHome, push-values,
  values_elsewhere,
}

module _ {K V : Type 0} (keys : KeyFns K) where
  -- A table of `n` chains, whose entries stand at home; `base` are the values that each key has.
  pub record IsTable (n size : ℕ) (base : K → List V) (t : List (Chain K V)) : Type 0 where
    pub len : length t ≡ n
    pub at : IsHome keys n t
    pub total : count t ≡ size
    pub found : (q : K) → values keys q (home keys n q t) ≡ base q

  -- The entries keep the hash of their keys.
  abbrev Hashed : Chain K V → Type 0
  Hashed c = All (λ e. e.h ≡ hash (keys.hashfn e.k)) c

  transfer_chain-IsTable :
      (n size : ℕ) (base : K → List V) (c : Chain K V) (t : List (Chain K V))
      → 0 < n
      → Hashed c
      → IsTable n size base t
      → (t' : List (Chain K V)) × (transfer_chain n c t ≡ some t')
        × IsTable n (size + length c) (λ q. rev_onto (values keys q c) (base q)) t'
  unfolding transfer_chain values rev_onto
  transfer_chain-IsTable n size base [] t pos hs k =
      (t, refl, record { len = k.len; at = k.at; total = omega (arith, k.total); found = k.found })
  transfer_chain-IsTable n size base (e ∷ c) t pos hs k =
      let (t₁, eq₁, len₁, at₁, total₁, found₁) =
        push-values keys n e t k.len (omega arith) k.at hs.0 in
      let base' = λ (q : K). if matches keys q e then e.v ∷ base q else base q in
      let k₁ : IsTable n (suc size) base' t₁ = record {
        len = len₁;
        at = at₁;
        total = omega (arith, k.total);
        found = λ q.
            found₁ q ∙ ap (λ (vs : List V). if matches keys q e then e.v ∷ vs else vs) (k.found q);
      } in
      let (t₂, eq₂, k₂) = transfer_chain-IsTable n (suc size) base' c t₁ pos hs.1 k₁ in
      (
        t₂,
        rw eq₁ eq₂,
        record {
          len = k₂.len;
          at = k₂.at;
          total = omega (arith, k₂.total);
          found = λ q. k₂.found q ∙ elim (Bool-cases (matches keys q e)) [
            | inl hit ↦ rw hit refl
            | inr miss ↦ rw miss refl
          ];
        },
      )

  -- The values of a key in all the chains, in the order of the transfer.
  unfoldable all_values : K → List (Chain K V) → List V → List V
  all_values q [] base = base
  all_values q (c ∷ cs) base = all_values q cs (rev_onto (values keys q c) base)

  transfer-IsTable :
      (n size : ℕ) (base : K → List V) (cs : List (Chain K V)) (t : List (Chain K V))
      → 0 < n
      → All Hashed cs
      → IsTable n size base t
      → (t' : List (Chain K V)) × (transfer n (length cs) cs t ≡ some t')
        × IsTable n (size + count cs) (λ q. all_values q cs (base q)) t'
  unfolding transfer all_values count
  transfer-IsTable n size base [] t pos hs k =
      (t, refl, record { len = k.len; at = k.at; total = omega (arith, k.total); found = k.found })
  transfer-IsTable n size base (c ∷ cs) t pos hs k =
      let (t₁, eq₁, k₁) = transfer_chain-IsTable n size base c t pos hs.0 k in
      let (t₂, eq₂, k₂) =
        transfer-IsTable n (size + length c) (λ q. rev_onto (values keys q c) (base q)) cs t₁ pos
          hs.1 k₁ in
      (
        t₂,
        rw eq₁ eq₂,
        record { len = k₂.len; at = k₂.at; total = omega (arith, k₂.total); found = k₂.found },
      )

  -- Only the chain of the key has values of it.
  all_values-home :
      (n i : ℕ) (q : K) (cs : List (Chain K V)) (base : List V)
      → ((j : ℕ) → All (AtHome keys n (i + j)) (get_or cs j []))
      → all_values q cs base ≡ (
          if ltb (index_for n (hash (keys.hashfn q))) i
          then base
          else rev_onto
              (values keys q (get_or cs (index_for n (hash (keys.hashfn q)) - i) []))
              base)
  unfolding all_values rev_onto values
  all_values-home n i q [] base at = ground arith
  all_values-home n i q (c ∷ cs) base at =
      let j = index_for n (hash (keys.hashfn q)) in
      let at₀ : All (AtHome keys n i) c =
        subst (λ (k : ℕ). All (AtHome keys n k) c) (omega arith) (at 0) in
      let rest = λ (bs : List V).
        all_values-home n (i + 1) q cs bs λ k.
          subst (λ (z : ℕ). All (AtHome keys n z) (get_or cs k [])) (omega arith) (at (suc k)) in
      elim (Bool-cases (j == i)) [
        | inl hit ↦
            let lt : ltb j i ≡ false = ground arith in
            let lt' : ltb j (i + 1) ≡ true = ground arith in
            let z : j - i ≡ 0 = ground arith in
            rest (rev_onto (values keys q c) base) ∙ rw (lt, lt', z) refl
        | inr miss ↦
            let none_here = values_elsewhere keys n i q c at₀ miss in
            rw none_here (
              rest base ∙ elim (Bool-cases (ltb j i)) [
                | inl low ↦ let lt' : ltb j (i + 1) ≡ true = ground arith in rw (low, lt') refl
                | inr high ↦
                    let lt' : ltb j (i + 1) ≡ false = ground arith in
                    let s : j - i ≡ suc (j - (i + 1)) = ground arith in rw (high, lt', s) refl
              ])
      ]

  Hashed-IsHome :
      (n i : ℕ) (cs : List (Chain K V))
      → ((j : ℕ) → All (AtHome keys n (i + j)) (get_or cs j []))
      → All Hashed cs
  Hashed-IsHome n i [] at = tt
  Hashed-IsHome n i (c ∷ cs) at = (
    hashed c (at 0),
    Hashed-IsHome n (i + 1) cs
        λ k. subst (λ (z : ℕ). All (AtHome keys n z) (get_or cs k [])) (omega arith) (at (suc k)),
  )
    where
      hashed : (es : Chain K V) → All (AtHome keys n (i + 0)) es → Hashed es
      hashed [] h = tt
      hashed (e ∷ es) h = (h.0.0, hashed es h.1)

  -- The size is the prime that the index names, and the entries stand at home.
  pub record IsLaid (h : Hashtable K V) : Type 0 where
    pub sized : get_elem? primes h.primeindex ≡ some h.tablelength
    pub positive : 0 < h.tablelength
    pub len : length h.table ≡ h.tablelength
    pub at : IsHome keys h.tablelength h.table

  -- The state that the operations keep: the count is that of the entries, too, and has not wrapped.
  pub record IsValid (h : Hashtable K V) : Type 0 where
    pub laid : IsLaid h
    pub total : count h.table ≡ h.entrycount
    pub bounded : h.entrycount < word

  -- The values of a key, the one that a search finds first.
  abbrev pub lookup : Hashtable K V → K → List V
  lookup h q = values keys q (home keys h.tablelength q h.table)

  pub IsTable-empty : (n : ℕ) → IsTable n 0 (λ q. []) (replicate n [])
  unfolding values
  IsTable-empty n = record {
    len = length-replicate n [];
    at = λ i. rw (get_or-replicate {A = Chain K V} n i []) tt;
    total = count-replicate (Entry K V) n;
    found =
        λ q. rw (get_or-replicate {A = Chain K V} n (index_for n (hash (keys.hashfn q))) []) refl;
  }

  -- The move of all the entries to an empty table of `n` chains.
  pub transfer-lookup :
      (n : ℕ) (h : Hashtable K V)
      → 0 < n
      → IsLaid h
      → (t : List (Chain K V)) × (transfer n h.tablelength h.table (replicate n []) ≡ some t)
        × IsTable n (count h.table) (λ q. rev_onto (lookup h q) []) t
  transfer-lookup n h pos v =
      let at₀ = λ (j : ℕ).
        subst (λ (z : ℕ). All (AtHome keys h.tablelength z) (get_or h.table j [])) (omega arith)
          (v.at j) in
      let (t, eq, k) =
        transfer-IsTable n 0 (λ q. []) h.table (replicate n []) pos
          (Hashed-IsHome h.tablelength 0 h.table at₀) (IsTable-empty n) in
      (
        t,
        rw (sym v.len) eq,
        record {
          len = k.len;
          at = k.at;
          total = omega (arith, k.total);
          found = λ q.
              let i = index_for h.tablelength (hash (keys.hashfn q)) in
              let low : ltb i 0 ≡ false = ground arith in
              let same : i - 0 ≡ i = omega arith in
              k.found q ∙ all_values-home h.tablelength 0 q h.table [] at₀ ∙ rw (low, same) refl;
        },
      )

  -- What an expansion does to the values of a key: nothing where the size is the largest, and
  -- otherwise their order is reversed.
  abbrev pub order : Hashtable K V → List V → List V
  order h vs = if h.primeindex == prime_table_length - 1 then vs else rev_onto vs []

  -- `hashtable_expand`, of a table whose entries stand at home, where the allocation succeeds: the
  -- table is no smaller, its entries stand at home and are as many, and the values of each key have
  -- their order reversed, or kept where the size is the largest already.
  pub expand-lookup :
      (load_limit : ℕ → ℕ) (h : Hashtable K V)
      → IsLaid h
      → (h' : Hashtable K V) × (expand load_limit true h ≡ some h')
        × IsLaid h'
        × (count h'.table ≡ count h.table)
        × (h'.entrycount ≡ h.entrycount)
        × (h.tablelength ≤ h'.tablelength)
        × ((q : K) → lookup h' q ≡ order h (lookup h q))
  unfolding expand grow rev_onto
  expand-lookup load_limit h v = elim (Bool-cases (h.primeindex == prime_table_length - 1)) [
    | inl top ↦ rw top (h, refl, v, refl, refl, omega arith, λ q. refl)
    | inr below ↦
        let (n, eq, lt) = primes-next h.primeindex h.tablelength v.sized (ground arith) in
        let (t, moved, k) = transfer-lookup n h (omega arith) v in
        rw (below, eq, moved)
          (
            record h {
              table = t;
              tablelength = n;
              loadlimit = load_limit n;
              primeindex = h.primeindex + 1;
            },
            refl,
            record { sized = eq; positive = omega arith; len = k.len; at = k.at },
            k.total,
            refl,
            omega arith,
            k.found,
          )
  ]
