-- ===== src/Hashtable/Search.antt =====
-- `hashtable_search` of c-hashtable/hashtable.c, and which entries match a key.
use linux_examples.Base.{
  ◌≡◌, ◌∙◌, ap, true, false, some, [], arith, get_elem?, get_elem?-get_or, Bool-cases, inl, inr,
}
use linux_examples.Hashtable.{KeyFns, Entry, Hashtable, hash, index_for, search}
use linux_examples.Hashtable.Values.{head?, matches, home, search_chain-values}
use linux_examples.Hashtable.Expand.{IsLaid, IsValid, lookup}

module _ {K V : Type 0} (keys : KeyFns K) where
  pub home-get :
      (h : Hashtable K V) (q : K)
      → IsLaid keys h
      → get_elem? h.table (index_for h.tablelength (hash (keys.hashfn q)))
        ≡ some (home keys h.tablelength q h.table)
  home-get h q v =
      let len = v.len in
      let pos = v.positive in
      get_elem?-get_or h.table (index_for h.tablelength (hash (keys.hashfn q))) [] (omega arith)

  -- `hashtable_search` in a valid table finds the first of the key's values, and nothing if it has
  -- none.
  pub search-lookup :
      (h : Hashtable K V) (q : K)
      → IsValid keys h
      → search keys h q ≡ some (head? (lookup keys h q))
  unfolding search
  search-lookup h q v =
      rw (home-get h q v.laid)
        (ap some (search_chain-values keys q (home keys h.tablelength q h.table)))

  -- Keys that are equal match the same entries.
  pub matches-eqfn :
      (q k : K) (e : Entry K V)
      → keys.eqfn q k ≡ true
      → matches keys k e ≡ true
      → matches keys q e ≡ true
  matches-eqfn q k e same hit =
      let same_hash : hash (keys.hashfn q) ≡ hash (keys.hashfn k) =
        ap hash (keys.hashfn-eqfn q k same) in
      let hit' : keys.eqfn k e.k ≡ true = ground arith in
      let eq = keys.eqfn_trans q k e.k same hit' in ground arith

  pub matches-other :
      (q k : K) (e : Entry K V)
      → keys.eqfn q k ≡ false
      → matches keys k e ≡ true
      → matches keys q e ≡ false
  matches-other q k e other hit = elim (Bool-cases (keys.eqfn q e.k)) [
    | inl y ↦
        let hit' : keys.eqfn k e.k ≡ true = ground arith in
        let bad = keys.eqfn_trans q e.k k y (keys.eqfn_symm e.k k ∙ hit') in absurd (ground arith)
    | inr n ↦ ground arith
  ]

  pub matches-miss :
      (q k : K) (e : Entry K V)
      → keys.eqfn q k ≡ true
      → matches keys k e ≡ false
      → matches keys q e ≡ false
  matches-miss q k e same miss = elim (Bool-cases (matches keys q e)) [
    | inl y ↦ let bad = matches-eqfn k q e (keys.eqfn_symm k q ∙ same) y in absurd (ground arith)
    | inr n ↦ n
  ]

  -- An entry that matches its own key.
  pub matches-new :
      (q k : K) (e : Entry K V)
      → e.k ≡ k
      → e.h ≡ hash (keys.hashfn k)
      → matches keys q e ≡ keys.eqfn q k
  matches-new q k e ek eh = elim (Bool-cases (keys.eqfn q k)) [
    | inl y ↦
        let same_hash : hash (keys.hashfn q) ≡ hash (keys.hashfn k) =
          ap hash (keys.hashfn-eqfn q k y) in
        rw (ek, eh) (ground arith)
    | inr n ↦ rw (ek, eh) (ground arith)
  ]
