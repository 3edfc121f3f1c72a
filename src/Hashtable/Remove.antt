-- ===== src/Hashtable/Remove.antt =====
-- `hashtable_remove` of c-hashtable/hashtable.c and `hashtable_change` of hashtable_utility.c.
use linux_examples.Base.{
  ℕ, suc, ◌+◌, ◌<◌, ◌≡◌, ◌∙◌, sym, ap, subst, refl, ◌⊎◌, true, false, none, some, List, [], ◌∷◌,
  arith, ◌==◌, length, All, get_or, set, length-set, get_or-set, Bool-cases, inl, inr,
}
use linux_examples.Hashtable.{
  KeyFns, Entry, Chain, key, value, returns, stops, decrement, Hashtable, hash, index_for, remove,
  unlink, change, change_chain,
}
use linux_examples.Hashtable.Values.{
  head?, replace_head, count, count-set, matches, values, home, AtHome,
}
use linux_examples.Hashtable.Expand.{IsLaid, IsValid, lookup}
use linux_examples.Hashtable.Search.{home-get, matches-eqfn, matches-other, matches-miss}

module _ {K V : Type 0} (keys : KeyFns K) where
  -- `unlink` takes the first value of the key away, and nothing else.
  unlink-values :
      (k : K) (c : Chain K V)
      → ((values keys k c ≡ []) × (unlink keys k (hash (keys.hashfn k)) c ≡ none))
        ⊎ ((e : Entry K V) × (c' : Chain K V) × (unlink keys k (hash (keys.hashfn k)) c
              ≡ some (e, c'))
            × (keys.eqfn k e.k ≡ true)
            × (length c ≡ suc (length c'))
            × ((n i : ℕ) → All (AtHome keys n i) c → All (AtHome keys n i) c')
            × ((q : K)
                → (keys.eqfn q k ≡ true → values keys q c ≡ e.v ∷ values keys q c')
                  × (keys.eqfn q k ≡ false → values keys q c ≡ values keys q c')))
  unfolding unlink values
  unlink-values k [] = inl (refl, refl)
  unlink-values k (e ∷ c) = elim (Bool-cases (matches keys k e)) [
    | inl hit ↦ inr (
      e,
      c,
      (rw hit refl),
      ground arith,
      refl,
      (λ n i a. a.1),
      λ q. (
        λ same. rw (matches-eqfn keys q k e same hit) refl,
        λ other. rw (matches-other keys q k e other hit) refl,
      ),
    )
    | inr miss ↦ elim (unlink-values k c) [
      | inl (nil, eq) ↦ inl ((rw (miss, nil) refl), (rw (miss, eq) refl))
      | inr (e', c', eq, own, len, all, found) ↦ inr (
        e',
        e ∷ c',
        (rw (miss, eq) refl),
        own,
        omega (arith, len),
        (λ n i a. (a.0, all n i a.1)),
        λ q. (
          λ same.
              (let f = (found q).0 same in
                let no_match : matches keys q e ≡ false = matches-miss keys q k e same miss in
                rw no_match f),
          λ other. rw ((found q).1 other) refl,
        ),
      )
    ]
  ]

  -- The chain of `k` replaced by one whose entries stand at home there.
  abbrev pub with_chain : Hashtable K V → K → Chain K V → Hashtable K V
  with_chain h k c = record h {
    table = set h.table (index_for h.tablelength (hash (keys.hashfn k))) c;
  }

  pub with_chain-IsLaid :
      (h : Hashtable K V) (k : K) (c : Chain K V)
      → IsLaid keys h
      → ((n i : ℕ)
          → All (AtHome keys n i) (home keys h.tablelength k h.table)
          → All (AtHome keys n i) c)
      → IsLaid keys (with_chain h k c)
        × (count (with_chain h k c).table + length (home keys h.tablelength k h.table)
            ≡ count h.table + length c)
        × ((q : K)
            → (keys.eqfn q k ≡ true
                → (lookup keys h q ≡ values keys q (home keys h.tablelength k h.table))
                  × (lookup keys (with_chain h k c) q ≡ values keys q c))
              × (values keys q (home keys h.tablelength k h.table) ≡ values keys q c
                  → lookup keys h q ≡ lookup keys (with_chain h k c) q))
  with_chain-IsLaid h k c laid all =
      let i = index_for h.tablelength (hash (keys.hashfn k)) in
      let len = laid.len in
      let pos = laid.positive in
      let inside : i < length h.table = omega arith in
      (
        record {
          sized = laid.sized;
          positive = laid.positive;
          len = length-set h.table i c ∙ laid.len;
          at = λ j. rw (get_or-set h.table i j c [] inside) (elim (Bool-cases (i == j)) [
            | inl hit ↦
                let same : i ≡ j = ground arith in
                rw hit (
                  subst (λ (n : ℕ). All (AtHome keys h.tablelength n) c) same
                    (all h.tablelength i (laid.at i)))
            | inr miss ↦ rw miss (laid.at j)
          ]);
        },
        count-set h.table i c inside,
        λ q.
            let j = index_for h.tablelength (hash (keys.hashfn q)) in
            let get = get_or-set h.table i j c [] inside in
            (
              λ same.
                  let si : i ≡ j =
                    ap (λ (n : ℕ). index_for h.tablelength (hash n))
                      (sym (keys.hashfn-eqfn q k same)) in
                  let hit : (i == j) ≡ true = ground arith in
                  (
                    ap (λ (n : ℕ). values keys q (get_or h.table n [])) (sym si),
                    (rw (get, hit) refl),
                  ),
              λ kept. elim (Bool-cases (i == j)) [
                | inl hit ↦
                    let si : i ≡ j = ground arith in
                    rw (get, hit)
                      (ap (λ (n : ℕ). values keys q (get_or h.table n [])) (sym si) ∙ kept)
                | inr miss ↦ rw (get, miss) refl
              ],
            ),
      )

  -- hashtable_remove on a valid table. If the key has no value it returns NULL and changes nothing.
  -- Else the program stops in the call that is to free the key of the first match, with that entry
  -- taken away: the table is valid with one entry fewer, the key's values are the others, and the
  -- values of the other keys are as they were.
  pub remove-lookup :
      (h : Hashtable K V) (k : K)
      → IsValid keys h
      → ((lookup keys h k ≡ []) × (remove keys h k ≡ some (returns none h)))
        ⊎ ((e : Entry K V) × (h' : Hashtable K V) × (remove keys h k ≡ some (stops (key e.k) h'))
            × (keys.eqfn k e.k ≡ true)
            × IsValid keys h'
            × (h.entrycount ≡ suc h'.entrycount)
            × ((q : K)
                → (keys.eqfn q k ≡ true → lookup keys h q ≡ e.v ∷ lookup keys h' q)
                  × (keys.eqfn q k ≡ false → lookup keys h q ≡ lookup keys h' q)))
  unfolding remove
  remove-lookup h k valid =
      let c = home keys h.tablelength k h.table in
      rw (home-get keys h k valid.laid) (elim (unlink-values k c) [
        | inl (nil, eq) ↦ inl (nil, (rw eq refl))
        | inr (e, c', eq, own, len, all, found) ↦
            let (laid, total, at) = with_chain-IsLaid h k c' valid.laid all in
            let small = valid.bounded in
            let fewer : suc (decrement h.entrycount) ≡ h.entrycount =
              omega (arith, total, len, valid.total) in
            let h' : Hashtable K V = record (with_chain h k c') {
              entrycount = decrement h.entrycount;
            } in
            inr (
              e,
              h',
              (rw eq refl),
              own,
              record {
                laid = record {
                  sized = laid.sized;
                  positive = laid.positive;
                  len = laid.len;
                  at = laid.at;
                };
                total = omega (arith, total, len, valid.total, fewer);
                bounded = omega (arith, fewer);
              },
              sym fewer,
              λ q. (
                λ same.
                    (let (l, l') = (at q).0 same in
                      l ∙ (found q).0 same ∙ ap (λ (vs : List V). e.v ∷ vs) (sym l')),
                λ other. (at q).1 ((found q).1 other),
              ),
            )
      ])

  change_chain-values :
      (k : K) (v : V) (c : Chain K V)
      → ((values keys k c ≡ []) × (change_chain keys k (hash (keys.hashfn k)) v c ≡ none))
        ⊎ ((w : V) × (c' : Chain K V) × (change_chain keys k (hash (keys.hashfn k)) v c
              ≡ some (w, c'))
            × (head? (values keys k c) ≡ some w)
            × (length c' ≡ length c)
            × ((n i : ℕ) → All (AtHome keys n i) c → All (AtHome keys n i) c')
            × ((q : K)
                → (keys.eqfn q k ≡ true → values keys q c' ≡ replace_head v (values keys q c))
                  × (keys.eqfn q k ≡ false → values keys q c ≡ values keys q c')))
  unfolding change_chain values replace_head head?
  change_chain-values k v [] = inl (refl, refl)
  change_chain-values k v (e ∷ c) = elim (Bool-cases (matches keys k e)) [
    | inl hit ↦ inr (
      e.v,
      record e { v = v } ∷ c,
      (rw hit refl),
      (rw hit refl),
      refl,
      (λ n i a. a),
      λ q. (
        λ same. rw (matches-eqfn keys q k e same hit) refl,
        λ other. rw (matches-other keys q k e other hit) refl,
      ),
    )
    | inr miss ↦ elim (change_chain-values k v c) [
      | inl (nil, eq) ↦ inl ((rw (miss, nil) refl), (rw (miss, eq) refl))
      | inr (w, c', eq, has, len, all, found) ↦ inr (
        w,
        e ∷ c',
        (rw (miss, eq) refl),
        (rw miss has),
        omega (arith, len),
        (λ n i a. (a.0, all n i a.1)),
        λ q. (
          λ same. rw (matches-miss keys q k e same miss) ((found q).0 same),
          λ other. rw ((found q).1 other) refl,
        ),
      )
    ]
  ]

  -- `hashtable_change` on a valid table. If the key has no value it changes nothing and says so.
  -- Else the first value of the key is freed and replaced by the new one; the table stays valid,
  -- and the values of the other keys are as they were.
  pub change-lookup :
      (h : Hashtable K V) (k : K) (v : V)
      → IsValid keys h
      → ((lookup keys h k ≡ []) × (change keys h k v ≡ some (false, [], h)))
        ⊎ ((w : V) × (h' : Hashtable K V) × (change keys h k v ≡ some (true, value w ∷ [], h'))
            × (head? (lookup keys h k) ≡ some w)
            × IsValid keys h'
            × ((q : K)
                → (keys.eqfn q k ≡ true → lookup keys h' q ≡ replace_head v (lookup keys h q))
                  × (keys.eqfn q k ≡ false → lookup keys h q ≡ lookup keys h' q)))
  unfolding change
  change-lookup h k v valid =
      let c = home keys h.tablelength k h.table in
      rw (home-get keys h k valid.laid) (elim (change_chain-values k v c) [
        | inl (nil, eq) ↦ inl (nil, (rw eq refl))
        | inr (w, c', eq, has, len, all, found) ↦
            let (laid, total, at) = with_chain-IsLaid h k c' valid.laid all in
            inr (
              w,
              with_chain h k c',
              (rw eq refl),
              has,
              record {
                laid = laid;
                total = omega (arith, total, len, valid.total);
                bounded = valid.bounded;
              },
              λ q. (
                λ same.
                    (let (l, l') = (at q).0 same in
                      l' ∙ (found q).0 same ∙ ap (replace_head v) (sym l)),
                λ other. (at q).1 ((found q).1 other),
              ),
            )
      ])
