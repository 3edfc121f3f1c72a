-- ===== src/Hashtable/SearchPlace.antt =====
-- `hashtable_iterator_search` of c-hashtable/hashtable_itr.c: where it leaves the iterator.
use linux_examples.Base.{
  ◌<◌, ◌≡◌, sym, refl, ◌⊎◌, inl, inr, true, false, none, some, List, [], ◌∷◌, arith, Bool-cases,
}
use linux_examples.Hashtable.{KeyFns, Entry, Chain, Hashtable, hash, index_for}
use linux_examples.Hashtable.Values.{rev_onto, values, matches, home}
use linux_examples.Hashtable.Expand.{IsValid, lookup}
use linux_examples.Hashtable.Iterate.{IsAt}
use linux_examples.Hashtable.Iterator.{Itr, search_place, search_itr}
use linux_examples.Hashtable.Search.{home-get}

module _ {K V : Type 0} (keys : KeyFns K) where
  search_place-cases :
      (k : K) (passed c : Chain K V)
      → ((search_place keys k (hash (keys.hashfn k)) passed c ≡ none) × (values keys k c ≡ []))
        ⊎ ((p : Chain K V) × (e : Entry K V) × (c' : Chain K V) × (vs : List V) × (search_place keys
                k
                (hash (keys.hashfn k))
                passed
                c
              ≡ some (p, e ∷ c'))
            × (rev_onto p (e ∷ c') ≡ rev_onto passed c)
            × (matches keys k e ≡ true)
            × (values keys k c ≡ e.v ∷ vs))
  unfolding search_place values rev_onto
  search_place-cases k passed [] = inl (refl, refl)
  search_place-cases k passed (e ∷ c) = elim (Bool-cases (matches keys k e)) [
    | inl hit ↦ inr (passed, e, c, values keys k c, (rw hit refl), refl, hit, (rw hit refl))
    | inr miss ↦ elim (search_place-cases k (e ∷ passed) c) [
      | inl (f, v) ↦ inl ((rw miss f), (rw miss v))
      | inr (p, e', c', vs, f, r, hit, v) ↦ inr (p, e', c', vs, (rw miss f), r, hit, (rw miss v))
    ]
  ]

  -- hashtable_iterator_search in a valid table: if the key has no value, it returns 0 and leaves
  -- the iterator as it was; else it stands at an entry that matches the key, with the first of the
  -- key's values.
  pub search_itr-lookup :
      (h : Hashtable K V) (itr : Itr K V) (k : K)
      → IsValid keys h
      → ((search_itr keys h itr k ≡ some (false, itr)) × (lookup keys h k ≡ []))
        ⊎ ((itr' : Itr K V) × (e : Entry K V) × (c : Chain K V) × (vs : List V) × (search_itr keys h
                itr k
              ≡ some (true, itr'))
            × (itr'.rest ≡ e ∷ c)
            × IsAt h itr'
            × (matches keys k e ≡ true)
            × (lookup keys h k ≡ e.v ∷ vs))
  unfolding search_itr rev_onto
  search_itr-lookup h itr k valid =
      let index = index_for h.tablelength (hash (keys.hashfn k)) in
      let pos = valid.laid.positive in
      let inside : index < h.tablelength = omega (arith, pos) in
      let here = home-get keys h k valid.laid in
      elim (search_place-cases k [] (home keys h.tablelength k h.table)) [
        | inl (f, v) ↦ inl ((rw (here, f) refl), v)
        | inr (p, e, c, vs, f, r, hit, v) ↦ inr (
          record { index = index; passed = p; rest = e ∷ c },
          e,
          c,
          vs,
          (rw (here, f) refl),
          refl,
          inr (inside, sym r),
          hit,
          v,
        )
      ]
