-- ===== src/Hashtable/Insert.antt =====
-- `hashtable_insert` of c-hashtable/hashtable.c.
use linux_examples.Base.{
  ℕ, suc, ◌+◌, ◌%◌, ◌<◌, ◌≡◌, ◌∙◌, ap, refl, true, some, List, ◌∷◌, arith, ltb, if◌then◌else◌,
  Bool-cases, inl, inr,
}
use linux_examples.Hashtable.{KeyFns, Entry, Hashtable, hash, insert, add_entry, word}
use linux_examples.Hashtable.Values.{count, push-values}
use linux_examples.Hashtable.Expand.{IsLaid, IsValid, lookup, order, expand-lookup}
use linux_examples.Hashtable.Search.{matches-new}

module _ {K V : Type 0} (keys : KeyFns K) where
  add_entry-lookup :
      (h : Hashtable K V) (k : K) (v : V)
      → IsLaid keys h
      → (h' : Hashtable K V) × (add_entry keys true h k v ≡ some (true, h'))
        × IsLaid keys h'
        × (count h'.table ≡ suc (count h.table))
        × (h'.entrycount ≡ h.entrycount)
        × ((q : K)
            → lookup keys h' q ≡ (if keys.eqfn q k then v ∷ lookup keys h q else lookup keys h q))
  unfolding add_entry
  add_entry-lookup h k v laid =
      let e : Entry K V = record { k = k; v = v; h = hash (keys.hashfn k) } in
      let pos = laid.positive in
      let (t, eq, len, at, total, found) =
        push-values keys h.tablelength e h.table laid.len (omega arith) laid.at refl in
      rw eq (
        record h { table = t },
        refl,
        record { sized = laid.sized; positive = laid.positive; len = len; at = at },
        total,
        refl,
        λ q. found q ∙ rw (matches-new keys q k e refl refl) refl,
      )

  -- The values of a key before the new entry is added.
  abbrev pub before : Hashtable K V → K → List V
  before h q =
      if ltb h.loadlimit (h.entrycount + 1) then order keys h (lookup keys h q) else lookup keys h q

  -- `hashtable_insert` into a valid table, where the allocations succeed and the count stays below
  -- 2 ^ 32. It succeeds, the table stays valid with one more entry, and the new value comes before
  -- the values of its key; those of all keys keep their order, or have it reversed where the table
  -- has grown.
  pub insert-lookup :
      (load_limit : ℕ → ℕ) (h : Hashtable K V) (k : K) (v : V)
      → IsValid keys h
      → h.entrycount + 1 < word
      → (h' : Hashtable K V) × (insert keys load_limit true true h k v ≡ some (true, h'))
        × IsValid keys h'
        × (h'.entrycount ≡ h.entrycount + 1)
        × ((q : K) → lookup keys h' q ≡ (if keys.eqfn q k then v ∷ before h q else before h q))
  unfolding insert
  insert-lookup load_limit h k v valid small =
      let wrap : (h.entrycount + 1) % word ≡ h.entrycount + 1 = omega arith in
      let h₁ : Hashtable K V = record h { entrycount = h.entrycount + 1 } in
      let laid = valid.laid in
      let laid₁ : IsLaid keys h₁ = record {
        sized = laid.sized;
        positive = laid.positive;
        len = laid.len;
        at = laid.at;
      } in
      rw wrap (elim (Bool-cases (ltb h.loadlimit (h.entrycount + 1))) [
        | inl over ↦
            let (h₂, eq₂, laid₂, total₂, entries₂, grows, found₂) =
              expand-lookup keys load_limit h₁ laid₁ in
            let (h₃, eq₃, laid₃, total₃, entries₃, found₃) = add_entry-lookup h₂ k v laid₂ in
            rw (over, eq₂)
              (
                h₃,
                eq₃,
                record {
                  laid = laid₃;
                  total = omega (arith, total₃, total₂, entries₃, entries₂, valid.total);
                  bounded = omega (arith, entries₃, entries₂);
                },
                entries₃ ∙ entries₂,
                λ q.
                    found₃ q
                    ∙ ap (λ (vs : List V). if keys.eqfn q k then v ∷ vs else vs) (found₂ q),
              )
        | inr under ↦
            let (h₃, eq₃, laid₃, total₃, entries₃, found₃) = add_entry-lookup h₁ k v laid₁ in
            rw under (
              h₃,
              eq₃,
              record {
                laid = laid₃;
                total = omega (arith, total₃, entries₃, valid.total);
                bounded = omega (arith, entries₃);
              },
              entries₃,
              found₃,
            )
      ])
