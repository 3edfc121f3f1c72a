-- ===== src/Tests/Iteration.antt =====
-- c-hashtable/hashtable_itr.c at a concrete table.
use linux_examples.Base.{
  ℕ, suc, ◌%◌, ◌≡◌, ◌∙◌, refl, Bool, true, false, none, some, List, [], ◌∷◌, ◌⊎◌, arith, ◌==◌, inr,
  replicate, get_or-set,
}
use linux_examples.Hashtable.{Entry, Chain, Hashtable, Freed, key, value, entry, hash}
use linux_examples.Hashtable.Values.{matches}
use linux_examples.Hashtable.Expand.{IsValid, lookup}
use linux_examples.Hashtable.Iterator.{Itr, iterator, advance, remove_here, search_itr}
use linux_examples.Hashtable.Iterate.{
  entries_from, ahead, IsAt, Stands, iterator-ahead, advance-ahead,
}
use linux_examples.Hashtable.SearchPlace.{search_itr-lookup}
use linux_examples.Hashtable.RemoveHere.{Ended, remove_here-ahead}
use linux_examples.Tests.Table.{numbers, one_entry, one_entry-IsValid}

abbrev only : Entry ℕ ℕ
only = record { k = 5; v = 50; h = hash 5 }

abbrev standing : Itr ℕ ℕ
standing = record { index = hash 5 % 53; passed = []; rest = only ∷ [] }

standing-IsAt : IsAt one_entry standing
unfolding linux_examples.Hashtable.Values.rev_onto
standing-IsAt =
    let hit : (hash 5 % 53 == hash 5 % 53) ≡ true = ground arith in
    inr (
      omega arith,
      get_or-set (replicate 53 []) (hash 5 % 53) (hash 5 % 53) (only ∷ []) [] (omega arith)
          ∙ (rw hit refl),
    )

iterator-ahead_example :
    ((true ≡ false) × (iterator true one_entry ≡ some none))
    ⊎ ((true ≡ true)
        × ((itr : Itr ℕ ℕ) × (iterator true one_entry ≡ some (some itr))
            × (ahead one_entry itr ≡ entries_from 0 one_entry.table)
            × IsAt one_entry itr))
iterator-ahead_example = iterator-ahead numbers true one_entry one_entry-IsValid

advance-ahead_example :
    (r : Bool × Itr ℕ ℕ) × (es : Chain ℕ ℕ) × (advance one_entry standing ≡ some r)
    × (ahead one_entry standing ≡ only ∷ es)
    × Stands one_entry es r
advance-ahead_example =
    advance-ahead one_entry standing only [] one_entry-IsValid.laid.len standing-IsAt refl

-- A free that returns for the memory of a key, and for no other.
abbrev keys_only : Freed ℕ ℕ → Bool
keys_only (key k) = true
keys_only (value v) = false
keys_only (entry e) = false

remove_here-ahead_example :
    (r : Bool × Itr ℕ ℕ) × (h' : Hashtable ℕ ℕ) × (es : Chain ℕ ℕ) × Ended keys_only only h' r
      (remove_here keys_only one_entry standing)
    × IsValid numbers h'
    × (one_entry.entrycount ≡ suc h'.entrycount)
    × ((q : ℕ) → matches numbers q only ≡ false → lookup numbers one_entry q ≡ lookup numbers h' q)
    × (ahead one_entry standing ≡ only ∷ es)
    × Stands h' es r
remove_here-ahead_example =
    remove_here-ahead numbers keys_only one_entry standing only [] one_entry-IsValid standing-IsAt
      refl

search_itr-lookup_example :
    ((search_itr numbers one_entry standing 5 ≡ some (false, standing))
      × (lookup numbers one_entry 5 ≡ []))
    ⊎ ((itr' : Itr ℕ ℕ) × (e : Entry ℕ ℕ) × (c : Chain ℕ ℕ) × (vs : List ℕ) × (search_itr numbers
            one_entry standing 5
          ≡ some (true, itr'))
        × (itr'.rest ≡ e ∷ c)
        × IsAt one_entry itr'
        × (matches numbers 5 e ≡ true)
        × (lookup numbers one_entry 5 ≡ e.v ∷ vs))
search_itr-lookup_example = search_itr-lookup numbers one_entry standing 5 one_entry-IsValid
