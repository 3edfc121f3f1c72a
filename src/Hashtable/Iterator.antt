-- ===== src/Hashtable/Iterator.antt =====
-- c-hashtable/hashtable_itr.c: iterators over the entries of a table. The pointer `itr->e` is the
-- entry with those behind it in its chain, and `itr->parent` the entries before it, nearest first.
use linux_examples.Base.{
  ℕ, zero, suc, ◌+◌, ◌-◌, not, Bool, true, false, ◌&&◌, Option, none, some, List, [], ◌∷◌, leb,
  ◌==◌, if◌then◌else◌, get_elem?, set,
}
use linux_examples.Base.Maybe.{◌>>=◌}
use linux_examples.Hashtable.{
  KeyFns, Chain, Hashtable, Freed, key, entry, Outcome, returns, stops, hash, index_for, decrement,
}
use linux_examples.Hashtable.Values.{rev_onto}

-- `struct hashtable_itr`, less its `h`
pub record Itr (K V : Type 0) : Type 0 where
  pub index : ℕ
  pub passed : Chain K V
  pub rest : Chain K V

module _ {K V : Type 0} where
  -- The first chain with an entry among the next `n`, from index `j` on.
  unfoldable pub scan : ℕ → ℕ → List (Chain K V) → Option (Option (ℕ × Chain K V))
  scan zero j table = some none
  scan (suc n) j table = get_elem? table j >>= λ c. elim c [
    | [] ↦ scan n (j + 1) table
    | e ∷ c' ↦ some (some (j, e ∷ c'))
  ]

  abbrev pub at_end : ℕ → Itr K V
  at_end index = record { index = index; passed = []; rest = [] }

  -- Where a scan leaves the iterator, and whether it has found an entry.
  abbrev pub scanned : Hashtable K V → Option (ℕ × Chain K V) → Bool × Itr K V
  scanned h none = (false, at_end h.tablelength)
  scanned h (some (j, c)) = (true, record { index = j; passed = []; rest = c })

  -- `hashtable_iterator`: the iterator, or `none` for NULL, where malloc has `allocated` it or not.
  unfoldable pub iterator : Bool → Hashtable K V → Option (Option (Itr K V))
  iterator allocated h =
      if not allocated
      then some none
      else if h.entrycount == 0
      then some (some (at_end h.tablelength))
      else scan h.tablelength 0 h.table >>= λ found. some (some (scanned h found).1)

  -- `hashtable_iterator_advance`
  unfoldable pub advance : Hashtable K V → Itr K V → Option (Bool × Itr K V)
  advance h itr = elim itr.rest [
    | [] ↦ some (false, itr)
    | e ∷ c ↦ elim c [
      | e' ∷ c' ↦ some (true, record { index = itr.index; passed = e ∷ itr.passed; rest = e' ∷ c' })
      | [] ↦
          if leb h.tablelength (itr.index + 1)
          then some (false, at_end (itr.index + 1))
          else scan (h.tablelength - (itr.index + 1)) (itr.index + 1) h.table >>= λ found.
              some (scanned h found)
    ]
  ]

  -- `if (itr->parent == remember_e) { itr->parent = remember_parent; }`, behind the removal of an
  -- entry with `c` behind it.
  abbrev pub correct_parent : Chain K V → Itr K V → Itr K V → Itr K V
  correct_parent [] itr itr₁ = itr₁
  correct_parent (e ∷ c) itr itr₁ = record {
    index = itr₁.index;
    passed = itr.passed;
    rest = itr₁.rest;
  }

  -- `hashtable_iterator_remove`: what it returns, the iterator and the table. `freed` says whether
  -- `free` of the C library returns; it need not, for memory that malloc has not given.
  unfoldable pub remove_here :
      (Freed K V → Bool)
      → Hashtable K V
      → Itr K V
      → Option (Outcome K V (Bool × Itr K V) (Hashtable K V))
  remove_here freed h itr = elim itr.rest [
    | [] ↦ none
    | e ∷ c ↦
        let h₁ : Hashtable K V = record h {
          table = set h.table itr.index (rev_onto itr.passed c);
          entrycount = decrement h.entrycount;
        } in
        if freed (key e.k)
        then (advance h₁ itr >>= λ r. some (
            if freed (entry e)
            then returns (r.0, correct_parent c itr r.1) h₁
            else stops (entry e) h₁))
        else some (stops (key e.k) h₁)
  ]

  -- The loop of `hashtable_iterator_search`.
  unfoldable pub search_place :
      KeyFns K → K → ℕ → Chain K V → Chain K V → Option (Chain K V × Chain K V)
  search_place keys k hashvalue passed [] = none
  search_place keys k hashvalue passed (e ∷ c) =
      if (hashvalue == e.h) && keys.eqfn k e.k
      then some (passed, e ∷ c)
      else search_place keys k hashvalue (e ∷ passed) c

  -- `hashtable_iterator_search`, of an iterator that is not NULL
  unfoldable pub search_itr : KeyFns K → Hashtable K V → Itr K V → K → Option (Bool × Itr K V)
  search_itr keys h itr k = do
    let hashvalue = hash (keys.hashfn k)
    let index = index_for h.tablelength hashvalue
    c ← get_elem? h.table index
    some (elim (search_place keys k hashvalue [] c) [
      | none ↦ (false, itr)
      | some (passed, rest) ↦ (true, record { index = index; passed = passed; rest = rest })
    ])
