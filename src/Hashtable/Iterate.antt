-- ===== src/Hashtable/Iterate.antt =====
-- c-hashtable/hashtable_itr.c: the entries that an iterator has before it.
use linux_examples.Base.{
  ℕ, zero, suc, ◌+◌, ◌-◌, ◌≤◌, ◌<◌, ◌≡◌, ◌≢◌, ◌∙◌, sym, ap, refl, ◌⊎◌, inl, inr, Bool, true, false,
  Option, none, some, List, [], ◌∷◌, ◌++◌, arith, leb, ◌==◌, length, get_or, get_elem?-get_or,
  Bool-cases,
}
use linux_examples.Hashtable.{KeyFns, Entry, Chain, Hashtable}
use linux_examples.Hashtable.Values.{rev_onto, count}
use linux_examples.Hashtable.Expand.{IsValid}
use linux_examples.Hashtable.Iterator.{Itr, scan, at_end, scanned, iterator, advance}

module _ {K V : Type 0} where
  -- The entries of the chains from index `i` on.
  unfoldable pub entries_from : ℕ → List (Chain K V) → Chain K V
  entries_from i [] = []
  entries_from zero (c ∷ cs) = c ++ entries_from zero cs
  entries_from (suc i) (c ∷ cs) = entries_from i cs

  entries_from_step :
      (i : ℕ) (cs : List (Chain K V))
      → entries_from i cs ≡ get_or cs i [] ++ entries_from (suc i) cs
  unfolding entries_from
  entries_from_step i [] = refl
  entries_from_step zero (c ∷ cs) = refl
  entries_from_step (suc i) (c ∷ cs) = entries_from_step i cs

  entries_from_end : (i : ℕ) (cs : List (Chain K V)) → length cs ≤ i → entries_from i cs ≡ []
  unfolding entries_from
  entries_from_end i [] h = refl
  entries_from_end zero (c ∷ cs) h = absurd (omega arith)
  entries_from_end (suc i) (c ∷ cs) h = entries_from_end i cs (omega arith)

  entries_from-count : (cs : List (Chain K V)) → count cs ≡ 0 → entries_from 0 cs ≡ []
  unfolding entries_from count
  entries_from-count [] h = refl
  entries_from-count ([] ∷ cs) h = entries_from-count cs (omega (arith, h))
  entries_from-count ((e ∷ c) ∷ cs) h = absurd (omega (arith, h))

  -- The entry that an iterator stands at and those that follow.
  unfoldable pub ahead : Hashtable K V → Itr K V → Chain K V
  ahead h itr = elim itr.rest [ [] ↦ [] | e ∷ c ↦ e ∷ c ++ entries_from (suc itr.index) h.table ]

  -- The iterator stands at an entry of the table, or at the end.
  abbrev pub IsAt : Hashtable K V → Itr K V → Type 0
  IsAt h itr =
      (itr.rest ≡ [])
      ⊎ ((itr.index < h.tablelength) × (get_or h.table itr.index [] ≡ rev_onto itr.passed itr.rest))

  Chain-cases : (c : Chain K V) → (c ≡ []) ⊎ ((e : Entry K V) × (c' : Chain K V) × (c ≡ e ∷ c'))
  Chain-cases [] = inl refl
  Chain-cases (e ∷ c) = inr (e, c, refl)

  pub cons-ne-nil : (e : Entry K V) (c : Chain K V) → e ∷ c ≢ []
  cons-ne-nil e c h = absurd (ground (arith, h))

  -- It stands at an entry just if the call has said so.
  abbrev pub Says : Bool → Itr K V → Type 0
  Says true itr = (e : Entry K V) × (c : Chain K V) × (itr.rest ≡ e ∷ c)
  Says false itr = itr.rest ≡ []

  scan-ahead :
      (n j : ℕ) (h : Hashtable K V)
      → j + n ≡ h.tablelength
      → length h.table ≡ h.tablelength
      → (found : Option (ℕ × Chain K V)) × (scan n j h.table ≡ some found)
        × (ahead h (scanned h found).1 ≡ entries_from j h.table)
        × IsAt h (scanned h found).1
        × Says (scanned h found).0 (scanned h found).1
  unfolding scan ahead rev_onto
  scan-ahead zero j h e len =
      (none, refl, sym (entries_from_end j h.table (omega arith)), inl refl, refl)
  scan-ahead (suc n) j h e len =
      let next : suc j ≡ j + 1 = omega arith in
      let key = get_elem?-get_or h.table j [] (omega arith) in
      let step = entries_from_step j h.table in
      elim (Chain-cases (get_or h.table j [])) [
        | inl empty ↦
            let (found, eq, same, at, says) = scan-ahead n (j + 1) h (omega arith) len in
            (
              found,
              (rw (key, empty) eq),
              same ∙ sym (step ∙ rw empty (ap (λ (i : ℕ). entries_from i h.table) next)),
              at,
              says,
            )
        | inr (e', c, full) ↦ (
          some (j, e' ∷ c),
          (rw (key, full) refl),
          sym (step ∙ rw full refl),
          inr (omega arith, full),
          (e', c, refl),
        )
      ]

  -- What the statements on the iterator say of a result.
  abbrev pub Stands : Hashtable K V → Chain K V → Bool × Itr K V → Type 0
  Stands h es r = (ahead h r.1 ≡ es) × IsAt h r.1 × Says r.0 r.1

  -- hashtable_iterator on a valid table returns NULL if malloc gives no memory. Else it returns an
  -- iterator that stands at the first of all the entries, or at the end if there are none.
  pub iterator-ahead :
      (keys : KeyFns K) (allocated : Bool) (h : Hashtable K V)
      → IsValid keys h
      → ((allocated ≡ false) × (iterator allocated h ≡ some none))
        ⊎ ((allocated ≡ true)
            × ((itr : Itr K V) × (iterator allocated h ≡ some (some itr))
                × (ahead h itr ≡ entries_from 0 h.table)
                × IsAt h itr))
  unfolding iterator ahead
  iterator-ahead keys false h valid = inl (refl, refl)
  iterator-ahead keys true h valid = elim (Bool-cases (h.entrycount == 0)) [
    | inl empty ↦
        let none_at_all : count h.table ≡ 0 = ground (arith, valid.total) in
        inr (
          refl,
          (rw empty
              (at_end h.tablelength, refl, sym (entries_from-count h.table none_at_all), inl refl)),
        )
    | inr some_entry ↦
        let (found, eq, same, at, says) =
          scan-ahead h.tablelength 0 h (omega arith) valid.laid.len in
        inr (refl, (rw (some_entry, eq) ((scanned h found).1, refl, same, at)))
  ]

  -- The advance from the last entry of a chain.
  pub advance_last :
      (h : Hashtable K V) (itr : Itr K V) (e : Entry K V)
      → length h.table ≡ h.tablelength
      → itr.rest ≡ e ∷ []
      → (r : Bool × Itr K V) × (advance h itr ≡ some r)
        × Stands h (entries_from (suc itr.index) h.table) r
  unfolding advance ahead
  advance_last h itr e len full =
      let next : suc itr.index ≡ itr.index + 1 = omega arith in
      elim (Bool-cases (leb h.tablelength (itr.index + 1))) [
        | inl over ↦
            rw (full, over)
              (
                (false, at_end (itr.index + 1)),
                refl,
                (sym (entries_from_end (suc itr.index) h.table (ground arith)), inl refl, refl),
              )
        | inr under ↦
            let (found, eq, same, at', says) =
              scan-ahead (h.tablelength - (itr.index + 1)) (itr.index + 1) h (ground arith) len in
            rw (full, under, eq)
              (
                scanned h found,
                refl,
                (same ∙ ap (λ (i : ℕ). entries_from i h.table) (sym next), at', says),
              )
      ]

  -- `hashtable_iterator_advance`, of an iterator that stands at an entry, leaves that entry behind:
  -- it stands at the next of those ahead, and returns 0 just if there is none.
  pub advance-ahead :
      (h : Hashtable K V) (itr : Itr K V) (e : Entry K V) (c : Chain K V)
      → length h.table ≡ h.tablelength
      → IsAt h itr
      → itr.rest ≡ e ∷ c
      → (r : Bool × Itr K V) × (es : Chain K V) × (advance h itr ≡ some r)
        × (ahead h itr ≡ e ∷ es)
        × Stands h es r
  unfolding advance ahead rev_onto
  advance-ahead h itr e (e' ∷ c) len at full =
      let inside : (itr.index < h.tablelength)
          × (get_or h.table itr.index [] ≡ rev_onto itr.passed (e ∷ e' ∷ c)) =
        elim at [
          | inl none_left ↦ absurd (cons-ne-nil e (e' ∷ c) (sym full ∙ none_left))
          | inr i ↦ (i.0, i.1 ∙ ap (rev_onto itr.passed) full)
        ] in
      let itr' : Itr K V = record { index = itr.index; passed = e ∷ itr.passed; rest = e' ∷ c } in
      rw full (
        (true, itr'),
        e' ∷ c ++ entries_from (suc itr.index) h.table,
        refl,
        refl,
        (refl, inr inside, (e', c, refl)),
      )
  advance-ahead h itr e [] len at full =
      let (r, eq, stands) = advance_last h itr e len full in
      (r, entries_from (suc itr.index) h.table, eq, (rw full refl), stands)
