-- ===== src/Hashtable/RemoveHere.antt =====
-- `hashtable_iterator_remove` of c-hashtable/hashtable_itr.c.
use linux_examples.Base.{
  ℕ, zero, suc, ◌+◌, ◌<◌, ◌≡◌, ◌∙◌, sym, ap, subst, refl, inl, inr, Bool, true, false, Option, some,
  List, [], ◌∷◌, ◌++◌, arith, ◌==◌, length, All, get_or, set, get_or-set,
}
use linux_examples.Hashtable.{
  KeyFns, Entry, Chain, Hashtable, Freed, key, entry, Outcome, returns, stops, decrement, hash,
  index_for,
}
use linux_examples.Hashtable.Values.{rev_onto, count, matches, values, home, AtHome}
use linux_examples.Hashtable.Expand.{IsLaid, IsValid, lookup}
use linux_examples.Hashtable.Remove.{with_chain-IsLaid}
use linux_examples.Hashtable.Iterator.{Itr, advance, remove_here}
use linux_examples.Hashtable.Iterate.{entries_from, ahead, IsAt, cons-ne-nil, advance_last, Stands}

module _ {A : Type 0} where
  length-rev_onto : (xs ys : List A) → length (rev_onto xs ys) ≡ length xs + length ys
  unfolding rev_onto
  length-rev_onto [] ys = omega arith
  length-rev_onto (x ∷ xs) ys = omega (arith, length-rev_onto xs (x ∷ ys))

  All-rev_onto : (P : A → Type 0) (xs ys : List A) → All P (rev_onto xs ys) → All P xs × All P ys
  unfolding rev_onto
  All-rev_onto P [] ys a = (tt, a)
  All-rev_onto P (x ∷ xs) ys a = let (l, r) = All-rev_onto P xs (x ∷ ys) a in ((r.0, l), r.1)

  rev_onto-All : (P : A → Type 0) (xs ys : List A) → All P xs → All P ys → All P (rev_onto xs ys)
  unfolding rev_onto
  rev_onto-All P [] ys a b = b
  rev_onto-All P (x ∷ xs) ys a b = rev_onto-All P xs (x ∷ ys) a.1 (a.0, b)

module _ {K V : Type 0} where
  entries_from-set :
      (i : ℕ) (c : Chain K V) (cs : List (Chain K V))
      → entries_from (suc i) (set cs i c) ≡ entries_from (suc i) cs
  unfolding entries_from
  entries_from-set i c [] = refl
  entries_from-set zero c (x ∷ cs) = refl
  entries_from-set (suc i) c (x ∷ cs) = entries_from-set i c cs

module _ {K V : Type 0} where
  -- How the removal of `e` ends, where it would return `r`: with both calls of `free`, or in the
  -- first of them that does not return.
  abbrev pub Ended :
      (Freed K V → Bool)
      → Entry K V
      → Hashtable K V
      → Bool × Itr K V
      → Option (Outcome K V (Bool × Itr K V) (Hashtable K V))
      → Type 0
  Ended freed e h' r o =
      (freed (key e.k) ≡ false → o ≡ some (stops (key e.k) h'))
      × (freed (key e.k) ≡ true → freed (entry e) ≡ false → o ≡ some (stops (entry e) h'))
      × (freed (key e.k) ≡ true → freed (entry e) ≡ true → o ≡ some (returns r h'))

module _ {K V : Type 0} (keys : KeyFns K) where
  values-rev_onto :
      (q : K) (xs ys zs : Chain K V)
      → values keys q ys ≡ values keys q zs
      → values keys q (rev_onto xs ys) ≡ values keys q (rev_onto xs zs)
  unfolding rev_onto values
  values-rev_onto q [] ys zs e = e
  values-rev_onto q (x ∷ xs) ys zs e = values-rev_onto q xs (x ∷ ys) (x ∷ zs) (rw e refl)

  -- The table without the entry that the iterator stands at.
  abbrev pub without : Hashtable K V → Itr K V → Chain K V → Hashtable K V
  without h itr c = record h {
    table = set h.table itr.index (rev_onto itr.passed c);
    entrycount = decrement h.entrycount;
  }

  without-IsValid :
      (h : Hashtable K V) (itr : Itr K V) (e : Entry K V) (c : Chain K V)
      → IsValid keys h
      → itr.index < h.tablelength
      → get_or h.table itr.index [] ≡ rev_onto itr.passed (e ∷ c)
      → IsValid keys (without h itr c)
        × (h.entrycount ≡ suc (without h itr c).entrycount)
        × ((q : K) → matches keys q e ≡ false → lookup keys h q ≡ lookup keys (without h itr c) q)
  unfolding values
  without-IsValid h itr e c valid inside chain =
      let n = h.tablelength in
      let c' = rev_onto itr.passed c in
      let P = AtHome keys n itr.index in
      let own = All-rev_onto P itr.passed (e ∷ c) (subst (All P) chain (valid.laid.at itr.index)) in
      let at_index : index_for n (hash (keys.hashfn e.k)) ≡ itr.index =
        ap (index_for n) (sym own.1.0.0) ∙ own.1.0.1 in
      let home_chain : home keys n e.k h.table ≡ rev_onto itr.passed (e ∷ c) =
        ap (λ (i : ℕ). get_or h.table i []) at_index ∙ chain in
      let (laid, total, at) = with_chain-IsLaid keys h e.k c' valid.laid λ n' i a.
        (let (l, r) =
            All-rev_onto (AtHome keys n' i) itr.passed (e ∷ c)
              (subst (All (AtHome keys n' i)) home_chain a) in
          rev_onto-All (AtHome keys n' i) itr.passed c l r.1) in
      let new = λ (i : ℕ). (set h.table i c') in
      let laid' : IsLaid keys (record h { table = new itr.index }) =
        subst (λ (i : ℕ). IsLaid keys (record h { table = new i })) at_index laid in
      let total' : count (new itr.index) + length (home keys n e.k h.table)
          ≡ count h.table + length c' =
        subst
          (λ (i : ℕ). count (new i) + length (home keys n e.k h.table) ≡ count h.table + length c')
          at_index total in
      let size : length (home keys n e.k h.table) ≡ length itr.passed + suc (length c) =
        ap length home_chain ∙ length-rev_onto itr.passed (e ∷ c) in
      let size' = length-rev_onto itr.passed c in
      let small = valid.bounded in
      let fewer : suc (decrement h.entrycount) ≡ h.entrycount =
        omega (arith, total', size, size', valid.total) in
      (
        record {
          laid = record {
            sized = laid'.sized;
            positive = laid'.positive;
            len = laid'.len;
            at = laid'.at;
          };
          total = omega (arith, total', size, size', valid.total, fewer);
          bounded = omega (arith, fewer);
        },
        sym fewer,
        λ q miss.
            (at q).1 (
              ap (values keys q) home_chain ∙ values-rev_onto q itr.passed (e ∷ c) c (rw miss refl))
            ∙ ap (λ (i : ℕ). values keys q (home keys n q (new i))) at_index,
      )

  -- Where the iterator stands, its chain is the entries passed, the entry and those behind it.
  stands_at :
      (h : Hashtable K V) (itr : Itr K V) (e : Entry K V) (c : Chain K V)
      → IsAt h itr
      → itr.rest ≡ e ∷ c
      → (itr.index < h.tablelength) × (get_or h.table itr.index [] ≡ rev_onto itr.passed (e ∷ c))
  stands_at h itr e c (inl none_left) full = absurd (cons-ne-nil e c (sym full ∙ none_left))
  stands_at h itr e c (inr i) full = (i.0, i.1 ∙ ap (rev_onto itr.passed) full)

  -- hashtable_iterator_remove on a valid table, of an iterator that stands at an entry, whatever
  -- free of the C library does: it calls free for the entry's key and then for the entry, and stops
  -- in the first of the calls that does not return. Then as at its end the table is valid without
  -- the entry, the values of the keys that do not match it as they were. Where both calls return,
  -- the iterator stands at the next of the entries ahead, and the call returns 0 just if there is
  -- none.
  pub remove_here-ahead :
      (freed : Freed K V → Bool) (h : Hashtable K V) (itr : Itr K V) (e : Entry K V) (c : Chain K V)
      → IsValid keys h
      → IsAt h itr
      → itr.rest ≡ e ∷ c
      → (r : Bool × Itr K V) × (h' : Hashtable K V) × (es : Chain K V) × Ended freed e h' r
          (remove_here freed h itr)
        × IsValid keys h'
        × (h.entrycount ≡ suc h'.entrycount)
        × ((q : K) → matches keys q e ≡ false → lookup keys h q ≡ lookup keys h' q)
        × (ahead h itr ≡ e ∷ es)
        × Stands h' es r
  unfolding remove_here advance ahead
  remove_here-ahead freed h itr e [] valid at full =
      let here = stands_at h itr e [] at full in
      let (valid', fewer, kept) = without-IsValid h itr e [] valid here.0 here.1 in
      let (r, eq, (same, at', says)) = advance_last (without h itr []) itr e valid'.laid.len full in
      let next = entries_from-set itr.index (rev_onto itr.passed []) h.table in
      let eq' = rw full at eq in
      (
        r,
        without h itr [],
        entries_from (suc itr.index) h.table,
        (
          λ k. rw (full, k) refl,
          λ k n. rw (full, k, eq', n) refl,
          λ k n. rw (full, k, eq', n) refl,
        ),
        valid',
        fewer,
        kept,
        (rw full refl),
        (same ∙ next, at', says),
      )
  remove_here-ahead freed h itr e (e' ∷ c) valid at full =
      let here = stands_at h itr e (e' ∷ c) at full in
      let (valid', fewer, kept) = without-IsValid h itr e (e' ∷ c) valid here.0 here.1 in
      let c' = rev_onto itr.passed (e' ∷ c) in
      let len = valid.laid.len in
      let hit : (itr.index == itr.index) ≡ true = ground arith in
      rw full (
        (true, record { index = itr.index; passed = itr.passed; rest = e' ∷ c }),
        without h itr (e' ∷ c),
        e' ∷ c ++ entries_from (suc itr.index) h.table,
        (λ k. rw k refl, λ k n. rw (k, n) refl, λ k n. rw (k, n) refl),
        valid',
        fewer,
        kept,
        refl,
        (
          ap (λ (es : Chain K V). e' ∷ c ++ es) (entries_from-set itr.index c' h.table),
          inr (
            here.0,
            get_or-set h.table itr.index itr.index c' [] (omega (arith, here.0)) ∙ (rw hit refl),
          ),
          (e', c, refl),
        ),
      )
