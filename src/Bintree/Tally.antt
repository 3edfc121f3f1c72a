-- ===== src/Bintree/Tally.antt =====
-- What the tree of binarytree/tree.c stands for: a list of words in order, each with its count.
use Prim.Native.Nat.{Ordering}
use linux_examples.Base.{
  ℕ, ◌+◌, ◌%◌, ◌^◌, ◌≡◌, ◌≢◌, sym, refl, inl, inr, List, [], ◌∷◌, All, arith, ◌∙◌,
}
use linux_examples.BTree.Order.{Ordering-cases, All-imp}
use linux_examples.BTree.Removes.{Strict}
use linux_examples.Bintree.{Word, Line, strcmp}
use linux_examples.Bintree.Words.{strings, strcmp_refl, strcmp-equal, strcmp-lt_of_gt, strcmp_trans}

abbrev pub words : List Line → List Word
words [] = []
words (e ∷ es) = e.1 ∷ words es

-- The words are in order, and no two are equal.
abbrev pub InOrder : List Line → Type 0
InOrder es = Strict strings (words es)

-- `s` counted once more in a list of words in order. A count is an unsigned int.
unfoldable pub bump : Word → List Line → List Line
bump s [] = (1, s) ∷ []
bump s ((c, w) ∷ es) = elim (strcmp s w) [
  | Ordering.lt ↦ (1, s) ∷ (c, w) ∷ es
  | Ordering.eq ↦ ((c + 1) % 2 ^ 32, w) ∷ es
  | Ordering.gt ↦ (c, w) ∷ bump s es
]

-- The count of a word, 0 if it is not there.
unfoldable pub tally : Word → List Line → ℕ
tally s [] = 0
tally s ((c, w) ∷ es) = elim (strcmp s w) [ Ordering.eq ↦ c | _ ↦ tally s es ]

Above : Word → List Word → Type 0
Above s ws = All (λ w. strcmp s w ≡ Ordering.lt) ws

bump-Above :
    (x s : Word) (es : List Line)
    → strcmp x s ≡ Ordering.lt
    → All (λ w. strcmp x w ≡ Ordering.lt) (words es)
    → All (λ w. strcmp x w ≡ Ordering.lt) (words (bump s es))
unfolding bump
bump-Above x s [] lt above = (lt, tt)
bump-Above x s ((c, w) ∷ es) lt above = elim (Ordering-cases (strcmp s w)) [
  | inl o ↦ rw (o, bump) (lt, above)
  | inr (inl o) ↦ rw (o, bump) above
  | inr (inr o) ↦ rw (o, bump) (above.0, bump-Above x s es lt above.1)
]

pub bump-InOrder : (s : Word) (es : List Line) → InOrder es → InOrder (bump s es)
unfolding bump
bump-InOrder s [] ord = (tt, tt)
bump-InOrder s ((c, w) ∷ es) ord = elim (Ordering-cases (strcmp s w)) [
  | inl o ↦
      let P = λ (v : Word). strcmp w v ≡ Ordering.lt in
      let Q = λ (v : Word). strcmp s v ≡ Ordering.lt in
      let below : (v : Word) → P v → Q v =
        λ v lt. strcmp_trans s w v o (λ gt. ground (arith, lt, gt)) in
      rw (o, bump) ((o, All-imp P Q below (words es) ord.0), ord)
  | inr (inl o) ↦ rw (o, bump) ord
  | inr (inr o) ↦
      rw (o, bump) (bump-Above w s es (strcmp-lt_of_gt s w o) ord.0, bump-InOrder s es ord.1)
]

tally-absent :
    (s : Word) (es : List Line) → All (λ w. strcmp s w ≡ Ordering.lt) (words es) → tally s es ≡ 0
unfolding tally
tally-absent s [] above = refl
tally-absent s ((c, w) ∷ es) above = rw (above.0, tally) (tally-absent s es above.1)

tally-skip : (v w : Word) (c : ℕ) (es : List Line) → v ≢ w → tally v ((c, w) ∷ es) ≡ tally v es
unfolding tally
tally-skip v w c es ne = elim (Ordering-cases (strcmp v w)) [
  | inl o ↦ rw (o, tally) refl
  | inr (inl o) ↦ absurd (ne (strcmp-equal v w o))
  | inr (inr o) ↦ rw (o, tally) refl
]

-- An equal rest gives an equal count.
tally-cons :
    (v w : Word) (c : ℕ) (es fs : List Line)
    → tally v es ≡ tally v fs
    → tally v ((c, w) ∷ es) ≡ tally v ((c, w) ∷ fs)
unfolding tally
tally-cons v w c es fs e = elim (Ordering-cases (strcmp v w)) [
  | inl o ↦ rw (o, tally) e
  | inr (inl o) ↦ rw (o, tally) refl
  | inr (inr o) ↦ rw (o, tally) e
]

-- The counts after `bump`: one more for the word, modulo 2 ^ 32, and the same for all others.
pub bump-tally :
    (s : Word) (es : List Line)
    → InOrder es
    → (tally s (bump s es) ≡ (tally s es + 1) % 2 ^ 32)
      × ((v : Word) → v ≢ s → tally v (bump s es) ≡ tally v es)
unfolding bump tally
bump-tally s [] ord = (rw (strcmp_refl s, bump, tally) refl, λ v ne. tally-skip v s 1 [] ne)
bump-tally s ((c, w) ∷ es) ord = elim (Ordering-cases (strcmp s w)) [
  | inl o ↦
      let P = λ (v : Word). strcmp w v ≡ Ordering.lt in
      let Q = λ (v : Word). strcmp s v ≡ Ordering.lt in
      let below : (v : Word) → P v → Q v =
        λ v lt. strcmp_trans s w v o (λ gt. ground (arith, lt, gt)) in
      rw (o, bump)
        (
          rw (strcmp_refl s, o, tally, tally-absent s es (All-imp P Q below (words es) ord.0)) refl,
          λ v ne. tally-skip v s 1 ((c, w) ∷ es) ne,
        )
  | inr (inl o) ↦
      let other : (v : Word) → v ≢ s → v ≢ w = λ v ne e. ne (e ∙ sym (strcmp-equal s w o)) in
      rw (o, bump)
        (
          rw (o, tally) refl,
          λ v ne.
              tally-skip v w ((c + 1) % 2 ^ 32) es (other v ne)
              ∙ sym (tally-skip v w c es (other v ne)),
        )
  | inr (inr o) ↦
      let rest = bump-tally s es ord.1 in
      rw (o, bump) (rw (o, tally) rest.0, λ v ne. tally-cons v w c (bump s es) es (rest.1 v ne))
]
