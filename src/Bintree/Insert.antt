-- ===== src/Bintree/Insert.antt =====
-- The insertion of binarytree/tree.c: what it does to the words and their counts.
use Prim.Native.Nat.{Ordering}
use linux_examples.Base.{
  ℕ, ◌+◌, ◌%◌, ◌^◌, ◌≡◌, ◌≢◌, sym, ap, subst, refl, inl, inr, Option, some, List, [], ◌∷◌, ◌++◌,
  All, arith, length, ◌∙◌,
}
use linux_examples.BTree.Order.{Ordering-cases}
use linux_examples.BTree.Removes.{Strict-front, Strict-back}
use linux_examples.Bintree.{
  Word, Line, strcmp, Tree, null, tnode, sizeof_tnode, insert_subtree, walk_subtree,
}
use linux_examples.Bintree.Tally.{words, InOrder, bump, bump-InOrder}
use linux_examples.Bintree.Words.{strings, strcmp-lt_of_gt, strcmp-gt_of_lt, strcmp_trans}

words-append : (xs ys : List Line) → words (xs ++ ys) ≡ words xs ++ words ys
words-append [] ys = refl
words-append (x ∷ xs) ys = ap (λ (l : List Word). x.1 ∷ l) (words-append xs ys)

pub InOrder-left :
    (xs : List Line) (e : Line) (ys : List Line) → InOrder (xs ++ e ∷ ys) → InOrder xs
InOrder-left xs e ys ord =
    Strict-front strings (words xs) (words (e ∷ ys)) (rw (words-append xs (e ∷ ys)) at ord)

pub InOrder-right :
    (xs : List Line) (e : Line) (ys : List Line) → InOrder (xs ++ e ∷ ys) → InOrder ys
InOrder-right xs e ys ord =
    (Strict-back strings (words xs) (words (e ∷ ys)) (rw (words-append xs (e ∷ ys)) at ord)).1

-- Where the word is below one of the list, only what stands before that matters.
bump-before :
    (s : Word) (xs : List Line) (c : ℕ) (w : Word) (ys : List Line)
    → strcmp s w ≡ Ordering.lt
    → bump s (xs ++ (c, w) ∷ ys) ≡ bump s xs ++ (c, w) ∷ ys
unfolding bump
bump-before s [] c w ys o = rw (o, bump) refl
bump-before s ((d, v) ∷ xs) c w ys o = elim (Ordering-cases (strcmp s v)) [
  | inl p ↦ rw (p, bump) refl
  | inr (inl p) ↦ rw (p, bump) refl
  | inr (inr p) ↦ rw (p, bump) (ap (λ (l : List Line). (d, v) ∷ l) (bump-before s xs c w ys o))
]

pub first-below :
    (v : Word) (xs : List Line) (c : ℕ) (w : Word) (ys : List Line)
    → All (λ x. strcmp v x ≡ Ordering.lt) (words (xs ++ (c, w) ∷ ys))
    → strcmp v w ≡ Ordering.lt
first-below v [] c w ys ord = ord.0
first-below v (x ∷ xs) c w ys ord = first-below v xs c w ys ord.1

-- Where it is not, what stands before is passed over.
bump-behind :
    (s : Word) (xs : List Line) (c : ℕ) (w : Word) (ys : List Line)
    → InOrder (xs ++ (c, w) ∷ ys)
    → strcmp s w ≢ Ordering.lt
    → bump s (xs ++ (c, w) ∷ ys) ≡ xs ++ bump s ((c, w) ∷ ys)
unfolding bump
bump-behind s [] c w ys ord ge = refl
bump-behind s ((d, v) ∷ xs) c w ys ord ge =
    let rest = ap (λ (l : List Line). (d, v) ∷ l) (bump-behind s xs c w ys ord.1 ge) in
    let passed : strcmp s v ≡ Ordering.gt =
      strcmp-gt_of_lt v s
        (strcmp_trans v w s (first-below v xs c w ys ord.0) (λ gt. ge (strcmp-lt_of_gt w s gt))) in
    rw (passed, bump) rest

-- What the insertion does to the list of words and counts is `bump`.
insert_subtree-walk :
    (reserve : ℕ → Option ℕ) (t : Tree) (s : Word)
    → ((n : ℕ) → (p : ℕ) × (reserve n ≡ some p))
    → InOrder (walk_subtree t)
    → (t' : Tree) × (insert_subtree reserve t s ≡ some t')
      × (walk_subtree t' ≡ bump s (walk_subtree t))
unfolding insert_subtree walk_subtree bump
insert_subtree-walk reserve null s given ord =
    let (p, e) = given (sizeof_tnode + (length s + 1)) in
    (tnode p null null 1 s, rw (e, insert_subtree) refl, refl)
insert_subtree-walk reserve (tnode p l r c w) s given ord = elim (Ordering-cases (strcmp s w)) [
  | inl o ↦
      let (l', e, same) =
        insert_subtree-walk reserve l s given
          (InOrder-left (walk_subtree l) (c, w) (walk_subtree r) ord) in
      (
        tnode p l' r c w,
        rw (o, e, insert_subtree) refl,
        rw (same, walk_subtree) (sym (bump-before s (walk_subtree l) c w (walk_subtree r) o)),
      )
  | inr (inl o) ↦ (
    tnode p l r ((c + 1) % 2 ^ 32) w,
    rw (o, insert_subtree) refl,
    sym (
        bump-behind s (walk_subtree l) c w (walk_subtree r) ord (λ lt. ground (arith, o, lt))
        ∙ ap (λ (x : List Line). walk_subtree l ++ x) (rw (o, bump) refl)),
  )
  | inr (inr o) ↦
      let (r', e, same) =
        insert_subtree-walk reserve r s given
          (InOrder-right (walk_subtree l) (c, w) (walk_subtree r) ord) in
      (
        tnode p l r' c w,
        rw (o, e, insert_subtree) refl,
        sym (
            bump-behind s (walk_subtree l) c w (walk_subtree r) ord (λ lt. ground (arith, o, lt))
            ∙ rw (o, bump, same) refl),
      )
]

-- tree_insert of a word into a tree whose words are in order, where pmemalloc_reserve gives memory:
-- it ends, and the nodes, in order, are those from before with the word counted once more, in its
-- node or in a new one at its place; the words stay in order.
pub insert_subtree-bump :
    (reserve : ℕ → Option ℕ) (t : Tree) (s : Word)
    → ((n : ℕ) → (p : ℕ) × (reserve n ≡ some p))
    → InOrder (walk_subtree t)
    → (t' : Tree) × (insert_subtree reserve t s ≡ some t')
      × (walk_subtree t' ≡ bump s (walk_subtree t))
      × InOrder (walk_subtree t')
insert_subtree-bump reserve t s given ord =
    let (t', e, same) = insert_subtree-walk reserve t s given ord in
    (t', e, same, subst InOrder (sym same) (bump-InOrder s (walk_subtree t) ord))
