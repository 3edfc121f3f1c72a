-- ===== src/BTree/MinMax.antt =====
-- `findminnode` and `findmaxnode` of btree-1.0/bt_code.c.
use linux_examples.Base.{
  ℕ, zero, suc, ◌-◌, ◌≤◌, ◌<◌, ◌≡◌, ◌∙◌, sym, ap, refl, some, List, [], ◌∷◌, ◌++◌, append_assoc,
  append-nil, arith, length, get_elem?,
}
use linux_examples.BTree.Context.{Context-at}
use linux_examples.BTree.Lists.{All-get_elem?, reached}
use linux_examples.BTree.Node.{Node, node, listed, keys_of, find_max_node, find_min_node}
use linux_examples.BTree.Shape.{inorder, weave, weave_leaf, unlisted-listed, IsTree, Fits}

module _ {K : Type 0} where
  last_key :
      (xs : List K)
      → 1 ≤ length xs
      → (a : K) × (front : List K) × (get_elem? xs (length xs - 1) ≡ some a)
        × (xs ≡ front ++ a ∷ [])
  last_key [] more = absurd (omega arith)
  last_key (x ∷ []) more = (x, [], refl, refl)
  last_key (x ∷ y ∷ xs) more =
      let (a, front, at, e) = last_key (y ∷ xs) (omega arith) in
      let one : length (x ∷ y ∷ xs) - 1 ≡ suc (length (y ∷ xs) - 1) = omega arith in
      (a, x ∷ front, rw one at, ap (λ (l : List K). x ∷ l) e)

  first_key :
      (xs : List K)
      → 1 ≤ length xs
      → (a : K) × (back : List K) × (get_elem? xs 0 ≡ some a) × (xs ≡ a ∷ back)
  first_key [] more = absurd (omega arith)
  first_key (x ∷ xs) more = (x, xs, refl, refl)

  module _ (s : ℕ) (two : 1 ≤ s) where
    find_max_node-last :
        (fuel h : ℕ) (x : Node K)
        → h < fuel
        → IsTree s h x
        → 1 ≤ length (keys_of x)
        → (a : K) × (front : List K) × (find_max_node fuel x ≡ some a)
          × (inorder x ≡ front ++ a ∷ [])
    unfolding find_max_node weave
    find_max_node-last zero h x enough tree more = absurd (omega arith)
    find_max_node-last (suc fuel) zero (node leaf keys children) enough tree more =
        let (a, front, at, e) = last_key keys more in
        (a, front, (rw (tree.0, at) refl), weave_leaf keys children tree.1 ∙ e)
    find_max_node-last (suc fuel) (suc h) (node leaf keys children) enough tree more =
        let cs = listed children in
        let P : Node K → Type 0 = λ c. Fits s c × IsTree s h c in
        let (c, at) = reached cs (length keys) (omega (arith, tree.1)) in
        let fit = All-get_elem? P cs (length keys) c tree.2 at in
        let (a, front, eq, e) =
          find_max_node-last fuel h c (omega arith) fit.1 (omega (arith, fit.0.0)) in
        let w = Context-at (length keys) keys cs c tree.1 at in
        (
          a,
          w.pre ++ front,
          (rw (tree.0, at) eq),
          ap (weave keys) (sym (unlisted-listed children))
              ∙ w.here
              ∙ ap (λ (l : List K). w.pre ++ (inorder c ++ l)) (w.last refl)
              ∙ ap (λ (l : List K). w.pre ++ l) (append-nil (inorder c) ∙ e)
              ∙ sym (append_assoc w.pre front (a ∷ [])),
        )

    find_min_node-first :
        (fuel h : ℕ) (x : Node K)
        → h < fuel
        → IsTree s h x
        → 1 ≤ length (keys_of x)
        → (a : K) × (back : List K) × (find_min_node fuel x ≡ some a) × (inorder x ≡ a ∷ back)
    unfolding find_min_node weave
    find_min_node-first zero h x enough tree more = absurd (omega arith)
    find_min_node-first (suc fuel) zero (node leaf keys children) enough tree more =
        let (a, back, at, e) = first_key keys more in
        (a, back, (rw (tree.0, at) refl), weave_leaf keys children tree.1 ∙ e)
    find_min_node-first (suc fuel) (suc h) (node leaf keys children) enough tree more =
        let cs = listed children in
        let P : Node K → Type 0 = λ c. Fits s c × IsTree s h c in
        let (c, at) = reached cs 0 (omega (arith, tree.1)) in
        let fit = All-get_elem? P cs 0 c tree.2 at in
        let (a, back, eq, e) =
          find_min_node-first fuel h c (omega arith) fit.1 (omega (arith, fit.0.0)) in
        let w = Context-at 0 keys cs c tree.1 at in
        (
          a,
          back ++ w.post,
          (rw (tree.0, at) eq),
          ap (weave keys) (sym (unlisted-listed children))
              ∙ w.here
              ∙ ap (λ (l : List K). l ++ (inorder c ++ w.post)) (w.first refl)
              ∙ ap (λ (l : List K). l ++ w.post) e,
        )

    -- In a tree whose root has a key, with t at least 2 and fuel above the height, findmaxnode ends
    -- with the last of the keys in order, and findminnode with the first.
    pub find_ends :
        (fuel h : ℕ) (x : Node K)
        → h < fuel
        → IsTree s h x
        → 1 ≤ length (keys_of x)
        → ((a : K) × (front : List K) × (find_max_node fuel x ≡ some a)
            × (inorder x ≡ front ++ a ∷ []))
          × ((a : K) × (back : List K) × (find_min_node fuel x ≡ some a) × (inorder x ≡ a ∷ back))
    find_ends fuel h x enough tree more = (
      find_max_node-last fuel h x enough tree more,
      find_min_node-first fuel h x enough tree more,
    )
