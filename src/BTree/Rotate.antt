-- ===== src/BTree/Rotate.antt =====
-- Case 3a of `nodedeletekey` of btree-1.0/bt_code.c: a key moves from a sibling.
use linux_examples.Base.{
  ℕ, suc, ◌+◌, ◌≡◌, ◌∙◌, sym, ap, subst, refl, Bool, some, List, [], ◌∷◌, ◌++◌, append_assoc, arith,
  length, length-append, get_elem?,
}
use linux_examples.BTree.Level.{
  IsLevel, IsLevel-IsTree, IsTree-IsLevel, leaf-eq, IsLevel-join, weave-join, IsLevel-front,
  IsLevel-back, weave-part, inorder-IsLevel,
}
use linux_examples.BTree.Lists.{length-take, length-drop}
use linux_examples.BTree.Node.{Node, node, unlisted, take, drop, is_leaf, keys_of, children_of}
use linux_examples.BTree.Shape.{inorder, weave, IsTree}

module _ {A : Type 0} where
  empty : (xs : List A) → length xs ≡ 0 → xs ≡ []
  empty [] e = refl
  empty (x ∷ xs) e = absurd (omega (arith, e))

module _ {K : Type 0} (s h : ℕ) where
  -- The node `y` less its last key, at index `n`, and its last child, and `x` with `k` and that
  -- child before it.
  abbrev pub shorter_end : ℕ → Node K → Node K
  shorter_end n y = node (is_leaf y) (take n (keys_of y)) (unlisted (take (suc n) (children_of y)))

  abbrev pub longer_start : ℕ → Node K → K → Node K → Node K
  longer_start n y k x =
      node (is_leaf x) (k ∷ keys_of x) (unlisted (drop (suc n) (children_of y) ++ children_of x))

  abbrev pub longer_end : Node K → K → Node K → Node K
  longer_end x k y =
      node (is_leaf x) (keys_of x ++ k ∷ []) (unlisted (children_of x ++ take 1 (children_of y)))

  abbrev pub shorter_start : Node K → Node K
  shorter_start y = node (is_leaf y) (drop 1 (keys_of y)) (unlisted (drop 1 (children_of y)))

  -- A key `up` between `a` and `b` in place of `k` between `y` and `x`, with the same keys in
  -- order.
  pub record Rotated (y x : Node K) (k : K) (a : Node K) (up : K) (b : Node K) : Type 0 where
    pub a_tree : IsTree s h a
    pub b_tree : IsTree s h b
    pub same : inorder a ++ up ∷ inorder b ≡ inorder y ++ k ∷ inorder x

  pub shorter_end-Rotated :
      (n : ℕ) (y x : Node K) (k up : K)
      → IsTree s h y
      → IsTree s h x
      → length (keys_of y) ≡ suc n
      → get_elem? (keys_of y) n ≡ some up
      → Rotated y x k (shorter_end n y) up (longer_start n y k x)
        × (length (keys_of (shorter_end n y)) ≡ n)
        × ((front : List K) × (inorder (longer_start n y k x) ≡ front ++ inorder x))
  unfolding weave
  shorter_end-Rotated n y x k up ty tx size at =
      let ks = keys_of y in
      let cs = children_of y in
      let a = IsLevel-IsTree s h y ty in
      let b = IsLevel-IsTree s h x tx in
      let front = IsLevel-front s h (is_leaf y) n ks cs (omega arith) a in
      let none_left : drop (suc n) ks ≡ [] =
        empty (drop (suc n) ks) (omega (arith, length-drop (suc n) ks)) in
      let back =
        subst (λ (l : List K). IsLevel s h (is_leaf y) l (drop (suc n) cs)) none_left
          (IsLevel-back s h (is_leaf y) n ks cs (omega arith) a) in
      let flag =
        leaf-eq s h (is_leaf y) (is_leaf x) [] (keys_of x) (drop (suc n) cs) (children_of x) back
          b in
      let start =
        subst (λ (l : Bool). IsLevel s h l (k ∷ keys_of x) (drop (suc n) cs ++ children_of x)) flag
          (IsLevel-join s h (is_leaf y) (is_leaf x) [] (keys_of x) k (drop (suc n) cs)
            (children_of x) back b) in
      let lead = weave [] (unlisted (drop (suc n) cs)) in
      let joined : weave (k ∷ keys_of x) (unlisted (drop (suc n) cs ++ children_of x))
          ≡ lead ++ k ∷ inorder x =
        weave-join s h (is_leaf y) (is_leaf x) [] (keys_of x) k (drop (suc n) cs) (children_of x)
          back b
        ∙ ap (λ (l : List K). lead ++ k ∷ l) (sym (inorder-IsLevel x)) in
      let rest = weave (take n ks) (unlisted (take (suc n) cs)) in
      let parted : inorder y ≡ rest ++ up ∷ lead =
        inorder-IsLevel y
        ∙ weave-part s h (is_leaf y) n ks up cs at (omega arith) a
        ∙ ap (λ (l : List K). rest ++ up ∷ weave l (unlisted (drop (suc n) cs))) none_left in
      (
        record {
          a_tree = IsTree-IsLevel s h (is_leaf y) (take n ks) (take (suc n) cs) front;
          b_tree =
              IsTree-IsLevel s h (is_leaf x) (k ∷ keys_of x) (drop (suc n) cs ++ children_of x)
                start;
          same =
              ap (λ (l : List K). rest ++ up ∷ l) joined
              ∙ sym (append_assoc rest (up ∷ lead) (k ∷ inorder x))
              ∙ ap (λ (l : List K). l ++ k ∷ inorder x) (sym parted);
        },
        length-take n ks (omega arith),
        (lead ++ k ∷ [], joined ∙ sym (append_assoc lead (k ∷ []) (inorder x))),
      )

  pub shorter_start-Rotated :
      (n : ℕ) (x y : Node K) (k up : K)
      → IsTree s h x
      → IsTree s h y
      → length (keys_of y) ≡ suc n
      → get_elem? (keys_of y) 0 ≡ some up
      → Rotated x y k (longer_end x k y) up (shorter_start y)
        × (length (keys_of (shorter_start y)) ≡ n)
        × (length (keys_of (longer_end x k y)) ≡ length (keys_of x) + 1)
        × ((back : List K) × (inorder (longer_end x k y) ≡ inorder x ++ back))
  unfolding weave
  shorter_start-Rotated n x y k up tx ty size at =
      let ks = keys_of y in
      let cs = children_of y in
      let a = IsLevel-IsTree s h y ty in
      let b = IsLevel-IsTree s h x tx in
      let none_left : take 0 ks ≡ [] = empty (take 0 ks) (length-take 0 ks (omega arith)) in
      let front =
        subst (λ (l : List K). IsLevel s h (is_leaf y) l (take 1 cs)) none_left
          (IsLevel-front s h (is_leaf y) 0 ks cs (omega arith) a) in
      let back = IsLevel-back s h (is_leaf y) 0 ks cs (omega arith) a in
      let lead = weave [] (unlisted (take 1 cs)) in
      let rest = weave (drop 1 ks) (unlisted (drop 1 cs)) in
      let joined : weave (keys_of x ++ k ∷ []) (unlisted (children_of x ++ take 1 cs))
          ≡ inorder x ++ k ∷ lead =
        weave-join s h (is_leaf x) (is_leaf y) (keys_of x) [] k (children_of x) (take 1 cs) b front
        ∙ ap (λ (l : List K). l ++ k ∷ lead) (sym (inorder-IsLevel x)) in
      let parted : inorder y ≡ lead ++ up ∷ rest =
        inorder-IsLevel y
        ∙ weave-part s h (is_leaf y) 0 ks up cs at (omega arith) a
        ∙ ap (λ (l : List K). weave l (unlisted (take 1 cs)) ++ up ∷ rest) none_left in
      (
        record {
          a_tree =
              IsTree-IsLevel s h (is_leaf x) (keys_of x ++ k ∷ []) (children_of x ++ take 1 cs) (
                IsLevel-join s h (is_leaf x) (is_leaf y) (keys_of x) [] k (children_of x)
                  (take 1 cs) b front);
          b_tree = IsTree-IsLevel s h (is_leaf y) (drop 1 ks) (drop 1 cs) back;
          same =
              ap (λ (l : List K). l ++ up ∷ rest) joined
              ∙ append_assoc (inorder x) (k ∷ lead) (up ∷ rest)
              ∙ ap (λ (l : List K). inorder x ++ k ∷ l) (sym parted);
        },
        omega (arith, length-drop 1 ks),
        omega (arith, length-append (keys_of x) (k ∷ [])),
        (k ∷ lead, joined),
      )
