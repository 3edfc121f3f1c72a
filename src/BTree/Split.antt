-- ===== src/BTree/Split.antt =====
-- `btreesplitchild` of btree-1.0/bt_code.c and the order of the keys.
use linux_examples.Base.{
  ℕ, zero, suc, ◌+◌, ◌-◌, ◌*◌, ◌^◌, ◌<◌, ◌≤◌, ◌≡◌, ◌∙◌, sym, ap, refl, Bool, some, List, [], ◌∷◌,
  ◌++◌, append_assoc, append-nil, arith, length, get_elem?, set, ◌⊎◌, inl, inr,
}
use linux_examples.BTree.Lists.{
  take-drop, parted, reached, length-take, length-drop, All-take, All-drop,
}
use linux_examples.BTree.Shape.{
  children_below, inorder, weave, listed-unlisted, unlisted-listed, IsTree, Fits,
}
use linux_examples.BTree.Node.{
  Node, Nodes, node, nil, cons, listed, unlisted, take, drop, insert_at, halves, split_child,
  fits-le, keys_of, children_of,
}

module _ {K : Type 0} where
  pub weave-append :
      (ks₁ ks₂ : List K) (m : K) (cs₁ cs₂ : List (Node K))
      → length cs₁ ≡ suc (length ks₁)
      → weave (ks₁ ++ m ∷ ks₂) (unlisted (cs₁ ++ cs₂))
        ≡ weave ks₁ (unlisted cs₁) ++ m ∷ weave ks₂ (unlisted cs₂)
  unfolding weave
  weave-append ks₁ ks₂ m [] cs₂ len = absurd (omega arith)
  weave-append [] ks₂ m (c ∷ []) cs₂ len =
      ap (λ (l : List K). l ++ m ∷ weave ks₂ (unlisted cs₂)) (sym (append-nil (inorder c)))
  weave-append [] ks₂ m (c ∷ d ∷ cs₁) cs₂ len = absurd (omega arith)
  weave-append (k ∷ ks₁) ks₂ m (c ∷ cs₁) cs₂ len =
      ap (λ (l : List K). inorder c ++ k ∷ l) (weave-append ks₁ ks₂ m cs₁ cs₂ (omega arith))
      ∙ sym (append_assoc (inorder c) (k ∷ weave ks₁ (unlisted cs₁)) (m ∷ weave ks₂ (unlisted cs₂)))

  regroup :
      (front : List K) (m : K) (back whole rest : List K)
      → whole ≡ front ++ m ∷ back
      → front ++ m ∷ (back ++ rest) ≡ whole ++ rest
  regroup front m back whole rest e =
      sym (append_assoc front (m ∷ back) rest) ∙ ap (λ (l : List K). l ++ rest) (sym e)

  weave-halves :
      (keys : List K) (cs : List (Node K)) (c y' z : Node K) (m : K)
      → inorder c ≡ inorder y' ++ m ∷ inorder z
      → weave (insert_at 0 m keys) (unlisted (y' ∷ insert_at 0 z cs))
        ≡ weave keys (cons c (unlisted cs))
  unfolding weave insert_at
  weave-halves [] [] c y' z m e = regroup (inorder y') m (inorder z) (inorder c) (weave [] nil) e
  weave-halves [] (d ∷ cs) c y' z m e =
      regroup (inorder y') m (inorder z) (inorder c) (weave [] (cons d (unlisted cs))) e
  weave-halves (k ∷ ks) [] c y' z m e =
      regroup (inorder y') m (inorder z) (inorder c) (k ∷ weave ks nil) e
  weave-halves (k ∷ ks) (d ∷ cs) c y' z m e =
      regroup (inorder y') m (inorder z) (inorder c) (k ∷ weave ks (cons d (unlisted cs))) e

  pub weave-insert_at :
      (i : ℕ) (keys : List K) (cs : List (Node K)) (y y' z : Node K) (m : K)
      → i ≤ length keys
      → get_elem? cs i ≡ some y
      → inorder y ≡ inorder y' ++ m ∷ inorder z
      → weave (insert_at i m keys) (unlisted (insert_at (suc i) z (set cs i y')))
        ≡ weave keys (unlisted cs)
  unfolding weave insert_at
  weave-insert_at i keys [] y y' z m le at e = absurd (ground (arith, at))
  weave-insert_at zero keys (c ∷ cs) y y' z m le at e =
      weave-halves keys cs c y' z m (ap inorder {x = c} {y = y} (cc at) ∙ e)
  weave-insert_at (suc i) [] (c ∷ cs) y y' z m le at e = absurd (omega arith)
  weave-insert_at (suc i) (k ∷ ks) (c ∷ cs) y y' z m le at e =
      ap (λ (l : List K). inorder c ++ k ∷ l) (weave-insert_at i ks cs y y' z m (omega arith) at e)

  leaf_weave :
      (s : ℕ) (keys : List K) (children : Nodes K) (m : K)
      → length keys ≡ 2 * s + 1
      → children ≡ nil
      → get_elem? keys s ≡ some m
      → weave keys children
        ≡ weave (take s keys) (unlisted (take (suc s) (listed children)))
          ++ m ∷ weave (take s (drop (suc s) keys)) (unlisted (drop (suc s) (listed children)))
  unfolding weave take drop
  leaf_weave s keys nil m len e at = parted s keys m (omega arith) at
  leaf_weave s keys (cons c cs) m len e at = absurd (ground (arith, e))

  halves-weave :
      (s : ℕ) (keys : List K) (children : Nodes K) (m : K)
      → length keys ≡ 2 * s + 1
      → (children ≡ nil) ⊎ (length (listed children) ≡ 2 * s + 2)
      → get_elem? keys s ≡ some m
      → weave keys children
        ≡ weave (take s keys) (unlisted (take (suc s) (listed children)))
          ++ m ∷ weave (take s (drop (suc s) keys)) (unlisted (drop (suc s) (listed children)))
  halves-weave s keys children m len (inl e) at = leaf_weave s keys children m len e at
  halves-weave s keys children m len (inr many) at =
      ap (λ (l : List K). weave l children) (parted s keys m (omega arith) at)
      ∙ ap (weave (take s keys ++ m ∷ take s (drop (suc s) keys)))
          (sym (unlisted-listed children) ∙ ap unlisted (sym (take-drop (suc s) (listed children))))
      ∙ weave-append (take s keys) (take s (drop (suc s) keys)) m (take (suc s) (listed children))
          (drop (suc s) (listed children))
          (omega (
            arith,
            length-take s keys (omega arith),
            length-take (suc s) (listed children) (omega arith),
          ))

  halved :
      (s : ℕ) (leaf : Bool) (keys : List K) (children : Nodes K) (m : K)
      → get_elem? keys s ≡ some m
      → halves (suc s) (node leaf keys children)
        ≡ some (
          node leaf (take s keys) (unlisted (take (suc s) (listed children))),
          m,
          node leaf (take s (drop (suc s) keys)) (unlisted (drop (suc s) (listed children))),
        )
  unfolding halves
  halved s leaf keys children m at =
      let one : suc s - 1 ≡ s = omega arith in rw (one, halves) (rw at refl)

  -- A full node, as t is `suc s`: 2t - 1 keys, and 2t children unless it is a leaf.
  pub record IsFull (s : ℕ) (y : Node K) : Type 0 where
    pub n : length (keys_of y) ≡ 2 * s + 1
    pub below : (children_below y ≡ nil) ⊎ (length (children_of y) ≡ 2 * s + 2)

  -- Where the child at index i of a node x is full, x is not, i is at most the number of its keys,
  -- and 2t - 1 is less than 2 ^ 14, btreesplitchild stays within the arrays of the nodes and puts a
  -- node with the same keys in the same order in place of x.
  pub split_child-inorder :
      (s : ℕ) (x y : Node K) (i : ℕ)
      → 2 * s + 1 < 2 ^ 14
      → length (keys_of x) ≤ 2 * s
      → i ≤ length (keys_of x)
      → get_elem? (children_of x) i ≡ some y
      → IsFull s y
      → (x' : Node K) × (split_child (suc s) x i ≡ some x') × (inorder x' ≡ inorder x)
  unfolding split_child weave
  split_child-inorder s (node leaf keys children) (node leaf' keys' children') i narrow few le at
        full =
      let middle = reached keys' s (omega (arith, full.n)) in
      let y' = node leaf' (take s keys') (unlisted (take (suc s) (listed children'))) in
      let z =
        node leaf' (take s (drop (suc s) keys')) (unlisted (drop (suc s) (listed children'))) in
      (
        node leaf (insert_at i middle.0 keys)
            (unlisted (insert_at (i + 1) z (set (listed children) i y'))),
        rw at (
            rw
              (
                halved s leaf' keys' children' middle.0 middle.1,
                fits-le s (length keys + 1) narrow (omega arith),
              )
              refl),
        ap
              (λ (j : ℕ).
                weave (insert_at i middle.0 keys)
                  (unlisted (insert_at j z (set (listed children) i y'))))
              {x = i + 1} {y = suc i} (omega arith)
            ∙ weave-insert_at i keys (listed children) (node leaf' keys' children') y' z middle.0 le
                at (halves-weave s keys' children' middle.0 full.n full.below middle.1)
            ∙ ap (weave keys) (unlisted-listed children),
      )

  -- The halves of a full node are nodes of a tree, with t - 1 keys each.
  pub record Halved (s h : ℕ) (y : Node K) : Type 0 where
    pub low : Node K
    pub middle : K
    pub high : Node K
    pub made : halves (suc s) y ≡ some (low, middle, high)
    pub n_low : length (keys_of low) ≡ s
    pub n_high : length (keys_of high) ≡ s
    pub low_tree : IsTree s h low
    pub high_tree : IsTree s h high
    pub whole : inorder y ≡ inorder low ++ middle ∷ inorder high

  no_children :
      (cs : Nodes K) (n : ℕ)
      → cs ≡ nil
      → (unlisted (take n (listed cs)) ≡ nil) × (unlisted (drop n (listed cs)) ≡ nil)
  unfolding take drop
  no_children nil zero e = (refl, refl)
  no_children nil (suc n) e = (refl, refl)
  no_children (cons c cs) n e = absurd (ground (arith, e))

  halves_tree :
      (s h : ℕ) (leaf : Bool) (keys : List K) (children : Nodes K)
      → length keys ≡ 2 * s + 1
      → IsTree s h (node leaf keys children)
      → ((children ≡ nil) ⊎ (length (listed children) ≡ 2 * s + 2))
        × IsTree s h (node leaf (take s keys) (unlisted (take (suc s) (listed children))))
        × IsTree s h
            (node leaf (take s (drop (suc s) keys)) (unlisted (drop (suc s) (listed children))))
  halves_tree s zero leaf keys children len t =
      let (low, high) = no_children children (suc s) t.1 in (inl t.1, (t.0, low), (t.0, high))
  halves_tree s (suc h) leaf keys children len t =
      let cs = listed children in
      let P : Node K → Type 0 = λ c. Fits s c × IsTree s h c in
      let up = drop (suc s) keys in
      (
        inr (omega (arith, t.1)),
        (
          t.0,
          rw (listed-unlisted (take (suc s) cs)) (
              omega (
                arith,
                length-take (suc s) cs (omega (arith, t.1)),
                length-take s keys (omega arith),
              )),
          rw (listed-unlisted (take (suc s) cs)) (All-take P (suc s) cs t.2),
        ),
        (
          t.0,
          rw (listed-unlisted (drop (suc s) cs)) (
              omega (
                arith,
                t.1,
                length-drop (suc s) cs,
                length-drop (suc s) keys,
                length-take s up (omega (arith, length-drop (suc s) keys)),
              )),
          rw (listed-unlisted (drop (suc s) cs)) (All-drop P (suc s) cs t.2),
        ),
      )

  pub halves-Halved :
      (s h : ℕ) (y : Node K) → length (keys_of y) ≡ 2 * s + 1 → IsTree s h y → Halved s h y
  unfolding weave
  halves-Halved s h (node leaf keys children) len t =
      let (m, at) = reached keys s (omega arith) in
      let (below, low, high) = halves_tree s h leaf keys children len t in
      record {
        low = node leaf (take s keys) (unlisted (take (suc s) (listed children)));
        middle = m;
        high = node leaf (take s (drop (suc s) keys)) (unlisted (drop (suc s) (listed children)));
        made = halved s leaf keys children m at;
        n_low = length-take s keys (omega arith);
        n_high = length-take s (drop (suc s) keys) (omega (arith, length-drop (suc s) keys));
        low_tree = low;
        high_tree = high;
        whole = halves-weave s keys children m len below at;
      }
