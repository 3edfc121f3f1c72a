-- ===== src/BTree/Shape.antt =====
-- The shape of a B-tree of btree-1.0/bt_code.c, and the keys that it holds.
use linux_examples.Base.{
  ℕ, zero, suc, ◌+◌, ◌*◌, ◌≤◌, ◌≡◌, refl, ap, true, false, List, [], ◌∷◌, ◌++◌, All, length, ◌⊎◌,
  arith,
}
use linux_examples.BTree.{Compare}
use linux_examples.BTree.Node.{Node, Nodes, node, nil, cons, listed, unlisted, keys_of}
use linux_examples.BTree.Order.{Sorted}

module _ {K : Type 0} where
  abbrev pub children_below : Node K → Nodes K
  children_below (node leaf keys children) = children

-- The keys of a tree in order: those of each child come before the key at its index.
unfoldable mutual
  pub inorder : {K : Type 0} → Node K → List K
  inorder (node leaf keys children) = weave keys children

  pub weave : {K : Type 0} → List K → Nodes K → List K
  weave keys nil = keys
  weave [] (cons c cs) = inorder c ++ weave [] cs
  weave (k ∷ ks) (cons c cs) = inorder c ++ k ∷ weave ks cs

module _ {K : Type 0} where
  pub unlisted-listed : (children : Nodes K) → unlisted (listed children) ≡ children
  unlisted-listed nil = refl
  unlisted-listed (cons c cs) = ap (cons c) (unlisted-listed cs)

  pub listed-unlisted : (cs : List (Node K)) → listed (unlisted cs) ≡ cs
  listed-unlisted [] = refl
  listed-unlisted (c ∷ cs) = ap (λ (l : List (Node K)). c ∷ l) (listed-unlisted cs)

  pub weave_leaf :
      (keys : List K) (children : Nodes K) → children ≡ nil → weave keys children ≡ keys
  unfolding weave
  weave_leaf [] nil e = refl
  weave_leaf (x ∷ xs) nil e = refl
  weave_leaf keys (cons c cs) e = absurd (ground (arith, e))

  -- What a node other than the root holds, where t is `suc s`: from t - 1 to 2t - 1 keys.
  abbrev pub Fits : ℕ → Node K → Type 0
  Fits s x = (s ≤ length (keys_of x)) × (length (keys_of x) ≤ 2 * s + 1)

  -- A tree whose leaves are all at depth `h`, with a child on both sides of each key of an inner
  -- node.
  abbrev pub IsTree : ℕ → ℕ → Node K → Type 0
  IsTree s zero (node leaf keys children) = (leaf ≡ true) × (children ≡ nil)
  IsTree s (suc h) (node leaf keys children) =
      (leaf ≡ false)
      × (length (listed children) ≡ suc (length keys))
      × All (λ c. Fits s c × IsTree s h c) (listed children)

  module _ (compare : Compare K) where
    -- What makes the root of a tree: it may have fewer keys, but an inner one has one at least.
    pub record IsBtree (s h : ℕ) (r : Node K) : Type 0 where
      pub tree : IsTree s h r
      pub few : length (keys_of r) ≤ 2 * s + 1
      pub some_keys : (h ≡ 0) ⊎ (1 ≤ length (keys_of r))
      pub sorted : Sorted compare (inorder r)
