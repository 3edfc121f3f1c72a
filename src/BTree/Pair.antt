-- ===== src/BTree/Pair.antt =====
-- Two neighbours among the children of a node of btree-1.0/bt_code.c, and the key between them.
use linux_examples.Base.{
  ℕ, zero, suc, ◌+◌, ◌<◌, ◌≡◌, ◌∙◌, sym, ap, refl, some, List, [], ◌∷◌, ◌++◌, append_assoc, All,
  arith, length, get_elem?, set,
}
use linux_examples.BTree.Delete.{remove_at}
use linux_examples.BTree.Node.{Node, Nodes, cons, unlisted}
use linux_examples.BTree.Shape.{inorder, weave}

module _ {A : Type 0} where
  pub length-remove_at :
      (i : ℕ) (xs : List A) → i < length xs → length (remove_at i xs) + 1 ≡ length xs
  unfolding remove_at
  length-remove_at i [] lt = absurd (omega arith)
  length-remove_at zero (x ∷ xs) lt = omega arith
  length-remove_at (suc i) (x ∷ xs) lt = omega (arith, length-remove_at i xs (omega arith))

  pub All-remove_at : (P : A → Type 0) (i : ℕ) (xs : List A) → All P xs → All P (remove_at i xs)
  unfolding remove_at
  All-remove_at P zero [] p = tt
  All-remove_at P (suc i) [] p = tt
  All-remove_at P zero (x ∷ xs) p = p.1
  All-remove_at P (suc i) (x ∷ xs) p = (p.0, All-remove_at P i xs p.1)

  pub get_elem?-remove_after :
      (i : ℕ) (xs : List A) (a : A)
      → get_elem? xs i ≡ some a
      → get_elem? (remove_at (suc i) xs) i ≡ some a
  unfolding remove_at
  get_elem?-remove_after i [] a h = absurd (ground (arith, h))
  get_elem?-remove_after zero (x ∷ []) a h = h
  get_elem?-remove_after zero (x ∷ y ∷ xs) a h = h
  get_elem?-remove_after (suc i) (x ∷ xs) a h = get_elem?-remove_after i xs a h

module _ {K : Type 0} where
  -- The keys of a node whose children `m` and `m + 1` are `y` and `z`, with `k` between: as they
  -- are, with the three, or one child, changed, and with one child in place of the three.
  pub record Pair (m : ℕ) (keys : List K) (cs : List (Node K)) (y z : Node K) (k : K) : Type 0 where
    pub pre : List K
    pub post : List K
    pub here : weave keys (unlisted cs) ≡ pre ++ (inorder y ++ k ∷ (inorder z ++ post))
    pub both :
        (y' : Node K) (k' : K) (z' : Node K)
        → weave (set keys m k') (unlisted (set (set cs m y') (suc m) z'))
          ≡ pre ++ (inorder y' ++ k' ∷ (inorder z' ++ post))
    pub low :
        (y' : Node K) (k' : K)
        → weave (set keys m k') (unlisted (set cs m y'))
          ≡ pre ++ (inorder y' ++ k' ∷ (inorder z ++ post))
    pub high :
        (k' : K) (z' : Node K)
        → weave (set keys m k') (unlisted (set cs (suc m) z'))
          ≡ pre ++ (inorder y ++ k' ∷ (inorder z' ++ post))
    pub one :
        (c : Node K)
        → weave (remove_at m keys) (unlisted (remove_at (suc m) (set cs m c)))
          ≡ pre ++ (inorder c ++ post)

  weave_first :
      (ks : List K) (cs : Nodes K)
      → (post : List K) × ((z : Node K) → weave ks (cons z cs) ≡ inorder z ++ post)
  unfolding weave
  weave_first [] cs = (weave [] cs, λ z. refl)
  weave_first (k ∷ ks) cs = (k ∷ weave ks cs, λ z. refl)

  Pair-next :
      (m : ℕ) (a : K) (keys : List K) (d : Node K) (cs : List (Node K)) (y z : Node K) (k : K)
      → Pair m keys cs y z k
      → Pair (suc m) (a ∷ keys) (d ∷ cs) y z k
  unfolding weave remove_at
  Pair-next m a keys d cs y z k w =
      let front = λ (l : List K). inorder d ++ a ∷ l in
      let move : (xs : List K) → front (w.pre ++ xs) ≡ front w.pre ++ xs =
        λ xs. sym (append_assoc (inorder d) (a ∷ w.pre) xs) in
      record {
        pre = front w.pre;
        post = w.post;
        here = ap front w.here ∙ move (inorder y ++ k ∷ (inorder z ++ w.post));
        both = λ y' k' z'.
            ap front (w.both y' k' z') ∙ move (inorder y' ++ k' ∷ (inorder z' ++ w.post));
        low = λ y' k'. ap front (w.low y' k') ∙ move (inorder y' ++ k' ∷ (inorder z ++ w.post));
        high = λ k' z'. ap front (w.high k' z') ∙ move (inorder y ++ k' ∷ (inorder z' ++ w.post));
        one = λ c. ap front (w.one c) ∙ move (inorder c ++ w.post);
      }

  pub Pair-at :
      (m : ℕ) (keys : List K) (cs : List (Node K)) (y z : Node K) (k : K)
      → get_elem? keys m ≡ some k
      → get_elem? cs m ≡ some y
      → get_elem? cs (suc m) ≡ some z
      → Pair m keys cs y z k
  unfolding weave remove_at
  Pair-at m [] cs y z k at at_y at_z = absurd (ground (arith, at))
  Pair-at zero (a ∷ keys) [] y z k at at_y at_z = absurd (ground (arith, at_y))
  Pair-at zero (a ∷ keys) (d ∷ []) y z k at at_y at_z = absurd (ground (arith, at_z))
  Pair-at zero (a ∷ keys) (d ∷ e ∷ cs) y z k at at_y at_z =
      let (post, first) = weave_first keys (unlisted cs) in
      let same_y : d ≡ y = cc at_y in
      let same_z : e ≡ z = cc at_z in
      let same_k : a ≡ k = cc at in
      record {
        pre = [];
        post = post;
        here = rw (same_y, same_z, same_k) (ap (λ (l : List K). inorder y ++ k ∷ l) (first z));
        both = λ y' k' z'. ap (λ (l : List K). inorder y' ++ k' ∷ l) (first z');
        low = λ y' k'. rw same_z (ap (λ (l : List K). inorder y' ++ k' ∷ l) (first z));
        high = λ k' z'. rw same_y (ap (λ (l : List K). inorder y ++ k' ∷ l) (first z'));
        one = λ c. first c;
      }
  Pair-at (suc m) (a ∷ keys) [] y z k at at_y at_z = absurd (ground (arith, at_y))
  Pair-at (suc m) (a ∷ keys) (d ∷ cs) y z k at at_y at_z =
      Pair-next m a keys d cs y z k (Pair-at m keys cs y z k at at_y at_z)
