-- ===== src/BTree/Context.antt =====
-- A child of a node of btree-1.0/bt_code.c among the keys of the node's tree.
use Prim.Native.Nat.{Ordering}
use linux_examples.Base.{
  ℕ, zero, suc, ◌≡◌, ◌∙◌, sym, ap, subst, refl, ◌⊎◌, inl, inr, some, List, [], ◌∷◌, ◌++◌,
  append_assoc, All, arith, length, get_elem?, set,
}
use linux_examples.BTree.{Compare}
use linux_examples.BTree.Node.{Node, unlisted}
use linux_examples.BTree.Order.{Le, Sorted, Sorted-back, Sorted-before, gt_trans}
use linux_examples.BTree.Place.{At}
use linux_examples.BTree.Shape.{inorder, weave}

module _ {A : Type 0} where
  -- One of the elements satisfies `P`.
  abbrev pub Any : (A → Type 0) → List A → Type 0
  Any P [] = ⊥
  Any P (x ∷ xs) = P x ⊎ Any P xs

  pub Any-append : (P : A → Type 0) (xs ys : List A) → Any P (xs ++ ys) → Any P xs ⊎ Any P ys
  Any-append P [] ys a = inr a
  Any-append P (x ∷ xs) ys (inl p) = inl (inl p)
  Any-append P (x ∷ xs) ys (inr a) = elim (Any-append P xs ys a) [
    | inl b ↦ inl (inr b)
    | inr b ↦ inr b
  ]

  pub Any-front : (P : A → Type 0) (xs ys : List A) → Any P xs → Any P (xs ++ ys)
  Any-front P [] ys a = absurd a
  Any-front P (x ∷ xs) ys (inl p) = inl p
  Any-front P (x ∷ xs) ys (inr a) = inr (Any-front P xs ys a)

  pub Any-back : (P : A → Type 0) (xs ys : List A) → Any P ys → Any P (xs ++ ys)
  Any-back P [] ys a = a
  Any-back P (x ∷ xs) ys a = inr (Any-back P xs ys a)

  pub Any-not :
      (P Q : A → Type 0) (xs : List A) → ((a : A) → Q a → P a → ⊥) → All Q xs → Any P xs → ⊥
  Any-not P Q [] no_both q a = a
  Any-not P Q (x ∷ xs) no_both q (inl p) = no_both x q.0 p
  Any-not P Q (x ∷ xs) no_both q (inr a) = Any-not P Q xs no_both q.1 a

module _ {K : Type 0} where
  -- The child `c` at index `i`: what comes before its keys and behind them, for any child there.
  pub record Context (i : ℕ) (keys : List K) (cs : List (Node K)) (c : Node K) : Type 0 where
    pub pre : List K
    pub post : List K
    pub here : weave keys (unlisted cs) ≡ pre ++ (inorder c ++ post)
    pub there : (c' : Node K) → weave keys (unlisted (set cs i c')) ≡ pre ++ (inorder c' ++ post)
    pub first : i ≡ 0 → pre ≡ []
    pub last : i ≡ length keys → post ≡ []

  Context-next :
      (i : ℕ) (k : K) (ks : List K) (d : Node K) (cs : List (Node K)) (c : Node K)
      → Context i ks cs c
      → Context (suc i) (k ∷ ks) (d ∷ cs) c
  unfolding weave
  Context-next i k ks d cs c w =
      let move : (xs : List K) → inorder d ++ k ∷ (w.pre ++ xs) ≡ (inorder d ++ k ∷ w.pre) ++ xs =
        λ xs. sym (append_assoc (inorder d) (k ∷ w.pre) xs) in
      record {
        pre = inorder d ++ k ∷ w.pre;
        post = w.post;
        here = ap (λ (l : List K). inorder d ++ k ∷ l) w.here ∙ move (inorder c ++ w.post);
        there = λ c'.
            ap (λ (l : List K). inorder d ++ k ∷ l) (w.there c') ∙ move (inorder c' ++ w.post);
        first = λ z. absurd (omega (arith, z));
        last = λ e. w.last (omega (arith, e));
      }

  pub Context-at :
      (i : ℕ) (keys : List K) (cs : List (Node K)) (c : Node K)
      → length cs ≡ suc (length keys)
      → get_elem? cs i ≡ some c
      → Context i keys cs c
  unfolding weave
  Context-at i keys [] c len at = absurd (omega arith)
  Context-at zero [] (d ∷ []) c len at = record {
    pre = [];
    post = [];
    here = ap (λ (x : Node K). inorder x ++ []) {x = d} {y = c} (cc at);
    there = λ c'. refl;
    first = λ z. refl;
    last = λ e. refl;
  }
  Context-at i [] (d ∷ e ∷ cs) c len at = absurd (omega arith)
  Context-at (suc i) [] (d ∷ []) c len at = absurd (ground (arith, at))
  Context-at zero (k ∷ ks) (d ∷ cs) c len at = record {
    pre = [];
    post = k ∷ weave ks (unlisted cs);
    here = ap (λ (x : Node K). inorder x ++ k ∷ weave ks (unlisted cs)) {x = d} {y = c} (cc at);
    there = λ c'. refl;
    first = λ z. refl;
    last = λ e. absurd (omega (arith, e));
  }
  Context-at (suc i) (k ∷ ks) (d ∷ cs) c len at =
      Context-next i k ks d cs c (Context-at i ks cs c (omega arith) at)

module _ {K : Type 0} (compare : Compare K) (k : K) where
  -- `k` equals one of the keys.
  abbrev pub Present : List K → Type 0
  Present xs = Any (λ x. compare.cmp k x ≡ Ordering.eq) xs

  below-ne-Present :
      (xs : List K) (y : K)
      → compare.cmp k y ≡ Ordering.gt
      → All (λ x. Le compare x y) xs
      → Present xs
      → ⊥
  below-ne-Present xs y gt le =
      Any-not (λ x. compare.cmp k x ≡ Ordering.eq) (λ x. Le compare x y) xs
        (λ x le eq. ground (arith, gt_trans compare k x y gt le, eq)) le

  above-ne-Present :
      (y : K) (xs : List K)
      → compare.cmp k y ≡ Ordering.lt
      → All (Le compare y) xs
      → Present (y ∷ xs)
      → ⊥
  above-ne-Present y xs lt s (inl eq) = ground (arith, lt, eq)
  above-ne-Present y xs lt s (inr a) =
      Any-not (λ x. compare.cmp k x ≡ Ordering.eq) (Le compare y) xs
        (λ x le eq. ground (arith, compare.cmp_trans k y x lt le, eq)) s a

  -- A key that a search does not hit in a node is in the child at the place.
  pub Present-child :
      (i : ℕ) (keys : List K) (cs : List (Node K)) (c : Node K)
      → At compare k (λ x. compare.cmp k x ≡ Ordering.gt) i keys
      → length cs ≡ suc (length keys)
      → get_elem? cs i ≡ some c
      → Sorted compare (weave keys (unlisted cs))
      → Present (weave keys (unlisted cs))
      → Present (inorder c)
  unfolding weave
  Present-child i keys [] c a len at s p = absurd (omega arith)
  Present-child zero [] (d ∷ []) c a len at s p =
      elim (Any-append (λ x. compare.cmp k x ≡ Ordering.eq) (inorder d) [] p) [
        | inl q ↦ subst (λ (x : Node K). Present (inorder x)) {x = d} {y = c} (cc at) q
        | inr q ↦ absurd q
      ]
  Present-child i [] (d ∷ e ∷ cs) c a len at s p = absurd (omega arith)
  Present-child (suc i) [] (d ∷ []) c a len at s p = absurd a
  Present-child zero (x ∷ xs) (d ∷ cs) c a len at s p =
      elim (Any-append (λ x. compare.cmp k x ≡ Ordering.eq) (inorder d) (x ∷ weave xs (unlisted cs))
        p) [
          | inl q ↦ subst (λ (x : Node K). Present (inorder x)) {x = d} {y = c} (cc at) q
          | inr q ↦ absurd (
              above-ne-Present x (weave xs (unlisted cs)) a
                (Sorted-back compare (inorder d) (x ∷ weave xs (unlisted cs)) s).0 q)
        ]
  Present-child (suc i) (x ∷ xs) (d ∷ cs) c a len at s p =
      let rest = Sorted-back compare (inorder d) (x ∷ weave xs (unlisted cs)) s in
      elim (Any-append (λ x. compare.cmp k x ≡ Ordering.eq) (inorder d) (x ∷ weave xs (unlisted cs))
        p) [
          | inl q ↦ absurd (
              below-ne-Present (inorder d) x a.0
                (Sorted-before compare (inorder d) x (weave xs (unlisted cs)) s) q)
          | inr (inl eq) ↦ ground (arith, a.0, eq)
          | inr (inr q) ↦ Present-child i xs cs c a.1 (omega arith) at rest.1 q
        ]

  -- In a leaf there is then none.
  pub At-ne-Present :
      (i : ℕ) (keys : List K)
      → At compare k (λ x. compare.cmp k x ≡ Ordering.gt) i keys
      → Sorted compare keys
      → Present keys
      → ⊥
  At-ne-Present zero [] a s p = p
  At-ne-Present zero (x ∷ xs) a s p = above-ne-Present x xs a s.0 p
  At-ne-Present (suc i) [] a s p = a
  At-ne-Present (suc i) (x ∷ xs) a s (inl eq) = ground (arith, a.0, eq)
  At-ne-Present (suc i) (x ∷ xs) a s (inr p) = At-ne-Present i xs a.1 s.1 p
