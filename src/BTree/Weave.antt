-- ===== src/BTree/Weave.antt =====
-- The keys of a B-tree of btree-1.0/bt_code.c in order, and the change of one child.
use Prim.Native.Nat.{Ordering}
use linux_examples.Base.{
  ℕ, zero, suc, ◌≤◌, ◌≡◌, ◌≢◌, subst, refl, some, List, [], ◌∷◌, append-nil, All, arith, length,
  get_elem?, set,
}
use linux_examples.BTree.{Compare}
use linux_examples.BTree.Node.{Node, Nodes, nil, cons, unlisted, insert_at}
use linux_examples.BTree.Order.{
  Le, Sorted, Inserts, Inserts-behind, Inserts-before, Sorted-front, Sorted-back, Sorted-before,
  All-back, All-imp, Le_trans, Le_of_lt, Le_of_ge,
}
use linux_examples.BTree.Place.{At}
use linux_examples.BTree.Shape.{inorder, weave}

module _ {K : Type 0} (compare : Compare K) where
  -- The first `i` keys are not above `k`, which is not above the next one.
  abbrev pub Around : K → ℕ → List K → Type 0
  Around k zero [] = Unit
  Around k zero (x ∷ xs) = Le compare k x
  Around k (suc i) [] = ⊥
  Around k (suc i) (x ∷ xs) = Le compare x k × Around k i xs

  pub Around-At :
      (k : K) (i : ℕ) (keys : List K)
      → At compare k (λ x. compare.cmp k x ≢ Ordering.lt) i keys
      → Around k i keys
  Around-At k zero [] a = tt
  Around-At k zero (x ∷ xs) a = Le_of_lt compare k x a
  Around-At k (suc i) [] a = a
  Around-At k (suc i) (x ∷ xs) a = (Le_of_ge compare k x a.0, Around-At k i xs a.1)

  pub Around-le : (k : K) (i : ℕ) (keys : List K) → Around k i keys → i ≤ length keys
  Around-le k zero keys a = omega arith
  Around-le k (suc i) [] a = absurd a
  Around-le k (suc i) (x ∷ xs) a = omega (arith, Around-le k i xs a.1)

  -- A key that comes in at the place, on either side.
  pub Around-left :
      (k m : K) (i : ℕ) (keys : List K)
      → Around k i keys
      → Le compare k m
      → Around k i (insert_at i m keys)
  unfolding insert_at
  Around-left k m zero [] a le = le
  Around-left k m zero (x ∷ xs) a le = le
  Around-left k m (suc i) [] a le = absurd a
  Around-left k m (suc i) (x ∷ xs) a le = (a.0, Around-left k m i xs a.1 le)

  pub Around-right :
      (k m : K) (i : ℕ) (keys : List K)
      → Around k i keys
      → Le compare m k
      → Around k (suc i) (insert_at i m keys)
  unfolding insert_at
  Around-right k m zero [] a le = (le, tt)
  Around-right k m zero (x ∷ xs) a le = (le, a)
  Around-right k m (suc i) [] a le = absurd a
  Around-right k m (suc i) (x ∷ xs) a le = (a.0, Around-right k m i xs a.1 le)

  All-keys : (P : K → Type 0) (keys : List K) (cs : Nodes K) → All P (weave keys cs) → All P keys
  unfolding weave
  All-keys P [] cs p = tt
  All-keys P (k ∷ ks) nil p = p
  All-keys P (k ∷ ks) (cons c cs) p =
      let q = All-back P (inorder c) (k ∷ weave ks cs) p in (q.0, All-keys P ks cs q.1)

  pub Sorted-keys :
      (keys : List K) (cs : Nodes K) → Sorted compare (weave keys cs) → Sorted compare keys
  unfolding weave
  Sorted-keys [] cs s = tt
  Sorted-keys (k ∷ ks) nil s = s
  Sorted-keys (k ∷ ks) (cons c cs) s =
      let t = Sorted-back compare (inorder c) (k ∷ weave ks cs) s in
      (All-keys (Le compare k) ks cs t.0, Sorted-keys ks cs t.1)

  pub Sorted-child :
      (keys : List K) (cs : List (Node K)) (i : ℕ) (c : Node K)
      → get_elem? cs i ≡ some c
      → Sorted compare (weave keys (unlisted cs))
      → Sorted compare (inorder c)
  unfolding weave
  Sorted-child keys [] i c at s = absurd (ground (arith, at))
  Sorted-child [] (d ∷ cs) zero c at s =
      subst (λ (x : Node K). Sorted compare (inorder x)) {x = d} {y = c} (cc at)
        (Sorted-front compare (inorder d) (weave [] (unlisted cs)) s)
  Sorted-child (k ∷ ks) (d ∷ cs) zero c at s =
      subst (λ (x : Node K). Sorted compare (inorder x)) {x = d} {y = c} (cc at)
        (Sorted-front compare (inorder d) (k ∷ weave ks (unlisted cs)) s)
  Sorted-child [] (d ∷ cs) (suc i) c at s =
      Sorted-child [] cs i c at (Sorted-back compare (inorder d) (weave [] (unlisted cs)) s)
  Sorted-child (k ∷ ks) (d ∷ cs) (suc i) c at s =
      Sorted-child ks cs i c at (Sorted-back compare (inorder d) (k ∷ weave ks (unlisted cs)) s).1

  pub insert_at-Inserts :
      (k : K) (i : ℕ) (keys : List K)
      → Around k i keys
      → Sorted compare keys
      → Inserts compare k keys (insert_at i k keys)
  unfolding insert_at
  insert_at-Inserts k zero [] a s = record {
    front = [];
    back = [];
    old = refl;
    new = refl;
    low = tt;
    high = tt;
  }
  insert_at-Inserts k zero (x ∷ xs) a s = record {
    front = [];
    back = x ∷ xs;
    old = refl;
    new = refl;
    low = tt;
    high = (a, All-imp (Le compare x) (Le compare k) (λ b. Le_trans compare k x b a) xs s.0);
  }
  insert_at-Inserts k (suc i) [] a s = absurd a
  insert_at-Inserts k (suc i) (x ∷ xs) a s =
      Inserts-behind compare k (x ∷ []) xs (insert_at i k xs) (a.0, tt)
        (insert_at-Inserts k i xs a.1 s.1)

  -- An insertion into the child at the place of `k` is one into the node.
  pub weave-Inserts :
      (k : K) (i : ℕ) (keys : List K) (cs : List (Node K)) (c c' : Node K)
      → Around k i keys
      → length cs ≡ suc (length keys)
      → get_elem? cs i ≡ some c
      → Sorted compare (weave keys (unlisted cs))
      → Inserts compare k (inorder c) (inorder c')
      → Inserts compare k (weave keys (unlisted cs)) (weave keys (unlisted (set cs i c')))
  unfolding weave
  weave-Inserts k i keys [] c c' a len at s w = absurd (omega arith)
  weave-Inserts k zero [] (d ∷ []) c c' a len at s w =
      rw (append-nil (inorder d), append-nil (inorder c'))
        (subst (λ (x : Node K). Inserts compare k (inorder x) (inorder c')) {x = c} {y = d} (cc at)
          w)
  weave-Inserts k zero [] (d ∷ e ∷ cs) c c' a len at s w = absurd (omega arith)
  weave-Inserts k zero (x ∷ xs) (d ∷ cs) c c' a len at s w =
      Inserts-before compare k (inorder d) (inorder c') x (weave xs (unlisted cs)) a
        (Sorted-back compare (inorder d) (x ∷ weave xs (unlisted cs)) s).0
        (subst (λ (x : Node K). Inserts compare k (inorder x) (inorder c')) {x = c} {y = d} (cc at)
          w)
  weave-Inserts k (suc i) [] cs c c' a len at s w = absurd a
  weave-Inserts k (suc i) (x ∷ xs) (d ∷ cs) c c' a len at s w =
      let below = Sorted-before compare (inorder d) x (weave xs (unlisted cs)) s in
      let rest = Sorted-back compare (inorder d) (x ∷ weave xs (unlisted cs)) s in
      Inserts-behind compare k (inorder d) (x ∷ weave xs (unlisted cs))
        (x ∷ weave xs (unlisted (set cs i c')))
        (All-imp (λ y. Le compare y x) (λ y. Le compare y k) (λ y le. Le_trans compare y x k le a.0)
          (inorder d) below)
        (Inserts-behind compare k (x ∷ []) (weave xs (unlisted cs))
          (weave xs (unlisted (set cs i c'))) (a.0, tt)
          (weave-Inserts k i xs cs c c' a.1 (omega arith) at rest.1 w))
