-- ===== src/BTree/Order.antt =====
-- The order of the keys of btree-1.0/bt_code.c, on lists.
use Prim.Native.Nat.{Ordering}
use linux_examples.Base.{
  ◌≡◌, ◌≢◌, ◌∙◌, sym, ap, subst, refl, ◌⊎◌, inl, inr, List, [], ◌∷◌, ◌++◌, append_assoc, All, arith,
}
use linux_examples.BTree.{Compare}

-- What a comparison says.
pub Ordering-cases : (o : Ordering) → (o ≡ Ordering.lt) ⊎ ((o ≡ Ordering.eq) ⊎ (o ≡ Ordering.gt))
Ordering-cases Ordering.lt = inl refl
Ordering-cases Ordering.eq = inr (inl refl)
Ordering-cases Ordering.gt = inr (inr refl)

module _ {A : Type 0} where
  pub All-append : (P : A → Type 0) (xs ys : List A) → All P xs → All P ys → All P (xs ++ ys)
  All-append P [] ys p q = q
  All-append P (x ∷ xs) ys p q = (p.0, All-append P xs ys p.1 q)

  pub All-front : (P : A → Type 0) (xs ys : List A) → All P (xs ++ ys) → All P xs
  All-front P [] ys p = tt
  All-front P (x ∷ xs) ys p = (p.0, All-front P xs ys p.1)

  pub All-back : (P : A → Type 0) (xs ys : List A) → All P (xs ++ ys) → All P ys
  All-back P [] ys p = p
  All-back P (x ∷ xs) ys p = All-back P xs ys p.1

  pub All-imp : (P Q : A → Type 0) → ((a : A) → P a → Q a) → (xs : List A) → All P xs → All Q xs
  All-imp P Q f [] p = tt
  All-imp P Q f (x ∷ xs) p = (f x p.0, All-imp P Q f xs p.1)

module _ {K : Type 0} (compare : Compare K) where
  -- `a` is not above `b`.
  abbrev pub Le : K → K → Type 0
  Le a b = compare.cmp a b ≢ Ordering.gt

  -- No key is above a later one.
  abbrev pub Sorted : List K → Type 0
  Sorted [] = Unit
  Sorted (x ∷ xs) = All (Le x) xs × Sorted xs

  -- `k` is not below a key, or above it, if it is so for one that is not below that.
  pub ge_trans :
      (k a b : K) → compare.cmp k b ≢ Ordering.lt → Le a b → compare.cmp k a ≢ Ordering.lt
  ge_trans k a b ge le lt = ge (compare.cmp_trans k a b lt le)

  pub gt_trans :
      (k a b : K) → compare.cmp k b ≡ Ordering.gt → Le a b → compare.cmp k a ≡ Ordering.gt
  gt_trans k a b gt le =
      let between : Le k a → compare.cmp a b ≡ Ordering.gt =
        λ h. compare.gt_of_lt b a (compare.cmp_trans b k a (compare.lt_of_gt k b gt) h) in
      elim (Ordering-cases (compare.cmp k a)) [
        | inl o ↦ absurd (le (between λ e. ground (arith, o, e)))
        | inr (inl o) ↦ absurd (le (between λ e. ground (arith, o, e)))
        | inr (inr o) ↦ o
      ]

  pub Le_of_ge : (k x : K) → compare.cmp k x ≢ Ordering.lt → Le x k
  Le_of_ge k x ge gt = ge (compare.lt_of_gt x k gt)

  pub Le_of_lt : (k x : K) → compare.cmp k x ≡ Ordering.lt → Le k x
  Le_of_lt k x lt gt = ground (arith, lt, gt)

  pub Sorted-front : (xs ys : List K) → Sorted (xs ++ ys) → Sorted xs
  Sorted-front [] ys s = tt
  Sorted-front (x ∷ xs) ys s = (All-front (Le x) xs ys s.0, Sorted-front xs ys s.1)

  pub Sorted-back : (xs ys : List K) → Sorted (xs ++ ys) → Sorted ys
  Sorted-back [] ys s = s
  Sorted-back (x ∷ xs) ys s = Sorted-back xs ys s.1

  -- What stands before a key is not above it.
  pub Sorted-before :
      (xs : List K) (y : K) (ys : List K) → Sorted (xs ++ y ∷ ys) → All (λ x. Le x y) xs
  Sorted-before [] y ys s = tt
  Sorted-before (x ∷ xs) y ys s = ((All-back (Le x) xs (y ∷ ys) s.0).0, Sorted-before xs y ys s.1)

  pub Le_trans : (a b c : K) → Le a b → Le b c → Le a c
  Le_trans a b c ab bc gt = ab (gt_trans a b c gt bc)

  pub Sorted-append :
      (xs : List K) (y : K) (ys : List K)
      → Sorted xs
      → All (λ x. Le x y) xs
      → Sorted (y ∷ ys)
      → Sorted (xs ++ y ∷ ys)
  Sorted-append [] y ys s below t = t
  Sorted-append (x ∷ xs) y ys s below t = (
    All-append (Le x) xs (y ∷ ys) s.0
        (below.0, All-imp (Le y) (Le x) (λ a. Le_trans x y a below.0) ys t.0),
    Sorted-append xs y ys s.1 below.1 t,
  )

  -- `ys` is `xs` with the key `k` at a place where none before it is above it, and it is above none
  -- behind it.
  pub record Inserts (k : K) (xs ys : List K) : Type 0 where
    pub front : List K
    pub back : List K
    pub old : xs ≡ front ++ back
    pub new : ys ≡ front ++ k ∷ back
    pub low : All (λ x. Le x k) front
    pub high : All (Le k) back

  pub Inserts-Sorted : (k : K) (xs ys : List K) → Inserts k xs ys → Sorted xs → Sorted ys
  Inserts-Sorted k xs ys w s =
      let s' = subst Sorted w.old s in
      subst Sorted (sym w.new) (
        Sorted-append w.front k w.back (Sorted-front w.front w.back s') w.low
          (w.high, Sorted-back w.front w.back s'))

  pub Inserts-behind :
      (k : K) (ps xs ys : List K)
      → All (λ x. Le x k) ps
      → Inserts k xs ys
      → Inserts k (ps ++ xs) (ps ++ ys)
  Inserts-behind k ps xs ys low w = record {
    front = ps ++ w.front;
    back = w.back;
    old = ap (λ (l : List K). ps ++ l) w.old ∙ sym (append_assoc ps w.front w.back);
    new = ap (λ (l : List K). ps ++ l) w.new ∙ sym (append_assoc ps w.front (k ∷ w.back));
    low = All-append (λ x. Le x k) ps w.front low w.low;
    high = w.high;
  }

  pub Inserts-before :
      (k : K) (xs ys : List K) (y : K) (rest : List K)
      → Le k y
      → All (Le y) rest
      → Inserts k xs ys
      → Inserts k (xs ++ y ∷ rest) (ys ++ y ∷ rest)
  Inserts-before k xs ys y rest le above w = record {
    front = w.front;
    back = w.back ++ y ∷ rest;
    old = ap (λ (l : List K). l ++ y ∷ rest) w.old ∙ append_assoc w.front w.back (y ∷ rest);
    new = ap (λ (l : List K). l ++ y ∷ rest) w.new ∙ append_assoc w.front (k ∷ w.back) (y ∷ rest);
    low = w.low;
    high =
        All-append (Le k) w.back (y ∷ rest) w.high
          (le, All-imp (Le y) (Le k) (λ a. Le_trans k y a le) rest above);
  }
