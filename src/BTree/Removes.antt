-- ===== src/BTree/Removes.antt =====
-- What `nodedeletekey` of btree-1.0/bt_code.c is to do, on the keys in order.
use Prim.Native.Nat.{Ordering}
use linux_examples.Base.{
  ℕ, zero, suc, ◌≡◌, ◌∙◌, sym, ap, subst, refl, ◌⊎◌, some, List, [], ◌∷◌, ◌++◌, append_assoc, All,
  arith, length, get_elem?,
}
use linux_examples.BTree.{Compare}
use linux_examples.BTree.Delete.{Target, equal_to, greatest, least, remove_at}
use linux_examples.BTree.Order.{
  Le, Sorted, Le_of_lt, gt_trans, All-front, All-back, All-append, All-imp,
}

module _ {K : Type 0} (compare : Compare K) where
  -- Each key is below all the later ones, so that no two are equal.
  abbrev pub Strict : List K → Type 0
  Strict [] = Unit
  Strict (x ∷ xs) = All (λ y. compare.cmp x y ≡ Ordering.lt) xs × Strict xs

  pub Strict-Sorted : (xs : List K) → Strict xs → Sorted compare xs
  Strict-Sorted [] s = tt
  Strict-Sorted (x ∷ xs) s = (
    All-imp (λ y. compare.cmp x y ≡ Ordering.lt) (Le compare x) (λ y. Le_of_lt compare x y) xs s.0,
    Strict-Sorted xs s.1,
  )

  pub Strict-front : (xs ys : List K) → Strict (xs ++ ys) → Strict xs
  Strict-front [] ys s = tt
  Strict-front (x ∷ xs) ys s =
      (All-front (λ y. compare.cmp x y ≡ Ordering.lt) xs ys s.0, Strict-front xs ys s.1)

  pub Strict-back : (xs ys : List K) → Strict (xs ++ ys) → Strict ys
  Strict-back [] ys s = s
  Strict-back (x ∷ xs) ys s = Strict-back xs ys s.1

  pub Strict-remove :
      (xs : List K) (m : K) (ys : List K) → Strict (xs ++ m ∷ ys) → Strict (xs ++ ys)
  Strict-remove [] m ys s = s.1
  Strict-remove (x ∷ xs) m ys s =
      let P = λ (y : K). compare.cmp x y ≡ Ordering.lt in
      (
        All-append P xs ys (All-front P xs (m ∷ ys) s.0) (All-back P xs (m ∷ ys) s.0).1,
        Strict-remove xs m ys s.1,
      )

  -- An equal key is below and above the same ones.
  lt_eq :
      (x m k : K)
      → compare.cmp k m ≡ Ordering.eq
      → compare.cmp x m ≡ Ordering.lt
      → compare.cmp x k ≡ Ordering.lt
  lt_eq x m k eq lt = compare.cmp_trans x m k lt λ gt. ground (arith, eq, compare.lt_of_gt m k gt)

  eq_lt :
      (x m k : K)
      → compare.cmp k m ≡ Ordering.eq
      → compare.cmp m x ≡ Ordering.lt
      → compare.cmp k x ≡ Ordering.lt
  eq_lt x m k eq lt =
      compare.lt_of_gt x k
        (gt_trans compare x k m (compare.gt_of_lt m x lt) (λ gt. ground (arith, eq, gt)))

  pub Strict-replace :
      (xs : List K) (m k : K) (ys : List K)
      → compare.cmp k m ≡ Ordering.eq
      → Strict (xs ++ m ∷ ys)
      → Strict (xs ++ k ∷ ys)
  Strict-replace [] m k ys eq s = (
    All-imp (λ y. compare.cmp m y ≡ Ordering.lt) (λ y. compare.cmp k y ≡ Ordering.lt)
        (λ y. eq_lt y m k eq) ys s.0,
    s.1,
  )
  Strict-replace (x ∷ xs) m k ys eq s =
      let P = λ (y : K). compare.cmp x y ≡ Ordering.lt in
      let rest = All-back P xs (m ∷ ys) s.0 in
      (
        All-append P xs (k ∷ ys) (All-front P xs (m ∷ ys) s.0) (lt_eq x m k eq rest.0, rest.1),
        Strict-replace xs m k ys eq s.1,
      )

  -- At most one place holds a key equal to `k`.
  pub one_place :
      (k : K) (xs ys front : List K) (gone : K) (back : List K)
      → Strict (xs ++ k ∷ ys)
      → xs ++ k ∷ ys ≡ front ++ gone ∷ back
      → compare.cmp k gone ≡ Ordering.eq
      → (front ≡ xs) × (gone ≡ k) × (back ≡ ys)
  one_place k [] ys [] gone back s e eq = (refl, (cc e), (cc e))
  one_place k [] ys (a ∷ front) gone back s e eq =
      let P = λ (y : K). compare.cmp k y ≡ Ordering.lt in
      let rest : ys ≡ front ++ gone ∷ back = cc e in
      let lt = (All-back P front (gone ∷ back) (subst (All P) rest s.0)).0 in
      absurd (ground (arith, lt, eq))
  one_place k (x ∷ xs) ys [] gone back s e eq =
      let same : gone ≡ x = cc e in
      let lt = (All-back (λ y. compare.cmp x y ≡ Ordering.lt) xs (k ∷ ys) s.0).0 in
      let eq' : compare.cmp k x ≡ Ordering.eq =
        subst (λ (a : K). compare.cmp k a ≡ Ordering.eq) same eq in
      absurd (ground (arith, compare.gt_of_lt x k lt, eq'))
  one_place k (x ∷ xs) ys (a ∷ front) gone back s e eq =
      let (f, g, b) = one_place k xs ys front gone back s.1 (cc e) eq in
      let same : a ≡ x = cc e in (rw (same, f) refl, g, b)

  -- What the key `gone` is to be, and the key `k` that is returned.
  abbrev pub Meets : Target K → List K → K → List K → K → Type 0
  Meets (equal_to k) front gone back r = (compare.cmp k gone ≡ Ordering.eq) × ((r ≡ gone) ⊎ (r ≡ k))
  Meets greatest front gone back r = (back ≡ []) × (r ≡ gone)
  Meets least front gone back r = (front ≡ []) × (r ≡ gone)

  -- `ys` is `xs` less one key that the target means, and `r` is what is returned.
  pub record Removes (target : Target K) (xs : List K) (r : K) (ys : List K) : Type 0 where
    pub front : List K
    pub gone : K
    pub back : List K
    pub old : xs ≡ front ++ gone ∷ back
    pub new : ys ≡ front ++ back
    pub meets : Meets target front gone back r

  -- Where the keys `pre` before and `post` behind are the whole of the others.
  abbrev pub Reaches : Target K → List K → List K → Type 0
  Reaches (equal_to k) pre post = Unit
  Reaches greatest pre post = post ≡ []
  Reaches least pre post = pre ≡ []

  Meets-within :
      (target : Target K) (pre front : List K) (gone : K) (back post : List K) (r : K)
      → Reaches target pre post
      → Meets target front gone back r
      → Meets target (pre ++ front) gone (back ++ post) r
  Meets-within (equal_to k) pre front gone back post r e m = m
  Meets-within greatest pre front gone back post r e m = (rw (m.0, e) refl, m.1)
  Meets-within least pre front gone back post r e m = (rw (e, m.0) refl, m.1)

  pub Removes-within :
      (target : Target K) (pre xs post : List K) (r : K) (ys : List K)
      → Reaches target pre post
      → Removes target xs r ys
      → Removes target (pre ++ (xs ++ post)) r (pre ++ (ys ++ post))
  Removes-within target pre xs post r ys e w = record {
    front = pre ++ w.front;
    gone = w.gone;
    back = w.back ++ post;
    old =
        ap (λ (l : List K). pre ++ (l ++ post)) w.old
        ∙ ap (λ (l : List K). pre ++ l) (append_assoc w.front (w.gone ∷ w.back) post)
        ∙ sym (append_assoc pre w.front (w.gone ∷ (w.back ++ post)));
    new =
        ap (λ (l : List K). pre ++ (l ++ post)) w.new
        ∙ ap (λ (l : List K). pre ++ l) (append_assoc w.front w.back post)
        ∙ sym (append_assoc pre w.front (w.back ++ post));
    meets = Meets-within target pre w.front w.gone w.back post r e w.meets;
  }

module _ {K : Type 0} where
  -- The removal of the element at `m`.
  pub remove_at-parts :
      (m : ℕ) (xs : List K) (a : K)
      → get_elem? xs m ≡ some a
      → (front : List K) × (back : List K) × (xs ≡ front ++ a ∷ back)
        × (remove_at m xs ≡ front ++ back)
        × (m ≡ 0 → front ≡ [])
        × (suc m ≡ length xs → back ≡ [])
  unfolding remove_at
  remove_at-parts m [] a h = absurd (ground (arith, h))
  remove_at-parts zero (x ∷ []) a h = ([], [], (cc h), refl, (λ z. refl), λ e. refl)
  remove_at-parts zero (x ∷ y ∷ xs) a h = (
    [],
    y ∷ xs,
    ap (λ (b : K). b ∷ y ∷ xs) {x = x} {y = a} (cc h),
    refl,
    (λ z. refl),
    λ e. absurd (omega (arith, e)),
  )
  remove_at-parts (suc m) (x ∷ xs) a h =
      let (front, back, old, new, first, last) = remove_at-parts m xs a h in
      (
        x ∷ front,
        back,
        ap (λ (l : List K). x ∷ l) old,
        ap (λ (l : List K). x ∷ l) new,
        (λ z. absurd (omega (arith, z))),
        λ e. last (omega (arith, e)),
      )
