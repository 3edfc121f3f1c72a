-- ===== src/BTree/Checked.antt =====
-- `bt_checktree` and `treeheight` of btree-1.0/bt_output.c: what they say of a tree.
use Prim.Native.Nat.{Ordering}
use linux_examples.Base.{
  ℕ, zero, suc, ◌+◌, ◌-◌, ◌*◌, ◌≤◌, ◌<◌, ◌≡◌, sym, ap, subst, refl, ◌⊎◌, inl, inr, ◌&&◌, ◌||◌, not,
  Bool, true, false, Option, some, List, [], ◌∷◌, ◌++◌, append-nil, arith, ltb, ◌==◌, length,
  get_elem?,
}
use linux_examples.Base.Maybe.{◌>>=◌}
use linux_examples.BTree.{Compare}
use linux_examples.BTree.Check.{
  Verdict, good, bad, check_null, check_between, check_node, height_from,
}
use linux_examples.BTree.Lists.{reached, All-get_elem?}
use linux_examples.BTree.Node.{Node, node, listed, unlisted, keys_of}
use linux_examples.BTree.Order.{Ordering-cases}
use linux_examples.BTree.Shape.{inorder, weave, weave_leaf, unlisted-listed, IsTree, Fits}

-- A check ends, with 1 if `P` holds and with 0 if not.
abbrev pub Decides : Option Verdict → Type 0 → Type 0
Decides o P = ((o ≡ some good) × P) ⊎ ((o ≡ some bad) × (¬ P))

Decides-iff : {P Q : Type 0} (o : Option Verdict) → (P → Q) → (Q → P) → Decides o P → Decides o Q
Decides-iff o f g (inl (e, p)) = inl (e, f p)
Decides-iff o f g (inr (e, np)) = inr (e, λ q. np (g q))

module _ {K : Type 0} (compare : Compare K) where
  -- Each key from `lo` by `xs` to `hi` is below the next one.
  abbrev pub Chain : K → List K → K → Type 0
  Chain lo [] hi = compare.cmp lo hi ≡ Ordering.lt
  Chain lo (x ∷ xs) hi = (compare.cmp lo x ≡ Ordering.lt) × Chain x xs hi

  Chain-append :
      (lo : K) (xs : List K) (k : K) (ys : List K) (hi : K)
      → Chain lo xs k
      → Chain k ys hi
      → Chain lo (xs ++ k ∷ ys) hi
  Chain-append lo [] k ys hi a b = (a, b)
  Chain-append lo (x ∷ xs) k ys hi a b = (a.0, Chain-append x xs k ys hi a.1 b)

  Chain-parts :
      (lo : K) (xs : List K) (k : K) (ys : List K) (hi : K)
      → Chain lo (xs ++ k ∷ ys) hi
      → Chain lo xs k × Chain k ys hi
  Chain-parts lo [] k ys hi a = a
  Chain-parts lo (x ∷ xs) k ys hi a = let (b, c) = Chain-parts x xs k ys hi a.1 in ((a.0, b), c)

  check_null-Decides : (lo hi : K) → Decides (some (check_null compare lo hi)) (Chain lo [] hi)
  unfolding check_null
  check_null-Decides lo hi = elim (Ordering-cases (compare.cmp lo hi)) [
    | inl o ↦ inl ((rw (o, check_null) refl), o)
    | inr (inl o) ↦ inr ((rw (o, check_null) refl), λ lt. ground (arith, o, lt))
    | inr (inr o) ↦ inr ((rw (o, check_null) refl), λ lt. ground (arith, o, lt))
  ]

  -- The step over a child and the key behind it.
  step-Decides :
      (first : Option Verdict) (rest : Option Verdict) (lo : K) (xs : List K) (k : K) (ys : List K)
      (hi : K)
      → Decides first (Chain lo xs k)
      → Decides rest (Chain k ys hi)
      → Decides (first >>= λ v. elim v [ good ↦ rest | w ↦ some w ]) (Chain lo (xs ++ k ∷ ys) hi)
  step-Decides first rest lo xs k ys hi (inl (e, a)) (inl (e', b)) =
      inl ((rw (e, e') refl), Chain-append lo xs k ys hi a b)
  step-Decides first rest lo xs k ys hi (inl (e, a)) (inr (e', nb)) =
      inr ((rw (e, e') refl), λ c. nb (Chain-parts lo xs k ys hi c).1)
  step-Decides first rest lo xs k ys hi (inr (e, na)) b =
      inr ((rw e refl), λ c. na (Chain-parts lo xs k ys hi c).0)

  leaf-Decides :
      (i : ℕ) (lo : K) (ks : List K) (hi : K)
      → Decides
          (check_between compare (λ i lo hi. some (check_null compare lo hi)) i lo ks hi)
          (Chain lo ks hi)
  unfolding check_between
  leaf-Decides i lo [] hi = check_null-Decides lo hi
  leaf-Decides i lo (k ∷ ks) hi =
      step-Decides (some (check_null compare lo k)) _ lo [] k ks hi (check_null-Decides lo k)
        (leaf-Decides (i + 1) k ks hi)

  between-Decides :
      (child : ℕ → K → K → Option Verdict) (i : ℕ) (lo : K) (ks : List K) (cs : List (Node K))
      (hi : K)
      → length cs ≡ suc (length ks)
      → ((m : ℕ) (c : Node K)
          → get_elem? cs m ≡ some c
          → (lo hi : K) → Decides (child (i + m) lo hi) (Chain lo (inorder c) hi))
      → Decides (check_between compare child i lo ks hi) (Chain lo (weave ks (unlisted cs)) hi)
  unfolding check_between weave
  between-Decides child i lo ks [] hi len each = absurd (omega arith)
  between-Decides child i lo [] (c ∷ []) hi len each =
      let here : i + 0 ≡ i = omega arith in
      rw (append-nil (inorder c)) (rw here at (each 0 c refl lo hi))
  between-Decides child i lo [] (c ∷ d ∷ cs) hi len each = absurd (omega arith)
  between-Decides child i lo (k ∷ ks) (c ∷ cs) hi len each =
      let here : i + 0 ≡ i = omega arith in
      step-Decides (child i lo k) _ lo (inorder c) k (weave ks (unlisted cs)) hi
        (rw here at (each 0 c refl lo k))
        (between-Decides child (i + 1) k ks cs hi (omega arith) (λ m d at lo hi.
          let next : i + suc m ≡ i + 1 + m = omega arith in rw next at (each (suc m) d at lo hi)))

  Decides-keys :
      (lo hi : K) (xs ys : List K) {o : Option Verdict}
      → xs ≡ ys
      → Decides o (Chain lo xs hi)
      → Decides o (Chain lo ys hi)
  Decides-keys lo hi xs ys {o} e d = subst (λ (l : List K). Decides o (Chain lo l hi)) e d

  -- The test on the number of keys of a node.
  sized :
      (s n : ℕ) (isroot : Bool)
      → (isroot ≡ true) ⊎ (s ≤ n)
      → n ≤ 2 * s + 1
      → (not isroot && (ltb n (suc s - 1) || ltb (2 * suc s - 1) n)) ≡ false
  sized s n true fits few = refl
  sized s n false (inl e) few = absurd (ground (arith, e))
  sized s n false (inr le) few =
      let low : ltb n (suc s - 1) ≡ false = ground arith in
      let high : ltb (2 * suc s - 1) n ≡ false = ground arith in rw (low, high) refl

  check_node-Decides :
      (s fuel h : ℕ) (x : Node K) (kmin kmax : K) (isroot : Bool)
      → 1 ≤ s
      → h < fuel
      → IsTree s h x
      → 1 ≤ length (keys_of x)
      → (isroot ≡ true) ⊎ (s ≤ length (keys_of x))
      → length (keys_of x) ≤ 2 * s + 1
      → Decides (check_node compare fuel (suc s) x kmin kmax isroot) (Chain kmin (inorder x) kmax)
  unfolding check_node weave
  check_node-Decides s zero h x kmin kmax isroot two enough tree more fits few =
      absurd (omega arith)
  check_node-Decides s (suc fuel) h (node leaf [] children) kmin kmax isroot two enough tree more
        fits few =
      absurd (omega arith)
  check_node-Decides s (suc fuel) zero (node false (k ∷ ks) children) kmin kmax isroot two enough
        tree more fits few =
      absurd (ground (arith, tree.0))
  check_node-Decides s (suc fuel) zero (node true (k ∷ ks) children) kmin kmax isroot two enough
        tree more fits few =
      let some_keys : length (k ∷ ks) == 0 ≡ false = ground arith in
      rw (sized s (length (k ∷ ks)) isroot fits few, some_keys)
        (Decides-keys kmin kmax (k ∷ ks) (weave (k ∷ ks) children)
          (sym (weave_leaf (k ∷ ks) children tree.1)) (leaf-Decides 0 kmin (k ∷ ks) kmax))
  check_node-Decides s (suc fuel) (suc h) (node true (k ∷ ks) children) kmin kmax isroot two enough
        tree more fits few =
      absurd (ground (arith, tree.0))
  check_node-Decides s (suc fuel) (suc h) (node false (k ∷ ks) children) kmin kmax isroot two enough
        tree more fits few =
      let some_keys : length (k ∷ ks) == 0 ≡ false = ground arith in
      let below : ℕ → K → K → Option Verdict = λ i lo hi.
        (get_elem? (listed children) i >>= λ c. check_node compare fuel (suc s) c lo hi false) in
      let P : Node K → Type 0 = λ c. Fits s c × IsTree s h c in
      rw (sized s (length (k ∷ ks)) isroot fits few, some_keys)
        (Decides-keys kmin kmax (weave (k ∷ ks) (unlisted (listed children)))
          (weave (k ∷ ks) children) (ap (weave (k ∷ ks)) (unlisted-listed children))
          (between-Decides below 0 kmin (k ∷ ks) (listed children) kmax tree.1 (λ m c at lo hi.
            let same : 0 + m ≡ m = omega arith in
            let fit = All-get_elem? P (listed children) m c tree.2 at in
            rw (same, at)
              (check_node-Decides s fuel h c lo hi false two (omega arith) fit.1
                (omega (arith, fit.0.0)) (inr fit.0.0) fit.0.1))))

  -- bt_checktree of a B-tree with t at least 2 whose root has a key, with fuel above its height. It
  -- does not stop the program; it returns 1 just if the smallest key allowed, the tree's keys in
  -- order and the largest one are each below the next, and else 0.
  pub check_node-Chain :
      (s fuel h : ℕ) (r : Node K) (kmin kmax : K)
      → 1 ≤ s
      → h < fuel
      → IsTree s h r
      → 1 ≤ length (keys_of r)
      → length (keys_of r) ≤ 2 * s + 1
      → Decides (check_node compare fuel (suc s) r kmin kmax true) (Chain kmin (inorder r) kmax)
  check_node-Chain s fuel h r kmin kmax two enough tree more few =
      check_node-Decides s fuel h r kmin kmax true two enough tree more (inl refl) few

module _ {K : Type 0} where
  -- treeheight, of a tree whose leaves are all at depth h, with fuel above h, ends with h + 1.
  pub height_from-depth :
      (s fuel h ret : ℕ) (x : Node K)
      → h < fuel
      → IsTree s h x
      → height_from fuel x ret ≡ some (ret + h + 1)
  unfolding height_from
  height_from-depth s zero h ret x enough tree = absurd (omega arith)
  height_from-depth s (suc fuel) zero ret (node leaf keys children) enough tree =
      let same : ret + 1 ≡ ret + 0 + 1 = omega arith in rw (tree.0, same) refl
  height_from-depth s (suc fuel) (suc h) ret (node leaf keys children) enough tree =
      let P : Node K → Type 0 = λ c. Fits s c × IsTree s h c in
      let (c, at) = reached (listed children) 0 (omega (arith, tree.1)) in
      let fit = All-get_elem? P (listed children) 0 c tree.2 at in
      let same : ret + 1 + h + 1 ≡ ret + suc h + 1 = omega arith in
      rw (tree.0, at, sym same) (height_from-depth s fuel h (ret + 1) c (omega arith) fit.1)
