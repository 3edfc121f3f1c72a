-- ===== src/BTree/Hit.antt =====
-- Case 2 of `nodedeletekey` of btree-1.0/bt_code.c: the key is in an inner node.
use Prim.Native.Nat.{Ordering}
use linux_examples.Base.{
  ℕ, zero, suc, ◌+◌, ◌*◌, ◌<◌, ◌^◌, ◌≤◌, ◌≡◌, ◌∙◌, sym, ap, subst, refl, false, some, List, [], ◌∷◌,
  ◌++◌, append_assoc, append-nil, arith, ◌⊎◌, inl, inr, length, length-set, get_elem?, get_elem?-lt,
  set,
}
use linux_examples.Base.Maybe.{◌>>=◌}
use linux_examples.BTree.{Compare, Logs}
use linux_examples.BTree.Context.{Any-back, Present}
use linux_examples.BTree.Delete.{equal_to, greatest, least, remove_at, merged, delete_key, merge_at}
use linux_examples.BTree.Descend.{Deleted, Deletes, inner-IsTree}
use linux_examples.BTree.Level.{merged-IsTree}
use linux_examples.BTree.Lists.{All-get_elem?}
use linux_examples.BTree.Merge.{merge_at-some, merged-IsInner, merged_here}
use linux_examples.BTree.Move.{IsChild, IsInner}
use linux_examples.BTree.Node.{Node, node, unlisted, keys_of}
use linux_examples.BTree.Pair.{length-remove_at, Pair, Pair-at}
use linux_examples.BTree.Removes.{
  Strict, Strict-front, Strict-back, Strict-replace, one_place, Removes,
}
use linux_examples.BTree.Shape.{inorder, weave}

module _ {A : Type 0} where
  set-remove_above :
      (m : ℕ) (xs : List A) (a b : A)
      → set (remove_at (suc m) (set xs m a)) m b ≡ remove_at (suc m) (set xs m b)
  unfolding remove_at
  set-remove_above m [] a b = refl
  set-remove_above zero (x ∷ []) a b = refl
  set-remove_above zero (x ∷ y ∷ xs) a b = refl
  set-remove_above (suc m) (x ∷ xs) a b = ap (λ (l : List A). x ∷ l) (set-remove_above m xs a b)

module _ {K : Type 0} (compare : Compare K) (s : ℕ) (narrow : 2 * s + 1 < 2 ^ 14) (j fuel h : ℕ)
    (k : K) (keys : List K) (cs : List (Node K)) (m : ℕ) (key : K) (y z : Node K) (logs : Logs)
    (go : Deletes compare s j fuel h logs) (level : IsInner s h keys cs)
    (at_k : get_elem? keys m ≡ some key) (at_y : get_elem? cs m ≡ some y)
    (at_z : get_elem? cs (suc m) ≡ some z) (strict : Strict compare (weave keys (unlisted cs)))
    (equal : compare.cmp k key ≡ Ordering.eq) where
  pair : Pair m keys cs y z key
  pair = Pair-at m keys cs y z key at_k at_y at_z

  fit_y : IsChild s h y
  fit_y = All-get_elem? (IsChild s h) cs m y level.1 at_y

  fit_z : IsChild s h z
  fit_z = All-get_elem? (IsChild s h) cs (suc m) z level.1 at_z

  Strict-pair : Strict compare (inorder y ++ key ∷ (inorder z ++ pair.post))
  Strict-pair =
      Strict-back compare pair.pre (inorder y ++ key ∷ (inorder z ++ pair.post))
        (subst (Strict compare) pair.here strict)

  Strict-y : Strict compare (inorder y)
  Strict-y = Strict-front compare (inorder y) (key ∷ (inorder z ++ pair.post)) Strict-pair

  Strict-z : Strict compare (inorder z)
  Strict-z =
      Strict-front compare (inorder z) pair.post
        (Strict-back compare (inorder y) (key ∷ (inorder z ++ pair.post)) Strict-pair).1

  -- The key goes and nothing else does.
  gone-Removes :
      (ys : List K) (r : K)
      → (r ≡ key) ⊎ (r ≡ k)
      → ys ≡ pair.pre ++ (inorder y ++ (inorder z ++ pair.post))
      → Removes compare (equal_to k) (weave keys (unlisted cs)) r ys
  gone-Removes ys r which e = record {
    front = pair.pre ++ inorder y;
    gone = key;
    back = inorder z ++ pair.post;
    old = pair.here ∙ sym (append_assoc pair.pre (inorder y) (key ∷ (inorder z ++ pair.post)));
    new = e ∙ sym (append_assoc pair.pre (inorder y) (inorder z ++ pair.post));
    meets = (equal, which);
  }

  set_key-IsInner : (r : K) → IsInner s h (set keys m r) cs
  set_key-IsInner r = (level.0 ∙ ap suc (sym (length-set keys m r)), level.1)

  -- With the last key of the child before it in its place.
  pub case2a-Deleted :
      suc s ≤ length (keys_of y)
      → Deleted compare s j (suc h) (equal_to k) (weave keys (unlisted cs)) (length keys) (
          delete_key compare fuel (suc s) (2 ^ suc j) y greatest logs >>= λ r.
          some (key, node false (set keys m r.0) (unlisted (set cs m r.1)), r.2))
  unfolding weave
  case2a-Deleted rich =
      let (r, y', logs', eq, tree, ge, le, w, serves) =
        go y greatest fit_y.1 (omega arith) fit_y.0.1 Strict-y tt in
      let up : r ≡ w.gone = w.meets.1 in
      let rest = inorder z ++ pair.post in
      (
        key,
        node false (set keys m r) (unlisted (set cs m y')),
        logs',
        rw eq refl,
        inner-IsTree compare s j h (set keys m r) cs m y' (set_key-IsInner r)
            ((omega arith, omega (arith, fit_y.0)), tree),
        omega (arith, length-set keys m r),
        omega (arith, length-set keys m r),
        gone-Removes (weave (set keys m r) (unlisted (set cs m y'))) key (inl refl) (
            pair.low y' r
            ∙ ap (λ (l : List K). pair.pre ++ l)
                (ap (λ (l : List K). l ++ r ∷ rest)
                    (w.new ∙ ap (λ (l : List K). w.front ++ l) w.meets.0 ∙ append-nil w.front)
                  ∙ sym (append_assoc w.front (r ∷ []) rest)
                  ∙ ap (λ (l : List K). l ++ rest)
                      (ap (λ (a : K). w.front ++ a ∷ []) up
                        ∙ sym (w.old ∙ ap (λ (l : List K). w.front ++ w.gone ∷ l) w.meets.0)))),
        serves,
      )

  -- With the first key of the child behind it in its place.
  pub case2b-Deleted :
      suc s ≤ length (keys_of z)
      → Deleted compare s j (suc h) (equal_to k) (weave keys (unlisted cs)) (length keys) (
          delete_key compare fuel (suc s) (2 ^ suc j) z least logs >>= λ r.
          some (key, node false (set keys m r.0) (unlisted (set cs (suc m) r.1)), r.2))
  unfolding weave
  case2b-Deleted rich =
      let (r, z', logs', eq, tree, ge, le, w, serves) =
        go z least fit_z.1 (omega arith) fit_z.0.1 Strict-z tt in
      let up : r ≡ w.gone = w.meets.1 in
      (
        key,
        node false (set keys m r) (unlisted (set cs (suc m) z')),
        logs',
        rw eq refl,
        inner-IsTree compare s j h (set keys m r) cs (suc m) z' (set_key-IsInner r)
            ((omega arith, omega (arith, fit_z.0)), tree),
        omega (arith, length-set keys m r),
        omega (arith, length-set keys m r),
        gone-Removes (weave (set keys m r) (unlisted (set cs (suc m) z'))) key (inl refl) (
            pair.high r z'
            ∙ ap (λ (l : List K). pair.pre ++ (inorder y ++ (l ++ pair.post)))
                (ap (λ (a : K). a ∷ inorder z') up
                  ∙ ap (λ (l : List K). w.gone ∷ l)
                      (w.new ∙ ap (λ (l : List K). l ++ w.back) w.meets.0)
                  ∙ sym (w.old ∙ ap (λ (l : List K). l ++ w.gone ∷ w.back) w.meets.0))),
        serves,
      )

  -- With both children and the key that is looked for in one, from which it is deleted.
  pub case2c-Deleted :
      length (keys_of y) ≡ s
      → length (keys_of z) ≡ s
      → Deleted compare s j (suc h) (equal_to k) (weave keys (unlisted cs)) (length keys) (
          merge_at (suc s) m k keys cs >>= λ e. get_elem? e.1 m >>= λ c.
          delete_key compare fuel (suc s) (2 ^ suc j) c (equal_to k) logs >>= λ r.
          some (r.0, node false e.0 (unlisted (set e.1 m r.1)), r.2))
  unfolding weave
  case2c-Deleted poor_y poor_z =
      let c = merged y k z in
      let cs' = remove_at (suc m) (set cs m c) in
      let (tree_c, keys_c, len) = merged-IsTree s h y z k fit_y.1 fit_z.1 in
      let strict_k =
        Strict-replace compare (inorder y) key k (inorder z ++ pair.post) equal Strict-pair in
      let strict_c = subst (Strict compare) (sym keys_c) (
        Strict-front compare (inorder y ++ k ∷ inorder z) pair.post (
          subst (Strict compare) (sym (append_assoc (inorder y) (k ∷ inorder z) pair.post))
            strict_k)) in
      let here : Present compare k (inorder c) = subst (Present compare k) (sym keys_c) (
        Any-back (λ x. compare.cmp k x ≡ Ordering.eq) (inorder y) (k ∷ inorder z)
          (inl (compare.cmp_refl k))) in
      let (r, c', logs', eq, tree, ge, le, w, serves) =
        go c (equal_to k) tree_c (omega (arith, len)) (omega (arith, len)) strict_c here in
      let (front, gone, back) =
        one_place compare k (inorder y) (inorder z) w.front w.gone w.back
          (subst (Strict compare) keys_c strict_c) (sym keys_c ∙ w.old) w.meets.0 in
      let less = length-remove_at m keys (get_elem?-lt keys m key at_k) in
      let returned : r ≡ k = elim w.meets.1 [ inl e ↦ e ∙ gone | inr e ↦ e ] in
      (
        r,
        node false (remove_at m keys) (unlisted (set cs' m c')),
        logs',
        rw (merge_at-some s h narrow m keys cs y z key level at_y at_z at_k k poor_y poor_z)
            (rw (merged_here s h narrow m keys cs y z key level at_y at_z at_k c, eq) refl),
        inner-IsTree compare s j h (remove_at m keys) cs' m c'
            (merged-IsInner s h narrow m keys cs y z key level at_y at_z at_k k poor_y poor_z)
            ((omega (arith, len), omega (arith, len)), tree),
        omega (arith, less),
        omega (arith, less),
        gone-Removes (weave (remove_at m keys) (unlisted (set cs' m c'))) r (inr returned) (
            ap (λ (l : List (Node K)). weave (remove_at m keys) (unlisted l))
              (set-remove_above m cs c c')
            ∙ pair.one c'
            ∙ ap (λ (l : List K). pair.pre ++ (l ++ pair.post))
                (w.new
                  ∙ ap (λ (l : List K). l ++ w.back) front
                  ∙ ap (λ (l : List K). inorder y ++ l) back)
            ∙ ap (λ (l : List K). pair.pre ++ l) (append_assoc (inorder y) (inorder z) pair.post)),
        serves,
      )
