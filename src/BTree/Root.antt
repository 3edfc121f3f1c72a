-- ===== src/BTree/Root.antt =====
-- The end of `bt_delete` of btree-1.0/bt_code.c: the root, and what becomes of it.
use linux_examples.Base.{
  ℕ, zero, suc, ◌+◌, ◌*◌, ◌≤◌, ◌≡◌, ◌∙◌, sym, ap, subst, refl, ◌&&◌, not, Option, some, List, [],
  ◌∷◌, ◌++◌, append-nil, arith, ◌⊎◌, inl, inr, ◌==◌, Bool-cases, if◌then◌else◌, length, get_elem?,
}
use linux_examples.Base.Maybe.{◌>>=◌}
use linux_examples.BTree.{Compare, Logs}
use linux_examples.BTree.Context.{Present, Context-at}
use linux_examples.BTree.Lists.{reached, All-get_elem?}
use linux_examples.BTree.Move.{IsChild}
use linux_examples.BTree.Node.{Node, node, listed, is_leaf, keys_of, children_of}
use linux_examples.BTree.Order.{Sorted}
use linux_examples.BTree.Shape.{inorder, weave, weave_leaf, unlisted-listed, IsTree, IsBtree}

module _ {K : Type 0} (compare : Compare K) (s : ℕ) (two : 1 ≤ s) where
  -- The end of `bt_delete`: an inner root with no key gives way to its child.
  abbrev pub shrunk : K × Node K × Logs → Option (K × Node K × Logs)
  shrunk d =
      if length (keys_of d.1) == 0 && not (is_leaf d.1)
      then (get_elem? (children_of d.1) 0 >>= λ c. some (d.0, c, d.2))
      else some d

  pub root_step :
      (h : ℕ) (x : Node K) (gone : K) (logs : Logs)
      → IsTree s h x
      → length (keys_of x) ≤ 2 * s + 1
      → Sorted compare (inorder x)
      → (r' : Node K) × (h' : ℕ) × (shrunk (gone, x, logs) ≡ some (gone, r', logs))
        × ((h' ≡ h) ⊎ (suc h' ≡ h))
        × IsBtree compare s h' r'
        × (inorder r' ≡ inorder x)
  unfolding weave
  root_step zero (node leaf keys children) gone logs tree few sorted =
      let stays : shrunk (gone, node leaf keys children, logs)
          ≡ some (gone, node leaf keys children, logs) =
        elim (Bool-cases (length keys == 0)) [
          | inl e ↦ rw (tree.0, e) refl
          | inr e ↦ rw (tree.0, e) refl
        ] in
      (
        node leaf keys children,
        0,
        stays,
        inl refl,
        record { tree = tree; few = few; some_keys = inl refl; sorted = sorted },
        refl,
      )
  root_step (suc h) (node leaf keys children) gone logs tree few sorted =
      elim (Bool-cases (length keys == 0)) [
        | inr e ↦ (
          node leaf keys children,
          suc h,
          (rw (e, tree.0) refl),
          inl refl,
          record { tree = tree; few = few; some_keys = inr (ground arith); sorted = sorted },
          refl,
        )
        | inl e ↦
            let none_left : length keys ≡ 0 = ground arith in
            let (c, at) = reached (listed children) 0 (omega (arith, tree.1)) in
            let fit = All-get_elem? (IsChild s h) (listed children) 0 c tree.2 at in
            let w = Context-at 0 keys (listed children) c tree.1 at in
            let same : inorder c ≡ weave keys children =
              sym (append-nil (inorder c))
              ∙ ap (λ (l : List K). inorder c ++ l) (sym (w.last (sym none_left)))
              ∙ ap (λ (l : List K). l ++ (inorder c ++ w.post)) (sym (w.first refl))
              ∙ sym w.here
              ∙ ap (weave keys) (unlisted-listed children) in
            (
              c,
              h,
              (rw (e, tree.0, at) refl),
              inr refl,
              record {
                tree = fit.1;
                few = fit.0.1;
                some_keys = inr (omega (arith, fit.0.0));
                sorted = subst (Sorted compare) (sym same) sorted;
              },
              same,
            )
      ]

  pub root_keys :
      (h : ℕ) (k : K) (r : Node K)
      → IsTree s h r
      → (h ≡ 0) ⊎ (1 ≤ length (keys_of r))
      → Present compare k (inorder r)
      → 1 ≤ length (keys_of r)
  unfolding weave
  root_keys h k r tree (inr more) here = more
  root_keys zero k (node leaf [] children) tree (inl z) here =
      absurd (subst (Present compare k) (weave_leaf [] children tree.1) here)
  root_keys zero k (node leaf (x ∷ xs) children) tree (inl z) here = omega arith
  root_keys (suc h) k r tree (inl z) here = absurd (omega arith)
