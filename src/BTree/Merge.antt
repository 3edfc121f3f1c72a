-- ===== src/BTree/Merge.antt =====
-- Case 3b of `nodedeletekey` of btree-1.0/bt_code.c: what a merge of two children leaves.
use linux_examples.Base.{
  ℕ, suc, ◌+◌, ◌*◌, ◌^◌, ◌<◌, ◌≡◌, ◌∙◌, sym, ap, refl, some, List, [], ◌∷◌, ◌++◌, append_assoc,
  append-nil, arith, ◌⊎◌, inl, inr, length, length-set, get_elem?, get_elem?-lt, set,
}
use linux_examples.BTree.Delete.{remove_at, merged, merge_at}
use linux_examples.BTree.Level.{merged-IsTree}
use linux_examples.BTree.Lists.{get_elem?-set, All-set, All-get_elem?}
use linux_examples.BTree.Move.{IsChild, IsInner, Moved}
use linux_examples.BTree.Node.{fits-le, Node, keys_of}
use linux_examples.BTree.Pair.{
  length-remove_at, All-remove_at, get_elem?-remove_after, Pair, Pair-at,
}
use linux_examples.BTree.Shape.{inorder}

module _ {K : Type 0} (s h : ℕ) where
  module _ (narrow : 2 * s + 1 < 2 ^ 14) (m : ℕ) (keys : List K) (cs : List (Node K)) (y z : Node K)
      (k : K) (level : IsInner s h keys cs) (at_y : get_elem? cs m ≡ some y)
      (at_z : get_elem? cs (suc m) ≡ some z) (at_k : get_elem? keys m ≡ some k) where
    pair : Pair m keys cs y z k
    pair = Pair-at m keys cs y z k at_k at_y at_z

    old_y : IsChild s h y
    old_y = All-get_elem? (IsChild s h) cs m y level.1 at_y

    old_z : IsChild s h z
    old_z = All-get_elem? (IsChild s h) cs (suc m) z level.1 at_z

    -- A merge, whichever of the two children is to be gone down to.
    pub merge_at-some :
        (k' : K)
        → length (keys_of y) ≡ s
        → length (keys_of z) ≡ s
        → merge_at (suc s) m k' keys cs
          ≡ some (remove_at m keys, remove_at (suc m) (set cs m (merged y k' z)))
    unfolding merge_at
    merge_at-some k' poor_y poor_z =
        let next : m + 1 ≡ suc m = omega arith in
        let (tree, keys_c, len) = merged-IsTree s h y z k' old_y.1 old_z.1 in
        let room = fits-le s (length (keys_of (merged y k' z))) narrow (omega (arith, len)) in
        rw (next, at_y, at_z, room) refl

    pub merged-IsInner :
        (k' : K)
        → length (keys_of y) ≡ s
        → length (keys_of z) ≡ s
        → IsInner s h (remove_at m keys) (remove_at (suc m) (set cs m (merged y k' z)))
    merged-IsInner k' poor_y poor_z =
        let c = merged y k' z in
        let (tree, keys_c, len) = merged-IsTree s h y z k' old_y.1 old_z.1 in
        let less = length-remove_at m keys (get_elem?-lt keys m k at_k) in
        let in_cs = get_elem?-lt cs (suc m) z at_z in
        let less_cs = length-remove_at (suc m) (set cs m c) (omega (arith, length-set cs m c)) in
        (
          omega (arith, level.0, less, less_cs, length-set cs m c),
          All-remove_at (IsChild s h) (suc m) (set cs m c) (
              All-set (IsChild s h) cs m c level.1
                ((omega (arith, len), omega (arith, len)), tree)),
        )

    pub merged_here : (c : Node K) → get_elem? (remove_at (suc m) (set cs m c)) m ≡ some c
    merged_here c =
        get_elem?-remove_after m (set cs m c) c (get_elem?-set cs m c (get_elem?-lt cs m y at_y))

    pub merge_at-Moved :
        (i : ℕ) (x : Node K)
        → (i ≡ m) × (x ≡ y) ⊎ (i ≡ suc m) × (x ≡ z)
        → length (keys_of y) ≡ s
        → length (keys_of z) ≡ s
        → Moved s h keys cs i x m (merge_at (suc s) m k keys cs)
    merge_at-Moved i x which poor_y poor_z =
        let c = merged y k z in
        let (tree, keys_c, len) = merged-IsTree s h y z k old_y.1 old_z.1 in
        let in_keys = get_elem?-lt keys m k at_k in
        let less = length-remove_at m keys in_keys in
        let (front, back, covers) : (front : List K) × (back : List K) × (inorder c
              ≡ front ++ (inorder x ++ back)) =
          elim which [
            | inl e ↦ (
              [],
              k ∷ inorder z,
              keys_c ∙ ap (λ (t : Node K). inorder t ++ k ∷ inorder z) (sym e.1),
            )
            | inr e ↦ (
              inorder y ++ k ∷ [],
              [],
              keys_c
                  ∙ sym (append_assoc (inorder y) (k ∷ []) (inorder z))
                  ∙ ap (λ (t : Node K). (inorder y ++ k ∷ []) ++ inorder t) (sym e.1)
                  ∙ ap (λ (l : List K). (inorder y ++ k ∷ []) ++ l) (sym (append-nil (inorder x))),
            )
          ] in
        record {
          keys' = remove_at m keys;
          cs' = remove_at (suc m) (set cs m c);
          c = c;
          made = merge_at-some k poor_y poor_z;
          inner = merged-IsInner k poor_y poor_z;
          at = merged_here c;
          big = omega (arith, len);
          same =
              pair.one c
              ∙ ap (λ (l : List K). pair.pre ++ (l ++ pair.post)) keys_c
              ∙ ap (λ (l : List K). pair.pre ++ l)
                  (append_assoc (inorder y) (k ∷ inorder z) pair.post)
              ∙ sym pair.here;
          fewer = omega (arith, less);
          no_more = omega (arith, less);
          first = λ e. elim which [ inl w ↦ sym w.0 ∙ e | inr w ↦ absurd (omega (arith, w.0, e)) ];
          last = λ e. elim which [
            | inl w ↦ absurd (omega (arith, w.0, e, in_keys))
            | inr w ↦ omega (arith, w.0, e, less)
          ];
          front = front;
          back = back;
          covers = covers;
        }
