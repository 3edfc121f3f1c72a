-- ===== src/BTree/Insert.antt =====
-- `bt_insert` of btree-1.0/bt_code.c: what an insertion does to a tree.
use linux_examples.Base.{
  ℕ, suc, ◌+◌, ◌-◌, ◌*◌, ◌^◌, ◌≤◌, ◌<◌, ◌≡◌, ◌∙◌, sym, subst, refl, false, ◌⊎◌, inl, inr, Option,
  some, List, [], append-nil, arith, length, ◌==◌, Bool-cases, if◌then◌else◌,
}
use linux_examples.BTree.{Compare, Logs}
use linux_examples.BTree.Down.{Inserted, split_child-Parted}
use linux_examples.BTree.Node.{Node, node, nil, cons, keys_of, bt_insert, insert_nonfull}
use linux_examples.BTree.Nonfull.{insert_nonfull-Inserted}
use linux_examples.BTree.Order.{Sorted, Inserts, Inserts-Sorted}
use linux_examples.BTree.Place.{Serves}
use linux_examples.BTree.Shape.{inorder, weave, IsBtree}

module _ {K : Type 0} (compare : Compare K) (s j : ℕ) (k : K) where
  -- The tree that an insertion leaves, of height `h'`.
  abbrev Kept : ℕ → Node K → Option (Node K × Logs) → Type 0
  Kept h' r o =
      (r' : Node K) × (logs' : Logs) × (o ≡ some (r', logs'))
      × IsBtree compare s h' r'
      × Inserts compare k (inorder r) (inorder r')
      × Serves (2 * s + 1) j logs'

  Kept-Inserted :
      (h n : ℕ) (r : Node K) (o : Option (Node K × Logs))
      → Sorted compare (inorder r)
      → n ≤ 2 * s
      → (h ≡ 0) ⊎ (1 ≤ n)
      → Inserted compare s j k h (inorder r) n (n + 1) o
      → Kept h r o
  Kept-Inserted h n r o sorted few more (r', logs', eq, tree, ge, le, w, serves) =
      let some_keys : (h ≡ 0) ⊎ (1 ≤ length (keys_of r')) = elim more [
        | inl z ↦ inl z
        | inr one ↦ inr (omega arith)
      ] in
      (
        r',
        logs',
        eq,
        record {
          tree = tree;
          few = omega arith;
          some_keys = some_keys;
          sorted = Inserts-Sorted compare k (inorder r) (inorder r') w sorted;
        },
        w,
        serves,
      )

  -- bt_insert into a B-tree with t at least 2 and 2t - 1 less than 2 ^ 14, with a table of
  -- logarithms that serves for its nodes and fuel for a tree higher by one. It ends, the tree stays
  -- a B-tree, of the same height or, just if the root was full, higher by one, and its keys are
  -- those from before with the new one among them.
  pub bt_insert-Inserts :
      (h fuel : ℕ) (r : Node K) (logs : Logs)
      → 1 ≤ s
      → 2 * s + 1 < 2 ^ 14
      → h + 1 < fuel
      → IsBtree compare s h r
      → Serves (2 * s + 1) j logs
      → (r' : Node K) × (logs' : Logs) × (bt_insert compare fuel (suc s) (2 ^ suc j) r k logs
          ≡ some (r', logs'))
        × IsBtree compare s (if length (keys_of r) == 2 * s + 1 then h + 1 else h) r'
        × Inserts compare k (inorder r) (inorder r')
        × Serves (2 * s + 1) j logs'
  unfolding bt_insert weave
  bt_insert-Inserts h fuel r logs two narrow enough b serves =
      let same : 2 * suc s - 1 ≡ 2 * s + 1 = omega arith in
      elim (Bool-cases (length (keys_of r) == 2 * s + 1)) [
        | inl full ↦
            let n : length (keys_of r) ≡ 2 * s + 1 = ground arith in
            let up : h + 1 ≡ suc h = omega arith in
            let top : Node K = node false [] (cons r nil) in
            let w =
              split_child-Parted compare s j k h [] (cons r nil) 0 r narrow (omega arith) tt
                (refl, refl, (((omega (arith, n, two), b.few), b.tree), tt)) refl (ground arith) in
            let keys : weave w.keys' w.children' ≡ inorder r = w.same ∙ append-nil (inorder r) in
            let x : Node K = node false w.keys' w.children' in
            rw (same, full, up, w.made)
              (Kept-Inserted (suc h) (length w.keys') r
                (insert_nonfull compare fuel (suc s) (2 ^ suc j) x k logs) b.sorted
                (omega (arith, w.more)) (inr (omega (arith, w.more)))
                (subst
                  (λ (l : List K).
                    Inserted compare s j k (suc h) l (length w.keys') (length w.keys' + 1)
                      (insert_nonfull compare fuel (suc s) (2 ^ suc j) x k logs))
                  keys
                  (insert_nonfull-Inserted compare s j k fuel (suc h) x logs (omega arith) w.tree
                    (omega (arith, w.more)) (subst (Sorted compare) (sym keys) b.sorted) two narrow
                    serves)))
        | inr room ↦
            rw (same, room)
              (Kept-Inserted h (length (keys_of r)) r
                (insert_nonfull compare fuel (suc s) (2 ^ suc j) r k logs) b.sorted
                (ground (arith, b.few)) b.some_keys
                (insert_nonfull-Inserted compare s j k fuel h r logs (omega arith) b.tree
                  (ground (arith, b.few)) b.sorted two narrow serves))
      ]
