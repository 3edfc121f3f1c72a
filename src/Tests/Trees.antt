-- ===== src/Tests/Trees.antt =====
-- btree-1.0/bt_code.c at a concrete tree.
use linux_examples.Base.{
  ℕ, suc, ◌+◌, ◌*◌, ◌^◌, ◌≡◌, refl, true, false, ◌⊎◌, inl, inr, Option, some, List, [], ◌∷◌, ◌++◌,
  arith, length, ◌==◌, if◌then◌else◌,
}
use linux_examples.BTree.{Logs, findkindex, index_rounds, log2, enlarge, real_log2, log_rounds}
use mathlib.Core.Option
use linux_examples.BTree.Check.{check_node, height_from}
use linux_examples.BTree.Checked.{Decides, Chain, check_node-Chain}
use linux_examples.BTree.Context.{Present}
use linux_examples.BTree.Delete.{
  equal_to, bt_delete, delete_key, find_target, leaf_index, remove_at, merge_at,
}
use linux_examples.BTree.Deletion.{bt_delete-Removes}
use linux_examples.BTree.Find.{Finds, find_node_key-Finds}
use linux_examples.BTree.Insert.{bt_insert-Inserts}
use linux_examples.BTree.MinMax.{find_ends}
use linux_examples.BTree.Node.{
  Node, node, nil, cons, keys_of, bt_insert, find_node_key, find_max_node, find_min_node, fits,
}
use linux_examples.BTree.Order.{Sorted, Inserts}
use linux_examples.BTree.Place.{Serves}
use linux_examples.BTree.Removes.{Strict, Removes}
use linux_examples.BTree.Shape.{inorder, weave, IsTree, IsBtree}
use linux_examples.Tests.Nodes.{numbers, four_logs, four_logs-IsTable}

-- A root with one key and two leaves, where t is 2.
abbrev tree : Node ℕ
tree = node false (5 ∷ []) (cons (node true (3 ∷ []) nil) (cons (node true (7 ∷ 9 ∷ []) nil) nil))

tree-IsTree : IsTree 1 1 tree
tree-IsTree = (
  refl,
  refl,
  (((omega arith, omega arith), (refl, refl)), (((omega arith, omega arith), (refl, refl)), tt)),
)

tree-Strict : Strict numbers (inorder tree)
unfolding weave
tree-Strict = ground arith

tree-Sorted : Sorted numbers (inorder tree)
unfolding weave
tree-Sorted = ground arith

tree-IsBtree : IsBtree numbers 1 1 tree
tree-IsBtree = record {
  tree = tree-IsTree;
  few = omega arith;
  some_keys = inr (omega arith);
  sorted = tree-Sorted;
}

four_logs-Serves : Serves 3 0 four_logs
four_logs-Serves = (four_logs-IsTable, omega arith, omega arith)

five-Present : Present numbers 5 (inorder tree)
unfolding weave
five-Present = inr (inl refl)

bt_insert-Inserts_example :
    (r' : Node ℕ) × (logs' : Logs) × (bt_insert numbers 3 2 (2 ^ suc 0) tree 6 four_logs
      ≡ some (r', logs'))
    × IsBtree numbers 1 (if length (keys_of tree) == 2 * 1 + 1 then 1 + 1 else 1) r'
    × Inserts numbers 6 (inorder tree) (inorder r')
    × Serves (2 * 1 + 1) 0 logs'
bt_insert-Inserts_example =
    bt_insert-Inserts numbers 1 0 6 1 3 tree four_logs (omega arith) (omega arith) (omega arith)
      tree-IsBtree four_logs-Serves

find_node_key-Finds_example :
    (answer : Option ℕ) × (logs' : Logs) × (find_node_key numbers 2 (2 ^ suc 0) tree 7 four_logs
      ≡ some (answer, logs'))
    × Finds numbers 7 (inorder tree) answer
    × Serves (2 * 1 + 1) 0 logs'
find_node_key-Finds_example =
    find_node_key-Finds numbers 7 1 0 1 2 tree four_logs (omega arith) tree-IsBtree four_logs-Serves

find_ends_example :
    ((a : ℕ) × (front : List ℕ) × (find_max_node 2 tree ≡ some a)
      × (inorder tree ≡ front ++ a ∷ []))
    × ((a : ℕ) × (back : List ℕ) × (find_min_node 2 tree ≡ some a) × (inorder tree ≡ a ∷ back))
find_ends_example = find_ends 1 (omega arith) 2 1 tree (omega arith) tree-IsTree (omega arith)

bt_delete-Removes_example :
    (gone : ℕ) × (r' : Node ℕ) × (logs' : Logs) × (h' : ℕ) × (bt_delete numbers 2 2
        (2 ^ suc 0)
        tree
        5
        four_logs
      ≡ some (gone, r', logs'))
    × ((h' ≡ 1) ⊎ (suc h' ≡ 1))
    × IsBtree numbers 1 h' r'
    × Removes numbers (equal_to 5) (inorder tree) gone (inorder r')
    × Serves (2 * 1 + 1) 0 logs'
bt_delete-Removes_example =
    bt_delete-Removes numbers 1 0 (omega arith) (omega arith) 1 2 tree 5 four_logs (omega arith)
      tree-IsBtree tree-Strict five-Present four_logs-Serves

check_node-Chain_example :
    Decides (check_node numbers 2 2 tree 0 10 true) (Chain numbers 0 (inorder tree) 10)
check_node-Chain_example =
    check_node-Chain numbers 1 2 1 tree 0 10 (omega arith) (omega arith) tree-IsTree (omega arith)
      (omega arith)

tree_height : height_from 2 tree 0 ≡ some 2
unfolding height_from
tree_height = refl

-- A deletion that takes the first key of the next leaf, and one that merges two leaves and ends
-- with a lower tree.
delete_five :
    bt_delete numbers 2 2 2 tree 5 four_logs
    ≡ some (
      5,
      node false (7 ∷ []) (cons (node true (3 ∷ []) nil) (cons (node true (9 ∷ []) nil) nil)),
      four_logs,
    )
unfolding bt_delete delete_key find_target leaf_index findkindex index_rounds remove_at
delete_five = refl

merge_five :
    Option.map {B = ℕ × Node ℕ}
      (λ (d : ℕ × Node ℕ × Logs). (d.0, d.1))
      (bt_delete numbers 2 2 2
        (node false (5 ∷ []) (cons (node true (3 ∷ []) nil) (cons (node true (7 ∷ []) nil) nil)))
        5
        four_logs)
    ≡ some (5, node true (3 ∷ 7 ∷ []) nil)
unfolding bt_delete delete_key merge_at fits find_target leaf_index findkindex index_rounds
    remove_at log2 enlarge real_log2 log_rounds
merge_five = refl
