-- ===== src/Tests/Nodes.antt =====
-- btree-1.0/bt_code.c at a concrete node.
use Prim.Native.Nat.{compare}
use linux_examples.Base.{
  ℕ, zero, suc, ◌+◌, ◌^◌, ◌≤◌, ◌<◌, ◌≡◌, ◌≢◌, refl, Bool, true, false, Option, some, none, List, [],
  ◌∷◌, arith, ltb, length, ◌⊎◌, inl,
}
use linux_examples.Base.Powers.{IsLog}
use linux_examples.BTree.Create.{IsSized, bt_create-IsSized}
use linux_examples.BTree.{
  room, activates, activates_unset, bt_create, Btree, Compare, Logs, log2, real_log2, log_rounds,
  Place, findkindex, findkindex_safe, index_rounds,
}
use linux_examples.BTree.Node.{
  Node, node, nil, cons, split_child, fits, bt_insert, halves, insert_nonfull, take, drop,
  insert_at,
}
use linux_examples.BTree.Shape.{inorder}
use linux_examples.BTree.Split.{IsFull, split_child-inorder}
use linux_examples.BTree.Log.{IsTable, log2-IsLog}
use linux_examples.BTree.FindIndex.{IsSorted, findkindex-findkindex_safe}

abbrev pub numbers : Compare ℕ
numbers = record {
  cmp = compare;
  cmp_refl = λ a. ground arith;
  lt_of_gt = λ a b. ground arith;
  gt_of_lt = λ a b. ground arith;
  cmp_trans = λ a b c. ground arith;
}

abbrev no_logs : Logs
no_logs = record { alloced = 0; table = [] }

no_logs-IsTable : IsTable no_logs
no_logs-IsTable = record { len = refl; filled = λ a pos. tt }

-- The logarithm of 3, in 4 bits.
real_log2_3 : real_log2 3 4 ≡ 1
unfolding real_log2 log_rounds
real_log2_3 = refl

log2-IsLog_example :
    (l : ℕ) × (logs : Logs) × (log2 3 (2 ^ suc 1) no_logs ≡ some (l, logs))
    × IsLog l 3
    × IsTable logs
    × (3 < logs.alloced)
    × (0 ≤ logs.alloced)
    × (3 < 0 → logs.alloced ≡ 0)
log2-IsLog_example =
    log2-IsLog 1 3 no_logs no_logs-IsTable (omega arith) (omega arith) (ground arith)

abbrev pub four_logs : Logs
four_logs = record { alloced = 4; table = none ∷ none ∷ none ∷ none ∷ [] }

pub four_logs-IsTable : IsTable four_logs
four_logs-IsTable = record { len = refl; filled = filled }
  where
    filled :
        (a : ℕ)
        → 1 ≤ a
        → linux_examples.BTree.Log.IsFilled (linux_examples.Base.get_or four_logs.table a none) a
    filled zero pos = tt
    filled (suc zero) pos = tt
    filled (suc (suc zero)) pos = tt
    filled (suc (suc (suc zero))) pos = tt
    filled (suc (suc (suc (suc a)))) pos = tt

abbrev keys : List ℕ
keys = 3 ∷ 5 ∷ []

keys-IsSorted : IsSorted numbers keys 5 0
keys-IsSorted zero zero le lt = ground arith
keys-IsSorted zero (suc zero) le lt = ground arith
keys-IsSorted (suc i) zero le lt = absurd (omega arith)
keys-IsSorted (suc zero) (suc zero) le lt = ground arith
keys-IsSorted (suc (suc i)) (suc zero) le lt = absurd (omega arith)
keys-IsSorted i (suc (suc j)) le lt = absurd (omega arith)

findkindex-findkindex_safe_example :
    (r : Place numbers) × (logs : Logs) × (findkindex numbers keys 5 (2 ^ suc 1) four_logs
      ≡ some (r, logs))
    × (findkindex_safe numbers keys 5 ≡ some r)
    × IsTable logs
    × (logs.alloced ≡ 4)
findkindex-findkindex_safe_example =
    findkindex-findkindex_safe numbers keys 5 0 1 four_logs keys-IsSorted four_logs-IsTable
      (omega arith) (omega arith)

-- A size of 128 bytes has room for 6 keys, of which 5 are used.
bt_create-IsSized_example :
    ((room 128 < 3) × (bt_create 128 no_logs ≡ some (activates_unset, no_logs)))
    ⊎ ((btr : Btree) × (logs : Logs) × (bt_create 128 no_logs ≡ some (activates btr, logs))
        × IsSized 128 logs btr
        × IsTable logs)
unfolding room
bt_create-IsSized_example =
    bt_create-IsSized 128 no_logs (omega arith) no_logs-IsTable (ground arith)

-- A node with a full child between two others, where t is 2.
abbrev full_child : Node ℕ
full_child = node true (3 ∷ 5 ∷ 7 ∷ []) nil

abbrev parent : Node ℕ
parent =
    node false (2 ∷ 9 ∷ [])
      (cons (node true (1 ∷ []) nil) (cons full_child (cons (node true (10 ∷ []) nil) nil)))

full_child-IsFull : IsFull 1 full_child
full_child-IsFull = record { n = refl; below = inl refl }

split_child-inorder_example :
    (x' : Node ℕ) × (split_child 2 parent 1 ≡ some x') × (inorder x' ≡ inorder parent)
split_child-inorder_example =
    split_child-inorder 1 parent full_child 1 (omega arith) (omega arith) (omega arith) refl
      full_child-IsFull

-- The insertion of a key into a full root.
full_root :
    bt_insert numbers 3 2 4 full_child 4 four_logs
    ≡ some (
      node false (5 ∷ []) (cons (node true (3 ∷ 4 ∷ []) nil) (cons (node true (7 ∷ []) nil) nil)),
      four_logs,
    )
unfolding bt_insert split_child fits halves insert_nonfull take drop insert_at findkindex
    index_rounds
full_root = refl
