-- ===== src/BTree/Nonfull.antt =====
-- `btreeinsertnonfull` of btree-1.0/bt_code.c: what it does to a tree whose root is not full.
use Prim.Native.Nat.{Ordering}
use linux_examples.Base.{
  ℕ, zero, suc, ◌+◌, ◌-◌, ◌*◌, ◌^◌, ◌≤◌, ◌<◌, ◌≡◌, sym, subst, refl, true, false, inl, inr, Option,
  some, List, arith, length, get_elem?, set, ◌==◌, Bool-cases,
}
use linux_examples.Base.Maybe.{◌>>=◌}
use linux_examples.BTree.{Compare, Logs}
use linux_examples.BTree.Down.{Inserted, into, into-Inserted, Parted, split_child-Parted}
use linux_examples.BTree.Lists.{length-insert_at, All-get_elem?, reached}
use linux_examples.BTree.Node.{
  Node, Nodes, node, listed, unlisted, insert_at, split_child, fits-le, keys_of, children_of,
  insert_nonfull,
}
use linux_examples.BTree.Order.{Le, Le_of_ge, Ordering-cases, Sorted, Inserts}
use linux_examples.BTree.Place.{Serves, findkindex-At}
use linux_examples.BTree.Shape.{inorder, weave, weave_leaf, unlisted-listed, IsTree, Fits}
use linux_examples.BTree.Weave.{
  Around, Around-At, Around-le, Sorted-keys, Sorted-child, insert_at-Inserts,
}

module _ {K : Type 0} (compare : Compare K) (s j : ℕ) (k : K) where
  Inserted-wider :
      (h : ℕ) (xs ys : List K) (lo lo' hi hi' : ℕ) (r : Option (Node K × Logs))
      → xs ≡ ys
      → lo' ≤ lo
      → hi ≤ hi'
      → Inserted compare s j k h xs lo hi r
      → Inserted compare s j k h ys lo' hi' r
  Inserted-wider h xs ys lo lo' hi hi' r e less more (x', logs', eq, tree, ge, le, w, serves) = (
    x',
    logs',
    eq,
    tree,
    omega arith,
    omega arith,
    subst (λ (l : List K). Inserts compare k l (inorder x')) e w,
    serves,
  )

  -- What the recursion gives for a child that is not full.
  abbrev Goes : ℕ → ℕ → Logs → Type 0
  Goes fuel h logs =
      (d : Node K)
      → IsTree s h d
      → length (keys_of d) ≤ 2 * s
      → Sorted compare (inorder d)
      → Inserted compare s j k h (inorder d) (length (keys_of d)) (length (keys_of d) + 1)
          (insert_nonfull compare fuel (suc s) (2 ^ suc j) d k logs)

  go_into :
      (fuel h : ℕ) (keys : List K) (children : Nodes K) (i : ℕ) (d : Node K) (logs : Logs)
      → Goes fuel h logs
      → Around compare k i keys
      → IsTree s (suc h) (node false keys children)
      → get_elem? (listed children) i ≡ some d
      → Sorted compare (weave keys children)
      → length (keys_of d) ≤ 2 * s
      → Inserted compare s j k
          (suc h)
          (weave keys children)
          (length keys)
          (length keys)
          (into compare s j k fuel keys children i logs)
  go_into fuel h keys children i d logs go a tree at sorted few =
      let P : Node K → Type 0 = λ c. Fits s c × IsTree s h c in
      into-Inserted compare s j k h fuel keys children i d logs a tree at sorted few (
        go d (All-get_elem? P (listed children) i d tree.2 at).1 few (
          Sorted-child compare keys (listed children) i d at (
            subst (λ (c : Nodes K). Sorted compare (weave keys c)) (sym (unlisted-listed children))
              sorted)))

  -- The part of `btreeinsertnonfull` behind the split of a full child.
  after_split :
      (fuel h : ℕ) (keys : List K) (children : Nodes K) (i : ℕ) (logs : Logs)
      (w : Parted compare s j k h keys children i)
      → Goes fuel h logs
      → Sorted compare (weave keys children)
      → 1 ≤ s
      → Inserted compare s j k
          (suc h)
          (weave keys children)
          (length keys)
          (length keys + 1)
          (elim (compare.cmp k w.middle) [
            | Ordering.gt ↦ into compare s j k fuel w.keys' w.children' (i + 1) logs
            | _ ↦ into compare s j k fuel w.keys' w.children' i logs
          ])
  after_split fuel h keys children i logs w go sorted two =
      let sorted' = subst (Sorted compare) (sym w.same) sorted in
      let to_low : Le compare k w.middle
          → Inserted compare s j k (suc h) (weave keys children) (length keys) (length keys + 1)
              (into compare s j k fuel w.keys' w.children' i logs) =
        λ le.
          Inserted-wider (suc h) (weave w.keys' w.children') (weave keys children) (length w.keys')
            (length keys) (length w.keys') (length keys + 1)
            (into compare s j k fuel w.keys' w.children' i logs) w.same (omega (arith, w.more))
            (omega (arith, w.more))
            (go_into fuel h w.keys' w.children' i w.low logs go (w.left le) w.tree w.at_low sorted'
              (omega (arith, w.n_low))) in
      elim (Ordering-cases (compare.cmp k w.middle)) [
        | inl o ↦ rw o (to_low (λ gt. ground (arith, o, gt)))
        | inr (inl o) ↦ rw o (to_low (λ gt. ground (arith, o, gt)))
        | inr (inr o) ↦ rw o (
            Inserted-wider (suc h) (weave w.keys' w.children') (weave keys children)
              (length w.keys') (length keys) (length w.keys') (length keys + 1)
              (into compare s j k fuel w.keys' w.children' (i + 1) logs) w.same
              (omega (arith, w.more)) (omega (arith, w.more))
              (go_into fuel h w.keys' w.children' (i + 1) w.high logs go
                (w.right (Le_of_ge compare k w.middle (λ lt. ground (arith, o, lt)))) w.tree
                w.at_high sorted' (omega (arith, w.n_high))))
      ]

  split_first :
      (fuel h : ℕ) (keys : List K) (children : Nodes K) (i : ℕ) (logs : Logs)
      (w : Parted compare s j k h keys children i)
      → Goes fuel h logs
      → Sorted compare (weave keys children)
      → 1 ≤ s
      → Inserted compare s j k (suc h) (weave keys children) (length keys) (length keys + 1) (
          split_child (suc s) (node false keys children) i >>= λ x'.
          get_elem? (keys_of x') i >>= λ key. elim (compare.cmp k key) [
            | Ordering.gt ↦
                (get_elem? (children_of x') (i + 1) >>= λ child.
                insert_nonfull compare fuel (suc s) (2 ^ suc j) child k logs >>= λ r.
                some (node false (keys_of x') (unlisted (set (children_of x') (i + 1) r.0)), r.1))
            | _ ↦
                (get_elem? (children_of x') i >>= λ child.
                insert_nonfull compare fuel (suc s) (2 ^ suc j) child k logs >>= λ r.
                some (node false (keys_of x') (unlisted (set (children_of x') i r.0)), r.1))
          ])
  split_first fuel h keys children i logs w go sorted two =
      rw (w.made, w.at_middle) (after_split fuel h keys children i logs w go sorted two)

  pub insert_nonfull-Inserted :
      (fuel h : ℕ) (x : Node K) (logs : Logs)
      → h < fuel
      → IsTree s h x
      → length (keys_of x) ≤ 2 * s
      → Sorted compare (inorder x)
      → 1 ≤ s
      → 2 * s + 1 < 2 ^ 14
      → Serves (2 * s + 1) j logs
      → Inserted compare s j k h
          (inorder x)
          (length (keys_of x))
          (length (keys_of x) + 1)
          (insert_nonfull compare fuel (suc s) (2 ^ suc j) x k logs)
  unfolding insert_nonfull weave
  insert_nonfull-Inserted zero h x logs enough tree few sorted two narrow serves =
      absurd (omega arith)
  insert_nonfull-Inserted (suc fuel) zero (node leaf keys children) logs enough tree few sorted two
        narrow serves =
      let (p, logs', eq, at, answer, serves') =
        findkindex-At compare keys k (2 * s + 1) j logs (Sorted-keys compare keys children sorted)
          (omega arith) serves in
      let a = Around-At compare k p.0 keys at in
      let flat = weave_leaf keys children tree.1 in
      rw (eq, tree.0, fits-le s (length keys + 1) narrow (omega arith))
        (
          node true (insert_at p.0 k keys) children,
          logs',
          refl,
          (refl, tree.1),
          omega (arith, length-insert_at p.0 k keys),
          omega (arith, length-insert_at p.0 k keys),
          rw (flat, weave_leaf (insert_at p.0 k keys) children tree.1)
              (insert_at-Inserts compare k p.0 keys a (Sorted-keys compare keys children sorted)),
          serves',
        )
  insert_nonfull-Inserted (suc fuel) (suc h) (node true keys children) logs enough tree few sorted
        two narrow serves =
      absurd (ground (arith, tree.0))
  insert_nonfull-Inserted (suc fuel) (suc h) (node false keys children) logs enough tree few sorted
        two narrow serves =
      let (p, logs', eq, at, answer, serves') =
        findkindex-At compare keys k (2 * s + 1) j logs (Sorted-keys compare keys children sorted)
          (omega arith) serves in
      let a = Around-At compare k p.0 keys at in
      let (d, at_d) =
        reached (listed children) p.0 (omega (arith, tree.1, Around-le compare k p.0 keys a)) in
      let P : Node K → Type 0 = λ c. Fits s c × IsTree s h c in
      let old = All-get_elem? P (listed children) p.0 d tree.2 at_d in
      let go : Goes fuel h logs' = λ c t n sorted.
        insert_nonfull-Inserted fuel h c logs' (omega arith) t n sorted two narrow serves' in
      elim (Bool-cases (length (keys_of d) == 2 * suc s - 1)) [
        | inl full ↦
            let w =
              split_child-Parted compare s j k h keys children p.0 d narrow few a
                (refl, tree.1, tree.2) at_d (ground arith) in
            rw (eq, at_d, full) (split_first fuel h keys children p.0 logs' w go sorted two)
        | inr room ↦
            rw (eq, at_d, room)
              (rw at_d at (
                Inserted-wider (suc h) (weave keys children) (weave keys children) (length keys)
                  (length keys) (length keys) (length keys + 1)
                  (into compare s j k fuel keys children p.0 logs') refl (omega arith) (omega arith)
                  (go_into fuel h keys children p.0 d logs' go a (refl, tree.1, tree.2) at_d sorted
                    (ground arith))))
      ]
