-- ===== src/BTree/Deletion.antt =====
-- `nodedeletekey` and `bt_delete` of btree-1.0/bt_code.c: what a deletion does to a tree.
use linux_examples.Base.{
  ℕ, zero, suc, ◌+◌, ◌-◌, ◌*◌, ◌^◌, ◌≤◌, ◌<◌, ◌≡◌, sym, subst, refl, true, false, Option, some,
  List, arith, ◌⊎◌, inl, inr, length,
}
use linux_examples.BTree.{Compare, Logs}
use linux_examples.BTree.Context.{Present, Present-child}
use linux_examples.BTree.Delete.{
  Target, equal_to, greatest, least, find_target, delete_key, bt_delete,
}
use linux_examples.BTree.Descend.{Wanted, Deleted, Deletes, case3-Deleted}
use linux_examples.BTree.Lists.{reached}
use linux_examples.BTree.Node.{Node, Nodes, node, listed, unlisted, keys_of}
use linux_examples.BTree.Place.{Serves, findkindex-At, findkindex-ne-none}
use linux_examples.BTree.Removal.{on_r, in_leaf, case2-Deleted}
use linux_examples.BTree.Removes.{Strict, Strict-Sorted, Strict-remove, Removes}
use linux_examples.BTree.Root.{root_step, root_keys}
use linux_examples.BTree.Shape.{inorder, weave, weave_leaf, unlisted-listed, IsTree, IsBtree}
use linux_examples.BTree.Weave.{Around-At, Around-le, Sorted-keys}

module _ {K : Type 0} (compare : Compare K) (s j : ℕ) (two : 1 ≤ s)
    (narrow : 2 * s + 1 < 2 ^ 14) where
  -- A statement on the keys with the children as a list.
  listed-Deleted :
      (h : ℕ) (target : Target K) (keys : List K) (children : Nodes K)
      {o : Option (K × Node K × Logs)}
      → Deleted compare s j h target (weave keys (unlisted (listed children))) (length keys) o
      → Deleted compare s j h target (weave keys children) (length keys) o
  listed-Deleted h target keys children {o} d =
      subst (λ (l : Nodes K). Deleted compare s j h target (weave keys l) (length keys) o)
        (unlisted-listed children) d

  delete_key-Deleted :
      (fuel h : ℕ) (x : Node K) (target : Target K) (logs : Logs)
      → h < fuel
      → IsTree s h x
      → 1 ≤ length (keys_of x)
      → length (keys_of x) ≤ 2 * s + 1
      → Strict compare (inorder x)
      → Wanted compare s j target (inorder x)
      → Serves (2 * s + 1) j logs
      → Deleted compare s j h target
          (inorder x)
          (length (keys_of x))
          (delete_key compare fuel (suc s) (2 ^ suc j) x target logs)
  unfolding delete_key find_target weave
  delete_key-Deleted zero h x target logs enough tree more few strict wanted serves =
      absurd (omega arith)
  delete_key-Deleted (suc fuel) zero (node false keys children) target logs enough tree more few
        strict wanted serves =
      absurd (ground (arith, tree.0))
  delete_key-Deleted (suc fuel) zero (node true keys children) target logs enough tree more few
        strict wanted serves =
      let flat = weave_leaf keys children tree.1 in
      in_leaf compare s j target keys children logs tree.1 more few
        (subst (Strict compare) flat strict) (subst (Wanted compare s j target) flat wanted) serves
  delete_key-Deleted (suc fuel) (suc h) (node true keys children) target logs enough tree more few
        strict wanted serves =
      absurd (ground (arith, tree.0))
  delete_key-Deleted (suc fuel) (suc h) (node false keys children) (equal_to k) logs enough tree
        more few strict wanted serves =
      let sorted =
        Sorted-keys compare keys children (Strict-Sorted compare (weave keys children) strict) in
      let (p, logs', eq, at, answer, serves') =
        findkindex-At compare keys k (2 * s + 1) j logs sorted few serves in
      let ne =
        findkindex-ne-none compare keys k (2 * s + 1) j logs p logs' sorted few serves more eq in
      let go : Deletes compare s j fuel h logs' = λ c target t n m st w.
        delete_key-Deleted fuel h c target logs' (omega arith) t n m st w serves' in
      let back = unlisted-listed children in
      let strict' = subst (λ (l : Nodes K). Strict compare (weave keys l)) (sym back) strict in
      let D : List K → Option (K × Node K × Logs) → Type 0 =
        λ l. Deleted compare s j (suc h) (equal_to k) l (length keys) in
      rw eq (
        on_r compare s j (D (weave keys children)) _ _ p.1 ne
          (λ e. elim answer [
            | inl hit ↦
                let (m, key, place_m, at_m, same) = hit.1 in
                let here : p.0 - 1 ≡ m = omega (arith, place_m) in
                rw here (
                  listed-Deleted (suc h) (equal_to k) keys children (
                    case2-Deleted compare s j fuel h k keys (listed children) m key logs' _ narrow
                      go (tree.1, tree.2) at_m strict' same))
            | inr miss ↦ absurd (miss.0 e)
          ])
          (λ e. elim answer [
            | inl hit ↦ absurd (e hit.0)
            | inr miss ↦
                let a = Around-At compare k p.0 keys at in
                let (c, at_c) =
                  reached (listed children) p.0
                    (omega (arith, tree.1, Around-le compare k p.0 keys a)) in
                let here =
                  Present-child compare k p.0 keys (listed children) c miss.1 tree.1 at_c
                    (Strict-Sorted compare (weave keys (unlisted (listed children))) strict')
                    (subst (λ (l : Nodes K). Present compare k (weave keys l)) (sym back) wanted) in
                listed-Deleted (suc h) (equal_to k) keys children (
                  case3-Deleted compare s j fuel h (equal_to k) keys (listed children) p.0 c logs'
                    narrow go (tree.1, tree.2) at_c more strict' here tt)
          ]))
  delete_key-Deleted (suc fuel) (suc h) (node false keys children) greatest logs enough tree more
        few strict wanted serves =
      let go : Deletes compare s j fuel h logs = λ c target t n m st w.
        delete_key-Deleted fuel h c target logs (omega arith) t n m st w serves in
      let back = unlisted-listed children in
      let (c, at_c) = reached (listed children) (length keys) (omega (arith, tree.1)) in
      listed-Deleted (suc h) greatest keys children (
        case3-Deleted compare s j fuel h greatest keys (listed children) (length keys) c logs narrow
          go (tree.1, tree.2) at_c more
          (subst (λ (l : Nodes K). Strict compare (weave keys l)) (sym back) strict) tt refl)
  delete_key-Deleted (suc fuel) (suc h) (node false keys children) least logs enough tree more few
        strict wanted serves =
      let go : Deletes compare s j fuel h logs = λ c target t n m st w.
        delete_key-Deleted fuel h c target logs (omega arith) t n m st w serves in
      let back = unlisted-listed children in
      let (c, at_c) = reached (listed children) 0 (omega (arith, tree.1)) in
      listed-Deleted (suc h) least keys children (
        case3-Deleted compare s j fuel h least keys (listed children) 0 c logs narrow go
          (tree.1, tree.2) at_c more
          (subst (λ (l : Nodes K). Strict compare (weave keys l)) (sym back) strict) tt refl)

  -- bt_delete of a key equal to one in a B-tree with t at least 2, 2t - 1 less than 2 ^ 14 and no
  -- two equal keys, with a table of logarithms that serves for its nodes and fuel above its height.
  -- It ends, the tree stays a B-tree, of the same height or lower by one, its keys are those from
  -- before less the equal one, and what it returns is that key or the one it was asked for.
  pub bt_delete-Removes :
      (h fuel : ℕ) (r : Node K) (k : K) (logs : Logs)
      → h < fuel
      → IsBtree compare s h r
      → Strict compare (inorder r)
      → Present compare k (inorder r)
      → Serves (2 * s + 1) j logs
      → (gone : K) × (r' : Node K) × (logs' : Logs) × (h' : ℕ) × (bt_delete compare fuel
            (suc s)
            (2 ^ suc j)
            r
            k
            logs
          ≡ some (gone, r', logs'))
        × ((h' ≡ h) ⊎ (suc h' ≡ h))
        × IsBtree compare s h' r'
        × Removes compare (equal_to k) (inorder r) gone (inorder r')
        × Serves (2 * s + 1) j logs'
  unfolding bt_delete
  bt_delete-Removes h fuel r k logs enough b strict here serves =
      let (gone, x, logs', eq, tree, ge, le, w, serves') =
        delete_key-Deleted fuel h r (equal_to k) logs enough b.tree
          (root_keys compare s two h k r b.tree b.some_keys here) b.few strict here serves in
      let sorted = Strict-Sorted compare (inorder x) (
        subst (Strict compare) (sym w.new)
          (Strict-remove compare w.front w.gone w.back (subst (Strict compare) w.old strict))) in
      let (r', h', eq', height, b', same) =
        root_step compare s two h x gone logs' tree (omega (arith, b.few)) sorted in
      (
        gone,
        r',
        logs',
        h',
        rw eq eq',
        height,
        b',
        subst (Removes compare (equal_to k) (inorder r) gone) (sym same) w,
        serves',
      )
