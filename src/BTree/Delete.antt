-- ===== src/BTree/Delete.antt =====
-- btree-1.0/bt_code.c: the deletion of a key. As in BTree.Node, a pointer to a node is the node,
-- and `none` is an access outside of the arrays of a node, a number of keys that does not fit into
-- `n`, or the end of the fuel.
use Prim.Native.Nat.{Ordering}
use linux_examples.Base.{
  ℕ, zero, suc, ◌+◌, ◌-◌, ◌&&◌, not, Bool, false, Option, none, some, List, [], ◌∷◌, ◌++◌, ltb, leb,
  ◌==◌, if◌then◌else◌, length, get_elem?, set,
}
use linux_examples.Base.Maybe.{◌>>=◌}
use linux_examples.BTree.{Compare, Logs, Place, findkindex}
use linux_examples.BTree.Node.{
  fits, Node, node, listed, unlisted, is_leaf, keys_of, children_of, take, drop,
}

-- What `nodedeletekey` is to delete: a key (its `s` is 0), or the last or the first key (1 or 2).
pub data Target (K : Type 0) : Type 0 where
  equal_to : K → Target K
  greatest : Target K
  least : Target K

-- The elements above index `i` move down by one.
unfoldable pub remove_at {ℓ} : {A : Type ℓ} → ℕ → List A → List A
remove_at i [] = []
remove_at zero (x ∷ xs) = xs
remove_at (suc i) (x ∷ xs) = x ∷ remove_at i xs

module _ {K : Type 0} where
  -- Two nodes and the key between them in one.
  abbrev pub merged : Node K → K → Node K → Node K
  merged (node leaf keys children) k (node leaf' keys' children') =
      node leaf (keys ++ k ∷ keys') (unlisted (listed children ++ listed children'))

  -- The children at `m` and behind it become one, with `k` between; the key at `m` goes.
  unfoldable pub merge_at : ℕ → ℕ → K → List K → List (Node K) → Option (List K × List (Node K))
  merge_at t m k keys cs = get_elem? cs m >>= λ y. get_elem? cs (m + 1) >>= λ z.
      if fits t (length (keys_of (merged y k z)))
      then some (remove_at m keys, remove_at (m + 1) (set cs m (merged y k z)))
      else none

  -- Case 3a, from the left: the last key of the child at `m` goes up, the key at `m` goes down to
  -- the child behind it, and the last child moves over.
  unfoldable pub from_left : ℕ → ℕ → List K → List (Node K) → Option (List K × List (Node K))
  from_left t m keys cs = get_elem? cs m >>= λ y. get_elem? cs (m + 1) >>= λ x.
      get_elem? keys m >>= λ k. get_elem? (keys_of y) (length (keys_of y) - 1) >>= λ last.
      let n = length (keys_of y) in
      if fits t (length (keys_of x) + 1)
      then some (
        set keys m last,
        set
            (set cs m
              (node (is_leaf y) (take (n - 1) (keys_of y)) (unlisted (take n (children_of y)))))
            (m + 1)
            (node (is_leaf x) (k ∷ keys_of x) (unlisted (drop n (children_of y) ++ children_of x))),
      )
      else none

  -- Case 3a, from the right: the first key of the child behind `m` goes up, the key at `m` goes
  -- down to the child at `m`, and the first child moves over.
  unfoldable pub from_right : ℕ → ℕ → List K → List (Node K) → Option (List K × List (Node K))
  from_right t m keys cs = get_elem? cs m >>= λ x. get_elem? cs (m + 1) >>= λ y.
      get_elem? keys m >>= λ k. get_elem? (keys_of y) 0 >>= λ first.
      if fits t (length (keys_of x) + 1)
      then some (
        set keys m first,
        set
            (set cs m (
              node (is_leaf x) (keys_of x ++ k ∷ [])
                (unlisted (children_of x ++ take 1 (children_of y)))))
            (m + 1) (node (is_leaf y) (drop 1 (keys_of y)) (unlisted (drop 1 (children_of y)))),
      )
      else none

  -- A test on the number of keys of a sibling, behind the test that there is one.
  abbrev pub sibling : Bool → ℕ → List (Node K) → (ℕ → Bool) → Option Bool
  sibling inside i cs test =
      if inside then (get_elem? cs i >>= λ y. some (test (length (keys_of y)))) else some false

  -- Case 3: the keys and the children where the child at `i` is larger than the least size, and the
  -- index of the child to go down to.
  unfoldable pub enlarge_child :
      ℕ → List K → List (Node K) → ℕ → Option ((List K × List (Node K)) × ℕ)
  enlarge_child t keys cs i = get_elem? cs i >>= λ x.
      let n = length keys in
      let at = λ (j : ℕ) (r : List K × List (Node K)). some (r, j) in
      let merge_right = get_elem? keys i >>= λ k. merge_at t i k keys cs >>= at i in
      let merge_left =
        get_elem? keys (i - 1) >>= λ k. merge_at t (i - 1) k keys cs >>= at (i - 1) in
      if length (keys_of x) == t - 1
      then (sibling (ltb 0 i) (i - 1) cs (leb t) >>= λ left_rich.
          if left_rich
          then (from_left t (i - 1) keys cs >>= at i)
          else (sibling (ltb i n) (i + 1) cs (leb t) >>= λ right_rich.
              if right_rich
              then (from_right t i keys cs >>= at i)
              else (sibling (ltb 0 i) (i - 1) cs (λ m. m == t - 1) >>= λ left_poor.
                  if left_poor
                  then merge_left
                  else (sibling (ltb i n) (i + 1) cs (λ m. m == t - 1) >>= λ right_poor.
                      if right_poor then merge_right else some ((keys, cs), i)))))
      else some ((keys, cs), i)

  -- The index of the key that goes from a leaf.
  unfoldable pub leaf_index : Target K → ℕ → Option ℕ
  leaf_index least i = some i
  leaf_index greatest zero = none
  leaf_index greatest (suc i) = some i
  leaf_index (equal_to k) zero = none
  leaf_index (equal_to k) (suc i) = some i

  module _ (compare : Compare K) where
    -- The place that `nodedeletekey` starts with, plus 1 as in `Place`, and `r`, which it reads in
    -- an inner node only.
    unfoldable pub find_target : Target K → List K → ℕ → Logs → Option (Place compare × Logs)
    find_target (equal_to k) keys nbits logs = findkindex compare keys k nbits logs
    find_target greatest keys nbits logs = some ((length keys, some Ordering.gt), logs)
    find_target least keys nbits logs = some ((0, some Ordering.lt), logs)

    -- `nodedeletekey`: the key that goes, and what is left of the node.
    unfoldable pub delete_key : ℕ → ℕ → ℕ → Node K → Target K → Logs → Option (K × Node K × Logs)
    delete_key zero t nbits x target logs = none
    delete_key (suc fuel) t nbits (node leaf keys children) target logs =
        find_target target keys nbits logs >>= λ found.
        let cs = listed children in
        let i = found.0.0 in
        let m = i - 1 in
        let at_leaf = leaf_index target i >>= λ l.
        get_elem? keys l >>= λ k. some (k, node leaf (remove_at l keys) children, found.1) in
        let case3 = enlarge_child t keys cs i >>= λ e. get_elem? e.0.1 e.1 >>= λ x.
        delete_key fuel t nbits x target found.1 >>= λ r.
        some (r.0, node leaf e.0.0 (unlisted (set e.0.1 e.1 r.1)), r.2) in
        let case2a = λ (k : K) (y : Node K).
          (delete_key fuel t nbits y greatest found.1 >>= λ r.
          some (k, node leaf (set keys m r.0) (unlisted (set cs m r.1)), r.2)) in
        let case2b = λ (k : K) (z : Node K).
          (delete_key fuel t nbits z least found.1 >>= λ r.
          some (k, node leaf (set keys m r.0) (unlisted (set cs (m + 1) r.1)), r.2)) in
        let case2c = λ (k : K).
          (merge_at t m k keys cs >>= λ e. get_elem? e.1 m >>= λ y.
          delete_key fuel t nbits y target found.1 >>= λ r.
          some (r.0, node leaf e.0 (unlisted (set e.1 m r.1)), r.2)) in
        let case2 = get_elem? keys m >>= λ k. get_elem? cs m >>= λ y. get_elem? cs (m + 1) >>= λ z.
        if leb t (length (keys_of y))
        then case2a k y
        else if leb t (length (keys_of z))
        then case2b k z
        else if length (keys_of y) == t - 1 && length (keys_of z) == t - 1
        then elim target [ equal_to k' ↦ case2c k' | _ ↦ none ]
        else case3 in
        if leaf
        then at_leaf
        else elim found.0.1 [ none ↦ none | some Ordering.eq ↦ case2 | _ ↦ case3 ]

    -- `bt_delete`: the key that went, and the new root.
    unfoldable pub bt_delete : ℕ → ℕ → ℕ → Node K → K → Logs → Option (K × Node K × Logs)
    bt_delete fuel t nbits r k logs = delete_key fuel t nbits r (equal_to k) logs >>= λ d.
        if length (keys_of d.1) == 0 && not (is_leaf d.1)
        then (get_elem? (children_of d.1) 0 >>= λ x. some (d.0, x, d.2))
        else some d
