-- ===== src/BTree/Node.antt =====
-- btree-1.0/bt_code.c: the nodes of a B-tree, its searches and insertion. A pointer to a node is
-- the node; a node that changes takes its place in its parent again. `none` is an access outside of
-- the arrays of a node, a number of keys that does not fit into the 15 bits of `n`, or the end of
-- the fuel.
use Prim.Native.Nat.{Ordering}
use linux_examples.Base.{
  ◌^◌, ◌<◌, ◌≤◌, ◌≡◌, refl, true, arith, ℕ, zero, suc, ◌+◌, ◌-◌, ◌*◌, Bool, false, Option, none,
  some, List, [], ◌∷◌, ◌==◌, if◌then◌else◌, ◌&&◌, ltb, leb, length, get_elem?, set,
}
use linux_examples.Base.Maybe.{◌>>=◌}
use linux_examples.BTree.{Compare, Logs, findkindex}

-- `struct btreenode`, with the keys and the children that it has; `n` is the number of the keys.
mutual
  pub data Node (K : Type 0) : Type 0 where
    node : (leaf : Bool) → List K → Nodes K → Node K

  pub data Nodes (K : Type 0) : Type 0 where
    nil : Nodes K
    cons : Node K → Nodes K → Nodes K

module _ {K : Type 0} where
  abbrev pub is_leaf : Node K → Bool
  is_leaf (node leaf keys children) = leaf

  abbrev pub keys_of : Node K → List K
  keys_of (node leaf keys children) = keys

  abbrev pub listed : Nodes K → List (Node K)
  listed nil = []
  listed (cons x xs) = x ∷ listed xs

  abbrev pub unlisted : List (Node K) → Nodes K
  unlisted [] = nil
  unlisted (x ∷ xs) = cons x (unlisted xs)

  abbrev pub children_of : Node K → List (Node K)
  children_of (node leaf keys children) = listed children

unfoldable pub take {ℓ} : {A : Type ℓ} → ℕ → List A → List A
take n [] = []
take zero (x ∷ xs) = []
take (suc n) (x ∷ xs) = x ∷ take n xs

unfoldable pub drop {ℓ} : {A : Type ℓ} → ℕ → List A → List A
drop n [] = []
drop zero (x ∷ xs) = x ∷ xs
drop (suc n) (x ∷ xs) = drop n xs

-- The elements from index `i` on move up by one, and `a` takes that index.
unfoldable pub insert_at {ℓ} : {A : Type ℓ} → ℕ → A → List A → List A
insert_at i a [] = a ∷ []
insert_at zero a (x ∷ xs) = a ∷ x ∷ xs
insert_at (suc i) a (x ∷ xs) = x ∷ insert_at i a xs

-- Room for `n` keys in a node: KEYS has 2t - 1 places, and `int n : 15` holds less than 2 ^ 14.
unfoldable pub fits : ℕ → ℕ → Bool
fits t n = leb n (2 * t - 1) && ltb n (2 ^ 14)

-- Up to 2t - 1 keys, as t is `suc s`, where that is less than 2 ^ 14.
pub fits-le : (s n : ℕ) → 2 * s + 1 < 2 ^ 14 → n ≤ 2 * s + 1 → fits (suc s) n ≡ true
unfolding fits
fits-le s n narrow le =
    let places : leb n (2 * suc s - 1) ≡ true = ground arith in
    let bits : ltb n (2 ^ 14) ≡ true = ground arith in rw (places, bits) refl

module _ {K : Type 0} where
  -- What a split of the node `y` makes: its lower half, the key between, and the upper half `z`.
  unfoldable pub halves : ℕ → Node K → Option (Node K × K × Node K)
  halves t (node leaf keys children) = get_elem? keys (t - 1) >>= λ middle. some (
    node leaf (take (t - 1) keys) (unlisted (take t (listed children))),
    middle,
    node leaf (take (t - 1) (drop t keys)) (unlisted (drop t (listed children))),
  )

  -- `btreesplitchild`, where the allocation succeeds: the parent with its child `i` split.
  unfoldable pub split_child : ℕ → Node K → ℕ → Option (Node K)
  split_child t (node leaf keys children) i = get_elem? (listed children) i >>= λ y.
      halves t y >>= λ h.
      if fits t (length keys + 1)
      then some (
          node leaf (insert_at i h.1 keys)
            (unlisted (insert_at (i + 1) h.2 (set (listed children) i h.0))))
      else none

  -- `findmaxnode`
  unfoldable pub find_max_node : ℕ → Node K → Option K
  find_max_node zero x = none
  find_max_node (suc fuel) (node leaf keys children) =
      if leaf
      then get_elem? keys (length keys - 1)
      else get_elem? (listed children) (length keys) >>= find_max_node fuel

  -- `findminnode`
  unfoldable pub find_min_node : ℕ → Node K → Option K
  find_min_node zero x = none
  find_min_node (suc fuel) (node leaf keys children) =
      if leaf then get_elem? keys 0 else get_elem? (listed children) 0 >>= find_min_node fuel

  module _ (compare : Compare K) where
    -- `findnodekey`: the key that is found, if any.
    unfoldable pub find_node_key : ℕ → ℕ → Node K → K → Logs → Option (Option K × Logs)
    find_node_key zero nbits x k logs = none
    find_node_key (suc fuel) nbits (node leaf keys children) k logs =
        findkindex compare keys k nbits logs >>= λ found.
        let down =
          if leaf
          then some (none, found.1)
          else get_elem? (listed children) found.0.0 >>= λ child.
              find_node_key fuel nbits child k found.1 in
        elim found.0.1 [
          | some Ordering.eq ↦ get_elem? keys (found.0.0 - 1) >>= λ key. some (some key, found.1)
          | _ ↦ down
        ]

    -- `btreeinsertnonfull`
    unfoldable pub insert_nonfull : ℕ → ℕ → ℕ → Node K → K → Logs → Option (Node K × Logs)
    insert_nonfull zero t nbits x k logs = none
    insert_nonfull (suc fuel) t nbits (node leaf keys children) k logs =
        findkindex compare keys k nbits logs >>= λ found.
        let i = found.0.0 in
        let x = node leaf keys children in
        let into = λ (x' : Node K) (j : ℕ).
          (get_elem? (children_of x') j >>= λ child.
          insert_nonfull fuel t nbits child k found.1 >>= λ r.
          some (node leaf (keys_of x') (unlisted (set (children_of x') j r.0)), r.1)) in
        if leaf
        then (if fits t (length keys + 1)
            then some (node leaf (insert_at i k keys) children, found.1)
            else none)
        else get_elem? (listed children) i >>= λ child.
            (if length (keys_of child) == 2 * t - 1
              then (split_child t x i >>= λ x'. get_elem? (keys_of x') i >>= λ key.
                  elim (compare.cmp k key) [ Ordering.gt ↦ into x' (i + 1) | _ ↦ into x' i ])
              else into x i)

    -- `bt_insert`: the new root.
    unfoldable pub bt_insert : ℕ → ℕ → ℕ → Node K → K → Logs → Option (Node K × Logs)
    bt_insert fuel t nbits r k logs =
        if length (keys_of r) == 2 * t - 1
        then (split_child t (node false [] (cons r nil)) 0 >>= λ s.
            insert_nonfull fuel t nbits s k logs)
        else insert_nonfull fuel t nbits r k logs
