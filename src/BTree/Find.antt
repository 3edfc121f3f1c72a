-- ===== src/BTree/Find.antt =====
-- `findnodekey` of btree-1.0/bt_code.c: the search from the root.
use Prim.Native.Nat.{Ordering}
use linux_examples.Base.{
  ℕ, zero, suc, ◌+◌, ◌*◌, ◌^◌, ◌≤◌, ◌<◌, ◌≡◌, ◌≢◌, sym, subst, refl, inl, inr, true, false, Option,
  none, some, List, [], ◌∷◌, arith, length, get_elem?, ◌-◌,
}
use linux_examples.Base.Maybe.{◌>>=◌}
use linux_examples.BTree.{Compare, Logs, Place}
use linux_examples.BTree.Context.{Any, Any-front, Any-back, Present, Present-child, At-ne-Present}
use linux_examples.BTree.Lists.{All-get_elem?, reached}
use linux_examples.BTree.Node.{
  Node, Nodes, node, nil, cons, listed, unlisted, keys_of, find_node_key,
}
use linux_examples.BTree.Order.{Sorted}
use linux_examples.BTree.Place.{At, Serves, Answer, findkindex-At}
use linux_examples.BTree.Shape.{inorder, weave, weave_leaf, unlisted-listed, IsTree, Fits, IsBtree}
use linux_examples.BTree.Weave.{Around-At, Around-le, Sorted-keys, Sorted-child}

module _ {K : Type 0} (compare : Compare K) (k : K) where
  -- A key that is found is one of the tree's and equal to `k`; none is found only if none is equal.
  abbrev pub Finds : List K → Option K → Type 0
  Finds xs none = ¬ Present compare k xs
  Finds xs (some key) = (compare.cmp k key ≡ Ordering.eq) × Any (λ x. x ≡ key) xs

  Any-key :
      (P : K → Type 0) (keys : List K) (cs : Nodes K) (i : ℕ) (key : K)
      → get_elem? keys i ≡ some key
      → P key
      → Any P (weave keys cs)
  unfolding weave
  Any-key P [] cs i key at p = absurd (ground (arith, at))
  Any-key P (x ∷ xs) nil zero key at p = inl (subst P {x = key} {y = x} (cc at) p)
  Any-key P (x ∷ xs) nil (suc i) key at p = inr (Any-key P xs nil i key at p)
  Any-key P (x ∷ xs) (cons c cs) zero key at p =
      Any-back P (inorder c) (x ∷ weave xs cs) (inl (subst P {x = key} {y = x} (cc at) p))
  Any-key P (x ∷ xs) (cons c cs) (suc i) key at p =
      Any-back P (inorder c) (x ∷ weave xs cs) (inr (Any-key P xs cs i key at p))

  Any-child :
      (P : K → Type 0) (keys : List K) (cs : List (Node K)) (i : ℕ) (c : Node K)
      → get_elem? cs i ≡ some c
      → Any P (inorder c)
      → Any P (weave keys (unlisted cs))
  unfolding weave
  Any-child P keys [] i c at a = absurd (ground (arith, at))
  Any-child P [] (d ∷ cs) zero c at a =
      Any-front P (inorder d) (weave [] (unlisted cs))
        (subst (λ (x : Node K). Any P (inorder x)) {x = c} {y = d} (cc at) a)
  Any-child P (x ∷ xs) (d ∷ cs) zero c at a =
      Any-front P (inorder d) (x ∷ weave xs (unlisted cs))
        (subst (λ (x : Node K). Any P (inorder x)) {x = c} {y = d} (cc at) a)
  Any-child P [] (d ∷ cs) (suc i) c at a =
      Any-back P (inorder d) (weave [] (unlisted cs)) (Any-child P [] cs i c at a)
  Any-child P (x ∷ xs) (d ∷ cs) (suc i) c at a =
      Any-back P (inorder d) (x ∷ weave xs (unlisted cs)) (inr (Any-child P xs cs i c at a))

  -- The test on the answer of a search in a node.
  on_answer :
      {B : Type 0} (R : B → Type 0) (hit down : B) (o : Option Ordering)
      → (o ≡ some Ordering.eq → R hit)
      → (o ≢ some Ordering.eq → R down)
      → R (elim o [ some Ordering.eq ↦ hit | _ ↦ down ])
  on_answer R hit down none yes_ no_ = no_ (λ e. ground (arith, e))
  on_answer R hit down (some Ordering.lt) yes_ no_ = no_ (λ e. ground (arith, e))
  on_answer R hit down (some Ordering.eq) yes_ no_ = yes_ refl
  on_answer R hit down (some Ordering.gt) yes_ no_ = no_ (λ e. ground (arith, e))

  module _ (s j : ℕ) where
    abbrev Found : List K → Option (Option K × Logs) → Type 0
    Found xs r =
        (answer : Option K) × (logs' : Logs) × (r ≡ some (answer, logs'))
        × Finds xs answer
        × Serves (2 * s + 1) j logs'

    -- The key that a search in a node hits.
    hit-Found :
        (keys : List K) (children : Nodes K) (p : Place compare) (logs' : Logs)
        → Answer compare keys k k p
        → p.1 ≡ some Ordering.eq
        → Serves (2 * s + 1) j logs'
        → Found (weave keys children) (get_elem? keys (p.0 - 1) >>= λ key. some (some key, logs'))
    hit-Found keys children p logs' (inr (ne, a)) e serves = absurd (ne e)
    hit-Found keys children p logs' (inl (e, (m, key, place_m, at, same))) e' serves =
        let here : p.0 - 1 ≡ m = omega (arith, place_m) in
        rw (here, at)
          (
            some key,
            logs',
            refl,
            (same, Any-key (λ x. x ≡ key) keys children m key at refl),
            serves,
          )

    missed :
        (keys : List K) (p : Place compare)
        → Answer compare keys k k p
        → p.1 ≢ some Ordering.eq
        → At compare k (λ x. compare.cmp k x ≡ Ordering.gt) p.0 keys
    missed keys p (inl (e, there)) ne = absurd (ne e)
    missed keys p (inr (ne, a)) ne' = a

    child-Found :
        (keys : List K) (children : Nodes K) (i : ℕ) (c : Node K) (r : Option (Option K × Logs))
        → At compare k (λ x. compare.cmp k x ≡ Ordering.gt) i keys
        → length (listed children) ≡ suc (length keys)
        → get_elem? (listed children) i ≡ some c
        → Sorted compare (weave keys children)
        → Found (inorder c) r
        → Found (weave keys children) r
    child-Found keys children i c r a len at sorted (some key, logs', eq, (same, here), serves) = (
      some key,
      logs',
      eq,
      (
        same,
        subst (λ (l : Nodes K). Any (λ x. x ≡ key) (weave keys l)) (unlisted-listed children)
            (Any-child (λ x. x ≡ key) keys (listed children) i c at here),
      ),
      serves,
    )
    child-Found keys children i c r a len at sorted (none, logs', eq, no_key, serves) =
        let back = sym (unlisted-listed children) in
        (
          none,
          logs',
          eq,
          (λ here. no_key (
              Present-child compare k i keys (listed children) c a len at
                (subst (λ (l : Nodes K). Sorted compare (weave keys l)) back sorted)
                (subst (λ (l : Nodes K). Present compare k (weave keys l)) back here))),
          serves,
        )

    find_node_key-Found :
        (fuel h : ℕ) (x : Node K) (logs : Logs)
        → h < fuel
        → IsTree s h x
        → length (keys_of x) ≤ 2 * s + 1
        → Sorted compare (inorder x)
        → Serves (2 * s + 1) j logs
        → Found (inorder x) (find_node_key compare fuel (2 ^ suc j) x k logs)
    unfolding find_node_key weave
    find_node_key-Found zero h x logs enough tree few sorted serves = absurd (omega arith)
    find_node_key-Found (suc fuel) zero (node false keys children) logs enough tree few sorted
          serves =
        absurd (ground (arith, tree.0))
    find_node_key-Found (suc fuel) zero (node true keys children) logs enough tree few sorted
          serves =
        let (p, logs', eq, at, answer, serves') =
          findkindex-At compare keys k (2 * s + 1) j logs (Sorted-keys compare keys children sorted)
            few serves in
        rw eq (
          on_answer (Found (weave keys children))
            (get_elem? keys (p.0 - 1) >>= λ key. some (some key, logs')) (some (none, logs')) p.1
            (λ e. hit-Found keys children p logs' answer e serves')
            (λ ne. (
              none,
              logs',
              refl,
              (λ here.
                  At-ne-Present compare k p.0 keys (missed keys p answer ne)
                    (Sorted-keys compare keys children sorted)
                    (subst (Present compare k) (weave_leaf keys children tree.1) here)),
              serves',
            )))
    find_node_key-Found (suc fuel) (suc h) (node true keys children) logs enough tree few sorted
          serves =
        absurd (ground (arith, tree.0))
    find_node_key-Found (suc fuel) (suc h) (node false keys children) logs enough tree few sorted
          serves =
        let (p, logs', eq, at, answer, serves') =
          findkindex-At compare keys k (2 * s + 1) j logs (Sorted-keys compare keys children sorted)
            few serves in
        let (c, at_c) =
          reached (listed children) p.0 (
            omega
              (arith, tree.1, Around-le compare k p.0 keys (Around-At compare k p.0 keys at))) in
        let P : Node K → Type 0 = λ d. Fits s d × IsTree s h d in
        let fit = All-get_elem? P (listed children) p.0 c tree.2 at_c in
        let cs_sorted =
          subst (λ (l : Nodes K). Sorted compare (weave keys l)) (sym (unlisted-listed children))
            sorted in
        let below =
          find_node_key-Found fuel h c logs' (omega arith) fit.1 fit.0.1
            (Sorted-child compare keys (listed children) p.0 c at_c cs_sorted) serves' in
        rw eq (
          on_answer (Found (weave keys children))
            (get_elem? keys (p.0 - 1) >>= λ key. some (some key, logs'))
            (get_elem? (listed children) p.0 >>= λ child.
              find_node_key compare fuel (2 ^ suc j) child k logs')
            p.1 (λ e. hit-Found keys children p logs' answer e serves')
            (λ ne. rw at_c (
              child-Found keys children p.0 c (find_node_key compare fuel (2 ^ suc j) c k logs')
                (missed keys p answer ne) tree.1 at_c sorted below)))

    -- bt_find in a B-tree, with a table of logarithms that serves for its nodes and fuel above its
    -- height. It ends; a key that it returns is equal to the one it looks for and is one of the
    -- tree's, and it returns none only if no key of the tree is equal.
    pub find_node_key-Finds :
        (h fuel : ℕ) (r : Node K) (logs : Logs)
        → h < fuel
        → IsBtree compare s h r
        → Serves (2 * s + 1) j logs
        → (answer : Option K) × (logs' : Logs) × (find_node_key compare fuel (2 ^ suc j) r k logs
            ≡ some (answer, logs'))
          × Finds (inorder r) answer
          × Serves (2 * s + 1) j logs'
    find_node_key-Finds h fuel r logs enough b serves =
        find_node_key-Found fuel h r logs enough b.tree b.few b.sorted serves
