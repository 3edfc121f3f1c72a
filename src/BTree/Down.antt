-- ===== src/BTree/Down.antt =====
-- The step of `btreeinsertnonfull` of btree-1.0/bt_code.c into a child, and the split before it.
use linux_examples.Base.{
  ℕ, suc, ◌+◌, ◌*◌, ◌^◌, ◌<◌, ◌≤◌, ◌≡◌, ◌∙◌, sym, ap, subst, refl, false, Option, some, List, arith,
  length, length-set, get_elem?, get_elem?-lt, set,
}
use linux_examples.Base.Maybe.{◌>>=◌}
use linux_examples.BTree.{Compare, Logs}
use linux_examples.BTree.Lists.{
  length-insert_at, get_elem?-insert_at, get_elem?-set, get_elem?-insert_after, All-get_elem?,
  All-set, All-insert_at,
}
use linux_examples.BTree.Node.{
  Node, Nodes, node, listed, unlisted, insert_at, split_child, fits-le, keys_of, insert_nonfull,
}
use linux_examples.BTree.Order.{Le, Sorted, Inserts}
use linux_examples.BTree.Place.{Serves}
use linux_examples.BTree.Shape.{inorder, weave, listed-unlisted, unlisted-listed, IsTree, Fits}
use linux_examples.BTree.Split.{halves-Halved, weave-insert_at}
use linux_examples.BTree.Weave.{Around, Around-le, Around-left, Around-right, weave-Inserts}

module _ {K : Type 0} (compare : Compare K) (s j : ℕ) (k : K) where
  -- A tree of height `h` with the keys `xs` and `k`, and `lo` to `hi` keys in its root.
  abbrev pub Inserted : ℕ → List K → ℕ → ℕ → Option (Node K × Logs) → Type 0
  Inserted h xs lo hi r =
      (x' : Node K) × (logs' : Logs) × (r ≡ some (x', logs'))
      × IsTree s h x'
      × (lo ≤ length (keys_of x'))
      × (length (keys_of x') ≤ hi)
      × Inserts compare k xs (inorder x')
      × Serves (2 * s + 1) j logs'

  -- The step down of `btreeinsertnonfull`, into the child at the place of the key.
  abbrev pub into : ℕ → List K → Nodes K → ℕ → Logs → Option (Node K × Logs)
  into fuel keys children i logs = get_elem? (listed children) i >>= λ child.
      insert_nonfull compare fuel (suc s) (2 ^ suc j) child k logs >>= λ r.
      some (node false keys (unlisted (set (listed children) i r.0)), r.1)

  pub into-Inserted :
      (h fuel : ℕ) (keys : List K) (children : Nodes K) (i : ℕ) (d : Node K) (logs : Logs)
      → Around compare k i keys
      → IsTree s (suc h) (node false keys children)
      → get_elem? (listed children) i ≡ some d
      → Sorted compare (weave keys children)
      → length (keys_of d) ≤ 2 * s
      → Inserted h
          (inorder d)
          (length (keys_of d))
          (length (keys_of d) + 1)
          (insert_nonfull compare fuel (suc s) (2 ^ suc j) d k logs)
      → Inserted
          (suc h)
          (weave keys children)
          (length keys)
          (length keys)
          (into fuel keys children i logs)
  unfolding weave
  into-Inserted h fuel keys children i d logs a tree at sorted few
        (d', logs', eq, t, ge, le, w, serves) =
      let P : Node K → Type 0 = λ c. Fits s c × IsTree s h c in
      let cs = listed children in
      let old = All-get_elem? P cs i d tree.2 at in
      let same = unlisted-listed children in
      (
        node false keys (unlisted (set cs i d')),
        logs',
        rw at (rw eq refl),
        (
          refl,
          rw (listed-unlisted (set cs i d')) (omega (arith, tree.1, length-set cs i d')),
          rw (listed-unlisted (set cs i d'))
              (All-set P cs i d' tree.2 ((omega (arith, old.0), omega arith), t)),
        ),
        omega arith,
        omega arith,
        subst (λ (l : List K). Inserts compare k l (weave keys (unlisted (set cs i d'))))
            (ap (weave keys) same)
            (weave-Inserts compare k i keys cs d d' a tree.1 at
              (subst (λ (c : Nodes K). Sorted compare (weave keys c)) (sym same) sorted) w),
        serves,
      )

  -- What a split of the full child at the place of `k` leaves: a place on either side of the key
  -- between the halves, with a child that is not full.
  pub record Parted (h : ℕ) (keys : List K) (children : Nodes K) (i : ℕ) : Type 0 where
    pub keys' : List K
    pub children' : Nodes K
    pub middle : K
    pub made : split_child (suc s) (node false keys children) i ≡ some (node false keys' children')
    pub at_middle : get_elem? keys' i ≡ some middle
    pub tree : IsTree s (suc h) (node false keys' children')
    pub same : weave keys' children' ≡ weave keys children
    pub more : length keys' ≡ length keys + 1
    pub left : Le compare k middle → Around compare k i keys'
    pub right : Le compare middle k → Around compare k (i + 1) keys'
    pub low : Node K
    pub high : Node K
    pub at_low : get_elem? (listed children') i ≡ some low
    pub at_high : get_elem? (listed children') (i + 1) ≡ some high
    pub n_low : length (keys_of low) ≡ s
    pub n_high : length (keys_of high) ≡ s

  pub split_child-Parted :
      (h : ℕ) (keys : List K) (children : Nodes K) (i : ℕ) (d : Node K)
      → 2 * s + 1 < 2 ^ 14
      → length keys ≤ 2 * s
      → Around compare k i keys
      → IsTree s (suc h) (node false keys children)
      → get_elem? (listed children) i ≡ some d
      → length (keys_of d) ≡ 2 * s + 1
      → Parted h keys children i
  unfolding split_child
  split_child-Parted h keys children i d narrow few a tree at full =
      let P : Node K → Type 0 = λ c. Fits s c × IsTree s h c in
      let cs = listed children in
      let w = halves-Halved s h d full (All-get_elem? P cs i d tree.2 at).1 in
      let next : i + 1 ≡ suc i = omega arith in
      let cs' = insert_at (suc i) w.high (set cs i w.low) in
      let in_keys = Around-le compare k i keys a in
      let in_set : suc i ≤ length (set cs i w.low) = omega (arith, length-set cs i w.low, tree.1) in
      record {
        keys' = insert_at i w.middle keys;
        children' = unlisted cs';
        middle = w.middle;
        made = rw (at, w.made, next, fits-le s (length keys + 1) narrow (omega arith)) refl;
        at_middle = get_elem?-insert_at i w.middle keys in_keys;
        tree = (
          refl,
          rw (listed-unlisted cs') (
              omega (
                arith,
                tree.1,
                length-set cs i w.low,
                length-insert_at (suc i) w.high (set cs i w.low),
                length-insert_at i w.middle keys,
              )),
          rw (listed-unlisted cs') (
              All-insert_at P (suc i) w.high (set cs i w.low)
                ((omega (arith, w.n_high), omega (arith, w.n_high)), w.high_tree)
                (All-set P cs i w.low tree.2
                  ((omega (arith, w.n_low), omega (arith, w.n_low)), w.low_tree))),
        );
        same =
            weave-insert_at i keys cs d w.low w.high w.middle in_keys at w.whole
            ∙ ap (weave keys) (unlisted-listed children);
        more = omega (arith, length-insert_at i w.middle keys);
        left = Around-left compare k w.middle i keys a;
        right = λ le. rw next (Around-right compare k w.middle i keys a le);
        low = w.low;
        high = w.high;
        at_low = rw (listed-unlisted cs') (
            get_elem?-insert_after (set cs i w.low) i w.high w.low
              (get_elem?-set cs i w.low (get_elem?-lt cs i d at)));
        at_high =
            rw (next, listed-unlisted cs')
              (get_elem?-insert_at (suc i) w.high (set cs i w.low) in_set);
        n_low = w.n_low;
        n_high = w.n_high;
      }
