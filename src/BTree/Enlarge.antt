-- ===== src/BTree/Enlarge.antt =====
-- Case 3 of `nodedeletekey` of btree-1.0/bt_code.c: the child to go down to gets a key to spare.
use linux_examples.Base.{
  ℕ, zero, suc, ◌+◌, ◌-◌, ◌*◌, ◌^◌, ◌<◌, ◌≤◌, ◌≡◌, sym, refl, true, Option, some, List, [],
  append-nil, arith, inl, inr, ltb, leb, ◌==◌, Bool-cases, length, get_elem?, get_elem?-lt,
}
use linux_examples.Base.Maybe.{◌>>=◌}
use linux_examples.BTree.Delete.{merge_at, from_left, from_right, enlarge_child}
use linux_examples.BTree.Lists.{reached, All-get_elem?}
use linux_examples.BTree.Merge.{merge_at-Moved}
use linux_examples.BTree.Move.{IsChild, IsInner, Moved, from_left-Moved, from_right-Moved}
use linux_examples.BTree.Node.{Node, keys_of}
use linux_examples.BTree.Shape.{inorder}

module _ {K : Type 0} (s h : ℕ) where
  abbrev pub Enlarged :
      List K → List (Node K) → ℕ → Node K → Option ((List K × List (Node K)) × ℕ) → Type 0
  Enlarged keys cs i x r =
      (i' : ℕ) × (o : Option (List K × List (Node K))) × (w : Moved s h keys cs i x i' o) × (r
        ≡ some ((w.keys', w.cs'), i'))

  module _ (narrow : 2 * s + 1 < 2 ^ 14) (keys : List K) (cs : List (Node K)) (x : Node K)
      (level : IsInner s h keys cs) where
    as_it_is :
        (i : ℕ)
        → get_elem? cs i ≡ some x
        → suc s ≤ length (keys_of x)
        → Enlarged keys cs i x (some ((keys, cs), i))
    as_it_is i at big = (
      i,
      some (keys, cs),
      record {
        keys' = keys;
        cs' = cs;
        c = x;
        made = refl;
        inner = level;
        at = at;
        big = big;
        same = refl;
        fewer = omega arith;
        no_more = omega arith;
        first = λ e. e;
        last = λ e. e;
        front = [];
        back = [];
        covers = sym (append-nil (inorder x));
      },
      refl,
    )

    done :
        (i i' : ℕ) (o : Option (List K × List (Node K)))
        → Moved s h keys cs i x i' o
        → Enlarged keys cs i x (o >>= λ r. some (r, i'))
    done i i' o w = (i', o, w, (rw w.made refl))

    first_child :
        get_elem? cs 0 ≡ some x
        → length (keys_of x) ≡ s
        → 1 ≤ length keys
        → Enlarged keys cs 0 x (enlarge_child (suc s) keys cs 0)
    unfolding enlarge_child
    first_child at poor more =
        let (z, at_z) = reached cs 1 (omega (arith, level.0)) in
        let (k, at_k) = reached keys 0 (omega arith) in
        let fit = All-get_elem? (IsChild s h) cs 1 z level.1 at_z in
        let least : length (keys_of x) == suc s - 1 ≡ true = ground arith in
        let next : 0 + 1 ≡ 1 = omega arith in
        let inside : ltb 0 (length keys) ≡ true = ground arith in
        elim (Bool-cases (leb (suc s) (length (keys_of z)))) [
          | inl rich ↦
              rw (at, least, inside, next, at_z, rich)
                (done 0 0 (from_right (suc s) 0 keys cs) (
                  from_right-Moved s h narrow 0 keys cs x z k level at at_z at_k poor
                    (ground arith)))
          | inr not_rich ↦
              let poor_z : length (keys_of z) ≡ s = ground (arith, fit.0.0) in
              let just : length (keys_of z) == suc s - 1 ≡ true = ground arith in
              rw (at, least, inside, next, at_z, not_rich, just, at_k)
                (done 0 0 (merge_at (suc s) 0 k keys cs) (
                  merge_at-Moved s h narrow 0 keys cs x z k level at at_z at_k 0 x
                    (inl (refl, refl)) poor poor_z))
        ]

    later_child :
        (m : ℕ)
        → get_elem? cs (suc m) ≡ some x
        → length (keys_of x) ≡ s
        → Enlarged keys cs (suc m) x (enlarge_child (suc s) keys cs (suc m))
    unfolding enlarge_child
    later_child m at poor =
        let here = get_elem?-lt cs (suc m) x at in
        let n = length keys in
        let (y, at_y) = reached cs m (omega arith) in
        let (k, at_k) = reached keys m (omega (arith, level.0)) in
        let fit = All-get_elem? (IsChild s h) cs m y level.1 at_y in
        let least : length (keys_of x) == suc s - 1 ≡ true = ground arith in
        let before : ltb 0 (suc m) ≡ true = ground arith in
        let less : suc m - 1 ≡ m = omega arith in
        let next : suc m + 1 ≡ suc (suc m) = omega arith in
        elim (Bool-cases (leb (suc s) (length (keys_of y)))) [
          | inl rich ↦
              rw (at, least, before, less, at_y, rich)
                (done (suc m) (suc m) (from_left (suc s) m keys cs) (
                  from_left-Moved s h narrow m keys cs y x k level at_y at at_k (ground arith)
                    poor))
          | inr not_rich ↦
              let poor_y : length (keys_of y) ≡ s = ground (arith, fit.0.0) in
              let just : length (keys_of y) == suc s - 1 ≡ true = ground arith in
              let merge = done (suc m) m (merge_at (suc s) m k keys cs) (
                merge_at-Moved s h narrow m keys cs y x k level at_y at at_k (suc m) x
                  (inr (refl, refl)) poor_y poor) in
              elim (Bool-cases (ltb (suc m) n)) [
                | inr end ↦ rw (at, least, before, less, at_y, not_rich, end, just, at_k) merge
                | inl inside ↦
                    let (z, at_z) = reached cs (suc (suc m)) (ground (arith, level.0)) in
                    let (k', at_k') = reached keys (suc m) (ground arith) in
                    elim (Bool-cases (leb (suc s) (length (keys_of z)))) [
                      | inl rich_z ↦
                          rw (at, least, before, less, at_y, not_rich, inside, next, at_z, rich_z)
                            (done (suc m) (suc m) (from_right (suc s) (suc m) keys cs) (
                              from_right-Moved s h narrow (suc m) keys cs x z k' level at at_z at_k'
                                poor (ground arith)))
                      | inr poor_z ↦
                          rw
                            (
                              at, least, before, less, at_y, not_rich, inside, next, at_z, poor_z,
                              just, at_k,
                            )
                            merge
                    ]
              ]
        ]

    poor_child :
        (i : ℕ)
        → get_elem? cs i ≡ some x
        → 1 ≤ length keys
        → length (keys_of x) ≡ s
        → Enlarged keys cs i x (enlarge_child (suc s) keys cs i)
    poor_child zero at more poor = first_child at poor more
    poor_child (suc m) at more poor = later_child m at poor

    pub enlarge_child-Enlarged :
        (i : ℕ)
        → get_elem? cs i ≡ some x
        → 1 ≤ length keys
        → Enlarged keys cs i x (enlarge_child (suc s) keys cs i)
    unfolding enlarge_child
    enlarge_child-Enlarged i at more =
        let fit = All-get_elem? (IsChild s h) cs i x level.1 at in
        elim (Bool-cases (length (keys_of x) == suc s - 1)) [
          | inr enough ↦ rw (at, enough) (as_it_is i at (ground (arith, fit.0.0)))
          | inl least ↦ poor_child i at more (ground arith)
        ]
