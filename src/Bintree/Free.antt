-- ===== src/Bintree/Free.antt =====
-- The memory of the nodes of binarytree/tree.c: when an insertion takes some, and what is freed.
use Prim.Native.Nat.{Ordering}
use linux_examples.Base.{
  ℕ, ◌+◌, ◌%◌, ◌^◌, ◌≡◌, refl, ◌⊎◌, inl, inr, Option, none, some, List, [], ◌∷◌, ◌++◌, append-nil,
  All, arith, length,
}
use mathlib.Core.List.{Perm, perm_middle}
use mathlib.Core.List.Perm
use linux_examples.Base.Maybe.{◌>>=◌}
use linux_examples.BTree.Order.{Ordering-cases, All-imp}
use linux_examples.Bintree.{
  Word, Line, strcmp, Tree, null, tnode, sizeof_tnode, insert_subtree, walk_subtree, free_subtree,
}
use linux_examples.Bintree.Insert.{InOrder-left, InOrder-right, first-below}
use linux_examples.Bintree.Tally.{words, InOrder}
use linux_examples.Bintree.Words.{strcmp_refl, strcmp-equal, strcmp_trans}

-- The offsets of a tree's nodes, in the order of the walk.
unfoldable pub offsets : Tree → List ℕ
offsets null = []
offsets (tnode p left right count w) = offsets left ++ p ∷ offsets right

-- tree_free frees each node of the tree once, and nothing else, and leaves the pointer to the root
-- NULL.
pub free_subtree-Perm :
    (t : Tree) → Perm (free_subtree t).0 (offsets t) × ((free_subtree t).1 ≡ null)
unfolding free_subtree offsets
free_subtree-Perm null = (Perm.refl [], refl)
free_subtree-Perm (tnode p l r c w) =
    let a = (free_subtree-Perm l).0 in
    let b = (free_subtree-Perm r).0 in
    let moved : Perm ((free_subtree r).0 ++ p ∷ []) (p ∷ (free_subtree r).0) =
      rw (append-nil (free_subtree r).0) at (perm_middle {a = p} (free_subtree r).0 []) in
    (Perm.append a (Perm.trans moved (Perm.cons p b)), refl)

-- `s` is one of the words.
abbrev pub Has : Word → List Word → Type 0
Has s [] = ⊥
Has s (w ∷ ws) = (s ≡ w) ⊎ Has s ws

Has-left :
    (s : Word) (xs : List Line) (e : Line) (ys : List Line)
    → Has s (words xs)
    → Has s (words (xs ++ e ∷ ys))
Has-left s [] e ys h = absurd h
Has-left s (x ∷ xs) e ys (inl h) = inl h
Has-left s (x ∷ xs) e ys (inr h) = inr (Has-left s xs e ys h)

Has-here :
    (s : Word) (xs : List Line) (c : ℕ) (w : Word) (ys : List Line)
    → s ≡ w
    → Has s (words (xs ++ (c, w) ∷ ys))
Has-here s [] c w ys h = inl h
Has-here s (x ∷ xs) c w ys h = inr (Has-here s xs c w ys h)

Has-right :
    (s : Word) (xs : List Line) (e : Line) (ys : List Line)
    → Has s (words ys)
    → Has s (words (xs ++ e ∷ ys))
Has-right s [] e ys h = inr h
Has-right s (x ∷ xs) e ys h = inr (Has-right s xs e ys h)

-- A word below all of a list is none of it.
not-Has : (s : Word) (ws : List Word) → All (λ w. strcmp s w ≡ Ordering.lt) ws → ¬ Has s ws
not-Has s [] below h = h
not-Has s (w ∷ ws) below (inl e) =
    let same : strcmp s w ≡ Ordering.eq = rw e (strcmp_refl w) in ground (arith, below.0, same)
not-Has s (w ∷ ws) below (inr h) = not-Has s ws below.1 h

-- Where a word can stand in a list in order, by how it compares to one of the list.
Has-lt :
    (s : Word) (xs : List Line) (c : ℕ) (w : Word) (ys : List Line)
    → InOrder (xs ++ (c, w) ∷ ys)
    → strcmp s w ≡ Ordering.lt
    → Has s (words (xs ++ (c, w) ∷ ys))
    → Has s (words xs)
Has-lt s [] c w ys ord lt h =
    let P = λ (v : Word). strcmp w v ≡ Ordering.lt in
    let Q = λ (v : Word). strcmp s v ≡ Ordering.lt in
    let below : (v : Word) → P v → Q v =
      λ v after. strcmp_trans s w v lt (λ gt. ground (arith, after, gt)) in
    not-Has s (w ∷ words ys) (lt, All-imp P Q below (words ys) ord.0) h
Has-lt s (x ∷ xs) c w ys ord lt (inl h) = inl h
Has-lt s (x ∷ xs) c w ys ord lt (inr h) = inr (Has-lt s xs c w ys ord.1 lt h)

Has-gt :
    (s : Word) (xs : List Line) (c : ℕ) (w : Word) (ys : List Line)
    → InOrder (xs ++ (c, w) ∷ ys)
    → strcmp s w ≡ Ordering.gt
    → Has s (words (xs ++ (c, w) ∷ ys))
    → Has s (words ys)
Has-gt s [] c w ys ord gt (inl e) =
    let same : strcmp s w ≡ Ordering.eq = rw e (strcmp_refl w) in absurd (ground (arith, gt, same))
Has-gt s [] c w ys ord gt (inr h) = h
Has-gt s (x ∷ xs) c w ys ord gt (inl e) =
    let lt : strcmp s w ≡ Ordering.lt = rw e (first-below x.1 xs c w ys ord.0) in
    absurd (ground (arith, gt, lt))
Has-gt s (x ∷ xs) c w ys ord gt (inr h) = Has-gt s xs c w ys ord.1 gt h

-- What an insertion that is asked for one piece of memory of `n` bytes ends with.
abbrev pub Allocates : (ℕ → Option ℕ) → ℕ → List ℕ → Option Tree → Type 0
Allocates reserve n ps o =
    ((reserve n ≡ none) × (o ≡ none))
    ⊎ ((p : ℕ) × (t' : Tree) × (reserve n ≡ some p) × (o ≡ some t') × Perm (offsets t') (p ∷ ps))

new-Allocates :
    (reserve : ℕ → Option ℕ) (s : Word) (o : Option ℕ)
    → reserve (sizeof_tnode + (length s + 1)) ≡ o
    → Allocates reserve (sizeof_tnode + (length s + 1)) [] (o >>= λ p. some (tnode p null null 1 s))
unfolding offsets
new-Allocates reserve s none e = inl (e, refl)
new-Allocates reserve s (some p) e = inr (p, tnode p null null 1 s, e, refl, Perm.refl (p ∷ []))

Allocates-left :
    (reserve : ℕ → Option ℕ) (n : ℕ) (l r : Tree) (q c : ℕ) (w : Word) (o : Option Tree)
    → Allocates reserve n (offsets l) o
    → Allocates reserve n (offsets l ++ q ∷ offsets r) (o >>= λ l'. some (tnode q l' r c w))
unfolding offsets
Allocates-left reserve n l r q c w o (inl (e, f)) = inl (e, rw f refl)
Allocates-left reserve n l r q c w o (inr (p, t, e, f, m)) =
    inr (p, tnode q t r c w, e, (rw f refl), Perm.append_right (q ∷ offsets r) m)

Allocates-right :
    (reserve : ℕ → Option ℕ) (n : ℕ) (l r : Tree) (q c : ℕ) (w : Word) (o : Option Tree)
    → Allocates reserve n (offsets r) o
    → Allocates reserve n (offsets l ++ q ∷ offsets r) (o >>= λ r'. some (tnode q l r' c w))
unfolding offsets
Allocates-right reserve n l r q c w o (inl (e, f)) = inl (e, rw f refl)
Allocates-right reserve n l r q c w o (inr (p, t, e, f, m)) =
    let front =
      Perm.append_left (offsets l) (Perm.trans (Perm.cons q m) (Perm.swap p q (offsets r))) in
    inr (
      p,
      tnode q l t c w,
      e,
      (rw f refl),
      Perm.trans front (perm_middle (offsets l) (q ∷ offsets r)),
    )

-- tree_insert into a tree whose words are in order: for a word of the tree it ends, without a
-- request for memory, with the same nodes; for any other it asks once, for the size of a node with
-- the word, ends the program if there is no memory, and else the tree has one node more, the one it
-- was given.
pub insert_subtree-Allocates :
    (reserve : ℕ → Option ℕ) (t : Tree) (s : Word)
    → InOrder (walk_subtree t)
    → (Has s (words (walk_subtree t))
        × ((t' : Tree) × (insert_subtree reserve t s ≡ some t') × (offsets t' ≡ offsets t)))
      ⊎ ((¬ Has s (words (walk_subtree t)))
          × Allocates reserve
              (sizeof_tnode + (length s + 1))
              (offsets t)
              (insert_subtree reserve t s))
unfolding insert_subtree walk_subtree offsets
insert_subtree-Allocates reserve null s ord =
    inr (λ h. h, new-Allocates reserve s (reserve (sizeof_tnode + (length s + 1))) refl)
insert_subtree-Allocates reserve (tnode q l r c w) s ord = elim (Ordering-cases (strcmp s w)) [
  | inl o ↦
      elim (insert_subtree-Allocates reserve l s
        (InOrder-left (walk_subtree l) (c, w) (walk_subtree r) ord)) [
          | inl (h, (t', e, same)) ↦ inl (
            Has-left s (walk_subtree l) (c, w) (walk_subtree r) h,
            (tnode q t' r c w, rw (o, e, insert_subtree) refl, rw same refl),
          )
          | inr (nh, a) ↦ inr (
            λ h. nh (Has-lt s (walk_subtree l) c w (walk_subtree r) ord o h),
            rw (o, insert_subtree)
                (Allocates-left reserve (sizeof_tnode + (length s + 1)) l r q c w
                  (insert_subtree reserve l s) a),
          )
        ]
  | inr (inl o) ↦ inl (
    Has-here s (walk_subtree l) c w (walk_subtree r) (strcmp-equal s w o),
    (tnode q l r ((c + 1) % 2 ^ 32) w, rw (o, insert_subtree) refl, refl),
  )
  | inr (inr o) ↦
      elim (insert_subtree-Allocates reserve r s
        (InOrder-right (walk_subtree l) (c, w) (walk_subtree r) ord)) [
          | inl (h, (t', e, same)) ↦ inl (
            Has-right s (walk_subtree l) (c, w) (walk_subtree r) h,
            (tnode q l t' c w, rw (o, e, insert_subtree) refl, rw same refl),
          )
          | inr (nh, a) ↦ inr (
            λ h. nh (Has-gt s (walk_subtree l) c w (walk_subtree r) ord o h),
            rw (o, insert_subtree)
                (Allocates-right reserve (sizeof_tnode + (length s + 1)) l r q c w
                  (insert_subtree reserve r s) a),
          )
        ]
]
