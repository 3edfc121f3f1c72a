-- ===== src/Bintree/Words.antt =====
-- `strcmp`, as binarytree/tree.c uses it: an order of strings.
use Prim.Native.Nat.{Ordering}
use linux_examples.Base.{
  ℕ, true, ◌≡◌, ◌≢◌, refl, sym, ◌∙◌, ◌⊎◌, inl, inr, [], ◌∷◌, arith, ltb, ◌==◌, Bool-cases,
}
use linux_examples.BTree.{Compare}
use linux_examples.Bintree.{Word, strcmp}

-- How the first bytes of two strings decide.
strcmp-heads :
    (x y : ℕ) (xs ys : Word)
    → ((x ≡ y) × (strcmp (x ∷ xs) (y ∷ ys) ≡ strcmp xs ys))
      ⊎ (((ltb x y ≡ true) × (strcmp (x ∷ xs) (y ∷ ys) ≡ Ordering.lt))
          ⊎ ((ltb y x ≡ true) × (strcmp (x ∷ xs) (y ∷ ys) ≡ Ordering.gt)))
unfolding strcmp
strcmp-heads x y xs ys = elim (Bool-cases (x == y)) [
  | inl same ↦ inl (ground arith, rw same refl)
  | inr other ↦ elim (Bool-cases (ltb x y)) [
    | inl less ↦ inr (inl (less, rw (other, less) refl))
    | inr more ↦ inr (inr (ground arith, rw (other, more) refl))
  ]
]

pub strcmp_refl : (a : Word) → strcmp a a ≡ Ordering.eq
unfolding strcmp
strcmp_refl [] = refl
strcmp_refl (x ∷ xs) = let same : x == x ≡ true = ground arith in rw same (strcmp_refl xs)

-- Only equal strings compare as such.
pub strcmp-equal : (a b : Word) → strcmp a b ≡ Ordering.eq → a ≡ b
unfolding strcmp
strcmp-equal [] [] e = refl
strcmp-equal [] (y ∷ ys) e = absurd (ground (arith, e))
strcmp-equal (x ∷ xs) [] e = absurd (ground (arith, e))
strcmp-equal (x ∷ xs) (y ∷ ys) e = elim (strcmp-heads x y xs ys) [
  | inl (same, d) ↦ rw (same, strcmp-equal xs ys (sym d ∙ e)) refl
  | inr (inl (less, d)) ↦ absurd (ground (arith, d, e))
  | inr (inr (more, d)) ↦ absurd (ground (arith, d, e))
]

pub strcmp-lt_of_gt : (a b : Word) → strcmp a b ≡ Ordering.gt → strcmp b a ≡ Ordering.lt
unfolding strcmp
strcmp-lt_of_gt [] [] e = absurd (ground (arith, e))
strcmp-lt_of_gt [] (y ∷ ys) e = absurd (ground (arith, e))
strcmp-lt_of_gt (x ∷ xs) [] e = refl
strcmp-lt_of_gt (x ∷ xs) (y ∷ ys) e = elim (strcmp-heads x y xs ys) [
  | inl (same, d) ↦ ground (arith, strcmp-lt_of_gt xs ys, same, d, e)
  | inr (inl (less, d)) ↦ absurd (ground (arith, d, e))
  | inr (inr (more, d)) ↦ ground (arith, more)
]

pub strcmp-gt_of_lt : (a b : Word) → strcmp a b ≡ Ordering.lt → strcmp b a ≡ Ordering.gt
unfolding strcmp
strcmp-gt_of_lt [] [] e = absurd (ground (arith, e))
strcmp-gt_of_lt [] (y ∷ ys) e = refl
strcmp-gt_of_lt (x ∷ xs) [] e = absurd (ground (arith, e))
strcmp-gt_of_lt (x ∷ xs) (y ∷ ys) e = elim (strcmp-heads x y xs ys) [
  | inl (same, d) ↦ ground (arith, strcmp-gt_of_lt xs ys, same, d, e)
  | inr (inl (less, d)) ↦ ground (arith, less)
  | inr (inr (more, d)) ↦ absurd (ground (arith, d, e))
]

pub strcmp_trans :
    (a b c : Word) → strcmp a b ≡ Ordering.lt → strcmp b c ≢ Ordering.gt → strcmp a c ≡ Ordering.lt
unfolding strcmp
strcmp_trans [] [] c e f = absurd (ground (arith, e))
strcmp_trans [] (y ∷ ys) [] e f = absurd (f refl)
strcmp_trans [] (y ∷ ys) (z ∷ zs) e f = refl
strcmp_trans (x ∷ xs) [] c e f = absurd (ground (arith, e))
strcmp_trans (x ∷ xs) (y ∷ ys) [] e f = absurd (f refl)
strcmp_trans (x ∷ xs) (y ∷ ys) (z ∷ zs) e f = elim (strcmp-heads x y xs ys) [
  | inl (same, d) ↦ elim (strcmp-heads y z ys zs) [
    | inl (same', d') ↦
        ground (arith, same, same', strcmp_trans xs ys zs (sym d ∙ e) (λ g. f (d' ∙ g)))
    | inr (inl (less, d')) ↦ ground (arith, same, less)
    | inr (inr (more, d')) ↦ absurd (f d')
  ]
  | inr (inl (less, d)) ↦ elim (strcmp-heads y z ys zs) [
    | inl (same', d') ↦ ground (arith, less, same')
    | inr (inl (less', d')) ↦ ground (arith, less, less')
    | inr (inr (more, d')) ↦ absurd (f d')
  ]
  | inr (inr (more, d)) ↦ absurd (ground (arith, d, e))
]

-- Strings by `strcmp`.
abbrev pub strings : Compare Word
strings = record {
  cmp = strcmp;
  cmp_refl = strcmp_refl;
  lt_of_gt = strcmp-lt_of_gt;
  gt_of_lt = strcmp-gt_of_lt;
  cmp_trans = strcmp_trans;
}
