-- ===== src/Bintree.antt =====
-- binarytree/tree.c: a binary tree of strings in persistent memory, each with a count.
pub mod Words
pub mod Tally
pub mod Insert
pub mod Free
pub mod Wordfreq
pub mod Counts
use Prim.Native.Nat.{Ordering}
use linux_examples.Base.{
  ℕ, suc, ◌+◌, ◌%◌, ◌^◌, Option, none, some, List, [], ◌∷◌, ◌++◌, ltb, ◌==◌, if◌then◌else◌, length,
}
use linux_examples.Base.Maybe.{◌>>=◌}

-- A string, without the 0 at its end: its bytes, of which none is 0.
abbrev pub Word : Type 0
Word = List ℕ

-- `strcmp`: below 0, 0, or above 0.
unfoldable pub strcmp : Word → Word → Ordering
strcmp [] [] = Ordering.eq
strcmp [] (y ∷ ys) = Ordering.lt
strcmp (x ∷ xs) [] = Ordering.gt
strcmp (x ∷ xs) (y ∷ ys) =
    let rest = strcmp xs ys in if x == y then rest else if ltb x y then Ordering.lt else Ordering.gt

-- What a pointer to a `struct tnode` leads to: NULL, or the node at an offset in the pool, with its
-- two children, its count and its string.
pub data Tree : Type 0 where
  null : Tree
  tnode : ℕ → Tree → Tree → ℕ → Word → Tree

-- `sizeof(struct tnode)`
abbrev pub sizeof_tnode : ℕ
sizeof_tnode = 24

-- `tree_insert_subtree` and `tree_insert`; `reserve` is the answer of pmemalloc_reserve to a size,
-- and the whole is `none` where FATALSYS ends the program.
unfoldable pub insert_subtree : (ℕ → Option ℕ) → Tree → Word → Option Tree
insert_subtree reserve null s =
    reserve (sizeof_tnode + (length s + 1)) >>= λ p. some (tnode p null null 1 s)
insert_subtree reserve (tnode p left right count w) s = elim (strcmp s w) [
  | Ordering.eq ↦ some (tnode p left right ((count + 1) % 2 ^ 32) w)
  | Ordering.lt ↦ insert_subtree reserve left s >>= λ l. some (tnode p l right count w)
  | Ordering.gt ↦ insert_subtree reserve right s >>= λ r. some (tnode p left r count w)
]

-- A line of what `tree_walk` would print: the count and the string of a node.
abbrev pub Line : Type 0
Line = ℕ × Word

-- `tree_walk_subtree` and `tree_walk`: the nodes in the order in which it comes to them.
unfoldable pub walk_subtree : Tree → List Line
walk_subtree null = []
walk_subtree (tnode p left right count w) = walk_subtree left ++ (count, w) ∷ walk_subtree right

-- `tree_free_subtree` and `tree_free`: the offsets freed, in order, and what the pointer to the
-- root leads to at the end. The children are freed, and the pointers to them cleared, before the
-- node.
unfoldable pub free_subtree : Tree → List ℕ × Tree
free_subtree null = ([], null)
free_subtree (tnode p left right count w) =
    let a = free_subtree left in let b = free_subtree right in (a.0 ++ (b.0 ++ p ∷ []), null)
