-- ===== src/Tests/Words.antt =====
-- binarytree at concrete words.
use linux_examples.Base.{
  ℕ, ◌+◌, ◌*◌, ◌%◌, ◌^◌, ◌≡◌, refl, ◌⊎◌, Option, none, some, List, [], ◌∷◌, ◌++◌, arith, length,
}
use mathlib.Core.List.{Perm}
use linux_examples.Bintree.{
  Word, Tree, null, tnode, sizeof_tnode, strcmp, insert_subtree, walk_subtree, free_subtree,
}
use linux_examples.Bintree.Counts.{
  Fit, spell, words_of, insert_all, occurrences, insert_words-words_of, insert_words-occurrences,
}
use linux_examples.Bintree.Free.{
  offsets, Has, Allocates, free_subtree-Perm, insert_subtree-Allocates,
}
use linux_examples.Bintree.Insert.{insert_subtree-bump}
use linux_examples.Bintree.Tally.{words, InOrder, bump, tally}
use linux_examples.Bintree.Wordfreq.{insert_words}

-- "be" at the root, and "at" below it.
abbrev two_words : Tree
two_words = tnode 64 (tnode 192 null null 1 (97 ∷ 116 ∷ [])) null 2 (98 ∷ 101 ∷ [])

two_words-InOrder : InOrder (walk_subtree two_words)
unfolding walk_subtree strcmp
two_words-InOrder = ((refl, tt), (tt, tt))

-- "by"
abbrev by : Word
by = 98 ∷ 121 ∷ []

insert_subtree-bump_example :
    (t' : Tree) × (insert_subtree (λ n. some 320) two_words by ≡ some t')
    × (walk_subtree t' ≡ bump by (walk_subtree two_words))
    × InOrder (walk_subtree t')
insert_subtree-bump_example =
    insert_subtree-bump (λ n. some 320) two_words by (λ n. (320, refl)) two_words-InOrder

insert_subtree-Allocates_example :
    (Has by (words (walk_subtree two_words))
      × ((t' : Tree) × (insert_subtree (λ n. none) two_words by ≡ some t')
          × (offsets t' ≡ offsets two_words)))
    ⊎ ((¬ Has by (words (walk_subtree two_words)))
        × Allocates
            (λ n. none)
            (sizeof_tnode + (length by + 1))
            (offsets two_words)
            (insert_subtree (λ n. none) two_words by))
insert_subtree-Allocates_example =
    insert_subtree-Allocates (λ n. none) two_words by two_words-InOrder

free_subtree-Perm_example :
    Perm (free_subtree two_words).0 (offsets two_words) × ((free_subtree two_words).1 ≡ null)
free_subtree-Perm_example = free_subtree-Perm two_words

-- The children before the node.
free_two : (free_subtree two_words).0 ≡ 192 ∷ 64 ∷ []
unfolding free_subtree
free_two = refl

-- "-by, at!be", where the last word ends with the file.
abbrev pieces : List (Word × Word)
pieces = (by, 44 ∷ 32 ∷ []) ∷ (97 ∷ 116 ∷ [], 33 ∷ []) ∷ []

abbrev be : Word
be = 98 ∷ 101 ∷ []

pieces-Fit : Fit pieces be
pieces-Fit = (
  ((refl, (refl, tt)), (omega arith, omega arith)),
  (
    ((refl, (refl, tt)), omega arith),
    (
      ((refl, (refl, tt)), (omega arith, omega arith)),
      (((refl, tt), omega arith), ((refl, (refl, tt)), omega arith)),
    ),
  ),
)

abbrev answers : ℕ → ℕ → Option ℕ
answers n size = some (128 * n + 64)

insert_words-words_of_example :
    insert_words answers ((45 ∷ []) ++ spell pieces be) none 0 two_words
    ≡ insert_all answers (words_of pieces be) 0 two_words
insert_words-words_of_example =
    insert_words-words_of answers (45 ∷ []) pieces be two_words (refl, tt) pieces-Fit

insert_words-occurrences_example :
    (t' : Tree) × (insert_words answers ((45 ∷ []) ++ spell pieces be) none 0 null ≡ some t')
    × (InOrder (walk_subtree t')
        × ((v : Word) → tally v (walk_subtree t') ≡ occurrences v (words_of pieces be) % 2 ^ 32))
insert_words-occurrences_example =
    insert_words-occurrences answers (45 ∷ []) pieces be (λ n size. (128 * n + 64, refl)) (refl, tt)
      pieces-Fit
