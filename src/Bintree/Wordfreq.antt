-- ===== src/Bintree/Wordfreq.antt =====
-- binarytree/tree_wordfreq.c: the words of a file, each inserted into the tree.
use linux_examples.Base.{
  ℕ, ◌+◌, ◌-◌, ◌&&◌, ◌||◌, Bool, true, false, Option, none, some, List, [], ◌∷◌, ◌++◌, leb, ltb,
  length,
}
use linux_examples.Base.Maybe.{◌>>=◌}
use linux_examples.Bintree.{Word, Tree, insert_subtree}

-- MAXWORD
abbrev pub max_word : ℕ
max_word = 8192

-- `isalpha` of the C locale
abbrev pub isalpha : ℕ → Bool
isalpha c = (leb 65 c && leb c 90) || (leb 97 c && leb c 122)

-- `tree_insert_words` from a byte of the file on. `word` is what stands in the array before `ptr`,
-- and `none` where `ptr` is NULL; `n` counts the insertions so far, and `reserve n` answers for the
-- next.
unfoldable pub insert_words : (ℕ → ℕ → Option ℕ) → List ℕ → Option Word → ℕ → Tree → Option Tree
insert_words reserve [] none n t = some t
insert_words reserve [] (some word) n t = insert_subtree (reserve n) t word
insert_words reserve (c ∷ cs) none n t = elim (isalpha c) [
  | true ↦ insert_words reserve cs (some (c ∷ [])) n t
  | false ↦ insert_words reserve cs none n t
]
insert_words reserve (c ∷ cs) (some word) n t = elim (isalpha c) [
  | true ↦ elim (ltb (length word) (max_word - 1)) [
    | true ↦ insert_words reserve cs (some (word ++ c ∷ [])) n t
    | false ↦ insert_subtree (reserve n) t word >>= insert_words reserve cs none (n + 1)
  ]
  | false ↦ insert_subtree (reserve n) t word >>= insert_words reserve cs none (n + 1)
]
