-- ===== src/Bintree/Counts.antt =====
-- What binarytree/tree_wordfreq.c counts: the words of a file, each as often as it occurs.
use Prim.Native.Nat.{Ordering}
use linux_examples.Base.{
  ℕ, suc, ◌+◌, ◌-◌, ◌%◌, ◌^◌, ◌≤◌, ◌<◌, ◌≡◌, ◌≢◌, sym, ap, fun_ext, refl, inl, inr, true, false,
  Option, none, some, List, [], ◌∷◌, ◌++◌, append_assoc, append-nil, All, arith, ltb, length,
  length-append, ◌∙◌,
}
use linux_examples.Base.Maybe.{◌>>=◌}
use linux_examples.BTree.Order.{Ordering-cases}
use linux_examples.Bintree.{Word, Line, strcmp, Tree, null, insert_subtree, walk_subtree}
use linux_examples.Bintree.Insert.{insert_subtree-bump}
use linux_examples.Bintree.Tally.{InOrder, bump, tally, bump-tally}
use linux_examples.Bintree.Wordfreq.{max_word, isalpha, insert_words}
use linux_examples.Bintree.Words.{strcmp_refl, strcmp-equal}

-- A text: words of letters, each with the other bytes behind it, and a last word, which may be
-- empty.
unfoldable pub spell : List (Word × Word) → Word → List ℕ
spell [] last = last
spell ((w, gap) ∷ ps) last = w ++ (gap ++ spell ps last)

-- The words of a text.
unfoldable pub words_of : List (Word × Word) → Word → List Word
words_of [] [] = []
words_of [] (c ∷ cs) = (c ∷ cs) ∷ []
words_of ((w, gap) ∷ ps) last = w ∷ words_of ps last

abbrev pub Letters : List ℕ → Type 0
Letters = All (λ c. isalpha c ≡ true)

abbrev pub Others : List ℕ → Type 0
Others = All (λ c. isalpha c ≡ false)

-- No word is empty, but for the last, or longer than the array holds, and between two stands a
-- byte.
abbrev pub Fit : List (Word × Word) → Word → Type 0
Fit [] last = Letters last × (length last < max_word)
Fit ((w, gap) ∷ ps) last =
    (Letters w × ((1 ≤ length w) × (length w < max_word)))
    × ((Others gap × (1 ≤ length gap)) × Fit ps last)

-- The insertions of words, one after the other.
unfoldable pub insert_all : (ℕ → ℕ → Option ℕ) → List Word → ℕ → Tree → Option Tree
insert_all reserve [] n t = some t
insert_all reserve (w ∷ ws) n t = insert_subtree (reserve n) t w >>= insert_all reserve ws (n + 1)

bind_some : (o : Option Tree) → (o >>= λ t. some t) ≡ o
bind_some none = refl
bind_some (some t) = refl

module _ (reserve : ℕ → ℕ → Option ℕ) where
  skip-Others :
      (gap rest : List ℕ) (n : ℕ) (t : Tree)
      → Others gap
      → insert_words reserve (gap ++ rest) none n t ≡ insert_words reserve rest none n t
  unfolding insert_words
  skip-Others [] rest n t o = refl
  skip-Others (c ∷ gap) rest n t o = rw (o.0, insert_words) (skip-Others gap rest n t o.1)

  take-Letters :
      (w rest : List ℕ) (word : Word) (n : ℕ) (t : Tree)
      → Letters w
      → length word + length w < max_word
      → insert_words reserve (w ++ rest) (some word) n t
        ≡ insert_words reserve rest (some (word ++ w)) n t
  unfolding insert_words
  take-Letters [] rest word n t l few = rw (append-nil word) refl
  take-Letters (c ∷ w) rest word n t l few =
      let room : ltb (length word) (max_word - 1) ≡ true = ground (arith, few) in
      let longer = length-append word (c ∷ []) in
      rw (l.0, room, insert_words)
        (take-Letters w rest (word ++ c ∷ []) n t l.1 (omega (arith, few, longer))
          ∙ ap (λ (x : Word). insert_words reserve rest (some x) n t)
              (append_assoc word (c ∷ []) w))

  -- A word and a byte behind it.
  take_word :
      (w : Word) (d : ℕ) (rest : List ℕ) (n : ℕ) (t : Tree)
      → Letters w
      → 1 ≤ length w
      → length w < max_word
      → isalpha d ≡ false
      → insert_words reserve (w ++ d ∷ rest) none n t
        ≡ (insert_subtree (reserve n) t w >>= insert_words reserve rest none (n + 1))
  unfolding insert_words
  take_word [] d rest n t l some_letter few o = absurd (omega arith)
  take_word (c ∷ w) d rest n t l some_letter few o =
      rw (l.0, insert_words)
        (take-Letters w (d ∷ rest) (c ∷ []) n t l.1 (omega (arith, few))
          ∙ rw (o, insert_words) refl)

  last_word :
      (w : Word) (n : ℕ) (t : Tree)
      → Letters w
      → length w < max_word
      → insert_words reserve w none n t ≡ insert_all reserve (words_of [] w) n t
  unfolding insert_words insert_all words_of
  last_word [] n t l few = refl
  last_word (c ∷ w) n t l few =
      let whole = take-Letters w [] (c ∷ []) n t l.1 (omega (arith, few)) in
      rw (l.0, insert_words)
        ((rw (append-nil w) at whole) ∙ sym (bind_some (insert_subtree (reserve n) t (c ∷ w))))

  insert_words-insert_all :
      (ps : List (Word × Word)) (last : Word) (n : ℕ) (t : Tree)
      → Fit ps last
      → insert_words reserve (spell ps last) none n t ≡ insert_all reserve (words_of ps last) n t
  unfolding spell words_of insert_all
  insert_words-insert_all [] last n t fit = last_word last n t fit.0 fit.1
  insert_words-insert_all ((w, []) ∷ ps) last n t fit = absurd (omega (arith, fit.1.0.1))
  insert_words-insert_all ((w, d ∷ gap) ∷ ps) last n t fit =
      let rest : (t' : Tree)
          → insert_words reserve (gap ++ spell ps last) none (n + 1) t'
            ≡ insert_all reserve (words_of ps last) (n + 1) t' =
        λ t'.
          skip-Others gap (spell ps last) (n + 1) t' fit.1.0.0.1
          ∙ insert_words-insert_all ps last (n + 1) t' fit.1.1 in
      take_word w d (gap ++ spell ps last) n t fit.0.0 fit.0.1.0 fit.0.1.1 fit.1.0.0.0
      ∙ ap (λ (f : Tree → Option Tree). insert_subtree (reserve n) t w >>= f) (fun_ext rest)

  -- tree_insert_words of a file, from any text whose words are shorter than MAXWORD, with any other
  -- bytes in front of it: it inserts the text's words, one after the other, and nothing else.
  pub insert_words-words_of :
      (front : List ℕ) (ps : List (Word × Word)) (last : Word) (t : Tree)
      → Others front
      → Fit ps last
      → insert_words reserve (front ++ spell ps last) none 0 t
        ≡ insert_all reserve (words_of ps last) 0 t
  insert_words-words_of front ps last t o fit =
      skip-Others front (spell ps last) 0 t o ∙ insert_words-insert_all ps last 0 t fit

-- How often a word stands in a list.
unfoldable pub occurrences : Word → List Word → ℕ
occurrences v [] = 0
occurrences v (w ∷ ws) =
    let rest = occurrences v ws in elim (strcmp v w) [ Ordering.eq ↦ suc rest | _ ↦ rest ]

occurrences-skip : (v w : Word) (ws : List Word) → v ≢ w → occurrences v (w ∷ ws) ≡ occurrences v ws
unfolding occurrences
occurrences-skip v w ws ne = elim (Ordering-cases (strcmp v w)) [
  | inl o ↦ rw (o, occurrences) refl
  | inr (inl o) ↦ absurd (ne (strcmp-equal v w o))
  | inr (inr o) ↦ rw (o, occurrences) refl
]

-- A count is an unsigned int.
abbrev pub Bounded : List Line → Type 0
Bounded es = (v : Word) → tally v es < 2 ^ 32

-- A word counted once more: a bound on all counts, and on what follows for a list of words.
step-tally :
    (v w : Word) (ws : List Word) (es : List Line)
    → InOrder es
    → Bounded es
    → (tally v (bump w es) < 2 ^ 32)
      × ((tally v (bump w es) + occurrences v ws) % 2 ^ 32
          ≡ (tally v es + occurrences v (w ∷ ws)) % 2 ^ 32)
unfolding occurrences
step-tally v w ws es ord few = elim (Ordering-cases (strcmp v w)) [
  | inl o ↦
      other (λ e.
        (let same : strcmp v w ≡ Ordering.eq = rw e (strcmp_refl w) in ground (arith, o, same)))
  | inr (inl o) ↦
      let e = strcmp-equal v w o in
      let now : tally v (bump w es) ≡ (tally v es + 1) % 2 ^ 32 = rw e (bump-tally w es ord).0 in
      let all : occurrences v (w ∷ ws) ≡ suc (occurrences v ws) = rw (o, occurrences) refl in
      (omega (arith, now), omega (arith, now, all))
  | inr (inr o) ↦
      other (λ e.
        (let same : strcmp v w ≡ Ordering.eq = rw e (strcmp_refl w) in ground (arith, o, same)))
]
  where
    other :
        v ≢ w
        → (tally v (bump w es) < 2 ^ 32)
          × ((tally v (bump w es) + occurrences v ws) % 2 ^ 32
              ≡ (tally v es + occurrences v (w ∷ ws)) % 2 ^ 32)
    other ne =
        let now = (bump-tally w es ord).1 v ne in
        let all = occurrences-skip v w ws ne in (omega (arith, now, few v), omega (arith, now, all))

insert_all-tally :
    (reserve : ℕ → ℕ → Option ℕ) (ws : List Word) (n : ℕ) (t : Tree)
    → ((n size : ℕ) → (p : ℕ) × (reserve n size ≡ some p))
    → InOrder (walk_subtree t)
    → Bounded (walk_subtree t)
    → (t' : Tree) × (insert_all reserve ws n t ≡ some t')
      × (InOrder (walk_subtree t')
          × ((v : Word)
              → tally v (walk_subtree t') ≡ (tally v (walk_subtree t) + occurrences v ws) % 2 ^ 32))
unfolding insert_all occurrences
insert_all-tally reserve [] n t given ord few = (t, refl, (ord, λ v. omega (arith, few v)))
insert_all-tally reserve (w ∷ ws) n t given ord few =
    let (t₁, e, walk₁, ord₁) = insert_subtree-bump (reserve n) t w (given n) ord in
    let few₁ : Bounded (walk_subtree t₁) =
      λ v. rw walk₁ (step-tally v w ws (walk_subtree t) ord few).0 in
    let (t₂, e₂, counted) = insert_all-tally reserve ws (n + 1) t₁ given ord₁ few₁ in
    (
      t₂,
      rw e e₂,
      (
        counted.0,
        λ v. (rw walk₁ at (counted.1 v)) ∙ (step-tally v w ws (walk_subtree t) ord few).1,
      ),
    )

-- tree_insert_words of a file into an empty tree, where pmemalloc_reserve gives memory: for a text
-- whose words are shorter than MAXWORD, with any other bytes in front of it, it ends, the words of
-- the tree are in order, and the count of each word is how often it stands in the text, modulo 2 ^
-- 32.
pub insert_words-occurrences :
    (reserve : ℕ → ℕ → Option ℕ) (front : List ℕ) (ps : List (Word × Word)) (last : Word)
    → ((n size : ℕ) → (p : ℕ) × (reserve n size ≡ some p))
    → Others front
    → Fit ps last
    → (t' : Tree) × (insert_words reserve (front ++ spell ps last) none 0 null ≡ some t')
      × (InOrder (walk_subtree t')
          × ((v : Word) → tally v (walk_subtree t') ≡ occurrences v (words_of ps last) % 2 ^ 32))
unfolding walk_subtree tally
insert_words-occurrences reserve front ps last given o fit =
    let (t', e, counted) =
      insert_all-tally reserve (words_of ps last) 0 null given tt (λ v. omega arith) in
    (
      t',
      insert_words-words_of reserve front ps last null o fit ∙ e,
      (counted.0, λ v. counted.1 v ∙ ap (λ (x : ℕ). x % 2 ^ 32) (omega arith)),
    )
