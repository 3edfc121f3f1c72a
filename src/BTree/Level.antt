-- ===== src/BTree/Level.antt =====
-- Parts of nodes of btree-1.0/bt_code.c, as lists of keys and children, and what is made of them.
use linux_examples.Base.{
  ℕ, zero, suc, ◌+◌, ◌<◌, ◌≡◌, ◌∙◌, sym, ap, Bool, true, false, some, List, [], ◌∷◌, ◌++◌, All,
  arith, length, length-append, get_elem?,
}
use linux_examples.BTree.Delete.{merged}
use linux_examples.BTree.Lists.{take-drop, drop_next, length-take, length-drop, All-take, All-drop}
use linux_examples.BTree.Node.{
  Node, Nodes, node, listed, unlisted, take, drop, is_leaf, keys_of, children_of,
}
use linux_examples.BTree.Order.{All-append}
use linux_examples.BTree.Shape.{
  inorder, weave, weave_leaf, listed-unlisted, unlisted-listed, IsTree, Fits,
}
use linux_examples.BTree.Split.{weave-append}

module _ {K : Type 0} where
  -- The keys and the children of a node of height `h`.
  abbrev pub IsLevel : ℕ → ℕ → Bool → List K → List (Node K) → Type 0
  IsLevel s zero leaf keys cs = (leaf ≡ true) × (cs ≡ [])
  IsLevel s (suc h) leaf keys cs =
      (leaf ≡ false) × (length cs ≡ suc (length keys)) × All (λ c. Fits s c × IsTree s h c) cs

  pub IsLevel-IsTree :
      (s h : ℕ) (x : Node K) → IsTree s h x → IsLevel s h (is_leaf x) (keys_of x) (children_of x)
  IsLevel-IsTree s zero (node leaf keys children) t = (t.0, ap listed t.1)
  IsLevel-IsTree s (suc h) (node leaf keys children) t = t

  pub IsTree-IsLevel :
      (s h : ℕ) (leaf : Bool) (keys : List K) (cs : List (Node K))
      → IsLevel s h leaf keys cs
      → IsTree s h (node leaf keys (unlisted cs))
  IsTree-IsLevel s zero leaf keys cs t = (t.0, ap unlisted t.1)
  IsTree-IsLevel s (suc h) leaf keys cs t = rw (listed-unlisted cs) t

  pub leaf-eq :
      (s h : ℕ) (leaf leaf' : Bool) (ks ks' : List K) (cs cs' : List (Node K))
      → IsLevel s h leaf ks cs
      → IsLevel s h leaf' ks' cs'
      → leaf ≡ leaf'
  leaf-eq s zero leaf leaf' ks ks' cs cs' a b = a.0 ∙ sym b.0
  leaf-eq s (suc h) leaf leaf' ks ks' cs cs' a b = a.0 ∙ sym b.0

  -- Two levels and a key between make one, whose keys are theirs in order.
  pub IsLevel-join :
      (s h : ℕ) (leaf leaf' : Bool) (ks ks' : List K) (m : K) (cs cs' : List (Node K))
      → IsLevel s h leaf ks cs
      → IsLevel s h leaf' ks' cs'
      → IsLevel s h leaf (ks ++ m ∷ ks') (cs ++ cs')
  IsLevel-join s zero leaf leaf' ks ks' m cs cs' a b =
      (a.0, ap (λ (l : List (Node K)). l ++ cs') a.1 ∙ b.1)
  IsLevel-join s (suc h) leaf leaf' ks ks' m cs cs' a b = (
    a.0,
    length-append cs cs' ∙ omega (arith, a.1, b.1, length-append ks (m ∷ ks')),
    All-append (λ c. Fits s c × IsTree s h c) cs cs' a.2 b.2,
  )

  pub weave-join :
      (s h : ℕ) (leaf leaf' : Bool) (ks ks' : List K) (m : K) (cs cs' : List (Node K))
      → IsLevel s h leaf ks cs
      → IsLevel s h leaf' ks' cs'
      → weave (ks ++ m ∷ ks') (unlisted (cs ++ cs'))
        ≡ weave ks (unlisted cs) ++ m ∷ weave ks' (unlisted cs')
  weave-join s zero leaf leaf' ks ks' m cs cs' a b =
      weave_leaf (ks ++ m ∷ ks') (unlisted (cs ++ cs'))
        (ap unlisted (ap (λ (l : List (Node K)). l ++ cs') a.1 ∙ b.1))
      ∙ sym (ap (λ (l : List K). l ++ m ∷ ks') (weave_leaf ks (unlisted cs) (ap unlisted a.1)))
      ∙ sym (
          ap (λ (l : List K). weave ks (unlisted cs) ++ m ∷ l)
            (weave_leaf ks' (unlisted cs') (ap unlisted b.1)))
  weave-join s (suc h) leaf leaf' ks ks' m cs cs' a b = weave-append ks ks' m cs cs' a.1

  -- A level parted at a key.
  pub IsLevel-front :
      (s h : ℕ) (leaf : Bool) (n : ℕ) (ks : List K) (cs : List (Node K))
      → n < length ks
      → IsLevel s h leaf ks cs
      → IsLevel s h leaf (take n ks) (take (suc n) cs)
  unfolding take
  IsLevel-front s zero leaf n ks cs lt a = (a.0, ap (take (suc n)) a.1)
  IsLevel-front s (suc h) leaf n ks cs lt a = (
    a.0,
    omega (arith, length-take (suc n) cs (omega (arith, a.1)), length-take n ks (omega arith)),
    All-take (λ c. Fits s c × IsTree s h c) (suc n) cs a.2,
  )

  pub IsLevel-back :
      (s h : ℕ) (leaf : Bool) (n : ℕ) (ks : List K) (cs : List (Node K))
      → n < length ks
      → IsLevel s h leaf ks cs
      → IsLevel s h leaf (drop (suc n) ks) (drop (suc n) cs)
  unfolding drop
  IsLevel-back s zero leaf n ks cs lt a = (a.0, ap (drop (suc n)) a.1)
  IsLevel-back s (suc h) leaf n ks cs lt a = (
    a.0,
    omega (arith, a.1, length-drop (suc n) cs, length-drop (suc n) ks),
    All-drop (λ c. Fits s c × IsTree s h c) (suc n) cs a.2,
  )

  pub weave-part :
      (s h : ℕ) (leaf : Bool) (n : ℕ) (ks : List K) (m : K) (cs : List (Node K))
      → get_elem? ks n ≡ some m
      → n < length ks
      → IsLevel s h leaf ks cs
      → weave ks (unlisted cs)
        ≡ weave (take n ks) (unlisted (take (suc n) cs))
          ++ m ∷ weave (drop (suc n) ks) (unlisted (drop (suc n) cs))
  weave-part s h leaf n ks m cs at lt a =
      ap (λ (l : List K). weave l (unlisted cs))
        (sym (take-drop n ks) ∙ ap (λ (l : List K). take n ks ++ l) (drop_next n ks m at))
      ∙ ap (λ (l : List (Node K)). weave (take n ks ++ m ∷ drop (suc n) ks) (unlisted l))
          (sym (take-drop (suc n) cs))
      ∙ weave-join s h leaf leaf (take n ks) (drop (suc n) ks) m (take (suc n) cs) (drop (suc n) cs)
          (IsLevel-front s h leaf n ks cs lt a) (IsLevel-back s h leaf n ks cs lt a)

  pub inorder-IsLevel : (x : Node K) → inorder x ≡ weave (keys_of x) (unlisted (children_of x))
  unfolding weave
  inorder-IsLevel (node leaf keys children) = ap (weave keys) (sym (unlisted-listed children))

  -- What `merged` makes.
  pub merged-IsTree :
      (s h : ℕ) (y z : Node K) (k : K)
      → IsTree s h y
      → IsTree s h z
      → IsTree s h (merged y k z)
        × (inorder (merged y k z) ≡ inorder y ++ k ∷ inorder z)
        × (length (keys_of (merged y k z)) ≡ length (keys_of y) + 1 + length (keys_of z))
  unfolding weave
  merged-IsTree s h (node leaf ks cs) (node leaf' ks' cs') k ty tz =
      let a = IsLevel-IsTree s h (node leaf ks cs) ty in
      let b = IsLevel-IsTree s h (node leaf' ks' cs') tz in
      (
        IsTree-IsLevel s h leaf (ks ++ k ∷ ks') (listed cs ++ listed cs')
            (IsLevel-join s h leaf leaf' ks ks' k (listed cs) (listed cs') a b),
        weave-join s h leaf leaf' ks ks' k (listed cs) (listed cs') a b
            ∙ ap (λ (l : Nodes K). weave ks l ++ k ∷ weave ks' (unlisted (listed cs')))
                (unlisted-listed cs)
            ∙ ap (λ (l : Nodes K). weave ks cs ++ k ∷ weave ks' l) (unlisted-listed cs'),
        omega (arith, length-append ks (k ∷ ks')),
      )
