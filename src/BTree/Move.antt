-- ===== src/BTree/Move.antt =====
-- Case 3a of `nodedeletekey` of btree-1.0/bt_code.c: what a move of keys between two children does.
use linux_examples.Base.{
  ℕ, zero, suc, ◌+◌, ◌-◌, ◌*◌, ◌^◌, ◌<◌, ◌≤◌, ◌≡◌, ◌∙◌, sym, ap, refl, Option, some, List, [], ◌∷◌,
  ◌++◌, append_assoc, append-nil, All, arith, length, length-set, get_elem?, get_elem?-lt, set,
}
use linux_examples.BTree.Delete.{from_left, from_right}
use linux_examples.BTree.Lists.{reached, get_elem?-set, All-set, All-get_elem?}
use linux_examples.BTree.Node.{fits-le, Node, unlisted, keys_of}
use linux_examples.BTree.Pair.{Pair, Pair-at}
use linux_examples.BTree.Rotate.{
  shorter_end, longer_start, longer_end, shorter_start, Rotated, shorter_end-Rotated,
  shorter_start-Rotated,
}
use linux_examples.BTree.Shape.{inorder, weave, IsTree, Fits}

module _ {A : Type 0} where
  get_elem?-set_above :
      (xs : List A) (i : ℕ) (a : A) → get_elem? (set xs (suc i) a) i ≡ get_elem? xs i
  get_elem?-set_above [] i a = refl
  get_elem?-set_above (x ∷ xs) zero a = refl
  get_elem?-set_above (x ∷ xs) (suc i) a = get_elem?-set_above xs i a

module _ {K : Type 0} (s h : ℕ) where
  -- A child of a node at height `h + 1`.
  abbrev pub IsChild : Node K → Type 0
  IsChild c = Fits s c × IsTree s h c

  abbrev pub IsInner : List K → List (Node K) → Type 0
  IsInner keys cs = (length cs ≡ suc (length keys)) × All IsChild cs

  -- The same keys in order, in a node with one key less at most, where the child at `i'` has the
  -- keys of the child `x` at `i` and more than the least number.
  pub record Moved (keys : List K) (cs : List (Node K)) (i : ℕ) (x : Node K) (i' : ℕ)
      (o : Option (List K × List (Node K))) : Type 0 where
    pub keys' : List K
    pub cs' : List (Node K)
    pub c : Node K
    pub made : o ≡ some (keys', cs')
    pub inner : IsInner keys' cs'
    pub at : get_elem? cs' i' ≡ some c
    pub big : suc s ≤ length (keys_of c)
    pub same : weave keys' (unlisted cs') ≡ weave keys (unlisted cs)
    pub fewer : length keys ≤ length keys' + 1
    pub no_more : length keys' ≤ length keys
    pub first : i ≡ 0 → i' ≡ 0
    pub last : i ≡ length keys → i' ≡ length keys'
    pub front : List K
    pub back : List K
    pub covers : inorder c ≡ front ++ (inorder x ++ back)

  module _ (narrow : 2 * s + 1 < 2 ^ 14) (m : ℕ) (keys : List K) (cs : List (Node K)) (y z : Node K)
      (k : K) (level : IsInner keys cs) (at_y : get_elem? cs m ≡ some y)
      (at_z : get_elem? cs (suc m) ≡ some z) (at_k : get_elem? keys m ≡ some k) where
    pair : Pair m keys cs y z k
    pair = Pair-at m keys cs y z k at_k at_y at_z

    old_y : IsChild y
    old_y = All-get_elem? IsChild cs m y level.1 at_y

    old_z : IsChild z
    old_z = All-get_elem? IsChild cs (suc m) z level.1 at_z

    -- Two children and the key between them changed, with the same keys in order.
    set-IsInner :
        (a b : Node K) (up : K)
        → IsChild a
        → IsChild b
        → IsInner (set keys m up) (set (set cs m a) (suc m) b)
    set-IsInner a b up ia ib = (
      omega (
        arith,
        level.0,
        length-set keys m up,
        length-set cs m a,
        length-set (set cs m a) (suc m) b,
      ),
      All-set IsChild (set cs m a) (suc m) b (All-set IsChild cs m a level.1 ia) ib,
    )

    set_same :
        (a b : Node K) (up : K)
        → Rotated s h y z k a up b
        → weave (set keys m up) (unlisted (set (set cs m a) (suc m) b)) ≡ weave keys (unlisted cs)
    set_same a b up w =
        pair.both a up b
        ∙ ap (λ (l : List K). pair.pre ++ l)
            (sym (append_assoc (inorder a) (up ∷ inorder b) pair.post)
              ∙ ap (λ (l : List K). l ++ pair.post) w.same
              ∙ append_assoc (inorder y) (k ∷ inorder z) pair.post)
        ∙ sym pair.here

    from_left-some :
        (n : ℕ) (up : K)
        → length (keys_of y) ≡ suc n
        → length (keys_of z) ≡ s
        → get_elem? (keys_of y) n ≡ some up
        → from_left (suc s) m keys cs
          ≡ some (
            set keys m up,
            set (set cs m (shorter_end s h n y)) (suc m) (longer_start s h n y k z),
          )
    unfolding from_left
    from_left-some n up size poor at_up =
        let room = fits-le s (length (keys_of z) + 1) narrow (omega arith) in
        let next : m + 1 ≡ suc m = omega arith in
        let less : suc n - 1 ≡ n = omega arith in
        rw (next, at_y, at_z, at_k, size, less, at_up, room) refl

    pub from_left-Moved :
        suc s ≤ length (keys_of y)
        → length (keys_of z) ≡ s
        → Moved keys cs (suc m) z (suc m) (from_left (suc s) m keys cs)
    from_left-Moved rich poor =
        let n = length (keys_of y) - 1 in
        let size : length (keys_of y) ≡ suc n = omega arith in
        let (up, at_up) = reached (keys_of y) n (omega arith) in
        let a = shorter_end s h n y in
        let b = longer_start s h n y k z in
        let (w, len, (front, covers)) =
          shorter_end-Rotated s h n y z k up old_y.1 old_z.1 size at_up in
        record {
          keys' = set keys m up;
          cs' = set (set cs m a) (suc m) b;
          c = b;
          made = from_left-some n up size poor at_up;
          inner =
              set-IsInner a b up ((omega (arith, len), omega (arith, len, old_y.0)), w.a_tree)
                ((omega arith, omega arith), w.b_tree);
          at =
              get_elem?-set (set cs m a) (suc m) b
                (omega (arith, length-set cs m a, get_elem?-lt cs (suc m) z at_z));
          big = omega arith;
          same = set_same a b up w;
          fewer = omega (arith, length-set keys m up);
          no_more = omega (arith, length-set keys m up);
          first = λ e. absurd (omega (arith, e));
          last = λ e. omega (arith, e, length-set keys m up);
          front = front;
          back = [];
          covers = covers ∙ ap (λ (l : List K). front ++ l) (sym (append-nil (inorder z)));
        }

    from_right-some :
        (up : K)
        → length (keys_of y) ≡ s
        → get_elem? (keys_of z) 0 ≡ some up
        → from_right (suc s) m keys cs
          ≡ some
              (set keys m up, set (set cs m (longer_end s h y k z)) (suc m) (shorter_start s h z))
    unfolding from_right
    from_right-some up poor at_up =
        let next : m + 1 ≡ suc m = omega arith in
        let room = fits-le s (length (keys_of y) + 1) narrow (omega arith) in
        rw (next, at_y, at_z, at_k, at_up, room) refl

    pub from_right-Moved :
        length (keys_of y) ≡ s
        → suc s ≤ length (keys_of z)
        → Moved keys cs m y m (from_right (suc s) m keys cs)
    from_right-Moved poor rich =
        let n = length (keys_of z) - 1 in
        let (up, at_up) = reached (keys_of z) 0 (omega arith) in
        let a = longer_end s h y k z in
        let b = shorter_start s h z in
        let (w, len, more, (back, covers)) =
          shorter_start-Rotated s h n y z k up old_y.1 old_z.1 (omega arith) at_up in
        record {
          keys' = set keys m up;
          cs' = set (set cs m a) (suc m) b;
          c = a;
          made = from_right-some up poor at_up;
          inner =
              set-IsInner a b up ((omega (arith, more), omega (arith, more)), w.a_tree)
                ((omega (arith, len), omega (arith, len, old_z.0)), w.b_tree);
          at =
              get_elem?-set_above (set cs m a) m b
              ∙ get_elem?-set cs m a (get_elem?-lt cs m y at_y);
          big = omega (arith, more);
          same = set_same a b up w;
          fewer = omega (arith, length-set keys m up);
          no_more = omega (arith, length-set keys m up);
          first = λ e. e;
          last = λ e. e ∙ sym (length-set keys m up);
          front = [];
          back = back;
          covers = covers;
        }
