-- ===== src/BTree/Descend.antt =====
-- The cases of `nodedeletekey` of btree-1.0/bt_code.c, given what it does one level below.
use Prim.Native.Nat.{Ordering}
use linux_examples.Base.{
  ℕ, suc, ◌+◌, ◌*◌, ◌^◌, ◌<◌, ◌≤◌, ◌≡◌, ◌∙◌, sym, subst, refl, false, Option, some, List, [], ◌++◌,
  arith, length, length-set, get_elem?, set,
}
use linux_examples.Base.Maybe.{◌>>=◌}
use linux_examples.BTree.{Compare, Logs}
use linux_examples.BTree.Context.{Any-front, Any-back, Present, Context-at}
use linux_examples.BTree.Delete.{Target, equal_to, greatest, least, enlarge_child, delete_key}
use linux_examples.BTree.Enlarge.{enlarge_child-Enlarged}
use linux_examples.BTree.Lists.{All-set, All-get_elem?}
use linux_examples.BTree.Move.{IsChild, IsInner}
use linux_examples.BTree.Node.{Node, node, unlisted, keys_of}
use linux_examples.BTree.Place.{Serves}
use linux_examples.BTree.Removes.{
  Strict, Strict-front, Strict-back, Removes, Reaches, Removes-within,
}
use linux_examples.BTree.Shape.{inorder, weave, listed-unlisted, IsTree}

module _ {K : Type 0} (compare : Compare K) (s j : ℕ) where
  -- What has to be there for a target: a key equal to the one that is meant.
  abbrev pub Wanted : Target K → List K → Type 0
  Wanted (equal_to k) xs = Present compare k xs
  Wanted greatest xs = Unit
  Wanted least xs = Unit

  Wanted-within :
      (target : Target K) (front xs back : List K)
      → Wanted target xs
      → Wanted target (front ++ (xs ++ back))
  Wanted-within (equal_to k) front xs back w =
      let P = λ (x : K). compare.cmp k x ≡ Ordering.eq in
      Any-back P front (xs ++ back) (Any-front P xs back w)
  Wanted-within greatest front xs back w = tt
  Wanted-within least front xs back w = tt

  -- A tree of height `h` with the keys `xs` less one, and `n` keys in its root, or one less.
  abbrev pub Deleted : ℕ → Target K → List K → ℕ → Option (K × Node K × Logs) → Type 0
  Deleted h target xs n o =
      (r : K) × (x' : Node K) × (logs' : Logs) × (o ≡ some (r, x', logs'))
      × IsTree s h x'
      × (n ≤ length (keys_of x') + 1)
      × (length (keys_of x') ≤ n)
      × Removes compare target xs r (inorder x')
      × Serves (2 * s + 1) j logs'

  -- What the recursion gives for a child that has a key to spare.
  abbrev pub Deletes : ℕ → ℕ → Logs → Type 0
  Deletes fuel h logs =
      (x : Node K) (target : Target K)
      → IsTree s h x
      → 1 ≤ length (keys_of x)
      → length (keys_of x) ≤ 2 * s + 1
      → Strict compare (inorder x)
      → Wanted target (inorder x)
      → Deleted h target (inorder x) (length (keys_of x))
          (delete_key compare fuel (suc s) (2 ^ suc j) x target logs)

  -- Which child a target that is no key leads to.
  abbrev pub Leads : Target K → ℕ → List K → Type 0
  Leads (equal_to k) i keys = Unit
  Leads greatest i keys = i ≡ length keys
  Leads least i keys = i ≡ 0

  Reaches-Leads :
      (target : Target K) (i i' : ℕ) (keys keys' pre post : List K)
      → (i ≡ 0 → i' ≡ 0)
      → (i ≡ length keys → i' ≡ length keys')
      → (i' ≡ 0 → pre ≡ [])
      → (i' ≡ length keys' → post ≡ [])
      → Leads target i keys
      → Reaches compare target pre post
  Reaches-Leads (equal_to k) i i' keys keys' pre post first last f l e = tt
  Reaches-Leads greatest i i' keys keys' pre post first last f l e = l (last e)
  Reaches-Leads least i i' keys keys' pre post first last f l e = f (first e)

  -- The child at `i` of an inner node changed.
  pub inner-IsTree :
      (h : ℕ) (keys : List K) (cs : List (Node K)) (i : ℕ) (c : Node K)
      → IsInner s h keys cs
      → IsChild s h c
      → IsTree s (suc h) (node false keys (unlisted (set cs i c)))
  inner-IsTree h keys cs i c level fit = (
    refl,
    rw (listed-unlisted (set cs i c)) (omega (arith, level.0, length-set cs i c)),
    rw (listed-unlisted (set cs i c)) (All-set (IsChild s h) cs i c level.1 fit),
  )

  pub case3-Deleted :
      (fuel h : ℕ) (target : Target K) (keys : List K) (cs : List (Node K)) (i : ℕ) (x : Node K)
      (logs : Logs)
      → 2 * s + 1 < 2 ^ 14
      → Deletes fuel h logs
      → IsInner s h keys cs
      → get_elem? cs i ≡ some x
      → 1 ≤ length keys
      → Strict compare (weave keys (unlisted cs))
      → Wanted target (inorder x)
      → Leads target i keys
      → Deleted (suc h) target (weave keys (unlisted cs)) (length keys) (
          enlarge_child (suc s) keys cs i >>= λ e. get_elem? e.0.1 e.1 >>= λ x.
          delete_key compare fuel (suc s) (2 ^ suc j) x target logs >>= λ r.
          some (r.0, node false e.0.0 (unlisted (set e.0.1 e.1 r.1)), r.2))
  unfolding weave
  case3-Deleted fuel h target keys cs i x logs narrow go level at more strict wanted leads =
      let (i', o, w, made) = enlarge_child-Enlarged s h narrow keys cs x level i at more in
      let c = Context-at i' w.keys' w.cs' w.c w.inner.0 w.at in
      let fit = All-get_elem? (IsChild s h) w.cs' i' w.c w.inner.1 w.at in
      let strict' = subst (Strict compare) (sym w.same ∙ c.here) strict in
      let strict_c =
        Strict-front compare (inorder w.c) c.post
          (Strict-back compare c.pre (inorder w.c ++ c.post) strict') in
      let (r, c', logs', eq, tree, ge, le, removes, serves) =
        go w.c target fit.1 (omega (arith, w.big)) fit.0.1 strict_c (
          subst (Wanted target) (sym w.covers)
            (Wanted-within target w.front (inorder x) w.back wanted)) in
      (
        r,
        node false w.keys' (unlisted (set w.cs' i' c')),
        logs',
        rw (made, w.at, eq) refl,
        inner-IsTree h w.keys' w.cs' i' c' w.inner
            ((omega (arith, w.big), omega (arith, fit.0)), tree),
        w.fewer,
        w.no_more,
        subst
            (λ (l : List K).
              Removes compare target l r (weave w.keys' (unlisted (set w.cs' i' c'))))
            (sym c.here ∙ w.same)
            (subst (Removes compare target (c.pre ++ (inorder w.c ++ c.post)) r) (sym (c.there c'))
              (Removes-within compare target c.pre (inorder w.c) c.post r (inorder c')
                (Reaches-Leads target i i' keys w.keys' c.pre c.post w.first w.last c.first c.last
                  leads)
                removes)),
        serves,
      )
