-- ===== src/BTree/Removal.antt =====
-- The branches of `nodedeletekey` of btree-1.0/bt_code.c in a leaf and at a key of an inner node.
use Prim.Native.Nat.{Ordering}
use linux_examples.Base.{
  ℕ, suc, ◌+◌, ◌-◌, ◌*◌, ◌^◌, ◌≤◌, ◌<◌, ◌≡◌, ◌≢◌, ◌∙◌, refl, true, false, ◌&&◌, Option, none, some,
  List, [], ◌∷◌, arith, inl, inr, leb, ◌==◌, Bool-cases, if◌then◌else◌, length, get_elem?,
  get_elem?-lt, set,
}
use linux_examples.Base.Maybe.{◌>>=◌}
use linux_examples.BTree.{Compare, Logs}
use linux_examples.BTree.Context.{At-ne-Present}
use linux_examples.BTree.Delete.{
  Target, equal_to, greatest, least, remove_at, leaf_index, find_target, delete_key, merge_at,
}
use linux_examples.BTree.Descend.{Wanted, Deleted, Deletes}
use linux_examples.BTree.Hit.{case2a-Deleted, case2b-Deleted, case2c-Deleted}
use linux_examples.BTree.Lists.{reached, All-get_elem?}
use linux_examples.BTree.Move.{IsChild, IsInner}
use linux_examples.BTree.Node.{Node, Nodes, node, nil, unlisted, keys_of}
use linux_examples.BTree.Pair.{length-remove_at}
use linux_examples.BTree.Place.{Serves, findkindex-At}
use linux_examples.BTree.Removes.{Strict, Strict-Sorted, Meets, remove_at-parts}
use linux_examples.BTree.Shape.{weave, weave_leaf}

module _ {K : Type 0} (compare : Compare K) (s j : ℕ) where
  -- The test on `r` in an inner node.
  pub on_r :
      {B : Type 0} (R : Option B → Type 0) (hit down : Option B) (o : Option Ordering)
      → o ≢ none
      → (o ≡ some Ordering.eq → R hit)
      → (o ≢ some Ordering.eq → R down)
      → R (elim o [ none ↦ none | some Ordering.eq ↦ hit | _ ↦ down ])
  on_r R hit down none ne yes_ no_ = absurd (ne refl)
  on_r R hit down (some Ordering.lt) ne yes_ no_ = no_ (λ e. ground (arith, e))
  on_r R hit down (some Ordering.eq) ne yes_ no_ = yes_ refl
  on_r R hit down (some Ordering.gt) ne yes_ no_ = no_ (λ e. ground (arith, e))

  -- Case 1: the key at `l` goes from a leaf.
  leaf-Deleted :
      (target : Target K) (keys : List K) (children : Nodes K) (l : ℕ) (a : K) (logs : Logs)
      → children ≡ nil
      → get_elem? keys l ≡ some a
      → ((front back : List K)
          → (l ≡ 0 → front ≡ [])
          → (suc l ≡ length keys → back ≡ [])
          → Meets compare target front a back a)
      → Serves (2 * s + 1) j logs
      → l < length keys
      → Deleted compare s j 0 target
          (weave keys children)
          (length keys)
          (some (a, node true (remove_at l keys) children, logs))
  unfolding weave
  leaf-Deleted target keys children l a logs e at meets serves inside =
      let (front, back, old, new, first, last) = remove_at-parts l keys a at in
      let less = length-remove_at l keys inside in
      (
        a,
        node true (remove_at l keys) children,
        logs,
        refl,
        (refl, e),
        omega (arith, less),
        omega (arith, less),
        record {
          front = front;
          gone = a;
          back = back;
          old = weave_leaf keys children e ∙ old;
          new = weave_leaf (remove_at l keys) children e ∙ new;
          meets = meets front back first last;
        },
        serves,
      )

  -- A leaf, with the index that the search gives.
  pub in_leaf :
      (target : Target K) (keys : List K) (children : Nodes K) (logs : Logs)
      → children ≡ nil
      → 1 ≤ length keys
      → length keys ≤ 2 * s + 1
      → Strict compare keys
      → Wanted compare s j target keys
      → Serves (2 * s + 1) j logs
      → Deleted compare s j 0 target (weave keys children) (length keys) (
          find_target compare target keys (2 ^ suc j) logs >>= λ found.
          leaf_index target found.0.0 >>= λ l.
          get_elem? keys l >>= λ k. some (k, node true (remove_at l keys) children, found.1))
  unfolding find_target leaf_index
  in_leaf (equal_to k) keys children logs e more few strict wanted serves =
      let sorted = Strict-Sorted compare keys strict in
      let (p, logs', eq, at, answer, serves') =
        findkindex-At compare keys k (2 * s + 1) j logs sorted few serves in
      elim answer [
        | inl hit ↦
            let (m, key, place_m, at_m, same) = hit.1 in
            rw (eq, place_m, at_m)
              (leaf-Deleted (equal_to k) keys children m key logs' e at_m
                (λ front back first last. (same, inl refl)) serves' (get_elem?-lt keys m key at_m))
        | inr miss ↦ absurd (At-ne-Present compare k p.0 keys miss.1 sorted wanted)
      ]
  in_leaf greatest [] children logs e more few strict wanted serves = absurd (omega arith)
  in_leaf greatest (x ∷ xs) children logs e more few strict wanted serves =
      let (a, at) = reached (x ∷ xs) (length xs) (omega arith) in
      rw at (
        leaf-Deleted greatest (x ∷ xs) children (length xs) a logs e at
          (λ front back first last. (last refl, refl)) serves (omega arith))
  in_leaf least keys children logs e more few strict wanted serves =
      let (a, at) = reached keys 0 (omega arith) in
      rw at (
        leaf-Deleted least keys children 0 a logs e at (λ front back first last. (first refl, refl))
          serves (omega arith))

  -- The tests of case 2, behind those on where the key is.
  pub case2-Deleted :
      (fuel h : ℕ) (k : K) (keys : List K) (cs : List (Node K)) (m : ℕ) (key : K) (logs : Logs)
      (down : Option (K × Node K × Logs))
      → 2 * s + 1 < 2 ^ 14
      → Deletes compare s j fuel h logs
      → IsInner s h keys cs
      → get_elem? keys m ≡ some key
      → Strict compare (weave keys (unlisted cs))
      → compare.cmp k key ≡ Ordering.eq
      → Deleted compare s j (suc h) (equal_to k) (weave keys (unlisted cs)) (length keys) (
          get_elem? keys m >>= λ key. get_elem? cs m >>= λ y. get_elem? cs (m + 1) >>= λ z.
          if leb (suc s) (length (keys_of y))
          then (delete_key compare fuel (suc s) (2 ^ suc j) y greatest logs >>= λ r.
              some (key, node false (set keys m r.0) (unlisted (set cs m r.1)), r.2))
          else if leb (suc s) (length (keys_of z))
          then (delete_key compare fuel (suc s) (2 ^ suc j) z least logs >>= λ r.
              some (key, node false (set keys m r.0) (unlisted (set cs (m + 1) r.1)), r.2))
          else if length (keys_of y) == suc s - 1 && length (keys_of z) == suc s - 1
          then (merge_at (suc s) m k keys cs >>= λ e. get_elem? e.1 m >>= λ c.
              delete_key compare fuel (suc s) (2 ^ suc j) c (equal_to k) logs >>= λ r.
              some (r.0, node false e.0 (unlisted (set e.1 m r.1)), r.2))
          else down)
  case2-Deleted fuel h k keys cs m key logs down narrow go level at strict equal =
      let inside = get_elem?-lt keys m key at in
      let (y, at_y) = reached cs m (omega (arith, level.0)) in
      let (z, at_z) = reached cs (suc m) (omega (arith, level.0)) in
      let fit_y = All-get_elem? (IsChild s h) cs m y level.1 at_y in
      let fit_z = All-get_elem? (IsChild s h) cs (suc m) z level.1 at_z in
      let next : m + 1 ≡ suc m = omega arith in
      elim (Bool-cases (leb (suc s) (length (keys_of y)))) [
        | inl rich ↦
            rw (at, at_y, next, at_z, rich)
              (case2a-Deleted compare s narrow j fuel h k keys cs m key y z logs go level at at_y
                at_z strict equal (ground arith))
        | inr poor_y ↦
            let size_y : length (keys_of y) ≡ s = ground (arith, fit_y.0.0) in
            elim (Bool-cases (leb (suc s) (length (keys_of z)))) [
              | inl rich ↦
                  rw (at, at_y, next, at_z, poor_y, rich)
                    (case2b-Deleted compare s narrow j fuel h k keys cs m key y z logs go level at
                      at_y at_z strict equal (ground arith))
              | inr poor_z ↦
                  let size_z : length (keys_of z) ≡ s = ground (arith, fit_z.0.0) in
                  let least_y : length (keys_of y) == suc s - 1 ≡ true = ground arith in
                  let least_z : length (keys_of z) == suc s - 1 ≡ true = ground arith in
                  rw (at, at_y, next, at_z, poor_y, poor_z, least_y, least_z)
                    (case2c-Deleted compare s narrow j fuel h k keys cs m key y z logs go level at
                      at_y at_z strict equal size_y size_z)
            ]
      ]
