-- ===== src/BTree/Check.antt =====
-- btree-1.0/bt_output.c: the check of a tree, and its height.
use Prim.Native.Nat.{Ordering}
use linux_examples.Base.{
  ℕ, zero, suc, ◌+◌, ◌-◌, ◌*◌, ◌&&◌, ◌||◌, not, Bool, false, Option, none, some, List, [], ◌∷◌, ltb,
  ◌==◌, if◌then◌else◌, length, get_elem?,
}
use linux_examples.Base.Maybe.{◌>>=◌}
use linux_examples.BTree.{Compare}
use linux_examples.BTree.Node.{Node, node, listed}

-- What a check ends with: 1, 0, or the call of `exit`.
pub data Verdict : Type 0 where
  good bad stopped : Verdict

module _ {K : Type 0} (compare : Compare K) where
  -- `checkbtreenode` where the node is NULL.
  unfoldable pub check_null : K → K → Verdict
  check_null kmin kmax = elim (compare.cmp kmin kmax) [ Ordering.lt ↦ good | _ ↦ bad ]

  -- The checks of the children from index `i` on, each between the key before it and the one
  -- behind.
  unfoldable pub check_between : (ℕ → K → K → Option Verdict) → ℕ → K → List K → K → Option Verdict
  check_between child i lo [] kmax = child i lo kmax
  check_between child i lo (k ∷ ks) kmax =
      child i lo k >>= λ v. elim v [ good ↦ check_between child (i + 1) k ks kmax | w ↦ some w ]

  -- `checkbtreenode` of a node. The pointers of a leaf are NULL. `none` is the end of the fuel, or
  -- an access outside of a node.
  unfoldable pub check_node : ℕ → ℕ → Node K → K → K → Bool → Option Verdict
  check_node zero t x kmin kmax isroot = none
  check_node (suc fuel) t (node leaf keys children) kmin kmax isroot =
      let n = length keys in
      let child = λ (i : ℕ) (lo hi : K).
        (if leaf
          then some (check_null lo hi)
          else get_elem? (listed children) i >>= λ c. check_node fuel t c lo hi false) in
      if not isroot && (ltb n (t - 1) || ltb (2 * t - 1) n)
      then some stopped
      else if n == 0 && not leaf
      then child 0 kmin kmax
      else if n == 0 && leaf && not isroot
      then some (check_null kmin kmax)
      else elim keys [ [] ↦ none | k ∷ ks ↦ check_between child 0 kmin (k ∷ ks) kmax ]

-- `treeheight`: the loop to the first leaf, with `ret`.
unfoldable pub height_from : {K : Type 0} → ℕ → Node K → ℕ → Option ℕ
height_from zero x ret = none
height_from (suc fuel) (node leaf keys children) ret =
    if leaf
    then some (ret + 1)
    else get_elem? (listed children) 0 >>= λ x. height_from fuel x (ret + 1)
