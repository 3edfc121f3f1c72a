-- ===== src/BTree.antt =====
-- btree-1.0/bt_code.c: a B-tree, and the search for a key's place in a node.
pub mod Log
pub mod FindIndex
pub mod Create
pub mod Node
pub mod Lists
pub mod Shape
pub mod Split
pub mod Order
pub mod Place
pub mod Weave
pub mod Down
pub mod Nonfull
pub mod Insert
pub mod Context
pub mod Find
pub mod MinMax
pub mod Delete
pub mod Pair
pub mod Level
pub mod Rotate
pub mod Move
pub mod Merge
pub mod Enlarge
pub mod Removes
pub mod Descend
pub mod Hit
pub mod Removal
pub mod Root
pub mod Deletion
pub mod Check
pub mod Checked
use Prim.Native.Nat.{Ordering, bit_or}
use linux_examples.Base.{
  ℕ, zero, suc, ◌+◌, ◌-◌, ◌*◌, ◌/◌, ◌%◌, ◌^◌, ◌≡◌, ◌≢◌, ◌&&◌, Option, none, some, List, [], ◌∷◌,
  ◌++◌, leb, ltb, ◌==◌, if◌then◌else◌, length, get_elem?, set, replicate,
}
use linux_examples.Base.Maybe.{◌>>=◌}

-- `btr->cmp`, and what the code relies on: a key equals itself, the order of the arguments turns
-- the answer round, and a key below another is below all that are not below that.
pub record Compare (K : Type 0) : Type 0 where
  pub cmp : K → K → Ordering
  pub cmp_refl : (a : K) → cmp a a ≡ Ordering.eq
  pub lt_of_gt : (a b : K) → cmp a b ≡ Ordering.gt → cmp b a ≡ Ordering.lt
  pub gt_of_lt : (a b : K) → cmp a b ≡ Ordering.lt → cmp b a ≡ Ordering.gt
  pub cmp_trans :
      (a b c : K) → cmp a b ≡ Ordering.lt → cmp b c ≢ Ordering.gt → cmp a c ≡ Ordering.lt

-- The loop of `real_log2`, with `fuel` rounds left; `b` halves, so that `b` rounds are enough.
unfoldable pub log_rounds : ℕ → ℕ → ℕ → ℕ → ℕ
log_rounds zero b a i = i
log_rounds (suc fuel) b a i =
    let top = log_rounds fuel (b / 2) (a / 2 ^ b) (2 * i + 1) in
    let bottom = log_rounds fuel (b / 2) (a % 2 ^ b) (2 * i) in
    if b == 0 then i else if leb (2 ^ b) a then top else bottom

unfoldable pub real_log2 : ℕ → ℕ → ℕ
real_log2 a nbits = let b = (nbits + 1) / 2 in log_rounds b b a 0

-- The static variables of `log2`; an entry of -1 is `none`.
pub record Logs : Type 0 where
  pub alloced : ℕ
  pub table : List (Option ℕ)

-- `if (a > alloced) …`
unfoldable pub enlarge : ℕ → Logs → Logs
enlarge a logs =
    if ltb logs.alloced a
    then record { alloced = a + 1; table = logs.table ++ replicate (a + 1 - logs.alloced) none }
    else logs

-- `log2`; `none` is an access outside of the table.
unfoldable pub log2 : ℕ → ℕ → Logs → Option (ℕ × Logs)
log2 a nbits logs =
    let logs₁ = enlarge a logs in
    get_elem? logs₁.table a >>= λ entry. elim entry [
      | some v ↦ some (v, logs₁)
      | none ↦
          some (
            real_log2 a nbits,
            record logs₁ { table = set logs₁.table a (some (real_log2 a nbits)) },
          )
    ]

module _ {K : Type 0} (compare : Compare K) where
  -- The loop of `findkindex`; `a` gets smaller, so that `a` rounds are enough.
  unfoldable pub index_rounds : List K → K → ℕ → ℕ → ℕ → ℕ → Logs → Option (ℕ × Logs)
  index_rounds keys k nbits fuel zero i logs = some (i, logs)
  index_rounds keys k nbits zero (suc a) i logs = none
  index_rounds keys k nbits (suc fuel) (suc a) i logs = log2 (suc a) nbits logs >>= λ found.
      get_elem? keys (2 ^ found.0 + i) >>= λ key. elim (compare.cmp k key) [
        | Ordering.lt ↦ index_rounds keys k nbits fuel (2 ^ found.0 - 1) i found.1
        | _ ↦ index_rounds keys k nbits fuel (suc a - 2 ^ found.0) (bit_or i (2 ^ found.0)) found.1
      ]

  -- What a search in a node returns: the index plus 1, so that the -1 of the code is 0, and `*r`,
  -- if it was written.
  abbrev pub Place : Type 0
  Place = ℕ × Option Ordering

  -- The end of `findkindex`, behind the last comparison.
  abbrev pub place : ℕ → Ordering → Place
  place i Ordering.lt = (i, some Ordering.lt)
  place i Ordering.eq = (suc i, some Ordering.eq)
  place i Ordering.gt = (suc i, some Ordering.gt)

  -- `findkindex`
  unfoldable pub findkindex : List K → K → ℕ → Logs → Option (Place × Logs)
  findkindex keys k nbits logs =
      let a = length keys - 1 in
      if length keys == 0
      then some ((0, none), logs)
      else index_rounds keys k nbits a a 0 logs >>= λ found.
          get_elem? keys found.0 >>= λ key. some (place found.0 (compare.cmp k key), found.1)

  -- The loop of the `findkindex` of SAFE_BTREE, below index `n`.
  unfoldable pub index_down : List K → K → ℕ → Option Ordering → Option Place
  index_down keys k zero r = some (0, r)
  index_down keys k (suc n) r = get_elem? keys n >>= λ key. elim (compare.cmp k key) [
    | Ordering.lt ↦ index_down keys k n (some Ordering.lt)
    | c ↦ some (suc n, some c)
  ]

  -- The `findkindex` of SAFE_BTREE
  unfoldable pub findkindex_safe : List K → K → Option Place
  findkindex_safe keys k = index_down keys k (length keys) none

-- `struct btree`, less the root and the comparison
pub record Btree : Type 0 where
  pub keyoff : ℕ
  pub nodeptroff : ℕ
  pub nkeys : ℕ
  pub t : ℕ
  pub nbits : ℕ
  pub textra : ℕ

-- `sizeof *btr->root`, and that of a pointer
abbrev pub node_header : ℕ
node_header = 16

abbrev pub pointer : ℕ
pointer = 8

-- `n` at the start of `bt_create`. A size below 24 makes it negative, by way of an unsigned
-- division whose low 32 bits are kept, which the test on it refuses as it does 0.
unfoldable pub room : ℕ → ℕ
room size = (size - node_header - pointer) / (pointer + pointer)

-- How `bt_create` comes to the calls of `pmemalloc_activate_local` at its end: with the tree and
-- its root, which they activate, or, without an allocation, with `tmp1` and `tmp` that nothing has
-- set.
pub data Created : Type 0 where
  activates : Btree → Created
  activates_unset : Created

-- `bt_create`, where the allocations succeed, up to these calls, and the logarithms. An access
-- outside of their table makes the whole `none`.
unfoldable pub bt_create : ℕ → Logs → Option (Created × Logs)
bt_create size logs =
    let t = (room size + 1) / 2 in
    let n = 2 * t - 1 in
    if leb 1 (room size) && leb 2 t
    then (log2 n 32 logs >>= λ nlog. log2 (nlog.0 + 1) 32 nlog.1 >>= λ blog. some (
      activates record {
        keyoff = node_header;
        nodeptroff = node_header + n * pointer;
        nkeys = n;
        t = t;
        nbits = 2 ^ (blog.0 + 1);
        textra = pointer + n * (pointer + pointer);
      },
      blog.1,
    ))
    else some (activates_unset, logs)
