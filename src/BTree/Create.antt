-- ===== src/BTree/Create.antt =====
-- `bt_create` of btree-1.0/bt_code.c: the sizes of a tree.
use linux_examples.Base.{
  ℕ, zero, suc, ◌+◌, ◌-◌, ◌*◌, ◌/◌, ◌^◌, ◌≤◌, ◌<◌, ◌≡◌, ◌≢◌, sym, ap, subst, refl, ◌⊎◌, inl, inr,
  ◌&&◌, some, arith, leb, Bool-cases,
}
use linux_examples.Base.Powers.{IsLog, pow_double}
use linux_examples.BTree.{
  Logs, Btree, activates, activates_unset, room, bt_create, node_header, pointer,
}
use linux_examples.BTree.Log.{IsTable, log2-IsLog}
use native.Mathlib.Nat.{pow-le-pow_right}

-- What the searches in the nodes rely on, and the layout of a node within its size.
pub record IsSized (size : ℕ) (logs : Logs) (btr : Btree) : Type 0 where
  pub degree : 2 ≤ btr.t
  pub full : btr.nkeys + 1 ≡ 2 * btr.t
  pub fits : node_header + btr.textra ≤ size
  pub layout : (btr.keyoff ≡ node_header) × (btr.nodeptroff ≡ btr.keyoff + btr.nkeys * pointer)
  pub nodes_end : btr.nodeptroff + (btr.nkeys + 1) * pointer ≡ node_header + btr.textra
  pub power : ℕ
  pub bits : btr.nbits ≡ 2 ^ suc power
  pub enough : btr.nkeys < 2 ^ btr.nbits
  pub known : btr.nkeys < logs.alloced

-- The number of bits is more than the logarithm.
bits-enough : (n l p : ℕ) → IsLog l n → IsLog p (l + 1) → n < 2 ^ 2 ^ suc p
bits-enough n l p h k =
    let le : suc l ≤ 2 ^ suc p = omega (arith, k.1) in
    omega (arith, h.1, pow-le-pow_right {n = 2} (omega arith) le)

-- The logarithm is smaller than the number.
log-lt : (l n : ℕ) → IsLog l n → l < n
log-lt l n h = omega (arith, h.0, lt-pow l)
  where
    lt-pow : (k : ℕ) → k < 2 ^ k
    lt-pow zero = omega arith
    lt-pow (suc k) = omega (arith, lt-pow k, pow_double k)

room-le : (s : ℕ) → 1 ≤ room s → 16 * room s + 24 ≤ s
unfolding room
room-le s h = omega arith

-- `bt_create`, with a table of logarithms whose size is not the number of keys: it stays within the
-- table. For a size with room for fewer than three keys it makes no tree, and hands pointers that
-- nothing has set to pmemalloc_activate_local. Else the tree that it activates has nodes of 2t - 1
-- keys with t at least 2, which fit into the size, and the table and the number of bits are such
-- that `findkindex` may search in them.
pub bt_create-IsSized :
    (size : ℕ) (logs : Logs)
    → size < 2 ^ 31
    → IsTable logs
    → 2 * ((room size + 1) / 2) - 1 ≢ logs.alloced
    → ((room size < 3) × (bt_create size logs ≡ some (activates_unset, logs)))
      ⊎ ((btr : Btree) × (logs' : Logs) × (bt_create size logs ≡ some (activates btr, logs'))
          × IsSized size logs' btr
          × IsTable logs')
unfolding bt_create
bt_create-IsSized size logs small table ne =
    let t = (room size + 1) / 2 in
    let n = 2 * t - 1 in
    elim (Bool-cases (leb 1 (room size) && leb 2 t)) [
      | inr none_fits ↦ inl (ground arith, (rw none_fits refl))
      | inl some_fit ↦
          let wide : 2 ≤ t = ground arith in
          let bound : n ≤ room size = omega arith in
          let inside : 16 * room size + 24 ≤ size = room-le size (omega arith) in
          let (l, logs₁, eq₁, log₁, table₁, in₁, ge₁, keep₁) =
            log2-IsLog 4 n logs table (omega arith) (omega arith) ne in
          let less : l < n = log-lt l n log₁ in
          let (p, logs₂, eq₂, log₂, table₂, in₂, ge₂, keep₂) =
            log2-IsLog 4 (l + 1) logs₁ table₁ (omega arith) (omega arith) (λ e. omega (arith, e)) in
          let next : p + 1 ≡ suc p = omega arith in
          rw (some_fit, eq₁, eq₂)
            (inr (
              record {
                keyoff = node_header;
                nodeptroff = node_header + n * pointer;
                nkeys = n;
                t = t;
                nbits = 2 ^ (p + 1);
                textra = pointer + n * (pointer + pointer);
              },
              logs₂,
              refl,
              record {
                degree = wide;
                full = omega arith;
                fits = omega arith;
                layout = (refl, refl);
                nodes_end = omega arith;
                power = p;
                bits = ap (λ (k : ℕ). 2 ^ k) next;
                enough = subst (λ (k : ℕ). n < 2 ^ 2 ^ k) (sym next) (bits-enough n l p log₁ log₂);
                known = omega (arith, keep₂);
              },
              table₂,
            ))
    ]
