-- ===== src/BTree/FindIndex.antt =====
-- `findkindex` of btree-1.0/bt_code.c, by bits and by steps.
use Prim.Native.Nat.{Ordering, bit_or}
use linux_examples.Base.{
  ℕ, zero, suc, ◌+◌, ◌-◌, ◌*◌, ◌^◌, ◌≤◌, ◌<◌, ◌≡◌, ◌≢◌, ◌∙◌, sym, ap, subst, refl, ◌⊎◌, Option,
  none, some, List, arith, ltb, ◌==◌, length, get_or, get_elem?-get_or, Bool-cases, inl, inr,
}
use linux_examples.Base.Powers.{IsLog, pow-add, pow-positive, pow_double, bit_or-power}
use native.Mathlib.Nat.{mul_assoc, add-mul, pow-le-pow_right}
use linux_examples.BTree.{
  Compare, Logs, index_rounds, Place, place, findkindex, index_down, findkindex_safe,
}
use linux_examples.BTree.Log.{IsTable, log2-IsLog}

-- What a comparison says.
Ordering-cases : (o : Ordering) → (o ≡ Ordering.lt) ⊎ ((o ≡ Ordering.eq) ⊎ (o ≡ Ordering.gt))
Ordering-cases Ordering.lt = inl refl
Ordering-cases Ordering.eq = inr (inl refl)
Ordering-cases Ordering.gt = inr (inr refl)

module _ {K : Type 0} (compare : Compare K) (keys : List K) (k d : K) where
  -- The key at `i`; `d` stands for those past the end.
  abbrev key_at : ℕ → K
  key_at i = get_or keys i d

  -- No key is above a later one.
  abbrev pub IsSorted : Type 0
  IsSorted = (i j : ℕ) → i ≤ j → j < length keys → compare.cmp (key_at i) (key_at j) ≢ Ordering.gt

  abbrev pub Above : ℕ → Type 0
  Above i = (j : ℕ) → i ≤ j → j < length keys → compare.cmp k (key_at j) ≡ Ordering.lt

  Above-from : (i : ℕ) → IsSorted → compare.cmp k (key_at i) ≡ Ordering.lt → Above i
  Above-from i sorted lt j le inside =
      compare.cmp_trans k (key_at i) (key_at j) lt (sorted i j le inside)

  -- The place of `k` is among the indices from `i` to `i + a`.
  record IsBetween (a i : ℕ) : Type 0 where
    pub inside : i + a < length keys
    pub high : Above (suc (i + a))
    pub low : (i ≡ 0) ⊎ (compare.cmp k (key_at i) ≢ Ordering.lt)
    pub bits : ℕ
    pub top : ℕ
    pub aligned : i ≡ top * 2 ^ bits
    pub narrow : a < 2 ^ bits

  aligned_at : (a i b : ℕ) (w : IsBetween a i) → b ≤ w.bits → i ≡ w.top * 2 ^ (w.bits - b) * 2 ^ b
  aligned_at a i b w le =
      let sum : w.bits ≡ w.bits - b + b = omega arith in
      w.aligned
      ∙ ap (λ (n : ℕ). w.top * 2 ^ n) sum
      ∙ ap (λ (n : ℕ). w.top * n) (pow-add (w.bits - b) b)
      ∙ sym (mul_assoc w.top (2 ^ (w.bits - b)) (2 ^ b))

  bits-gt : (a i b : ℕ) (w : IsBetween a i) → 2 ^ b ≤ a → b < w.bits
  bits-gt a i b w le = elim (Bool-cases (ltb b w.bits)) [
    | inl y ↦ ground arith
    | inr n ↦
        let ge : w.bits ≤ b = ground arith in
        absurd (omega (arith, pow-le-pow_right {n = 2} (omega arith) ge, w.narrow, le))
  ]

  -- A round that goes to the left, and one that goes to the right.
  IsBetween-left :
      (a i b : ℕ)
      → IsSorted
      → IsBetween a i
      → IsLog b a
      → compare.cmp k (key_at (2 ^ b + i)) ≡ Ordering.lt
      → IsBetween (2 ^ b - 1) i
  IsBetween-left a i b sorted w log lt =
      let next : 2 ^ b + i ≡ suc (i + (2 ^ b - 1)) = omega (arith, pow-positive b) in
      record {
        inside = omega (arith, w.inside, log.0, pow-positive b);
        high = subst Above next (Above-from (2 ^ b + i) sorted lt);
        low = w.low;
        bits = b;
        top = w.top * 2 ^ (w.bits - b);
        aligned = aligned_at a i b w (omega (arith, bits-gt a i b w log.0));
        narrow = omega (arith, pow-positive b);
      }

  IsBetween-right :
      (a i b : ℕ)
      → IsBetween a i
      → IsLog b a
      → compare.cmp k (key_at (2 ^ b + i)) ≢ Ordering.lt
      → IsBetween (a - 2 ^ b) (2 ^ b + i)
  IsBetween-right a i b w log ge =
      let x = w.top * 2 ^ (w.bits - b) in
      let same : suc (i + a) ≡ suc (2 ^ b + i + (a - 2 ^ b)) = omega (arith, log.0) in
      record {
        inside = omega (arith, w.inside, log.0);
        high = subst Above same w.high;
        low = inr ge;
        bits = b;
        top = 1 + x;
        aligned =
            omega (
              arith,
              aligned_at a i b w (omega (arith, bits-gt a i b w log.0)),
              add-mul 1 x (2 ^ b),
            );
        narrow = omega (arith, log.0, log.1, pow_double b);
      }

  -- Setting the bit adds it.
  bit_or_round : (a i b : ℕ) → IsBetween a i → IsLog b a → bit_or i (2 ^ b) ≡ 2 ^ b + i
  bit_or_round a i b w log =
      let x = w.top * 2 ^ (w.bits - suc b) in
      let e : i ≡ x * 2 ^ suc b = aligned_at a i (suc b) w (omega (arith, bits-gt a i b w log.0)) in
      ap (λ (n : ℕ). bit_or n (2 ^ b)) e ∙ bit_or-power b x ∙ omega (arith, e)

  -- What the rounds leave: the index of the last key that is not above `k`, or 0.
  abbrev pub IsPlace : ℕ → Type 0
  IsPlace i =
      (i < length keys) × Above (suc i) × ((i ≡ 0) ⊎ (compare.cmp k (key_at i) ≢ Ordering.lt))

  abbrev Placed : Option (ℕ × Logs) → ℕ → Type 0
  Placed r n =
      (i : ℕ) × (logs : Logs) × (r ≡ some (i, logs)) × IsPlace i × IsTable logs × (logs.alloced ≡ n)

  index_rounds-IsPlace :
      (j fuel a i : ℕ) (logs : Logs)
      → IsSorted
      → IsTable logs
      → length keys ≤ logs.alloced
      → length keys ≤ 2 ^ (2 ^ suc j)
      → a ≤ fuel
      → IsBetween a i
      → Placed (index_rounds compare keys k (2 ^ suc j) fuel a i logs) logs.alloced
  unfolding index_rounds
  index_rounds-IsPlace j fuel zero i logs sorted t known few room w =
      let same : i + 0 ≡ i = omega arith in
      (
        i,
        logs,
        refl,
        (omega (arith, w.inside), subst (λ (n : ℕ). Above (suc n)) same w.high, w.low),
        t,
        refl,
      )
  index_rounds-IsPlace j zero (suc a) i logs sorted t known few room w = absurd (omega arith)
  index_rounds-IsPlace j (suc fuel) (suc a) i logs sorted t known few room w =
      let inside = w.inside in
      let (b, logs₁, eq, log, t₁, small, grows, keeps) =
        log2-IsLog j (suc a) logs t (omega arith) (omega arith) (λ e. omega (arith, e)) in
      let same : logs₁.alloced ≡ logs.alloced = keeps (omega arith) in
      let key = get_elem?-get_or keys (2 ^ b + i) d (omega (arith, log.0)) in
      let right : compare.cmp k (key_at (2 ^ b + i)) ≢ Ordering.lt
          → Placed
              (index_rounds compare keys k (2 ^ suc j) fuel (suc a - 2 ^ b) (bit_or i (2 ^ b))
                logs₁)
              logs.alloced =
        λ ge. rw (bit_or_round (suc a) i b w log) (
          subst
            (Placed
              (index_rounds compare keys k (2 ^ suc j) fuel (suc a - 2 ^ b) (2 ^ b + i) logs₁))
            same
            (index_rounds-IsPlace j fuel (suc a - 2 ^ b) (2 ^ b + i) logs₁ sorted t₁ (omega arith)
              few (omega (arith, log.0, pow-positive b)) (IsBetween-right (suc a) i b w log ge))) in
      elim (Ordering-cases (compare.cmp k (key_at (2 ^ b + i)))) [
        | inl lt ↦
            rw (eq, key, lt)
              (subst (Placed (index_rounds compare keys k (2 ^ suc j) fuel (2 ^ b - 1) i logs₁))
                same
                (index_rounds-IsPlace j fuel (2 ^ b - 1) i logs₁ sorted t₁ (omega arith) few
                  (omega (arith, log.0)) (IsBetween-left (suc a) i b sorted w log lt)))
        | inr (inl o) ↦ rw (eq, key, o) (right λ e. ground (arith, sym o ∙ e))
        | inr (inr o) ↦ rw (eq, key, o) (right λ e. ground (arith, sym o ∙ e))
      ]

  index_down_first :
      (n : ℕ) (r : Option Ordering) → n ≡ 0 → index_down compare keys k n r ≡ some (n, r)
  unfolding index_down
  index_down_first zero r z = refl
  index_down_first (suc n) r z = absurd (omega arith)

  -- Going down from above passes over the keys that are above `k`.
  index_down-place :
      (i n : ℕ) (r : Option Ordering)
      → IsPlace i
      → i < n
      → n ≤ length keys
      → index_down compare keys k n r ≡ some (place compare i (compare.cmp k (key_at i)))
  unfolding index_down
  index_down-place i zero r p lt le = absurd (omega arith)
  index_down-place i (suc n) r p lt le =
      let key = get_elem?-get_or keys n d (omega arith) in
      elim (Bool-cases (n == i)) [
        | inl here ↦
            let same : n ≡ i = ground arith in
            rw (sym same) (elim (Ordering-cases (compare.cmp k (key_at n))) [
              | inl o ↦
                  let first : n ≡ 0 = elim p.2 [
                    | inl z ↦ same ∙ z
                    | inr ge ↦ absurd (ge (ap (λ (m : ℕ). compare.cmp k (key_at m)) (sym same) ∙ o))
                  ] in
                  rw (key, o) (index_down_first n (some Ordering.lt) first)
              | inr (inl o) ↦ rw (key, o) refl
              | inr (inr o) ↦ rw (key, o) refl
            ])
        | inr above ↦
            let far : compare.cmp k (key_at n) ≡ Ordering.lt = p.1 n (ground arith) (omega arith) in
            rw (key, far) (index_down-place i n (some Ordering.lt) p (ground arith) (omega arith))
      ]

  -- `findkindex` in a node whose keys are sorted, with a table of logarithms that covers its size
  -- and a number of bits that is a power of two above 1 and enough for its indices. It stays within
  -- the node and the table, and returns what the loop of SAFE_BTREE returns, the last comparison
  -- included.
  pub findkindex-findkindex_safe :
      (j : ℕ) (logs : Logs)
      → IsSorted
      → IsTable logs
      → length keys ≤ logs.alloced
      → length keys ≤ 2 ^ (2 ^ suc j)
      → (r : Place compare) × (logs' : Logs) × (findkindex compare keys k (2 ^ suc j) logs
          ≡ some (r, logs'))
        × (findkindex_safe compare keys k ≡ some r)
        × IsTable logs'
        × (logs'.alloced ≡ logs.alloced)
  unfolding findkindex findkindex_safe index_down
  findkindex-findkindex_safe j logs sorted t known few = elim (Bool-cases (length keys == 0)) [
    | inl empty ↦
        let z : length keys ≡ 0 = ground arith in
        rw (empty, z) ((0, none), logs, refl, refl, t, refl)
    | inr some_keys ↦
        let n = length keys - 1 in
        let (i, logs', eq, p, t', same) =
          index_rounds-IsPlace j n n 0 logs sorted t known few (omega arith) record {
            inside = ground arith;
            high = λ i le lt. absurd (ground arith);
            low = inl refl;
            bits = 2 ^ suc j;
            top = 0;
            aligned = omega arith;
            narrow = ground arith;
          } in
        let key = get_elem?-get_or keys i d p.0 in
        rw (some_keys, eq, key)
          (
            place compare i (compare.cmp k (key_at i)),
            logs',
            refl,
            index_down-place i (length keys) none p p.0 (omega arith),
            t',
            same,
          )
  ]
