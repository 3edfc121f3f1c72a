-- ===== src/BTree/Place.antt =====
-- The place that `findkindex` of btree-1.0/bt_code.c finds in a node, as a walk along its keys.
use Prim.Native.Nat.{Ordering}
use linux_examples.Base.{
  ℕ, zero, suc, ◌^◌, ◌≤◌, ◌<◌, ◌≡◌, ◌≢◌, ◌∙◌, sym, ap, subst, refl, ◌⊎◌, inl, inr, Option, none,
  some, List, [], ◌∷◌, All, arith, length, get_or, get_elem?, get_elem?-get_or,
}
use linux_examples.BTree.{Compare, Logs, Place, findkindex, index_down, findkindex_safe}
use linux_examples.BTree.Log.{IsTable}
use linux_examples.BTree.FindIndex.{findkindex-findkindex_safe}
use linux_examples.BTree.Order.{Ordering-cases, Le, Sorted, ge_trans, gt_trans}

-- The table of logarithms and the number of bits serve for nodes of up to `n` keys.
abbrev pub Serves : ℕ → ℕ → Logs → Type 0
Serves n j logs = IsTable logs × (n ≤ logs.alloced) × (n ≤ 2 ^ (2 ^ suc j))

module _ {K : Type 0} where
  All-get_or :
      (P : K → Type 0) (xs : List K) (i : ℕ) (d : K) → All P xs → i < length xs → P (get_or xs i d)
  All-get_or P [] i d p lt = absurd (omega arith)
  All-get_or P (x ∷ xs) zero d p lt = p.0
  All-get_or P (x ∷ xs) (suc i) d p lt = All-get_or P xs i d p.1 (omega arith)

module _ {K : Type 0} (compare : Compare K) where
  -- The first `i` keys satisfy `P`, and the next one, if there is one, is above `k`.
  abbrev pub At : K → (K → Type 0) → ℕ → List K → Type 0
  At k P zero [] = Unit
  At k P zero (x ∷ xs) = compare.cmp k x ≡ Ordering.lt
  At k P (suc i) [] = ⊥
  At k P (suc i) (x ∷ xs) = P x × At k P i xs

  At-of :
      (k : K) (P : K → Type 0) (i : ℕ) (xs : List K) (d : K)
      → i ≤ length xs
      → (i < length xs → compare.cmp k (get_or xs i d) ≡ Ordering.lt)
      → ((j : ℕ) → j < i → P (get_or xs j d))
      → At k P i xs
  At-of k P zero [] d le above low = tt
  At-of k P zero (x ∷ xs) d le above low = above (omega arith)
  At-of k P (suc i) [] d le above low = absurd (omega arith)
  At-of k P (suc i) (x ∷ xs) d le above low = (
    low 0 (omega arith),
    At-of k P i xs d (omega arith) (λ lt. above (omega arith)) (λ j lt. low (suc j) (omega arith)),
  )

  Sorted-get_or :
      (xs : List K) (i j : ℕ) (d : K)
      → Sorted compare xs
      → i ≤ j
      → j < length xs
      → Le compare (get_or xs i d) (get_or xs j d)
  Sorted-get_or [] i j d s le lt = absurd (omega arith)
  Sorted-get_or (x ∷ xs) zero zero d s le lt = λ gt. ground (arith, compare.cmp_refl x, gt)
  Sorted-get_or (x ∷ xs) zero (suc j) d s le lt = All-get_or (Le compare x) xs j d s.0 (omega arith)
  Sorted-get_or (x ∷ xs) (suc i) zero d s le lt = absurd (omega arith)
  Sorted-get_or (x ∷ xs) (suc i) (suc j) d s le lt =
      Sorted-get_or xs i j d s.1 (omega arith) (omega arith)

  module _ (keys : List K) (k d : K) where
    -- Where the loop stops: above no key, or above `m` that it names.
    record Stopped (p : Place compare) : Type 0 where
      inside : p.0 ≤ length keys
      above : p.0 < length keys → compare.cmp k (get_or keys p.0 d) ≡ Ordering.lt
      last :
          ((p.0 ≡ 0) × (p.1 ≢ some Ordering.eq))
          ⊎ ((m : ℕ) × (p.0 ≡ suc m)
              × (compare.cmp k (get_or keys m d) ≢ Ordering.lt)
              × (p.1 ≡ some (compare.cmp k (get_or keys m d))))

    index_down-Stopped :
        (n : ℕ) (r : Option Ordering)
        → n ≤ length keys
        → (n < length keys → compare.cmp k (get_or keys n d) ≡ Ordering.lt)
        → r ≢ some Ordering.eq
        → (p : Place compare) × (index_down compare keys k n r ≡ some p) × Stopped p
    unfolding index_down
    index_down-Stopped zero r le above ne =
        ((0, r), refl, record { inside = le; above = above; last = inl (refl, ne) })
    index_down-Stopped (suc n) r le above ne =
        let key = get_elem?-get_or keys n d (omega arith) in
        let stop : (o : Ordering)
            → compare.cmp k (get_or keys n d) ≡ o
            → o ≢ Ordering.lt
            → Stopped (suc n, some o) =
          λ o e ge. record {
            inside = le;
            above = above;
            last = inr (n, refl, (λ lt. ge (sym e ∙ lt)), ap some (sym e));
          } in
        elim (Ordering-cases (compare.cmp k (get_or keys n d))) [
          | inl o ↦
              rw (key, o)
                (index_down-Stopped n (some Ordering.lt) (omega arith) (λ lt. o)
                  (λ e. ground (arith, e)))
          | inr (inl o) ↦
              rw (key, o)
                ((suc n, some Ordering.eq), refl, stop Ordering.eq o (λ e. ground (arith, e)))
          | inr (inr o) ↦
              rw (key, o)
                ((suc n, some Ordering.gt), refl, stop Ordering.gt o (λ e. ground (arith, e)))
        ]

    -- The keys up to where the loop stops are not above `k`, and, if the last comparison was not
    -- equal, below it.
    At-Stopped :
        (p : Place compare)
        → Sorted compare keys
        → Stopped p
        → At k (λ x. compare.cmp k x ≢ Ordering.lt) p.0 keys
    At-Stopped p s w =
        At-of k (λ x. compare.cmp k x ≢ Ordering.lt) p.0 keys d w.inside w.above
          λ j lt. elim w.last [
            | inl first ↦ absurd (omega (arith, first.0))
            | inr (m, e, ge, o) ↦
                ge_trans compare k (get_or keys j d) (get_or keys m d) ge
                  (Sorted-get_or keys j m d s (omega (arith, e)) (omega (arith, e, w.inside)))
          ]

    -- What the answer of a search says: the key that it names is `k`, or all the keys before the
    -- place are below `k`.
    abbrev pub Answer : Place compare → Type 0
    Answer p =
        ((p.1 ≡ some Ordering.eq)
          × ((m : ℕ) × (key : K) × (p.0 ≡ suc m)
              × (get_elem? keys m ≡ some key)
              × (compare.cmp k key ≡ Ordering.eq)))
        ⊎ ((p.1 ≢ some Ordering.eq) × At k (λ x. compare.cmp k x ≡ Ordering.gt) p.0 keys)

    Answer-Stopped : (p : Place compare) → Sorted compare keys → Stopped p → Answer p
    Answer-Stopped p s w = elim w.last [
      | inl (z, ne) ↦ inr (
        ne,
        At-of k (λ x. compare.cmp k x ≡ Ordering.gt) p.0 keys d w.inside w.above
            λ j lt. absurd (omega arith),
      )
      | inr (m, e, ge, o) ↦ elim (Ordering-cases (compare.cmp k (get_or keys m d))) [
        | inl lt ↦ absurd (ge lt)
        | inr (inl eq) ↦ inl (
          o ∙ ap some eq,
          (m, get_or keys m d, e, get_elem?-get_or keys m d (omega (arith, w.inside)), eq),
        )
        | inr (inr gt) ↦ inr (
          (λ h. ground (arith, o, gt, h)),
          At-of k (λ x. compare.cmp k x ≡ Ordering.gt) p.0 keys d w.inside w.above
              λ j lt.
                gt_trans compare k (get_or keys j d) (get_or keys m d) gt
                  (Sorted-get_or keys j m d s (omega (arith, e)) (omega (arith, e, w.inside))),
        )
      ]
    ]

  pub findkindex-At :
      (keys : List K) (k : K) (n j : ℕ) (logs : Logs)
      → Sorted compare keys
      → length keys ≤ n
      → Serves n j logs
      → (p : Place compare) × (logs' : Logs) × (findkindex compare keys k (2 ^ suc j) logs
          ≡ some (p, logs'))
        × At k (λ x. compare.cmp k x ≢ Ordering.lt) p.0 keys
        × Answer keys k k p
        × Serves n j logs'
  unfolding findkindex_safe
  findkindex-At keys k n j logs s le serves =
      let (p, logs', eq, safe, t, same) =
        findkindex-findkindex_safe compare keys k k j logs (λ a b. Sorted-get_or keys a b k s)
          serves.0 (omega (arith, serves.1)) (omega (arith, serves.2)) in
      let (q, found, w) =
        index_down-Stopped keys k k (length keys) none (omega arith) (λ lt. absurd (omega arith))
          (λ e. ground (arith, e)) in
      let e : q ≡ p = ground (arith, sym found ∙ safe) in
      let w' = subst (Stopped keys k k) e w in
      (
        p,
        logs',
        eq,
        At-Stopped keys k k p s w',
        Answer-Stopped keys k k p s w',
        (t, omega (arith, serves.1, same), serves.2),
      )

  -- A node with a key has a last comparison.
  index_down-ne-none :
      (keys : List K) (k : K) (n : ℕ) (r : Option Ordering) (p : Place compare)
      → n ≤ length keys
      → (1 ≤ n) ⊎ (r ≢ none)
      → index_down compare keys k n r ≡ some p
      → p.1 ≢ none
  unfolding index_down
  index_down-ne-none keys k zero r p le (inl more) e = absurd (omega arith)
  index_down-ne-none keys k zero r p le (inr ne) e =
      λ z. ne (ap (λ (q : Place compare). q.1) {x = (0, r)} {y = p} (cc e) ∙ z)
  index_down-ne-none keys k (suc n) r p le more e =
      let key = get_elem?-get_or keys n k (omega arith) in
      elim (Ordering-cases (compare.cmp k (get_or keys n k))) [
        | inl o ↦
            index_down-ne-none keys k n (some Ordering.lt) p (omega arith)
              (inr (λ z. ground (arith, z))) (rw (key, o) at e)
        | inr (inl o) ↦ λ z. ground (arith, (rw (key, o) at e), z)
        | inr (inr o) ↦ λ z. ground (arith, (rw (key, o) at e), z)
      ]

  pub findkindex-ne-none :
      (keys : List K) (k : K) (n j : ℕ) (logs : Logs) (p : Place compare) (logs' : Logs)
      → Sorted compare keys
      → length keys ≤ n
      → Serves n j logs
      → 1 ≤ length keys
      → findkindex compare keys k (2 ^ suc j) logs ≡ some (p, logs')
      → p.1 ≢ none
  unfolding findkindex_safe
  findkindex-ne-none keys k n j logs p logs' s le serves more eq =
      let (q, logs₁, eq', safe, t, rest) =
        findkindex-findkindex_safe compare keys k k j logs (λ a b. Sorted-get_or keys a b k s)
          serves.0 (omega (arith, serves.1)) (omega (arith, serves.2)) in
      let same : q ≡ p =
        ap (λ (r : Place compare × Logs). r.0) {x = (q, logs₁)} {y = (p, logs')}
          (cc (sym eq' ∙ eq)) in
      subst (λ (r : Place compare). r.1 ≢ none) same
        (index_down-ne-none keys k (length keys) none q (omega arith) (inl more) safe)
