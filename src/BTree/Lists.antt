-- ===== src/BTree/Lists.antt =====
-- The list operations on the arrays of a node of btree-1.0/bt_code.c.
use linux_examples.Base.{
  ℕ, zero, suc, ◌+◌, ◌-◌, ◌*◌, ◌≤◌, ◌<◌, ◌≡◌, ◌∙◌, sym, ap, subst, refl, some, List, [], ◌∷◌, ◌++◌,
  All, arith, length, get_elem?, set,
}
use linux_examples.BTree.Node.{take, drop, insert_at}

module _ {ℓ} {A : Type ℓ} where
  pub take-drop : (n : ℕ) (xs : List A) → take n xs ++ drop n xs ≡ xs
  unfolding take drop
  take-drop n [] = refl
  take-drop zero (x ∷ xs) = refl
  take-drop (suc n) (x ∷ xs) = ap (λ (l : List A). x ∷ l) (take-drop n xs)

  pub drop_next :
      (n : ℕ) (xs : List A) (a : A) → get_elem? xs n ≡ some a → drop n xs ≡ a ∷ drop (suc n) xs
  unfolding drop
  drop_next n [] a h = absurd (ground (arith, h))
  drop_next zero (x ∷ []) a h = ground (arith, h)
  drop_next zero (x ∷ y ∷ xs) a h = ground (arith, h)
  drop_next (suc n) (x ∷ xs) a h = drop_next n xs a h

  pub reached : (xs : List A) (n : ℕ) → n < length xs → (a : A) × (get_elem? xs n ≡ some a)
  reached [] n h = absurd (omega arith)
  reached (x ∷ xs) zero h = (x, refl)
  reached (x ∷ xs) (suc n) h = reached xs n (omega arith)

  pub take_all : (n : ℕ) (xs : List A) → length xs ≤ n → take n xs ≡ xs
  unfolding take
  take_all n [] h = refl
  take_all zero (x ∷ xs) h = absurd (omega arith)
  take_all (suc n) (x ∷ xs) h = ap (λ (l : List A). x ∷ l) (take_all n xs (omega arith))

  pub length-drop : (n : ℕ) (xs : List A) → length (drop n xs) ≡ length xs - n
  unfolding drop
  length-drop n [] = omega arith
  length-drop zero (x ∷ xs) = omega arith
  length-drop (suc n) (x ∷ xs) = omega (arith, length-drop n xs)

  pub length-take : (n : ℕ) (xs : List A) → n ≤ length xs → length (take n xs) ≡ n
  unfolding take
  length-take n [] h = omega arith
  length-take zero (x ∷ xs) h = refl
  length-take (suc n) (x ∷ xs) h = omega (arith, length-take n xs (omega arith))

  -- A list of `2 * s + 1` elements, parted at the one in the middle.
  pub parted :
      (s : ℕ) (xs : List A) (a : A)
      → length xs ≤ 2 * s + 1
      → get_elem? xs s ≡ some a
      → xs ≡ take s xs ++ a ∷ take s (drop (suc s) xs)
  parted s xs a len h =
      sym (take-drop s xs)
      ∙ ap (λ (l : List A). take s xs ++ l)
          (drop_next s xs a h
            ∙ ap (λ (l : List A). a ∷ l)
                (sym (take_all s (drop (suc s) xs) (omega (arith, length-drop (suc s) xs)))))

  pub length-insert_at : (i : ℕ) (a : A) (xs : List A) → length (insert_at i a xs) ≡ suc (length xs)
  unfolding insert_at
  length-insert_at zero a [] = refl
  length-insert_at (suc i) a [] = refl
  length-insert_at zero a (x ∷ xs) = refl
  length-insert_at (suc i) a (x ∷ xs) = ap suc (length-insert_at i a xs)

  pub get_elem?-insert_at :
      (i : ℕ) (a : A) (xs : List A) → i ≤ length xs → get_elem? (insert_at i a xs) i ≡ some a
  unfolding insert_at
  get_elem?-insert_at zero a [] le = refl
  get_elem?-insert_at (suc i) a [] le = absurd (omega arith)
  get_elem?-insert_at zero a (x ∷ xs) le = refl
  get_elem?-insert_at (suc i) a (x ∷ xs) le = get_elem?-insert_at i a xs (omega arith)

  pub get_elem?-set :
      (xs : List A) (i : ℕ) (a : A) → i < length xs → get_elem? (set xs i a) i ≡ some a
  get_elem?-set [] i a lt = absurd (omega arith)
  get_elem?-set (x ∷ xs) zero a lt = refl
  get_elem?-set (x ∷ xs) (suc i) a lt = get_elem?-set xs i a (omega arith)

  pub get_elem?-insert_after :
      (xs : List A) (i : ℕ) (a b : A)
      → get_elem? xs i ≡ some b
      → get_elem? (insert_at (suc i) a xs) i ≡ some b
  unfolding insert_at
  get_elem?-insert_after [] i a b h = absurd (ground (arith, h))
  get_elem?-insert_after (x ∷ []) zero a b h = h
  get_elem?-insert_after (x ∷ y ∷ xs) zero a b h = h
  get_elem?-insert_after (x ∷ xs) (suc i) a b h = get_elem?-insert_after xs i a b h

module _ {A : Type 0} (P : A → Type 0) where
  pub All-get_elem? : (xs : List A) (i : ℕ) (a : A) → All P xs → get_elem? xs i ≡ some a → P a
  All-get_elem? [] i a p h = absurd (ground (arith, h))
  All-get_elem? (x ∷ xs) zero a p h = subst P {x = x} {y = a} (cc) p.0
  All-get_elem? (x ∷ xs) (suc i) a p h = All-get_elem? xs i a p.1 h

  pub All-set : (xs : List A) (i : ℕ) (a : A) → All P xs → P a → All P (set xs i a)
  All-set [] i a p q = tt
  All-set (x ∷ xs) zero a p q = (q, p.1)
  All-set (x ∷ xs) (suc i) a p q = (p.0, All-set xs i a p.1 q)

  pub All-insert_at : (i : ℕ) (a : A) (xs : List A) → P a → All P xs → All P (insert_at i a xs)
  unfolding insert_at
  All-insert_at zero a [] q p = (q, tt)
  All-insert_at (suc i) a [] q p = (q, tt)
  All-insert_at zero a (x ∷ xs) q p = (q, p)
  All-insert_at (suc i) a (x ∷ xs) q p = (p.0, All-insert_at i a xs q p.1)

  pub All-take : (n : ℕ) (xs : List A) → All P xs → All P (take n xs)
  unfolding take
  All-take zero [] p = tt
  All-take (suc n) [] p = tt
  All-take zero (x ∷ xs) p = tt
  All-take (suc n) (x ∷ xs) p = (p.0, All-take n xs p.1)

  pub All-drop : (n : ℕ) (xs : List A) → All P xs → All P (drop n xs)
  unfolding drop
  All-drop zero [] p = tt
  All-drop (suc n) [] p = tt
  All-drop zero (x ∷ xs) p = p
  All-drop (suc n) (x ∷ xs) p = All-drop n xs p.1
