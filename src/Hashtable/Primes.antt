-- ===== src/Hashtable/Primes.antt =====
-- The sizes of c-hashtable/hashtable.c increase.
use linux_examples.Base.{
  ℕ, zero, suc, ◌+◌, ◌-◌, ◌<◌, ◌≡◌, ◌≢◌, refl, Bool, true, ◌&&◌, some, List, [], ◌∷◌, arith, ltb,
  get_elem?, get_or, get_elem?-lt, get_elem?-get_or, subst,
}
use linux_examples.Hashtable.{primes, prime_table_length}

-- Each number of the list is larger than the one before, the first larger than `lo`.
unfoldable increasing : ℕ → List ℕ → Bool
increasing lo [] = true
increasing lo (p ∷ ps) = ltb lo p && increasing p ps

increasing-next :
    (lo i p n : ℕ) (ps : List ℕ)
    → increasing lo ps ≡ true
    → get_elem? ps i ≡ some p
    → get_elem? ps (i + 1) ≡ some n
    → p < n
unfolding increasing
increasing-next lo i p n [] inc a b = ground arith
increasing-next lo zero p n (q ∷ []) inc a b = ground arith
increasing-next lo zero p n (q ∷ r ∷ ps) inc a b = ground arith
increasing-next lo (suc i) p n (q ∷ ps) inc a b = increasing-next q i p n ps (ground arith) a (
    let s : suc i + 1 ≡ suc (i + 1) = omega arith in
    subst (λ (k : ℕ). get_elem? (q ∷ ps) k ≡ some n) s b)

primes_increase : increasing 0 primes ≡ true
unfolding increasing
primes_increase = refl

-- Below the last index there is a next and larger size.
pub primes-next :
    (i p : ℕ)
    → get_elem? primes i ≡ some p
    → i ≢ prime_table_length - 1
    → (n : ℕ) × (get_elem? primes (i + 1) ≡ some n) × (p < n)
primes-next i p h ne =
    let lt : i < 26 = get_elem?-lt primes i p h in
    let next = get_elem?-get_or primes (i + 1) 0 (omega arith) in
    (
      get_or primes (i + 1) 0,
      next,
      increasing-next 0 i p (get_or primes (i + 1) 0) primes primes_increase h next,
    )
