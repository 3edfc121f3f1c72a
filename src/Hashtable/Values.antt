-- ===== src/Hashtable/Values.antt =====
-- A chain seen as what its searches find: the values of the entries that match a key.
use linux_examples.Base.{
  ℕ, zero, suc, ◌+◌, ◌<◌, ◌≡◌, ◌∙◌, ap, subst, refl, Bool, false, ◌&&◌, Option, none, some, List,
  [], ◌∷◌, arith, ◌==◌, if◌then◌else◌, length, All, get_or, set, replicate, length-set,
  get_elem?-get_or, get_or-set, Bool-cases, inl, inr,
}
use linux_examples.Hashtable.{KeyFns, Entry, Chain, hash, index_for, push, search_chain}

-- Puts a list in front of another, last element first.
unfoldable pub rev_onto {ℓ} : {A : Type ℓ} → List A → List A → List A
rev_onto [] ys = ys
rev_onto (x ∷ xs) ys = rev_onto xs (x ∷ ys)

unfoldable pub head? {ℓ} : {A : Type ℓ} → List A → Option A
head? [] = none
head? (x ∷ xs) = some x

-- A list with another first element.
unfoldable pub replace_head {ℓ} : {A : Type ℓ} → A → List A → List A
replace_head v [] = []
replace_head v (w ∷ vs) = v ∷ vs

unfoldable pub count : {A : Type 0} → List (List A) → ℕ
count [] = 0
count (c ∷ cs) = length c + count cs

pub count-set :
    {A : Type 0} (t : List (List A)) (i : ℕ) (c : List A)
    → i < length t
    → count (set t i c) + length (get_or t i []) ≡ count t + length c
unfolding count
count-set [] i c h = absurd (omega arith)
count-set (x ∷ xs) zero c h = omega arith
count-set (x ∷ xs) (suc i) c h = omega (arith, count-set xs i c (omega arith))

pub count-replicate : (A : Type 0) (n : ℕ) → count (replicate {A = List A} n []) ≡ 0
unfolding count
count-replicate A zero = refl
count-replicate A (suc n) = omega (arith, count-replicate A n)

module _ {K V : Type 0} (keys : KeyFns K) where
  -- The test of a search for `q` at an entry.
  abbrev pub matches : K → Entry K V → Bool
  matches q e = (hash (keys.hashfn q) == e.h) && keys.eqfn q e.k

  unfoldable pub values : K → Chain K V → List V
  values q [] = []
  values q (e ∷ c) = if matches q e then e.v ∷ values q c else values q c

  -- The chain of a key.
  abbrev pub home : ℕ → K → List (Chain K V) → Chain K V
  home n q t = get_or t (index_for n (hash (keys.hashfn q))) []

  pub search_chain-values :
      (q : K) (c : Chain K V) → search_chain keys q (hash (keys.hashfn q)) c ≡ head? (values q c)
  unfolding search_chain values head?
  search_chain-values q [] = refl
  search_chain-values q (e ∷ c) = elim (Bool-cases (matches q e)) [
    | inl hit ↦ rw hit refl
    | inr n ↦ rw n (search_chain-values q c)
  ]

  -- The entry stands in the chain `i` of a table of `n` chains, and keeps the hash of its key.
  abbrev pub AtHome : ℕ → ℕ → Entry K V → Type 0
  AtHome n i e = (e.h ≡ hash (keys.hashfn e.k)) × (index_for n e.h ≡ i)

  abbrev pub IsHome : ℕ → List (Chain K V) → Type 0
  IsHome n t = (i : ℕ) → All (AtHome n i) (get_or t i [])

  -- In no chain but its own does a key match.
  pub values_elsewhere :
      (n i : ℕ) (q : K) (c : Chain K V)
      → All (AtHome n i) c
      → (index_for n (hash (keys.hashfn q)) == i) ≡ false
      → values q c ≡ []
  unfolding values
  values_elsewhere n i q [] a d = refl
  values_elsewhere n i q (e ∷ c) a d = elim (Bool-cases (hash (keys.hashfn q) == e.h)) [
    | inl hit ↦
        let same : hash (keys.hashfn q) ≡ e.h = ground arith in
        let i' : index_for n (hash (keys.hashfn q)) ≡ i = (rw same refl) ∙ a.0.1 in
        absurd (ground arith)
    | inr miss ↦ rw miss (values_elsewhere n i q c a.1 d)
  ]

  -- An entry at the front of its chain comes before the values that its key had.
  pub push-values :
      (n : ℕ) (e : Entry K V) (t : List (Chain K V))
      → length t ≡ n
      → index_for n e.h < n
      → IsHome n t
      → e.h ≡ hash (keys.hashfn e.k)
      → (t' : List (Chain K V)) × (push (index_for n e.h) e t ≡ some t')
        × (length t' ≡ n)
        × IsHome n t'
        × (count t' ≡ suc (count t))
        × ((q : K)
            → values q (home n q t')
              ≡ (if matches q e then e.v ∷ values q (home n q t) else values q (home n q t)))
  unfolding push values
  push-values n e t len lt at own =
      let i = index_for n e.h in
      let inside : i < length t = omega arith in
      let c = get_or t i [] in
      let t' = set t i (e ∷ c) in
      (
        t',
        (rw (get_elem?-get_or t i [] inside) refl),
        length-set t i (e ∷ c) ∙ len,
        (λ j. rw (get_or-set t i j (e ∷ c) [] inside) (elim (Bool-cases (i == j)) [
          | inl hit ↦
              let same : i ≡ j = ground arith in
              rw hit ((own, same), subst (λ (k : ℕ). All (AtHome n k) c) same (at i))
          | inr miss ↦ rw miss (at j)
        ])),
        omega (arith, count-set t i (e ∷ c) inside),
        λ q.
            let j = index_for n (hash (keys.hashfn q)) in
            rw (get_or-set t i j (e ∷ c) [] inside) (elim (Bool-cases (i == j)) [
              | inl hit ↦ let same : i ≡ j = ground arith in rw (hit, ← same) refl
              | inr miss ↦
                  (rw miss (elim (Bool-cases (hash (keys.hashfn q) == e.h)) [
                    | inl hit ↦
                        let same : hash (keys.hashfn q) ≡ e.h = ground arith in
                        let i' : j ≡ i = ap (index_for n) same in absurd (ground arith)
                    | inr z ↦ rw z refl
                  ]))
            ]),
      )
