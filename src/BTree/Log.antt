-- ===== src/BTree/Log.antt =====
-- `real_log2` and `log2` of btree-1.0/bt_code.c.
use linux_examples.Base.{
  ℕ, zero, suc, ◌+◌, ◌-◌, ◌*◌, ◌/◌, ◌%◌, ◌^◌, ◌≤◌, ◌<◌, ◌≡◌, ◌≢◌, ◌∙◌, ap, subst, refl, Option,
  none, some, List, [], ◌∷◌, ◌++◌, arith, leb, ltb, ◌==◌, length, get_or, get_elem?-get_or,
  get_or-set, get_or-replicate, length-append, length-replicate, length-set, set, replicate, true,
  false, Bool-cases, Option-cases, inl, inr,
}
use linux_examples.Base.Powers.{IsLog, IsLog-shift, pow-add, pow-positive, pow_double}
use native.Mathlib.Nat.{
  mul_comm, mul_assoc, add-mul, le-div_iff_mul-le, div-lt_iff_lt-mul, mod-eq_of_lt,
}
use linux_examples.BTree.{log_rounds, real_log2, Logs, enlarge, log2}

log_rounds-zero : (fuel a i : ℕ) → log_rounds fuel 0 a i ≡ i
unfolding log_rounds
log_rounds-zero zero a i = refl
log_rounds-zero (suc fuel) a i = refl

odd : (i b b' l : ℕ) → b' ≡ 2 * b → (2 * i + 1) * b + l ≡ i * b' + (b + l)
odd i b b' l e =
    rw e (omega (arith, add-mul (2 * i) 1 b, ap (λ (n : ℕ). n * b) (mul_comm 2 i), mul_assoc i 2 b))

even : (i b b' l : ℕ) → b' ≡ 2 * b → 2 * i * b + l ≡ i * b' + l
even i b b' l e =
    rw e (ap (λ (n : ℕ). n * b + l) (mul_comm 2 i) ∙ ap (λ (n : ℕ). n + l) (mul_assoc i 2 b))

-- A round, in the top half of the bits and in the bottom half.
log_rounds_top :
    (fuel b b' a i : ℕ)
    → b / 2 ≡ b'
    → (b == 0) ≡ false
    → leb (2 ^ b) a ≡ true
    → log_rounds (suc fuel) b a i ≡ log_rounds fuel b' (a / 2 ^ b) (2 * i + 1)
unfolding log_rounds
log_rounds_top fuel b b' a i half some_b y = rw (some_b, y, half) refl

log_rounds_bottom :
    (fuel b b' a i : ℕ)
    → b / 2 ≡ b'
    → (b == 0) ≡ false
    → leb (2 ^ b) a ≡ false
    → log_rounds (suc fuel) b a i ≡ log_rounds fuel b' (a % 2 ^ b) (2 * i)
unfolding log_rounds
log_rounds_bottom fuel b b' a i half some_b n = rw (some_b, n, half) refl

-- The rounds from a power of two on put the logarithm behind the bits that are there.
log_rounds-IsLog :
    (fuel j a i : ℕ)
    → 2 ^ j ≤ fuel
    → 1 ≤ a
    → a < 2 ^ (2 ^ suc j)
    → (l : ℕ) × (log_rounds fuel (2 ^ j) a i ≡ i * 2 ^ suc j + l) × IsLog l a
unfolding log_rounds
log_rounds-IsLog zero j a i room pos lt = absurd (omega (arith, pow-positive j))
log_rounds-IsLog (suc fuel) zero a i room pos lt = elim (Bool-cases (leb 2 a)) [
  | inl y ↦ (
    1,
    (rw (y, log_rounds-zero fuel (a / 2) (2 * i + 1)) (omega arith)),
    (ground arith, omega arith),
  )
  | inr n ↦
      (0, (rw (n, log_rounds-zero fuel (a % 2) (2 * i)) (omega arith)), (omega arith, ground arith))
]
log_rounds-IsLog (suc fuel) (suc j) a i room pos lt =
    let b = 2 ^ suc j in
    let half : b / 2 ≡ 2 ^ j = omega (arith, pow_double j) in
    let some_b : (b == 0) ≡ false = ground (arith, pow-positive (suc j)) in
    let twice : 2 ^ suc (suc j) ≡ b + b = omega (arith, pow_double (suc j)) in
    let small : a < 2 ^ b * 2 ^ b =
      subst (λ (n : ℕ). a < n) (ap (λ (n : ℕ). 2 ^ n) twice ∙ pow-add b b) lt in
    let room' : 2 ^ j ≤ fuel = omega (arith, pow_double j, pow-positive j) in
    elim (Bool-cases (leb (2 ^ b) a)) [
      | inl y ↦
          let one : 1 * 2 ^ b ≤ a = ground arith in
          let (l, eq, log) =
            log_rounds-IsLog fuel j (a / 2 ^ b) (2 * i + 1) room'
              ((le-div_iff_mul-le (pow-positive b)).1 one)
              ((div-lt_iff_lt-mul (pow-positive b)).1 small) in
          (
            b + l,
            log_rounds_top fuel b (2 ^ j) a i half some_b y
                ∙ eq
                ∙ odd i b (2 ^ suc (suc j)) l (pow_double (suc j)),
            IsLog-shift b l a log,
          )
      | inr n ↦
          let less : a < 2 ^ b = ground arith in
          let same : a % 2 ^ b ≡ a = mod-eq_of_lt less in
          let (l, eq, log) = log_rounds-IsLog fuel j a (2 * i) room' pos less in
          (
            l,
            log_rounds_bottom fuel b (2 ^ j) a i half some_b n
                ∙ ap (λ (r : ℕ). log_rounds fuel (2 ^ j) r (2 * i)) same
                ∙ eq
                ∙ even i b (2 ^ suc (suc j)) l (pow_double (suc j)),
            log,
          )
    ]

-- `real_log2`, for a number of bits that is a power of two above 1.
pub real_log2-IsLog : (j a : ℕ) → 1 ≤ a → a < 2 ^ (2 ^ suc j) → IsLog (real_log2 a (2 ^ suc j)) a
unfolding real_log2
real_log2-IsLog j a pos lt =
    let half : (2 ^ suc j + 1) / 2 ≡ 2 ^ j = omega (arith, pow_double j) in
    let (l, eq, log) = log_rounds-IsLog (2 ^ j) j a 0 (omega arith) pos lt in
    let none_yet : 0 * 2 ^ suc j + l ≡ l = omega arith in rw (half, eq, none_yet) log

-- The entries that `log2` has filled in are logarithms.
abbrev pub IsFilled : Option ℕ → ℕ → Type 0
IsFilled none a = Unit
IsFilled (some l) a = IsLog l a

pub record IsTable (logs : Logs) : Type 0 where
  pub len : length logs.table ≡ logs.alloced
  pub filled : (a : ℕ) → 1 ≤ a → IsFilled (get_or logs.table a none) a

-- Entries of -1 at the end are like no entries.
get_or-pad :
    (xs : List (Option ℕ)) (n i : ℕ) → get_or (xs ++ replicate n none) i none ≡ get_or xs i none
get_or-pad [] n i = get_or-replicate n i none
get_or-pad (x ∷ xs) n zero = refl
get_or-pad (x ∷ xs) n (suc i) = get_or-pad xs n i

enlarge-IsTable :
    (a : ℕ) (logs : Logs)
    → IsTable logs
    → a ≢ logs.alloced
    → IsTable (enlarge a logs)
      × (a < (enlarge a logs).alloced)
      × (logs.alloced ≤ (enlarge a logs).alloced)
      × (a < logs.alloced → (enlarge a logs).alloced ≡ logs.alloced)
unfolding enlarge
enlarge-IsTable a logs t ne = elim (Bool-cases (ltb logs.alloced a)) [
  | inl above ↦
      let more : logs.alloced < a = ground arith in
      let n = a + 1 - logs.alloced in
      rw above (
        record {
          len =
              length-append logs.table (replicate n none)
              ∙ omega (arith, length-replicate {A = Option ℕ} n none, t.len);
          filled = λ i pos. rw (get_or-pad logs.table n i) (t.filled i pos);
        },
        omega arith,
        omega arith,
        λ below. absurd (omega arith),
      )
  | inr not ↦ rw not (t, ground arith, omega arith, λ below. refl)
]

set-IsTable :
    (a l : ℕ) (logs : Logs)
    → IsTable logs
    → a < logs.alloced
    → IsLog l a
    → IsTable (record logs { table = set logs.table a (some l) })
set-IsTable a l logs t lt log = record {
  len = length-set logs.table a (some l) ∙ t.len;
  filled = λ i pos.
      let len = t.len in
      rw (get_or-set logs.table a i (some l) none (omega arith)) (elim (Bool-cases (a == i)) [
        | inl hit ↦ (let same : a ≡ i = ground arith in rw hit (subst (IsLog l) same log))
        | inr miss ↦ rw miss (t.filled i pos)
      ]);
}

-- `log2` of a number that is not the size of the table: it stays within the table, and gives the
-- logarithm; the table gets no smaller, and keeps its size where the number is below it.
pub log2-IsLog :
    (j a : ℕ) (logs : Logs)
    → IsTable logs
    → 1 ≤ a
    → a < 2 ^ (2 ^ suc j)
    → a ≢ logs.alloced
    → (l : ℕ) × (logs' : Logs) × (log2 a (2 ^ suc j) logs ≡ some (l, logs'))
      × IsLog l a
      × IsTable logs'
      × (a < logs'.alloced)
      × (logs.alloced ≤ logs'.alloced)
      × (a < logs.alloced → logs'.alloced ≡ logs.alloced)
unfolding log2
log2-IsLog j a logs t pos lt ne =
    let logs₁ = enlarge a logs in
    let (t₁, inside, grows, keeps) = enlarge-IsTable a logs t ne in
    let len = t₁.len in
    let found = get_elem?-get_or logs₁.table a none (omega arith) in
    elim (Option-cases (get_or logs₁.table a none)) [
      | inl empty ↦
          let log = real_log2-IsLog j a pos lt in
          rw (found, empty)
            (
              real_log2 a (2 ^ suc j),
              record logs₁ { table = set logs₁.table a (some (real_log2 a (2 ^ suc j))) },
              refl,
              log,
              set-IsTable a (real_log2 a (2 ^ suc j)) logs₁ t₁ inside log,
              inside,
              grows,
              keeps,
            )
      | inr (l, full) ↦
          let log : IsLog l a = subst (λ (o : Option ℕ). IsFilled o a) full (t₁.filled a pos) in
          rw (found, full) (l, logs₁, refl, log, t₁, inside, grows, keeps)
    ]
