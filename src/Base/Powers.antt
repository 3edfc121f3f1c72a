-- ===== src/Base/Powers.antt =====
-- Powers of two, logarithms, and the bits of sums of powers.
use Prim.Native.Nat.{
  ℕ, zero, suc, ◌+◌, ◌*◌, ◌/◌, ◌%◌, ◌^◌, ◌≤◌, ◌<◌, max, bit_or, digits, bit_or-bitwise,
}
use mathlib.Core.Path.{◌≡◌, refl, ◌∙◌, sym}
use mathlib.Core.Logic.{inl, inr}
use native.Mathlib.Omega.{arith}
use native.Mathlib.Nat.{
  pow-suc, mul_comm, mul_assoc, pow-le-pow_right, le-div_iff_mul-le, div-lt_iff_lt-mul,
}
use linux_examples.Base.Tests.{ltb, Bool-cases}

pub pow-add : (a b : ℕ) → 2 ^ (a + b) ≡ 2 ^ a * 2 ^ b
pow-add zero b = let z : 0 + b ≡ b = omega arith in rw z (omega arith)
pow-add (suc a) b =
    let s : suc a + b ≡ suc (a + b) = omega arith in
    rw
      (
        s,
        pow-suc 2 (a + b),
        pow-suc 2 a,
        pow-add a b,
        mul_assoc (2 ^ a) 2 (2 ^ b),
        mul_comm 2 (2 ^ b),
      )
      (mul_assoc (2 ^ a) (2 ^ b) 2)

pub pow-positive : (a : ℕ) → 0 < 2 ^ a
pow-positive zero = omega arith
pow-positive (suc a) = rw (pow-suc 2 a) (omega (arith, pow-positive a))

pub pow_double : (a : ℕ) → 2 ^ suc a ≡ 2 * 2 ^ a
pow_double a = omega (arith, pow-suc 2 a)

-- `l` is the logarithm of `a`, rounded down.
abbrev pub IsLog : ℕ → ℕ → Type 0
IsLog l a = (2 ^ l ≤ a) × (a < 2 ^ suc l)

-- The logarithm of a quotient by a power.
pub IsLog-shift : (b l a : ℕ) → IsLog l (a / 2 ^ b) → IsLog (b + l) a
IsLog-shift b l a h =
    let lo : 2 ^ l * 2 ^ b ≤ a = (le-div_iff_mul-le (pow-positive b)).0 h.0 in
    let hi : a < 2 ^ suc l * 2 ^ b = (div-lt_iff_lt-mul (pow-positive b)).0 h.1 in
    let s : suc (b + l) ≡ b + suc l = omega arith in
    (
      rw (pow-add b l, mul_comm (2 ^ b) (2 ^ l)) lo,
      rw (s, pow-add b (suc l), mul_comm (2 ^ b) (2 ^ suc l)) hi,
    )

-- A number has one logarithm.
pub IsLog-unique : (l m a : ℕ) → IsLog l a → IsLog m a → l ≡ m
IsLog-unique l m a h k = elim (Bool-cases (ltb l m)) [
  | inl y ↦
      let le : suc l ≤ m = ground arith in
      absurd (omega (arith, pow-le-pow_right {n = 2} (omega arith) le, h.1, k.0))
  | inr n ↦ elim (Bool-cases (ltb m l)) [
    | inl y ↦
        let le : suc m ≤ l = ground arith in
        absurd (omega (arith, pow-le-pow_right {n = 2} (omega arith) le, k.1, h.0))
    | inr o ↦ ground arith
  ]
]

abbrev or_digits : ℕ → ℕ → ℕ → ℕ
or_digits n a b = digits (λ b. b) max n a b

or_digits_fuel : (n m a b : ℕ) → a ≤ n → a ≤ m → or_digits n a b ≡ or_digits m a b
or_digits_fuel zero zero a b p q = refl
or_digits_fuel zero (suc m) zero b p q = refl
or_digits_fuel zero (suc m) (suc a) b p q = absurd (omega arith)
or_digits_fuel (suc n) zero zero b p q = refl
or_digits_fuel (suc n) zero (suc a) b p q = absurd (omega arith)
or_digits_fuel (suc n) (suc m) zero b p q = refl
or_digits_fuel (suc n) (suc m) (suc a) b p q =
    omega (arith, or_digits_fuel n m (suc a / 2) (b / 2) (omega arith) (omega arith))

zero-bit_or : (b : ℕ) → bit_or 0 b ≡ b
zero-bit_or b = bit_or-bitwise 0 b

bit_or_step : (a b : ℕ) → bit_or a b ≡ bit_or (a / 2) (b / 2) * 2 + max (a % 2) (b % 2)
bit_or_step zero b = omega (arith, zero-bit_or b, zero-bit_or (b / 2))
bit_or_step (suc a) b = omega (
  arith,
  bit_or-bitwise (suc a) b,
  bit_or-bitwise (suc a / 2) (b / 2),
  or_digits_fuel a (suc a / 2) (suc a / 2) (b / 2) (omega arith) (omega arith),
)

bit_or-zero_fuel : (n a : ℕ) → a ≤ n → bit_or a 0 ≡ a
bit_or-zero_fuel n zero h = refl
bit_or-zero_fuel zero (suc a) h = absurd (omega arith)
bit_or-zero_fuel (suc n) (suc a) h =
    omega (arith, bit_or_step (suc a) 0, bit_or-zero_fuel n (suc a / 2) (omega arith))

-- A power is added to a multiple of the next one by setting its bit.
pub bit_or-power : (b x : ℕ) → bit_or (x * 2 ^ suc b) (2 ^ b) ≡ x * 2 ^ suc b + 2 ^ b
bit_or-power zero x =
    omega (arith, bit_or_step (x * 2) 1, bit_or-zero_fuel (x * 2 / 2) (x * 2 / 2) (omega arith))
bit_or-power (suc b) x =
    let double : x * 2 ^ suc (suc b) ≡ x * 2 ^ suc b * 2 =
      rw (pow-suc 2 (suc b)) (sym (mul_assoc x (2 ^ suc b) 2)) in
    let power : 2 ^ suc b ≡ 2 ^ b * 2 = pow-suc 2 b in
    let half : x * 2 ^ suc (suc b) / 2 ≡ x * 2 ^ suc b = omega (arith, double) in
    let half_power : 2 ^ suc b / 2 ≡ 2 ^ b = omega (arith, power) in
    let bits : max (x * 2 ^ suc (suc b) % 2) (2 ^ suc b % 2) ≡ 0 = omega (arith, double, power) in
    bit_or_step (x * 2 ^ suc (suc b)) (2 ^ suc b)
    ∙ rw (bits, half, half_power, bit_or-power b x) (omega (arith, double, power))
