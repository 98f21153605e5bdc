-- ===== src/Prelude/Bits.antt =====
-- `cap & (cap - 1)` is zero exactly for the powers of two.
use Prim.Native.Nat.{
  ℕ, zero, suc, ◌+◌, ◌-◌, ◌*◌, ◌/◌, ◌%◌, ◌^◌, ◌≤◌, min, digits, bit_and, bit_and-bitwise,
}
use mathlib.Core.Path.{◌≡◌, refl}
use mathlib.Core.Logic.{◌↔◌, ◌⊎◌, inl, inr}
use native.Mathlib.Nat.{pow-suc}
use native.Mathlib.Omega.{arith}

-- The recursion on digits that `bit_and` stands for, with more steps than it needs.
abbrev and_steps : ℕ → ℕ → ℕ → ℕ
and_steps fuel a b = digits (λ _. zero) min fuel a b

and_steps-enough : (i j a b : ℕ) → a ≤ i → a ≤ j → and_steps i a b ≡ and_steps j a b
and_steps-enough i j zero b p q = by_fuel i j
  where
    by_fuel : (i j : ℕ) → and_steps i 0 b ≡ and_steps j 0 b
    by_fuel zero zero = refl
    by_fuel zero (suc j) = refl
    by_fuel (suc i) zero = refl
    by_fuel (suc i) (suc j) = refl
and_steps-enough zero j (suc a) b p q = absurd (omega arith)
and_steps-enough (suc i) zero (suc a) b p q = absurd (omega arith)
and_steps-enough (suc i) (suc j) (suc a) b p q =
    omega (arith, and_steps-enough i j (suc a / 2) (b / 2) (omega arith) (omega arith))

-- One binary digit at a time.
pub bit_and-digit : (a b : ℕ) → bit_and a b ≡ 2 * bit_and (a / 2) (b / 2) + min (a % 2) (b % 2)
bit_and-digit zero b = omega (arith, bit_and-bitwise 0 b, bit_and-bitwise 0 (b / 2))
bit_and-digit (suc a) b = omega (
  arith,
  bit_and-bitwise (suc a) b,
  bit_and-bitwise (suc a / 2) (b / 2),
  and_steps-enough a (suc a / 2) (suc a / 2) (b / 2) (omega arith) (omega arith),
)

bit_and-self_below : (fuel m : ℕ) → m ≤ fuel → bit_and m m ≡ m
bit_and-self_below fuel zero h = omega (arith, bit_and-bitwise 0 0)
bit_and-self_below zero (suc m) h = absurd (omega arith)
bit_and-self_below (suc fuel) (suc m) h =
    omega (arith, bit_and-digit (suc m) (suc m), bit_and-self_below fuel (suc m / 2) (omega arith))

abbrev pub IsPowerOfTwo : ℕ → Type 0
IsPowerOfTwo n = (k : ℕ) × (n ≡ 2 ^ k)

even_or_odd : (n : ℕ) → (n ≡ 2 * (n / 2)) ⊎ (n ≡ 2 * (n / 2) + 1)
even_or_odd n = omega arith

clear_low-power : (fuel n : ℕ) → n ≤ fuel → 1 ≤ n → bit_and n (n - 1) ≡ 0 → IsPowerOfTwo n
clear_low-power zero n h lo e = absurd (omega arith)
clear_low-power (suc fuel) n h lo e = elim (even_or_odd n) [
  | inl even ↦
      let half : (n - 1) / 2 ≡ n / 2 - 1 = omega arith in
      let rest : bit_and (n / 2) ((n - 1) / 2) ≡ 0 = omega (arith, bit_and-digit n (n - 1)) in
      let (k, p) = clear_low-power fuel (n / 2) (omega arith) (omega arith) (rw half at rest) in
      (suc k, omega (arith, pow-suc 2 k))
  | inr odd ↦
      let half : (n - 1) / 2 ≡ n / 2 = omega arith in
      let rest : bit_and (n / 2) ((n - 1) / 2) ≡ 0 = omega (arith, bit_and-digit n (n - 1)) in
      let same : bit_and (n / 2) (n / 2) ≡ 0 = rw half at rest in
      (0, omega (arith, bit_and-self_below (n / 2) (n / 2) (omega arith)))
]

power_positive : (k : ℕ) → 1 ≤ 2 ^ k
power_positive zero = omega arith
power_positive (suc k) = omega (arith, pow-suc 2 k, power_positive k)

power-clear_low : (k : ℕ) → bit_and (2 ^ k) (2 ^ k - 1) ≡ 0
power-clear_low zero = refl
power-clear_low (suc k) =
    let low : 1 ≤ 2 ^ k = power_positive k in
    let whole : 2 ^ suc k / 2 ≡ 2 ^ k = omega (arith, pow-suc 2 k) in
    let before : (2 ^ suc k - 1) / 2 ≡ 2 ^ k - 1 = omega (arith, pow-suc 2 k) in
    let rest : bit_and (2 ^ suc k / 2) ((2 ^ suc k - 1) / 2) ≡ 0 =
      rw (whole, before) (power-clear_low k) in
    omega (arith, bit_and-digit (2 ^ suc k) (2 ^ suc k - 1), pow-suc 2 k)

-- A number that is not 0 shares no bit with its predecessor exactly if it is a power of two.
pub IsPowerOfTwo-iff : (n : ℕ) → 1 ≤ n → (bit_and n (n - 1) ≡ 0) ↔ IsPowerOfTwo n
IsPowerOfTwo-iff n lo = (clear_low-power n n (omega arith) lo, λ h. rw h.1 (power-clear_low h.0))
