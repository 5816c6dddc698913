-- ===== src/Prelude/Bits.antt =====
-- `x | (b << k)` for `x` below `2 ^ k`, and the test of one bit, as arithmetic.
use Prim.Native.Nat.{
  ℕ, zero, suc, ◌+◌, ◌*◌, ◌/◌, ◌%◌, ◌^◌, ◌≤◌, ◌<◌, ◌-◌, min, max, bit_and, bit_or, digits, bitwise,
  bit_and-bitwise, bit_or-bitwise,
}
use Prim.Native.Nat.add
use mathlib.Core.Path.{◌≡◌, refl, sym, ap, ◌∙◌}
use native.Mathlib.Nat.{pow-suc, le_refl, zero-div, div-div-eq-div-mul, mul_comm}
use native.Mathlib.Omega.{arith}

module _ (rest : ℕ → ℕ) (op : ℕ → ℕ → ℕ) where
  no_digits : (fuel b : ℕ) → digits rest op fuel zero b ≡ rest b
  no_digits zero b = refl
  no_digits (suc fuel) b = refl

  -- Fuel that reaches the first operand is enough: more of it changes nothing.
  more_fuel :
      (fuel extra a b : ℕ) → a ≤ fuel → digits rest op (fuel + extra) a b ≡ digits rest op fuel a b
  more_fuel fuel extra zero b reach = no_digits (fuel + extra) b ∙ sym (no_digits fuel b)
  more_fuel zero extra (suc a) b reach = absurd (omega arith)
  more_fuel (suc fuel) extra (suc a) b reach = rw (add.suc fuel extra) (
      let ih = more_fuel fuel extra (suc a / 2) (b / 2) (omega arith) in
      ap (λ (t : ℕ). t * 2 + op (suc a % 2) (b % 2)) ih)

  lowest_digit :
      (a b : ℕ)
      → bitwise rest op (suc a) b ≡ bitwise rest op (suc a / 2) (b / 2) * 2 + op (suc a % 2) (b % 2)
  lowest_digit a b =
      let half = suc a / 2 in
      let whole : half + (a - half) ≡ a = omega arith in
      ap (λ (t : ℕ). t * 2 + op (suc a % 2) (b % 2))
        (ap (λ n. digits rest op n half (b / 2)) (sym whole)
          ∙ more_fuel half (a - half) half (b / 2) (le_refl half))

double : (k b : ℕ) → b * 2 ^ suc k ≡ 2 * (b * 2 ^ k)
double k b = omega (arith, ap (λ (t : ℕ). b * t) (pow-suc 2 k))

-- The two operands share no bit, so the bitwise or is their sum.
pub bit_or_disjoint : (k x b : ℕ) → x < 2 ^ k → bit_or x (b * 2 ^ k) ≡ x + b * 2 ^ k
bit_or_disjoint k zero b h = rw bit_or-bitwise (omega arith)
bit_or_disjoint zero (suc x) b h = absurd (omega arith)
bit_or_disjoint (suc k) (suc x) b h =
    let half : b * 2 ^ suc k / 2 ≡ b * 2 ^ k = omega (arith, double k b) in
    let even : b * 2 ^ suc k % 2 ≡ 0 = omega (arith, double k b) in
    let rec = bit_or_disjoint k (suc x / 2) b (omega (arith, pow-suc 2 k)) in
    rw (bit_or-bitwise, lowest_digit _ max x (b * 2 ^ suc k), half, even, ← bit_or-bitwise, rec)
      (omega (arith, double k b))

bit_and-zero : (fuel a : ℕ) → a ≤ fuel → bit_and a 0 ≡ 0
bit_and-zero fuel zero h = rw bit_and-bitwise refl
bit_and-zero zero (suc a) h = absurd (omega arith)
bit_and-zero (suc fuel) (suc a) h =
    rw (bit_and-bitwise, lowest_digit _ min a 0, ← bit_and-bitwise)
      (omega (arith, bit_and-zero fuel (suc a / 2) (omega arith)))

-- `x & (1 << k)` keeps bit `k` of `x`.
pub bit_and_bit : (k x : ℕ) → bit_and x (2 ^ k) ≡ x / 2 ^ k % 2 * 2 ^ k
bit_and_bit k zero = rw (bit_and-bitwise, zero-div) (omega arith)
bit_and_bit zero (suc x) =
    rw (bit_and-bitwise, lowest_digit _ min x 1, ← bit_and-bitwise)
      (omega (arith, bit_and-zero (suc x) (suc x / 2) (omega arith)))
bit_and_bit (suc k) (suc x) =
    let half : 2 ^ suc k / 2 ≡ 2 ^ k = omega (arith, pow-suc 2 k) in
    let even : 2 ^ suc k % 2 ≡ 0 = omega (arith, pow-suc 2 k) in
    let shift : suc x / 2 ^ suc k ≡ suc x / 2 / 2 ^ k =
      rw (pow-suc 2 k, div-div-eq-div-mul, mul_comm 2 (2 ^ k)) refl in
    rw (shift, bit_and-bitwise, lowest_digit _ min x (2 ^ suc k), half, even, ← bit_and-bitwise)
      (rw (bit_and_bit k (suc x / 2))
        (omega (arith, ap (λ (t : ℕ). suc x / 2 / 2 ^ k % 2 * t) (pow-suc 2 k))))
