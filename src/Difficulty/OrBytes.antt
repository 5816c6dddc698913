-- ===== src/Difficulty/OrBytes.antt =====
-- The loops that gather bytes into a word by `|=` and `<<`.
use native.Mathlib.Numerals.{towards_suc}
use doge_connect.Difficulty.{or_bytes}
use doge_connect.Prelude.{
  ℕ, le_value, List, ◌^◌, IsBytes, ◌*◌, ◌<◌, ◌≡◌, ◌+◌, arith, ◌∷◌, bit_or_disjoint, [],
}
use native.Mathlib.Nat.{mul-le-mul_right}

next_byte : (j : ℕ) → 2 ^ (8 * (j + 1)) ≡ 256 * 2 ^ (8 * j)
next_byte j = let e : 8 * (j + 1) ≡ 8 * j + 8 = omega arith in rw e (simp towards_suc (omega arith))

pub or_bytes_lem :
    (bs : List ℕ) (j word : ℕ)
    → IsBytes bs
    → word < 2 ^ (8 * j)
    → or_bytes word j bs ≡ word + 2 ^ (8 * j) * le_value bs
unfolding or_bytes le_value
or_bytes_lem [] j word h fits = omega arith
or_bytes_lem (b ∷ bs) j word h fits =
    let e : 2 ^ (8 * (j + 1)) ≡ 256 * 2 ^ (8 * j) = next_byte j in
    let next =
      or_bytes_lem bs (j + 1) (word + b * 2 ^ (8 * j)) h.1
        (rw e (omega (arith, h.0, mul-le-mul_right (2 ^ (8 * j)) h.0))) in
    rw (bit_or_disjoint (8 * j) word b fits, next, e) (omega arith)

-- Gathered into a word that starts as 0, bytes give the number that they stand for.
pub or_bytes_value : (bs : List ℕ) → IsBytes bs → or_bytes 0 0 bs ≡ le_value bs
or_bytes_value bs h = rw (or_bytes_lem bs 0 0 h (omega arith)) (omega arith)
