-- ===== src/Difficulty/Compare.antt =====
-- `verifyHashVsTarget` compares two little-endian numbers.
use native.Mathlib.Nat.{mul-le-mul_left}
use doge_connect.Prelude.{
  ℕ, zero, suc, ◌+◌, ◌*◌, ◌^◌, ◌≤◌, ◌<◌, ◌≡◌, refl, ◌↔◌, true, false, List, arith, ltb, leb,
  if◌then◌else◌, length, take, get_or, IsBytes, le_value, le_value-take-suc, le_value-nil, take-all,
  prefix-lt,
}
use doge_connect.Difficulty.{verify_from, verify_hash_vs_target}

-- The digit decides, and the lower digits only where the two are equal.
leb_by_digit :
    (p x y a b : ℕ)
    → x < p
    → y < p
    → (if ltb a b then true else if ltb b a then false else leb x y) ≡ leb (x + p * a) (y + p * b)
leb_by_digit p x y a b hx hy =
    ground (arith, λ (h : suc a ≤ b). mul-le-mul_left p h, λ (h : suc b ≤ a). mul-le-mul_left p h)

verify_from-leb :
    (i : ℕ) (hash target : List ℕ)
    → IsBytes hash
    → IsBytes target
    → i ≤ length hash
    → i ≤ length target
    → verify_from i hash target ≡ leb (le_value (take i hash)) (le_value (take i target))
unfolding verify_from
verify_from-leb zero hash target bh bt lh lt = rw le_value-nil refl
verify_from-leb (suc i) hash target bh bt lh lt =
    rw
      (
        verify_from-leb i hash target bh bt (omega arith) (omega arith),
        le_value-take-suc hash i lh,
        le_value-take-suc target i lt,
      )
      (leb_by_digit (256 ^ i) (le_value (take i hash)) (le_value (take i target)) (get_or hash i 0)
        (get_or target i 0) (prefix-lt i hash bh) (prefix-lt i target bt))

-- A hash passes exactly when the number that it stands for is at most that of the target, for
-- arrays of 32 bytes.
pub verify_hash_vs_target-iff-le :
    (hash target : List ℕ)
    → IsBytes hash
    → IsBytes target
    → length hash ≡ 32
    → length target ≡ 32
    → (verify_hash_vs_target hash target ≡ true) ↔ (le_value hash ≤ le_value target)
unfolding verify_hash_vs_target
verify_hash_vs_target-iff-le hash target bh bt lh lt =
    rw
      (
        verify_from-leb 32 hash target bh bt (omega arith) (omega arith),
        take-all 32 hash (omega arith),
        take-all 32 target (omega arith),
      )
      (ground arith)
