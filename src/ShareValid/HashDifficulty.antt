-- ===== src/ShareValid/HashDifficulty.antt =====
-- What `hashDifficulty` returns.
use native.Mathlib.Nat.{div-eq_of_lt, one-le-pow, pow-suc, mul-le-mul_left, mul-le-mul_right}
use doge_connect.ShareValid.{
  base_top, base_msb, top_byte, find_msb, read_top, scale_up, hash_difficulty,
}
use doge_connect.Prelude.{
  ◌==◌, Bool-cases, Option-cases, set, get_or, IsBytes, get_or-lt_byte, bit_or_disjoint, ℕ, zero,
  suc, ◌+◌, ◌-◌, ◌*◌, ◌/◌, ◌%◌, ◌^◌, ◌≤◌, ◌<◌, bit_or, ◌≡◌, refl, ap, inl, inr, some, List, arith,
}

find_msb-ne-zero :
    (n : ℕ) (hash : List ℕ) {msb : ℕ} → find_msb n hash ≡ some msb → 0 < get_or hash msb 0
unfolding find_msb
find_msb-ne-zero zero hash h = cc
find_msb-ne-zero (suc n) hash {msb} h = elim (Bool-cases (get_or hash n 0 == 0)) [
  | inl clear ↦ find_msb-ne-zero n hash (rw clear at h)
  | inr set ↦ let e : n ≡ msb = cc (rw set at h) in ground arith
]

top_byte-lt : (msb i : ℕ) (hash : List ℕ) → IsBytes hash → top_byte msb i hash < 256
top_byte-lt msb i hash h = ground (arith, get_or-lt_byte hash (msb - i) h)

-- No byte that has been read is shifted out.
read_top-le :
    (rounds i msb : ℕ) (hash : List ℕ) (top : ℕ)
    → IsBytes hash
    → (top + 1) * 256 ^ rounds ≤ 2 ^ 64
    → top * 256 ^ rounds ≤ read_top rounds i msb hash top
unfolding read_top
read_top-le zero i msb hash top h fits = omega arith
read_top-le (suc r) i msb hash top h fits =
    let b = top_byte msb i hash in
    let byte = top_byte-lt msb i hash h in
    let p = 256 ^ r in
    let pos = one-le-pow r 256 (omega arith) in
    let room : (top + 1) * 256 * p ≤ 2 ^ 64 =
      omega (arith, ap (λ (t : ℕ). (top + 1) * t) (pow-suc 256 r)) in
    let kept : top * 2 ^ 8 % 2 ^ 64 ≡ top * 2 ^ 8 =
      omega (arith, mul-le-mul_left ((top + 1) * 256) pos) in
    let next : (b + top * 2 ^ 8 + 1) * p ≤ 2 ^ 64 = omega (arith, mul-le-mul_right p byte) in
    rw (kept, bit_or_disjoint 8 b top byte)
      (omega (
        arith,
        read_top-le r (i + 1) msb hash (b + top * 2 ^ 8) h next,
        ap (λ (t : ℕ). top * t) (pow-suc 256 r),
      ))

read_top_large :
    (msb : ℕ) (hash : List ℕ)
    → IsBytes hash
    → 0 < get_or hash msb 0
    → 2 ^ 56 ≤ read_top 8 0 msb hash 0
unfolding read_top
read_top_large msb hash h pos =
    let b = top_byte msb 0 hash in
    let byte = top_byte-lt msb 0 hash h in
    let index : msb - 0 ≡ msb = omega arith in
    let first : b ≡ get_or hash msb 0 = rw index (ground arith) in
    let start : bit_or b 0 ≡ b = omega (arith, bit_or_disjoint 8 b 0 byte) in
    rw (start, read_top) (omega (arith, first, read_top-le 7 1 msb hash b h (omega arith)))

scale_up-zero : (rounds : ℕ) → scale_up rounds 0 ≡ 0
unfolding scale_up
scale_up-zero zero = refl
scale_up-zero (suc rounds) = scale_up-zero rounds

-- The difficulty that is reported of a hash is 0 for every hash of 32 bytes.
pub hash_difficulty-zero : (hash : List ℕ) → IsBytes hash → hash_difficulty hash ≡ 0
unfolding hash_difficulty
hash_difficulty-zero hash bytes = elim (Option-cases (find_msb 32 hash)) [
  | inl none_set ↦ rw (none_set, hash_difficulty) refl
  | inr (msb, found) ↦
      let large = read_top_large msb hash bytes (find_msb-ne-zero 32 hash found) in
      let below : base_top / read_top 8 0 msb hash 0 ≡ 0 = div-eq_of_lt (omega (arith, large)) in
      rw (found, hash_difficulty) (rw below (ground (arith, scale_up-zero (base_msb - msb))))
]
