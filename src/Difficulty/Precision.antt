-- ===== src/Difficulty/Precision.antt =====
-- What the compact form of a target loses.
use native.Mathlib.Nat.{pow-suc, mul-le-mul_right}
use doge_connect.Difficulty.OrBytes.{or_bytes_value}
use doge_connect.Difficulty.Compact.{mantissa_of, full_of_compact-value}
use doge_connect.Difficulty.{
  full_of_compact, find_exponent, Scaled, take_mantissa, avoid_sign, compact_of_full,
}
use doge_connect.Prelude.{
  leb, ◌==◌, Bool-cases, length, set, get_or, take, drop, length-take, length-drop, take-all,
  get_or-drop, IsBytes, le_value, le_value-lt_pow, le_value-take-suc, le_value-take-add,
  take-IsBytes, drop-IsBytes, bit_and_bit, ℕ, zero, suc, ◌+◌, ◌-◌, ◌*◌, ◌/◌, ◌%◌, ◌^◌, ◌≤◌, ◌<◌,
  bit_and, ◌≡◌, refl, ap, ◌⊎◌, inl, inr, List, [], ◌∷◌, arith, prefix-lt,
}

-- A scaled pair approximates `v` from below: exactly, or with a mantissa of 16 bits at least.
record Approximates (v : ℕ) (s : Scaled) : Type 0 where
  low : 3 ≤ s.exponent
  below : s.mantissa * 256 ^ (s.exponent - 3) ≤ v
  above : v < (s.mantissa + 1) * 256 ^ (s.exponent - 3)
  sharp : (s.mantissa * 256 ^ (s.exponent - 3) ≡ v) ⊎ (2 ^ 15 ≤ s.mantissa)

module _ (full : List ℕ) (len : length full ≡ 32) (bytes : IsBytes full) where
  find_exponent-le : (n : ℕ) → find_exponent n full ≤ n
  unfolding find_exponent
  find_exponent-le zero = omega arith
  find_exponent-le (suc n) = ground (arith, find_exponent-le n)

  -- The bytes from the exponent on are zero, and the one below it is not.
  find_exponent-value :
      (n : ℕ)
      → n ≤ 32
      → (le_value (take (find_exponent n full) full) ≡ le_value (take n full))
        × ((find_exponent n full ≡ 0) ⊎ (0 < get_or full (find_exponent n full - 1) 0))
  unfolding find_exponent
  find_exponent-value zero h = (refl, inl refl)
  find_exponent-value (suc n) h = elim (Bool-cases (get_or full n 0 == 0)) [
    | inl clear ↦
        let ih = find_exponent-value n (omega arith) in
        let z : get_or full n 0 ≡ 0 = ground arith in
        rw (clear, le_value-take-suc full n (omega arith), z) (omega (arith, ih), ih.1)
    | inr set ↦ rw set (refl, inr (let e : suc n - 1 ≡ n = omega arith in rw e (ground arith)))
  ]

  whole_value : le_value (take (find_exponent 32 full) full) ≡ le_value full
  whole_value =
      omega
        (arith, find_exponent-value 32 (omega arith), ap le_value (take-all 32 full (omega arith)))

  three_below : (k : ℕ) → le_value (take 3 (drop k full)) < 2 ^ 24
  three_below k =
      le_value-lt_pow 3 (take 3 (drop k full)) (take-IsBytes 3 _ (drop-IsBytes k full bytes))
        (omega (arith, length-take 3 (drop k full)))

  -- An exponent of 3 or less: the three low bytes are the whole number.
  low_bytes : find_exponent 32 full ≤ 3 → le_value (take 3 full) ≡ le_value full
  low_bytes small =
      let x = find_exponent 32 full in
      let split : x + (3 - x) ≡ 3 = omega arith in
      omega (
        arith,
        whole_value,
        rw split at (le_value-take-add x (3 - x) full (omega arith)),
        le_value-take-add 3 29 full (omega arith),
        ap le_value (take-all 32 full (omega arith)),
      )

  -- A larger one: the three bytes below it lead the number.
  top_bytes :
      3 < find_exponent 32 full
      → let x = find_exponent 32 full - 3 in
        (le_value full ≡ le_value (take x full) + 256 ^ x * le_value (take 3 (drop x full)))
        × (2 ^ 16 ≤ le_value (take 3 (drop x full)))
  top_bytes large =
      let e = find_exponent 32 full in
      let x = e - 3 in
      let split : x + 3 ≡ e = omega arith in
      let last : x + 2 ≡ e - 1 = omega arith in
      let fits = find_exponent-le 32 in
      (
        omega (arith, whole_value, rw split at (le_value-take-add x 3 full (omega arith))),
        omega (
          arith,
          le_value-take-suc (drop x full) 2 (omega (arith, length-drop x full)),
          rw last at (get_or-drop x 2 full 0),
          find_exponent-value 32 (omega arith),
        ),
      )

  take_mantissa-Approximates :
      let s = take_mantissa full in
      Approximates (le_value full) s × (s.mantissa < 2 ^ 24) × (s.exponent ≤ 32)
  unfolding take_mantissa
  take_mantissa-Approximates =
      let x = find_exponent 32 full in
      elim (Bool-cases (leb x 3)) [
        | inl small ↦
            let h : x ≤ 3 = ground arith in
            rw (small, or_bytes_value (take 3 full) (take-IsBytes 3 full bytes), low_bytes h)
              (
                record {
                  low = omega arith;
                  below = omega arith;
                  above = omega arith;
                  sharp = inl (omega arith);
                },
                rw (← low_bytes h) (three_below 0),
                omega arith,
              )
        | inr large ↦
            let h : 3 < x = ground arith in
            let top = top_bytes h in
            rw
              (
                large,
                or_bytes_value (take 3 (drop (x - 3) full))
                    (take-IsBytes 3 _ (drop-IsBytes (x - 3) full bytes)),
              )
              (
                record {
                  low = omega arith;
                  below = omega (arith, top);
                  above = omega (arith, top, prefix-lt (x - 3) full bytes);
                  sharp = inr (omega (arith, top));
                },
                three_below (x - 3),
                find_exponent-le 32,
              )
      ]

-- Past the sign rule the mantissa has 23 bits, and 16 where the exponent has grown to 33.
avoid_sign-Approximates :
    (v : ℕ) (s : Scaled)
    → Approximates v s
    → s.mantissa < 2 ^ 24
    → s.exponent ≤ 32
    → let r = avoid_sign s in
      Approximates v r
      × (r.mantissa < 2 ^ 23)
      × ((r.exponent ≤ 32) ⊎ ((r.exponent ≡ 33) × (r.mantissa < 2 ^ 16)))
unfolding avoid_sign
avoid_sign-Approximates v s a small fits = elim (Bool-cases (bit_and s.mantissa 0x0080_0000 == 0)) [
  | inl plain ↦
      let h : s.mantissa < 2 ^ 23 = ground (arith, bit_and_bit 23 s.mantissa) in
      rw plain (a, h, inl fits)
  | inr negative ↦
      let h : 2 ^ 23 ≤ s.mantissa = ground (arith, bit_and_bit 23 s.mantissa) in
      let next : s.exponent + 1 - 3 ≡ suc (s.exponent - 3) = omega (arith, a.low) in
      let scale = pow-suc 256 (s.exponent - 3) in
      let p = 256 ^ (s.exponent - 3) in
      let shifted : s.mantissa / 256 * 256 ≤ s.mantissa = omega arith in
      let covered : s.mantissa + 1 ≤ (s.mantissa / 256 + 1) * 256 = omega arith in
      rw negative (
        record {
          low = omega (arith, a.low);
          below = rw (next, scale) (omega (arith, a.below, mul-le-mul_right p shifted));
          above = rw (next, scale) (omega (arith, a.above, mul-le-mul_right p covered));
          sharp = inr (omega arith);
        },
        omega arith,
        ground arith,
      )
]

compact_value :
    (m e : ℕ)
    → m < 2 ^ 24
    → 3 ≤ e
    → (e ≤ 32) ⊎ ((e ≡ 33) × (m < 2 ^ 16))
    → le_value (full_of_compact (m % 256 ∷ m / 2 ^ 8 % 256 ∷ m / 2 ^ 16 % 256 ∷ e % 256 ∷ []))
      ≡ m * 256 ^ (e - 3)
compact_value m e small low fits =
    let same : e % 256 ≡ e = omega arith in
    let whole : mantissa_of (m % 256) (m / 2 ^ 8 % 256) (m / 2 ^ 16 % 256) ≡ m = omega arith in
    let exact : 3 - e ≡ 0 = omega arith in
    let reach : (e ≤ 32) ⊎ ((e ≡ 33) × (m / 2 ^ 16 % 256 ≡ 0)) = ground arith in
    rw same (
      rw
        (
          full_of_compact-value (m % 256) (m / 2 ^ 8 % 256) (m / 2 ^ 16 % 256) e (omega arith)
              (omega arith) (omega arith) reach,
          whole,
          exact,
        )
        (omega arith))

relative_error :
    (v m p : ℕ) → m * p ≤ v → v < (m + 1) * p → (m * p ≡ v) ⊎ (2 ^ 15 ≤ m) → (v - m * p) * 32768 ≤ v
relative_error v m p below above (inl exact) = omega arith
relative_error v m p below above (inr large) = omega (arith, mul-le-mul_right p large)

-- The compact form of a 32-byte target stands for a number that is at most the target's, and less
-- than it by at most one part in 32768.
pub compact_of_full-approximates :
    (full : List ℕ)
    → IsBytes full
    → length full ≡ 32
    → let t = le_value (full_of_compact (compact_of_full full)) in
      (t ≤ le_value full) × ((le_value full - t) * 32768 ≤ le_value full)
unfolding compact_of_full
compact_of_full-approximates full bytes len =
    let s = avoid_sign (take_mantissa full) in
    let raw = take_mantissa-Approximates full len bytes in
    let a = avoid_sign-Approximates (le_value full) (take_mantissa full) raw.0 raw.1 raw.2 in
    let value = compact_value s.mantissa s.exponent (omega (arith, a)) a.0.low a.2 in
    let p = 256 ^ (s.exponent - 3) in
    rw value (a.0.below, relative_error (le_value full) s.mantissa p a.0.below a.0.above a.0.sharp)
