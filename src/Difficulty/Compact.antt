-- ===== src/Difficulty/Compact.antt =====
-- The compact form of a target and back.
use native.Mathlib.Nat.{pow-suc}
use doge_connect.Difficulty.{put_byte, full_of_compact}
use doge_connect.Prelude.{
  ltb, leb, Bool-cases, length, length-set, get_or, replicate, length-replicate, le_value,
  le_value-replicate, get_or-replicate, get_or-set_ne, le_value-set, ℕ, zero, suc, ◌+◌, ◌-◌, ◌*◌,
  ◌/◌, ◌^◌, ◌≤◌, ◌<◌, ◌≡◌, refl, ap, ◌∙◌, ◌⊎◌, inl, inr, true, List, [], ◌∷◌, arith,
}

put_byte-value :
    (e i b : ℕ) (full : List ℕ)
    → length full ≡ 32
    → 3 ≤ e + i
    → e + i < 35
    → get_or full (e + i - 3) 0 ≡ 0
    → le_value (put_byte e i b full) ≡ le_value full + 256 ^ (e + i - 3) * b
unfolding put_byte
put_byte-value e i b full len low high clear =
    let l : leb 3 (e + i) ≡ true = ground arith in
    let h : ltb (e + i - 3) 32 ≡ true = ground arith in
    rw (l, h)
      (omega (
        arith,
        le_value-set full (e + i - 3) b (omega arith),
        ap (λ (t : ℕ). 256 ^ (e + i - 3) * t) clear,
      ))

length-put_byte : (e i b : ℕ) (full : List ℕ) → length (put_byte e i b full) ≡ length full
unfolding put_byte
length-put_byte e i b full = ground (arith, length-set full (e + i - 3) b)

get_or-put_byte :
    (e i b j : ℕ) (full : List ℕ)
    → e + i < 3 + j
    → get_or (put_byte e i b full) j 0 ≡ get_or full j 0
unfolding put_byte
get_or-put_byte e i b j full h = elim (Bool-cases (leb 3 (e + i))) [
  | inl a ↦ elim (Bool-cases (ltb (e + i - 3) 32)) [
    | inl c ↦ rw (a, c) (get_or-set_ne full (e + i - 3) j b (ground arith))
    | inr c ↦ rw (a, c) refl
  ]
  | inr a ↦ rw a refl
]

abbrev pub mantissa_of : ℕ → ℕ → ℕ → ℕ
mantissa_of c0 c1 c2 = c0 + 2 ^ 8 * c1 + 2 ^ 16 * c2

-- The first two rounds of the loop, from the cleared array on.
module _ (c0 c1 e : ℕ) (low : 3 ≤ e) where
  cleared : List ℕ
  cleared = replicate 32 0

  one_byte : List ℕ
  one_byte = put_byte e 0 c0 cleared

  two_bytes : List ℕ
  two_bytes = put_byte e 1 c1 one_byte

  length-two_bytes : length two_bytes ≡ 32
  unfolding two_bytes one_byte cleared
  length-two_bytes =
      length-put_byte e 1 c1 _ ∙ length-put_byte e 0 c0 _ ∙ length-replicate {A = ℕ} 32 0

  two_bytes-clear : (j : ℕ) → e + 1 < 3 + j → get_or two_bytes j 0 ≡ 0
  unfolding two_bytes one_byte cleared
  two_bytes-clear j h =
      get_or-put_byte e 1 c1 j _ h
      ∙ get_or-put_byte e 0 c0 j _ (omega arith)
      ∙ get_or-replicate 32 j

  two_bytes-value : e + 1 < 35 → le_value two_bytes ≡ 256 ^ (e - 3) * c0 + 256 ^ (e - 3) * 256 * c1
  unfolding two_bytes one_byte cleared
  two_bytes-value high =
      let here : e + 0 - 3 ≡ e - 3 = omega arith in
      let there : e + 1 - 3 ≡ suc (e - 3) = omega arith in
      let first = rw here at (
        put_byte-value e 0 c0 (replicate 32 0) (length-replicate {A = ℕ} 32 0) (omega arith)
          (omega arith) (get_or-replicate 32 (e + 0 - 3))) in
      let second =
        rw (there, pow-suc 256 (e - 3)) at
          (put_byte-value e 1 c1 (put_byte e 0 c0 (replicate 32 0))
            (length-put_byte e 0 c0 _ ∙ length-replicate {A = ℕ} 32 0) (omega arith) (omega arith)
            (get_or-put_byte e 0 c0 (e + 1 - 3) _ (omega arith)
              ∙ get_or-replicate 32 (e + 1 - 3))) in
      omega (arith, first, second, le_value-replicate 32)

  full_of_compact_mid :
      (c2 : ℕ)
      → e ≤ 32
      → le_value (full_of_compact (c0 ∷ c1 ∷ c2 ∷ e ∷ [])) ≡ mantissa_of c0 c1 c2 * 256 ^ (e - 3)
  unfolding full_of_compact two_bytes one_byte cleared
  full_of_compact_mid c2 high =
      let there : e + 2 - 3 ≡ suc (suc (e - 3)) = omega arith in
      let third =
        rw (there, pow-suc 256 (suc (e - 3)), pow-suc 256 (e - 3)) at
          (put_byte-value e 2 c2 two_bytes length-two_bytes (omega arith) (omega arith)
            (two_bytes-clear (e + 2 - 3) (omega arith))) in
      omega (arith, third, two_bytes-value (omega arith))

full_of_compact_top :
    (c0 c1 : ℕ)
    → le_value (full_of_compact (c0 ∷ c1 ∷ 0 ∷ 33 ∷ [])) ≡ mantissa_of c0 c1 0 * 256 ^ 30
unfolding full_of_compact two_bytes one_byte cleared put_byte
full_of_compact_top c0 c1 = omega (arith, two_bytes-value c0 c1 33 (omega arith) (omega arith))

full_of_compact_low :
    (c0 c1 c2 e : ℕ)
    → c0 < 256
    → c1 < 256
    → c2 < 256
    → e < 3
    → le_value (full_of_compact (c0 ∷ c1 ∷ c2 ∷ e ∷ [])) ≡ mantissa_of c0 c1 c2 / 256 ^ (3 - e)
unfolding full_of_compact put_byte le_value
full_of_compact_low c0 c1 c2 zero h0 h1 h2 h = omega arith
full_of_compact_low c0 c1 c2 (suc zero) h0 h1 h2 h = omega arith
full_of_compact_low c0 c1 c2 (suc (suc zero)) h0 h1 h2 h = omega arith
full_of_compact_low c0 c1 c2 (suc (suc (suc e))) h0 h1 h2 h = absurd (omega arith)

-- The full form of a compact one stands for `mantissa * 256 ^ (exponent - 3)`, rounded down where
-- the exponent is below 3, provided that the mantissa's bytes fit the 32 bytes.
pub full_of_compact-value :
    (c0 c1 c2 e : ℕ)
    → c0 < 256
    → c1 < 256
    → c2 < 256
    → (e ≤ 32) ⊎ ((e ≡ 33) × (c2 ≡ 0))
    → le_value (full_of_compact (c0 ∷ c1 ∷ c2 ∷ e ∷ []))
      ≡ mantissa_of c0 c1 c2 * 256 ^ (e - 3) / 256 ^ (3 - e)
full_of_compact-value c0 c1 c2 e h0 h1 h2 (inr (he, hc)) =
    rw (he, hc) (rw (full_of_compact_top c0 c1) (omega arith))
full_of_compact-value c0 c1 c2 e h0 h1 h2 (inl high) = elim (Bool-cases (leb 3 e)) [
  | inl mid ↦
      let low : 3 ≤ e = ground arith in
      let none_below : 3 - e ≡ 0 = omega arith in
      rw (none_below, full_of_compact_mid c0 c1 e low c2 high) (omega arith)
  | inr small ↦
      let low : e < 3 = ground arith in
      let none_above : e - 3 ≡ 0 = omega arith in
      rw (none_above, full_of_compact_low c0 c1 c2 e h0 h1 h2 low)
        (ap (λ (t : ℕ). t / 256 ^ (3 - e)) (omega arith))
]

pub length-full_of_compact : (compact : List ℕ) → length (full_of_compact compact) ≡ 32
unfolding full_of_compact
length-full_of_compact c =
    length-put_byte _ 2 _ _
    ∙ length-put_byte _ 1 _ _
    ∙ length-put_byte _ 0 _ _
    ∙ length-replicate {A = ℕ} 32 0
