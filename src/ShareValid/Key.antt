-- ===== src/ShareValid/Key.antt =====
-- The deduplication key tells solutions apart.
use doge_connect.HashUtil.{big_endian, bytes_to_hex, hex_to_bytes}
use doge_connect.HashUtil.Hex.{length-bytes_to_hex, hex_to_bytes-bytes_to_hex}
use doge_connect.Structs.{DispatcherMiningSolution}
use doge_connect.ShareValid.{to_string, dedupe_key}
use doge_connect.Prelude.{
  ltb, Bool-cases, length, All, IsBytes, ℕ, zero, suc, ◌+◌, ◌-◌, ◌*◌, ◌/◌, ◌%◌, ◌^◌, ◌<◌, ◌≡◌, refl,
  sym, ap, ap₂, ◌∙◌, inl, inr, true, List, [], ◌∷◌, ◌++◌, arith, All-append,
}
use native.Mathlib.Nat.{pow-suc}

-- The number that decimal digits stand for.
read_decimal : ℕ → List ℕ → ℕ
read_decimal acc [] = acc
read_decimal acc (c ∷ cs) = read_decimal (acc * 10 + (c - b'0')) cs

read_decimal-snoc :
    (xs : List ℕ) (acc c : ℕ)
    → read_decimal acc (xs ++ c ∷ []) ≡ read_decimal acc xs * 10 + (c - b'0')
unfolding read_decimal
read_decimal-snoc [] acc c = refl
read_decimal-snoc (x ∷ xs) acc c = read_decimal-snoc xs (acc * 10 + (x - b'0')) c

read_decimal-to_string :
    (fuel n : ℕ) → n < 10 ^ suc fuel → read_decimal 0 (to_string (suc fuel) n) ≡ n
unfolding to_string read_decimal
read_decimal-to_string zero n h =
    let small : ltb n 10 ≡ true = ground arith in rw small (omega arith)
read_decimal-to_string (suc fuel) n h = elim (Bool-cases (ltb n 10)) [
  | inl small ↦ rw small (omega arith)
  | inr large ↦
      rw (large, read_decimal-snoc (to_string (suc fuel) (n / 10)) 0 (b'0' + n % 10))
        (omega (arith, read_decimal-to_string fuel (n / 10) (omega (arith, pow-suc 10 (suc fuel)))))
]

AreDigits : List ℕ → Type 0
AreDigits = All (λ c. c < b'_')

to_string-AreDigits : (fuel n : ℕ) → AreDigits (to_string fuel n)
unfolding to_string AreDigits
to_string-AreDigits zero n = tt
to_string-AreDigits (suc fuel) n = elim (Bool-cases (ltb n 10)) [
  | inl small ↦ rw small (ground arith, tt)
  | inr large ↦ rw large (
      All-append _ (to_string fuel (n / 10)) _ (to_string-AreDigits fuel (n / 10))
        (omega arith, tt))
]

-- The first underscore splits the key.
split_at_mark :
    (xs ys xs' ys' : List ℕ)
    → AreDigits xs
    → AreDigits xs'
    → xs ++ (b'_' ∷ ys) ≡ xs' ++ (b'_' ∷ ys')
    → (xs ≡ xs') × (ys ≡ ys')
unfolding AreDigits
split_at_mark [] ys [] ys' h h' e = (refl, cc)
split_at_mark [] ys (x ∷ xs') ys' h h' e =
    let mark : b'_' ≡ x = cc in absurd (omega (arith, mark, h'.0))
split_at_mark (x ∷ xs) ys [] ys' h h' e =
    let mark : x ≡ b'_' = cc in absurd (omega (arith, mark, h.0))
split_at_mark (x ∷ xs) ys (x' ∷ xs') ys' h h' e =
    let head : x ≡ x' = cc in
    let tail : xs ++ (b'_' ∷ ys) ≡ xs' ++ (b'_' ∷ ys') = cc in
    let rest = split_at_mark xs ys xs' ys' h.1 h'.1 tail in (ap₂ ◌∷◌ head rest.0, rest.1)

-- A solution as it is read from a packet.
pub record IsSolution (sol : DispatcherMiningSolution) : Type 0 where
  pub job_id : sol.job_id < 2 ^ 64
  pub nonce : length sol.nonce ≡ 4
  pub nonce_bytes : IsBytes sol.nonce
  pub extra_nonce2 : length sol.extra_nonce2 ≡ 8
  pub extra_nonce2_bytes : IsBytes sol.extra_nonce2

append_injective :
    (xs ys xs' ys' : List ℕ)
    → length xs ≡ length xs'
    → xs ++ ys ≡ xs' ++ ys'
    → (xs ≡ xs') × (ys ≡ ys')
append_injective [] ys [] ys' l e = (refl, e)
append_injective [] ys (x ∷ xs') ys' l e = absurd (omega arith)
append_injective (x ∷ xs) ys [] ys' l e = absurd (omega arith)
append_injective (x ∷ xs) ys (x' ∷ xs') ys' l e =
    let head : x ≡ x' = cc in
    let tail : xs ++ ys ≡ xs' ++ ys' = cc in
    let rest = append_injective xs ys xs' ys' (omega arith) tail in (ap₂ ◌∷◌ head rest.0, rest.1)

bytes_to_hex_injective :
    (xs ys : List ℕ)
    → IsBytes xs
    → IsBytes ys
    → bytes_to_hex xs big_endian ≡ bytes_to_hex ys big_endian
    → xs ≡ ys
bytes_to_hex_injective xs ys hx hy e =
    sym (hex_to_bytes-bytes_to_hex xs big_endian hx)
    ∙ ap (λ t. hex_to_bytes t big_endian) e
    ∙ hex_to_bytes-bytes_to_hex ys big_endian hy

-- Two solutions read from packets have the same key only if they agree on the job, the nonce and
-- extraNonce2.
pub dedupe_key_injective :
    (a b : DispatcherMiningSolution)
    → IsSolution a
    → IsSolution b
    → dedupe_key a ≡ dedupe_key b
    → (a.job_id ≡ b.job_id) × (a.nonce ≡ b.nonce) × (a.extra_nonce2 ≡ b.extra_nonce2)
unfolding dedupe_key
dedupe_key_injective a b ha hb e =
    let parts =
      split_at_mark _ _ _ _ (to_string-AreDigits 20 a.job_id) (to_string-AreDigits 20 b.job_id) e in
    let hex =
      append_injective _ _ _ _
        (omega
          (arith, length-bytes_to_hex a.nonce, length-bytes_to_hex b.nonce, ha.nonce, hb.nonce))
        parts.1 in
    (
      sym (read_decimal-to_string 19 a.job_id (omega (arith, ha.job_id)))
          ∙ ap (read_decimal 0) parts.0
          ∙ read_decimal-to_string 19 b.job_id (omega (arith, hb.job_id)),
      bytes_to_hex_injective a.nonce b.nonce ha.nonce_bytes hb.nonce_bytes hex.0,
      bytes_to_hex_injective a.extra_nonce2 b.extra_nonce2 ha.extra_nonce2_bytes
          hb.extra_nonce2_bytes hex.1,
    )
