-- ===== src/Difficulty/Divide.antt =====
-- `divideTarget` divides the 256-bit number.
use doge_connect.Prelude.{
  ℕ, List, le_value, ◌<◌, All, ◌^◌, ◌*◌, ◌+◌, ◌≡◌, IsBytes, ◌/◌, ◌∷◌, arith, ◌%◌, bit_or_disjoint,
  [], ap, length, le_value-nil, append-IsBytes, suc, to_le, length-append, le_value-append, drop,
  to_le-IsBytes, length-to_le, take, drop-IsBytes, length-take, take-IsBytes, length-drop, leb,
  Bool-cases, take-append-drop, le_value-to_le, zero, refl, sym, inl, inr, le_value-lt_pow,
}
use doge_connect.Difficulty.OrBytes.{or_bytes_value}
use doge_connect.Difficulty.{
  read_words, Division, divide_word, divide_words, write_words, divide_target,
}
use native.Mathlib.Nat.{div-lt_iff_lt-mul, mul-le-mul_right, mod-lt, div-add-mod', div-eq_of_lt-le}

-- The number that 64-bit words stand for, least significant first.
words_value : List ℕ → ℕ
words_value [] = 0
words_value (w ∷ ws) = w + 2 ^ 64 * words_value ws

AreWords : List ℕ → Type 0
AreWords = All (λ w. w < 2 ^ 64)

divide_word_exact :
    (difficulty word v : ℕ) (above : Division)
    → 1 < difficulty
    → difficulty < 2 ^ 64
    → word < 2 ^ 64
    → words_value above.quotients * difficulty + above.remainder ≡ v
    → above.remainder < difficulty
    → let r = divide_word difficulty word above in
      (words_value r.quotients * difficulty + r.remainder ≡ word + 2 ^ 64 * v)
      × (r.remainder < difficulty)
unfolding divide_word words_value
divide_word_exact d w v above one small hw eq lt =
    let c = w + above.remainder * 2 ^ 64 in
    let q : c / d < 2 ^ 64 =
      (div-lt_iff_lt-mul (omega arith)).1 (omega (arith, mul-le-mul_right (2 ^ 64) lt)) in
    let r : c % d < d = mod-lt c (omega arith) in
    let q' : c / d % 2 ^ 64 ≡ c / d = omega arith in
    let r' : c % d % 2 ^ 64 ≡ c % d = omega arith in
    let split : c / d * d + c % d ≡ c = div-add-mod' c d in
    rw (bit_or_disjoint 64 w above.remainder hw, q', r')
      (omega (arith, split, ap (λ (t : ℕ). 2 ^ 64 * t) eq), r)

divide_words_exact :
    (difficulty : ℕ) (words : List ℕ)
    → 1 < difficulty
    → difficulty < 2 ^ 64
    → AreWords words
    → let r = divide_words difficulty words in
      (words_value r.quotients * difficulty + r.remainder ≡ words_value words)
      × (r.remainder < difficulty)
unfolding divide_words AreWords words_value
divide_words_exact d [] one small h = (omega arith, omega arith)
divide_words_exact d (w ∷ ws) one small h =
    let below = divide_words_exact d ws one small h.1 in
    divide_word_exact d w (words_value ws) (divide_words d ws) one small h.0 below.0 below.1

divide_words-AreWords :
    (difficulty : ℕ) (words : List ℕ) → AreWords (divide_words difficulty words).quotients
unfolding divide_words divide_word AreWords
divide_words-AreWords d [] = tt
divide_words-AreWords d (w ∷ ws) = (omega arith, divide_words-AreWords d ws)

length-divide_words :
    (difficulty : ℕ) (words : List ℕ)
    → length (divide_words difficulty words).quotients ≡ length words
unfolding divide_words divide_word
length-divide_words d [] = refl
length-divide_words d (w ∷ ws) = ap suc (length-divide_words d ws)

read_words-value :
    (n : ℕ) (bytes : List ℕ)
    → IsBytes bytes
    → length bytes ≡ 8 * n
    → words_value (read_words n bytes) ≡ le_value bytes
unfolding read_words words_value
read_words-value zero [] h e = rw le_value-nil refl
read_words-value zero (b ∷ bs) h e = absurd (omega arith)
read_words-value (suc n) bytes h e =
    let whole = le_value-append (take 8 bytes) (drop 8 bytes) in
    let low : length (take 8 bytes) ≡ 8 = omega (arith, length-take 8 bytes) in
    let word = or_bytes_value (take 8 bytes) (take-IsBytes 8 bytes h) in
    let rest =
      read_words-value n (drop 8 bytes) (drop-IsBytes 8 bytes h)
        (omega (arith, length-drop 8 bytes)) in
    omega (arith, word, rest, rw (low, take-append-drop 8 bytes) at whole)

length-read_words : (n : ℕ) (bytes : List ℕ) → length (read_words n bytes) ≡ n
unfolding read_words
length-read_words zero bytes = refl
length-read_words (suc n) bytes = ap suc (length-read_words n (drop 8 bytes))

read_words-AreWords : (n : ℕ) (bytes : List ℕ) → IsBytes bytes → AreWords (read_words n bytes)
unfolding read_words AreWords
read_words-AreWords zero bytes h = tt
read_words-AreWords (suc n) bytes h =
    let word = take-IsBytes 8 bytes h in
    (
      rw (or_bytes_value (take 8 bytes) word)
          (le_value-lt_pow 8 (take 8 bytes) word (omega (arith, length-take 8 bytes))),
      read_words-AreWords n (drop 8 bytes) (drop-IsBytes 8 bytes h),
    )

write_words-value :
    (words : List ℕ) → AreWords words → le_value (write_words words) ≡ words_value words
unfolding write_words words_value AreWords
write_words-value [] h = le_value-nil
write_words-value (w ∷ ws) h = omega (
  arith,
  rw (length-to_le 8 w) at (le_value-append (to_le 8 w) (write_words ws)),
  le_value-to_le 8 w h.0,
  write_words-value ws h.1,
)

pub write_words-IsBytes : (words : List ℕ) → IsBytes (write_words words)
unfolding write_words
write_words-IsBytes [] = tt
write_words-IsBytes (w ∷ ws) =
    append-IsBytes (to_le 8 w) (write_words ws) (to_le-IsBytes 8 w) (write_words-IsBytes ws)

length-write_words : (words : List ℕ) → length (write_words words) ≡ 8 * length words
unfolding write_words
length-write_words [] = refl
length-write_words (w ∷ ws) =
    omega
      (arith, length-append (to_le 8 w) (write_words ws), length-to_le 8 w, length-write_words ws)

-- For a difficulty from 1 up that fits 64 bits, the quotient's number is that of the base target
-- divided by the difficulty, rounded down; the quotient is 32 bytes again.
pub divide_target-divides :
    (base : List ℕ) (difficulty : ℕ)
    → IsBytes base
    → length base ≡ 32
    → 0 < difficulty
    → difficulty < 2 ^ 64
    → (le_value (divide_target base difficulty) ≡ le_value base / difficulty)
      × IsBytes (divide_target base difficulty)
      × (length (divide_target base difficulty) ≡ 32)
unfolding divide_target
divide_target-divides base d h e pos small = elim (Bool-cases (leb d 1)) [
  | inl one ↦ let unit : d ≡ 1 = ground arith in rw (one, unit) (omega arith, h, e)
  | inr more ↦
      let two : 1 < d = ground arith in
      let words = read_words-value 4 base h e in
      let exact =
        divide_words_exact d (read_words 4 base) two small (read_words-AreWords 4 base h) in
      let value =
        write_words-value (divide_words d (read_words 4 base)).quotients
          (divide_words-AreWords d (read_words 4 base)) in
      rw more (
        rw (value, ← words) (sym (div-eq_of_lt-le d (omega (arith, exact)) (omega (arith, exact)))),
        write_words-IsBytes _,
        omega (
          arith,
          length-write_words (divide_words d (read_words 4 base)).quotients,
          length-divide_words d (read_words 4 base),
          length-read_words 4 base,
        ),
      )
]
