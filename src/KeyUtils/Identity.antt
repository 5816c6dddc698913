-- ===== src/KeyUtils/Identity.antt =====
-- Identities, there and back.
use doge_connect.Structs.Fields.{drop_next, take_first}
use doge_connect.KeyUtils.{
  letters, fragments, read_letters, read_fragments, public_key_from_identity, check_letters,
  checksum, identity_from_public_key, check_sum_identity,
}
use native.Mathlib.Nat.{pow-suc}
use doge_connect.Prelude.{
  ℕ, ltb, ◌==◌, ==_iff, length, length-append, take, drop, take-append-drop, length-take,
  length-drop, IsBytes, le_value, to_le, le_value-lt_pow, to_le-le_value, take-IsBytes,
  drop-IsBytes, zero, suc, ◌+◌, ◌*◌, ◌/◌, ◌%◌, ◌^◌, ◌<◌, ◌≡◌, refl, sym, ap, ◌∙◌, true, false, ◌||◌,
  some, List, [], ◌∷◌, ◌++◌, append_assoc, arith,
}
use native.Mathlib.Nat.{pow-suc}

length-letters : (first n v : ℕ) → length (letters first n v) ≡ n
unfolding letters
length-letters first zero v = refl
length-letters first (suc n) v = ap suc (length-letters first n (v / 26))

read_letters-letters :
    (n v : ℕ) → v < 26 ^ n → v < 2 ^ 64 → read_letters (letters b'A' n v) ≡ some v
unfolding read_letters letters
read_letters-letters zero v h small = ap some (omega arith)
read_letters-letters (suc n) v h small =
    let ih = read_letters-letters n (v / 26) (omega (arith, pow-suc 26 n)) (omega arith) in
    let capital : (ltb (v % 26 + b'A') b'A' || ltb b'Z' (v % 26 + b'A')) ≡ false = ground arith in
    rw (ih, read_letters) (rw capital (ap some (omega arith)))

length-fragments : (first n : ℕ) (key : List ℕ) → length (fragments first n key) ≡ 14 * n
unfolding fragments
length-fragments first zero key = refl
length-fragments first (suc n) key = omega (
  arith,
  length-append (letters first 14 (le_value (take 8 key))) (fragments first n (drop 8 key)),
  length-letters first 14 (le_value (take 8 key)),
  length-fragments first n (drop 8 key),
)

read_fragments-fragments :
    (n : ℕ) (key rest : List ℕ)
    → IsBytes key
    → length key ≡ 8 * n
    → read_fragments n (fragments b'A' n key ++ rest) ≡ some key
unfolding read_fragments fragments
read_fragments-fragments zero [] rest h len = refl
read_fragments-fragments zero (k ∷ key) rest h len = absurd (omega arith)
read_fragments-fragments (suc n) key rest h len =
    let bytes = take 8 key in
    let first = letters b'A' 14 (le_value bytes) in
    let more = fragments b'A' n (drop 8 key) ++ rest in
    let fourteen = length-letters b'A' 14 (le_value bytes) in
    let eight : length bytes ≡ 8 = omega (arith, length-take 8 key) in
    let small = le_value-lt_pow 8 bytes (take-IsBytes 8 key h) (omega arith) in
    let value =
      read_letters-letters 14 (le_value bytes) (omega (arith, small)) (omega (arith, small)) in
    let ih =
      read_fragments-fragments n (drop 8 key) rest (drop-IsBytes 8 key h)
        (omega (arith, length-drop 8 key)) in
    let back : to_le 8 (le_value bytes) ≡ bytes =
      ap (λ t. to_le t (le_value bytes)) (sym eight)
      ∙ to_le-le_value bytes (take-IsBytes 8 key h) in
    let cut : fragments b'A' (suc n) key ++ rest ≡ first ++ more =
      append_assoc first (fragments b'A' n (drop 8 key)) rest in
    let taken = ap (take 14) cut ∙ take_first 14 first more fourteen in
    let dropped = ap (drop 14) cut ∙ drop_next 14 14 0 first more fourteen refl in
    rw (taken, value, dropped, ih, back, read_fragments) (ap some (take-append-drop 8 key))

check_letters-letters : (n v : ℕ) → check_letters n v (letters b'A' n v) ≡ true
unfolding check_letters letters
check_letters-letters zero v = refl
check_letters-letters (suc n) v =
    let same : (v % 26 + b'A' == v % 26 + b'A') ≡ true = (==_iff _ _).1 refl in
    rw same (check_letters-letters n (v / 26))

-- The identity of a key, in capital letters, reads back as the key and passes the check of its
-- checksum, for keys of 32 bytes.
pub public_key_from_identity-identity_from_public_key :
    (k12_3 : List ℕ → List ℕ) (key : List ℕ)
    → IsBytes key
    → length key ≡ 32
    → (public_key_from_identity (identity_from_public_key k12_3 key false) ≡ some key)
      × (check_sum_identity k12_3 (identity_from_public_key k12_3 key false) ≡ true)
unfolding public_key_from_identity check_sum_identity identity_from_public_key
public_key_from_identity-identity_from_public_key k12_3 key h len =
    let sum = checksum k12_3 key in
    let tail = letters b'A' 4 sum in
    let key_back = read_fragments-fragments 4 key tail h (omega arith) in
    let at_tail =
      drop_next 56 56 0 (fragments b'A' 4 key) tail (length-fragments b'A' 4 key) refl in
    (key_back, rw (key_back, at_tail, check_sum_identity) (check_letters-letters 4 sum))
