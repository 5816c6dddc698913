-- ===== src/Prelude/Bytes.antt =====
-- Byte strings and the number that one stands for, least significant byte first.
use Prim.Native.Nat.{ℕ, zero, suc, ◌+◌, ◌*◌, ◌/◌, ◌%◌, ◌^◌, ◌≤◌, ◌<◌}
use Prim.Native.Nat.add
use mathlib.Core.Logic.{◌≢◌, inl, inr}
use mathlib.Core.Path.{◌≡◌, refl, ap}
use mathlib.Core.Bool.{Bool, true, ◌&&◌}
use doge_connect.Prelude.Tests.{ltb, Bool-cases, ltb→lt}
use mathlib.Core.List.{List, [], ◌∷◌, ◌++◌, reverse, reverse-cons}
use native.Mathlib.Nat.{pow-suc, one-le-pow}
use native.Mathlib.Omega.{arith}
use doge_connect.Prelude.Lists.{length, take, drop, get_or, set, replicate, length-take}

abbrev pub All {ℓ κ} : {A : Type ℓ} → (A → Type κ) → List A → Type κ
All P [] = Unit
All P (x ∷ xs) = P x × All P xs

pub All-append {ℓ κ} :
    {A : Type ℓ} (P : A → Type κ) (xs ys : List A) → All P xs → All P ys → All P (xs ++ ys)
All-append P [] ys hx hy = hy
All-append P (x ∷ xs) ys hx hy = (hx.0, All-append P xs ys hx.1 hy)

abbrev pub IsBytes : List ℕ → Type 0
IsBytes = All (λ b. b < 256)

unfoldable pub le_value : List ℕ → ℕ
le_value [] = 0
le_value (b ∷ bs) = b + 256 * le_value bs

-- The `k` low bytes of `v`.
unfoldable pub to_le : ℕ → ℕ → List ℕ
to_le zero v = []
to_le (suc k) v = (v % 256) ∷ to_le k (v / 256)

pub le_value-nil : le_value [] ≡ 0
unfolding le_value
le_value-nil = refl

pub le_value-cons : (b : ℕ) (bs : List ℕ) → le_value (b ∷ bs) ≡ b + 256 * le_value bs
unfolding le_value
le_value-cons b bs = refl

pub length-to_le : (k v : ℕ) → length (to_le k v) ≡ k
unfolding to_le
length-to_le zero v = refl
length-to_le (suc k) v = ap suc (length-to_le k (v / 256))

pub to_le-IsBytes : (k v : ℕ) → IsBytes (to_le k v)
unfolding to_le
to_le-IsBytes zero v = tt
to_le-IsBytes (suc k) v = (omega arith, to_le-IsBytes k (v / 256))

pub le_value-lt : (bs : List ℕ) → IsBytes bs → le_value bs < 256 ^ length bs
unfolding le_value
le_value-lt [] h = omega arith
le_value-lt (b ∷ bs) h = omega (arith, le_value-lt bs h.1, pow-suc 256 (length bs), h.0)

pub le_value-lt_pow : (n : ℕ) (bs : List ℕ) → IsBytes bs → length bs ≤ n → le_value bs < 256 ^ n
unfolding le_value
le_value-lt_pow n [] h fits = omega (arith, one-le-pow n 256 (omega arith))
le_value-lt_pow zero (b ∷ bs) h fits = absurd (omega arith)
le_value-lt_pow (suc n) (b ∷ bs) h fits =
    omega (arith, le_value-lt_pow n bs h.1 (omega arith), pow-suc 256 n, h.0)

pub le_value-to_le : (k v : ℕ) → v < 256 ^ k → le_value (to_le k v) ≡ v
unfolding le_value to_le
le_value-to_le zero v h = omega arith
le_value-to_le (suc k) v h =
    omega (arith, pow-suc 256 k, le_value-to_le k (v / 256) (omega (arith, pow-suc 256 k)))

pub to_le-le_value : (bs : List ℕ) → IsBytes bs → to_le (length bs) (le_value bs) ≡ bs
unfolding le_value to_le
to_le-le_value [] h = refl
to_le-le_value (b ∷ bs) h =
    let low : (b + 256 * le_value bs) % 256 ≡ b = omega (arith, h.0) in
    let high : (b + 256 * le_value bs) / 256 ≡ le_value bs = omega (arith, h.0) in
    rw (low, high, to_le-le_value bs h.1)

pub le_value-append :
    (xs ys : List ℕ) → le_value (xs ++ ys) ≡ le_value xs + 256 ^ length xs * le_value ys
unfolding le_value
le_value-append [] ys = omega arith
le_value-append (x ∷ xs) ys =
    omega (arith, le_value-append xs ys, ap (λ (t : ℕ). t * le_value ys) (pow-suc 256 (length xs)))

pub le_value-take-suc :
    (xs : List ℕ) (i : ℕ)
    → i < length xs
    → le_value (take (suc i) xs) ≡ le_value (take i xs) + 256 ^ i * get_or xs i 0
unfolding le_value
le_value-take-suc [] i h = absurd (omega arith)
le_value-take-suc (x ∷ xs) zero h = omega arith
le_value-take-suc (x ∷ xs) (suc i) h =
    omega (
      arith,
      le_value-take-suc xs i (omega arith),
      ap (λ (t : ℕ). t * get_or xs i 0) (pow-suc 256 i),
    )

pub le_value-take-add :
    (n m : ℕ) (xs : List ℕ)
    → n ≤ length xs
    → le_value (take (n + m) xs) ≡ le_value (take n xs) + 256 ^ n * le_value (take m (drop n xs))
unfolding le_value
le_value-take-add zero m xs h = let e : 0 + m ≡ m = omega arith in rw e (omega arith)
le_value-take-add (suc n) m [] h = absurd (omega arith)
le_value-take-add (suc n) m (x ∷ xs) h = rw add.suc (
    omega (
      arith,
      le_value-take-add n m xs (omega arith),
      ap (λ (t : ℕ). t * le_value (take m (drop n xs))) (pow-suc 256 n),
    ))

pub le_value-replicate : (n : ℕ) → le_value (replicate n 0) ≡ 0
unfolding le_value
le_value-replicate zero = refl
le_value-replicate (suc n) = omega (arith, le_value-replicate n)

pub get_or-replicate : (n i : ℕ) → get_or {A = ℕ} (replicate n 0) i 0 ≡ 0
get_or-replicate zero i = refl
get_or-replicate (suc n) zero = refl
get_or-replicate (suc n) (suc i) = get_or-replicate n i

pub get_or-set_ne : (xs : List ℕ) (i j v : ℕ) → i ≢ j → get_or (set xs i v) j 0 ≡ get_or xs j 0
get_or-set_ne [] i j v h = refl
get_or-set_ne (x ∷ xs) zero zero v h = absurd (h refl)
get_or-set_ne (x ∷ xs) zero (suc j) v h = refl
get_or-set_ne (x ∷ xs) (suc i) zero v h = refl
get_or-set_ne (x ∷ xs) (suc i) (suc j) v h = get_or-set_ne xs i j v (λ e. h (ap suc e))

pub take-IsBytes : (n : ℕ) (xs : List ℕ) → IsBytes xs → IsBytes (take n xs)
take-IsBytes zero xs h = tt
take-IsBytes (suc n) [] h = tt
take-IsBytes (suc n) (x ∷ xs) h = (h.0, take-IsBytes n xs h.1)

pub drop-IsBytes : (n : ℕ) (xs : List ℕ) → IsBytes xs → IsBytes (drop n xs)
drop-IsBytes zero xs h = h
drop-IsBytes (suc n) [] h = tt
drop-IsBytes (suc n) (x ∷ xs) h = drop-IsBytes n xs h.1

pub get_or-lt_byte : (xs : List ℕ) (i : ℕ) → IsBytes xs → get_or xs i 0 < 256
get_or-lt_byte [] i h = omega arith
get_or-lt_byte (x ∷ xs) zero h = h.0
get_or-lt_byte (x ∷ xs) (suc i) h = get_or-lt_byte xs i h.1

pub append-IsBytes : (xs ys : List ℕ) → IsBytes xs → IsBytes ys → IsBytes (xs ++ ys)
append-IsBytes = All-append (λ b. b < 256)

pub le_value-set :
    (xs : List ℕ) (i v : ℕ)
    → i < length xs
    → le_value (set xs i v) + 256 ^ i * get_or xs i 0 ≡ le_value xs + 256 ^ i * v
unfolding le_value
le_value-set [] i v h = absurd (omega arith)
le_value-set (x ∷ xs) zero v h = omega arith
le_value-set (x ∷ xs) (suc i) v h = omega (
  arith,
  le_value-set xs i v (omega arith),
  ap (λ (t : ℕ). t * get_or xs i 0) (pow-suc 256 i),
  ap (λ (t : ℕ). t * v) (pow-suc 256 i),
)

pub prefix-lt : (i : ℕ) (xs : List ℕ) → IsBytes xs → le_value (take i xs) < 256 ^ i
prefix-lt i xs h =
    le_value-lt_pow i (take i xs) (take-IsBytes i xs h) (omega (arith, length-take i xs))

pub reverse-IsBytes : (xs : List ℕ) → IsBytes xs → IsBytes (reverse xs)
reverse-IsBytes [] h = tt
reverse-IsBytes (x ∷ xs) h =
    rw reverse-cons (append-IsBytes (reverse xs) (x ∷ []) (reverse-IsBytes xs h.1) (h.0, tt))

-- A test for `IsBytes`, for concrete lists.
abbrev pub all_bytes : List ℕ → Bool
all_bytes [] = true
all_bytes (x ∷ xs) = ltb x 256 && all_bytes xs

pub all_bytes-IsBytes : (xs : List ℕ) → all_bytes xs ≡ true → IsBytes xs
all_bytes-IsBytes [] h = tt
all_bytes-IsBytes (x ∷ xs) h = elim (Bool-cases (ltb x 256)) [
  | inl small ↦ (ltb→lt x 256 small, all_bytes-IsBytes xs (rw small at h))
  | inr large ↦ let bad = rw large at h in cc
]
