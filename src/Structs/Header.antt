-- ===== src/Structs/Header.antt =====
-- `RequestResponseHeader`: three bytes of size, one of type, four of `dejavu`.
use doge_connect.Prelude.{
  ℕ, ◌==◌, if◌then◌else◌, length, get_or, take, replicate, le_value, ◌+◌, ◌-◌, ◌*◌, ◌/◌, ◌%◌, ◌^◌,
  ◌≤◌, ◌<◌, ◌≡◌, refl, List, [], ◌∷◌, ◌++◌, arith,
}

-- `size()`; a size of 0 is reported as INT32_MAX. It reads four bytes and masks the type off.
unfoldable pub header_size : List ℕ → ℕ
header_size header = let n = le_value (take 4 header) % 2 ^ 24 in if n == 0 then 2 ^ 31 - 1 else n

unfoldable pub header_type : List ℕ → ℕ
header_type header = get_or header 3 0

-- The header that `zeroDejavu`, `setSize` and `setType` write.
unfoldable pub make_header : ℕ → ℕ → List ℕ
make_header size type =
    (size % 256) ∷ (size / 2 ^ 8 % 256) ∷ (size / 2 ^ 16 % 256) ∷ type ∷ replicate 4 0

pub length-make_header : (size type : ℕ) → length (make_header size type) ≡ 8
unfolding make_header
length-make_header size type = refl

pub header_type-make_header :
    (size type : ℕ) (rest : List ℕ) → header_type (make_header size type ++ rest) ≡ type
unfolding header_type make_header
header_type-make_header size type rest = refl

-- The size that is read back is the size modulo 2 ^ 24, and INT32_MAX in place of 0, whatever
-- follows the header.
pub header_size-make_header :
    (size type : ℕ) (rest : List ℕ)
    → header_size (make_header size type ++ rest)
      ≡ (if size % 2 ^ 24 == 0 then 2 ^ 31 - 1 else size % 2 ^ 24)
unfolding header_size make_header le_value
header_size-make_header size type rest =
    let low : (size % 256
            + 256 * (size / 2 ^ 8 % 256 + 256 * (size / 2 ^ 16 % 256 + 256 * (type + 256 * 0))))
          % 2 ^ 24
        ≡ size % 2 ^ 24 =
      omega arith in
    rw low refl

pub header_size-bounds :
    (header : List ℕ) → (0 < header_size header) × (header_size header < 2 ^ 31)
unfolding header_size
header_size-bounds header = ground arith

-- Four bytes fix the size.
pub header_size-append :
    (buf rest : List ℕ) → 4 ≤ length buf → header_size (buf ++ rest) ≡ header_size buf
unfolding header_size
header_size-append (a ∷ b ∷ c ∷ d ∷ buf) rest h = refl
header_size-append [] rest h = absurd (omega arith)
header_size-append (a ∷ []) rest h = absurd (omega arith)
header_size-append (a ∷ b ∷ []) rest h = absurd (omega arith)
header_size-append (a ∷ b ∷ c ∷ []) rest h = absurd (omega arith)
