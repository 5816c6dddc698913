-- ===== src/HashUtil.antt =====
-- dispatcher/src/hash_util/hash_util.{h,cpp}, but for `verifyHashVsTarget` (see Difficulty.antt).
-- A `std::string` is the list of its character codes, a byte array a list of numbers. SHA-256 is a
-- parameter.
pub mod Hex
pub mod Merkle
mod Tests
use doge_connect.Prelude.{
  ℕ, ltb, leb, ◌==◌, if◌then◌else◌, ltb→lt, lt→ltb, leb→le, ==_iff, tests, Bool-cases, Option-cases,
  length, get_elem?, set, length-append, length-set, get_elem?-set_self, get_elem?-set_ne, get_or,
  take, drop, replicate, take-append-drop, length-take, length-drop, take-all, take-append,
  drop-append, get_or-drop, length-replicate, length-map, All, IsBytes, le_value, to_le,
  le_value-nil, le_value-cons, length-to_le, to_le-IsBytes, le_value-lt, le_value-lt_pow,
  le_value-to_le, to_le-le_value, le_value-append, le_value-take-suc, le_value-take-add,
  le_value-replicate, get_or-replicate, get_or-set_ne, take-IsBytes, drop-IsBytes, get_or-lt_byte,
  append-IsBytes, le_value-set, prefix-lt, bit_or_disjoint, bit_and_bit, zero, suc, ◌+◌, ◌-◌, ◌*◌,
  ◌/◌, ◌%◌, ◌^◌, ◌≤◌, ◌<◌, min, bit_and, bit_or, ◌≡◌, refl, sym, ap, ap₂, ◌∙◌, ◌≢◌, ◌↔◌, ◌⊎◌, inl,
  inr, Bool, true, false, not, ◌&&◌, ◌||◌, Option, none, some, List, [], ◌∷◌, ◌++◌, map, foldl,
  reverse, append_assoc, append-nil, arith,
}

pub data ByteArrayFormat : Type 0 where
  little_endian big_endian : ByteArrayFormat

pub hex_digit : ℕ → Option ℕ
hex_digit c =
    if leb b'0' c && leb c b'9'
    then some (c - b'0')
    else if leb b'a' c && leb c b'f'
    then some (c - b'a' + 10)
    else if leb b'A' c && leb c b'F'
    then some (c - b'A' + 10)
    else none

abbrev is_space : ℕ → Bool
is_space c = c == b' ' || leb 9 c && leb c 13

-- The standard `strtol(s, NULL, 16)`, as far as two characters reach: a sign and a magnitude.
pub record Parsed : Type 0 where
  pub negative : Bool
  pub magnitude : ℕ

pub strtol_digits : ℕ → List ℕ → ℕ
strtol_digits acc [] = acc
strtol_digits acc (c ∷ cs) = elim (hex_digit c) [
  | none ↦ acc
  | some d ↦ strtol_digits (acc * 16 + d) cs
]

-- A prefix "0x" is skipped if a digit follows; otherwise the 0 is the number.
pub strtol_prefix : List ℕ → ℕ
strtol_prefix (z ∷ x ∷ c ∷ cs) =
    if z == b'0' && (x == b'x' || x == b'X')
    then elim (hex_digit c) [ none ↦ 0 | some d ↦ strtol_digits 0 (c ∷ cs) ]
    else strtol_digits 0 (z ∷ x ∷ c ∷ cs)
strtol_prefix cs = strtol_digits 0 cs

pub strtol_sign : List ℕ → Parsed
strtol_sign [] = record { negative = false; magnitude = 0 }
strtol_sign (c ∷ cs) =
    if c == b'-'
    then record { negative = true; magnitude = strtol_prefix cs }
    else if c == b'+'
    then record { negative = false; magnitude = strtol_prefix cs }
    else record { negative = false; magnitude = strtol_prefix (c ∷ cs) }

pub strtol_hex : List ℕ → Parsed
strtol_hex [] = strtol_sign []
strtol_hex (c ∷ cs) = if is_space c then strtol_hex cs else strtol_sign (c ∷ cs)

-- The cast to `uint8_t`.
pub to_u8 : Parsed → ℕ
to_u8 p = if p.negative then (256 - p.magnitude % 256) % 256 else p.magnitude % 256

-- The loop over the pairs of characters; an odd last character is left out.
unfoldable pub hex_pairs : List ℕ → List ℕ
hex_pairs [] = []
hex_pairs (a ∷ []) = []
hex_pairs (a ∷ b ∷ rest) = to_u8 (strtol_hex (a ∷ b ∷ [])) ∷ hex_pairs rest

-- `hexToBytes`.
unfoldable pub hex_to_bytes : List ℕ → ByteArrayFormat → List ℕ
hex_to_bytes hex big_endian = hex_pairs hex
hex_to_bytes hex little_endian = reverse (hex_pairs hex)

unfoldable pub hex_char : ℕ → ℕ
hex_char d = if ltb d 10 then b'0' + d else b'a' + (d - 10)

-- A byte under `std::hex`, `setfill('0')` and `setw(2)`.
unfoldable pub byte_to_hex : ℕ → List ℕ
byte_to_hex b = hex_char (b / 16) ∷ hex_char (b % 16) ∷ []

unfoldable pub bytes_hex : List ℕ → List ℕ
bytes_hex [] = []
bytes_hex (b ∷ bs) = byte_to_hex b ++ bytes_hex bs

-- `bytesToHex`.
unfoldable pub bytes_to_hex : List ℕ → ByteArrayFormat → List ℕ
bytes_to_hex bytes big_endian = bytes_hex bytes
bytes_to_hex bytes little_endian = bytes_hex (reverse bytes)

module _ (sha256 : List ℕ → List ℕ) where
  -- `doubleSHA256`.
  pub double_sha256 : List ℕ → List ℕ
  double_sha256 bytes = sha256 (sha256 bytes)

  -- The loop over the branches; the running hash is always on the left.
  pub merkle_fold : List ℕ → List (List ℕ) → List ℕ
  merkle_fold current [] = current
  merkle_fold current (branch ∷ branches) = merkle_fold (double_sha256 (current ++ branch)) branches

  -- `calculateMerkleRoot`.
  pub calculate_merkle_root :
      (coinbase1 coinbase2 extra_nonce1 extra_nonce2 : List ℕ) → List (List ℕ) → List ℕ
  calculate_merkle_root coinbase1 coinbase2 extra_nonce1 extra_nonce2 branches =
      let coinbase = ((coinbase1 ++ extra_nonce1) ++ extra_nonce2) ++ coinbase2 in
      merkle_fold (double_sha256 coinbase) branches
