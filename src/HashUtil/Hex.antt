-- ===== src/HashUtil/Hex.antt =====
-- Hexadecimal text and bytes, there and back.
use mathlib.Core.List.{reverse-reverse}
use doge_connect.HashUtil.{
  ByteArrayFormat, little_endian, big_endian, hex_digit, strtol_digits, strtol_prefix, strtol_sign,
  strtol_hex, to_u8, hex_pairs, hex_to_bytes, hex_char, byte_to_hex, bytes_hex, bytes_to_hex,
  Parsed,
}
use doge_connect.Prelude.{
  ◌==◌, ==_iff, length, IsBytes, ℕ, zero, suc, ◌*◌, ◌/◌, ◌<◌, ◌≡◌, refl, ap, ap₂, ◌∙◌, Bool, true,
  List, [], ◌∷◌, reverse, arith, length-reverse, reverse-IsBytes, leb, if◌then◌else◌, Bool-cases,
  ◌+◌, ◌≤◌, inl, inr, false,
}

rereads : ℕ → Bool
rereads b = to_u8 (strtol_hex (byte_to_hex b)) == b

-- The bytes from `least` on, `count` of them, all read back as themselves.
reread_from : (least count : ℕ) → Bool
reread_from least zero = true
reread_from least (suc count) = if rereads least then reread_from (suc least) count else false

reread_from_holds :
    (least count b : ℕ)
    → least ≤ b
    → b < least + count
    → reread_from least count ≡ true
    → rereads b ≡ true
unfolding reread_from
reread_from_holds least zero b low high table = absurd (omega arith)
reread_from_holds least (suc count) b low high table = elim (Bool-cases (rereads least)) [
  | inr bad ↦ let no_table = rw bad at table in cc
  | inl good ↦
      let others = rw good at table in
      elim (Bool-cases (leb b least)) [
        | inl first ↦ let same : b ≡ least = ground arith in rw same good
        | inr later ↦ reread_from_holds (suc least) count b (ground arith) (omega arith) others
      ]
]

every_byte : reread_from 0 256 ≡ true
unfolding reread_from rereads to_u8 strtol_hex strtol_sign strtol_prefix strtol_digits hex_digit
    byte_to_hex hex_char
every_byte = refl

to_u8-byte_to_hex : (b : ℕ) → b < 256 → to_u8 (strtol_hex (byte_to_hex b)) ≡ b
unfolding rereads
to_u8-byte_to_hex b h =
    (==_iff _ b).0 (reread_from_holds 0 256 b (omega arith) (omega arith) every_byte)

hex_pairs-bytes_hex : (bs : List ℕ) → IsBytes bs → hex_pairs (bytes_hex bs) ≡ bs
unfolding hex_pairs bytes_hex byte_to_hex
hex_pairs-bytes_hex [] h = refl
hex_pairs-bytes_hex (b ∷ bs) h =
    ap₂ ◌∷◌ (unfold byte_to_hex in to_u8-byte_to_hex b h.0) (hex_pairs-bytes_hex bs h.1)

-- Text printed from bytes reads back as those bytes, in either format.
pub hex_to_bytes-bytes_to_hex :
    (bs : List ℕ) (format : ByteArrayFormat)
    → IsBytes bs
    → hex_to_bytes (bytes_to_hex bs format) format ≡ bs
unfolding hex_to_bytes bytes_to_hex
hex_to_bytes-bytes_to_hex bs big_endian h = hex_pairs-bytes_hex bs h
hex_to_bytes-bytes_to_hex bs little_endian h =
    ap reverse (hex_pairs-bytes_hex (reverse bs) (reverse-IsBytes bs h)) ∙ reverse-reverse bs

to_u8-lt : (p : Parsed) → to_u8 p < 256
unfolding to_u8
to_u8-lt p = ground arith

hex_pairs-IsBytes :
    (hex : List ℕ) → IsBytes (hex_pairs hex) × (length (hex_pairs hex) ≡ length hex / 2)
unfolding hex_pairs
hex_pairs-IsBytes [] = (tt, omega arith)
hex_pairs-IsBytes (a ∷ []) = (tt, omega arith)
hex_pairs-IsBytes (a ∷ b ∷ rest) =
    let ih = hex_pairs-IsBytes rest in ((to_u8-lt _, ih.0), omega (arith, ih.1))

-- Any text, in either format, gives bytes, half as many as it has characters.
pub hex_to_bytes-IsBytes :
    (hex : List ℕ) (format : ByteArrayFormat)
    → IsBytes (hex_to_bytes hex format) × (length (hex_to_bytes hex format) ≡ length hex / 2)
unfolding hex_to_bytes
hex_to_bytes-IsBytes hex big_endian = hex_pairs-IsBytes hex
hex_to_bytes-IsBytes hex little_endian =
    (reverse-IsBytes _ (hex_pairs-IsBytes hex).0, length-reverse _ ∙ (hex_pairs-IsBytes hex).1)

length-bytes_hex : (bs : List ℕ) → length (bytes_hex bs) ≡ 2 * length bs
unfolding bytes_hex byte_to_hex
length-bytes_hex [] = refl
length-bytes_hex (b ∷ bs) = omega (arith, length-bytes_hex bs)

pub length-bytes_to_hex : (bs : List ℕ) → length (bytes_to_hex bs big_endian) ≡ 2 * length bs
unfolding bytes_to_hex
length-bytes_to_hex bs = length-bytes_hex bs
