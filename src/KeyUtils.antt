-- ===== src/KeyUtils.antt =====
-- dispatcher/src/crypto/key_utils.cpp: identities, the text form of public keys, and digests from
-- siblings. KangarooTwelve is a parameter.
pub mod Identity
pub mod Siblings
mod Tests
use doge_connect.Prelude.{
  ℕ, ltb, leb, ◌==◌, if◌then◌else◌, ltb→lt, lt→ltb, leb→le, ==_iff, tests, Bool-cases, Option-cases,
  ◌>>=◌, length, get_elem?, set, length-append, length-set, get_elem?-set_self, get_elem?-set_ne,
  get_or, take, drop, replicate, take-append-drop, length-take, length-drop, take-all,
  length-reverse, take-append, drop-append, drop-drop, take-append_le, drop-append_le, get_or-drop,
  length-replicate, length-map, All, All-append, IsBytes, le_value, to_le, le_value-nil,
  le_value-cons, length-to_le, to_le-IsBytes, le_value-lt, le_value-lt_pow, le_value-to_le,
  to_le-le_value, le_value-append, le_value-take-suc, le_value-take-add, le_value-replicate,
  get_or-replicate, get_or-set_ne, take-IsBytes, drop-IsBytes, get_or-lt_byte, append-IsBytes,
  le_value-set, prefix-lt, reverse-IsBytes, all_bytes, all_bytes-IsBytes, bit_or_disjoint,
  bit_and_bit, zero, suc, ◌+◌, ◌-◌, ◌*◌, ◌/◌, ◌%◌, ◌^◌, ◌≤◌, ◌<◌, min, bit_and, bit_or, ◌≡◌, refl,
  sym, ap, ap₂, ◌∙◌, ◌≢◌, ◌↔◌, ◌⊎◌, inl, inr, Bool, true, false, not, ◌&&◌, ◌||◌, Option, none,
  some, List, [], ◌∷◌, ◌++◌, map, foldl, reverse, append_assoc, append-nil, arith,
}

-- `n` letters of a fragment, from the lowest digit to base 26 on; `first` is the letter of 0.
pub letters : (first n v : ℕ) → List ℕ
letters first zero v = []
letters first (suc n) v = (v % 26 + first) ∷ letters first n (v / 26)

-- Fourteen letters for each fragment of 8 bytes.
pub fragments : (first n : ℕ) → List ℕ → List ℕ
fragments first zero key = []
fragments first (suc n) key =
    letters first 14 (le_value (take 8 key)) ++ fragments first n (drop 8 key)

abbrev pub first_letter : Bool → ℕ
first_letter is_lower_case = if is_lower_case then b'a' else b'A'

-- The loop over the letters of a fragment, from the last to the first; `none` is the early return.
pub read_letters : List ℕ → Option ℕ
read_letters [] = some 0
read_letters (c ∷ cs) = elim (read_letters cs) [
  | none ↦ none
  | some v ↦ if ltb c b'A' || ltb b'Z' c then none else some ((v * 26 + (c - b'A')) % 2 ^ 64)
]

pub read_fragments : ℕ → List ℕ → Option (List ℕ)
read_fragments zero identity = some []
read_fragments (suc n) identity = elim (read_letters (take 14 identity)) [
  | none ↦ none
  | some v ↦ elim (read_fragments n (drop 14 identity)) [
    | none ↦ none
    | some rest ↦ some (to_le 8 v ++ rest)
  ]
]

-- `getPublicKeyFromIdentity`; at `none` the output is left as it was.
pub public_key_from_identity : List ℕ → Option (List ℕ)
public_key_from_identity identity = read_fragments 4 identity

-- The loop that compares the letters of the checksum.
pub check_letters : ℕ → ℕ → List ℕ → Bool
check_letters zero checksum cs = true
check_letters (suc n) checksum cs =
    if not (checksum % 26 + b'A' == get_or cs 0 0)
    then false
    else check_letters n (checksum / 26) (drop 1 cs)

-- `k12_3 key` is `KangarooTwelve(key, 32, out, 3)`.
module _ (k12_3 : List ℕ → List ℕ) where
  -- The mask 0x3FFFF keeps 18 bits, all of which are written.
  pub checksum : List ℕ → ℕ
  checksum key = le_value (take 3 (k12_3 key)) % 2 ^ 18

  -- `getIdentityFromPublicKey`.
  pub identity_from_public_key : List ℕ → Bool → List ℕ
  identity_from_public_key key is_lower_case =
      fragments (first_letter is_lower_case) 4 key
      ++ letters (first_letter is_lower_case) 4 (checksum key)

  -- `getTxHashFromDigest`.
  pub tx_hash_from_digest : List ℕ → List ℕ
  tx_hash_from_digest digest = identity_from_public_key digest true

  -- `checkSumIdentity`.
  pub check_sum_identity : List ℕ → Bool
  check_sum_identity identity = elim (read_fragments 4 identity) [
    | none ↦ false
    | some key ↦ check_letters 4 (checksum key) (drop 56 identity)
  ]

-- The loop of `getDigestFromSiblings`: at an odd index the sibling is the left node.
-- The index only gets smaller.
module _ (k12 : List ℕ → List ℕ) where
  pub climb : ℕ → List ℕ → List (List ℕ) → List ℕ
  climb index digest [] = digest
  climb index digest (sibling ∷ siblings) =
      climb (index / 2) (k12 (if index % 2 == 1 then sibling ++ digest else digest ++ sibling))
        siblings

  -- `inputIndex` is an `unsigned int`.
  pub digest_from_siblings : List ℕ → ℕ → List (List ℕ) → List ℕ
  digest_from_siblings input index siblings = climb (index % 2 ^ 32) (k12 input) siblings
