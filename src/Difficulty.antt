-- ===== src/Difficulty.antt =====
-- Mining targets: dispatcher/src/hash_util/difficulty.{h,cpp} and `verifyHashVsTarget` of
-- dispatcher/src/hash_util/hash_util.cpp. A `std::array<uint8_t, n>` is a list of numbers.
mod OrBytes
pub mod Compact
pub mod Precision
pub mod Divide
pub mod Compare
pub mod Stricter
pub mod Base
mod Tests
use doge_connect.Prelude.{
  ℕ, zero, suc, ◌+◌, ◌-◌, ◌*◌, ◌/◌, ◌%◌, ◌^◌, bit_and, bit_or, Bool, true, false, List, [], ◌∷◌,
  ◌++◌, ltb, leb, ◌==◌, not, if◌then◌else◌, get_or, set, replicate, take, drop, to_le, ltb→lt,
  lt→ltb, leb→le, ==_iff, tests, Bool-cases, Option-cases, ◌>>=◌, length, get_elem?, length-append,
  length-set, get_elem?-set_self, get_elem?-set_ne, take-append-drop, length-take, length-drop,
  take-all, length-reverse, take-append, drop-append, drop-drop, take-append_le, drop-append_le,
  get_or-drop, length-replicate, length-map, All, All-append, IsBytes, le_value, le_value-nil,
  le_value-cons, length-to_le, to_le-IsBytes, le_value-lt, le_value-lt_pow, le_value-to_le,
  to_le-le_value, le_value-append, le_value-take-suc, le_value-take-add, le_value-replicate,
  get_or-replicate, get_or-set_ne, take-IsBytes, drop-IsBytes, get_or-lt_byte, append-IsBytes,
  le_value-set, prefix-lt, reverse-IsBytes, all_bytes, all_bytes-IsBytes, bit_or_disjoint,
  bit_and_bit, ◌≤◌, ◌<◌, min, ◌≡◌, refl, sym, ap, ap₂, ◌∙◌, ◌≢◌, ◌↔◌, ◌⊎◌, inl, inr, ◌&&◌, ◌||◌,
  Option, none, some, map, foldl, reverse, append_assoc, append-nil, arith,
}

-- `word |= byte << (8 * j)` for the bytes from index `j` on.
pub or_bytes : ℕ → ℕ → List ℕ → ℕ
or_bytes word j [] = word
or_bytes word j (b ∷ bs) = or_bytes (bit_or word (b * 2 ^ (8 * j))) (j + 1) bs

-- One round of the loop that copies the mantissa: `target_idx = exponent - 3 + i` is signed.
pub put_byte : ℕ → ℕ → ℕ → List ℕ → List ℕ
put_byte exponent i b full =
    if leb 3 (exponent + i)
    then (if ltb (exponent + i - 3) 32 then set full (exponent + i - 3) b else full)
    else full

-- `calculateFullRepFromCompactRep`.
pub full_of_compact : List ℕ → List ℕ
full_of_compact compact =
    let exponent = get_or compact 3 0 in
    put_byte exponent 2 (get_or compact 2 0) (
      put_byte exponent 1 (get_or compact 1 0)
        (put_byte exponent 0 (get_or compact 0 0) (replicate 32 0)))

-- The loop from `i = n - 1` down to 0 for the index of the most significant byte, plus one.
pub find_exponent : ℕ → List ℕ → ℕ
find_exponent zero full = 0
find_exponent (suc i) full = if get_or full i 0 == 0 then find_exponent i full else suc i

pub record Scaled : Type 0 where
  pub mantissa : ℕ
  pub exponent : ℕ

-- The three bytes below the exponent, or the three lowest.
pub take_mantissa : List ℕ → Scaled
take_mantissa full =
    let exponent = find_exponent 32 full in
    if leb exponent 3
    then record { mantissa = or_bytes 0 0 (take 3 full); exponent = 3 }
    else record { mantissa = or_bytes 0 0 (take 3 (drop (exponent - 3) full)); exponent = exponent }

-- The "sign bit" rule.
pub avoid_sign : Scaled → Scaled
avoid_sign s =
    if not (bit_and s.mantissa 0x0080_0000 == 0)
    then record { mantissa = s.mantissa / 2 ^ 8; exponent = s.exponent + 1 }
    else s

-- `calculateCompactRepFromFullRep`.
pub compact_of_full : List ℕ → List ℕ
compact_of_full full =
    let s = avoid_sign (take_mantissa full) in
    s.mantissa % 256 ∷ s.mantissa / 2 ^ 8 % 256 ∷ s.mantissa / 2 ^ 16 % 256 ∷ s.exponent % 256 ∷ []

-- The 64-bit words of the target, least significant first.
pub read_words : ℕ → List ℕ → List ℕ
read_words zero bytes = []
read_words (suc n) bytes = or_bytes 0 0 (take 8 bytes) ∷ read_words n (drop 8 bytes)

pub record Division : Type 0 where
  pub quotients : List ℕ
  pub remainder : ℕ

-- One round: `current` is the 128-bit `(remainder << 64) | word`.
pub divide_word : ℕ → ℕ → Division → Division
divide_word difficulty word above =
    let current = bit_or word (above.remainder * 2 ^ 64) in
    record {
      quotients = (current / difficulty % 2 ^ 64) ∷ above.quotients;
      remainder = current % difficulty % 2 ^ 64;
    }

-- The long division goes from the last word, the most significant, to the first.
pub divide_words : ℕ → List ℕ → Division
divide_words difficulty [] = record { quotients = []; remainder = 0 }
divide_words difficulty (word ∷ words) = divide_word difficulty word (divide_words difficulty words)

pub write_words : List ℕ → List ℕ
write_words [] = []
write_words (word ∷ words) = to_le 8 word ++ write_words words

-- `divideTarget`.
pub divide_target : List ℕ → ℕ → List ℕ
divide_target base difficulty =
    if leb difficulty 1
    then base
    else write_words (divide_words difficulty (read_words 4 base)).quotients

-- `verifyHashVsTarget`: the loop from `i = n - 1` down to 0.
unfoldable pub verify_from : ℕ → List ℕ → List ℕ → Bool
verify_from zero hash target = true
verify_from (suc i) hash target =
    if ltb (get_or hash i 0) (get_or target i 0)
    then true
    else if ltb (get_or target i 0) (get_or hash i 0)
    then false
    else verify_from i hash target

unfoldable pub verify_hash_vs_target : List ℕ → List ℕ → Bool
verify_hash_vs_target = verify_from 32

-- The class `DifficultyTarget` with its two constructors and `div`.
pub record DifficultyTarget : Type 0 where
  pub compact_rep : List ℕ
  pub full_rep : List ℕ

pub of_compact_rep : List ℕ → DifficultyTarget
of_compact_rep compact = record { compact_rep = compact; full_rep = full_of_compact compact }

unfoldable pub of_full_rep : List ℕ → DifficultyTarget
of_full_rep full = record { compact_rep = compact_of_full full; full_rep = full }

pub div : DifficultyTarget → ℕ → DifficultyTarget
div d divisor =
    let full = divide_target d.full_rep divisor in
    record { compact_rep = compact_of_full full; full_rep = full }
