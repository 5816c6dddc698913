-- ===== src/Difficulty/Tests.antt =====
-- Runs of dispatcher/src/hash_util/difficulty.{h,cpp} on concrete targets.
use doge_connect.Difficulty.{full_of_compact, compact_of_full, divide_target, verify_hash_vs_target}
use doge_connect.Difficulty.Compact.{full_of_compact-value, mantissa_of}
use doge_connect.Difficulty.Precision.{compact_of_full-approximates}
use doge_connect.Difficulty.Divide.{divide_target-divides}
use doge_connect.Difficulty.Compare.{verify_hash_vs_target-iff-le}
use doge_connect.Prelude.{
  ℕ, length, replicate, IsBytes, le_value, all_bytes-IsBytes, ◌-◌, ◌*◌, ◌/◌, ◌^◌, ◌≤◌, ◌≡◌, refl,
  ◌↔◌, inl, true, List, [], ◌∷◌, ◌++◌, arith,
}

-- The base target: 0x0000ffff with 28 bytes of zeros below.
abbrev base : List ℕ
base = replicate 28 0 ++ (255 ∷ 255 ∷ 0 ∷ 0 ∷ [])

-- A target all of whose low bytes are set.
abbrev precise : List ℕ
precise = replicate 28 255 ++ (128 ∷ 0 ∷ 0 ∷ 0 ∷ [])

low_compact :
    le_value (full_of_compact (0xf0 ∷ 0xff ∷ 0x0f ∷ 0x1e ∷ []))
    ≡ mantissa_of 0xf0 0xff 0x0f * 256 ^ (0x1e - 3) / 256 ^ (3 - 0x1e)
low_compact =
    full_of_compact-value 0xf0 0xff 0x0f 0x1e (omega arith) (omega arith) (omega arith)
      (inl (omega arith))

compact_of_full-approximates_example :
    let t = le_value (full_of_compact (compact_of_full precise)) in
    (t ≤ le_value precise) × ((le_value precise - t) * 32768 ≤ le_value precise)
compact_of_full-approximates_example =
    compact_of_full-approximates precise (all_bytes-IsBytes precise refl) refl

divide_target-divides_example :
    (le_value (divide_target base 65536) ≡ le_value base / 65536)
    × IsBytes (divide_target base 65536)
    × (length (divide_target base 65536) ≡ 32)
divide_target-divides_example =
    divide_target-divides base 65536 (all_bytes-IsBytes base refl) refl (omega arith) (omega arith)

verify_hash_vs_target-iff-le_example :
    (verify_hash_vs_target precise base ≡ true) ↔ (le_value precise ≤ le_value base)
verify_hash_vs_target-iff-le_example =
    verify_hash_vs_target-iff-le precise base (all_bytes-IsBytes precise refl)
      (all_bytes-IsBytes base refl) refl refl
