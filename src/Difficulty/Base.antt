-- ===== src/Difficulty/Base.antt =====
-- The compact target 0x1f00ffff, which main gives to the threads.
use doge_connect.Prelude.{ℕ, ◌≡◌, refl, List, [], ◌∷◌}
use doge_connect.Difficulty.{
  of_compact_rep, full_of_compact, compact_of_full, put_byte, find_exponent, take_mantissa,
  avoid_sign, or_bytes,
}

abbrev pub base_compact : List ℕ
base_compact = 255 ∷ 255 ∷ 0 ∷ 31 ∷ []

pub of_compact_rep-full_rep :
    (compact : List ℕ) → (of_compact_rep compact).full_rep ≡ full_of_compact compact
unfolding of_compact_rep
of_compact_rep-full_rep compact = refl

-- It is what the compact form of its full form gives back.
pub compact_of_full-base :
    (of_compact_rep base_compact).compact_rep
    ≡ compact_of_full (of_compact_rep base_compact).full_rep
unfolding of_compact_rep full_of_compact compact_of_full put_byte find_exponent take_mantissa
    avoid_sign or_bytes
compact_of_full-base = refl
