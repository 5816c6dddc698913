-- ===== src/Difficulty/Stricter.antt =====
-- The compact form of a target, which the miner has, against the target, which the dispatcher has.
use doge_connect.Difficulty.{put_byte, full_of_compact, compact_of_full, verify_hash_vs_target}
use doge_connect.Difficulty.Compact.{length-full_of_compact}
use doge_connect.Difficulty.Compare.{verify_hash_vs_target-iff-le}
use doge_connect.Difficulty.Precision.{compact_of_full-approximates}
use doge_connect.Prelude.{
  ℕ, ltb, leb, Bool-cases, length, set, get_or, replicate, IsBytes, get_or-lt_byte,
  all_bytes-IsBytes, zero, suc, ◌+◌, ◌-◌, ◌<◌, ◌≡◌, refl, inl, inr, true, List, [], ◌∷◌, arith,
}

set-IsBytes : (xs : List ℕ) (i v : ℕ) → IsBytes xs → v < 256 → IsBytes (set xs i v)
set-IsBytes [] i v h small = h
set-IsBytes (x ∷ xs) zero v h small = (small, h.1)
set-IsBytes (x ∷ xs) (suc i) v h small = (h.0, set-IsBytes xs i v h.1 small)

put_byte-IsBytes :
    (e i b : ℕ) (full : List ℕ) → b < 256 → IsBytes full → IsBytes (put_byte e i b full)
unfolding put_byte
put_byte-IsBytes e i b full small h = elim (Bool-cases (leb 3 (e + i))) [
  | inr below ↦ rw below h
  | inl above ↦ elim (Bool-cases (ltb (e + i - 3) 32)) [
    | inl inside ↦ rw (above, inside) (set-IsBytes full (e + i - 3) b h small)
    | inr outside ↦ rw (above, outside) h
  ]
]

pub full_of_compact-IsBytes :
    (compact : List ℕ) → IsBytes compact → IsBytes (full_of_compact compact)
unfolding full_of_compact
full_of_compact-IsBytes compact h =
    let e = get_or compact 3 0 in
    let zeros : IsBytes (replicate 32 0) = all_bytes-IsBytes (replicate 32 0) refl in
    let byte : (i : ℕ) → get_or compact i 0 < 256 = λ i. get_or-lt_byte compact i h in
    put_byte-IsBytes e 2 (get_or compact 2 0)
      (put_byte e 1 (get_or compact 1 0) (put_byte e 0 (get_or compact 0 0) (replicate 32 0)))
      (byte 2)
      (put_byte-IsBytes e 1 (get_or compact 1 0)
        (put_byte e 0 (get_or compact 0 0) (replicate 32 0)) (byte 1)
        (put_byte-IsBytes e 0 (get_or compact 0 0) (replicate 32 0) (byte 0) zeros))

pub compact_of_full-IsBytes : (full : List ℕ) → IsBytes (compact_of_full full)
unfolding compact_of_full
compact_of_full-IsBytes full = (omega arith, (omega arith, (omega arith, (omega arith, tt))))

pub length-compact_of_full : (full : List ℕ) → length (compact_of_full full) ≡ 4
unfolding compact_of_full
length-compact_of_full full = refl

-- A hash that passes the compact form of a target passes the target.
pub verify_hash_vs_target-compact :
    (hash full : List ℕ)
    → IsBytes hash
    → IsBytes full
    → length hash ≡ 32
    → length full ≡ 32
    → verify_hash_vs_target hash (full_of_compact (compact_of_full full)) ≡ true
    → verify_hash_vs_target hash full ≡ true
verify_hash_vs_target-compact hash full bh bf lh lf passes =
    let coarse = full_of_compact (compact_of_full full) in
    let (below, close) = compact_of_full-approximates full bf lf in
    let bytes : IsBytes coarse =
      full_of_compact-IsBytes (compact_of_full full) (compact_of_full-IsBytes full) in
    let le =
      (verify_hash_vs_target-iff-le hash coarse bh bytes lh
          (length-full_of_compact (compact_of_full full))).0
        passes in
    (verify_hash_vs_target-iff-le hash full bh bf lh lf).1 (omega (arith, le, below))
