-- ===== src/HashUtil/Tests.antt =====
-- Runs of dispatcher/src/hash_util/hash_util.cpp on concrete text.
use doge_connect.HashUtil.Merkle.{
  Tree, leaf, node, leftmost, root, siblings, calculate_merkle_root-root,
}
use doge_connect.HashUtil.{
  calculate_merkle_root, little_endian, big_endian, hex_to_bytes, bytes_to_hex,
}
use doge_connect.HashUtil.Hex.{hex_to_bytes-bytes_to_hex, hex_to_bytes-IsBytes}
use doge_connect.Prelude.{ℕ, length, IsBytes, all_bytes-IsBytes, ◌≡◌, refl, List, [], ◌∷◌, reverse}

abbrev four_bytes : List ℕ
four_bytes = 0x69 ∷ 0x8d ∷ 0xa4 ∷ 0x7c ∷ []

hex_text : hex_to_bytes (bytes_to_hex four_bytes little_endian) little_endian ≡ four_bytes
hex_text = hex_to_bytes-bytes_to_hex four_bytes little_endian (all_bytes-IsBytes four_bytes refl)

-- "69 7", of four characters.
abbrev text : List ℕ
text = b'6' ∷ b'9' ∷ b' ' ∷ b'7' ∷ []

parsed_bytes : IsBytes (hex_to_bytes text big_endian) × (length (hex_to_bytes text big_endian) ≡ 2)
parsed_bytes = hex_to_bytes-IsBytes text big_endian

abbrev tree : Tree
tree = node (node (leaf (1 ∷ 2 ∷ 3 ∷ 4 ∷ [])) (leaf (5 ∷ []))) (leaf (6 ∷ []))

coinbase_is_leftmost : leftmost tree ≡ 1 ∷ 2 ∷ 3 ∷ 4 ∷ []
unfolding leftmost
coinbase_is_leftmost = refl

calculate_merkle_root-root_example :
    calculate_merkle_root reverse (1 ∷ []) (4 ∷ []) (2 ∷ []) (3 ∷ []) (siblings reverse tree)
    ≡ root reverse tree
calculate_merkle_root-root_example =
    calculate_merkle_root-root reverse tree (1 ∷ []) (4 ∷ []) (2 ∷ []) (3 ∷ []) coinbase_is_leftmost
