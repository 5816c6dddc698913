-- ===== src/HashUtil/Merkle.antt =====
-- `calculateMerkleRoot` against Merkle trees.
use doge_connect.HashUtil.{double_sha256, merkle_fold, calculate_merkle_root}
use doge_connect.Prelude.{ℕ, ◌≡◌, refl, sym, ap, ◌∙◌, List, [], ◌∷◌, ◌++◌, append_assoc, length}

-- A tree of transactions, each given by its bytes.
pub data Tree : Type 0 where
  leaf : List ℕ → Tree
  node : Tree → Tree → Tree

-- The leftmost transaction.
unfoldable pub leftmost : Tree → List ℕ
leftmost (leaf tx) = tx
leftmost (node l r) = leftmost l

module _ (sha256 : List ℕ → List ℕ) where
  pub root : Tree → List ℕ
  root (leaf tx) = double_sha256 sha256 tx
  root (node l r) = double_sha256 sha256 (root l ++ root r)

  -- The hashes beside the leftmost path, from the bottom up.
  pub siblings : Tree → List (List ℕ)
  siblings (leaf tx) = []
  siblings (node l r) = siblings l ++ root r ∷ []

  merkle_fold-snoc :
      (hash branch : List ℕ) (branches : List (List ℕ))
      → merkle_fold sha256 hash (branches ++ branch ∷ [])
        ≡ double_sha256 sha256 (merkle_fold sha256 hash branches ++ branch)
  unfolding merkle_fold
  merkle_fold-snoc hash branch [] = refl
  merkle_fold-snoc hash branch (b ∷ bs) =
      merkle_fold-snoc (double_sha256 sha256 (hash ++ b)) branch bs

  merkle_fold-siblings :
      (t : Tree) → merkle_fold sha256 (double_sha256 sha256 (leftmost t)) (siblings t) ≡ root t
  unfolding root siblings leftmost merkle_fold
  merkle_fold-siblings (leaf tx) = refl
  merkle_fold-siblings (node l r) =
      merkle_fold-snoc (double_sha256 sha256 (leftmost l)) (root r) (siblings l)
      ∙ ap (λ h. double_sha256 sha256 (h ++ root r)) (merkle_fold-siblings l)

  -- What is calculated from the hashes beside the leftmost path of a tree is the root of that tree,
  -- if its leftmost transaction is the coinbase: coinbase1, extraNonce1, extraNonce2 and coinbase2.
  pub calculate_merkle_root-root :
      (t : Tree) (coinbase1 coinbase2 extra_nonce1 extra_nonce2 : List ℕ)
      → leftmost t ≡ coinbase1 ++ (extra_nonce1 ++ (extra_nonce2 ++ coinbase2))
      → calculate_merkle_root sha256 coinbase1 coinbase2 extra_nonce1 extra_nonce2 (siblings t)
        ≡ root t
  unfolding calculate_merkle_root
  calculate_merkle_root-root t c1 c2 e1 e2 h =
      let order : ((c1 ++ e1) ++ e2) ++ c2 ≡ c1 ++ (e1 ++ (e2 ++ c2)) = simp append_assoc in
      ap (λ tx. merkle_fold sha256 (double_sha256 sha256 tx) (siblings t)) (order ∙ sym h)
      ∙ merkle_fold-siblings t

module _ (sha256 : List ℕ → List ℕ) (digest : (b : List ℕ) → length (sha256 b) ≡ 32) where
  length-merkle_fold :
      (hash : List ℕ) (branches : List (List ℕ))
      → length hash ≡ 32
      → length (merkle_fold sha256 hash branches) ≡ 32
  unfolding merkle_fold double_sha256
  length-merkle_fold hash [] h = h
  length-merkle_fold hash (b ∷ bs) h =
      length-merkle_fold (double_sha256 sha256 (hash ++ b)) bs (digest (sha256 (hash ++ b)))

  pub length-calculate_merkle_root :
      (coinbase1 coinbase2 extra_nonce1 extra_nonce2 : List ℕ) (branches : List (List ℕ))
      → length (calculate_merkle_root sha256 coinbase1 coinbase2 extra_nonce1 extra_nonce2 branches)
        ≡ 32
  unfolding calculate_merkle_root double_sha256
  length-calculate_merkle_root c1 c2 e1 e2 branches =
      length-merkle_fold (double_sha256 sha256 (((c1 ++ e1) ++ e2) ++ c2)) branches (digest _)
