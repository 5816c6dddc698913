-- ===== src/KeyUtils/Tests.antt =====
-- An identity, and a tree of three leaves.
use doge_connect.KeyUtils.{
  public_key_from_identity, identity_from_public_key, check_sum_identity, digest_from_siblings,
}
use doge_connect.KeyUtils.Identity.{public_key_from_identity-identity_from_public_key}
use doge_connect.KeyUtils.Siblings.{
  Tree, leaf, node, here, left, right, root, index_of, siblings_of, digest_from_siblings-root,
}
use doge_connect.Prelude.{
  ℕ, take, replicate, all_bytes-IsBytes, ◌≡◌, refl, Bool, true, false, some, List, [], ◌∷◌, ◌++◌,
  reverse, arith,
}

abbrev key : List ℕ
key = replicate 16 255 ++ replicate 16 7

public_key_from_identity-identity_from_public_key_example :
    (public_key_from_identity (identity_from_public_key (take 3) key false) ≡ some key)
    × (check_sum_identity (take 3) (identity_from_public_key (take 3) key false) ≡ true)
public_key_from_identity-identity_from_public_key_example =
    public_key_from_identity-identity_from_public_key (take 3) key (all_bytes-IsBytes key refl) refl

abbrev inner : Tree
inner = node (leaf (1 ∷ [])) (leaf (2 ∷ []))

abbrev tree : Tree
tree = node inner (leaf (3 ∷ []))

abbrev path : List (Bool × List ℕ)
path = (true, root reverse (leaf (1 ∷ []))) ∷ (false, root reverse (leaf (3 ∷ []))) ∷ []

digest_from_siblings-root_example :
    digest_from_siblings reverse (2 ∷ []) (index_of path) (siblings_of path) ≡ root reverse tree
digest_from_siblings-root_example =
    digest_from_siblings-root reverse (2 ∷ []) tree path (omega arith) (
      left inner (leaf (3 ∷ [])) ((true, root reverse (leaf (1 ∷ []))) ∷ [])
        (right (leaf (1 ∷ [])) (leaf (2 ∷ [])) [] here))
