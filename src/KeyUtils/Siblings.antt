-- ===== src/KeyUtils/Siblings.antt =====
-- Digests from siblings, against trees.
use doge_connect.KeyUtils.{climb, digest_from_siblings}
use doge_connect.Prelude.{
  ℕ, Bool, true, false, List, [], ◌∷◌, ◌++◌, ◌==◌, if◌then◌else◌, ◌+◌, ◌*◌, ◌/◌, ◌%◌, ◌≡◌, refl,
  sym, ap, ap₂, ◌∙◌, arith, length, ◌^◌, ◌≤◌, ◌<◌,
}
use native.Mathlib.Nat.{pow-le-pow_right, pow-suc}

-- A tree of digests, each leaf the text that it is the digest of.
pub data Tree : Type 0 where
  leaf : List ℕ → Tree
  node : Tree → Tree → Tree

module _ (k12 : List ℕ → List ℕ) where
  pub root : Tree → List ℕ
  root (leaf text) = k12 text
  root (node l r) = k12 (root l ++ root r)

  -- The leaf `text` lies in the tree at the path, from the leaf up: whether it comes from the
  -- right, with the digest of the sibling.
  pub data At (text : List ℕ) : Tree → List (Bool × List ℕ) → Type 0 where
    here : At text (leaf text) []
    left :
        (l r : Tree) (path : List (Bool × List ℕ))
        → At text l path
        → At text (node l r) (path ++ (false, root r) ∷ [])
    right :
        (l r : Tree) (path : List (Bool × List ℕ))
        → At text r path
        → At text (node l r) (path ++ (true, root l) ∷ [])

abbrev bit : Bool → ℕ
bit is_right = if is_right then 1 else 0

-- The index of the leaf at a path, and the siblings along it.
pub index_of : List (Bool × List ℕ) → ℕ
index_of [] = 0
index_of ((is_right, sibling) ∷ path) = bit is_right + 2 * index_of path

pub siblings_of : List (Bool × List ℕ) → List (List ℕ)
siblings_of [] = []
siblings_of ((is_right, sibling) ∷ path) = sibling ∷ siblings_of path

abbrev beside : Bool → List ℕ → List ℕ → List ℕ
beside is_right sibling digest = if is_right then sibling ++ digest else digest ++ sibling

lowest_bit :
    (is_right : Bool) (n : ℕ)
    → ((bit is_right + 2 * n) / 2 ≡ n) × (((bit is_right + 2 * n) % 2 == 1) ≡ is_right)
lowest_bit true n = (omega arith, ground arith)
lowest_bit false n = (omega arith, ground arith)

module _ (k12 : List ℕ → List ℕ) where
  climb-cons :
      (is_right : Bool) (sibling digest : List ℕ) (path : List (Bool × List ℕ))
      → climb k12
          (index_of ((is_right, sibling) ∷ path))
          digest
          (siblings_of ((is_right, sibling) ∷ path))
        ≡ climb k12 (index_of path) (k12 (beside is_right sibling digest)) (siblings_of path)
  unfolding climb index_of siblings_of
  climb-cons is_right sibling digest path =
      let low = lowest_bit is_right (index_of path) in
      ap₂
        (λ i odd.
          climb k12 i (k12 (if odd then sibling ++ digest else digest ++ sibling))
            (siblings_of path))
        low.0 low.1

  climb-snoc :
      (path : List (Bool × List ℕ)) (is_right : Bool) (sibling digest : List ℕ)
      → let path' = path ++ (is_right, sibling) ∷ [] in
        climb k12 (index_of path') digest (siblings_of path')
        ≡ k12 (beside is_right sibling (climb k12 (index_of path) digest (siblings_of path)))
  unfolding climb index_of siblings_of
  climb-snoc [] is_right sibling digest = climb-cons is_right sibling digest []
  climb-snoc ((b, s) ∷ path) is_right sibling digest =
      climb-cons b s digest (path ++ (is_right, sibling) ∷ [])
      ∙ climb-snoc path is_right sibling (k12 (beside b s digest))
      ∙ ap (λ d. k12 (beside is_right sibling d)) (sym (climb-cons b s digest path))

  climb-At :
      (text : List ℕ) {t : Tree} {path : List (Bool × List ℕ)}
      → At k12 text t path
      → climb k12 (index_of path) (k12 text) (siblings_of path) ≡ root k12 t
  unfolding climb root index_of siblings_of
  climb-At text here = refl
  climb-At text (left l r path at) =
      climb-snoc path false (root k12 r) (k12 text)
      ∙ ap (λ d. k12 (d ++ root k12 r)) (climb-At text at)
  climb-At text (right l r path at) =
      climb-snoc path true (root k12 l) (k12 text)
      ∙ ap (λ d. k12 (root k12 l ++ d)) (climb-At text at)

  index_of-lt : (path : List (Bool × List ℕ)) → index_of path < 2 ^ length path
  unfolding index_of
  index_of-lt [] = omega arith
  index_of-lt ((true, sibling) ∷ path) = omega (arith, index_of-lt path, pow-suc 2 (length path))
  index_of-lt ((false, sibling) ∷ path) = omega (arith, index_of-lt path, pow-suc 2 (length path))

  index_of-fits :
      (path : List (Bool × List ℕ)) → length path ≤ 32 → index_of path % 2 ^ 32 ≡ index_of path
  index_of-fits path short =
      let most : 2 ^ length path ≤ 2 ^ 32 = pow-le-pow_right (omega arith) short in
      omega (arith, index_of-lt path, most)

  -- From a leaf of a tree, its index and the digests of the siblings on its way up, the digest that
  -- is computed is the root of the tree, for ways of at most 32 steps, whose indices fit 32 bits.
  pub digest_from_siblings-root :
      (text : List ℕ) (t : Tree) (path : List (Bool × List ℕ))
      → length path ≤ 32
      → At k12 text t path
      → digest_from_siblings k12 text (index_of path) (siblings_of path) ≡ root k12 t
  unfolding digest_from_siblings
  digest_from_siblings-root text t path short at =
      ap (λ (i : ℕ). climb k12 i (k12 text) (siblings_of path)) (index_of-fits path short)
      ∙ climb-At text at
