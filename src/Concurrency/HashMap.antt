-- ===== src/Concurrency/HashMap.antt =====
-- `ConcurrentHashMap<uint64_t, V>`: an `std::unordered_map` as an association list. A key occurs
-- once at most, as `insert` replaces the entry of its key.
use doge_connect.Prelude.{
  ℕ, ◌==◌, if◌then◌else◌, Bool-cases, length, ◌≡◌, refl, inl, inr, Bool, true, false, Option, none,
  some, List, [], ◌∷◌, arith,
}

module _ {ℓ} {V : Type ℓ} where
  abbrev pub empty : List (ℕ × V)
  empty = []

  -- `m_map[key] = value`.
  pub insert : ℕ → V → List (ℕ × V) → List (ℕ × V)
  insert key value [] = (key, value) ∷ []
  insert key value ((k, v) ∷ m) = if k == key then (key, value) ∷ m else (k, v) ∷ insert key value m

  unfoldable pub get : List (ℕ × V) → ℕ → Option V
  get [] key = none
  get ((k, v) ∷ m) key = if k == key then some v else get m key

  -- The map without the key, and whether it was there.
  pub erase : ℕ → List (ℕ × V) → List (ℕ × V) × Bool
  erase key [] = ([], false)
  erase key ((k, v) ∷ m) =
      let (rest, found) = erase key m in if k == key then (m, true) else ((k, v) ∷ rest, found)

  abbrev pub clear : List (ℕ × V) → List (ℕ × V)
  clear m = []

  unfoldable pub contains : List (ℕ × V) → ℕ → Bool
  contains [] key = false
  contains ((k, v) ∷ m) key = if k == key then true else contains m key

  abbrev pub size : List (ℕ × V) → ℕ
  size = length

  -- No key stands twice.
  abbrev pub IsMap : List (ℕ × V) → Type 0
  IsMap [] = Unit {0}
  IsMap ((k, v) ∷ m) = (contains m k ≡ false) × IsMap m

  -- What was inserted last under a key is found, and other keys are left alone.
  pub get-insert :
      (key j : ℕ) (value : V) (m : List (ℕ × V))
      → get (insert key value m) j ≡ (if key == j then some value else get m j)
  unfolding get insert
  get-insert key j value [] = refl
  get-insert key j value ((k, v) ∷ m) = ground (arith, get-insert key j value m)

  contains-insert :
      (key j : ℕ) (value : V) (m : List (ℕ × V))
      → contains (insert key value m) j ≡ (if key == j then true else contains m j)
  unfolding contains insert
  contains-insert key j value [] = refl
  contains-insert key j value ((k, v) ∷ m) = ground (arith, contains-insert key j value m)

  contains-get : (m : List (ℕ × V)) (j : ℕ) → contains m j ≡ false → get m j ≡ none
  unfolding contains get
  contains-get [] j h = refl
  contains-get ((k, v) ∷ m) j h = ground (arith, contains-get m j)

  pub insert-IsMap : (key : ℕ) (value : V) (m : List (ℕ × V)) → IsMap m → IsMap (insert key value m)
  unfolding insert contains
  insert-IsMap key value [] h = (refl, tt)
  insert-IsMap key value ((k, v) ∷ m) h = elim (Bool-cases (k == key)) [
    | inl same ↦ let e : k ≡ key = ground arith in rw same (rw (← e) h)
    | inr other ↦
        rw other (ground (arith, contains-insert key k value m), insert-IsMap key value m h.1)
  ]

  -- In a map without repeated keys, erasing a key makes it absent, tells whether it was there and
  -- leaves the other keys alone.
  pub erase_lem :
      (key j : ℕ) (m : List (ℕ × V))
      → IsMap m
      → ((erase key m).1 ≡ contains m key)
        × (get (erase key m).0 j ≡ (if key == j then none else get m j))
  unfolding erase get contains
  erase_lem key j [] h = (refl, ground arith)
  erase_lem key j ((k, v) ∷ m) h = elim (Bool-cases (k == key)) [
    | inl same ↦ rw same (refl, ground (arith, contains-get m j))
    | inr other ↦ let ih = erase_lem key j m h.1 in rw other (ih.0, ground (arith, ih.1))
  ]

  contains-erase :
      (key j : ℕ) (m : List (ℕ × V)) → contains m j ≡ false → contains (erase key m).0 j ≡ false
  unfolding erase contains
  contains-erase key j [] h = refl
  contains-erase key j ((k, v) ∷ m) h = elim (Bool-cases (k == key)) [
    | inl same ↦ rw same (ground (arith, h))
    | inr other ↦ rw other (ground (arith, contains-erase key j m))
  ]

  pub erase-IsMap : (key : ℕ) (m : List (ℕ × V)) → IsMap m → IsMap (erase key m).0
  unfolding erase
  erase-IsMap key [] h = tt
  erase-IsMap key ((k, v) ∷ m) h = elim (Bool-cases (k == key)) [
    | inl same ↦ rw same h.1
    | inr other ↦ rw other (contains-erase key k m h.0, erase-IsMap key m h.1)
  ]

  -- The list stands for a map: inserting and erasing keep its keys distinct. After `insert` the key
  -- has the value, after `erase` it has none, and other keys are as before; `erase` tells whether
  -- the key was there.
  pub operations_lem :
      (key j : ℕ) (value : V) (m : List (ℕ × V))
      → IsMap m
      → (IsMap (insert key value m)
          × (get (insert key value m) j ≡ (if key == j then some value else get m j)))
        × (IsMap (erase key m).0
            × ((erase key m).1 ≡ contains m key)
            × (get (erase key m).0 j ≡ (if key == j then none else get m j)))
  operations_lem key j value m h =
      let (there, gone) = erase_lem key j m h in
      ((insert-IsMap key value m h, get-insert key j value m), (erase-IsMap key m h, there, gone))
