-- ===== src/Concurrency/Unordered.antt =====
-- `std::unordered_map` forgets the order of its entries: the lists of HashMap up to what is found
-- under each key.
use doge_connect.Prelude.{
  ℕ, ◌==◌, if◌then◌else◌, ◌≡◌, sym, ap, ◌∙◌, ◌≢◌, Option, none, some, List, arith,
}
use doge_connect.Concurrency.HashMap.{
  IsMap, insert, get, erase, get-insert, insert-IsMap, erase_lem, erase-IsMap,
}
use mathlib.Core.Path.{fun_ext}
use mathlib.Core.Quot
use mathlib.Core.Quot.{Quot, Quot-set}

module _ {V : Type 0} (value_set : IsSet (Option V)) where
  -- A list in which no key stands twice.
  abbrev pub Entries : Type 0
  Entries = (m : List (ℕ × V)) × IsMap m

  abbrev pub SameEntries : Entries → Entries → Type 0
  SameEntries a b = (key : ℕ) → get a.0 key ≡ get b.0 key

  abbrev pub Unordered : Type 0
  Unordered = Quot SameEntries

  pub find : ℕ → Unordered → Option V
  find key = Quot.lift value_set (λ m. get m.0 key) (λ a b same. same key)

  insert_entry : ℕ → V → Entries → Entries
  insert_entry key value m = (insert key value m.0, insert-IsMap key value m.0 m.1)

  erase_entry : ℕ → Entries → Entries
  erase_entry key m = ((erase key m.0).0, erase-IsMap key m.0 m.1)

  insert_entry-SameEntries :
      (key : ℕ) (value : V) (a b : Entries)
      → SameEntries a b
      → SameEntries (insert_entry key value a) (insert_entry key value b)
  unfolding insert_entry
  insert_entry-SameEntries key value a b same j =
      get-insert key j value a.0
      ∙ ap (λ t. if key == j then some value else t) (same j)
      ∙ sym (get-insert key j value b.0)

  erase_entry-SameEntries :
      (key : ℕ) (a b : Entries)
      → SameEntries a b
      → SameEntries (erase_entry key a) (erase_entry key b)
  unfolding erase_entry
  erase_entry-SameEntries key a b same j =
      (erase_lem key j a.0 a.1).1
      ∙ ap (λ t. if key == j then none else t) (same j)
      ∙ sym (erase_lem key j b.0 b.1).1

  pub put : ℕ → V → Unordered → Unordered
  unfolding insert_entry-SameEntries
  put key value =
      Quot.lift Quot-set (λ m. Quot.mk (insert_entry key value m))
        (λ a b same. Quot.sound (insert_entry-SameEntries key value a b same))

  pub remove : ℕ → Unordered → Unordered
  unfolding erase_entry-SameEntries
  remove key =
      Quot.lift Quot-set (λ m. Quot.mk (erase_entry key m))
        (λ a b same. Quot.sound (erase_entry-SameEntries key a b same))

  -- Maps in which the same is found are equal.
  pub Unordered-ext : (a b : Unordered) → ((key : ℕ) → find key a ≡ find key b) → a ≡ b
  unfolding find
  Unordered-ext a b =
      Quot.ind (λ x. Π-prop x)
        (λ x.
          Quot.ind (λ y. (λ f g. fun_ext (λ h. Quot-set _ _ (f h) (g h))))
            (λ y same. Quot.sound same))
        a b
    where
      Π-prop :
          (x : Unordered) → IsProp ((y : Unordered) → ((key : ℕ) → find key x ≡ find key y) → x ≡ y)
      Π-prop x f g = fun_ext (λ y. fun_ext (λ h. Quot-set x y (f y h) (g y h)))

  find-put :
      (key j : ℕ) (value : V) (m : Unordered)
      → find j (put key value m) ≡ (if key == j then some value else find j m)
  unfolding find put insert_entry
  find-put key j value = Quot.ind (λ m. value_set _ _) (λ x. get-insert key j value x.0)

  find-remove :
      (key j : ℕ) (m : Unordered) → find j (remove key m) ≡ (if key == j then none else find j m)
  unfolding find remove erase_entry
  find-remove key j = Quot.ind (λ m. value_set _ _) (λ x. (erase_lem key j x.0 x.1).1)

  -- As maps without an order: insertions and erasures under different keys commute; of two under
  -- one key the later counts; and what is found after each is the value that it left.
  pub operations_without_order :
      (key j : ℕ) (value other : V) (m : Unordered)
      → key ≢ j
      → (put key value (put j other m) ≡ put j other (put key value m))
        × (put key value (remove j m) ≡ remove j (put key value m))
        × (remove key (remove j m) ≡ remove j (remove key m))
        × (put key value (put key other m) ≡ put key value m)
        × (remove key (put key value m) ≡ remove key m)
        × (find key (put key value m) ≡ some value)
        × (find key (remove key m) ≡ none)
  operations_without_order key j value other m differ = (
    Unordered-ext _ _ (λ k. simp (find-put) (ground arith)),
    Unordered-ext _ _ (λ k. simp (find-put, find-remove) (ground arith)),
    Unordered-ext _ _ (λ k. simp (find-remove) (ground arith)),
    Unordered-ext _ _ (λ k. simp (find-put) (ground arith)),
    Unordered-ext _ _ (λ k. simp (find-put, find-remove) (ground arith)),
    simp (find-put) (ground arith),
    simp (find-remove) (ground arith),
  )
