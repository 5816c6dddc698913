-- ===== src/Concurrency/Tests.antt =====
-- A map of two entries.
use native.Mathlib.Nat.{ℕ_set}
use mathlib.Core.Quot
use doge_connect.Concurrency.Unordered.{Unordered, find, put, remove, operations_without_order}
use doge_connect.Concurrency.HashMap.{IsMap, insert, get, erase, contains, operations_lem}
use doge_connect.Prelude.{ℕ, ◌≡◌, refl, some, List, [], ◌∷◌, none, Option, arith}

abbrev two : List (ℕ × ℕ)
two = (1, 10) ∷ (2, 20) ∷ []

kept_two :
    (IsMap (insert 2 21 two) × (get (insert 2 21 two) 2 ≡ some 21))
    × (IsMap (erase 2 two).0 × ((erase 2 two).1 ≡ contains two 2) × (get (erase 2 two).0 2 ≡ none))
unfolding contains
kept_two = operations_lem 2 2 21 two (refl, (refl, tt))

options : IsSet (Option ℕ)
options = hlevel (ℕ_set)

two-IsMap : IsMap two
unfolding contains
two-IsMap = (refl, (refl, tt))

abbrev without_order : Unordered options
without_order = Quot.mk (two, two-IsMap)

operations_without_order_example :
    (put options 1 11 (put options 2 22 without_order)
      ≡ put options 2 22 (put options 1 11 without_order))
    × (put options 1 11 (remove options 2 without_order)
        ≡ remove options 2 (put options 1 11 without_order))
    × (remove options 1 (remove options 2 without_order)
        ≡ remove options 2 (remove options 1 without_order))
    × (put options 1 11 (put options 1 22 without_order) ≡ put options 1 11 without_order)
    × (remove options 1 (put options 1 11 without_order) ≡ remove options 1 without_order)
    × (find options 1 (put options 1 11 without_order) ≡ some 11)
    × (find options 1 (remove options 1 without_order) ≡ none)
operations_without_order_example =
    operations_without_order options 1 2 11 22 without_order (λ e. absurd (omega arith))
