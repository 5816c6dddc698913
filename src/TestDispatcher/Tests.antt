-- ===== src/TestDispatcher/Tests.antt =====
-- Two examples, of which every third job is clean.
use doge_connect.Prelude.{ℕ, if◌then◌else◌, ◌+◌, ◌*◌, ◌≡◌, Bool, some, [], ◌∷◌, arith}
use doge_connect.TestDispatcher.{dummy_rounds, first_dummy}
use doge_connect.TestDispatcher.Jobs.{dummy_at, jobs_from, dummy_rounds-pushes}

abbrev flagged : ℕ → Bool → ℕ
flagged message clean = message * 10 + (if clean then 1 else 0)

four_rounds :
    dummy_rounds flagged (5 ∷ 6 ∷ []) 4 3 (first_dummy, [])
    ≡ some (dummy_at 2 3 4, 51 ∷ 60 ∷ 50 ∷ 61 ∷ [])
unfolding jobs_from
four_rounds = dummy_rounds-pushes flagged 5 (6 ∷ []) 3 (omega arith) 4 []
