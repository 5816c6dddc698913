-- ===== src/TestDispatcher.antt =====
-- The thread that stands for the pool in the test dispatcher,
-- dispatcher/test/testdispatcher/dummy_stratum_recv_thread.cpp.
mod Jobs
mod Tests
use doge_connect.Prelude.{
  ℕ, ltb, leb, ◌==◌, if◌then◌else◌, ltb→lt, lt→ltb, leb→le, ==_iff, tests, Bool-cases, Option-cases,
  ◌>>=◌, length, get_elem?, set, length-append, length-set, get_elem?-set_self, get_elem?-set_ne,
  get_or, take, drop, replicate, take-append-drop, length-take, length-drop, take-all,
  length-reverse, take-append, drop-append, drop-drop, take-append_le, drop-append_le, get_or-drop,
  length-replicate, length-map, All, All-append, IsBytes, le_value, to_le, le_value-nil,
  le_value-cons, length-to_le, to_le-IsBytes, le_value-lt, le_value-lt_pow, le_value-to_le,
  to_le-le_value, le_value-append, le_value-take-suc, le_value-take-add, le_value-replicate,
  get_or-replicate, get_or-set_ne, take-IsBytes, drop-IsBytes, get_or-lt_byte, append-IsBytes,
  le_value-set, prefix-lt, reverse-IsBytes, all_bytes, all_bytes-IsBytes, bit_or_disjoint,
  bit_and_bit, zero, suc, ◌+◌, ◌-◌, ◌*◌, ◌/◌, ◌%◌, ◌^◌, ◌≤◌, ◌<◌, min, bit_and, bit_or, ◌≡◌, refl,
  sym, ap, ap₂, ◌∙◌, ◌≢◌, ◌↔◌, ◌⊎◌, inl, inr, Bool, true, false, not, ◌&&◌, ◌||◌, Option, none,
  some, List, [], ◌∷◌, ◌++◌, map, foldl, reverse, append_assoc, append-nil, arith,
}
use doge_connect.Concurrency.Queue.{push}

-- The variables of `dummyStratumReceiveLoop`, each an `unsigned int`.
pub record Dummy : Type 0 where
  pub current_data_index : ℕ
  pub clear_jobs_index : ℕ

-- `data["params"][8]` for the message, and the index of the next.
unfoldable pub clear_flag : (frequency_clear_jobs clear_jobs_index : ℕ) → Bool × ℕ
clear_flag frequency index =
    if ltb 0 frequency then (index == 0, (index + 1) % 2 ^ 32 % frequency) else (false, index)

module _ {Json : Type 0} (with_clear_flag : Json → Bool → Json) (example_data : List Json) where
  -- The push of the message, and the variables after it.
  unfoldable pub push_job : ℕ → Dummy → List Json → Option Json → Option (Dummy × List Json)
  push_job frequency d queue none = none
  push_job frequency d queue (some example) =
      let flag = clear_flag frequency d.clear_jobs_index in
      some (
        record {
          current_data_index = (d.current_data_index + 1) % length example_data;
          clear_jobs_index = flag.1;
        },
        push (with_clear_flag example flag.0) queue,
      )

  -- A round of the loop. `none` is an index behind the end of `exampleData`.
  unfoldable pub dummy_round : ℕ → Dummy × List Json → Option (Dummy × List Json)
  dummy_round frequency (d, queue) =
      push_job frequency d queue (get_elem? example_data d.current_data_index)

  -- The rounds until a stop is requested.
  unfoldable pub dummy_rounds : (rounds : ℕ) → ℕ → Dummy × List Json → Option (Dummy × List Json)
  dummy_rounds zero frequency s = some s
  dummy_rounds (suc n) frequency s = dummy_round frequency s >>= dummy_rounds n frequency

abbrev pub first_dummy : Dummy
first_dummy = record { current_data_index = 0; clear_jobs_index = 0 }
