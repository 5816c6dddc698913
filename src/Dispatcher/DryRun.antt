-- ===== src/Dispatcher/DryRun.antt =====
-- The thread of the dry run in dispatcher/src/dispatcher.cpp.
use doge_connect.Prelude.{ℕ, if◌then◌else◌, ◌>>=◌, not, ◌&&◌, Option, some, List, [], ◌∷◌}
use doge_connect.Structs.{DispatcherStats, incr}
use doge_connect.TaskDist.{JsonLib}
use doge_connect.TaskDist.Loop.{
  key_id, key_method, key_params, mining_notify, mining_set_difficulty,
}

module _ {Json : Type 0} (lib : JsonLib Json) where
  -- `msg["params"][0]`, as a `uint64_t`.
  unfoldable pub first_param : Json → Option ℕ
  first_param msg = do
    params ← lib.at_key msg key_params
    j ← lib.at_index params 0
    lib.get_unsigned j

  unfoldable pub on_method : Json → Json → DispatcherStats → Option DispatcherStats
  on_method msg method stats =
      if lib.is_string method mining_set_difficulty
      then (do diff ← first_param msg; some (record stats { pool_difficulty = diff }))
      else if lib.is_string method mining_notify
      then some (record stats { tasks_distributed = incr stats.tasks_distributed })
      else some stats

  -- With an `id`.
  unfoldable pub on_id : Json → Json → DispatcherStats → Option DispatcherStats
  on_id msg id stats =
      if lib.is_null id && lib.contains msg key_method
      then (do method ← lib.at_key msg key_method; on_method msg method stats)
      else some stats

  -- What the loop does with a message; `none` is an exception.
  unfoldable pub drain_message : Json → DispatcherStats → Option DispatcherStats
  drain_message msg stats =
      if not (lib.contains msg key_id)
      then some stats
      else (do id ← lib.at_key msg key_id; on_id msg id stats)

  -- The messages that are popped, one after the other.
  unfoldable pub dry_run : List Json → DispatcherStats → Option DispatcherStats
  dry_run [] stats = some stats
  dry_run (msg ∷ msgs) stats = drain_message msg stats >>= dry_run msgs
