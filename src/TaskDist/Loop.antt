-- ===== src/TaskDist/Loop.antt =====
-- `taskDistributionLoop` and its reading of JSON messages.
use doge_connect.Structs.{DispatcherStats, incr}
use doge_connect.Difficulty.{DifficultyTarget, divide_target, of_full_rep}
use doge_connect.TaskDist.{JsonLib, TaskParams, TaskState, TaskInput, distribute}
use doge_connect.Prelude.{
  ℕ, if◌then◌else◌, ◌>>=◌, Bool, false, not, ◌||◌, Option, some, List, [], ◌∷◌, ◌++◌,
}

abbrev pub key_id : List ℕ
key_id = b'i' ∷ b'd' ∷ []

abbrev pub key_params : List ℕ
key_params = b'p' ∷ b'a' ∷ b'r' ∷ b'a' ∷ b'm' ∷ b's' ∷ []

abbrev pub key_method : List ℕ
key_method = b'm' ∷ b'e' ∷ b't' ∷ b'h' ∷ b'o' ∷ b'd' ∷ []

abbrev pub key_error : List ℕ
key_error = b'e' ∷ b'r' ∷ b'r' ∷ b'o' ∷ b'r' ∷ []

abbrev pub key_result : List ℕ
key_result = b'r' ∷ b'e' ∷ b's' ∷ b'u' ∷ b'l' ∷ b't' ∷ []

-- "mining.notify" and "mining.set_difficulty".
abbrev pub mining_dot : List ℕ
mining_dot = b'm' ∷ b'i' ∷ b'n' ∷ b'i' ∷ b'n' ∷ b'g' ∷ b'.' ∷ []

abbrev pub mining_notify : List ℕ
mining_notify = mining_dot ++ (b'n' ∷ b'o' ∷ b't' ∷ b'i' ∷ b'f' ∷ b'y' ∷ [])

abbrev pub mining_set_difficulty : List ℕ
mining_set_difficulty =
    mining_dot
    ++ (b's' ∷ b'e' ∷ b't' ∷ b'_' ∷ b'd' ∷ b'i' ∷ b'f' ∷ b'f' ∷ b'i' ∷ b'c' ∷ b'u' ∷ b'l' ∷ b't'
        ∷ b'y' ∷ [])

-- The loop's variables with the state that it shares.
pub record LoopState : Type 0 where
  pub pool_difficulty : DifficultyTarget
  pub tasks : TaskState

-- The kinds of a message that the loop tells apart.
pub data Kind : Type 0 where
  ignored set_difficulty notify response : Kind

module _ {Json : Type 0} (lib : JsonLib Json) where
  unfoldable pub strings : List Json → Option (List (List ℕ))
  strings [] = some []
  strings (j ∷ js) = do s ← lib.get_string j; rest ← strings js; some (s ∷ rest)

  unfoldable pub string_at : Json → ℕ → Option (List ℕ)
  string_at params i = lib.at_index params i >>= lib.get_string

  unfoldable pub clean_flag : Json → Option Bool
  clean_flag msg = do params ← lib.at_key msg key_params; j ← lib.at_index params 8; lib.get_bool j

  unfoldable pub read_params : Json → Option TaskParams
  read_params msg = do
    params ← lib.at_key msg key_params
    clean ← clean_flag msg
    task_id ← string_at params 0
    version ← string_at params 5
    n_time ← string_at params 7
    n_bits ← string_at params 6
    prev_hash ← string_at params 1
    coinbase1 ← string_at params 2
    coinbase2 ← string_at params 3
    array ← lib.at_index params 4
    elements ← lib.items array
    branches ← strings elements
    some (record {
      clean = clean;
      task_id = task_id;
      version = version;
      n_time = n_time;
      n_bits = n_bits;
      prev_hash = prev_hash;
      coinbase1 = coinbase1;
      coinbase2 = coinbase2;
      branches = branches;
    })

  -- `msg.contains(key) && test(msg[key])`.
  abbrev pub member_is : Json → List ℕ → (Json → Bool) → Option Bool
  member_is msg key test =
      if lib.contains msg key then (do j ← lib.at_key msg key; some (test j)) else some false

  -- `checkShareResponse`.
  pub check_share_response : Json → DispatcherStats → Option DispatcherStats
  check_share_response msg stats = do
    id ← lib.at_key msg key_id
    share_id ← lib.get_unsigned id
    rejected ← member_is msg key_error (λ j. not (lib.is_null j))
    accepted ← member_is msg key_result lib.is_true
    some (
        if rejected
        then record stats { pool_shares_rejected = incr stats.pool_shares_rejected }
        else if accepted
        then record stats { pool_shares_accepted = incr stats.pool_shares_accepted }
        else stats)

  -- `msg["method"] == name`.
  abbrev method_is : Json → List ℕ → Option Bool
  method_is msg name = do m ← lib.at_key msg key_method; some (lib.is_string m name)

  -- A message without an id that is a number.
  abbrev notification : Json → Option Kind
  notification msg = do
    sets ← method_is msg mining_set_difficulty
    notifies ← method_is msg mining_notify
    some (if sets then set_difficulty else if notifies then notify else ignored)

  abbrev kind_by_id : Json → Json → Option Kind
  kind_by_id msg id =
      if lib.is_null id
      then notification msg
      else some (if lib.is_unsigned id then response else ignored)

  -- What a message is to the loop.
  unfoldable pub kind : Json → Option Kind
  kind msg =
      if not (lib.contains msg key_id)
      then some ignored
      else lib.at_key msg key_id >>= kind_by_id msg

  -- The branch of `mining.set_difficulty`.
  unfoldable pub change_difficulty : DifficultyTarget → Json → LoopState → Option LoopState
  change_difficulty base msg st = do
    params ← lib.at_key msg key_params
    j ← lib.at_index params 0
    divisor ← lib.get_unsigned j
    some (record {
      pool_difficulty = of_full_rep (divide_target base.full_rep divisor);
      tasks = record st.tasks { stats = record st.tasks.stats { pool_difficulty = divisor } };
    })

  unfoldable pub answer : Json → LoopState → Option LoopState
  answer msg st = do
    stats ← check_share_response msg st.tasks.stats
    some (record st { tasks = record st.tasks { stats = stats } })

  -- The latest job and the flag, while the queue is drained.
  pub record Drained : Type 0 where
    pub latest : Json
    pub clean : Bool
    pub loop : LoopState

  -- One message that `try_pop` returns during the draining.
  unfoldable pub drain_one : DifficultyTarget → Json → Drained → Option Drained
  drain_one base msg d = do
    k ← kind msg
    elim k [
      | ignored ↦ some d
      | set_difficulty ↦ do l ← change_difficulty base msg d.loop; some (record d { loop = l })
      | notify ↦ do c ← clean_flag msg; some (record d { latest = msg; clean = d.clean || c })
      | response ↦ do l ← answer msg d.loop; some (record d { loop = l })
    ]

  -- The draining, over the messages that it finds in the queue.
  unfoldable pub drain : DifficultyTarget → List Json → Drained → Option Drained
  drain base [] d = some d
  drain base (msg ∷ msgs) d = drain_one base msg d >>= drain base msgs

  -- A round of the loop: `msg` is popped, and `queued` are the messages that a draining finds.
  unfoldable pub distribution_round :
      DifficultyTarget → TaskInput → Json → List Json → LoopState → Option LoopState
  distribution_round base input msg queued st = do
    k ← kind msg
    elim k [
      | ignored ↦ some st
      | set_difficulty ↦ change_difficulty base msg st
      | notify ↦ do
        c ← clean_flag msg
        d ← drain base queued (record { latest = msg; clean = c; loop = st })
        params ← read_params d.latest
        some (record d.loop {
          tasks = distribute input params d.clean d.loop.pool_difficulty d.loop.tasks;
        })
      | response ↦ answer msg st
    ]
