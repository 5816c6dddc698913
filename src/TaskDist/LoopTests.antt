-- ===== src/TaskDist/LoopTests.antt =====
-- A round in which a job that drops earlier ones is popped, and the queue holds a change of the
-- difficulty and another job.
use doge_connect.Difficulty.{DifficultyTarget, divide_target, of_full_rep}
use doge_connect.Signing.{Primitives}
use doge_connect.TaskDist.{JsonLib, TaskParams, TaskInput, TaskState, distribute}
use doge_connect.TaskDist.Loop.{
  LoopState, kind, notify, clean_flag, read_params, strings, string_at, change_difficulty,
  drain_one, drain, distribution_round,
}
use doge_connect.TaskDist.Draining.{Distributes, distribution_round-Distributes}
use doge_connect.Prelude.{
  ℕ, ◌==◌, if◌then◌else◌, length, get_or, take, replicate, ◌≡◌, refl, Bool, true, false, Option,
  none, some, List, [], ◌∷◌, reverse,
}

data Toy : Type 0 where
  job dropping_job difficulty nothing name_job name_difficulty : Toy
  params_job params_dropping params_difficulty yes_flag no_flag text no_branches number : Toy

abbrev toy_at_key : Toy → ℕ → Toy
toy_at_key job c = if c == b'm' then name_job else if c == b'p' then params_job else nothing
toy_at_key dropping_job c =
    if c == b'm' then name_job else if c == b'p' then params_dropping else nothing
toy_at_key difficulty c =
    if c == b'm' then name_difficulty else if c == b'p' then params_difficulty else nothing
toy_at_key _ c = nothing

abbrev toy_at_index : Toy → ℕ → Toy
toy_at_index params_job i = if i == 4 then no_branches else if i == 8 then no_flag else text
toy_at_index params_dropping i = if i == 4 then no_branches else if i == 8 then yes_flag else text
toy_at_index _ i = number

abbrev toy_is_null : Toy → Bool
toy_is_null nothing = true
toy_is_null _ = false

abbrev toy_get_bool : Toy → Option Bool
toy_get_bool yes_flag = some true
toy_get_bool no_flag = some false
toy_get_bool _ = none

-- The names `mining.notify` and `mining.set_difficulty` differ in their lengths.
abbrev toy_is_string : Toy → List ℕ → Bool
toy_is_string name_job name = length name == 13
toy_is_string name_difficulty name = length name == 21
toy_is_string _ name = false

abbrev toy_lib : JsonLib Toy
toy_lib = record {
  contains = λ j key. true;
  at_key = λ j key. some (toy_at_key j (get_or key 0 0));
  at_index = λ j i. some (toy_at_index j i);
  get_bool = toy_get_bool;
  get_string = λ j. some (b'0' ∷ b'0' ∷ []);
  get_unsigned = λ j. some 4;
  items = λ j. some [];
  is_null = toy_is_null;
  is_unsigned = λ j. false;
  is_true = λ j. false;
  is_string = toy_is_string;
}

abbrev toy : Primitives
toy = record {
  k12 = take 32;
  public_of_private = reverse;
  sign = λ subseed key digest. replicate 64 9;
}

abbrev input : TaskInput
input = record {
  primitives = toy;
  context = record { subseed = replicate 32 1; public_key = replicate 32 2 };
  extra_nonce1 = 1 ∷ 2 ∷ [];
  now_ms = 1700000000000;
}

abbrev base : DifficultyTarget
base = record { compact_rep = 255 ∷ 255 ∷ 0 ∷ 31 ∷ []; full_rep = replicate 32 1 }

abbrev start : TaskState
start = record {
  active_tasks = [];
  stats = record {
    tasks_distributed = 0;
    solutions_received = 0;
    solutions_accepted = 0;
    solutions_rejected = 0;
    solutions_stale = 0;
    solutions_passed_pool_diff = 0;
    pool_shares_accepted = 0;
    pool_shares_rejected = 0;
    pool_difficulty = 0;
    computor_shares = [];
    computor_last_seen = [];
  };
  packets = [];
}

abbrev before : LoopState
before = record { pool_difficulty = base; tasks = start }

abbrev zeros : List ℕ
zeros = b'0' ∷ b'0' ∷ []

abbrev latest : TaskParams
latest = record {
  clean = false;
  task_id = zeros;
  version = zeros;
  n_time = zeros;
  n_bits = zeros;
  prev_hash = zeros;
  coinbase1 = zeros;
  coinbase2 = zeros;
  branches = [];
}

abbrev target : DifficultyTarget
target = of_full_rep (divide_target base.full_rep 4)

-- The later job is distributed, with the flag of the earlier one, at the new difficulty.
abbrev after_round : LoopState
after_round = record {
  pool_difficulty = target;
  tasks =
      distribute input latest true target
        (record start { stats = record start.stats { pool_difficulty = 4 } });
}

is_round :
    distribution_round toy_lib base input dropping_job (difficulty ∷ job ∷ []) before
    ≡ some after_round
unfolding distribution_round kind clean_flag drain drain_one change_difficulty read_params strings
    string_at
is_round = refl

is_job : kind toy_lib dropping_job ≡ some notify
unfolding kind
is_job = refl

distribution_round-Distributes_example :
    Distributes toy_lib base input dropping_job (difficulty ∷ job ∷ []) before after_round
distribution_round-Distributes_example =
    distribution_round-Distributes toy_lib base input dropping_job (difficulty ∷ job ∷ []) before
      after_round is_round is_job
