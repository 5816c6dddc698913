-- ===== src/TaskDist/Tests.antt =====
-- A task of the pool with one merkle branch.
use doge_connect.HashUtil.{hex_to_bytes, hex_pairs}
use doge_connect.Signing.{Primitives, sign_task_packet}
use doge_connect.Difficulty.{DifficultyTarget}
use doge_connect.TaskDist.{
  TaskParams, TaskInput, TaskState, header_fields, right_sizes, swap_words, dispatcher_task,
  total_num_bytes, sum_lengths,
}
use doge_connect.TaskDist.Delivery.{
  Delivers, after, kept_tasks, fields, task, distribute-Delivers, distribute-refuses,
}
use doge_connect.Prelude.{
  ℕ, length, take, replicate, ◌≤◌, ◌≡◌, refl, inl, true, false, List, [], ◌∷◌, reverse, arith, ◌≢◌,
  inr,
}

abbrev toy : Primitives
toy = record {
  k12 = take 32;
  public_of_private = reverse;
  sign = λ subseed key digest. replicate 64 9;
}

abbrev input : TaskInput
input = record {
  primitives = toy;
  context = record { subseed = replicate 32 1; public_key = replicate 32 2 };
  extra_nonce1 = 1 ∷ 2 ∷ 3 ∷ 4 ∷ [];
  now_ms = 1700000000000;
}

abbrev zeros : ℕ → List ℕ
zeros n = replicate n b'0'

abbrev params : ℕ → TaskParams
params hash_length = record {
  clean = false;
  task_id = b'c' ∷ [];
  version = zeros 8;
  n_time = zeros 8;
  n_bits = zeros 8;
  prev_hash = zeros hash_length;
  coinbase1 = zeros 10;
  coinbase2 = zeros 20;
  branches = zeros 64 ∷ [];
}

abbrev pool : DifficultyTarget
pool = record { compact_rep = 255 ∷ 255 ∷ 0 ∷ 30 ∷ []; full_rep = replicate 32 0 }

abbrev start : TaskState
start = record {
  active_tasks = [];
  stats = record {
    tasks_distributed = 0;
    solutions_received = 0;
    solutions_accepted = 0;
    solutions_rejected = 0;
    solutions_stale = 0;
    solutions_passed_pool_diff = 0;
    pool_shares_accepted = 0;
    pool_shares_rejected = 0;
    pool_difficulty = 0;
    computor_shares = [];
    computor_last_seen = [];
  };
  packets = [];
}

is_right : right_sizes (fields input (params 64) true pool start) ≡ true
unfolding header_fields hex_to_bytes hex_pairs swap_words
is_right = refl

is_wrong : length (fields input (params 62) true pool start).prev_hash ≢ 32
unfolding header_fields hex_to_bytes hex_pairs swap_words
is_wrong e = absurd (omega arith)

is_small : total_num_bytes (task input (params 64) true pool start) ≤ 4096
unfolding total_num_bytes dispatcher_task sum_lengths hex_to_bytes hex_pairs
is_small = omega arith

is_signed : (bytes : List ℕ) → length (sign_task_packet input.primitives input.context bytes) ≡ 64
unfolding sign_task_packet
is_signed bytes = refl

distribute-Delivers_example : Delivers input (params 64) true pool start
distribute-Delivers_example =
    distribute-Delivers input (params 64) true pool start is_right refl is_small (omega arith)
      (is_signed _)

distribute-refuses_example :
    ((after input (params 62) true pool start).packets ≡ [])
    × ((after input (params 62) true pool start).stats ≡ start.stats)
    × ((after input (params 62) true pool start).active_tasks
        ≡ kept_tasks input (params 62) true pool start)
distribute-refuses_example =
    distribute-refuses input (params 62) true pool start (inl (inr (inl is_wrong)))
