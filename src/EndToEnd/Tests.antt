-- ===== src/EndToEnd/Tests.antt =====
-- A task of the pool, mined at once by a hash function that is always zero.
use doge_connect.HashUtil.{hex_to_bytes, hex_pairs}
use doge_connect.Structs.{DispatcherMiningSolution, DispatcherStats}
use doge_connect.Signing.{Primitives, DispatcherSigningContext, sign_task_packet}
use doge_connect.Difficulty.{
  DifficultyTarget, of_full_rep, full_of_compact, compact_of_full, verify_hash_vs_target,
}
use doge_connect.Difficulty.Compact.{length-full_of_compact}
use doge_connect.Difficulty.Compare.{verify_hash_vs_target-iff-le}
use doge_connect.Difficulty.Stricter.{full_of_compact-IsBytes, compact_of_full-IsBytes}
use doge_connect.Concurrency.Queue.{push}
use doge_connect.TestMiner.{solution_packet, solution_bytes}
use doge_connect.TaskDist.{
  TaskParams, TaskInput, TaskState, header_fields, right_sizes, swap_words, dispatcher_task,
  total_num_bytes, sum_lengths,
}
use doge_connect.TaskDist.Delivery.{fields, Delivers}
use doge_connect.QubicRecv.{process_solution}
use doge_connect.ShareValid.{ShareState, ShareInput, counts, dedupe_key, validate_share}
use doge_connect.ShareValid.Accept.{Sends}
use doge_connect.EndToEnd.Found.{IsTarget, IsDigest}
use doge_connect.Concurrency.HashMap.{get}
use doge_connect.EndToEnd.Mining.{search_at, share_at, IsSent, search_share-Sends}
use doge_connect.TestMiner.Search.{Miner, begin_search, passed_target}
use doge_connect.TestMiner.Threads.{run, started}
use doge_connect.TestMiner.Tried.{turns, at_search}
use doge_connect.EndToEnd.{sent_task}
use doge_connect.Prelude.{
  ℕ, ◌==◌, length, get_or, take, replicate, le_value, all_bytes-IsBytes, ◌≤◌, ◌≡◌, refl, Bool, true,
  false, List, [], ◌∷◌, ◌++◌, reverse, arith, some,
}

abbrev toy : Primitives
toy = record {
  k12 = take 32;
  public_of_private = reverse;
  sign = λ subseed key digest. replicate 64 9;
}

abbrev toy_verify : List ℕ → List ℕ → List ℕ → Bool
toy_verify key digest signature = get_or signature 0 0 == 9

abbrev context : DispatcherSigningContext
context = record { subseed = replicate 32 1; public_key = replicate 32 2 }

abbrev toy_scrypt : List ℕ → List ℕ
toy_scrypt header = replicate 32 0

abbrev input : TaskInput
input = record {
  primitives = toy;
  context = context;
  extra_nonce1 = 1 ∷ 2 ∷ 3 ∷ 4 ∷ [];
  now_ms = 1700000000000;
}

abbrev digits : ℕ → List ℕ
digits n = replicate n b'0'

abbrev params : TaskParams
params = record {
  clean = true;
  task_id = b'c' ∷ [];
  version = digits 8;
  n_time = digits 8;
  n_bits = digits 8;
  prev_hash = digits 64;
  coinbase1 = digits 10;
  coinbase2 = digits 20;
  branches = digits 64 ∷ [];
}

abbrev pool : DifficultyTarget
pool = of_full_rep (replicate 31 255 ++ 0 ∷ [])

abbrev stats : DispatcherStats
stats = record {
  tasks_distributed = 0;
  solutions_received = 0;
  solutions_accepted = 0;
  solutions_rejected = 0;
  solutions_stale = 0;
  solutions_passed_pool_diff = 0;
  pool_shares_accepted = 0;
  pool_shares_rejected = 0;
  pool_difficulty = 0;
  computor_shares = [];
  computor_last_seen = [];
}

abbrev start : TaskState
start = record { active_tasks = []; stats = stats; packets = [] }

abbrev miner : Miner
miner = record {
  sha256 = λ bytes. replicate 32 5;
  scrypt = toy_scrypt;
  primitives = toy;
  context = context;
}

abbrev mined : DispatcherMiningSolution
mined = share_at input params false pool start miner 2

abbrev share : ShareInput
share = record {
  solution = mined;
  active_tasks = (input.now_ms, sent_task input params false pool start) ∷ [];
  now = 1700000000;
  connected = true;
}

abbrev state : ShareState
state = record {
  recent_submits = [];
  last_clean_job_id = 0;
  stats = stats;
  next_stratum_send_id = 3;
  sent = [];
}

is_right : right_sizes (fields input params false pool start) ≡ true
unfolding header_fields hex_to_bytes hex_pairs swap_words
is_right = refl

is_small : total_num_bytes (sent_task input params false pool start) ≤ 4096
unfolding total_num_bytes dispatcher_task sum_lengths hex_to_bytes hex_pairs
is_small = omega arith

is_signed : (p : List ℕ) → length (sign_task_packet toy context p) ≡ 64
unfolding sign_task_packet
is_signed p = refl

is_verified :
    toy_verify context.public_key
      (toy.k12 (solution_bytes mined))
      (sign_task_packet toy context (solution_bytes mined))
    ≡ true
unfolding sign_task_packet
is_verified = refl

is_target : IsTarget pool
unfolding of_full_rep
is_target = record {
  bytes = all_bytes-IsBytes (replicate 31 255 ++ 0 ∷ []) refl;
  size = refl;
  compact = refl;
}

is_digest : IsDigest toy_scrypt
is_digest header = (all_bytes-IsBytes (replicate 32 0) refl, refl)

zero_passes :
    (full : List ℕ)
    → verify_hash_vs_target (replicate 32 0) (full_of_compact (compact_of_full full)) ≡ true
unfolding le_value
zero_passes full =
    let compact = compact_of_full full in
    let bytes = full_of_compact-IsBytes compact (compact_of_full-IsBytes full) in
    (verify_hash_vs_target-iff-le (replicate 32 0) (full_of_compact compact)
        (all_bytes-IsBytes (replicate 32 0) refl) bytes refl (length-full_of_compact compact)).1
      (omega arith)

is_passing : passed_target miner (search_at input params false pool start miner 2) ≡ true
unfolding passed_target of_full_rep begin_search
is_passing = zero_passes (replicate 31 255 ++ 0 ∷ [])

is_fresh : counts state.recent_submits (dedupe_key mined) ≡ false
unfolding counts
is_fresh = refl

kept : get share.active_tasks input.now_ms ≡ some (sent_task input params false pool start)
unfolding get
kept = refl

-- The third nonce is found, and the miner searches on for two more.
search_share-Sends_example :
    (Delivers input params false pool start
      × IsSent input params false pool start miner 2 []
          (run miner
            (turns 5)
            (at_search (search_at input params false pool start miner 0) started)).sent)
    × (process_solution toy.k12 toy_verify (solution_packet toy context mined) 161 []
        ≡ push mined [])
    × Sends toy_scrypt [] share state
        (sent_task input params false pool start)
        (validate_share toy_scrypt [] share state)
search_share-Sends_example =
    search_share-Sends input params false pool start miner 5 2 started [] toy_verify [] share state
      is_right is_small (omega arith) is_signed is_target is_digest (λ b. refl) refl (is_signed _)
      is_verified (omega arith) is_passing refl kept refl is_fresh
