-- ===== src/ShareValid/Tests.antt =====
-- Rounds of the validation loop on a task, with a stand-in for the hash function.
use doge_connect.Structs.{
  DispatcherMiningTask, DispatcherMiningSolution, DispatcherStats, num_computors,
}
use doge_connect.Concurrency.HashMap.{get}
use doge_connect.Difficulty.{verify_hash_vs_target, verify_from}
use doge_connect.HashUtil.{bytes_to_hex, bytes_hex, byte_to_hex, hex_char}
use doge_connect.ShareValid.{
  ShareState, ShareInput, hash_difficulty, dedupe_key, counts, begin_share, accept, validate_share,
  validate_shares, find_task, check_share, full_header, to_string, eq_list,
}
use doge_connect.ShareValid.Cases.{IsSound}
use doge_connect.ShareValid.HashDifficulty.{hash_difficulty-zero}
use doge_connect.ShareValid.Counters.{Balanced, sum, validate_shares-Balanced}
use doge_connect.ShareValid.Accept.{
  Silent, Submits, Sends, validate_share-Sends, validate_share-only,
}
use doge_connect.ShareValid.Key.{IsSolution, dedupe_key_injective}
use doge_connect.ShareValid.Dedupe.{accepted_once, accepted_again}
use doge_connect.Prelude.{
  ℕ, take, replicate, all_bytes-IsBytes, ◌^◌, ◌<◌, ◌≡◌, refl, ◌⊎◌, true, false, some, List, [], ◌∷◌,
  ◌++◌, reverse, arith,
}

abbrev toy_scrypt : List ℕ → List ℕ
toy_scrypt header = take 32 (reverse header)

abbrev worker : List ℕ
worker = b'w' ∷ []

abbrev task : DispatcherMiningTask
task = record {
  task_id = b'c' ∷ b'7' ∷ [];
  target_pool = replicate 32 255;
  partial_header = replicate 36 1;
  n_bits = replicate 4 2;
  extra_nonce1 = [];
  coinbase1 = [];
  coinbase2 = [];
  merkle_branches = [];
}

abbrev solution : ℕ → ℕ → DispatcherMiningSolution
solution job nonce = record {
  job_id = job;
  n_time = replicate 4 3;
  nonce = nonce ∷ 0 ∷ 0 ∷ 0 ∷ [];
  merkle_root = replicate 32 4;
  extra_nonce2 = 0 ∷ 0 ∷ 0 ∷ 5 ∷ 9 ∷ 9 ∷ 9 ∷ 9 ∷ [];
  source_public_key = replicate 32 7;
}

abbrev input : ℕ → ℕ → ShareInput
input job nonce = record {
  solution = solution job nonce;
  active_tasks = (11, task) ∷ (12, task) ∷ [];
  now = 1000;
  connected = true;
}

abbrev stats : DispatcherStats
stats = record {
  tasks_distributed = 0;
  solutions_received = 0;
  solutions_accepted = 0;
  solutions_rejected = 0;
  solutions_stale = 0;
  solutions_passed_pool_diff = 0;
  pool_shares_accepted = 0;
  pool_shares_rejected = 0;
  pool_difficulty = 0;
  computor_shares = replicate num_computors 0;
  computor_last_seen = replicate num_computors 0;
}

abbrev start : ShareState
start = record {
  recent_submits = [];
  last_clean_job_id = 0;
  stats = stats;
  next_stratum_send_id = 3;
  sent = [];
}

sound : (nonce job : ℕ) → IsSound toy_scrypt worker (input job nonce) task
unfolding full_header verify_hash_vs_target verify_from
sound nonce job = record { extra_nonce2 = refl; header = refl; target = refl }

fresh : (job nonce : ℕ) → counts start.recent_submits (dedupe_key (solution job nonce)) ≡ false
unfolding counts
fresh job nonce = refl

active : (nonce : ℕ) → get (input 11 nonce).active_tasks 11 ≡ some task
unfolding get
active nonce = refl

well_formed : (job nonce : ℕ) → job < 2 ^ 64 → nonce < 256 → IsSolution (solution job nonce)
well_formed job nonce small byte = record {
  job_id = small;
  nonce = refl;
  nonce_bytes = (byte, (omega arith, (omega arith, (omega arith, tt))));
  extra_nonce2 = refl;
  extra_nonce2_bytes = all_bytes-IsBytes (solution job nonce).extra_nonce2 refl;
}

zero_difficulty : hash_difficulty (replicate 24 255 ++ replicate 8 0) ≡ 0
zero_difficulty =
    hash_difficulty-zero (replicate 24 255 ++ replicate 8 0)
      (all_bytes-IsBytes (replicate 24 255 ++ replicate 8 0) refl)

start-Balanced : Balanced 0 stats
unfolding sum
start-Balanced = record { verdicts = refl; passed = refl; shares = refl; computors = refl }

validate_shares-Balanced_example :
    Balanced 0
      (validate_shares toy_scrypt worker (input 11 1 ∷ input 13 2 ∷ input 11 1 ∷ []) start).stats
validate_shares-Balanced_example =
    validate_shares-Balanced toy_scrypt worker (input 11 1 ∷ input 13 2 ∷ input 11 1 ∷ []) start
      start-Balanced

one_submission :
    Sends toy_scrypt worker
      (input 11 1)
      start
      task
      (validate_share toy_scrypt worker (input 11 1) start)
one_submission =
    validate_share-Sends toy_scrypt worker (input 11 1) start task
      (record { fresh = fresh 11 1; active = active 1; sound = sound 1 11; up = refl })

validate_share-only_example :
    Silent start (validate_share toy_scrypt worker (input 13 1) start)
    ⊎ ((t : DispatcherMiningTask) × Submits toy_scrypt worker (input 13 1) start t)
validate_share-only_example = validate_share-only toy_scrypt worker (input 13 1) start

same_key :
    ((solution 11 1).job_id ≡ (solution 11 1).job_id)
    × ((solution 11 1).nonce ≡ (solution 11 1).nonce)
    × ((solution 11 1).extra_nonce2 ≡ (solution 11 1).extra_nonce2)
same_key =
    dedupe_key_injective (solution 11 1) (solution 11 1)
      (well_formed 11 1 (omega arith) (omega arith)) (well_formed 11 1 (omega arith) (omega arith))
      refl

accepted_once_example :
    let st' =
      validate_shares toy_scrypt worker
        (input 11 2 ∷ [])
        (validate_share toy_scrypt worker (input 11 1) start) in
    validate_share toy_scrypt worker (input 11 1) st' ≡ st'
accepted_once_example =
    accepted_once toy_scrypt worker (input 11 1) (input 11 1) task (input 11 2 ∷ []) start
      (fresh 11 1) (active 1) (sound 1 11) (refl, tt) refl

new_key :
    counts
      (validate_share toy_scrypt worker (input 11 1) start).recent_submits
      (dedupe_key (solution 12 1))
    ≡ false
unfolding counts validate_share begin_share find_task get check_share full_header
    verify_hash_vs_target verify_from accept dedupe_key to_string bytes_to_hex bytes_hex byte_to_hex
    hex_char eq_list
new_key = refl

accepted_again_example :
    let st1 = validate_share toy_scrypt worker (input 11 1) start in
    let st2 = validate_share toy_scrypt worker (input 12 1) st1 in
    (st1 ≡ accept toy_scrypt worker (input 11 1) task (begin_share (solution 11 1) start))
    × (validate_share toy_scrypt worker (input 11 1) st2
        ≡ accept toy_scrypt worker (input 11 1) task (begin_share (solution 11 1) st2))
accepted_again_example =
    accepted_again toy_scrypt worker (input 11 1) (input 12 1) task start (fresh 11 1) (active 1)
      (sound 1 11) (well_formed 11 1 (omega arith) (omega arith))
      (well_formed 12 1 (omega arith) (omega arith)) (λ e. omega arith) new_key
