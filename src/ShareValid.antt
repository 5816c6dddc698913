-- ===== src/ShareValid.antt =====
-- dispatcher/src/threads/share_valid_thread.cpp.
pub mod HashDifficulty
pub mod Cases
mod Tests
pub mod Counters
pub mod Accept
mod Key
pub mod Dedupe
use doge_connect.Concurrency.HashMap.{get}
use doge_connect.Difficulty.{or_bytes, verify_hash_vs_target}
use doge_connect.HashUtil.{big_endian, little_endian, bytes_to_hex}
use doge_connect.Structs.{
  DispatcherMiningTask, DispatcherMiningSolution, DispatcherStats, incr, num_computors,
  extra_nonce2_num_bytes,
}
use doge_connect.Prelude.{
  ℕ, ltb, leb, ◌==◌, if◌then◌else◌, ltb→lt, lt→ltb, leb→le, ==_iff, tests, Bool-cases, Option-cases,
  length, get_elem?, set, length-append, length-set, get_elem?-set_self, get_elem?-set_ne, get_or,
  take, drop, replicate, take-append-drop, length-take, length-drop, take-all, take-append,
  drop-append, get_or-drop, length-replicate, length-map, All, IsBytes, le_value, to_le,
  le_value-nil, le_value-cons, length-to_le, to_le-IsBytes, le_value-lt, le_value-lt_pow,
  le_value-to_le, to_le-le_value, le_value-append, le_value-take-suc, le_value-take-add,
  le_value-replicate, get_or-replicate, get_or-set_ne, take-IsBytes, drop-IsBytes, get_or-lt_byte,
  append-IsBytes, le_value-set, prefix-lt, bit_or_disjoint, bit_and_bit, zero, suc, ◌+◌, ◌-◌, ◌*◌,
  ◌/◌, ◌%◌, ◌^◌, ◌≤◌, ◌<◌, min, bit_and, bit_or, ◌≡◌, refl, sym, ap, ap₂, ◌∙◌, ◌≢◌, ◌↔◌, ◌⊎◌, inl,
  inr, Bool, true, false, not, ◌&&◌, ◌||◌, Option, none, some, List, [], ◌∷◌, ◌++◌, map, foldl,
  reverse, append_assoc, append-nil, arith, length-reverse, reverse-IsBytes, ◌>>=◌, drop-drop,
  take-append_le, drop-append_le, All-append, all_bytes, all_bytes-IsBytes,
}

-- The loop from `i = n - 1` down to 0 for the most significant byte; `none` is -1.
pub find_msb : ℕ → List ℕ → Option ℕ
find_msb zero hash = none
find_msb (suc i) hash = if get_or hash i 0 == 0 then find_msb i hash else some i

-- `hash[idx]` for `idx = msb - i`, and 0 where that is negative.
abbrev pub top_byte : ℕ → ℕ → List ℕ → ℕ
top_byte msb i hash = if leb i msb then get_or hash (msb - i) 0 else 0

-- `hashTop = (hashTop << 8) | byte`, for `rounds` more bytes from the `i`th on.
pub read_top : ℕ → ℕ → ℕ → List ℕ → ℕ → ℕ
read_top zero i msb hash top = top
read_top (suc rounds) i msb hash top =
    read_top rounds (i + 1) msb hash (bit_or (top_byte msb i hash) (top * 2 ^ 8 % 2 ^ 64))

-- `diff *= 256` with its overflow guard, `rounds` times.
pub scale_up : ℕ → ℕ → ℕ
scale_up zero diff = diff
scale_up (suc rounds) diff =
    let rest = scale_up rounds (diff * 256 % 2 ^ 64) in
    if ltb ((2 ^ 64 - 1) / 256) diff then 2 ^ 64 - 1 else rest

abbrev pub base_msb : ℕ
base_msb = 29

abbrev pub base_top : ℕ
base_top = 0x00ff_ff00_0000_0000

abbrev pub difficulty_at : ℕ → List ℕ → ℕ
difficulty_at msb hash =
    let hash_top = read_top 8 0 msb hash 0 in
    if hash_top == 0
    then 0
    else if ltb 0 (base_msb - msb)
    then scale_up (base_msb - msb) (base_top / hash_top)
    else base_top / hash_top

-- `hashDifficulty`.
pub hash_difficulty : List ℕ → ℕ
hash_difficulty hash = elim (find_msb 32 hash) [
  | none ↦ 0
  | some msb ↦ if ltb base_msb msb then 0 else difficulty_at msb hash
]

-- `std::to_string` of an unsigned integer, on fuel: 20 digits are enough for 64 bits.
pub to_string : ℕ → ℕ → List ℕ
to_string zero n = []
to_string (suc fuel) n =
    let rest = to_string fuel (n / 10) in
    if ltb n 10 then (b'0' + n) ∷ [] else rest ++ (b'0' + n % 10) ∷ []

-- `dedupeKey`.
pub dedupe_key : DispatcherMiningSolution → List ℕ
dedupe_key sol =
    to_string 20 sol.job_id
    ++ (b'_' ∷ (bytes_to_hex sol.nonce big_endian ++ bytes_to_hex sol.extra_nonce2 big_endian))

pub eq_list : List ℕ → List ℕ → Bool
eq_list [] [] = true
eq_list (x ∷ xs) (y ∷ ys) = x == y && eq_list xs ys
eq_list _ _ = false

-- `recentSubmits.count(key)` of the set, kept as a list.
unfoldable pub counts : List (List ℕ) → List ℕ → Bool
counts [] key = false
counts (k ∷ ks) key = eq_list k key || counts ks key

-- The `mining.submit` message: its id and the five strings of its parameters.
pub record Submission : Type 0 where
  pub id : ℕ
  pub worker_name : List ℕ
  pub task_id : List ℕ
  pub extra_nonce2 : List ℕ
  pub n_time : List ℕ
  pub nonce : List ℕ

-- What the loop keeps between rounds, with the counters and the messages that were handed to
-- `sendMessage` so far, last first.
pub record ShareState : Type 0 where
  pub recent_submits : List (List ℕ)
  pub last_clean_job_id : ℕ
  pub stats : DispatcherStats
  pub next_stratum_send_id : ℕ
  pub sent : List Submission

-- What a round reads of the rest of the program: the map of active tasks as it is then, the clock
-- in seconds, and whether the pool connection stands.
pub record ShareInput : Type 0 where
  pub solution : DispatcherMiningSolution
  pub active_tasks : List (ℕ × DispatcherMiningTask)
  pub now : ℕ
  pub connected : Bool

-- The header that is hashed: 80 bytes.
unfoldable pub full_header : DispatcherMiningTask → DispatcherMiningSolution → List ℕ
full_header task sol =
    task.partial_header ++ (sol.merkle_root ++ (sol.n_time ++ (task.n_bits ++ sol.nonce)))

-- The first four bytes of extraNonce2, most significant first, modulo 676.
pub computor_idx : DispatcherMiningSolution → ℕ
computor_idx sol = or_bytes 0 0 (reverse (take 4 sol.extra_nonce2)) % 676

pub submission : List ℕ → ℕ → DispatcherMiningTask → DispatcherMiningSolution → Submission
submission worker_name id task sol = record {
  id = id;
  worker_name = worker_name;
  task_id = task.task_id;
  extra_nonce2 = bytes_to_hex sol.extra_nonce2 big_endian;
  n_time = bytes_to_hex sol.n_time little_endian;
  nonce = bytes_to_hex sol.nonce little_endian;
}

pub count_share : ℕ → ℕ → DispatcherStats → DispatcherStats
count_share idx now stats =
    if ltb idx num_computors
    then record stats {
      computor_shares = set stats.computor_shares idx (incr (get_or stats.computor_shares idx 0));
      computor_last_seen = set stats.computor_last_seen idx now;
    }
    else stats

-- Past the deduplication: the solution is counted, and a change of job clears the set.
pub begin_share : DispatcherMiningSolution → ShareState → ShareState
begin_share sol st =
    let counted = record st {
      stats = record st.stats { solutions_received = incr st.stats.solutions_received };
    } in
    if not (sol.job_id == st.last_clean_job_id)
    then record counted { recent_submits = []; last_clean_job_id = sol.job_id }
    else counted

abbrev pub reject : ShareState → ShareState
reject st = record st {
  stats = record st.stats { solutions_rejected = incr st.stats.solutions_rejected };
}

-- `scrypt` stands for `scrypt_1024_1_1_256`.
module _ (scrypt : List ℕ → List ℕ) (worker_name : List ℕ) where
  -- From the hash that met the pool's target on.
  pub accept : ShareInput → DispatcherMiningTask → ShareState → ShareState
  accept input task st =
      let sol = input.solution in
      let counted = record st.stats { solutions_accepted = incr st.stats.solutions_accepted } in
      let shared = count_share (computor_idx sol) input.now counted in
      let passed = record shared {
        solutions_passed_pool_diff = incr shared.solutions_passed_pool_diff;
      } in
      let st' = record st { stats = passed; recent_submits = dedupe_key sol ∷ st.recent_submits } in
      if input.connected
      then record st' {
        next_stratum_send_id = incr st'.next_stratum_send_id;
        sent = submission worker_name st'.next_stratum_send_id task sol ∷ st'.sent;
      }
      else st'

  -- The checks of a solution whose task is active.
  pub check_share : ShareInput → DispatcherMiningTask → ShareState → ShareState
  check_share input task st =
      if not (extra_nonce2_num_bytes == length input.solution.extra_nonce2)
      then reject st
      else if not (length (full_header task input.solution) == 80)
      then reject st
      else if not
          (verify_hash_vs_target (scrypt (full_header task input.solution)) task.target_pool)
      then reject st
      else accept input task st

  pub find_task : ShareInput → ShareState → ShareState
  find_task input st = elim (get input.active_tasks input.solution.job_id) [
    | none ↦ record st {
      stats = record st.stats { solutions_stale = incr st.stats.solutions_stale };
    }
    | some task ↦ check_share input task st
  ]

  -- One round of the body of `shareValidationLoop`.
  pub validate_share : ShareInput → ShareState → ShareState
  validate_share input st =
      if counts st.recent_submits (dedupe_key input.solution)
      then st
      else find_task input (begin_share input.solution st)

  -- The loop over the solutions that are popped, in their order.
  pub validate_shares : List ShareInput → ShareState → ShareState
  validate_shares [] st = st
  validate_shares (input ∷ inputs) st = validate_shares inputs (validate_share input st)
