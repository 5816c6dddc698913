-- ===== src/TaskDist.antt =====
-- dispatcher/src/threads/task_dist_thread.cpp: tasks of the pool, distributed to the Qubic network.
-- The JSON library is a parameter; where the code lets one of its exceptions escape, a step is
-- `none`.
pub mod Loop
pub mod Latest
mod Messages
pub mod Draining
pub mod Packet
pub mod Received
pub mod Reading
pub mod Delivery
mod Tests
mod LoopTests
use doge_connect.Structs.{
  DispatcherMiningTask, DispatcherStats, incr, doge, signature_size, sizeof_header,
  sizeof_custom_task, sizeof_doge_task, custom_task_type,
}
use doge_connect.Structs.Header.{make_header}
use doge_connect.Signing.{Primitives, DispatcherSigningContext, sign_task_packet}
use doge_connect.HashUtil.{little_endian, big_endian, hex_to_bytes}
use doge_connect.Difficulty.{DifficultyTarget}
use doge_connect.Concurrency.HashMap.{insert, clear}
use doge_connect.Prelude.{
  ℕ, ltb, leb, ◌==◌, if◌then◌else◌, ltb→lt, lt→ltb, leb→le, ==_iff, tests, Bool-cases, Option-cases,
  ◌>>=◌, length, get_elem?, set, length-append, length-set, get_elem?-set_self, get_elem?-set_ne,
  get_or, take, drop, replicate, take-append-drop, length-take, length-drop, take-all,
  length-reverse, take-append, drop-append, drop-drop, take-append_le, drop-append_le, get_or-drop,
  length-replicate, length-map, All, All-append, IsBytes, le_value, to_le, le_value-nil,
  le_value-cons, length-to_le, to_le-IsBytes, le_value-lt, le_value-lt_pow, le_value-to_le,
  to_le-le_value, le_value-append, le_value-take-suc, le_value-take-add, le_value-replicate,
  get_or-replicate, get_or-set_ne, take-IsBytes, drop-IsBytes, get_or-lt_byte, append-IsBytes,
  le_value-set, prefix-lt, reverse-IsBytes, all_bytes, all_bytes-IsBytes, bit_or_disjoint,
  bit_and_bit, zero, suc, ◌+◌, ◌-◌, ◌*◌, ◌/◌, ◌%◌, ◌^◌, ◌≤◌, ◌<◌, min, bit_and, bit_or, ◌≡◌, refl,
  sym, ap, ap₂, ◌∙◌, ◌≢◌, ◌↔◌, ◌⊎◌, inl, inr, Bool, true, false, not, ◌&&◌, ◌||◌, Option, none,
  some, List, [], ◌∷◌, ◌++◌, map, foldl, reverse, append_assoc, append-nil, arith,
}

-- What the code uses of a JSON value. `at_key` and `at_index` are `operator[]`, `get_bool`,
-- `get_string` and `get_unsigned` the conversions, `items` the range of an array; `none` is an
-- exception. `is_unsigned` is `is_number_unsigned`; the last two are comparisons.
pub record JsonLib (Json : Type 0) : Type 0 where
  pub contains : Json → List ℕ → Bool
  pub at_key : Json → List ℕ → Option Json
  pub at_index : Json → ℕ → Option Json
  pub get_bool : Json → Option Bool
  pub get_string : Json → Option (List ℕ)
  pub get_unsigned : Json → Option ℕ
  pub items : Json → Option (List Json)
  pub is_null : Json → Bool
  pub is_unsigned : Json → Bool
  pub is_true : Json → Bool
  pub is_string : Json → List ℕ → Bool

-- The loop that reverses each whole word of four bytes.
unfoldable pub swap_words : List ℕ → List ℕ
swap_words (a ∷ b ∷ c ∷ d ∷ rest) = d ∷ c ∷ b ∷ a ∷ swap_words rest
swap_words rest = rest

-- The parameters of a `mining.notify` message, as its strings.
pub record TaskParams : Type 0 where
  pub clean : Bool
  pub task_id : List ℕ
  pub version : List ℕ
  pub n_time : List ℕ
  pub n_bits : List ℕ
  pub prev_hash : List ℕ
  pub coinbase1 : List ℕ
  pub coinbase2 : List ℕ
  pub branches : List (List ℕ)

-- The header fields, as bytes.
pub record HeaderFields : Type 0 where
  pub version : List ℕ
  pub n_time : List ℕ
  pub n_bits : List ℕ
  pub prev_hash : List ℕ

unfoldable pub header_fields : TaskParams → HeaderFields
header_fields params = record {
  version = hex_to_bytes params.version little_endian;
  n_time = hex_to_bytes params.n_time little_endian;
  n_bits = hex_to_bytes params.n_bits little_endian;
  prev_hash = swap_words (hex_to_bytes params.prev_hash big_endian);
}

abbrev pub right_sizes : HeaderFields → Bool
right_sizes f =
    length f.version == 4
    && (length f.prev_hash == 32 && (length f.n_time == 4 && length f.n_bits == 4))

unfoldable pub dispatcher_task :
    TaskParams → HeaderFields → DifficultyTarget → List ℕ → DispatcherMiningTask
dispatcher_task params f pool extra_nonce1 = record {
  task_id = params.task_id;
  target_pool = pool.full_rep;
  partial_header = f.version ++ f.prev_hash;
  n_bits = f.n_bits;
  extra_nonce1 = extra_nonce1;
  coinbase1 = hex_to_bytes params.coinbase1 big_endian;
  coinbase2 = hex_to_bytes params.coinbase2 big_endian;
  merkle_branches = map (λ b. hex_to_bytes b big_endian) params.branches;
}

unfoldable pub sum_lengths : List (List ℕ) → ℕ
sum_lengths [] = 0
sum_lengths (b ∷ bs) = length b + sum_lengths bs

pub concat : List (List ℕ) → List ℕ
concat [] = []
concat (b ∷ bs) = b ++ concat bs

-- The sizes of the branches, as `unsigned int`s.
pub branch_sizes : List (List ℕ) → List ℕ
branch_sizes [] = []
branch_sizes (b ∷ bs) = to_le 4 (length b) ++ branch_sizes bs

-- `totalNumBytes`. The sizes are those of vectors in memory, so the sum is below 2 ^ 64.
unfoldable pub total_num_bytes : DispatcherMiningTask → ℕ
total_num_bytes task =
    sizeof_header
    + sizeof_custom_task
    + sizeof_doge_task
    + length task.extra_nonce1
    + length task.coinbase1
    + length task.coinbase2
    + length task.merkle_branches * 4
    + sum_lengths task.merkle_branches
    + signature_size

-- `offset` at the end: it moves past each part that is written.
pub end_offset : DispatcherMiningTask → ℕ
end_offset task =
    sizeof_header
    + sizeof_custom_task
    + sizeof_doge_task
    + length task.extra_nonce1
    + length task.coinbase1
    + length task.coinbase2
    + length task.merkle_branches * 4
    + sum_lengths task.merkle_branches
    + signature_size

abbrev pub flag : Bool → ℕ
flag clean = if clean then 1 else 0

pub count_bytes : DispatcherMiningTask → List ℕ
count_bytes task =
    to_le 4 (length task.extra_nonce1)
    ++ (to_le 4 (length task.coinbase1)
        ++ (to_le 4 (length task.coinbase2) ++ to_le 4 (length task.merkle_branches)))

pub payload_bytes : DispatcherMiningTask → List ℕ
payload_bytes task =
    task.extra_nonce1
    ++ (task.coinbase1
        ++ (task.coinbase2 ++ (branch_sizes task.merkle_branches ++ concat task.merkle_branches)))

-- The bytes between the packet's header and its signature.
pub task_bytes : ℕ → Bool → HeaderFields → DifficultyTarget → DispatcherMiningTask → List ℕ
task_bytes job_id clean f pool task =
    to_le 8 job_id
    ++ (doge
        ∷ flag clean
        ∷ (pool.compact_rep
            ++ (f.version
                ++ (f.n_time
                    ++ (f.n_bits ++ (f.prev_hash ++ (count_bytes task ++ payload_bytes task)))))))

pub task_packet : Primitives → DispatcherSigningContext → ℕ → List ℕ → List ℕ
task_packet p ctx total bytes =
    make_header total custom_task_type ++ (bytes ++ sign_task_packet p ctx bytes)

-- What the function changes: the active tasks, a counter, and the packets that were given to every
-- connection, last first.
pub record TaskState : Type 0 where
  pub active_tasks : List (ℕ × DispatcherMiningTask)
  pub stats : DispatcherStats
  pub packets : List (List ℕ)

-- What the function reads: the keys, the session's extraNonce1, and the clock in milliseconds.
pub record TaskInput : Type 0 where
  pub primitives : Primitives
  pub context : DispatcherSigningContext
  pub extra_nonce1 : List ℕ
  pub now_ms : ℕ

pub send_task : TaskInput → DispatcherMiningTask → List ℕ → TaskState → TaskState
send_task input task bytes st =
    if not (end_offset task == total_num_bytes task) then st else record {
      active_tasks = insert (input.now_ms % 2 ^ 64) task st.active_tasks;
      stats = record st.stats { tasks_distributed = incr st.stats.tasks_distributed };
      packets =
          task_packet input.primitives input.context (total_num_bytes task) bytes ∷ st.packets;
    }

-- `distributeTask`, once the parameters are read.
pub distribute : TaskInput → TaskParams → Bool → DifficultyTarget → TaskState → TaskState
distribute input params propagate pool st =
    let clean = params.clean || propagate in
    let st' = if clean then record st { active_tasks = clear st.active_tasks } else st in
    let f = header_fields params in
    let task = dispatcher_task params f pool input.extra_nonce1 in
    if not (right_sizes f)
    then st'
    else if ltb 4096 (total_num_bytes task)
    then st'
    else send_task input task (task_bytes (input.now_ms % 2 ^ 64) clean f pool task) st'
