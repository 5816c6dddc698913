-- ===== src/TestMiner.antt =====
-- The test miner, dispatcher/test/testminer: the packet of a solution (mining_thread.cpp) and the
-- reading of a task (task_recv_thread.cpp). The children have the threads.
pub mod Solutions
pub mod Search
pub mod Threads
pub mod Tried
mod Order
mod Races
mod Stop
mod Tests
mod ThreadTests
use doge_connect.Structs.{
  DispatcherMiningSolution, doge, signature_size, sizeof_custom_task, sizeof_doge_task,
  custom_solution_type, field_at,
}
use doge_connect.Structs.Header.{make_header}
use doge_connect.Signing.{Primitives, DispatcherSigningContext, sign_task_packet}
use doge_connect.Difficulty.{full_of_compact}
use doge_connect.Concurrency.Queue.{push, clear}
use doge_connect.Prelude.{
  ltb, leb, ◌==◌, if◌then◌else◌, ltb→lt, lt→ltb, leb→le, ==_iff, tests, Bool-cases, Option-cases,
  length, get_elem?, set, length-append, length-set, get_elem?-set_self, get_elem?-set_ne, get_or,
  take, drop, replicate, take-append-drop, length-take, length-drop, take-all, length-reverse,
  take-append, drop-append, drop-drop, take-append_le, drop-append_le, get_or-drop,
  length-replicate, length-map, All, All-append, IsBytes, le_value, to_le, le_value-nil,
  le_value-cons, length-to_le, to_le-IsBytes, le_value-lt, le_value-lt_pow, le_value-to_le,
  to_le-le_value, le_value-append, le_value-take-suc, le_value-take-add, le_value-replicate,
  get_or-replicate, get_or-set_ne, take-IsBytes, drop-IsBytes, get_or-lt_byte, append-IsBytes,
  le_value-set, prefix-lt, reverse-IsBytes, bit_or_disjoint, bit_and_bit, ℕ, zero, suc, ◌+◌, ◌-◌,
  ◌*◌, ◌/◌, ◌%◌, ◌^◌, ◌≤◌, ◌<◌, min, bit_and, bit_or, ◌≡◌, refl, sym, ap, ap₂, ◌∙◌, ◌≢◌, ◌↔◌, ◌⊎◌,
  inl, inr, Bool, true, false, not, ◌&&◌, ◌||◌, Option, none, some, List, [], ◌∷◌, ◌++◌, map, foldl,
  reverse, append_assoc, append-nil, arith, ◌>>=◌, all_bytes, all_bytes-IsBytes,
}

pub record InternalMiningTask : Type 0 where
  pub job_id : ℕ
  pub target_dispatcher : List ℕ
  pub partial_header1 : List ℕ
  pub partial_header2 : List ℕ
  pub extra_nonce1 : List ℕ
  pub coinbase1 : List ℕ
  pub coinbase2 : List ℕ
  pub merkle_branches : List (List ℕ)

-- The signed part of the packet: `CustomQubicMiningSolution` and `QubicDogeMiningSolution`.
pub solution_bytes : DispatcherMiningSolution → List ℕ
solution_bytes sol =
    sol.source_public_key
    ++ (to_le 8 sol.job_id
        ++ (doge ∷ (sol.n_time ++ (sol.nonce ++ (sol.merkle_root ++ sol.extra_nonce2)))))

-- The packet that `miningLoop` sends of a solution.
pub solution_packet : Primitives → DispatcherSigningContext → DispatcherMiningSolution → List ℕ
solution_packet p ctx sol =
    make_header 161 custom_solution_type
    ++ (solution_bytes sol ++ sign_task_packet p ctx (solution_bytes sol))

-- The header that is hashed, with its nonce in the last four bytes.
unfoldable pub mining_header : InternalMiningTask → List ℕ → List ℕ → List ℕ
mining_header task merkle_root nonce =
    task.partial_header1 ++ (merkle_root ++ (task.partial_header2 ++ nonce))

-- The solution that is sent for a header: its nTime and its nonce are those of the header.
unfoldable pub solution_of :
    DispatcherSigningContext
    → InternalMiningTask
    → (merkle_root extra_nonce2 nonce : List ℕ) → DispatcherMiningSolution
solution_of ctx task merkle_root extra_nonce2 nonce =
    let header = mining_header task merkle_root nonce in
    record {
      job_id = task.job_id;
      n_time = field_at 68 4 header;
      nonce = field_at 76 4 header;
      merkle_root = merkle_root;
      extra_nonce2 = extra_nonce2;
      source_public_key = ctx.public_key;
    }

-- The sizes of the merkle branches, four bytes each.
unfoldable pub read_sizes : ℕ → List ℕ → List ℕ
read_sizes zero bytes = []
read_sizes (suc n) bytes = le_value (take 4 bytes) ∷ read_sizes n (drop 4 bytes)

unfoldable pub read_branches : List ℕ → List ℕ → List (List ℕ)
read_branches [] bytes = []
read_branches (n ∷ ns) bytes = take n bytes ∷ read_branches ns (drop n bytes)

unfoldable pub sum_sizes : List ℕ → ℕ
sum_sizes [] = 0
sum_sizes (n ∷ ns) = n + sum_sizes ns

-- The thread's queue and its flag.
pub record MinerState : Type 0 where
  pub active_tasks : List InternalMiningTask
  pub start_new_job : Bool

-- `recvBytes < recvBytesMin` of two `int`s, the second a sum that wraps.
abbrev pub too_short : ℕ → ℕ → Bool
too_short recv_bytes recv_bytes_min =
    ltb (recv_bytes_min % 2 ^ 32) (2 ^ 31) && ltb recv_bytes (recv_bytes_min % 2 ^ 32)

-- The four counts of `QubicDogeMiningTask`, as they stand in the bytes behind the packet's header.
pub record Counts : Type 0 where
  pub extra_nonce1 : ℕ
  pub coinbase1 : ℕ
  pub coinbase2 : ℕ
  pub branches : ℕ

unfoldable pub read_counts : List ℕ → Counts
read_counts bytes = record {
  extra_nonce1 = le_value (field_at 58 4 bytes);
  coinbase1 = le_value (field_at 62 4 bytes);
  coinbase2 = le_value (field_at 66 4 bytes);
  branches = le_value (field_at 70 4 bytes);
}

abbrev pub fixed_size : ℕ
fixed_size = sizeof_custom_task + sizeof_doge_task + signature_size

-- The task that the bytes describe.
unfoldable pub read_task : List ℕ → Counts → InternalMiningTask
read_task bytes n =
    let payload = drop (sizeof_custom_task + sizeof_doge_task) bytes in
    let after1 = drop n.extra_nonce1 payload in
    let after2 = drop n.coinbase1 after1 in
    let sizes = drop n.coinbase2 after2 in
    record {
      job_id = le_value (field_at 0 8 bytes);
      target_dispatcher = full_of_compact (field_at 10 4 bytes);
      partial_header1 = field_at 14 4 bytes ++ field_at 26 32 bytes;
      partial_header2 = field_at 18 4 bytes ++ field_at 22 4 bytes;
      extra_nonce1 = take n.extra_nonce1 payload;
      coinbase1 = take n.coinbase1 after1;
      coinbase2 = take n.coinbase2 after2;
      merkle_branches = read_branches (read_sizes n.branches sizes) (drop (n.branches * 4) sizes);
    }

-- The sizes of the branches that the bytes announce.
unfoldable pub read_branch_sizes : List ℕ → Counts → List ℕ
read_branch_sizes bytes n = read_sizes n.branches (
    drop n.coinbase2
      (drop n.coinbase1 (drop n.extra_nonce1 (drop (sizeof_custom_task + sizeof_doge_task) bytes))))

pub enqueue_task : Bool → InternalMiningTask → MinerState → MinerState
enqueue_task clean task st =
    if clean
    then record { active_tasks = push task (clear st.active_tasks); start_new_job = true }
    else record st { active_tasks = push task st.active_tasks }

-- The task in the bytes that were received behind a header, and its clean flag; `none` is
-- `continue`.
unfoldable pub read_packet : List ℕ → Option (Bool × InternalMiningTask)
read_packet bytes =
    let recv_bytes = length bytes in
    let n = read_counts bytes in
    let min1 =
      fixed_size + ((n.extra_nonce1 + n.coinbase1 + n.coinbase2) % 2 ^ 32 + n.branches * 4) in
    let min2 = min1 + sum_sizes (read_branch_sizes bytes n) in
    if ltb recv_bytes fixed_size
    then none
    else if not (get_or bytes 8 0 == doge)
    then none
    else if too_short recv_bytes min1
    then none
    else if too_short recv_bytes min2
    then none
    else some (not (get_or bytes 9 0 == 0), read_task bytes n)

-- One round of the body of `taskReceiveLoop`, with nothing in between.
unfoldable pub receive_task : List ℕ → MinerState → MinerState
receive_task bytes st = elim (read_packet bytes) [
  | none ↦ st
  | some (clean, task) ↦ enqueue_task clean task st
]

pub receive_task-some :
    (bytes : List ℕ) (clean : Bool) (task : InternalMiningTask) (st : MinerState)
    → read_packet bytes ≡ some (clean, task)
    → receive_task bytes st ≡ enqueue_task clean task st
unfolding receive_task enqueue_task
receive_task-some bytes clean task st e = rw (e, receive_task) refl
