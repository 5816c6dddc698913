-- ===== src/Structs.antt =====
-- The data of dispatcher/src/structs.h: the dispatcher's records, its counters, and the packed
-- wire structs, which the code reads and writes in place in byte buffers.
pub mod Header
pub mod Fields
mod Tests
use doge_connect.Prelude.{
  ℕ, ◌+◌, ◌*◌, ◌%◌, ◌^◌, List, ◌++◌, Option, take, drop, to_le, le_value, get_or, set, ltb, leb,
  ◌==◌, if◌then◌else◌, ltb→lt, lt→ltb, leb→le, ==_iff, tests, Bool-cases, Option-cases, length,
  get_elem?, length-append, length-set, get_elem?-set_self, get_elem?-set_ne, replicate,
  take-append-drop, length-take, length-drop, take-all, take-append, drop-append, get_or-drop,
  length-replicate, length-map, All, IsBytes, le_value-nil, le_value-cons, length-to_le,
  to_le-IsBytes, le_value-lt, le_value-lt_pow, le_value-to_le, to_le-le_value, le_value-append,
  le_value-take-suc, le_value-take-add, le_value-replicate, get_or-replicate, get_or-set_ne,
  take-IsBytes, drop-IsBytes, get_or-lt_byte, append-IsBytes, le_value-set, prefix-lt,
  bit_or_disjoint, bit_and_bit, zero, suc, ◌-◌, ◌/◌, ◌≤◌, ◌<◌, min, bit_and, bit_or, ◌≡◌, refl, sym,
  ap, ap₂, ◌∙◌, ◌≢◌, ◌↔◌, ◌⊎◌, inl, inr, Bool, true, false, not, ◌&&◌, ◌||◌, none, some, [], ◌∷◌,
  map, foldl, reverse, append_assoc, append-nil, arith,
}

abbrev pub signature_size : ℕ
signature_size = 64

abbrev pub num_computors : ℕ
num_computors = 676

-- The enumerator `DOGE`.
abbrev pub doge : ℕ
doge = 0

-- `sizeof` of the packed structs.
abbrev pub sizeof_header : ℕ
sizeof_header = 8

abbrev pub sizeof_custom_task : ℕ
sizeof_custom_task = 9

abbrev pub sizeof_doge_task : ℕ
sizeof_doge_task = 65

abbrev pub sizeof_custom_solution : ℕ
sizeof_custom_solution = 41

abbrev pub sizeof_doge_solution : ℕ
sizeof_doge_solution = 48

-- `CustomQubicMiningTask::type()` and `CustomQubicMiningSolution::type()`.
abbrev pub custom_task_type : ℕ
custom_task_type = 68

abbrev pub custom_solution_type : ℕ
custom_solution_type = 69

-- A struct member: `len` bytes at `offset` of the buffer.
abbrev pub field_at : ℕ → ℕ → List ℕ → List ℕ
field_at offset len buffer = take len (drop offset buffer)

pub record DispatcherMiningTask : Type 0 where
  pub task_id : List ℕ
  pub target_pool : List ℕ
  pub partial_header : List ℕ
  pub n_bits : List ℕ
  pub extra_nonce1 : List ℕ
  pub coinbase1 : List ℕ
  pub coinbase2 : List ℕ
  pub merkle_branches : List (List ℕ)

-- `DispatcherMiningTask::extraNonce2NumBytes`.
abbrev pub extra_nonce2_num_bytes : ℕ
extra_nonce2_num_bytes = 8

pub record DispatcherMiningSolution : Type 0 where
  pub job_id : ℕ
  pub n_time : List ℕ
  pub nonce : List ℕ
  pub merkle_root : List ℕ
  pub extra_nonce2 : List ℕ
  pub source_public_key : List ℕ

-- The counters are `uint64_t`, so an increment wraps.
abbrev pub incr : ℕ → ℕ
incr n = (n + 1) % 2 ^ 64

pub record DispatcherStats : Type 0 where
  pub tasks_distributed : ℕ
  pub solutions_received : ℕ
  pub solutions_accepted : ℕ
  pub solutions_rejected : ℕ
  pub solutions_stale : ℕ
  pub solutions_passed_pool_diff : ℕ
  pub pool_shares_accepted : ℕ
  pub pool_shares_rejected : ℕ
  pub pool_difficulty : ℕ
  pub computor_shares : List ℕ
  pub computor_last_seen : List ℕ

-- The counters of one peer. Its address is `ip` and `port`.
pub record PeerStats : Type 0 where
  pub ip : List ℕ
  pub port : ℕ
  pub reconnects : ℕ
  pub solutions_received : ℕ
  pub packets_received : ℕ
  pub bytes_received : ℕ
  pub disconnects : ℕ
  pub send_failures : ℕ
