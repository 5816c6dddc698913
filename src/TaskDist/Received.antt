-- ===== src/TaskDist/Received.antt =====
-- The fields of the packet of a task, at the places where the miner reads them.
use doge_connect.Prelude.{
  ℕ, length, get_or, take, drop, drop-drop, get_or-drop, le_value, to_le, length-to_le,
  le_value-to_le, ◌+◌, ◌^◌, ◌≤◌, ◌<◌, ◌≡◌, refl, sym, ap, ◌∙◌, Bool, List, ◌∷◌, ◌++◌, append_assoc,
  arith,
}
use doge_connect.Structs.{DispatcherMiningTask, doge, field_at}
use doge_connect.Structs.Fields.{drop_next, take_first, field_behind}
use doge_connect.Difficulty.{DifficultyTarget, full_of_compact}
use doge_connect.TestMiner.{InternalMiningTask, Counts, read_counts}
use doge_connect.TaskDist.{
  HeaderFields, flag, count_bytes, payload_bytes, task_bytes, total_num_bytes, sum_lengths,
}

-- The fields have the sizes of the structs' arrays.
pub record IsFixed (f : HeaderFields) (pool : DifficultyTarget) : Type 0 where
  pub compact : length pool.compact_rep ≡ 4
  pub version : length f.version ≡ 4
  pub n_time : length f.n_time ≡ 4
  pub n_bits : length f.n_bits ≡ 4
  pub prev_hash : length f.prev_hash ≡ 32

-- The task of the miner that corresponds to a task of the dispatcher.
abbrev pub miner_task :
    ℕ → HeaderFields → DifficultyTarget → DispatcherMiningTask → InternalMiningTask
miner_task job f pool task = record {
  job_id = job;
  target_dispatcher = full_of_compact pool.compact_rep;
  partial_header1 = f.version ++ f.prev_hash;
  partial_header2 = f.n_time ++ f.n_bits;
  extra_nonce1 = task.extra_nonce1;
  coinbase1 = task.coinbase1;
  coinbase2 = task.coinbase2;
  merkle_branches = task.merkle_branches;
}

abbrev pub counts_of : DispatcherMiningTask → Counts
counts_of task = record {
  extra_nonce1 = length task.extra_nonce1;
  coinbase1 = length task.coinbase1;
  coinbase2 = length task.coinbase2;
  branches = length task.merkle_branches;
}

module _ (job : ℕ) (clean : Bool) (f : HeaderFields) (pool : DifficultyTarget)
    (task : DispatcherMiningTask) (signature : List ℕ) (fixed : IsFixed f pool)
    (small : total_num_bytes task ≤ 4096) where
  abbrev pub bytes : List ℕ
  bytes = task_bytes job clean f pool task ++ signature

  -- What follows the counts.
  abbrev pub rest : List ℕ
  rest = payload_bytes task ++ signature

  abbrev pub from_prev_hash : List ℕ
  from_prev_hash = f.prev_hash ++ (count_bytes task ++ rest)

  -- What follows the clean flag.
  abbrev pub from_compact : List ℕ
  from_compact = pool.compact_rep ++ (f.version ++ (f.n_time ++ (f.n_bits ++ from_prev_hash)))

  pub bytes-parts : bytes ≡ to_le 8 job ++ (doge ∷ (flag clean ∷ from_compact))
  unfolding task_bytes
  bytes-parts = simp append_assoc

  drop_job : drop 8 bytes ≡ doge ∷ (flag clean ∷ from_compact)
  drop_job =
      ap (drop 8) bytes-parts
      ∙ drop_next 8 8 0 (to_le 8 job) (doge ∷ (flag clean ∷ from_compact)) (length-to_le 8 job) refl

  pub job_id-bytes : job < 2 ^ 64 → le_value (field_at 0 8 bytes) ≡ job
  job_id-bytes fits =
      ap (λ t. le_value (take 8 t)) bytes-parts
      ∙ ap le_value
          (take_first 8 (to_le 8 job) (doge ∷ (flag clean ∷ from_compact)) (length-to_le 8 job))
      ∙ le_value-to_le 8 job fits

  pub doge-bytes : get_or bytes 8 0 ≡ doge
  doge-bytes = sym (get_or-drop 8 0 bytes 0) ∙ ap (λ t. get_or t 0 0) drop_job

  pub clean-bytes : get_or bytes 9 0 ≡ flag clean
  clean-bytes = sym (get_or-drop 8 1 bytes 0) ∙ ap (λ t. get_or t 1 0) drop_job

  drop_flags : (m : ℕ) → drop (10 + m) bytes ≡ drop m from_compact
  drop_flags m =
      sym (drop-drop m 10 bytes) ∙ ap (drop m) (sym (drop-drop 2 8 bytes) ∙ ap (drop 2) drop_job)

  pub compact-bytes : field_at 10 4 bytes ≡ pool.compact_rep
  compact-bytes =
      ap (take 4) (drop_flags 0)
      ∙ take_first 4 pool.compact_rep (f.version ++ (f.n_time ++ (f.n_bits ++ from_prev_hash)))
          fixed.compact

  drop_compact :
      (o m : ℕ)
      → o ≡ 4 + m
      → drop (10 + o) bytes ≡ drop m (f.version ++ (f.n_time ++ (f.n_bits ++ from_prev_hash)))
  drop_compact o m e = drop_flags o ∙ drop_next o 4 m pool.compact_rep _ fixed.compact e

  pub version-bytes : field_at 14 4 bytes ≡ f.version
  version-bytes = ap (take 4) (drop_compact 4 0 refl) ∙ take_first 4 f.version _ fixed.version

  pub n_time-bytes : field_at 18 4 bytes ≡ f.n_time
  n_time-bytes =
      ap (take 4) (drop_compact 8 4 refl)
      ∙ field_behind 4 4 f.version f.n_time _ fixed.version fixed.n_time

  pub n_bits-bytes : field_at 22 4 bytes ≡ f.n_bits
  n_bits-bytes =
      ap (take 4) (drop_compact 12 8 refl ∙ drop_next 8 4 4 f.version _ fixed.version refl)
      ∙ field_behind 4 4 f.n_time f.n_bits _ fixed.n_time fixed.n_bits

  drop_n_bits : (o m : ℕ) → o ≡ 16 + m → drop (10 + o) bytes ≡ drop m from_prev_hash
  drop_n_bits o m e =
      drop_compact o (12 + m) (omega arith)
      ∙ drop_next (12 + m) 4 (8 + m) f.version _ fixed.version (omega arith)
      ∙ drop_next (8 + m) 4 (4 + m) f.n_time _ fixed.n_time (omega arith)
      ∙ drop_next (4 + m) 4 m f.n_bits _ fixed.n_bits refl

  pub prev_hash-bytes : field_at 26 32 bytes ≡ f.prev_hash
  prev_hash-bytes =
      ap (take 32) (drop_n_bits 16 0 refl) ∙ take_first 32 f.prev_hash _ fixed.prev_hash

  pub drop_prev_hash :
      (o m : ℕ) → o ≡ 48 + m → drop (10 + o) bytes ≡ drop m (count_bytes task ++ rest)
  drop_prev_hash o m e =
      drop_n_bits o (32 + m) (omega arith)
      ∙ drop_next (32 + m) 32 m f.prev_hash _ fixed.prev_hash refl

  pub counts_fit :
      (length task.extra_nonce1 < 256 ^ 4)
      × (length task.coinbase1 < 256 ^ 4)
      × (length task.coinbase2 < 256 ^ 4)
      × (length task.merkle_branches < 256 ^ 4)
      × (sum_lengths task.merkle_branches < 2 ^ 32)
  unfolding total_num_bytes
  counts_fit = (
    omega (arith, small),
    omega (arith, small),
    omega (arith, small),
    omega (arith, small),
    omega (arith, small),
  )

  -- The four counts, 4 bytes each.
  pub read_counts-bytes : read_counts bytes ≡ counts_of task
  unfolding read_counts count_bytes to_le
  read_counts-bytes =
      let count =
        λ (o m : ℕ) (e : o ≡ 48 + m). ap (λ t. le_value (take 4 t)) (drop_prev_hash o m e) in
      rw
        (
          count 48 0 refl ∙ le_value-to_le 4 (length task.extra_nonce1) counts_fit.0,
          count 52 4 refl ∙ le_value-to_le 4 (length task.coinbase1) counts_fit.1,
          count 56 8 refl ∙ le_value-to_le 4 (length task.coinbase2) counts_fit.2,
          count 60 12 refl ∙ le_value-to_le 4 (length task.merkle_branches) counts_fit.3,
        )
        refl
