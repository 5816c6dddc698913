-- ===== src/TaskDist/Delivery.antt =====
-- `distributeTask`, from the pool's parameters to the miner's queue.
use doge_connect.Structs.{DispatcherMiningTask, custom_task_type}
use doge_connect.Structs.Header.{
  header_size, header_type, make_header, header_size-make_header, header_type-make_header,
  length-make_header,
}
use doge_connect.Structs.Fields.{drop_next}
use doge_connect.Signing.{sign_task_packet}
use doge_connect.Difficulty.{DifficultyTarget}
use doge_connect.Concurrency.HashMap.{insert}
use doge_connect.TestMiner.{MinerState, enqueue_task, receive_task}
use doge_connect.TaskDist.{
  TaskParams, TaskInput, TaskState, HeaderFields, header_fields, right_sizes, dispatcher_task,
  total_num_bytes, end_offset, task_bytes, task_packet, send_task, distribute,
}
use doge_connect.TaskDist.Received.{IsFixed, miner_task}
use doge_connect.TaskDist.Reading.{length-bytes, receive_task-bytes}
use doge_connect.Prelude.{
  ℕ, ltb, ◌==◌, if◌then◌else◌, lt→ltb, ==_iff, Bool-cases, length, length-append, drop, ◌-◌, ◌%◌,
  ◌^◌, ◌≤◌, ◌<◌, ◌≡◌, refl, ap, ◌∙◌, ◌⊎◌, inl, inr, Bool, true, false, ◌||◌, List, [], ◌∷◌, ◌++◌,
  arith, ◌≢◌,
}

pub right_sizes-IsFixed :
    (f : HeaderFields) (pool : DifficultyTarget)
    → right_sizes f ≡ true
    → length pool.compact_rep ≡ 4
    → IsFixed f pool
right_sizes-IsFixed f pool h c = record {
  compact = c;
  version = ground arith;
  n_time = ground arith;
  n_bits = ground arith;
  prev_hash = ground arith;
}

module _ (input : TaskInput) (params : TaskParams) (propagate : Bool) (pool : DifficultyTarget)
    (st : TaskState) where
  abbrev pub fields : HeaderFields
  fields = header_fields params

  abbrev pub task : DispatcherMiningTask
  task = dispatcher_task params fields pool input.extra_nonce1

  -- The flag of the task, the message's own or that of a message it stands for.
  abbrev pub clean : Bool
  clean = params.clean || propagate

  abbrev pub kept_tasks : List (ℕ × DispatcherMiningTask)
  kept_tasks = if clean then [] else st.active_tasks

  abbrev pub after : TaskState
  after = distribute input params propagate pool st

  -- A packet that carries the task: its header states its length, and the miner's reading of it
  -- queues the task, under the job id, with the pool's target in compact form.
  abbrev pub Carries : List ℕ → Type 0
  Carries packet =
      (header_size packet ≡ length packet)
      × (header_type packet ≡ custom_task_type)
      × ((m : MinerState)
          → receive_task (drop 8 packet) m
            ≡ enqueue_task clean (miner_task input.now_ms fields pool task) m)

  -- What is sent, and what is kept under the job id.
  abbrev pub Delivers : Type 0
  Delivers =
      ((packet : List ℕ) × (after.packets ≡ packet ∷ st.packets) × Carries packet)
      × (after.active_tasks ≡ insert input.now_ms task kept_tasks)

  abbrev bytes : List ℕ
  bytes = task_bytes input.now_ms clean fields pool task

  abbrev packet : List ℕ
  packet = task_packet input.primitives input.context (total_num_bytes task) bytes

  -- The state after the clean flag is heeded.
  abbrev cleaned : TaskState
  cleaned = if clean then record st { active_tasks = [] } else st

  cleaned-kept :
      (cleaned.packets ≡ st.packets)
      × (cleaned.stats ≡ st.stats)
      × (cleaned.active_tasks ≡ kept_tasks)
  cleaned-kept = elim (Bool-cases clean) [
    | inl yes_clean ↦ rw yes_clean (refl, refl, refl)
    | inr no_clean ↦ rw no_clean (refl, refl, refl)
  ]

  total-positive : 0 < total_num_bytes task
  unfolding total_num_bytes
  total-positive = omega arith

  packet-Carries :
      IsFixed fields pool
      → total_num_bytes task ≤ 4096
      → input.now_ms < 2 ^ 64
      → length (sign_task_packet input.primitives input.context bytes) ≡ 64
      → Carries packet
  unfolding task_packet
  packet-Carries fixed small now len =
      let total = total_num_bytes task in
      let signature = sign_task_packet input.primitives input.context bytes in
      let h = make_header total custom_task_type in
      let eight = length-make_header total custom_task_type in
      let exact = length-bytes input.now_ms clean fields pool task signature fixed small len in
      let stated : (if total % 2 ^ 24 == 0 then 2 ^ 31 - 1 else total % 2 ^ 24) ≡ total =
        ground (arith, small, total-positive) in
      (
        header_size-make_header total custom_task_type (bytes ++ signature)
            ∙ stated
            ∙ omega (arith, exact, length-append h (bytes ++ signature), eight),
        header_type-make_header total custom_task_type (bytes ++ signature),
        λ m.
            ap (λ t. receive_task t m) (drop_next 8 8 0 h (bytes ++ signature) eight refl)
            ∙ receive_task-bytes input.now_ms clean fields pool task signature fixed small now len
                m,
      )

  send_task-sends :
      (now : input.now_ms < 2 ^ 64) (s : TaskState)
      → let s' = send_task input task bytes s in
        (s'.packets ≡ packet ∷ s.packets)
        × (s'.active_tasks ≡ insert input.now_ms task s.active_tasks)
  unfolding send_task end_offset total_num_bytes
  send_task-sends now s =
      let same : (end_offset task == total_num_bytes task) ≡ true = (==_iff _ _).1 refl in
      let id : input.now_ms % 2 ^ 64 ≡ input.now_ms = omega arith in rw (same, id) (refl, refl)

  -- A task of the pool whose fields have their sizes and whose packet fits the buffer of 4096 bytes
  -- is sent in one packet with a correct header, which the miner reads as that very task, and is
  -- kept under its job id, the clock; with the clean flag nothing else is kept. The clock fits 64
  -- bits, compact targets have 4 bytes and signatures 64.
  pub distribute-Delivers :
      right_sizes fields ≡ true
      → length pool.compact_rep ≡ 4
      → total_num_bytes task ≤ 4096
      → input.now_ms < 2 ^ 64
      → length (sign_task_packet input.primitives input.context bytes) ≡ 64
      → Delivers
  unfolding distribute
  distribute-Delivers right compact small now len =
      let fit : ltb 4096 (total_num_bytes task) ≡ false = ground arith in
      let id : input.now_ms % 2 ^ 64 ≡ input.now_ms = omega arith in
      let carries = packet-Carries (right_sizes-IsFixed fields pool right compact) small now len in
      let sent = send_task-sends now cleaned in
      rw (right, fit, id)
        (
          (packet, sent.0 ∙ ap (◌∷◌ packet) cleaned-kept.0, carries),
          sent.1 ∙ ap (insert input.now_ms task) cleaned-kept.2,
        )

  -- If the version, the time or the bits of the header have not 4 bytes, the hash of the previous
  -- block not 32, or the packet does not fit the buffer of 4096 bytes, nothing is sent and nothing
  -- is counted, but with the clean flag the active tasks are dropped all the same.
  pub distribute-refuses :
      ((length fields.version ≢ 4)
          ⊎ ((length fields.prev_hash ≢ 32)
              ⊎ ((length fields.n_time ≢ 4) ⊎ (length fields.n_bits ≢ 4))))
        ⊎ (4096 < total_num_bytes task)
      → (after.packets ≡ st.packets) × (after.stats ≡ st.stats) × (after.active_tasks ≡ kept_tasks)
  unfolding distribute
  distribute-refuses (inl wrong) =
      let refused : right_sizes fields ≡ false = elim wrong [
        | inl version ↦ ground arith
        | inr (inl prev_hash) ↦ ground arith
        | inr (inr (inl n_time)) ↦ ground arith
        | inr (inr (inr n_bits)) ↦ ground arith
      ] in
      rw refused cleaned-kept
  distribute-refuses (inr large) = elim (Bool-cases (right_sizes fields)) [
    | inl right ↦
        let over : ltb 4096 (total_num_bytes task) ≡ true =
          lt→ltb 4096 (total_num_bytes task) large in
        rw (right, over) cleaned-kept
    | inr wrong ↦ rw wrong cleaned-kept
  ]
