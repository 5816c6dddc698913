-- ===== src/EndToEnd.antt =====
-- A share's way through dispatcher/src/threads and dispatcher/test/testminer: the task that
-- distributeTask sends, mined for its compact target, and the solution that comes back.
pub mod Found
pub mod Mining
mod Tests
use doge_connect.EndToEnd.Found.{IsTarget, IsDigest, IsFound, found-IsWire, found-IsSound}
use doge_connect.Structs.{DispatcherMiningTask, DispatcherMiningSolution, field_at}
use doge_connect.Structs.Fields.{field_behind}
use doge_connect.Signing.{Primitives, DispatcherSigningContext, sign_task_packet}
use doge_connect.Difficulty.{
  DifficultyTarget, full_of_compact, compact_of_full, verify_hash_vs_target,
}
use doge_connect.Difficulty.Stricter.{length-compact_of_full, verify_hash_vs_target-compact}
use doge_connect.Concurrency.HashMap.{get, insert, get-insert}
use doge_connect.Concurrency.Queue.{push}
use doge_connect.TestMiner.{
  InternalMiningTask, MinerState, mining_header, solution_of, solution_bytes, solution_packet,
  enqueue_task, receive_task,
}
use doge_connect.TestMiner.Solutions.{IsWire, process_solution-solution_packet}
use doge_connect.TaskDist.{
  TaskParams, TaskInput, TaskState, HeaderFields, header_fields, right_sizes, dispatcher_task,
  total_num_bytes,
}
use doge_connect.TaskDist.Received.{IsFixed, miner_task}
use doge_connect.TaskDist.Delivery.{
  fields, task, after, kept_tasks, Delivers, distribute-Delivers, right_sizes-IsFixed,
}
use doge_connect.QubicRecv.{process_solution}
use doge_connect.ShareValid.{
  ShareState, ShareInput, counts, dedupe_key, full_header, validate_share,
}
use doge_connect.ShareValid.Cases.{IsSound}
use doge_connect.ShareValid.Accept.{Submits, Sends, validate_share-Sends}
use doge_connect.Prelude.{
  ℕ, ltb, leb, ◌==◌, if◌then◌else◌, ltb→lt, lt→ltb, leb→le, ==_iff, tests, Bool-cases, Option-cases,
  ◌>>=◌, length, get_elem?, set, length-append, length-set, get_elem?-set_self, get_elem?-set_ne,
  get_or, take, drop, replicate, take-append-drop, length-take, length-drop, take-all,
  length-reverse, take-append, drop-append, drop-drop, take-append_le, drop-append_le, get_or-drop,
  length-replicate, length-map, All, All-append, IsBytes, le_value, to_le, le_value-nil,
  le_value-cons, length-to_le, to_le-IsBytes, le_value-lt, le_value-lt_pow, le_value-to_le,
  to_le-le_value, le_value-append, le_value-take-suc, le_value-take-add, le_value-replicate,
  get_or-replicate, get_or-set_ne, take-IsBytes, drop-IsBytes, get_or-lt_byte, append-IsBytes,
  le_value-set, prefix-lt, reverse-IsBytes, all_bytes, all_bytes-IsBytes, bit_or_disjoint,
  bit_and_bit, zero, suc, ◌+◌, ◌-◌, ◌*◌, ◌/◌, ◌%◌, ◌^◌, ◌≤◌, ◌<◌, min, bit_and, bit_or, ◌≡◌, refl,
  sym, ap, ap₂, ◌∙◌, ◌≢◌, ◌↔◌, ◌⊎◌, inl, inr, Bool, true, false, not, ◌&&◌, ◌||◌, Option, none,
  some, List, [], ◌∷◌, ◌++◌, map, foldl, reverse, append_assoc, append-nil, arith,
}

module _ (input : TaskInput) (params : TaskParams) (propagate : Bool) (pool : DifficultyTarget)
    (st : TaskState) where
  abbrev pub sent_task : DispatcherMiningTask
  sent_task = task input params propagate pool st

  abbrev pub mined_task : InternalMiningTask
  mined_task = miner_task input.now_ms (fields input params propagate pool st) pool sent_task

  module _ (ctx : DispatcherSigningContext) (merkle_root extra_nonce2 nonce : List ℕ) where
    abbrev pub solution : DispatcherMiningSolution
    solution = solution_of ctx mined_task merkle_root extra_nonce2 nonce

    -- The packet of a task of the pool reaches the miner as that task. When the miner finds a nonce
    -- whose hash passes the target of its task, its packet reaches the dispatcher's queue as its
    -- solution, and that solution, while the task is active, the pool is connected, and unless it
    -- has been submitted before, is sent to the pool for the task, against the finer target and the header that the
    -- dispatcher puts together itself. The fields of the task have their sizes, its packet fits 4096
    -- bytes, signatures have 64 bytes and the miner's verifies under its key of 32.
    pub mined_share-Sends :
        (scrypt : List ℕ → List ℕ) (worker_name : List ℕ) (p : Primitives)
        (verify : List ℕ → List ℕ → List ℕ → Bool) (queue : List DispatcherMiningSolution)
        (share : ShareInput) (state : ShareState)
        → right_sizes (fields input params propagate pool st) ≡ true
        → total_num_bytes sent_task ≤ 4096
        → input.now_ms < 2 ^ 64
        → ((b : List ℕ) → length (sign_task_packet input.primitives input.context b) ≡ 64)
        → IsTarget pool
        → IsDigest scrypt
        → IsFound scrypt mined_task merkle_root extra_nonce2 nonce
        → length ctx.public_key ≡ 32
        → length (sign_task_packet p ctx (solution_bytes solution)) ≡ 64
        → verify ctx.public_key
            (p.k12 (solution_bytes solution))
            (sign_task_packet p ctx (solution_bytes solution))
          ≡ true
        → share.solution ≡ solution
        → get share.active_tasks input.now_ms ≡ some sent_task
        → share.connected ≡ true
        → counts state.recent_submits (dedupe_key solution) ≡ false
        → Delivers input params propagate pool st
          × (process_solution p.k12 verify (solution_packet p ctx solution) 161 queue
              ≡ push solution queue)
          × Sends scrypt worker_name share state sent_task
              (validate_share scrypt worker_name share state)
    unfolding dispatcher_task solution_of
    mined_share-Sends scrypt worker_name p verify queue share state right small now signed good
          digest found key signature verified same active up fresh =
        let f = fields input params propagate pool st in
        let four : length pool.compact_rep ≡ 4 =
          rw good.compact (length-compact_of_full pool.full_rep) in
        let fixed = right_sizes-IsFixed f pool right four in
        let delivers : Delivers input params propagate pool st =
          distribute-Delivers input params propagate pool st right four small now (signed _) in
        let wire =
          found-IsWire input.now_ms f pool sent_task ctx merkle_root extra_nonce2 nonce fixed refl
            refl found.merkle_root_size found.nonce_size now key found.extra_nonce2_size in
        let sound =
          found-IsSound input.now_ms f pool sent_task ctx merkle_root extra_nonce2 nonce fixed refl
            refl found.merkle_root_size found.nonce_size scrypt worker_name share same
            found.extra_nonce2_size good refl digest found.passes in
        let kept : get share.active_tasks share.solution.job_id ≡ some sent_task = rw same active in
        let submits : Submits scrypt worker_name share state sent_task = record {
          fresh = rw same fresh;
          active = kept;
          sound = sound;
          up = up;
        } in
        (
          delivers,
          process_solution-solution_packet p ctx solution verify queue wire signature verified,
          validate_share-Sends scrypt worker_name share state sent_task submits,
        )
