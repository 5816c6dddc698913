-- ===== src/EndToEnd/Mining.antt =====
-- A share's way through dispatcher/src/threads and dispatcher/test/testminer, with the miner's search:
-- from the task that is distributed to the share that is sent to the pool.
use doge_connect.Structs.{DispatcherMiningSolution}
use doge_connect.Signing.{sign_task_packet}
use doge_connect.Difficulty.{DifficultyTarget}
use doge_connect.Concurrency.Queue.{push}
use doge_connect.Concurrency.HashMap.{get}
use doge_connect.TestMiner.{solution_bytes, solution_packet}
use doge_connect.TaskDist.{TaskParams, TaskInput, TaskState, right_sizes, total_num_bytes}
use doge_connect.TaskDist.Delivery.{fields, Delivers}
use doge_connect.QubicRecv.{process_solution}
use doge_connect.ShareValid.{ShareState, ShareInput, counts, dedupe_key, validate_share}
use doge_connect.ShareValid.Accept.{Sends}
use doge_connect.Prelude.{
  ℕ, length, length-to_le, ◌^◌, ◌≤◌, ◌<◌, ◌≡◌, refl, Bool, true, false, List, ◌∷◌, ◌++◌, arith,
  some,
}
use doge_connect.TestMiner.Search.{
  Miner, Search, begin_search, merkle_root_of, extra_nonce2_bytes, nonce_bytes, header_of,
  passed_target, packet_of,
}
use doge_connect.TestMiner.Threads.{System, run}
use doge_connect.TestMiner.Tried.{later, turns, at_search, search-finds}
use doge_connect.HashUtil.Merkle.{length-calculate_merkle_root}
use doge_connect.EndToEnd.Found.{IsTarget, IsDigest, IsFound}
use doge_connect.EndToEnd.{sent_task, mined_task, solution, mined_share-Sends}

module _ (input : TaskInput) (params : TaskParams) (propagate : Bool) (pool : DifficultyTarget)
    (st : TaskState) (m : Miner) where
  -- The search of the task, at its `k`-th nonce.
  abbrev pub search_at : ℕ → Search
  search_at k = later k (begin_search (mined_task input params propagate pool st))

  abbrev pub share_at : ℕ → DispatcherMiningSolution
  share_at k =
      solution input params propagate pool st m.context (merkle_root_of m (search_at k))
        (extra_nonce2_bytes (search_at k).low) (nonce_bytes (search_at k).nonce)

  search_at-IsFound :
      (k : ℕ)
      → ((b : List ℕ) → length (m.sha256 b) ≡ 32)
      → passed_target m (search_at k) ≡ true
      → IsFound m.scrypt
          (mined_task input params propagate pool st)
          (merkle_root_of m (search_at k))
          (extra_nonce2_bytes (search_at k).low)
          (nonce_bytes (search_at k).nonce)
  unfolding passed_target header_of begin_search extra_nonce2_bytes nonce_bytes merkle_root_of
  search_at-IsFound k digest passes = record {
    merkle_root_size = length-calculate_merkle_root m.sha256 digest _ _ _ _ _;
    extra_nonce2_size = omega (arith, length-to_le 4 (search_at k).low);
    nonce_size = refl;
    passes = passes;
  }

  -- The packet of the share is among what the miner has sent.
  abbrev pub IsSent : ℕ → List (List ℕ) → List (List ℕ) → Type 0
  IsSent k earlier sent =
      (before : List (List ℕ)) × (after : List (List ℕ)) × (sent
        ≡ earlier ++ (before ++ solution_packet m.primitives m.context (share_at k) ∷ after))

  -- The packet of a task of the pool reaches the miner as that task. When one of the first `n`
  -- nonces of its search, which no signal interrupts, has a hash that passes the target of the task,
  -- the miner sends a packet that reaches the dispatcher's queue as the solution with that nonce. A
  -- round of the validation with that solution hands it to the connection for the pool, against the
  -- finer target and the header that the dispatcher puts together itself, provided that the task is
  -- still the active one of its job id, the pool is connected, and the solution is not among the
  -- recent submissions. The fields of the task have their sizes, its packet fits 4096 bytes, the
  -- clock that is its job id fits 64 bits, the pool's target has 32 bytes and its own compact form,
  -- hashes have 32 bytes, signatures 64, and the miner's verifies under its key of 32.
  pub search_share-Sends :
      (n k : ℕ) (s : System) (worker_name : List ℕ) (verify : List ℕ → List ℕ → List ℕ → Bool)
      (queue : List DispatcherMiningSolution) (share : ShareInput) (state : ShareState)
      → right_sizes (fields input params propagate pool st) ≡ true
      → total_num_bytes (sent_task input params propagate pool st) ≤ 4096
      → input.now_ms < 2 ^ 64
      → ((b : List ℕ) → length (sign_task_packet input.primitives input.context b) ≡ 64)
      → IsTarget pool
      → IsDigest m.scrypt
      → ((b : List ℕ) → length (m.sha256 b) ≡ 32)
      → length m.context.public_key ≡ 32
      → length (sign_task_packet m.primitives m.context (solution_bytes (share_at k))) ≡ 64
      → verify m.context.public_key
          (m.primitives.k12 (solution_bytes (share_at k)))
          (sign_task_packet m.primitives m.context (solution_bytes (share_at k)))
        ≡ true
      → k < n
      → passed_target m (search_at k) ≡ true
      → share.solution ≡ share_at k
      → get share.active_tasks input.now_ms ≡ some (sent_task input params propagate pool st)
      → share.connected ≡ true
      → counts state.recent_submits (dedupe_key (share_at k)) ≡ false
      → (Delivers input params propagate pool st
          × IsSent k s.sent (run m (turns n) (at_search (search_at 0) s)).sent)
        × (process_solution m.primitives.k12 verify
              (solution_packet m.primitives m.context (share_at k))
              161
              queue
            ≡ push (share_at k) queue)
        × Sends m.scrypt worker_name share state
            (sent_task input params propagate pool st)
            (validate_share m.scrypt worker_name share state)
  unfolding packet_of begin_search
  search_share-Sends n k s worker_name verify queue share state right small now signed good digest
        hash key signature verified inside passes same active up fresh =
      let found = search_at-IsFound k hash passes in
      let (delivers, arrives, sends) =
        mined_share-Sends input params propagate pool st m.context (merkle_root_of m (search_at k))
          (extra_nonce2_bytes (search_at k).low) (nonce_bytes (search_at k).nonce) m.scrypt
          worker_name m.primitives verify queue share state right small now signed good digest found
          key signature verified same active up fresh in
      ((delivers, search-finds m n k (search_at 0) s (omega arith) inside passes), arrives, sends)
