-- ===== src/EndToEnd/Found.antt =====
-- The solution of a nonce that the test miner found for a task of the dispatcher: what the dispatcher
-- hashes of it is what the miner hashed.
use doge_connect.Structs.{DispatcherMiningTask, DispatcherMiningSolution}
use doge_connect.Structs.Fields.{field_behind}
use doge_connect.Signing.{DispatcherSigningContext}
use doge_connect.Difficulty.{
  DifficultyTarget, full_of_compact, compact_of_full, verify_hash_vs_target,
}
use doge_connect.Difficulty.Stricter.{verify_hash_vs_target-compact}
use doge_connect.TestMiner.{InternalMiningTask, mining_header, solution_of}
use doge_connect.TestMiner.Solutions.{IsWire}
use doge_connect.TaskDist.{HeaderFields}
use doge_connect.TaskDist.Received.{IsFixed, miner_task}
use doge_connect.ShareValid.{ShareInput, full_header}
use doge_connect.ShareValid.Cases.{IsSound}
use doge_connect.Prelude.{
  ℕ, length, length-append, IsBytes, ◌^◌, ◌<◌, ◌≡◌, ap, ◌∙◌, true, List, [], ◌++◌, append_assoc,
  append-nil, arith,
}

-- A target of 32 bytes with its compact form.
pub record IsTarget (pool : DifficultyTarget) : Type 0 where
  pub bytes : IsBytes pool.full_rep
  pub size : length pool.full_rep ≡ 32
  pub compact : pool.compact_rep ≡ compact_of_full pool.full_rep

-- A hash is 32 bytes.
abbrev pub IsDigest : (List ℕ → List ℕ) → Type 0
IsDigest scrypt = (h : List ℕ) → IsBytes (scrypt h) × (length (scrypt h) ≡ 32)

-- What a miner's search ends with: parts of their sizes, and a hash that passes the target of the
-- miner's task.
pub record IsFound (scrypt : List ℕ → List ℕ) (task : InternalMiningTask)
    (merkle_root extra_nonce2 nonce : List ℕ) : Type 0 where
  pub merkle_root_size : length merkle_root ≡ 32
  pub extra_nonce2_size : length extra_nonce2 ≡ 8
  pub nonce_size : length nonce ≡ 4
  pub passes :
      verify_hash_vs_target (scrypt (mining_header task merkle_root nonce)) task.target_dispatcher
      ≡ true

module _ (job : ℕ) (f : HeaderFields) (pool : DifficultyTarget) (task : DispatcherMiningTask)
    (ctx : DispatcherSigningContext) (merkle_root extra_nonce2 nonce : List ℕ)
    (fixed : IsFixed f pool) (partial : task.partial_header ≡ f.version ++ f.prev_hash)
    (bits : task.n_bits ≡ f.n_bits) (root : length merkle_root ≡ 32) (four : length nonce ≡ 4) where
  abbrev mined : InternalMiningTask
  mined = miner_task job f pool task

  abbrev found : DispatcherMiningSolution
  found = solution_of ctx mined merkle_root extra_nonce2 nonce

  before : List ℕ
  before = (f.version ++ f.prev_hash) ++ merkle_root

  length-before : length before ≡ 68
  unfolding before
  length-before = omega (
    arith,
    length-append (f.version ++ f.prev_hash) merkle_root,
    length-append f.version f.prev_hash,
    fixed,
  )

  header-before :
      mining_header mined merkle_root nonce ≡ before ++ (f.n_time ++ (f.n_bits ++ nonce))
  unfolding mining_header before
  header-before = simp append_assoc

  n_time-found : found.n_time ≡ f.n_time
  unfolding solution_of
  n_time-found =
      rw header-before
        (field_behind 68 4 before f.n_time (f.n_bits ++ nonce) length-before fixed.n_time)

  nonce-found : found.nonce ≡ nonce
  unfolding solution_of
  nonce-found =
      let front = before ++ (f.n_time ++ f.n_bits) in
      let eight : length front ≡ 76 = omega (
        arith,
        length-append before (f.n_time ++ f.n_bits),
        length-append f.n_time f.n_bits,
        length-before,
        fixed,
      ) in
      let cut : mining_header mined merkle_root nonce ≡ front ++ (nonce ++ []) =
        header-before ∙ simp (append_assoc, append-nil) in
      rw cut (field_behind 76 4 front nonce [] eight four)

  full_header-found : full_header task found ≡ mining_header mined merkle_root nonce
  unfolding full_header mining_header solution_of
  full_header-found = rw (n_time-found, nonce-found, partial, bits) (simp append_assoc)

  length-full_header : length (full_header task found) ≡ 80
  length-full_header =
      let rest = f.n_bits ++ nonce in
      ap length (full_header-found ∙ header-before)
      ∙ omega (
        arith,
        length-append before (f.n_time ++ rest),
        length-append f.n_time rest,
        length-append f.n_bits nonce,
        length-before,
        fixed,
        four,
      )

  pub found-IsWire :
      job < 2 ^ 64 → length ctx.public_key ≡ 32 → length extra_nonce2 ≡ 8 → IsWire found
  unfolding solution_of
  found-IsWire small key eight = record {
    job_id = small;
    source_public_key = key;
    n_time = ap length n_time-found ∙ fixed.n_time;
    nonce = ap length nonce-found ∙ four;
    merkle_root = root;
    extra_nonce2 = eight;
  }

  -- The dispatcher hashes the header that the miner hashed, against a target that is no stricter.
  pub found-IsSound :
      (scrypt : List ℕ → List ℕ) (worker_name : List ℕ) (share : ShareInput)
      → share.solution ≡ found
      → length extra_nonce2 ≡ 8
      → IsTarget pool
      → task.target_pool ≡ pool.full_rep
      → IsDigest scrypt
      → verify_hash_vs_target
          (scrypt (mining_header mined merkle_root nonce))
          mined.target_dispatcher
        ≡ true
      → IsSound scrypt worker_name share task
  unfolding solution_of
  found-IsSound scrypt worker_name share same eight good target digest passes =
      let header = mining_header mined merkle_root nonce in
      let e : full_header task share.solution ≡ header = rw same full_header-found in
      let coarse : verify_hash_vs_target (scrypt header)
            (full_of_compact (compact_of_full pool.full_rep))
          ≡ true =
        rw (← good.compact) passes in
      let fine =
        verify_hash_vs_target-compact (scrypt header) pool.full_rep (digest header).0 good.bytes
          (digest header).1 good.size coarse in
      record {
        extra_nonce2 = rw same eight;
        header = rw same length-full_header;
        target = rw (e, target) fine;
      }
