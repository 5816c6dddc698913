-- ===== src/TestMiner/Search.antt =====
-- The search of miningLoop in dispatcher/test/testminer/mining_thread.cpp: the two loops over
-- `extraNonce2` and the nonce, a pass of the inner body at a time.
use doge_connect.Prelude.{
  ℕ, leb, ◌==◌, if◌then◌else◌, to_le, ◌+◌, ◌-◌, ◌/◌, ◌%◌, ◌^◌, Bool, ◌||◌, List, [], ◌∷◌,
}
use doge_connect.Difficulty.{verify_hash_vs_target}
use doge_connect.HashUtil.{calculate_merkle_root}
use doge_connect.Signing.{Primitives, DispatcherSigningContext}
use doge_connect.TestMiner.{InternalMiningTask, mining_header, solution_of, solution_packet}

abbrev pub computor_id : ℕ
computor_id = 337

-- What the thread is given: `signingCtx`, and the functions of other libraries.
pub record Miner : Type 0 where
  pub sha256 : List ℕ → List ℕ
  pub scrypt : List ℕ → List ℕ
  pub primitives : Primitives
  pub context : DispatcherSigningContext

-- The task with the counters of the two loops, each a `uint32_t`.
pub record Search : Type 0 where
  pub task : InternalMiningTask
  pub low : ℕ
  pub nonce : ℕ

-- Where the loops are after a pass: at another one, or at their end.
pub data Advance : Type 0 where
  at : Search → Advance
  exhausted : Advance

abbrev pub uint32_max : ℕ
uint32_max = 2 ^ 32 - 1

-- `extraNonce2`: the computor, its highest byte first, and the counter as it stands in memory.
unfoldable pub extra_nonce2_bytes : ℕ → List ℕ
extra_nonce2_bytes low =
    (computor_id / 2 ^ 24 % 256)
    ∷ (computor_id / 2 ^ 16 % 256)
    ∷ (computor_id / 2 ^ 8 % 256)
    ∷ (computor_id % 256)
    ∷ to_le 4 low

-- `header[76]` to `header[79]`.
unfoldable pub nonce_bytes : ℕ → List ℕ
nonce_bytes nonce =
    (nonce % 256) ∷ (nonce / 2 ^ 8 % 256) ∷ (nonce / 2 ^ 16 % 256) ∷ (nonce / 2 ^ 24 % 256) ∷ []

-- `++(*extraNonce2LowPtr)` and the test of the outer loop.
unfoldable pub next_low : Search → Advance
next_low q =
    let low = (q.low + 1) % 2 ^ 32 in
    if leb low uint32_max then at (record q { low = low; nonce = 0 }) else exhausted

-- `++nonce` and the test of the inner loop.
unfoldable pub next_nonce : Search → Advance
next_nonce q =
    let nonce = (q.nonce + 1) % 2 ^ 32 in
    if leb nonce uint32_max then at (record q { nonce = nonce }) else next_low q

-- The loops begin.
unfoldable pub begin_search : InternalMiningTask → Search
begin_search task = record { task = task; low = 0; nonce = 0 }

module _ (m : Miner) where
  unfoldable pub merkle_root_of : Search → List ℕ
  merkle_root_of q =
      calculate_merkle_root m.sha256 q.task.coinbase1 q.task.coinbase2 q.task.extra_nonce1
        (extra_nonce2_bytes q.low) q.task.merkle_branches

  unfoldable pub header_of : Search → List ℕ
  header_of q = mining_header q.task (merkle_root_of q) (nonce_bytes q.nonce)

  unfoldable pub passed_target : Search → Bool
  passed_target q = verify_hash_vs_target (m.scrypt (header_of q)) q.task.target_dispatcher

  unfoldable pub packet_of : Search → List ℕ
  packet_of q = solution_packet m.primitives m.context (
      solution_of m.context q.task (merkle_root_of q) (extra_nonce2_bytes q.low)
        (nonce_bytes q.nonce))

  -- What a pass sends: also some wrong shares, for testing.
  unfoldable pub report : Search → List (List ℕ)
  report q = if passed_target q || q.nonce % 10000 == 0 then packet_of q ∷ [] else []

  -- `++solutionsFound`.
  unfoldable pub count_found : Search → ℕ → ℕ
  count_found q solutions_found =
      if passed_target q then (solutions_found + 1) % 2 ^ 64 else solutions_found
