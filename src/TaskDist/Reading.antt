-- ===== src/TaskDist/Reading.antt =====
-- The rest of the packet of a task, and what the miner makes of the whole.
use doge_connect.Prelude.{
  ℕ, ltb, ◌==◌, length, length-append, drop, length-drop, take-append, drop-append, to_le, ◌+◌, ◌*◌,
  ◌%◌, ◌^◌, ◌≤◌, ◌<◌, ◌≡◌, refl, ap, ◌∙◌, Bool, true, false, not, some, List, ◌∷◌, ◌++◌, map,
  append_assoc, arith,
}
use doge_connect.Structs.{DispatcherMiningTask, doge}
use doge_connect.Structs.Fields.{drop_next}
use doge_connect.Difficulty.{DifficultyTarget}
use doge_connect.TestMiner.{
  MinerState, read_task, read_branch_sizes, enqueue_task, receive_task, receive_task-some,
  read_packet, too_short,
}
use doge_connect.TaskDist.{
  HeaderFields, flag, count_bytes, payload_bytes, total_num_bytes, sum_lengths, concat,
  branch_sizes,
}
use doge_connect.TaskDist.Received.{
  IsFixed, miner_task, counts_of, bytes, bytes-parts, clean-bytes, compact-bytes, counts_fit,
  doge-bytes, drop_prev_hash, from_compact, from_prev_hash, job_id-bytes, n_bits-bytes,
  n_time-bytes, prev_hash-bytes, read_counts-bytes, rest, version-bytes,
}
use doge_connect.TaskDist.Packet.{
  length-branch_sizes, length-concat, read_sizes-branch_sizes, read_branches-concat,
  sum_sizes-lengths,
}

ltb-false : (a b : ℕ) → b ≤ a → ltb a b ≡ false
ltb-false a b h = ground arith

too_short-false : (recv least : ℕ) → least ≤ recv → recv < 2 ^ 31 → too_short recv least ≡ false
too_short-false recv least h small = ground arith

flag_set : (clean : Bool) → not (flag clean == 0) ≡ clean
flag_set true = refl
flag_set false = refl

module _ (job : ℕ) (clean : Bool) (f : HeaderFields) (pool : DifficultyTarget)
    (task : DispatcherMiningTask) (signature : List ℕ) (fixed : IsFixed f pool)
    (small : total_num_bytes task ≤ 4096) where
  abbrev bytes_here : List ℕ
  bytes_here = bytes job clean f pool task signature fixed small

  abbrev rest_here : List ℕ
  rest_here = rest job clean f pool task signature fixed small

  abbrev from_prev_hash_here : List ℕ
  from_prev_hash_here = from_prev_hash job clean f pool task signature fixed small

  abbrev from_compact_here : List ℕ
  from_compact_here = from_compact job clean f pool task signature fixed small

  abbrev parts : List ℕ
  parts =
      task.extra_nonce1
      ++ (task.coinbase1
          ++ (task.coinbase2
              ++ (branch_sizes task.merkle_branches ++ (concat task.merkle_branches ++ signature))))

  length-count_bytes : length (count_bytes task) ≡ 16
  unfolding count_bytes to_le
  length-count_bytes = refl

  rest-parts : rest_here ≡ parts
  unfolding payload_bytes
  rest-parts = simp append_assoc

  payload-parts : drop 74 bytes_here ≡ parts
  payload-parts =
      drop_prev_hash job clean f pool task signature fixed small 64 16 refl
      ∙ drop_next 16 16 0 (count_bytes task) rest_here length-count_bytes refl
      ∙ rest-parts

  read_branch_sizes-bytes :
      read_branch_sizes bytes_here (counts_of task) ≡ map length task.merkle_branches
  unfolding read_branch_sizes
  read_branch_sizes-bytes =
      rw
        (
          payload-parts,
          drop-append task.extra_nonce1,
          drop-append task.coinbase1,
          drop-append task.coinbase2,
        )
        (read_sizes-branch_sizes task.merkle_branches _
          (omega (arith, counts_fit job clean f pool task signature fixed small)))

  read_task-bytes :
      job < 2 ^ 64 → read_task bytes_here (counts_of task) ≡ miner_task job f pool task
  unfolding read_task
  read_task-bytes fits =
      rw
        (
          job_id-bytes job clean f pool task signature fixed small fits,
          compact-bytes job clean f pool task signature fixed small,
          version-bytes job clean f pool task signature fixed small,
          prev_hash-bytes job clean f pool task signature fixed small,
          n_time-bytes job clean f pool task signature fixed small,
          n_bits-bytes job clean f pool task signature fixed small,
          payload-parts,
          take-append task.extra_nonce1,
          drop-append task.extra_nonce1,
          take-append task.coinbase1,
          drop-append task.coinbase1,
          take-append task.coinbase2,
          drop-append task.coinbase2,
          ← length-branch_sizes task.merkle_branches,
          drop-append (branch_sizes task.merkle_branches),
          read_sizes-branch_sizes task.merkle_branches (concat task.merkle_branches ++ signature)
              (counts_fit job clean f pool task signature fixed small).4,
          read_branches-concat task.merkle_branches signature,
        )
        refl

  length-parts :
      length parts + 74
      ≡ 74
        + length task.extra_nonce1
        + length task.coinbase1
        + length task.coinbase2
        + length task.merkle_branches * 4
        + sum_lengths task.merkle_branches
        + length signature
  length-parts =
      let sizes = branch_sizes task.merkle_branches in
      let branches = concat task.merkle_branches in
      omega (
        arith,
        length-append task.extra_nonce1
            (task.coinbase1 ++ (task.coinbase2 ++ (sizes ++ (branches ++ signature)))),
        length-append task.coinbase1 (task.coinbase2 ++ (sizes ++ (branches ++ signature))),
        length-append task.coinbase2 (sizes ++ (branches ++ signature)),
        length-append sizes (branches ++ signature),
        length-append branches signature,
        length-branch_sizes task.merkle_branches,
        length-concat task.merkle_branches,
      )

  pub length-bytes : length signature ≡ 64 → length bytes_here + 8 ≡ total_num_bytes task
  unfolding total_num_bytes to_le
  length-bytes len =
      let low : length bytes_here
          ≡ length (to_le 8 job) + length (doge ∷ (flag clean ∷ from_compact_here)) =
        ap length (bytes-parts job clean f pool task signature fixed small)
        ∙ length-append (to_le 8 job) (doge ∷ (flag clean ∷ from_compact_here)) in
      let hash_part = length-append f.prev_hash (count_bytes task ++ rest_here) in
      omega (
        arith,
        low,
        length-append pool.compact_rep
            (f.version ++ (f.n_time ++ (f.n_bits ++ from_prev_hash_here))),
        length-append f.version (f.n_time ++ (f.n_bits ++ from_prev_hash_here)),
        length-append f.n_time (f.n_bits ++ from_prev_hash_here),
        length-append f.n_bits from_prev_hash_here,
        hash_part,
        length-append (count_bytes task) rest_here,
        length-count_bytes,
        length-drop 74 bytes_here,
        ap length payload-parts,
        ap length (rest-parts),
        length-parts,
        fixed,
        len,
      )

  pub read_packet-bytes :
      job < 2 ^ 64
      → length signature ≡ 64
      → read_packet bytes_here ≡ some (clean, miner_task job f pool task)
  unfolding read_packet total_num_bytes
  read_packet-bytes fits len =
      let all = length-bytes len in
      let n = counts_of task in
      let min1 = 138 + ((n.extra_nonce1 + n.coinbase1 + n.coinbase2) % 2 ^ 32 + n.branches * 4) in
      let low : ltb (length bytes_here) 138 ≡ false =
        ltb-false (length bytes_here) 138 (omega (arith, all)) in
      rw
        (
          low,
          doge-bytes job clean f pool task signature fixed small,
          read_counts-bytes job clean f pool task signature fixed small,
          too_short-false (length bytes_here) min1 (omega (arith, all, small))
              (omega (arith, all, small)),
          read_branch_sizes-bytes,
          sum_sizes-lengths task.merkle_branches,
          too_short-false (length bytes_here) (min1 + sum_lengths task.merkle_branches)
              (omega (arith, all, small)) (omega (arith, all, small)),
          clean-bytes job clean f pool task signature fixed small,
          flag_set clean,
          read_task-bytes fits,
        )
        refl

  -- The miner accepts the bytes_here, and what it queues is the dispatcher's task.
  pub receive_task-bytes :
      job < 2 ^ 64
      → length signature ≡ 64
      → (st : MinerState)
      → receive_task bytes_here st ≡ enqueue_task clean (miner_task job f pool task) st
  receive_task-bytes fits len st =
      receive_task-some bytes_here clean (miner_task job f pool task) st
        (read_packet-bytes fits len)
