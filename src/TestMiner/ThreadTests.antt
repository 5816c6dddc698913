-- ===== src/TestMiner/ThreadTests.antt =====
-- A miner whose only passing nonce is 2, and packets of a task with nothing in its lists.
use doge_connect.Prelude.{
  ℕ, ◌==◌, if◌then◌else◌, get_or, take, replicate, le_value, ◌≡◌, refl, true, some, List, [], ◌∷◌,
  ◌++◌, reverse, arith,
}
use doge_connect.TestMiner.{
  InternalMiningTask, read_packet, read_counts, read_task, read_branch_sizes, doge, read_sizes,
  sum_sizes,
}
use doge_connect.TestMiner.Search.{Miner, begin_search}
use doge_connect.TestMiner.Threads.{
  push_task, step, searching, miner_turn, receiver_turn, main_turn, receives, run, step, started,
  empty_task, ended, main_at, miner_at, pop_task,
}
use doge_connect.TestMiner.Tried.{
  Reported, run-Reported, later, turns, at_search, searched, run-searched,
}
use doge_connect.TestMiner.Order.{IsOrderedFrom, clean_job-IsOrderedFrom, IsOrdered, run-IsOrdered}
use doge_connect.TestMiner.Races.{
  waiting, just_popped, in_search, early_pop, clean_job, late_signal, early_pop-Loses,
  just_popped-Ignores, late_signal-Takes,
}
use doge_connect.TestMiner.Stop.{run-Stops}

abbrev miner : Miner
miner = record {
  sha256 = λ bytes. replicate 32 5;
  scrypt = λ header. replicate 32 (if get_or header 76 0 == 2 then 0 else 255);
  primitives = record {
    k12 = take 32;
    public_of_private = reverse;
    sign = λ subseed key digest. replicate 64 9;
  };
  context = record { subseed = replicate 32 1; public_key = replicate 32 2 };
}

-- A clean packet with empty lists: the type 1 byte, the flag, and zeros.
abbrev tail : List ℕ
tail = replicate 7 0 ++ doge ∷ 1 ∷ replicate 128 0

abbrev clean_task : InternalMiningTask
clean_task = read_task (0 ∷ tail) (read_counts (0 ∷ tail))

is_clean : read_packet (0 ∷ tail) ≡ some (true, clean_task)
unfolding read_packet read_counts read_branch_sizes read_sizes sum_sizes le_value
is_clean = refl

three_turns :
    run miner (turns 3) (at_search (begin_search clean_task) started)
    ≡ at_search
        (later 3 (begin_search clean_task))
        (searched miner 3 (begin_search clean_task) started)
unfolding begin_search
three_turns = run-searched miner 3 (begin_search clean_task) started (omega arith)

run-Reported_example :
    ((run miner (turns 3) (at_search (begin_search clean_task) started)).miner
      ≡ searching (later 3 (begin_search clean_task)))
    × ((packets : List (List ℕ)) × ((run miner
            (turns 3)
            (at_search (begin_search clean_task) started)).sent
          ≡ packets)
        × Reported miner 3 (begin_search clean_task) packets)
unfolding begin_search
run-Reported_example = run-Reported miner 3 (begin_search clean_task) started (omega arith)

-- A task waits when a clean one arrives.
clean_job-IsOrderedFrom_example : IsOrderedFrom (clean_task ∷ []) [] (
    run miner
      (receiver_turn ∷ turns 2)
      (step miner (receives (0 ∷ tail)) (push_task clean_task started)))
clean_job-IsOrderedFrom_example =
    clean_job-IsOrderedFrom miner (receiver_turn ∷ turns 2) 0 tail clean_task
      (push_task clean_task started) refl is_clean

run-IsOrdered_example :
    IsOrdered (run miner (receives (0 ∷ tail) ∷ receiver_turn ∷ turns 2) started)
run-IsOrdered_example = run-IsOrdered miner (receives (0 ∷ tail) ∷ receiver_turn ∷ turns 2)

early_pop-Loses_example :
    run miner (early_pop miner 0 tail clean_task is_clean ++ turns 9) (waiting started)
    ≡ waiting (record started {
      start_new_job = true;
      arrived = clean_task ∷ [];
      taken = clean_task ∷ [];
    })
early_pop-Loses_example = early_pop-Loses miner 0 tail clean_task is_clean 9 started

just_popped-Ignores_example :
    run miner
      (clean_job miner 0 tail clean_task is_clean ++ miner_turn ∷ turns 9)
      (just_popped empty_task started)
    ≡ at_search (later 9 (begin_search empty_task)) (
        searched miner 9
          (begin_search empty_task)
          (record started { active_tasks = clean_task ∷ []; arrived = clean_task ∷ [] }))
just_popped-Ignores_example =
    just_popped-Ignores miner 0 tail clean_task is_clean 9 empty_task started

late_signal-Takes_example :
    run miner
      (late_signal miner 0 tail clean_task is_clean 2 3)
      (in_search (begin_search empty_task) started)
    ≡ at_search
        (begin_search clean_task)
        (record (searched miner 3
          (later 2 (begin_search empty_task))
          (searched miner 2 (begin_search empty_task) started)) {
            arrived = clean_task ∷ [];
            taken = clean_task ∷ [];
          })
unfolding begin_search
late_signal-Takes_example =
    late_signal-Takes miner 0 tail clean_task is_clean 2 3 (begin_search empty_task) started
      (omega arith)

run-Stops_example :
    (run miner
      (main_turn ∷ turns 4)
      (run miner (miner_turn ∷ miner_turn ∷ main_turn ∷ []) started)).miner
    ≡ ended
unfolding run step main_at miner_at pop_task
run-Stops_example = run-Stops miner (miner_turn ∷ miner_turn ∷ main_turn ∷ []) refl
