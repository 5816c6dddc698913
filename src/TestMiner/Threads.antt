-- ===== src/TestMiner/Threads.antt =====
-- The threads of dispatcher/test/testminer over what they share: miningLoop, taskReceiveLoop and the
-- end of main (test_miner.cpp), a shared access at a time and in any order. A pass of the inner body
-- of the search is one step: after the two flags it reads nothing that others write.
use doge_connect.Prelude.{
  ℕ, if◌then◌else◌, replicate, Bool, true, false, Option, none, some, List, [], ◌∷◌, ◌++◌,
}
use doge_connect.Concurrency.Queue.{push, pop, clear}
use doge_connect.TestMiner.{InternalMiningTask, read_packet}
use doge_connect.TestMiner.Search.{
  Miner, Search, Advance, at, exhausted, next_nonce, begin_search, report, count_found,
}

-- miningLoop: at the test of its `while`, in `pop`, before `startNewJob = false`, at a pass of the
-- inner body, and ended.
pub data MinerPc : Type 0 where
  at_while in_pop ended : MinerPc
  popped : InternalMiningTask → MinerPc
  searching : Search → MinerPc

-- taskReceiveLoop: in the call that receives, after `activeTasks.clear()`, before
-- `startNewJob = true`, and ended.
pub data ReceiverPc : Type 0 where
  receiving before_signal finished : ReceiverPc
  cleared : InternalMiningTask → ReceiverPc

-- The end of main: before `request_stop`, before the push of an empty task, and after it.
pub data MainPc : Type 0 where
  running stop_sent done : MainPc

-- What the threads share, and where they are. `arrived` and `taken` are not in the code: they keep
-- all that was pushed onto the queue, and popped from it, in order.
pub record System : Type 0 where
  pub active_tasks : List InternalMiningTask
  pub start_new_job : Bool
  pub stop_requested : Bool
  pub solutions_found : ℕ
  pub sent : List (List ℕ)
  pub miner : MinerPc
  pub receiver : ReceiverPc
  pub main : MainPc
  pub arrived : List InternalMiningTask
  pub taken : List InternalMiningTask

-- `InternalMiningTask{}`.
abbrev pub empty_task : InternalMiningTask
empty_task = record {
  job_id = 0;
  target_dispatcher = replicate 32 0;
  partial_header1 = replicate 36 0;
  partial_header2 = replicate 8 0;
  extra_nonce1 = [];
  coinbase1 = [];
  coinbase2 = [];
  merkle_branches = [];
}

-- A turn of a thread, or what the receiver's call returns.
pub data Event : Type 0 where
  miner_turn receiver_turn main_turn : Event
  receives : List ℕ → Event

abbrev pub push_task : InternalMiningTask → System → System
push_task task s = record s {
  active_tasks = push task s.active_tasks;
  arrived = push task s.arrived;
}

-- The receiver on a task: the push of one that is not clean is its last access.
unfoldable pub on_packet : Option (Bool × InternalMiningTask) → System → System
on_packet none s = s
on_packet (some (true, task)) s = record s {
  active_tasks = clear s.active_tasks;
  receiver = cleared task;
}
on_packet (some (false, task)) s = push_task task s

-- No bytes: the connection is lost.
unfoldable pub on_bytes : List ℕ → System → System
on_bytes [] s = record s { receiver = finished }
on_bytes (b ∷ bytes) s = on_packet (read_packet (b ∷ bytes)) s

unfoldable pub receive_at : ReceiverPc → List ℕ → System → System
receive_at receiving bytes s = on_bytes bytes s
receive_at before_signal bytes s = s
receive_at finished bytes s = s
receive_at (cleared task) bytes s = s

unfoldable pub receiver_at : ReceiverPc → System → System
receiver_at receiving s = s
receiver_at finished s = s
receiver_at (cleared task) s = record (push_task task s) { receiver = before_signal }
receiver_at before_signal s = record s { start_new_job = true; receiver = receiving }

unfoldable pub main_at : MainPc → System → System
main_at running s = record s { stop_requested = true; main = stop_sent }
main_at stop_sent s = record (push_task empty_task s) { main = done }
main_at done s = s

-- `pop` waits while the queue is empty.
unfoldable pub pop_task : Option (InternalMiningTask × List InternalMiningTask) → System → System
pop_task none s = s
pop_task (some (task, rest)) s = record s {
  active_tasks = rest;
  miner = popped task;
  taken = push task s.taken;
}

-- At the end of the outer loop the `while` tests again.
unfoldable pub place : Advance → MinerPc
place (at q) = searching q
place exhausted = at_while

module _ (m : Miner) where
  -- A pass, when neither flag is set.
  unfoldable pub try_nonce : Search → System → System
  try_nonce q s = record s {
    solutions_found = count_found m q s.solutions_found;
    sent = s.sent ++ report m q;
    miner = place (next_nonce q);
  }

  unfoldable pub miner_at : MinerPc → System → System
  miner_at at_while s =
      if s.stop_requested then record s { miner = ended } else record s { miner = in_pop }
  miner_at in_pop s = pop_task (pop s.active_tasks) s
  miner_at (popped task) s = record s {
    start_new_job = false;
    miner = searching (begin_search task);
  }
  miner_at (searching q) s =
      if s.start_new_job
      then record s { miner = in_pop }
      else if s.stop_requested
      then record s { miner = ended }
      else try_nonce q s
  miner_at ended s = s

  unfoldable pub step : Event → System → System
  step miner_turn s = miner_at s.miner s
  step receiver_turn s = receiver_at s.receiver s
  step main_turn s = main_at s.main s
  step (receives bytes) s = receive_at s.receiver bytes s

  unfoldable pub run : List Event → System → System
  run [] s = s
  run (e ∷ es) s = run es (step e s)

-- `main` starts the threads.
abbrev pub started : System
started = record {
  active_tasks = [];
  start_new_job = false;
  stop_requested = false;
  solutions_found = 0;
  sent = [];
  miner = at_while;
  receiver = receiving;
  main = running;
  arrived = [];
  taken = [];
}
