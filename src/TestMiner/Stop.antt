-- ===== src/TestMiner/Stop.antt =====
-- The end of dispatcher/test/testminer/test_miner.cpp: the stop of miningLoop.
use doge_connect.Prelude.{
  ℕ, Bool-cases, ◌≡◌, refl, sym, ap, ◌∙◌, inl, inr, Bool, true, false, Option, none, some, List, [],
  ◌∷◌,
}
use doge_connect.Concurrency.Queue.{pop, push}
use doge_connect.TestMiner.{InternalMiningTask, read_packet}
use doge_connect.TestMiner.Search.{Miner}
use doge_connect.TestMiner.Tried.{turns}
use doge_connect.TestMiner.Threads.{
  System, Event, miner_turn, receiver_turn, main_turn, receives, MinerPc, at_while, in_pop, popped,
  searching, ended, ReceiverPc, receiving, cleared, before_signal, finished, MainPc, running,
  stop_sent, done, on_packet, on_bytes, receive_at, receiver_at, main_at, pop_task, try_nonce,
  miner_at, empty_task, step, run, started,
}

-- Once main has requested the stop, it stays requested.
abbrev IsStopping : System → Type 0
IsStopping s = s.main ≡ stop_sent → s.stop_requested ≡ true

-- What the turns of the other threads leave alone.
abbrev SameStop : System → System → Type 0
SameStop s t = (t.main ≡ s.main) × (t.stop_requested ≡ s.stop_requested)

pop_task-SameStop :
    (r : Option (InternalMiningTask × List InternalMiningTask)) (s : System)
    → SameStop s (pop_task r s)
unfolding pop_task
pop_task-SameStop none s = (refl, refl)
pop_task-SameStop (some r) s = (refl, refl)

miner_at-SameStop : (m : Miner) (pc : MinerPc) (s : System) → SameStop s (miner_at m pc s)
unfolding miner_at try_nonce
miner_at-SameStop m at_while s = elim (Bool-cases s.stop_requested) [
  | inl stop ↦ rw (stop, miner_at) (refl, refl)
  | inr go ↦ rw (go, miner_at) (refl, refl)
]
miner_at-SameStop m in_pop s = pop_task-SameStop (pop s.active_tasks) s
miner_at-SameStop m (popped task) s = (refl, refl)
miner_at-SameStop m (searching q) s = elim (Bool-cases s.start_new_job) [
  | inl new ↦ rw (new, miner_at) (refl, refl)
  | inr old ↦ elim (Bool-cases s.stop_requested) [
    | inl stop ↦ rw (old, stop, miner_at) (refl, refl)
    | inr go ↦ rw (old, go, miner_at) (refl, refl)
  ]
]
miner_at-SameStop m ended s = (refl, refl)

receiver_at-SameStop : (pc : ReceiverPc) (s : System) → SameStop s (receiver_at pc s)
unfolding receiver_at
receiver_at-SameStop receiving s = (refl, refl)
receiver_at-SameStop before_signal s = (refl, refl)
receiver_at-SameStop finished s = (refl, refl)
receiver_at-SameStop (cleared task) s = (refl, refl)

on_packet-SameStop :
    (packet : Option (Bool × InternalMiningTask)) (s : System) → SameStop s (on_packet packet s)
unfolding on_packet
on_packet-SameStop none s = (refl, refl)
on_packet-SameStop (some (true, task)) s = (refl, refl)
on_packet-SameStop (some (false, task)) s = (refl, refl)

receive_at-SameStop :
    (pc : ReceiverPc) (bytes : List ℕ) (s : System) → SameStop s (receive_at pc bytes s)
unfolding receive_at on_bytes
receive_at-SameStop receiving [] s = (refl, refl)
receive_at-SameStop receiving (b ∷ bytes) s = on_packet-SameStop (read_packet (b ∷ bytes)) s
receive_at-SameStop before_signal bytes s = (refl, refl)
receive_at-SameStop finished bytes s = (refl, refl)
receive_at-SameStop (cleared task) bytes s = (refl, refl)

IsStopping-SameStop : (s t : System) → SameStop s t → IsStopping s → IsStopping t
IsStopping-SameStop s t same h e = same.1 ∙ h (sym same.0 ∙ e)

main_at-IsStopping : (pc : MainPc) (s : System) → s.main ≡ pc → IsStopping (main_at pc s)
unfolding main_at
main_at-IsStopping running s e h = refl
main_at-IsStopping stop_sent s e h = absurd cc
main_at-IsStopping done s e h = absurd cc

module _ (m : Miner) where
  step-IsStopping : (e : Event) (s : System) → IsStopping s → IsStopping (step m e s)
  unfolding step
  step-IsStopping miner_turn s h =
      IsStopping-SameStop s (miner_at m s.miner s) (miner_at-SameStop m s.miner s) h
  step-IsStopping receiver_turn s h =
      IsStopping-SameStop s (receiver_at s.receiver s) (receiver_at-SameStop s.receiver s) h
  step-IsStopping main_turn s h = main_at-IsStopping s.main s refl
  step-IsStopping (receives bytes) s h =
      IsStopping-SameStop s (receive_at s.receiver bytes s) (receive_at-SameStop s.receiver bytes s)
        h

  run-IsStopping : (es : List Event) (s : System) → IsStopping s → IsStopping (run m es s)
  unfolding run
  run-IsStopping [] s h = h
  run-IsStopping (e ∷ es) s h = run-IsStopping es (step m e s) (step-IsStopping e s h)

  -- A system with the stop requested and a task in the queue.
  abbrev stopping : MinerPc → InternalMiningTask → List InternalMiningTask → System → System
  stopping pc task rest s = record s {
    active_tasks = task ∷ rest;
    stop_requested = true;
    miner = pc;
    main = done;
  }

  stopping-ends :
      (pc : MinerPc) (task : InternalMiningTask) (rest : List InternalMiningTask) (s : System)
      → (run m (turns 4) (stopping pc task rest s)).miner ≡ ended
  unfolding run step miner_at pop_task
  stopping-ends at_while task rest s = refl
  stopping-ends in_pop task rest s = refl
  stopping-ends (popped old) task rest s = refl
  stopping-ends (searching q) task rest s = elim (Bool-cases s.start_new_job) [
    | inl new ↦ rw (new, miner_at) refl
    | inr old ↦ rw (old, miner_at) refl
  ]
  stopping-ends ended task rest s = refl

  -- A queue with a task at its end has one at its front.
  pushed_ends :
      (queue : List InternalMiningTask) (s : System)
      → (run m (turns 4) (record s {
        active_tasks = push empty_task queue;
        stop_requested = true;
        main = done;
      })).miner
        ≡ ended
  pushed_ends [] s = stopping-ends s.miner empty_task [] s
  pushed_ends (task ∷ queue) s = stopping-ends s.miner task (push empty_task queue) s

  -- main ends the miner: whatever the threads have done when the stop is requested, and between
  -- that and the push of the empty task, the miner has ended four of its turns after the push,
  -- unless the receiver takes turns in between. So it does not wait for a task forever.
  pub run-Stops :
      (es : List Event)
      → (run m es started).main ≡ stop_sent
      → (run m (main_turn ∷ turns 4) (run m es started)).miner ≡ ended
  unfolding run step main_at
  run-Stops es at_stop =
      let s = run m es started in
      let stop : s.stop_requested ≡ true = run-IsStopping es started (λ e. absurd cc) at_stop in
      let pushed : main_at s.main s ≡ record s {
        active_tasks = push empty_task s.active_tasks;
        arrived = push empty_task s.arrived;
        stop_requested = true;
        main = done;
      } =
        ap (λ pc. main_at pc s) at_stop
        ∙ ap
            (λ (b : Bool). record s {
              active_tasks = push empty_task s.active_tasks;
              arrived = push empty_task s.arrived;
              stop_requested = b;
              main = done;
            })
            stop in
      ap (λ (t : System). (run m (turns 4) t).miner) pushed
      ∙ pushed_ends s.active_tasks (record s { arrived = push empty_task s.arrived })
