-- ===== src/TestMiner/Races.antt =====
-- A clean job in dispatcher/test/testminer: `activeTasks.clear()`, the push of the task, and
-- `startNewJob = true` in one thread; the pop and `startNewJob = false` in another.
use doge_connect.Prelude.{
  ℕ, zero, suc, ◌≡◌, refl, ◌∙◌, true, false, some, List, [], ◌∷◌, ◌++◌, arith, ◌^◌, ◌<◌, ap,
}
use doge_connect.TestMiner.{InternalMiningTask, read_packet}
use doge_connect.TestMiner.Search.{Miner, Search, begin_search}
use doge_connect.TestMiner.Tried.{later, turns, at_search, searched, run-searched}
use doge_connect.TestMiner.Threads.{
  System, Event, miner_turn, receiver_turn, receives, in_pop, popped, receiving, cleared,
  before_signal, on_packet, on_bytes, receive_at, receiver_at, pop_task, miner_at, step, run,
}
use doge_connect.Concurrency.Queue.{push}

run-append :
    (m : Miner) (es fs : List Event) (s : System) → run m (es ++ fs) s ≡ run m fs (run m es s)
unfolding run
run-append m [] fs s = refl
run-append m (e ∷ es) fs s = run-append m es fs (step m e s)

-- The miner waits for a task, and the receiver for a packet.
abbrev pub waiting : System → System
waiting s = record s { active_tasks = []; miner = in_pop; receiver = receiving }

-- The miner has taken a task and not yet reset the flag.
abbrev pub just_popped : InternalMiningTask → System → System
just_popped task s = record s {
  active_tasks = [];
  stop_requested = false;
  miner = popped task;
  receiver = receiving;
}

-- The miner is at a pass of its search.
abbrev pub in_search : Search → System → System
in_search q s = at_search q (record s { receiver = receiving })

module _ (m : Miner) (b : ℕ) (bytes : List ℕ) (task : InternalMiningTask)
    (clean : read_packet (b ∷ bytes) ≡ some (true, task)) where
  abbrev pub packet : List ℕ
  packet = b ∷ bytes

  receives-cleared :
      (s : System)
      → s.receiver ≡ receiving
      → step m (receives packet) s ≡ record s { active_tasks = []; receiver = cleared task }
  unfolding step receive_at on_bytes on_packet
  receives-cleared s e = rw (e, receive_at) (rw (clean, on_packet) refl)

  waits : (n : ℕ) (s : System) → run m (turns n) (waiting s) ≡ waiting s
  unfolding run step miner_at pop_task
  waits zero s = refl
  waits (suc n) s = waits n s

  -- The miner takes the task between its push and the signal.
  abbrev pub early_pop : List Event
  early_pop =
      receives packet ∷ receiver_turn ∷ miner_turn ∷ miner_turn ∷ receiver_turn ∷ miner_turn ∷ []

  -- A clean job that finds the miner waiting can be lost: when the miner takes the task before the
  -- receiver signals it, the signal makes it drop the task without a pass, and it waits again, for
  -- however many turns, though nothing newer has arrived.
  pub early_pop-Loses :
      (n : ℕ) (s : System)
      → run m (early_pop ++ turns n) (waiting s)
        ≡ waiting (record s {
          start_new_job = true;
          arrived = push task s.arrived;
          taken = push task s.taken;
        })
  unfolding run step receiver_at miner_at pop_task
  early_pop-Loses n s =
      run-append m early_pop (turns n) (waiting s)
      ∙ rw (receives-cleared (waiting s) refl) (
          waits n (record s {
            start_new_job = true;
            arrived = push task s.arrived;
            taken = push task s.taken;
          }))

  -- The receiver's three accesses, one after the other.
  abbrev pub clean_job : List Event
  clean_job = receives packet ∷ receiver_turn ∷ receiver_turn ∷ []

  -- A clean job between the miner's pop and its reset of the flag goes unnoticed: the miner goes on
  -- with the task that it has taken, for however many turns, and the job waits in the queue.
  pub just_popped-Ignores :
      (n : ℕ) (old : InternalMiningTask) (s : System)
      → run m (clean_job ++ miner_turn ∷ turns n) (just_popped old s)
        ≡ at_search (later n (begin_search old)) (
            searched m n (begin_search old) (record s {
              active_tasks = task ∷ [];
              receiver = receiving;
              arrived = push task s.arrived;
            }))
  unfolding run step receiver_at miner_at begin_search
  just_popped-Ignores n old s =
      run-append m clean_job (miner_turn ∷ turns n) (just_popped old s)
      ∙ rw (receives-cleared (just_popped old s) refl) (
          run-searched m n (begin_search old)
            (record s {
              active_tasks = task ∷ [];
              receiver = receiving;
              arrived = push task s.arrived;
            })
            (omega arith))

  -- The receiver's accesses, with passes of the search in between, and what the miner does then.
  abbrev pub late_signal : ℕ → ℕ → List Event
  late_signal a b' =
      receives packet
      ∷ (turns a
          ++ receiver_turn
            ∷ (turns b' ++ receiver_turn ∷ miner_turn ∷ miner_turn ∷ miner_turn ∷ []))

  -- A clean job during a search is taken up: whatever passes come in between, the third turn after
  -- the signal begins the search of the job, with nothing left in the queue. The old search has sent
  -- the reports of those passes, and no more.
  pub late_signal-Takes :
      (a b' : ℕ) (q : Search) (s : System)
      → q.nonce < 2 ^ 32
      → run m (late_signal a b') (in_search q s)
        ≡ at_search (begin_search task) (record (searched m b' (later a q) (searched m a q s)) {
          active_tasks = [];
          receiver = receiving;
          arrived = push task s.arrived;
          taken = push task s.taken;
        })
  unfolding run step receiver_at miner_at pop_task
  late_signal-Takes a b' q s small =
      let tail = turns b' ++ receiver_turn ∷ miner_turn ∷ miner_turn ∷ miner_turn ∷ [] in
      let s1 : System = record s { active_tasks = []; receiver = cleared task } in
      let s2 : System = record (searched m a q s) {
        active_tasks = task ∷ [];
        arrived = push task s.arrived;
        receiver = before_signal;
      } in
      ap (run m (turns a ++ receiver_turn ∷ tail)) (receives-cleared (in_search q s) refl)
      ∙ run-append m (turns a) (receiver_turn ∷ tail) (at_search q s1)
      ∙ ap (run m (receiver_turn ∷ tail)) (run-searched m a q s1 small)
      ∙ run-append m (turns b') (receiver_turn ∷ miner_turn ∷ miner_turn ∷ miner_turn ∷ [])
          (at_search (later a q) s2)
      ∙ ap (run m (receiver_turn ∷ miner_turn ∷ miner_turn ∷ miner_turn ∷ []))
          (run-searched m b' (later a q) s2 (omega arith))
