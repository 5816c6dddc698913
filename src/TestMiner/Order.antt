-- ===== src/TestMiner/Order.antt =====
-- The order in which the miner of dispatcher/test/testminer takes its tasks.
use doge_connect.Prelude.{
  ℕ, Bool-cases, ◌≡◌, refl, sym, ap, ◌∙◌, inl, inr, Bool, true, false, Option, none, some, List, [],
  ◌∷◌, ◌++◌, append_assoc, append-nil,
}
use doge_connect.TestMiner.{InternalMiningTask, read_packet}
use doge_connect.TestMiner.Search.{Miner}
use doge_connect.TestMiner.Threads.{
  System, Event, miner_turn, receiver_turn, main_turn, receives, MinerPc, at_while, in_pop, popped,
  searching, ended, ReceiverPc, receiving, cleared, before_signal, finished, MainPc, running,
  stop_sent, done, on_packet, on_bytes, receive_at, receiver_at, main_at, pop_task, try_nonce,
  miner_at, push_task, empty_task, step, run, started,
}
use doge_connect.Concurrency.Queue.{pop}
use mathlib.Core.List.Sublist
use mathlib.Core.List.{Sublist, sublist-append_left}

-- Since `arrived` had arrived and `taken` were taken, more tasks have arrived, of which the queue is
-- the end, and the tasks that were taken since are among those before, in their order.
abbrev pub IsOrderedFrom : (arrived taken : List InternalMiningTask) → System → Type 0
IsOrderedFrom arrived taken s =
    (before : List InternalMiningTask) × (more : List InternalMiningTask) × (s.arrived
      ≡ arrived ++ (before ++ s.active_tasks))
    × (s.taken ≡ taken ++ more)
    × Sublist more before

abbrev pub IsOrdered : System → Type 0
IsOrdered = IsOrderedFrom [] []

module _ (arrived taken : List InternalMiningTask) (s : System)
    (o : IsOrderedFrom arrived taken s) where
  push-IsOrdered : (task : InternalMiningTask) → IsOrderedFrom arrived taken (push_task task s)
  push-IsOrdered task =
      let (before, more, all, took, sub) = o in
      (
        before,
        more,
        ap (λ t. t ++ task ∷ []) all
            ∙ append_assoc arrived (before ++ s.active_tasks) (task ∷ [])
            ∙ ap (λ t. arrived ++ t) (append_assoc before s.active_tasks (task ∷ [])),
        took,
        sub,
      )

  clear-IsOrdered :
      (pc : ReceiverPc)
      → IsOrderedFrom arrived taken (record s { active_tasks = []; receiver = pc })
  clear-IsOrdered pc =
      let (before, more, all, took, sub) = o in
      (
        before ++ s.active_tasks,
        more,
        all ∙ ap (λ t. arrived ++ t) (sym (append-nil (before ++ s.active_tasks))),
        took,
        Sublist.trans sub (sublist-append_left before s.active_tasks),
      )

  pop_task-IsOrdered :
      (queue : List InternalMiningTask)
      → s.active_tasks ≡ queue
      → IsOrderedFrom arrived taken (pop_task (pop queue) s)
  unfolding pop_task
  pop_task-IsOrdered [] e = o
  pop_task-IsOrdered (task ∷ rest) e =
      let (before, more, all, took, sub) = o in
      (
        before ++ task ∷ [],
        more ++ task ∷ [],
        all ∙ rw e (ap (λ t. arrived ++ t) (sym (append_assoc before (task ∷ []) rest))),
        ap (λ t. t ++ task ∷ []) took ∙ append_assoc taken more (task ∷ []),
        Sublist.append sub (Sublist.refl (task ∷ [])),
      )

  on_packet-IsOrdered :
      (packet : Option (Bool × InternalMiningTask))
      → IsOrderedFrom arrived taken (on_packet packet s)
  unfolding on_packet
  on_packet-IsOrdered none = o
  on_packet-IsOrdered (some (true, task)) = clear-IsOrdered (cleared task)
  on_packet-IsOrdered (some (false, task)) = push-IsOrdered task

  on_bytes-IsOrdered : (bytes : List ℕ) → IsOrderedFrom arrived taken (on_bytes bytes s)
  unfolding on_bytes
  on_bytes-IsOrdered [] = o
  on_bytes-IsOrdered (b ∷ bytes) = on_packet-IsOrdered (read_packet (b ∷ bytes))

  receive_at-IsOrdered :
      (pc : ReceiverPc) (bytes : List ℕ) → IsOrderedFrom arrived taken (receive_at pc bytes s)
  unfolding receive_at
  receive_at-IsOrdered receiving bytes = on_bytes-IsOrdered bytes
  receive_at-IsOrdered before_signal bytes = o
  receive_at-IsOrdered finished bytes = o
  receive_at-IsOrdered (cleared task) bytes = o

  receiver_at-IsOrdered : (pc : ReceiverPc) → IsOrderedFrom arrived taken (receiver_at pc s)
  unfolding receiver_at
  receiver_at-IsOrdered receiving = o
  receiver_at-IsOrdered before_signal = o
  receiver_at-IsOrdered finished = o
  receiver_at-IsOrdered (cleared task) = push-IsOrdered task

  main_at-IsOrdered : (pc : MainPc) → IsOrderedFrom arrived taken (main_at pc s)
  unfolding main_at
  main_at-IsOrdered running = o
  main_at-IsOrdered stop_sent = push-IsOrdered empty_task
  main_at-IsOrdered done = o

  miner_at-IsOrdered : (m : Miner) (pc : MinerPc) → IsOrderedFrom arrived taken (miner_at m pc s)
  unfolding miner_at try_nonce
  miner_at-IsOrdered m at_while = elim (Bool-cases s.stop_requested) [
    | inl stop ↦ rw (stop, miner_at) o
    | inr go ↦ rw (go, miner_at) o
  ]
  miner_at-IsOrdered m in_pop = pop_task-IsOrdered s.active_tasks refl
  miner_at-IsOrdered m (popped task) = o
  miner_at-IsOrdered m (searching q) = elim (Bool-cases s.start_new_job) [
    | inl new ↦ rw (new, miner_at) o
    | inr old ↦ elim (Bool-cases s.stop_requested) [
      | inl stop ↦ rw (old, stop, miner_at) o
      | inr go ↦ rw (old, go, miner_at) o
    ]
  ]
  miner_at-IsOrdered m ended = o

module _ (m : Miner) (arrived taken : List InternalMiningTask) where
  step-IsOrdered :
      (e : Event) (s : System)
      → IsOrderedFrom arrived taken s
      → IsOrderedFrom arrived taken (step m e s)
  unfolding step
  step-IsOrdered miner_turn s o = miner_at-IsOrdered arrived taken s o m s.miner
  step-IsOrdered receiver_turn s o = receiver_at-IsOrdered arrived taken s o s.receiver
  step-IsOrdered main_turn s o = main_at-IsOrdered arrived taken s o s.main
  step-IsOrdered (receives bytes) s o = receive_at-IsOrdered arrived taken s o s.receiver bytes

  run_from-IsOrdered :
      (es : List Event) (s : System)
      → IsOrderedFrom arrived taken s
      → IsOrderedFrom arrived taken (run m es s)
  unfolding run
  run_from-IsOrdered [] s o = o
  run_from-IsOrdered (e ∷ es) s o = run_from-IsOrdered es (step m e s) (step-IsOrdered e s o)

module _ (m : Miner) where
  -- In whatever order the threads take turns: the queue is the last of the tasks that were pushed,
  -- and the tasks that the miner took are some of those pushed before them, each at most once and
  -- in the order in which they were pushed.
  pub run-IsOrdered : (es : List Event) → IsOrdered (run m es started)
  run-IsOrdered es = run_from-IsOrdered m [] [] es started ([], [], refl, refl, Sublist.refl [])

  -- The tasks that wait in the queue when the receiver has read a clean job are dropped: whatever
  -- the threads do after that, the tasks that the miner takes are some of those that are pushed
  -- after it, in their order.
  pub clean_job-IsOrderedFrom :
      (es : List Event) (b : ℕ) (bytes : List ℕ) (task : InternalMiningTask) (s : System)
      → s.receiver ≡ receiving
      → read_packet (b ∷ bytes) ≡ some (true, task)
      → IsOrderedFrom s.arrived s.taken (run m es (step m (receives (b ∷ bytes)) s))
  unfolding step receive_at on_bytes on_packet
  clean_job-IsOrderedFrom es b bytes task s waits clean =
      run_from-IsOrdered m s.arrived s.taken es (step m (receives (b ∷ bytes)) s) (
        [],
        [],
        rw (waits, receive_at, clean, on_packet) (sym (append-nil s.arrived)),
        rw (waits, receive_at, clean, on_packet) (sym (append-nil s.taken)),
        Sublist.refl [],
      )
