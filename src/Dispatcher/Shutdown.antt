-- ===== src/Dispatcher/Shutdown.antt =====
-- The end of main in dispatcher/src/dispatcher.cpp, for a thread that pops its messages from a queue:
-- taskDistributionLoop, shareValidationLoop, and that of the dry run.
use doge_connect.Prelude.{
  ℕ, if◌then◌else◌, drop, Bool, true, false, Option, none, some, List, [], ◌∷◌,
}
use doge_connect.Concurrency.Queue.{push, pop}

-- At the test of the `while`, in `pop`, at the message, and ended.
pub data ConsumerPc : Type 0 where
  at_while in_pop working ended : ConsumerPc

-- Before `request_stop`, before the push of a dummy, and after it.
pub data ClosingPc : Type 0 where
  running stop_sent done : ClosingPc

pub record Consumer (T : Type 0) : Type 0 where
  pub queue : List T
  pub stop_requested : Bool
  pub pc : ConsumerPc
  pub main : ClosingPc

-- A turn of the thread, which at a message may take more of them, by `try_pop`; a turn of main; a
-- message that another thread pushes.
pub data Event (T : Type 0) : Type 0 where
  consumer_turn : (drained : ℕ) → Event T
  main_turn : Event T
  arrives : T → Event T

module _ {T : Type 0} (dummy : T) where
  unfoldable pub popped : Option (T × List T) → Consumer T → Consumer T
  popped none s = s
  popped (some (message, rest)) s = record s { queue = rest; pc = working }

  unfoldable pub consumer_at : ConsumerPc → ℕ → Consumer T → Consumer T
  consumer_at at_while n s =
      if s.stop_requested then record s { pc = ended } else record s { pc = in_pop }
  consumer_at in_pop n s = popped (pop s.queue) s
  consumer_at working n s = record s { queue = drop n s.queue; pc = at_while }
  consumer_at ended n s = s

  unfoldable pub closing_at : ClosingPc → Consumer T → Consumer T
  closing_at running s = record s { stop_requested = true; main = stop_sent }
  closing_at stop_sent s = record s { queue = push dummy s.queue; main = done }
  closing_at done s = s

  unfoldable pub consumer_step : Event T → Consumer T → Consumer T
  consumer_step (consumer_turn n) s = consumer_at s.pc n s
  consumer_step main_turn s = closing_at s.main s
  consumer_step (arrives message) s = record s { queue = push message s.queue }

  unfoldable pub consumer_run : List (Event T) → Consumer T → Consumer T
  consumer_run [] s = s
  consumer_run (e ∷ es) s = consumer_run es (consumer_step e s)

abbrev pub started : {T : Type 0} → Consumer T
started = record { queue = []; stop_requested = false; pc = at_while; main = running }
