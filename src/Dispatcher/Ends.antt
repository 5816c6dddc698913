-- ===== src/Dispatcher/Ends.antt =====
-- The threads that main of dispatcher/src/dispatcher.cpp stops come to their end.
use doge_connect.Prelude.{
  ℕ, Bool-cases, length, length-append, ◌+◌, ◌-◌, ◌≤◌, ◌<◌, ◌≡◌, refl, sym, inl, inr, Bool, true,
  false, List, [], ◌∷◌, arith,
}
use doge_connect.Concurrency.Queue.{push, pop}
use doge_connect.Dispatcher.Shutdown.{
  ConsumerPc, at_while, in_pop, working, ended, ClosingPc, running, stop_sent, done, Consumer,
  Event, consumer_turn, main_turn, arrives, popped, consumer_at, closing_at, consumer_step,
  consumer_run, started,
}
use mathlib.Core.Path.{subst}

-- The turns that the thread has.
unfoldable pub consumer_turns : {T : Type 0} → List (Event T) → ℕ
consumer_turns [] = 0
consumer_turns (consumer_turn n ∷ es) = consumer_turns es + 1
consumer_turns (main_turn ∷ es) = consumer_turns es
consumer_turns (arrives message ∷ es) = consumer_turns es

-- The turns that are left at most, once the thread is to stop.
abbrev left : ConsumerPc → ℕ
left ended = 0
left at_while = 1
left working = 2
left in_pop = 3

abbrev is_closing : ClosingPc → Bool
is_closing running = false
is_closing stop_sent = true
is_closing done = true

-- Once main has gone on, the stop is requested, and at its end the thread does not wait for nothing.
abbrev IsClosing : {T : Type 0} → Consumer T → Type 0
IsClosing s =
    (is_closing s.main ≡ true → s.stop_requested ≡ true)
    × (s.main ≡ done → s.pc ≡ in_pop → 0 < length s.queue)

module _ {T : Type 0} (dummy : T) where
  popped-IsClosing :
      (queue : List T) (s : Consumer T) → IsClosing s → IsClosing (popped dummy (pop queue) s)
  unfolding popped
  popped-IsClosing [] s h = h
  popped-IsClosing (message ∷ queue) s h = (h.0, λ d p. absurd cc)

  consumer_at-IsClosing :
      (pc : ConsumerPc) (n : ℕ) (s : Consumer T)
      → IsClosing s
      → IsClosing (consumer_at dummy pc n s)
  unfolding consumer_at
  consumer_at-IsClosing at_while n s h = elim (Bool-cases s.stop_requested) [
    | inl stop ↦ rw (stop, consumer_at) (λ c. refl, λ d p. absurd cc)
    | inr go ↦
        rw (go, consumer_at)
          (λ c. let stop = h.0 c in cc, λ d p. let stop = h.0 (rw d refl) in absurd cc)
  ]
  consumer_at-IsClosing in_pop n s h = popped-IsClosing s.queue s h
  consumer_at-IsClosing working n s h = (h.0, λ d p. absurd cc)
  consumer_at-IsClosing ended n s h = h

  closing_at-IsClosing :
      (pc : ClosingPc) (s : Consumer T)
      → s.main ≡ pc
      → IsClosing s
      → IsClosing (closing_at dummy pc s)
  unfolding closing_at
  closing_at-IsClosing running s e h = (λ c. refl, λ d p. absurd cc)
  closing_at-IsClosing stop_sent s e h =
      (λ c. h.0 (rw e refl), λ d p. omega (arith, length-append s.queue (dummy ∷ [])))
  closing_at-IsClosing done s e h = h

  step-IsClosing :
      (e : Event T) (s : Consumer T) → IsClosing s → IsClosing (consumer_step dummy e s)
  unfolding consumer_step
  step-IsClosing (consumer_turn n) s h = consumer_at-IsClosing s.pc n s h
  step-IsClosing main_turn s h = closing_at-IsClosing s.main s refl h
  step-IsClosing (arrives message) s h =
      (h.0, λ d p. omega (arith, length-append s.queue (message ∷ [])))

  run-IsClosing :
      (es : List (Event T)) (s : Consumer T) → IsClosing s → IsClosing (consumer_run dummy es s)
  unfolding consumer_run
  run-IsClosing [] s h = h
  run-IsClosing (e ∷ es) s h = run-IsClosing es (consumer_step dummy e s) (step-IsClosing e s h)

  popped-left :
      (queue : List T) (s : Consumer T)
      → 0 < length queue
      → s.main ≡ done
      → (left (popped dummy (pop queue) s).pc ≤ 2) × ((popped dummy (pop queue) s).main ≡ done)
  unfolding popped
  popped-left [] s some_left at_end = absurd (omega arith)
  popped-left (message ∷ queue) s some_left at_end = (omega arith, at_end)

  -- What a turn leaves, at the end of main.
  consumer_at-left :
      (pc : ConsumerPc) (n : ℕ) (s : Consumer T)
      → s.pc ≡ pc
      → s.main ≡ done
      → IsClosing s
      → (left (consumer_at dummy pc n s).pc ≤ left pc - 1)
        × ((consumer_at dummy pc n s).main ≡ done)
  unfolding consumer_at popped
  consumer_at-left at_while n s e at_end h =
      let stop = h.0 (rw at_end refl) in rw (stop, consumer_at) (omega arith, at_end)
  consumer_at-left in_pop n s e at_end h = popped-left s.queue s (h.1 at_end e) at_end
  consumer_at-left working n s e at_end h = (omega arith, at_end)
  consumer_at-left ended n s e at_end h =
      let none_left : left s.pc ≡ 0 = rw e refl in (omega (arith, none_left), at_end)

  closing_at-done : (pc : ClosingPc) (s : Consumer T) → pc ≡ done → closing_at dummy pc s ≡ s
  unfolding closing_at
  closing_at-done running s at_end = absurd cc
  closing_at-done stop_sent s at_end = absurd cc
  closing_at-done done s at_end = refl

  -- At the end of main each turn of the thread brings it nearer to its end, and the others do not
  -- hold it up.
  run-left :
      (es : List (Event T)) (s : Consumer T)
      → s.main ≡ done
      → IsClosing s
      → left (consumer_run dummy es s).pc ≤ left s.pc - consumer_turns es
  unfolding consumer_run consumer_step consumer_turns closing_at
  run-left [] s at_end h = omega arith
  run-left (consumer_turn n ∷ es) s at_end h =
      let (less, same) = consumer_at-left s.pc n s refl at_end h in
      let ih = run-left es (consumer_at dummy s.pc n s) same (consumer_at-IsClosing s.pc n s h) in
      omega (arith, less, ih)
  run-left (main_turn ∷ es) s at_end h =
      subst (λ t. left (consumer_run dummy es t).pc ≤ left s.pc - consumer_turns es)
        (sym (closing_at-done s.main s at_end)) (run-left es s at_end h)
  run-left (arrives message ∷ es) s at_end h =
      run-left es (record s { queue = push message s.queue }) at_end
        (step-IsClosing (arrives message) s h)

  left-le-three : (pc : ConsumerPc) → left pc ≤ 3
  left-le-three at_while = omega arith
  left-le-three in_pop = omega arith
  left-le-three working = omega arith
  left-le-three ended = omega arith

  ended_of_left : (pc : ConsumerPc) → left pc ≤ 0 → pc ≡ ended
  ended_of_left at_while h = absurd (omega arith)
  ended_of_left in_pop h = absurd (omega arith)
  ended_of_left working h = absurd (omega arith)
  ended_of_left ended h = refl

  -- Each thread that main stops ends: whatever has happened when main has requested the stop and
  -- pushed its dummy, and in whatever order the threads go on, the thread has ended after three of
  -- its turns. It may be anywhere in its loop, also before `pop`, and may take the dummy out of the
  -- queue while it drains it.
  pub consumer_run-Ends :
      (es later : List (Event T))
      → (consumer_run dummy es started).main ≡ done
      → 3 ≤ consumer_turns later
      → (consumer_run dummy later (consumer_run dummy es started)).pc ≡ ended
  consumer_run-Ends es later at_end enough =
      let s = consumer_run dummy es started in
      let closing : IsClosing s = run-IsClosing es started (λ c. absurd cc, λ d p. absurd cc) in
      ended_of_left _ (omega (arith, run-left later s at_end closing, left-le-three s.pc, enough))
