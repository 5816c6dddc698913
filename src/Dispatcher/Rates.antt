-- ===== src/Dispatcher/Rates.antt =====
-- The hash rates of the status loop in dispatcher/src/dispatcher.cpp. Floating point is a parameter.
use doge_connect.Prelude.{ℕ, ltb, if◌then◌else◌, ◌+◌, ◌-◌, ◌%◌, ◌^◌, Bool, List, [], ◌∷◌}
use doge_connect.Structs.{DispatcherStats}

-- The operations of `double`; `seconds` is the count of a duration, which is in nanoseconds.
pub record Doubles (D : Type 0) : Type 0 where
  pub of_nat : ℕ → D
  pub seconds : ℕ → D
  pub mul : D → D → D
  pub div : D → D → D
  pub less : D → D → Bool
  pub at_least : D → D → Bool

-- A rolling window, with the rate that is shown.
pub record Window (D : Type 0) : Type 0 where
  pub start : ℕ
  pub start_accepted : ℕ
  pub rate : D

pub record Rates (D : Type 0) : Type 0 where
  pub incoming : Window D
  pub pool : Window D

-- What a pass of the loop finds: the steady clock, and the counters.
pub record Pass : Type 0 where
  pub now : ℕ
  pub stats : DispatcherStats

module _ {D : Type 0} (doubles : Doubles D) where
  abbrev pub window_sec : D
  window_sec = doubles.of_nat 300

  -- `current - windowStartAccepted`, of 64 bits.
  unfoldable pub shares_since : (current start_accepted : ℕ) → ℕ
  shares_since current start_accepted = (current + 2 ^ 64 - start_accepted) % 2 ^ 64

  unfoldable pub new_rate : (elapsed : D) → (shares : ℕ) → (current_diff rate : D) → D
  new_rate elapsed shares current_diff rate =
      if doubles.less (doubles.of_nat 0) elapsed
      then (if ltb 0 shares
          then doubles.div
              (doubles.mul (doubles.mul (doubles.of_nat shares) current_diff)
                (doubles.of_nat 65536))
              elapsed
          else (if doubles.at_least elapsed window_sec then doubles.of_nat 0 else rate))
      else rate

  unfoldable pub update_window :
      (now : ℕ) → (current_diff : D) → (current : ℕ) → Window D → Window D
  update_window now current_diff current w =
      let elapsed = doubles.seconds (now - w.start) in
      let rate = new_rate elapsed (shares_since current w.start_accepted) current_diff w.rate in
      if doubles.at_least elapsed window_sec
      then record { start = now; start_accepted = current; rate = rate }
      else record w { rate = rate }

  unfoldable pub update_rates : Pass → Rates D → Rates D
  update_rates p r =
      let current_diff = doubles.of_nat p.stats.pool_difficulty in
      record {
        incoming = update_window p.now current_diff p.stats.solutions_accepted r.incoming;
        pool = update_window p.now current_diff p.stats.pool_shares_accepted r.pool;
      }

  unfoldable pub status_passes : List Pass → Rates D → Rates D
  status_passes [] r = r
  status_passes (p ∷ ps) r = status_passes ps (update_rates p r)

  -- The windows before the loop.
  unfoldable pub first_rates : (incoming_start pool_start : ℕ) → Rates D
  first_rates incoming_start pool_start = record {
    incoming = record { start = incoming_start; start_accepted = 0; rate = doubles.of_nat 0 };
    pool = record { start = pool_start; start_accepted = 0; rate = doubles.of_nat 0 };
  }
