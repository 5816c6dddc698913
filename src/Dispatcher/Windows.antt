-- ===== src/Dispatcher/Windows.antt =====
-- The rolling windows of the status loop in dispatcher/src/dispatcher.cpp, a pass at a time.
use doge_connect.Prelude.{
  ℕ, ltb, leb, if◌then◌else◌, Bool-cases, ◌+◌, ◌-◌, ◌*◌, ◌^◌, ◌<◌, ◌≡◌, refl, inl, inr, Bool, true,
  false, List, [], ◌∷◌, arith,
}
use doge_connect.Structs.{DispatcherStats}
use doge_connect.Dispatcher.Rates.{
  Doubles, Window, Rates, Pass, shares_since, new_rate, update_window, update_rates, status_passes,
}

-- 300 seconds.
abbrev pub window_ns : ℕ
window_ns = 300 * 10 ^ 9

-- Durations are compared with 0 and with 300 seconds as their numbers of nanoseconds are.
pub record IsExact {D : Type 0} (doubles : Doubles D) : Type 0 where
  pub positive : (n : ℕ) → doubles.less (doubles.of_nat 0) (doubles.seconds n) ≡ ltb 0 n
  pub over : (n : ℕ) → doubles.at_least (doubles.seconds n) (doubles.of_nat 300) ≡ leb window_ns n

pub if_same : {A : Type 0} (b : Bool) (a : A) → (if b then a else a) ≡ a
if_same true a = refl
if_same false a = refl

module _ {D : Type 0} (doubles : Doubles D) where
  unfoldable pub window_passes : (DispatcherStats → ℕ) → List Pass → Window D → Window D
  window_passes count [] w = w
  window_passes count (p ∷ ps) w =
      window_passes count ps
        (update_window doubles p.now (doubles.of_nat p.stats.pool_difficulty) (count p.stats) w)

  pub incoming-window_passes :
      (ps : List Pass) (r : Rates D)
      → (status_passes doubles ps r).incoming
        ≡ window_passes (λ s. s.solutions_accepted) ps r.incoming
  unfolding status_passes window_passes update_rates
  incoming-window_passes [] r = refl
  incoming-window_passes (p ∷ ps) r = incoming-window_passes ps (update_rates doubles p r)

  pub pool-window_passes :
      (ps : List Pass) (r : Rates D)
      → (status_passes doubles ps r).pool ≡ window_passes (λ s. s.pool_shares_accepted) ps r.pool
  unfolding status_passes window_passes update_rates
  pool-window_passes [] r = refl
  pool-window_passes (p ∷ ps) r = pool-window_passes ps (update_rates doubles p r)

module _ {D : Type 0} (doubles : Doubles D) (exact : IsExact doubles) where
  -- Within the window only the rate changes.
  pub update_window-within :
      (now current : ℕ) (diff : D) (w : Window D)
      → leb (w.start + window_ns) now ≡ false
      → ((update_window doubles now diff current w).start ≡ w.start)
        × ((update_window doubles now diff current w).start_accepted ≡ w.start_accepted)
  unfolding update_window
  update_window-within now current diff w early =
      let not_over : leb window_ns (now - w.start) ≡ false = ground arith in
      rw (exact.over (now - w.start), not_over) (refl, refl)

  -- At its end a new one begins.
  pub update_window-over :
      (now current : ℕ) (diff : D) (w : Window D)
      → leb (w.start + window_ns) now ≡ true
      → ((update_window doubles now diff current w).start ≡ now)
        × ((update_window doubles now diff current w).start_accepted ≡ current)
  unfolding update_window
  update_window-over now current diff w late =
      let is_over : leb window_ns (now - w.start) ≡ true = ground arith in
      rw (exact.over (now - w.start), is_over) (refl, refl)

  shares_since-none : (c : ℕ) → c < 2 ^ 64 → shares_since doubles c c ≡ 0
  unfolding shares_since
  shares_since-none c small = omega arith

  -- Without a new share the rate is 0 at the end of the window, and does not change before.
  pub update_window-rate :
      (now c : ℕ) (diff : D) (w : Window D)
      → c < 2 ^ 64
      → w.start_accepted ≡ c
      → (update_window doubles now diff c w).rate
        ≡ (if leb (w.start + window_ns) now then doubles.of_nat 0 else w.rate)
  unfolding update_window new_rate
  update_window-rate now c diff w small same =
      let none_new : shares_since doubles c w.start_accepted ≡ 0 =
        rw same (shares_since-none c small) in
      elim (Bool-cases (leb (w.start + window_ns) now)) [
        | inl late ↦
            let is_over : leb window_ns (now - w.start) ≡ true = ground arith in
            let some_time : ltb 0 (now - w.start) ≡ true = ground arith in
            rw
              (
                late,
                exact.over (now - w.start),
                is_over,
                none_new,
                exact.positive (now - w.start),
                some_time,
              )
              refl
        | inr early ↦
            let not_over : leb window_ns (now - w.start) ≡ false = ground arith in
            rw
              (
                early,
                exact.over (now - w.start),
                not_over,
                none_new,
                exact.positive (now - w.start),
              )
              (if_same (ltb 0 (now - w.start)) w.rate)
      ]
