-- ===== src/Dispatcher/Idle.antt =====
-- The hash rates of the status loop, while no share is accepted.
use doge_connect.Prelude.{
  ℕ, leb, if◌then◌else◌, Bool-cases, ◌+◌, ◌^◌, ◌≤◌, ◌<◌, ◌≡◌, sym, ap, ◌∙◌, inl, inr, Bool, true,
  false, ◌||◌, List, [], ◌∷◌, arith,
}
use doge_connect.Structs.{DispatcherStats}
use doge_connect.Dispatcher.Rates.{Doubles, Window, Rates, Pass, update_window, status_passes}
use doge_connect.Dispatcher.Windows.{
  IsExact, window_ns, window_passes, if_same, incoming-window_passes, pool-window_passes,
  update_window-within, update_window-over, update_window-rate,
}

-- Some pass is at `t` or later.
unfoldable pub reaches : ℕ → List Pass → Bool
reaches t [] = false
reaches t (p ∷ ps) = leb t p.now || reaches t ps

-- In each pass the counter is `c`.
unfoldable pub Idle : (DispatcherStats → ℕ) → (c : ℕ) → List Pass → Type 0
Idle count c [] = Unit
Idle count c (p ∷ ps) = (count p.stats ≡ c) × Idle count c ps

-- No pass is after `t`.
unfoldable pub Until : (t : ℕ) → List Pass → Type 0
Until t [] = Unit
Until t (p ∷ ps) = (p.now ≤ t) × Until t ps

-- Which of the two windows.
pub data Side : Type 0 where
  incoming_side pool_side : Side

abbrev pub counter : Side → DispatcherStats → ℕ
counter incoming_side stats = stats.solutions_accepted
counter pool_side stats = stats.pool_shares_accepted

abbrev pub window_of : {D : Type 0} → Side → Rates D → Window D
window_of incoming_side r = r.incoming
window_of pool_side r = r.pool

module _ {D : Type 0} (doubles : Doubles D) (exact : IsExact doubles) where
  module _ (count : DispatcherStats → ℕ) (c : ℕ) (small : c < 2 ^ 64) where
    -- A window that began after the last share still does so after a pass.
    stays_counted :
        (ps : List Pass) (w : Window D)
        → Idle count c ps
        → w.start_accepted ≡ c
        → (window_passes doubles count ps w).start_accepted ≡ c
    unfolding Idle window_passes
    stays_counted [] w idle same = same
    stays_counted (p ∷ ps) w (e, idle) same =
        let next =
          update_window doubles p.now (doubles.of_nat p.stats.pool_difficulty) (count p.stats) w in
        let counted : next.start_accepted ≡ c =
          elim (Bool-cases (leb (w.start + window_ns) p.now)) [
            | inl late ↦ (update_window-over doubles exact p.now (count p.stats) _ w late).1 ∙ e
            | inr early ↦
                (update_window-within doubles exact p.now (count p.stats) _ w early).1 ∙ same
          ] in
        stays_counted ps next idle counted

    start-le :
        (t : ℕ) (ps : List Pass) (w : Window D)
        → Until t ps
        → w.start ≤ t
        → (window_passes doubles count ps w).start ≤ t
    unfolding Until window_passes
    start-le t [] w none_after low = low
    start-le t (p ∷ ps) w (before, none_after) low =
        let diff = doubles.of_nat p.stats.pool_difficulty in
        let next = update_window doubles p.now diff (count p.stats) w in
        let still : next.start ≤ t = elim (Bool-cases (leb (w.start + window_ns) p.now)) [
          | inl late ↦
              let moved = (update_window-over doubles exact p.now (count p.stats) diff w late).0 in
              omega (arith, moved, before)
          | inr early ↦
              let kept =
                (update_window-within doubles exact p.now (count p.stats) diff w early).0 in
              omega (arith, kept, low)
        ] in
        start-le t ps next none_after still

    -- Once the window has ended, the next one began after the last share.
    ends_counted :
        (ps : List Pass) (w : Window D)
        → Idle count c ps
        → reaches (w.start + window_ns) ps ≡ true
        → (window_passes doubles count ps w).start_accepted ≡ c
    unfolding Idle window_passes reaches
    ends_counted [] w idle late = absurd cc
    ends_counted (p ∷ ps) w (e, idle) reached =
        let diff = doubles.of_nat p.stats.pool_difficulty in
        let next = update_window doubles p.now diff (count p.stats) w in
        elim (Bool-cases (leb (w.start + window_ns) p.now)) [
          | inl late ↦
              stays_counted ps next idle
                ((update_window-over doubles exact p.now (count p.stats) diff w late).1 ∙ e)
          | inr early ↦
              let later : reaches (w.start + window_ns) ps ≡ true =
                sym (ap (λ b. b || reaches (w.start + window_ns) ps) early) ∙ reached in
              let kept =
                (update_window-within doubles exact p.now (count p.stats) diff w early).0 in
              ends_counted ps next idle (ap (λ (s : ℕ). reaches (s + window_ns) ps) kept ∙ later)
        ]

    next_rate :
        (p : Pass) (w : Window D)
        → count p.stats ≡ c
        → w.start_accepted ≡ c
        → (update_window doubles p.now
            (doubles.of_nat p.stats.pool_difficulty)
            (count p.stats)
            w).rate
          ≡ (if leb (w.start + window_ns) p.now then doubles.of_nat 0 else w.rate)
    next_rate p w e same =
        ap
          (λ (n : ℕ).
            (update_window doubles p.now (doubles.of_nat p.stats.pool_difficulty) n w).rate)
          e
        ∙ update_window-rate doubles exact p.now c (doubles.of_nat p.stats.pool_difficulty) w small
            same

    stays_zero :
        (ps : List Pass) (w : Window D)
        → Idle count c ps
        → w.start_accepted ≡ c
        → w.rate ≡ doubles.of_nat 0
        → (window_passes doubles count ps w).rate ≡ doubles.of_nat 0
    unfolding Idle window_passes
    stays_zero [] w idle same is_zero = is_zero
    stays_zero (p ∷ ps) w (e, idle) same is_zero =
        stays_zero ps
          (update_window doubles p.now (doubles.of_nat p.stats.pool_difficulty) (count p.stats) w)
          idle (stays_counted (p ∷ []) w (e, tt) same)
          (next_rate p w e same
            ∙ ap (λ r. if leb (w.start + window_ns) p.now then doubles.of_nat 0 else r) is_zero
            ∙ if_same (leb (w.start + window_ns) p.now) (doubles.of_nat 0))

    ends_zero :
        (ps : List Pass) (w : Window D)
        → Idle count c ps
        → w.start_accepted ≡ c
        → reaches (w.start + window_ns) ps ≡ true
        → (window_passes doubles count ps w).rate ≡ doubles.of_nat 0
    unfolding Idle window_passes reaches
    ends_zero [] w idle same reached = absurd cc
    ends_zero (p ∷ ps) w (e, idle) same reached =
        let diff = doubles.of_nat p.stats.pool_difficulty in
        let next = update_window doubles p.now diff (count p.stats) w in
        let counted = stays_counted (p ∷ []) w (e, tt) same in
        elim (Bool-cases (leb (w.start + window_ns) p.now)) [
          | inl late ↦
              stays_zero ps next idle counted
                (next_rate p w e same ∙ ap (λ b. if b then doubles.of_nat 0 else w.rate) late)
          | inr early ↦
              let later : reaches (w.start + window_ns) ps ≡ true =
                sym (ap (λ b. b || reaches (w.start + window_ns) ps) early) ∙ reached in
              let kept =
                (update_window-within doubles exact p.now (count p.stats) diff w early).0 in
              ends_zero ps next idle counted
                (ap (λ (s : ℕ). reaches (s + window_ns) ps) kept ∙ later)
        ]

    reaches-le :
        (early late : ℕ) (ps : List Pass)
        → early ≤ late
        → reaches late ps ≡ true
        → reaches early ps ≡ true
    unfolding reaches
    reaches-le early late [] low reached = reached
    reaches-le early late (p ∷ ps) low reached = elim (Bool-cases (leb late p.now)) [
      | inl at_p ↦
          let now_too : leb early p.now ≡ true = ground arith in
          ap (λ b. b || reaches early ps) now_too
      | inr before_p ↦
          let later =
            reaches-le early late ps low
              (sym (ap (λ b. b || reaches late ps) before_p) ∙ reached) in
          elim (Bool-cases (leb early p.now)) [
            | inl now_too ↦ ap (λ b. b || reaches early ps) now_too
            | inr not_yet ↦ ap (λ b. b || reaches early ps) not_yet ∙ later
          ]
    ]

    quiet_window-zero :
        (t : ℕ) (ps qs : List Pass) (w : Window D)
        → w.start ≤ t
        → Until t ps
        → Idle count c ps
        → Idle count c qs
        → reaches (w.start + window_ns) ps ≡ true
        → reaches (t + window_ns) qs ≡ true
        → (window_passes doubles count qs (window_passes doubles count ps w)).rate
          ≡ doubles.of_nat 0
    quiet_window-zero t ps qs w low none_after idle still_idle reached again =
        let low_after = start-le t ps w none_after low in
        ends_zero qs (window_passes doubles count ps w) still_idle (ends_counted ps w idle reached)
          (reaches-le ((window_passes doubles count ps w).start + window_ns) (t + window_ns) qs
            (omega (arith, low_after)) again)

  window_of-status_passes :
      (side : Side) (ps : List Pass) (r : Rates D)
      → window_of side (status_passes doubles ps r)
        ≡ window_passes doubles (counter side) ps (window_of side r)
  window_of-status_passes incoming_side ps r = incoming-window_passes doubles ps r
  window_of-status_passes pool_side ps r = pool-window_passes doubles ps r

  -- When no further share is accepted, the rate that is shown goes to 0: after a pass at the end of
  -- its window, and another that is 300 seconds later than all of the passes up to then, it is 0,
  -- and is so until a share is accepted. This holds of the incoming shares as of those that the pool
  -- accepts, for a counter that fits 64 bits, when the comparisons of `double` are exact on
  -- durations.
  pub status_passes-rate :
      (side : Side) (c t : ℕ) (ps qs : List Pass) (r : Rates D)
      → c < 2 ^ 64
      → (window_of side r).start ≤ t
      → Until t ps
      → Idle (counter side) c ps
      → Idle (counter side) c qs
      → reaches ((window_of side r).start + window_ns) ps ≡ true
      → reaches (t + window_ns) qs ≡ true
      → (window_of side (status_passes doubles qs (status_passes doubles ps r))).rate
        ≡ doubles.of_nat 0
  status_passes-rate side c t ps qs r small low none_after idle still_idle reached again =
      ap (λ w. w.rate)
        (window_of-status_passes side qs (status_passes doubles ps r)
          ∙ ap (window_passes doubles (counter side) qs) (window_of-status_passes side ps r))
      ∙ quiet_window-zero (counter side) c small t ps qs (window_of side r) low none_after idle
          still_idle reached again
