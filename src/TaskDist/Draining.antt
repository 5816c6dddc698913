-- ===== src/TaskDist/Draining.antt =====
-- What the draining of the queue by dispatcher/src/threads/task_dist_thread.cpp picks out of it.
use doge_connect.Prelude.{
  Option-cases, ◌≡◌, refl, sym, ap, ◌∙◌, ◌≢◌, ◌↔◌, ◌⊎◌, inl, inr, Bool, true, false, ◌||◌, some,
  List, [], ◌∷◌,
}
use doge_connect.Difficulty.{DifficultyTarget}
use doge_connect.TaskDist.{JsonLib, TaskParams, TaskInput, distribute, TaskState}
use doge_connect.TaskDist.Loop.{
  Kind, ignored, set_difficulty, notify, response, LoopState, Drained, kind, clean_flag,
  read_params, change_difficulty, answer, drain_one, drain, distribution_round,
}
use doge_connect.TaskDist.Latest.{Has, LatestOf, no_message, LatestOf-later}
use doge_connect.TaskDist.Messages.{
  IsNotify, IsSetDifficulty, Sets, Cleans, Counts, CountsAll, KeepsTasks, change_difficulty-Counts,
  answer-Counts, change_difficulty-Sets, answer-pool_difficulty,
}
use mathlib.Core.Option.{some-injective, none-ne-some}

module _ {Json : Type 0} (lib : JsonLib Json) (base : DifficultyTarget) where
  -- What the draining leaves.
  unfoldable pub Drains : List Json → Drained lib → Drained lib → Type 0
  Drains messages d d' =
      LatestOf (IsNotify lib base) (λ m j. j ≡ m) d.latest d'.latest messages
      × LatestOf (IsSetDifficulty lib base) (Sets lib base) d.loop.pool_difficulty
          d'.loop.pool_difficulty messages
      × ((d'.clean ≡ true) ↔ ((d.clean ≡ true) ⊎ Has (Cleans lib base) messages))
      × CountsAll lib base messages d.loop.tasks.stats d'.loop.tasks.stats
      × KeepsTasks lib base d.loop d'.loop

  ignored-ne-notify : ignored ≢ notify
  ignored-ne-notify e = absurd cc

  ignored-ne-set_difficulty : ignored ≢ set_difficulty
  ignored-ne-set_difficulty e = absurd cc

  ignored-ne-response : ignored ≢ response
  ignored-ne-response e = absurd cc

  set_difficulty-ne-notify : set_difficulty ≢ notify
  set_difficulty-ne-notify e = absurd cc

  response-ne-notify : response ≢ notify
  response-ne-notify e = absurd cc

  response-ne-set_difficulty : response ≢ set_difficulty
  response-ne-set_difficulty e = absurd cc

  -- What one message changes.
  abbrev pub Takes : Json → Drained lib → Drained lib → Type 0
  Takes msg d d' =
      (((¬ IsNotify lib base msg) × (d'.latest ≡ d.latest))
        ⊎ (IsNotify lib base msg × (d'.latest ≡ msg)))
      × (((¬ IsSetDifficulty lib base msg) × (d'.loop.pool_difficulty ≡ d.loop.pool_difficulty))
          ⊎ (IsSetDifficulty lib base msg × Sets lib base msg d'.loop.pool_difficulty))
      × ((d'.clean ≡ true) ↔ ((d.clean ≡ true) ⊎ Cleans lib base msg))
      × Counts lib base msg d.loop.tasks.stats d'.loop.tasks.stats
      × KeepsTasks lib base d.loop d'.loop

  -- Another kind than that of the message.
  other_kind :
      (msg : Json) {k k' : Kind} → kind lib msg ≡ some k → k ≢ k' → ¬ (kind lib msg ≡ some k')
  other_kind msg e differs e' = differs (some-injective _ _ (sym e ∙ e'))

  kept_clean :
      (msg : Json) (b : Bool)
      → ¬ IsNotify lib base msg
      → (b ≡ true) ↔ ((b ≡ true) ⊎ Cleans lib base msg)
  kept_clean msg b other = (inl, λ c. elim c [ inl e ↦ e | inr n ↦ absurd (other n.0) ])

  -- The flag of a job is added to the flag so far.
  added_clean :
      (msg : Json) (b c : Bool)
      → IsNotify lib base msg
      → clean_flag lib msg ≡ some c
      → ((b || c) ≡ true) ↔ ((b ≡ true) ⊎ Cleans lib base msg)
  added_clean msg true c here flag = (λ e. inl refl, λ e. refl)
  added_clean msg false c here flag = (
    λ e. inr (here, flag ∙ ap some e),
    λ e. elim e [ inl f ↦ absurd cc | inr (n, f) ↦ some-injective _ _ (sym flag ∙ f) ],
  )

  drain_one-Takes :
      (msg : Json) (d d' : Drained lib) → drain_one lib base msg d ≡ some d' → Takes msg d d'
  unfolding drain_one Counts
  drain_one-Takes msg d d' h = elim (Option-cases (kind lib msg)) [
    | inl absent ↦ absurd (none-ne-some _ (rw absent at h))
    | inr (ignored, e) ↦
        let same : d ≡ d' = some-injective _ _ (rw e at h) in
        let n : ¬ IsNotify lib base msg = other_kind msg e ignored-ne-notify in
        let s : ¬ IsSetDifficulty lib base msg = other_kind msg e ignored-ne-set_difficulty in
        let r = other_kind msg e ignored-ne-response in
        rw (sym same)
          (inl (n, refl), inl (s, refl), kept_clean msg d.clean n, inr (inr (r, s, refl)), refl)
    | inr (set_difficulty, e) ↦
        let n : ¬ IsNotify lib base msg = other_kind msg e set_difficulty-ne-notify in
        elim (Option-cases (change_difficulty lib base msg d.loop)) [
          | inl absent ↦ absurd (none-ne-some _ (rw absent at (rw e at h)))
          | inr (l, found) ↦
              let d1 : Drained lib = record d { loop = l } in
              let same : d1 ≡ d' = some-injective _ _ (rw found at (rw e at h)) in
              let sets = change_difficulty-Sets lib base msg d.loop l found in
              let (counted, kept) = change_difficulty-Counts lib base msg d.loop l e found in
              rw (sym same) (inl (n, refl), inr (e, sets), kept_clean msg d.clean n, counted, kept)
        ]
    | inr (notify, e) ↦
        let s : ¬ IsSetDifficulty lib base msg =
          other_kind msg e (λ q. set_difficulty-ne-notify (sym q)) in
        elim (Option-cases (clean_flag lib msg)) [
          | inl absent ↦ absurd (none-ne-some _ (rw absent at (rw e at h)))
          | inr (c, found) ↦
              let d1 : Drained lib = record d { latest = msg; clean = d.clean || c } in
              let same : d1 ≡ d' = some-injective _ _ (rw found at (rw e at h)) in
              let r = other_kind msg e (λ q. response-ne-notify (sym q)) in
              rw (sym same) (
                inr (e, refl),
                inl (s, refl),
                added_clean msg d.clean c e found,
                inr (inr (r, s, refl)),
                refl,
              )
        ]
    | inr (response, e) ↦
        let n : ¬ IsNotify lib base msg = other_kind msg e response-ne-notify in
        let s : ¬ IsSetDifficulty lib base msg = other_kind msg e response-ne-set_difficulty in
        elim (Option-cases (answer lib msg d.loop)) [
          | inl absent ↦ absurd (none-ne-some _ (rw absent at (rw e at h)))
          | inr (l, found) ↦
              let d1 : Drained lib = record d { loop = l } in
              let same : d1 ≡ d' = some-injective _ _ (rw found at (rw e at h)) in
              let kept = answer-pool_difficulty lib base msg d.loop l found in
              let (counted, left) = answer-Counts lib base msg d.loop l e found in
              rw (sym same) (inl (n, refl), inl (s, kept), kept_clean msg d.clean n, counted, left)
        ]
  ]

  drain-Drains :
      (messages : List Json) (d d' : Drained lib)
      → drain lib base messages d ≡ some d'
      → Drains messages d d'
  unfolding drain Drains CountsAll
  drain-Drains [] d d' h =
      let same : d ≡ d' = some-injective _ _ h in
      rw (sym same) (
        no_message tt refl,
        no_message tt refl,
        (inl, λ c. elim c [ inl e ↦ e | inr n ↦ absurd n ]),
        refl,
        refl,
      )
  drain-Drains (msg ∷ messages) d d' h = elim (Option-cases (drain_one lib base msg d)) [
    | inl absent ↦ absurd (none-ne-some _ (rw absent at h))
    | inr (d1, found) ↦
        let (job, target, flag, counted, left) = drain_one-Takes msg d d1 found in
        let (jobs, targets, flags, counts, rest) = drain-Drains messages d1 d' (rw found at h) in
        (
          LatestOf-later (IsNotify lib base) (λ m j. j ≡ m) d.latest d1.latest d'.latest msg
              messages job jobs,
          LatestOf-later (IsSetDifficulty lib base) (Sets lib base) d.loop.pool_difficulty
              d1.loop.pool_difficulty d'.loop.pool_difficulty msg messages target targets,
          (
            λ e. elim (flags.0 e) [
              | inr later ↦ inr (inr later)
              | inl e1 ↦ elim (flag.0 e1) [ inl e0 ↦ inl e0 | inr here ↦ inr (inl here) ]
            ],
            λ c. elim c [
              | inl e0 ↦ flags.1 (inl (flag.1 (inl e0)))
              | inr (inl here) ↦ flags.1 (inl (flag.1 (inr here)))
              | inr (inr later) ↦ flags.1 (inr later)
            ],
          ),
          (d1.loop.tasks.stats, counted, counts),
          rest ∙ ap (λ (t : TaskState). record t { stats = d'.loop.tasks.stats }) left,
        )
  ]

  -- A job is distributed: the latest, at the latest difficulty.
  unfoldable pub Distributes : TaskInput → Json → List Json → LoopState → LoopState → Type 0
  Distributes input msg queued st st' =
      (c : Bool) × (d : Drained lib) × (params : TaskParams) × (clean_flag lib msg ≡ some c)
      × Drains queued (record { latest = msg; clean = c; loop = st }) d
      × (read_params lib d.latest ≡ some params)
      × (st' ≡ record d.loop {
        tasks = distribute input params d.clean d.loop.pool_difficulty d.loop.tasks;
      })

  -- When a job is popped, the round distributes one job: the last that is in the queue, or the
  -- popped one, with the flag that it or any of the jobs before it has, at the target that the last
  -- change of the difficulty in the queue sets. The other jobs leave no trace: until then the active
  -- tasks and what was sent are those of before, and the counters are changed by the responses and
  -- the changes of the difficulty alone, one after the other. No exception escaping is a condition.
  pub distribution_round-Distributes :
      (input : TaskInput) (msg : Json) (queued : List Json) (st st' : LoopState)
      → distribution_round lib base input msg queued st ≡ some st'
      → kind lib msg ≡ some notify
      → Distributes input msg queued st st'
  unfolding distribution_round Distributes
  distribution_round-Distributes input msg queued st st' h popped =
      let h0 = rw popped at h in
      elim (Option-cases (clean_flag lib msg)) [
        | inl absent ↦ absurd (none-ne-some _ (rw absent at h0))
        | inr (c, flag) ↦
            let h1 = rw flag at h0 in
            let begun : Drained lib = record { latest = msg; clean = c; loop = st } in
            elim (Option-cases (drain lib base queued begun)) [
              | inl absent ↦ absurd (none-ne-some _ (rw absent at h1))
              | inr (d, drained) ↦
                  let h2 = rw drained at h1 in
                  elim (Option-cases (read_params lib d.latest)) [
                    | inl absent ↦ absurd (none-ne-some _ (rw absent at h2))
                    | inr (params, read) ↦
                        let same = some-injective _ _ (rw read at h2) in
                        (c, d, params, flag, drain-Drains queued begun d drained, read, sym same)
                  ]
            ]
      ]
