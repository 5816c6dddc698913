-- ===== src/TaskDist/Messages.antt =====
-- What single messages do to the state of the loop in dispatcher/src/threads/task_dist_thread.cpp.
use doge_connect.Prelude.{
  ℕ, Option-cases, ◌≡◌, refl, sym, ap, ◌≢◌, ◌⊎◌, inl, inr, true, some, List, [], ◌∷◌,
}
use doge_connect.Difficulty.{DifficultyTarget, divide_target, of_full_rep}
use doge_connect.TaskDist.{JsonLib}
use doge_connect.TaskDist.Loop.{
  key_params, set_difficulty, notify, response, LoopState, kind, clean_flag, change_difficulty,
  answer, check_share_response,
}
use mathlib.Core.Option.{some-injective, none-ne-some}
use doge_connect.Structs.{DispatcherStats}

module _ {Json : Type 0} (lib : JsonLib Json) (base : DifficultyTarget) where
  abbrev pub IsNotify : Json → Type 0
  IsNotify msg = kind lib msg ≡ some notify

  abbrev pub IsSetDifficulty : Json → Type 0
  IsSetDifficulty msg = kind lib msg ≡ some set_difficulty

  -- The target of a message that sets the difficulty: the base divided by its number.
  unfoldable pub Sets : Json → DifficultyTarget → Type 0
  Sets msg target =
      (params : Json) × (j : Json) × (divisor : ℕ) × (lib.at_key msg key_params ≡ some params)
      × (lib.at_index params 0 ≡ some j)
      × (lib.get_unsigned j ≡ some divisor)
      × (target ≡ of_full_rep (divide_target base.full_rep divisor))

  -- A job that asks for earlier jobs to be dropped.
  abbrev pub Cleans : Json → Type 0
  Cleans msg = IsNotify msg × (clean_flag lib msg ≡ some true)

  -- What a message does to the counters: a response is counted, a change of the difficulty is noted,
  -- and any other message leaves them.
  unfoldable pub Counts : Json → DispatcherStats → DispatcherStats → Type 0
  Counts msg stats stats' =
      ((kind lib msg ≡ some response) × (check_share_response lib msg stats ≡ some stats'))
      ⊎ ((IsSetDifficulty msg
            × ((divisor : ℕ) × (stats' ≡ record stats { pool_difficulty = divisor })))
          ⊎ ((kind lib msg ≢ some response) × (¬ IsSetDifficulty msg) × (stats' ≡ stats)))

  unfoldable pub CountsAll : List Json → DispatcherStats → DispatcherStats → Type 0
  CountsAll [] stats stats' = stats' ≡ stats
  CountsAll (msg ∷ messages) stats stats' =
      (between : DispatcherStats) × Counts msg stats between × CountsAll messages between stats'

  -- Apart from the counters, the tasks and what was sent are left.
  abbrev pub KeepsTasks : LoopState → LoopState → Type 0
  KeepsTasks st st' = st'.tasks ≡ record st.tasks { stats = st'.tasks.stats }

  pub change_difficulty-Counts :
      (msg : Json) (st st' : LoopState)
      → IsSetDifficulty msg
      → change_difficulty lib base msg st ≡ some st'
      → Counts msg st.tasks.stats st'.tasks.stats × KeepsTasks st st'
  unfolding change_difficulty Counts
  change_difficulty-Counts msg st st' sets h = elim (Option-cases (lib.at_key msg key_params)) [
    | inl absent ↦ absurd (none-ne-some _ (rw absent at h))
    | inr (params, e0) ↦
        let h0 = rw e0 at h in
        elim (Option-cases (lib.at_index params 0)) [
          | inl absent ↦ absurd (none-ne-some _ (rw absent at h0))
          | inr (j, e1) ↦
              let h1 = rw e1 at h0 in
              elim (Option-cases (lib.get_unsigned j)) [
                | inl absent ↦ absurd (none-ne-some _ (rw absent at h1))
                | inr (divisor, e2) ↦
                    let same = some-injective _ _ (rw e2 at h1) in
                    rw (sym same) (inr (inl (sets, (divisor, refl))), refl)
              ]
        ]
  ]

  pub answer-Counts :
      (msg : Json) (st st' : LoopState)
      → kind lib msg ≡ some response
      → answer lib msg st ≡ some st'
      → Counts msg st.tasks.stats st'.tasks.stats × KeepsTasks st st'
  unfolding answer Counts
  answer-Counts msg st st' is_response h =
      elim (Option-cases (check_share_response lib msg st.tasks.stats)) [
        | inl absent ↦ absurd (none-ne-some _ (rw absent at h))
        | inr (stats, e) ↦
            let same = some-injective _ _ (rw e at h) in rw (sym same) (inl (is_response, e), refl)
      ]

  pub change_difficulty-Sets :
      (msg : Json) (st st' : LoopState)
      → change_difficulty lib base msg st ≡ some st'
      → Sets msg st'.pool_difficulty
  unfolding change_difficulty Sets
  change_difficulty-Sets msg st st' h = elim (Option-cases (lib.at_key msg key_params)) [
    | inl absent ↦ absurd (none-ne-some _ (rw absent at h))
    | inr (params, e0) ↦
        let h0 = rw e0 at h in
        elim (Option-cases (lib.at_index params 0)) [
          | inl absent ↦ absurd (none-ne-some _ (rw absent at h0))
          | inr (j, e1) ↦
              let h1 = rw e1 at h0 in
              elim (Option-cases (lib.get_unsigned j)) [
                | inl absent ↦ absurd (none-ne-some _ (rw absent at h1))
                | inr (divisor, e2) ↦
                    let same = some-injective _ _ (rw e2 at h1) in
                    (
                      params,
                      j,
                      divisor,
                      e0,
                      e1,
                      e2,
                      sym (ap (λ (s : LoopState). s.pool_difficulty) same),
                    )
              ]
        ]
  ]

  pub answer-pool_difficulty :
      (msg : Json) (st st' : LoopState)
      → answer lib msg st ≡ some st'
      → st'.pool_difficulty ≡ st.pool_difficulty
  unfolding answer
  answer-pool_difficulty msg st st' h =
      elim (Option-cases (check_share_response lib msg st.tasks.stats)) [
        | inl absent ↦ absurd (none-ne-some _ (rw absent at h))
        | inr (stats, e) ↦
            let same = some-injective _ _ (rw e at h) in
            sym (ap (λ (s : LoopState). s.pool_difficulty) same)
      ]
