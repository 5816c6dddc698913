-- ===== src/Dispatcher/Tally.antt =====
-- The dry run of dispatcher/src/dispatcher.cpp against the kinds of messages that
-- dispatcher/src/threads/task_dist_thread.cpp tells apart.
use doge_connect.Prelude.{
  ℕ, if◌then◌else◌, Option-cases, ◌+◌, ◌≡◌, refl, sym, inl, inr, some, List, [], ◌∷◌, ◌%◌, ◌^◌, ◌<◌,
  ap, ◌∙◌, arith,
}
use doge_connect.Structs.{DispatcherStats, incr}
use doge_connect.TaskDist.{JsonLib}
use doge_connect.TaskDist.Loop.{set_difficulty, notify, kind}
use doge_connect.TaskDist.Latest.{LatestOf, no_message, LatestOf-later}
use doge_connect.Dispatcher.DryRun.{first_param, drain_message, dry_run}
use mathlib.Core.Option.{some-injective, none-ne-some}
use doge_connect.Dispatcher.Effects.{
  is_job, MissingIsNoText, SetsDifficulty, Effect, difficulty, job, other, drain_message-Effect,
}

module _ {Json : Type 0} (lib : JsonLib Json) where
  -- How many of the messages announce a job to the distribution loop.
  unfoldable pub count_jobs : List Json → ℕ
  count_jobs [] = 0
  count_jobs (msg ∷ msgs) = (if is_job (kind lib msg) then 1 else 0) + count_jobs msgs

  -- The counters after a run over the messages.
  pub record Tallies (msgs : List Json) (before after : DispatcherStats) : Type 0 where
    pub jobs : after.tasks_distributed ≡ (before.tasks_distributed + count_jobs msgs) % 2 ^ 64
    pub latest :
        LatestOf
          (SetsDifficulty lib)
          (λ msg d. first_param lib msg ≡ some d)
          before.pool_difficulty
          after.pool_difficulty
          msgs
    pub others : after ≡ record before {
      tasks_distributed = after.tasks_distributed;
      pool_difficulty = after.pool_difficulty;
    }

  module _ (msg : Json) (msgs : List Json) (before between after : DispatcherStats)
      (t : Tallies msgs between after) where
    -- The fields that no message changes.
    same_others :
        (d : ℕ) (n : ℕ)
        → between ≡ record before { pool_difficulty = d; tasks_distributed = n }
        → after ≡ record before {
          tasks_distributed = after.tasks_distributed;
          pool_difficulty = after.pool_difficulty;
        }
    same_others d n e =
        t.others
        ∙ ap
            (λ (s : DispatcherStats). record s {
              tasks_distributed = after.tasks_distributed;
              pool_difficulty = after.pool_difficulty;
            })
            e

    same_difficulty :
        ¬ SetsDifficulty lib msg
        → between.pool_difficulty ≡ before.pool_difficulty
        → LatestOf
            (SetsDifficulty lib)
            (λ m d. first_param lib m ≡ some d)
            before.pool_difficulty
            after.pool_difficulty
            (msg ∷ msgs)
    same_difficulty never e =
        LatestOf-later (SetsDifficulty lib) (λ m d. first_param lib m ≡ some d)
          before.pool_difficulty between.pool_difficulty after.pool_difficulty msg msgs
          (inl (never, e)) t.latest

    Tallies-Effect : Effect lib msg before between → Tallies (msg ∷ msgs) before after
    unfolding count_jobs
    Tallies-Effect (difficulty d k given e) =
        let n = ap (λ (s : DispatcherStats). s.tasks_distributed) e in
        let x = ap (λ (s : DispatcherStats). s.pool_difficulty) e in
        record {
          jobs = rw k (omega (arith, t.jobs, n));
          latest =
              LatestOf-later (SetsDifficulty lib) (λ m d'. first_param lib m ≡ some d')
                before.pool_difficulty between.pool_difficulty after.pool_difficulty msg msgs
                (inr (k, given ∙ ap (λ (y : ℕ). some y) (sym x))) t.latest;
          others = same_others d before.tasks_distributed e;
        }
    Tallies-Effect (job k e) =
        let n = ap (λ (s : DispatcherStats). s.tasks_distributed) e in
        record {
          jobs = rw k (omega (arith, t.jobs, n));
          latest =
              same_difficulty (λ f. let g : some notify ≡ some set_difficulty = sym k ∙ f in cc)
                (ap (λ (s : DispatcherStats). s.pool_difficulty) e);
          others = same_others before.pool_difficulty (incr before.tasks_distributed) e;
        }
    Tallies-Effect (other k same none_job ne e) =
        let n = ap (λ (s : DispatcherStats). s.tasks_distributed) e in
        record {
          jobs = rw (same, none_job) (omega (arith, t.jobs, n));
          latest =
              same_difficulty (λ f. ne (sym same ∙ f))
                (ap (λ (s : DispatcherStats). s.pool_difficulty) e);
          others = same_others before.pool_difficulty before.tasks_distributed e;
        }

  Effect-lt :
      (msg : Json) (before after : DispatcherStats)
      → before.tasks_distributed < 2 ^ 64
      → Effect lib msg before after
      → after.tasks_distributed < 2 ^ 64
  Effect-lt msg before after small (difficulty d k given e) = rw e small
  Effect-lt msg before after small (job k e) = rw e (omega arith)
  Effect-lt msg before after small (other k same none_job ne e) = rw e small

  module _ (law : MissingIsNoText lib) where
    -- A dry run counts the messages that the distribution loop takes for jobs, modulo 2 ^ 64, and its
    -- difficulty is that of the last message that sets one for that loop too; all else in the
    -- counters is as before. No exception escaping is a condition, and that a member that is
    -- missing is no text.
    pub dry_run-Tallies :
        (msgs : List Json) (before after : DispatcherStats)
        → before.tasks_distributed < 2 ^ 64
        → dry_run lib msgs before ≡ some after
        → Tallies msgs before after
    unfolding dry_run count_jobs
    dry_run-Tallies [] before after small h =
        let e = some-injective _ _ h in
        rw (← e)
          (record { jobs = omega (arith, small); latest = no_message tt refl; others = refl })
    dry_run-Tallies (msg ∷ msgs) before after small h =
        elim (Option-cases (drain_message lib msg before)) [
          | inl thrown ↦ absurd (none-ne-some _ (rw thrown at h))
          | inr (between, e) ↦
              let effect = drain_message-Effect lib law msg before between e in
              let t =
                dry_run-Tallies msgs between after (Effect-lt msg before between small effect)
                  (rw e at h) in
              Tallies-Effect msg msgs before between after t effect
        ]
