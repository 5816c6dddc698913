-- ===== src/Dispatcher/Effects.antt =====
-- What a message does in the dry run of dispatcher/src/dispatcher.cpp, by the kind that
-- dispatcher/src/threads/task_dist_thread.cpp would see in it.
use doge_connect.Prelude.{
  ℕ, Bool-cases, Option-cases, ◌≡◌, refl, sym, ◌≢◌, inl, inr, Bool, true, false, Option, none, some,
  List, ◌∙◌,
}
use doge_connect.Structs.{DispatcherStats, incr}
use doge_connect.TaskDist.{JsonLib}
use doge_connect.TaskDist.Loop.{
  Kind, ignored, set_difficulty, notify, response, kind, key_id, key_method, mining_notify,
  mining_set_difficulty,
}
use doge_connect.Dispatcher.DryRun.{first_param, on_method, on_id, drain_message}
use mathlib.Core.Option.{some-injective, none-ne-some}

abbrev pub is_job : Option Kind → Bool
is_job none = false
is_job (some ignored) = false
is_job (some set_difficulty) = false
is_job (some notify) = true
is_job (some response) = false

module _ {Json : Type 0} (lib : JsonLib Json) where
  -- A member that is missing is no text.
  abbrev pub MissingIsNoText : Type 0
  MissingIsNoText =
      (j v : Json) (key text : List ℕ)
      → lib.contains j key ≡ false
      → lib.at_key j key ≡ some v
      → lib.is_string v text ≡ false

  abbrev pub SetsDifficulty : Json → Type 0
  SetsDifficulty msg = kind lib msg ≡ some set_difficulty

  -- What a message does to the counters, by its kind.
  pub data Effect (msg : Json) (before after : DispatcherStats) : Type 0 where
    difficulty :
        (d : ℕ)
        → kind lib msg ≡ some set_difficulty
        → first_param lib msg ≡ some d
        → after ≡ record before { pool_difficulty = d }
        → Effect msg before after
    job :
        kind lib msg ≡ some notify
        → after ≡ record before { tasks_distributed = incr before.tasks_distributed }
        → Effect msg before after
    other :
        (k : Option Kind)
        → kind lib msg ≡ k
        → is_job k ≡ false
        → k ≢ some set_difficulty
        → after ≡ before
        → Effect msg before after

  on_method-Effect :
      (msg id method : Json) (stats after : DispatcherStats)
      → lib.contains msg key_id ≡ true
      → lib.at_key msg key_id ≡ some id
      → lib.is_null id ≡ true
      → lib.at_key msg key_method ≡ some method
      → on_method lib msg method stats ≡ some after
      → Effect msg stats after
  unfolding on_method kind
  on_method-Effect msg id method stats after has at_id null at_method h =
      elim (Bool-cases (lib.is_string method mining_set_difficulty)) [
        | inl sets ↦ elim (Option-cases (first_param lib msg)) [
          | inl absent ↦ absurd (none-ne-some _ (rw (sets, absent) at h))
          | inr (d, given) ↦
              difficulty d (rw (has, at_id, null, at_method, sets) refl) given
                (sym (some-injective _ _ (rw (sets, given) at h)))
        ]
        | inr sets ↦ elim (Bool-cases (lib.is_string method mining_notify)) [
          | inl notifies ↦
              job (rw (has, at_id, null, at_method, sets, notifies) refl)
                (sym (some-injective _ _ (rw (sets, notifies) at h)))
          | inr notifies ↦
              other (some ignored) (rw (has, at_id, null, at_method, sets, notifies) refl) refl
                (λ e. cc) (sym (some-injective _ _ (rw (sets, notifies) at h)))
        ]
      ]

  -- A message that the dry run passes over is no job to the distribution loop.
  skipped :
      (msg : Json) (stats after : DispatcherStats)
      → is_job (kind lib msg) ≡ false
      → ¬ SetsDifficulty msg
      → ◌≡◌ {A = Option DispatcherStats} (some stats) (some after)
      → Effect msg stats after
  skipped msg stats after none_job no_difficulty h =
      other (kind lib msg) refl none_job no_difficulty (sym (some-injective _ _ h))

  module _ (law : MissingIsNoText) where
    -- Without a member `method` the loop sees a message of no kind, or an exception.
    without_method :
        (msg id : Json)
        → lib.contains msg key_id ≡ true
        → lib.at_key msg key_id ≡ some id
        → lib.is_null id ≡ true
        → lib.contains msg key_method ≡ false
        → (is_job (kind lib msg) ≡ false) × (¬ SetsDifficulty msg)
    unfolding kind
    without_method msg id has at_id null lacks = elim (Option-cases (lib.at_key msg key_method)) [
      | inl thrown ↦
          let e : kind lib msg ≡ none = rw (has, at_id, null, thrown) refl in
          (rw e refl, λ f. none-ne-some _ (sym e ∙ f))
      | inr (method, at_method) ↦
          let sets = law msg method key_method mining_set_difficulty lacks at_method in
          let notifies = law msg method key_method mining_notify lacks at_method in
          let e : kind lib msg ≡ some ignored =
            rw (has, at_id, null, at_method, sets, notifies) refl in
          (rw e refl, λ f. let g : some ignored ≡ some set_difficulty = sym e ∙ f in cc)
    ]

    -- An id that is not null is that of a response, or none that the loop knows.
    with_number :
        (msg id : Json)
        → lib.contains msg key_id ≡ true
        → lib.at_key msg key_id ≡ some id
        → lib.is_null id ≡ false
        → (is_job (kind lib msg) ≡ false) × (¬ SetsDifficulty msg)
    unfolding kind
    with_number msg id has at_id null = elim (Bool-cases (lib.is_unsigned id)) [
      | inl number ↦
          let e : kind lib msg ≡ some response = rw (has, at_id, null, number) refl in
          (rw e refl, λ f. let g : some response ≡ some set_difficulty = sym e ∙ f in cc)
      | inr odd ↦
          let e : kind lib msg ≡ some ignored = rw (has, at_id, null, odd) refl in
          (rw e refl, λ f. let g : some ignored ≡ some set_difficulty = sym e ∙ f in cc)
    ]

    on_id-Effect :
        (msg id : Json) (stats after : DispatcherStats)
        → lib.contains msg key_id ≡ true
        → lib.at_key msg key_id ≡ some id
        → on_id lib msg id stats ≡ some after
        → Effect msg stats after
    unfolding on_id
    on_id-Effect msg id stats after has at_id h = elim (Bool-cases (lib.is_null id)) [
      | inr number ↦
          let (none_job, no_difficulty) = with_number msg id has at_id number in
          skipped msg stats after none_job no_difficulty (rw number at h)
      | inl null ↦ elim (Bool-cases (lib.contains msg key_method)) [
        | inr lacks ↦
            let (none_job, no_difficulty) = without_method msg id has at_id null lacks in
            skipped msg stats after none_job no_difficulty (rw (null, lacks) at h)
        | inl there ↦ elim (Option-cases (lib.at_key msg key_method)) [
          | inl thrown ↦ absurd (none-ne-some _ (rw (null, there, thrown) at h))
          | inr (method, at_method) ↦
              on_method-Effect msg id method stats after has at_id null at_method
                (rw (null, there, at_method) at h)
        ]
      ]
    ]

    pub drain_message-Effect :
        (msg : Json) (stats after : DispatcherStats)
        → drain_message lib msg stats ≡ some after
        → Effect msg stats after
    unfolding drain_message kind
    drain_message-Effect msg stats after h = elim (Bool-cases (lib.contains msg key_id)) [
      | inr lacks ↦
          let e : kind lib msg ≡ some ignored = rw lacks refl in
          skipped msg stats after (rw e refl)
            (λ f. let g : some ignored ≡ some set_difficulty = sym e ∙ f in cc) (rw lacks at h)
      | inl has ↦ elim (Option-cases (lib.at_key msg key_id)) [
        | inl thrown ↦ absurd (none-ne-some _ (rw (has, thrown) at h))
        | inr (id, at_id) ↦ on_id-Effect msg id stats after has at_id (rw (has, at_id) at h)
      ]
    ]
