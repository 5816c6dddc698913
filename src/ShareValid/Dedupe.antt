-- ===== src/ShareValid/Dedupe.antt =====
-- What the set of recent submissions keeps out.
use doge_connect.Structs.{DispatcherMiningTask, DispatcherMiningSolution}
use doge_connect.Concurrency.HashMap.{get}
use doge_connect.ShareValid.Cases.{IsSound, check_share_sound, check_share-cases}
use doge_connect.ShareValid.Key.{IsSolution, dedupe_key_injective}
use doge_connect.ShareValid.{
  ShareState, ShareInput, accept, begin_share, find_task, validate_share, validate_shares,
  dedupe_key, counts, eq_list,
}
use doge_connect.Prelude.{
  ◌==◌, ==_iff, Bool-cases, Option-cases, All, ℕ, ◌≡◌, refl, ◌∙◌, ◌≢◌, ◌⊎◌, inl, inr, true, false,
  some, List, [], ◌∷◌, arith,
}

eq_list_refl : (xs : List ℕ) → eq_list xs xs ≡ true
unfolding eq_list
eq_list_refl [] = refl
eq_list_refl (x ∷ xs) = ground (arith, eq_list_refl xs)

eq_list_sound : (xs ys : List ℕ) → eq_list xs ys ≡ true → xs ≡ ys
unfolding eq_list
eq_list_sound [] [] h = refl
eq_list_sound [] (y ∷ ys) h = cc
eq_list_sound (x ∷ xs) [] h = cc
eq_list_sound (x ∷ xs) (y ∷ ys) h = ground (arith, eq_list_sound xs ys)

begin_share-clears :
    (sol : DispatcherMiningSolution) (st : ShareState)
    → sol.job_id ≢ st.last_clean_job_id
    → (begin_share sol st).recent_submits ≡ []
unfolding begin_share
begin_share-clears sol st h = ground arith

-- The set only grows, and the job stays.
record Grows (st st' : ShareState) : Type 0 where
  kept : (key : List ℕ) → counts st.recent_submits key ≡ true → counts st'.recent_submits key ≡ true
  job : st'.last_clean_job_id ≡ st.last_clean_job_id

Grows-trans : {a b c : ShareState} → Grows a b → Grows b c → Grows a c
Grows-trans f g = record { kept = λ key h. g.kept key (f.kept key h); job = g.job ∙ f.job }

begin_share-Grows :
    (sol : DispatcherMiningSolution) (st : ShareState)
    → sol.job_id ≡ st.last_clean_job_id
    → Grows st (begin_share sol st)
unfolding begin_share
begin_share-Grows sol st same =
    let e : (sol.job_id == st.last_clean_job_id) ≡ true = (==_iff _ _).1 same in
    rw e (record { kept = λ key h. h; job = refl })

begin_share-job :
    (sol : DispatcherMiningSolution) (st : ShareState)
    → (begin_share sol st).last_clean_job_id ≡ sol.job_id
unfolding begin_share
begin_share-job sol st = ground arith

module _ (scrypt : List ℕ → List ℕ) (worker_name : List ℕ) where
  accept-recent :
      (input : ShareInput) (task : DispatcherMiningTask) (st : ShareState)
      → let st' = accept scrypt worker_name input task st in
        (st'.recent_submits ≡ dedupe_key input.solution ∷ st.recent_submits)
        × (st'.last_clean_job_id ≡ st.last_clean_job_id)
  unfolding accept
  accept-recent input task st = elim (Bool-cases input.connected) [
    | inl up ↦ rw up (refl, refl)
    | inr down ↦ rw down (refl, refl)
  ]

  accept-Grows :
      (input : ShareInput) (task : DispatcherMiningTask) (st : ShareState)
      → Grows st (accept scrypt worker_name input task st)
  unfolding counts
  accept-Grows input task st = record {
    kept = λ key h. rw (accept-recent input task st).0 (ground arith);
    job = (accept-recent input task st).1;
  }

  find_task-Grows :
      (input : ShareInput) (st : ShareState) → Grows st (find_task scrypt worker_name input st)
  unfolding find_task
  find_task-Grows input st = elim (Option-cases (get input.active_tasks input.solution.job_id)) [
    | inl absent ↦ rw (absent, find_task) (record { kept = λ key h. h; job = refl })
    | inr (task, active) ↦ elim (check_share-cases scrypt worker_name input task st) [
      | inl rejected ↦ rw (active, find_task, rejected) (record { kept = λ key h. h; job = refl })
      | inr (sound, accepted) ↦ rw (active, find_task, accepted) (accept-Grows input task st)
    ]
  ]

  validate_share-Grows :
      (input : ShareInput) (st : ShareState)
      → input.solution.job_id ≡ st.last_clean_job_id
      → Grows st (validate_share scrypt worker_name input st)
  unfolding validate_share
  validate_share-Grows input st same =
      elim (Bool-cases (counts st.recent_submits (dedupe_key input.solution))) [
        | inl known ↦ rw known (record { kept = λ key h. h; job = refl })
        | inr fresh ↦
            rw fresh
              (Grows-trans (begin_share-Grows input.solution st same) (find_task-Grows input _))
      ]

  validate_shares-Grows :
      (inputs : List ShareInput) (st : ShareState)
      → All (λ i. i.solution.job_id ≡ st.last_clean_job_id) inputs
      → Grows st (validate_shares scrypt worker_name inputs st)
  unfolding validate_shares
  validate_shares-Grows [] st h = record { kept = λ key h. h; job = refl }
  validate_shares-Grows (input ∷ inputs) st h =
      let first = validate_share-Grows input st h.0 in
      Grows-trans first (validate_shares-Grows inputs _ (rw first.job h.1))

  validate_share-skips :
      (input : ShareInput) (st : ShareState)
      → counts st.recent_submits (dedupe_key input.solution) ≡ true
      → validate_share scrypt worker_name input st ≡ st
  unfolding validate_share
  validate_share-skips input st known = rw known refl

  validate_share-accepts :
      (input : ShareInput) (task : DispatcherMiningTask) (st : ShareState)
      → counts st.recent_submits (dedupe_key input.solution) ≡ false
      → get input.active_tasks input.solution.job_id ≡ some task
      → IsSound scrypt worker_name input task
      → validate_share scrypt worker_name input st
        ≡ accept scrypt worker_name input task (begin_share input.solution st)
  unfolding validate_share find_task
  validate_share-accepts input task st fresh active sound =
      rw (fresh, active, find_task) (check_share_sound scrypt worker_name input task _ sound)

  -- A solution that was accepted is not considered again during its job: after any further
  -- solutions of that job, one with the same key changes nothing at all.
  pub accepted_once :
      (input again : ShareInput) (task : DispatcherMiningTask) (later : List ShareInput)
      (st : ShareState)
      → counts st.recent_submits (dedupe_key input.solution) ≡ false
      → get input.active_tasks input.solution.job_id ≡ some task
      → IsSound scrypt worker_name input task
      → All (λ i. i.solution.job_id ≡ input.solution.job_id) later
      → dedupe_key again.solution ≡ dedupe_key input.solution
      → let st' =
          validate_shares scrypt worker_name later (validate_share scrypt worker_name input st) in
        validate_share scrypt worker_name again st' ≡ st'
  unfolding counts
  accepted_once input again task later st fresh active sound same key =
      let first = validate_share-accepts input task st fresh active sound in
      let begun = begin_share input.solution st in
      let recent = accept-recent input task begun in
      let known : counts (accept scrypt worker_name input task begun).recent_submits
            (dedupe_key again.solution)
          ≡ true =
        rw (recent.0, key) (ground (arith, eq_list_refl (dedupe_key input.solution))) in
      let job = recent.1 ∙ begin_share-job input.solution st in
      let grown =
        validate_shares-Grows later (accept scrypt worker_name input task begun) (rw job same) in
      rw first (validate_share-skips again _ (grown.kept _ known))

  find_task-recent :
      (input : ShareInput) (st : ShareState)
      → ((find_task scrypt worker_name input st).recent_submits ≡ st.recent_submits)
        ⊎ ((find_task scrypt worker_name input st).recent_submits
            ≡ dedupe_key input.solution ∷ st.recent_submits)
  unfolding find_task
  find_task-recent input st = elim (Option-cases (get input.active_tasks input.solution.job_id)) [
    | inl absent ↦ inl (rw (absent, find_task) refl)
    | inr (task, active) ↦ elim (check_share-cases scrypt worker_name input task st) [
      | inl rejected ↦ inl (rw (active, find_task, rejected) refl)
      | inr (sound, accepted) ↦
          inr (rw (active, find_task, accepted) (accept-recent input task st).0)
    ]
  ]

  -- After a fresh solution of another job the set holds that solution's key at most.
  forgets :
      (other : ShareInput) (st : ShareState) (key : List ℕ)
      → counts st.recent_submits (dedupe_key other.solution) ≡ false
      → other.solution.job_id ≢ st.last_clean_job_id
      → dedupe_key other.solution ≢ key
      → counts (validate_share scrypt worker_name other st).recent_submits key ≡ false
  unfolding validate_share counts
  forgets other st key fresh job differ =
      let begun = begin_share other.solution st in
      let cleared = begin_share-clears other.solution st job in
      elim (find_task-recent other begun) [
        | inl same ↦ rw (fresh, same, cleared) refl
        | inr one ↦
            rw (fresh, one, cleared) (ground (arith, eq_list_sound (dedupe_key other.solution) key))
      ]

  -- The set is cleared by any change of job: a share that was accepted is accepted a second time
  -- once a fresh solution for another job has come in between, for as long as its task is active.
  pub accepted_again :
      (input other : ShareInput) (task : DispatcherMiningTask) (st : ShareState)
      → counts st.recent_submits (dedupe_key input.solution) ≡ false
      → get input.active_tasks input.solution.job_id ≡ some task
      → IsSound scrypt worker_name input task
      → IsSolution input.solution
      → IsSolution other.solution
      → other.solution.job_id ≢ input.solution.job_id
      → counts
          (validate_share scrypt worker_name input st).recent_submits
          (dedupe_key other.solution)
        ≡ false
      → let st1 = validate_share scrypt worker_name input st in
        let st2 = validate_share scrypt worker_name other st1 in
        (st1 ≡ accept scrypt worker_name input task (begin_share input.solution st))
        × (validate_share scrypt worker_name input st2
            ≡ accept scrypt worker_name input task (begin_share input.solution st2))
  accepted_again input other task st fresh active sound hi ho job new =
      let first = validate_share-accepts input task st fresh active sound in
      let st1 = validate_share scrypt worker_name input st in
      let begun = begin_share input.solution st in
      let at_job : st1.last_clean_job_id ≡ input.solution.job_id =
        rw first ((accept-recent input task begun).1 ∙ begin_share-job input.solution st) in
      let gone =
        forgets other st1 (dedupe_key input.solution) new (λ e. job (e ∙ at_job))
          (λ e. job (dedupe_key_injective other.solution input.solution ho hi e).0) in
      (first, validate_share-accepts input task _ gone active sound)
