-- ===== src/ShareValid/Accept.antt =====
-- Which solutions are sent to the pool.
use doge_connect.Structs.{DispatcherMiningTask, DispatcherMiningSolution, incr}
use doge_connect.Concurrency.HashMap.{get}
use doge_connect.ShareValid.Cases.{IsSound, check_share_sound, check_share-cases}
use doge_connect.HashUtil.{bytes_to_hex, big_endian, little_endian}
use doge_connect.ShareValid.{
  ShareState, ShareInput, submission, accept, begin_share, validate_share, dedupe_key, counts,
  find_task,
}
use doge_connect.Prelude.{
  Bool-cases, Option-cases, ℕ, ◌≡◌, refl, ◌∙◌, ◌⊎◌, inl, inr, true, false, some, List, ◌∷◌, arith,
}

-- The log of messages and the next id are left alone.
abbrev pub Silent : ShareState → ShareState → Type 0
Silent st st' = (st'.sent ≡ st.sent) × (st'.next_stratum_send_id ≡ st.next_stratum_send_id)

begin_share-Silent :
    (sol : DispatcherMiningSolution) (st : ShareState) → Silent st (begin_share sol st)
unfolding begin_share
begin_share-Silent sol st = ground arith

module _ (scrypt : List ℕ → List ℕ) (worker_name : List ℕ) where
  -- The conditions under which a round sends a share.
  pub record Submits (input : ShareInput) (st : ShareState) (task : DispatcherMiningTask)
      : Type 0 where
    pub fresh : counts st.recent_submits (dedupe_key input.solution) ≡ false
    pub active : get input.active_tasks input.solution.job_id ≡ some task
    pub sound : IsSound scrypt worker_name input task
    pub up : input.connected ≡ true

  -- The message of the solution is handed to `sendMessage`, whose result the code ignores, with the
  -- next id, and the id advances.
  abbrev pub Sends : ShareInput → ShareState → DispatcherMiningTask → ShareState → Type 0
  Sends input st task st' =
      (st'.sent
        ≡ record {
          id = st.next_stratum_send_id;
          worker_name = worker_name;
          task_id = task.task_id;
          extra_nonce2 = bytes_to_hex input.solution.extra_nonce2 big_endian;
          n_time = bytes_to_hex input.solution.n_time little_endian;
          nonce = bytes_to_hex input.solution.nonce little_endian;
        }
          ∷ st.sent)
      × (st'.next_stratum_send_id ≡ incr st.next_stratum_send_id)

  module _ (input : ShareInput) (st : ShareState) where
    accept-up :
        (task : DispatcherMiningTask)
        → input.connected ≡ true
        → Sends input st task (accept scrypt worker_name input task st)
    unfolding accept submission
    accept-up task up = rw up (refl, refl)

    accept-down :
        (task : DispatcherMiningTask)
        → input.connected ≡ false
        → Silent st (accept scrypt worker_name input task st)
    unfolding accept
    accept-down task down = rw down (refl, refl)

  module _ (input : ShareInput) (st : ShareState) where
    begun : ShareState
    begun = begin_share input.solution st

    -- A fresh, sound solution for an active task is sent, with the next id, while the pool is
    -- connected.
    pub validate_share-Sends :
        (task : DispatcherMiningTask)
        → Submits input st task
        → Sends input st task (validate_share scrypt worker_name input st)
    unfolding validate_share begun find_task submission
    validate_share-Sends task s =
        let same = begin_share-Silent input.solution st in
        let go = accept-up input begun task s.up in
        rw
          (
            s.fresh,
            s.active,
            find_task,
            check_share_sound scrypt worker_name input task begun s.sound,
            go.0,
            go.1,
            same.0,
            same.1,
          )
          (refl, refl)

    accept-outcome :
        (task : DispatcherMiningTask)
        → counts st.recent_submits (dedupe_key input.solution) ≡ false
        → get input.active_tasks input.solution.job_id ≡ some task
        → IsSound scrypt worker_name input task
        → Silent st (accept scrypt worker_name input task begun)
          ⊎ ((task : DispatcherMiningTask) × Submits input st task)
    unfolding begun
    accept-outcome task fresh active sound = elim (Bool-cases input.connected) [
      | inl up ↦ inr (task, record { fresh = fresh; active = active; sound = sound; up = up })
      | inr down ↦
          let same = begin_share-Silent input.solution st in
          let kept = accept-down input begun task down in inl (kept.0 ∙ same.0, kept.1 ∙ same.1)
    ]

    -- A round that sends a share, or advances the id, has met all the conditions: a fresh, sound
    -- solution for an active task, while the pool is connected.
    pub validate_share-only :
        Silent st (validate_share scrypt worker_name input st)
        ⊎ ((task : DispatcherMiningTask) × Submits input st task)
    unfolding validate_share begun find_task submission
    validate_share-only = elim (Bool-cases (counts st.recent_submits (dedupe_key input.solution))) [
      | inl known ↦ inl (rw known (refl, refl))
      | inr fresh ↦ elim (Option-cases (get input.active_tasks input.solution.job_id)) [
        | inl absent ↦ inl (rw (fresh, absent, find_task) (begin_share-Silent input.solution st))
        | inr (task, active) ↦ elim (check_share-cases scrypt worker_name input task begun) [
          | inl rejected ↦
              inl (rw (fresh, active, find_task, rejected) (begin_share-Silent input.solution st))
          | inr (sound, accepted) ↦
              rw (fresh, active, find_task, accepted) (accept-outcome task fresh active sound)
        ]
      ]
    ]
