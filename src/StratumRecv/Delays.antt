-- ===== src/StratumRecv/Delays.antt =====
-- What a reconnection to the pool in dispatcher/src/threads/stratum_recv_thread.cpp leaves: its
-- delays, and the state that the loop goes on with.
use doge_connect.StratumRecv.Requests.{Login, subscribe_request, authorize_request}
use doge_connect.StratumRecv.Init.{StratumLib, init_stratum_protocol}
use doge_connect.StratumRecv.Retry.{
  returned, still_trying, reconnected, Attempt, stop_requested, not_opened, opened, PoolState,
  Retried, next_delay, after_delay, begun_state, retry, reconnect_to_pool,
}
use doge_connect.StratumRecv.Begins.{Begins, Begins-requests, init_stratum_protocol-Begins}
use native.Mathlib.Nat.{pow-suc}
use mathlib.Core.Option.{some-injective, none-ne-some}
use doge_connect.Prelude.{
  ℕ, Bool-cases, Option-cases, ◌>>=◌, suc, ◌+◌, ◌*◌, ◌^◌, min, ◌≡◌, refl, sym, ap, ap₂, ◌∙◌, inl,
  inr, Bool, true, Option, none, some, List, [], ◌∷◌, arith, length, get_elem?, ◌⊎◌,
}

-- The `k`-th delay, from 0 on.
abbrev pub delay_at : ℕ → ℕ
delay_at k = min (2 ^ (k + 1)) 60

next_delay-delay_at : (k : ℕ) → next_delay (delay_at k) ≡ delay_at (k + 1)
unfolding next_delay
next_delay-delay_at k =
    let double : 2 ^ (k + 1 + 1) ≡ 2 * 2 ^ (k + 1) =
      let e : k + 1 + 1 ≡ suc (k + 1) = omega arith in
      ap (λ (t : ℕ). 2 ^ t) e ∙ omega (arith, pow-suc 2 (k + 1)) in
    omega (arith, double)

-- From the `j`-th delay on.
unfoldable pub Follows : ℕ → List ℕ → Type 0
Follows j [] = Unit
Follows j (d ∷ delays) = (d ≡ delay_at j) × Follows (j + 1) delays

module _ {Json : Type 0} (lib : StratumLib Json) (login : Login) where
  -- The protocol has begun by the replies of the last of `n` attempts.
  unfoldable pub ByLast : ℕ → List Attempt → PoolState Json → Type 0
  ByLast n attempts state =
      (k : ℕ) × (subscribe_reply authorize_reply : List ℕ) × (queue : List Json) × (n ≡ suc k)
      × (get_elem? attempts k ≡ some (opened subscribe_reply authorize_reply))
      × Begins lib login subscribe_reply authorize_reply queue (record {
        result = true;
        extra_nonce1 = state.extra_nonce1;
        queue = state.stream.queue;
        requests = subscribe_request ∷ authorize_request login ∷ [];
      })

  -- How it ends, after `n` attempts: there are no more, the next wait is interrupted, or the last of
  -- them succeeded.
  unfoldable pub EndsAfter : ℕ → List Attempt → Retried Json → Type 0
  EndsAfter n attempts r =
      ((r.outcome ≡ still_trying) × (n ≡ length attempts))
      ⊎ (((r.outcome ≡ returned) × (get_elem? attempts n ≡ some stop_requested))
          ⊎ ((r.outcome ≡ reconnected) × ByLast n attempts r.state))

  EndsAfter-suc :
      (n : ℕ) (attempt : Attempt) (attempts : List Attempt) (r : Retried Json)
      → EndsAfter n attempts r
      → EndsAfter (suc n) (attempt ∷ attempts) r
  unfolding EndsAfter ByLast
  EndsAfter-suc n attempt attempts r (inl (o, all)) = inl (o, ap suc all)
  EndsAfter-suc n attempt attempts r (inr (inl ends)) = inr (inl ends)
  EndsAfter-suc n attempt attempts r (inr (inr (o, (k, s, a, q, e, at, begins)))) =
      inr (inr (o, (suc k, s, a, q, ap suc e, at, begins)))

  -- A delay before each attempt, from the `j`-th delay on, and no text of a line that was cut off.
  unfoldable pub Resumes : ℕ → List Attempt → Retried Json → Type 0
  Resumes j attempts r =
      Follows j r.delays
      × (r.state.stream.network_buffer ≡ [])
      × EndsAfter (length r.delays) attempts r

  Resumes-delayed :
      (j delay_sec : ℕ) (attempt : Attempt) (attempts : List Attempt) (o : Option (Retried Json))
      (r : Retried Json)
      → delay_sec ≡ delay_at j
      → ((r' : Retried Json) → o ≡ some r' → Resumes (j + 1) attempts r')
      → (o >>= λ r'. some (after_delay delay_sec r')) ≡ some r
      → Resumes j (attempt ∷ attempts) r
  unfolding Resumes Follows EndsAfter ByLast
  Resumes-delayed j delay_sec attempt attempts none r e later h = absurd (none-ne-some _ h)
  Resumes-delayed j delay_sec attempt attempts (some r') r e later h =
      let (follows, cleared, ends) = later r' refl in
      let same : after_delay delay_sec r' ≡ r = some-injective _ _ h in
      rw (sym same)
        ((e, follows), cleared, EndsAfter-suc (length r'.delays) attempt attempts r' ends)

  retry-Resumes :
      (attempts : List Attempt) (j delay_sec : ℕ) (st : PoolState Json) (r : Retried Json)
      → delay_sec ≡ delay_at j
      → st.stream.network_buffer ≡ []
      → retry lib login attempts delay_sec st ≡ some r
      → Resumes j attempts r
  unfolding retry Resumes Follows EndsAfter ByLast
  retry-Resumes [] j delay_sec st r e cleared h =
      rw (sym (some-injective _ _ h)) (tt, cleared, inl (refl, refl))
  retry-Resumes (stop_requested ∷ attempts) j delay_sec st r e cleared h =
      rw (sym (some-injective _ _ h)) (tt, cleared, inr (inl (refl, refl)))
  retry-Resumes (not_opened ∷ attempts) j delay_sec st r e cleared h =
      let next : next_delay delay_sec ≡ delay_at (j + 1) = rw e (next_delay-delay_at j) in
      Resumes-delayed j delay_sec not_opened attempts
        (retry lib login attempts (next_delay delay_sec) st) r e
        (λ r'. retry-Resumes attempts (j + 1) (next_delay delay_sec) st r' next cleared) h
  retry-Resumes (opened s a ∷ attempts) j delay_sec st r e cleared h =
      let next : next_delay delay_sec ≡ delay_at (j + 1) = rw e (next_delay-delay_at j) in
      elim (Option-cases (init_stratum_protocol lib login s a st.extra_nonce1 st.stream.queue)) [
        | inl absent ↦ absurd (none-ne-some _ (rw absent at h))
        | inr (b, found) ↦ elim (Bool-cases b.result) [
          | inl success ↦
              let begins =
                init_stratum_protocol-Begins lib login s a st.extra_nonce1 st.stream.queue b found
                  success in
              let end : Retried Json = record {
                outcome = reconnected;
                delays = delay_sec ∷ [];
                state = begun_state lib login st b;
              } in
              let same : end ≡ r = some-injective _ _ (rw success at (rw found at h)) in
              let whole : b ≡ record b {
                result = true;
                requests = subscribe_request ∷ authorize_request login ∷ [];
              } =
                ap₂ (λ (t : Bool) (q : List (List ℕ)). record b { result = t; requests = q })
                  success (Begins-requests lib login s a st.stream.queue b begins) in
              rw (sym same) (
                (e, tt),
                cleared,
                inr (inr (refl, (0, s, a, st.stream.queue, refl, refl, rw whole at begins))),
              )
          | inr failure ↦
              Resumes-delayed j delay_sec (opened s a) attempts
                (retry lib login attempts (next_delay delay_sec) (begun_state lib login st b)) r e
                (λ r'.
                  retry-Resumes attempts (j + 1) (next_delay delay_sec) (begun_state lib login st b)
                    r' next cleared)
                (rw failure at (rw found at h))
        ]
      ]

  -- A reconnection waits before each of its attempts, 2, 4, 8, 16 and 32 seconds before the
  -- first five, and 60 before each later one, whether the connection could not be opened or the pool refused.
  -- It ends when a wait is interrupted by a stop, or with an attempt by whose replies the protocol
  -- begins, with their `extraNonce1`, and else goes on to the next. Of a line that was cut off
  -- nothing is left. No exception escaping is a condition.
  pub reconnect_to_pool-Resumes :
      (attempts : List Attempt) (st : PoolState Json) (r : Retried Json)
      → reconnect_to_pool lib login attempts st ≡ some r
      → Resumes 0 attempts r
  unfolding reconnect_to_pool
  reconnect_to_pool-Resumes attempts st r h =
      retry-Resumes attempts 0 2 (record st { stream = record st.stream { network_buffer = [] } }) r
        (omega arith) refl h
