-- ===== src/StratumRecv/Begins.antt =====
-- When initStratumProtocol of dispatcher/src/threads/stratum_recv_thread.cpp succeeds.
use doge_connect.StratumRecv.{cut_line}
use doge_connect.StratumRecv.Requests.{Login, subscribe_request, authorize_request}
use doge_connect.StratumRecv.Split.{split, split-none, split-some}
use doge_connect.StratumRecv.Init.{
  StratumLib, Begun, Authorized, on_line, go_on, authorize_lines, is_subscribed, subscription,
  on_subscription, refuses, authorize, init_stratum_protocol,
}
use doge_connect.StratumRecv.Replies.{
  Subscribes, Accepts, is_subscribed-Subscribes, on_line-AcceptsLine,
}
use mathlib.Core.Option.{some-injective, none-ne-some}
use mathlib.Core.Path.{fun_ext}
use doge_connect.Prelude.{
  ℕ, ◌==◌, Bool-cases, Option-cases, ◌>>=◌, length, zero, suc, ◌+◌, ◌%◌, ◌^◌, ◌<◌, ◌≡◌, refl, sym,
  ap, ap₂, ◌∙◌, inl, inr, Bool, true, false, Option, none, some, List, [], ◌∷◌, ◌++◌, arith,
}

-- The lines of a reply, the last of which may have no newline.
unfoldable pub all_lines : List ℕ → List (List ℕ)
all_lines text = (split text).lines ++ (split text).rest ∷ []

module _ {Json : Type 0} (lib : StratumLib Json) where
  -- The lines of the reply, one after the other, until one refuses.
  unfoldable pub authorize_all : List (List ℕ) → List Json → Option (Authorized Json)
  authorize_all [] queue = some (record { accepted = true; queue = queue })
  authorize_all (line ∷ lines) queue = do
    a ← on_line lib line queue
    go_on lib (authorize_all lines) a

  go_on-stop :
      (accepted : Bool) (queue : List Json)
      → go_on lib
          (λ q. some (record { accepted = true; queue = q }))
          (record { accepted = accepted; queue = queue })
        ≡ some (record { accepted = accepted; queue = queue })
  unfolding go_on
  go_on-stop false queue = refl
  go_on-stop true queue = refl

  bind-stop :
      (o : Option (Authorized Json))
      → (o >>= go_on lib (λ queue. some (record { accepted = true; queue = queue }))) ≡ o
  bind-stop none = refl
  bind-stop (some a) = go_on-stop a.accepted a.queue

  authorize_lines-all_lines :
      (rounds : ℕ) (text : List ℕ) (queue : List Json)
      → length text < rounds
      → authorize_lines lib rounds text queue ≡ authorize_all (all_lines text) queue
  unfolding authorize_lines authorize_all all_lines
  authorize_lines-all_lines zero text queue enough = absurd (omega arith)
  authorize_lines-all_lines (suc rounds) text queue enough = elim (Option-cases (cut_line text)) [
    | inl absent ↦
        rw (absent, authorize_lines, split-none text absent)
          (sym (bind-stop (on_line lib text queue)))
    | inr (cut, found) ↦
        let (e, less) = split-some text cut found in
        let ih : (q : List Json)
            → authorize_lines lib rounds cut.1 q ≡ authorize_all (all_lines cut.1) q =
          λ q. authorize_lines-all_lines rounds cut.1 q (omega (arith, less, enough)) in
        rw (found, authorize_lines, e)
          (ap (λ f. on_line lib cut.0 queue >>= go_on lib f) (fun_ext ih))
  ]

  authorize_all-Accepts :
      (lines : List (List ℕ)) (queue queue' : List Json)
      → authorize_all lines queue ≡ some (record { accepted = true; queue = queue' })
      → Accepts lib lines queue queue'
  unfolding authorize_all Accepts go_on
  authorize_all-Accepts [] queue queue' h =
      sym (ap (λ (t : Authorized Json). t.queue) (some-injective _ _ h))
  authorize_all-Accepts (line ∷ lines) queue queue' h =
      elim (Option-cases (on_line lib line queue)) [
        | inl absent ↦ absurd (none-ne-some _ (rw absent at h))
        | inr (a, e) ↦
            let h1 = rw e at h in
            elim (Bool-cases a.accepted) [
              | inr refused ↦
                  let same = some-injective _ _ (rw (refused, go_on) at h1) in
                  let f : a.accepted ≡ true = ap (λ (t : Authorized Json). t.accepted) same in
                  absurd cc
              | inl ok ↦ (
                a.queue,
                on_line-AcceptsLine lib line queue a e ok,
                authorize_all-Accepts lines a.queue queue' (rw (ok, go_on) at h1),
              )
            ]
      ]

module _ {Json : Type 0} (lib : StratumLib Json) (login : Login) where
  -- What the pool's replies must be, and what is handed to `sendMessage`.
  unfoldable pub Begins : List ℕ → List ℕ → List Json → Begun Json → Type 0
  Begins subscribe_reply authorize_reply queue begun =
      (response : Json) × (subscribed : Json) × (size : ℕ) × (lib.parse subscribe_reply
        ≡ some response)
      × Subscribes lib response subscribed
      × (subscription lib subscribed ≡ some (begun.extra_nonce1, size))
      × (size % 2 ^ 32 ≡ 8)
      × (begun.requests ≡ subscribe_request ∷ authorize_request login ∷ [])
      × Accepts lib (all_lines authorize_reply) queue begun.queue

  pub Begins-requests :
      (subscribe_reply authorize_reply : List ℕ) (queue : List Json) (begun : Begun Json)
      → Begins subscribe_reply authorize_reply queue begun
      → begun.requests ≡ subscribe_request ∷ authorize_request login ∷ []
  unfolding Begins
  Begins-requests subscribe_reply authorize_reply queue begun h =
      let (response, answer, size, parsed, asked, given, eight, sent, all) = h in sent

  refused_success :
      {extra_nonce1 : List ℕ} {queue : List Json} {begun : Begun Json}
      → refuses lib login extra_nonce1 queue ≡ begun
      → begun.result ≡ true
      → ⊥
  refused_success e success =
      let f : false ≡ true = ap (λ (b : Begun Json). b.result) e ∙ success in absurd cc

  authorize-success :
      (reply extra_nonce1 : List ℕ) (queue : List Json) (begun : Begun Json)
      → authorize lib login reply extra_nonce1 queue ≡ some begun
      → begun.result ≡ true
      → (extra_nonce1 ≡ begun.extra_nonce1)
        × (begun.requests ≡ subscribe_request ∷ authorize_request login ∷ [])
        × (authorize_all lib (all_lines reply) queue
            ≡ some (record { accepted = true; queue = begun.queue }))
  unfolding authorize
  authorize-success reply extra_nonce1 queue begun h success =
      let lines = authorize_lines-all_lines lib (length reply + 1) reply queue (omega arith) in
      elim (Option-cases (authorize_lines lib (length reply + 1) reply queue)) [
        | inl absent ↦ absurd (none-ne-some _ (rw absent at h))
        | inr (a, found) ↦
            let e : ◌≡◌ {A = Begun Json}
                (record {
                  result = a.accepted;
                  extra_nonce1 = extra_nonce1;
                  queue = a.queue;
                  requests = subscribe_request ∷ authorize_request login ∷ [];
                })
                begun =
              some-injective _ _ (rw found at h) in
            let ok : a.accepted ≡ true = ap (λ (b : Begun Json). b.result) e ∙ success in
            let q : a.queue ≡ begun.queue = ap (λ (b : Begun Json). b.queue) e in
            (
              ap (λ (b : Begun Json). b.extra_nonce1) e,
              sym (ap (λ (b : Begun Json). b.requests) e),
              sym lines
                  ∙ found
                  ∙ ap₂ (λ (b : Bool) (r : List Json). some (record { accepted = b; queue = r })) ok
                      q,
            )
      ]

  on_subscription-success :
      (reply extra_nonce1 : List ℕ) (size : ℕ) (queue : List Json) (begun : Begun Json)
      → on_subscription lib login reply extra_nonce1 size queue ≡ some begun
      → begun.result ≡ true
      → (extra_nonce1 ≡ begun.extra_nonce1)
        × (size % 2 ^ 32 ≡ 8)
        × (begun.requests ≡ subscribe_request ∷ authorize_request login ∷ [])
        × (authorize_all lib (all_lines reply) queue
            ≡ some (record { accepted = true; queue = begun.queue }))
  unfolding on_subscription
  on_subscription-success reply extra_nonce1 size queue begun h success =
      elim (Bool-cases (size % 2 ^ 32 == 8)) [
        | inr other ↦
            absurd (refused_success (some-injective _ _ (rw (other, on_subscription) at h)) success)
        | inl eight ↦
            let (e, sent, all) =
              authorize-success reply extra_nonce1 queue begun (rw (eight, on_subscription) at h)
                success in
            (e, ground arith, sent, all)
      ]

  pub init_stratum_protocol-Begins :
      (subscribe_reply authorize_reply extra_nonce1 : List ℕ) (queue : List Json)
      (begun : Begun Json)
      → init_stratum_protocol lib login subscribe_reply authorize_reply extra_nonce1 queue
        ≡ some begun
      → begun.result ≡ true
      → Begins subscribe_reply authorize_reply queue begun
  unfolding init_stratum_protocol Begins
  init_stratum_protocol-Begins [] authorize_reply extra_nonce1 queue begun h success =
      let e : ◌≡◌ {A = Begun Json} (refuses lib login extra_nonce1 queue) begun =
        some-injective _ _ h in
      absurd (refused_success e success)
  init_stratum_protocol-Begins (c ∷ reply) authorize_reply extra_nonce1 queue begun h success =
      elim (Option-cases (lib.parse (c ∷ reply))) [
        | inl absent ↦ absurd (none-ne-some _ (rw absent at h))
        | inr (response, parsed) ↦
            let h1 = rw parsed at h in
            elim (Option-cases (is_subscribed lib response)) [
              | inl absent ↦ absurd (none-ne-some _ (rw absent at h1))
              | inr (answer, asked) ↦
                  let h2 = rw asked at h1 in
                  elim (Bool-cases answer.0) [
                    | inr no_answer ↦
                        absurd (refused_success (some-injective _ _ (rw no_answer at h2)) success)
                    | inl is_answer ↦ elim (Option-cases (subscription lib answer.1)) [
                      | inl absent ↦ absurd (none-ne-some _ (rw (is_answer, absent) at h2))
                      | inr (s, given) ↦
                          let h3 = rw (is_answer, given) at h2 in
                          let (e, eight, sent, all) =
                            on_subscription-success authorize_reply s.0 s.1 queue begun h3
                              success in
                          let p : is_subscribed lib response ≡ some (true, answer.1) =
                            asked ∙ ap (λ (b : Bool). some (b, answer.1)) is_answer in
                          let n : subscription lib answer.1 ≡ some (begun.extra_nonce1, s.1) =
                            given ∙ ap (λ (t : List ℕ). some (t, s.1)) e in
                          (
                            response,
                            answer.1,
                            s.1,
                            parsed,
                            is_subscribed-Subscribes lib response answer.1 p,
                            n,
                            eight,
                            sent,
                            authorize_all-Accepts lib (all_lines authorize_reply) queue begun.queue
                                all,
                          )
                    ]
                  ]
            ]
      ]
