-- ===== src/StratumRecv/Replies.antt =====
-- What the replies must be by which initStratumProtocol of
-- dispatcher/src/threads/stratum_recv_thread.cpp succeeds, member by member.
use doge_connect.Prelude.{
  ℕ, if◌then◌else◌, Bool-cases, Option-cases, ◌≡◌, sym, ap, ◌∙◌, ◌⊎◌, inl, inr, true, false, not,
  some, List, [], ◌∷◌, ◌++◌, arith,
}
use doge_connect.TaskDist.Loop.{key_id, key_error, key_result}
use doge_connect.StratumRecv.Init.{
  StratumLib, Authorized, is_subscribed, is_refused, on_response, on_line,
}
use mathlib.Core.Option.{some-injective, none-ne-some}

module _ {Json : Type 0} (lib : StratumLib Json) where
  -- An answer to request 1 without an error, which is `after` once its members are read.
  unfoldable pub Subscribes : Json → Json → Type 0
  Subscribes response after =
      (id : Json × Json) × (e : Json × Json) × (lib.at_key response key_id ≡ some id)
      × (lib.is_number id.0 1 ≡ true)
      × (lib.at_key id.1 key_error ≡ some e)
      × (lib.is_null e.0 ≡ true)
      × (e.1 ≡ after)

  -- A result that is not false, and no error.
  unfoldable pub Authorizes : Json → Type 0
  Authorizes response =
      (result : Json × Json) × (e : Json × Json) × (lib.at_key response key_result ≡ some result)
      × (lib.is_false result.0 ≡ false)
      × (lib.at_key result.1 key_error ≡ some e)
      × (lib.is_null e.0 ≡ true)

  -- A message whose id is null is put in the queue, another is dropped.
  unfoldable pub Queues : Json → List Json → List Json → Type 0
  Queues response queue queue' =
      (id : Json × Json) × (lib.at_key response key_id ≡ some id)
      × (((lib.is_null id.0 ≡ true) × (queue' ≡ queue ++ id.1 ∷ []))
          ⊎ ((lib.is_null id.0 ≡ false) × (queue' ≡ queue)))

  unfoldable pub AcceptsLine : List ℕ → List Json → List Json → Type 0
  AcceptsLine [] queue queue' = queue' ≡ queue
  AcceptsLine (c ∷ line) queue queue' =
      (response : Json) × (id : Json × Json) × (lib.parse (c ∷ line) ≡ some response)
      × (lib.at_key response key_id ≡ some id)
      × (((lib.is_number id.0 2 ≡ true) × Authorizes id.1 × (queue' ≡ queue))
          ⊎ ((lib.is_number id.0 2 ≡ false) × Queues id.1 queue queue'))

  -- Every line is empty, or an answer to request 2 that authorizes, or another message.
  unfoldable pub Accepts : List (List ℕ) → List Json → List Json → Type 0
  Accepts [] queue queue' = queue' ≡ queue
  Accepts (line ∷ lines) queue queue' =
      (between : List Json) × AcceptsLine line queue between × Accepts lines between queue'

  pub is_subscribed-Subscribes :
      (response after : Json)
      → is_subscribed lib response ≡ some (true, after)
      → Subscribes response after
  unfolding is_subscribed Subscribes
  is_subscribed-Subscribes response after h = elim (Option-cases (lib.at_key response key_id)) [
    | inl absent ↦ absurd (none-ne-some _ (rw absent at h))
    | inr (id, there) ↦
        let h1 = rw there at h in
        elim (Bool-cases (lib.is_number id.0 1)) [
          | inr other ↦
              let f : false ≡ true = ap (λ t. t.0) (some-injective _ _ (rw other at h1)) in
              absurd cc
          | inl one ↦
              let h2 = rw one at h1 in
              elim (Option-cases (lib.at_key id.1 key_error)) [
                | inl absent ↦ absurd (none-ne-some _ (rw absent at h2))
                | inr (e, found) ↦
                    let same = some-injective _ _ (rw found at h2) in
                    (id, e, there, one, found, ap (λ t. t.0) same, ap (λ t. t.1) same)
              ]
        ]
  ]

  is_refused-Authorizes :
      (response : Json) → is_refused lib response ≡ some false → Authorizes response
  unfolding is_refused Authorizes
  is_refused-Authorizes response h = elim (Option-cases (lib.at_key response key_result)) [
    | inl absent ↦ absurd (none-ne-some _ (rw absent at h))
    | inr (result, there) ↦
        let h1 = rw there at h in
        elim (Bool-cases (lib.is_false result.0)) [
          | inl refused ↦ let f : true ≡ false = some-injective _ _ (rw refused at h1) in absurd cc
          | inr granted ↦
              let h2 = rw granted at h1 in
              elim (Option-cases (lib.at_key result.1 key_error)) [
                | inl absent ↦ absurd (none-ne-some _ (rw absent at h2))
                | inr (e, found) ↦
                    let same : not (lib.is_null e.0) ≡ false =
                      some-injective _ _ (rw found at h2) in
                    (result, e, there, granted, found, ground arith)
              ]
        ]
  ]

  on_response-Accepts :
      (response : Json) (queue : List Json) (a : Authorized Json)
      → on_response lib response queue ≡ some a
      → a.accepted ≡ true
      → (id : Json × Json) × (lib.at_key response key_id ≡ some id)
        × (((lib.is_number id.0 2 ≡ true) × Authorizes id.1 × (a.queue ≡ queue))
            ⊎ ((lib.is_number id.0 2 ≡ false) × Queues id.1 queue a.queue))
  unfolding on_response Queues
  on_response-Accepts response queue a h ok = elim (Option-cases (lib.at_key response key_id)) [
    | inl absent ↦ absurd (none-ne-some _ (rw absent at h))
    | inr (id, there) ↦
        let h1 = rw there at h in
        elim (Bool-cases (lib.is_number id.0 2)) [
          | inl two ↦
              let h2 = rw two at h1 in
              elim (Option-cases (is_refused lib id.1)) [
                | inl absent ↦ absurd (none-ne-some _ (rw absent at h2))
                | inr (refused, e) ↦
                    let same : ◌≡◌ {A = Authorized Json}
                        (record { accepted = not refused; queue = queue }) a =
                      some-injective _ _ (rw e at h2) in
                    let granted : not refused ≡ true =
                      ap (λ (t : Authorized Json). t.accepted) same ∙ ok in
                    let off : refused ≡ false = ground arith in
                    (
                      id,
                      there,
                      inl (
                        two,
                        is_refused-Authorizes id.1 (e ∙ ap some off),
                        sym (ap (λ (t : Authorized Json). t.queue) same),
                      ),
                    )
              ]
          | inr other ↦
              let h2 = rw other at h1 in
              elim (Option-cases (lib.at_key id.1 key_id)) [
                | inl absent ↦ absurd (none-ne-some _ (rw absent at h2))
                | inr (again, e) ↦
                    let same : ◌≡◌ {A = Authorized Json}
                        (record {
                          accepted = true;
                          queue = if lib.is_null again.0 then queue ++ again.1 ∷ [] else queue;
                        })
                        a =
                      some-injective _ _ (rw e at h2) in
                    let q = sym (ap (λ (t : Authorized Json). t.queue) same) in
                    elim (Bool-cases (lib.is_null again.0)) [
                      | inl null ↦ (
                        id,
                        there,
                        inr (
                          other,
                          (
                            again,
                            e,
                            inl (
                              null,
                              q ∙ ap (λ b. if b then queue ++ again.1 ∷ [] else queue) null,
                            ),
                          ),
                        ),
                      )
                      | inr some_id ↦ (
                        id,
                        there,
                        inr (
                          other,
                          (
                            again,
                            e,
                            inr (
                              some_id,
                              q ∙ ap (λ b. if b then queue ++ again.1 ∷ [] else queue) some_id,
                            ),
                          ),
                        ),
                      )
                    ]
              ]
        ]
  ]

  pub on_line-AcceptsLine :
      (line : List ℕ) (queue : List Json) (a : Authorized Json)
      → on_line lib line queue ≡ some a
      → a.accepted ≡ true
      → AcceptsLine line queue a.queue
  unfolding on_line AcceptsLine
  on_line-AcceptsLine [] queue a h ok =
      sym (ap (λ (t : Authorized Json). t.queue) (some-injective _ _ h))
  on_line-AcceptsLine (c ∷ line) queue a h ok = elim (Option-cases (lib.parse (c ∷ line))) [
    | inl absent ↦ absurd (none-ne-some _ (rw absent at h))
    | inr (response, parsed) ↦
        let (id, there, what) = on_response-Accepts response queue a (rw parsed at h) ok in
        (response, id, parsed, there, what)
  ]
