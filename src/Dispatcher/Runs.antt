-- ===== src/Dispatcher/Runs.antt =====
-- What holds when main of dispatcher/src/dispatcher.cpp starts its threads, and how it can fail.
use doge_connect.Prelude.{
  ℕ, Bool-cases, ◌≡◌, refl, ap, ◌∙◌, inl, inr, true, false, some, List, [], map, Bool, Option,
  Option-cases, sym, none, ◌⊎◌,
}
use doge_connect.Signing.{
  Primitives, DispatcherSigningContext, init_signing_context, init_signing_context-only,
}
use doge_connect.Config.Accepts.{parse_dispatcher_config-Signs}
use doge_connect.Config.{ConfigLib, DispatcherAppConfig, parse_dispatcher_config}
use doge_connect.KeyUtils.{identity_from_public_key}
use doge_connect.QubicConnection.Open.{Opened}
use doge_connect.StratumRecv.Init.{StratumLib, Begun, init_stratum_protocol}
use doge_connect.StratumRecv.Begins.{Begins, init_stratum_protocol-Begins}
use doge_connect.ShareValid.Counters.{Balanced}
use doge_connect.EndToEnd.Found.{IsTarget}
use doge_connect.Dispatcher.Initial.{
  mask_of, masked_seed-mask_of, address, addresses, initial_stats-Balanced,
  base_difficulty-IsTarget,
}
use doge_connect.Dispatcher.StartUp.{
  ConfigJson, not_loaded, parse_throws, loaded, Surroundings, Running, Start, terminates, runs,
  initial_stats, base_difficulty, connect_peers, any_waiting, connection_of, login_of, on_begun,
  on_replies, connect, on_masked, on_context, on_config, on_json, start_up,
}

module _ {Json : Type 0} (config_lib : ConfigLib Json) (stratum_lib : StratumLib Json)
    (p : Primitives) (k12_3 : List ℕ → List ℕ) (env : Surroundings Json) where
  -- The configuration in the file.
  abbrev pub Configured : DispatcherAppConfig → Type 0
  Configured config =
      (json : Json) × (◌≡◌ {A = ConfigJson Json} env.config_json (loaded json))
      × (parse_dispatcher_config config_lib json ≡ some config)

  -- The state that the threads are given.
  pub record IsReady (r : Running Json) : Type 0 where
    pub configured : Configured r.config
    pub signs : init_signing_context p r.config.identity.seed ≡ some r.signing_context
    pub masked : r.masked ≡ mask_of r.config.identity.seed
    pub opened : env.stratum_opens ≡ true
    pub peers :
        map address r.qubic_connections ≡ map (λ ip. (ip, r.config.qubic.port)) r.config.qubic.ips
    pub begins :
        Begins stratum_lib (login_of r.config) env.subscribe_reply env.authorize_reply [] (record {
          result = true;
          extra_nonce1 = r.extra_nonce1;
          queue = r.recv_stratum_messages;
          requests = r.requests;
        })
    pub target : IsTarget r.pool_current_difficulty
    pub balanced : Balanced 0 r.stats

  abbrev replies : DispatcherAppConfig → Option (Begun Json)
  replies config =
      init_stratum_protocol stratum_lib (login_of config) env.subscribe_reply env.authorize_reply []
        []

  runs-injective : (r r' : Running Json) → ◌≡◌ {A = Start Json} (runs r) (runs r') → r ≡ r'
  runs-injective r r' e = cc

  module _ (config : DispatcherAppConfig) (configured : Configured config)
      (ctx : DispatcherSigningContext)
      (signs : init_signing_context p config.identity.seed ≡ some ctx) where
    abbrev peers : List Opened
    peers = connect_peers env.network 0 config.qubic.ips config.qubic.port

    on_begun-IsReady :
        (begun : Begun Json) (r : Running Json)
        → replies config ≡ some begun
        → env.stratum_opens ≡ true
        → on_begun config_lib stratum_lib p k12_3 config ctx
            (mask_of config.identity.seed)
            peers
            begun
          ≡ runs r
        → IsReady r
    unfolding on_begun
    on_begun-IsReady begun r e open_ h = elim (Bool-cases begun.result) [
      | inr refused ↦ let bad = rw refused at h in absurd cc
      | inl success ↦
          let begins =
            init_stratum_protocol-Begins stratum_lib (login_of config) env.subscribe_reply
              env.authorize_reply [] [] begun e success in
          let whole : begun ≡ record begun { result = true } =
            ap (λ (t : Bool). record begun { result = t }) success in
          rw (← runs-injective _ _ (rw success at h)) (record {
            configured = configured;
            signs = signs;
            masked = refl;
            opened = open_;
            peers = addresses env.network 0 config.qubic.ips config.qubic.port;
            begins = rw whole at begins;
            target = base_difficulty-IsTarget;
            balanced = initial_stats-Balanced;
          })
    ]

    connect-IsReady :
        (r : Running Json)
        → connect config_lib stratum_lib p k12_3 env config ctx (mask_of config.identity.seed)
          ≡ runs r
        → IsReady r
    unfolding connect on_replies
    connect-IsReady r h = elim (Bool-cases env.has_context) [
      | inr absent ↦ let bad = rw absent at h in absurd cc
      | inl there ↦ elim (Bool-cases env.stratum_opens) [
        | inr shut ↦ let bad = rw (there, shut) at h in absurd cc
        | inl open_ ↦ elim (Bool-cases (any_waiting peers)) [
          | inl wait ↦ let bad = rw (there, open_, wait) at h in absurd cc
          | inr go ↦ elim (Option-cases (replies config)) [
            | inl thrown ↦ let bad = rw (there, open_, go, thrown, on_replies) at h in absurd cc
            | inr (begun, e) ↦ on_begun-IsReady begun r e open_ (rw (there, open_, go, e) at h)
          ]
        ]
      ]
    ]

    on_context-connect :
        on_context config_lib stratum_lib p k12_3 env config
          (init_signing_context p config.identity.seed)
        ≡ connect config_lib stratum_lib p k12_3 env config ctx (mask_of config.identity.seed)
    unfolding on_context on_masked
    on_context-connect =
        let (len, low) = init_signing_context-only p config.identity.seed signs in
        ap (on_context config_lib stratum_lib p k12_3 env config) signs
        ∙ ap (on_masked config_lib stratum_lib p k12_3 env config ctx)
            (masked_seed-mask_of config.identity.seed len)

  start_up-on_context :
      (config : DispatcherAppConfig)
      → Configured config
      → start_up config_lib stratum_lib p k12_3 env
        ≡ on_context config_lib stratum_lib p k12_3 env config
            (init_signing_context p config.identity.seed)
  unfolding start_up on_json on_config
  start_up-on_context config (json, there, accepted) =
      ap (on_json config_lib stratum_lib p k12_3 env) there
      ∙ ap (on_config config_lib stratum_lib p k12_3 env) accepted

  -- Where keys can be derived, as they can for an accepted configuration, the start goes on to the
  -- connections.
  start_up-connect :
      (config : DispatcherAppConfig) (configured : Configured config)
      → (ctx : DispatcherSigningContext) × (init_signing_context p config.identity.seed ≡ some ctx)
        × (start_up config_lib stratum_lib p k12_3 env
            ≡ connect config_lib stratum_lib p k12_3 env config ctx (mask_of config.identity.seed))
  start_up-connect config configured =
      let (json, there, accepted) = configured in
      let signs = parse_dispatcher_config-Signs config_lib p json config accepted in
      (
        _,
        signs,
        start_up-on_context config configured ∙ on_context-connect config configured _ signs,
      )

  -- When the file holds an accepted configuration, the system opens the connections without a wait,
  -- and the pool's replies begin the protocol, main starts its threads: with the keys of the
  -- configured seed, of which the log shows the first and the last three letters only; with a
  -- connection for each configured address, in their order; after the two requests with the worker's
  -- login; with a target whose compact and full forms agree, and counters in balance.
  pub start_up-IsReady :
      (config : DispatcherAppConfig) (begun : Begun Json)
      → Configured config
      → env.has_context ≡ true
      → env.stratum_opens ≡ true
      → any_waiting (connect_peers env.network 0 config.qubic.ips config.qubic.port) ≡ false
      → replies config ≡ some begun
      → begun.result ≡ true
      → (r : Running Json) × (start_up config_lib stratum_lib p k12_3 env ≡ runs r) × IsReady r
  unfolding connect on_replies on_begun
  start_up-IsReady config begun configured there open_ go e success =
      let (ctx, signs, same) = start_up-connect config configured in
      let r : Running Json = record {
        config = config;
        signing_context = ctx;
        masked = mask_of config.identity.seed;
        identity = identity_from_public_key k12_3 ctx.public_key false;
        qubic_connections =
            map connection_of (connect_peers env.network 0 config.qubic.ips config.qubic.port);
        recv_stratum_messages = begun.queue;
        extra_nonce1 = begun.extra_nonce1;
        requests = begun.requests;
        next_stratum_send_id = 3;
        pool_base_difficulty = base_difficulty;
        pool_current_difficulty = base_difficulty;
        stats = initial_stats;
      } in
      let ends : connect config_lib stratum_lib p k12_3 env config ctx
            (mask_of config.identity.seed)
          ≡ runs r =
        rw (there, open_, go, e, success) refl in
      (r, same ∙ ends, connect-IsReady config configured ctx signs r ends)

  connect-terminates :
      (config : DispatcherAppConfig) (ctx : DispatcherSigningContext) (masked : List ℕ)
      → connect config_lib stratum_lib p k12_3 env config ctx masked ≡ terminates
      → replies config ≡ none
  unfolding connect on_replies on_begun
  connect-terminates config ctx masked h = elim (Bool-cases env.has_context) [
    | inr absent ↦ let bad = rw absent at h in absurd cc
    | inl there ↦ elim (Bool-cases env.stratum_opens) [
      | inr shut ↦ let bad = rw (there, shut) at h in absurd cc
      | inl open_ ↦
          elim (Bool-cases
            (any_waiting (connect_peers env.network 0 config.qubic.ips config.qubic.port))) [
              | inl wait ↦ let bad = rw (there, open_, wait) at h in absurd cc
              | inr go ↦ elim (Option-cases (replies config)) [
                | inl thrown ↦ thrown
                | inr (begun, e) ↦ elim (Bool-cases begun.result) [
                  | inl success ↦ let bad = rw (there, open_, go, e, success) at h in absurd cc
                  | inr refused ↦ let bad = rw (there, open_, go, e, refused) at h in absurd cc
                ]
              ]
            ]
    ]
  ]

  ConfigJson-cases :
      (c : ConfigJson Json)
      → ◌≡◌ {A = ConfigJson Json} c not_loaded
        ⊎ (◌≡◌ {A = ConfigJson Json} c parse_throws
            ⊎ ((json : Json) × (◌≡◌ {A = ConfigJson Json} c (loaded json))))
  ConfigJson-cases not_loaded = inl refl
  ConfigJson-cases parse_throws = inr (inl refl)
  ConfigJson-cases (loaded json) = inr (inr (json, refl))

  -- Up to the start of the threads, an exception ends main only where parsing the file throws one
  -- other than a `parse_error`, or the pool's replies throw it: not when a configuration is
  -- refused, and not when the seed is masked.
  pub start_up-terminates :
      start_up config_lib stratum_lib p k12_3 env ≡ terminates
      → (◌≡◌ {A = ConfigJson Json} env.config_json parse_throws)
        ⊎ ((config : DispatcherAppConfig) × Configured config × (replies config ≡ none))
  unfolding start_up on_json on_config
  start_up-terminates h = elim (ConfigJson-cases env.config_json) [
    | inl unread ↦
        let bad = sym (ap (on_json config_lib stratum_lib p k12_3 env) unread) ∙ h in absurd cc
    | inr (inl thrown) ↦ inl thrown
    | inr (inr (json, there)) ↦
        let h1 = sym (ap (on_json config_lib stratum_lib p k12_3 env) there) ∙ h in
        elim (Option-cases (parse_dispatcher_config config_lib json)) [
          | inl invalid ↦
              let bad = sym (ap (on_config config_lib stratum_lib p k12_3 env) invalid) ∙ h1 in
              absurd cc
          | inr (config, accepted) ↦
              let configured : Configured config = (json, there, accepted) in
              let (ctx, signs, same) = start_up-connect config configured in
              inr (
                config,
                configured,
                connect-terminates config ctx (mask_of config.identity.seed) (sym same ∙ h),
              )
        ]
  ]
