-- ===== src/Config/Accepts.antt =====
-- What a configuration that is accepted promises: the keys of the identity can be derived.
use doge_connect.Signing.{
  Primitives, IsLowercase, offsets, init_signing_context, init_signing_context-derives,
  init_signing_context-only, DispatcherSigningContext,
}
use doge_connect.Config.{
  ConfigLib, DispatcherIdentityConfig, DispatcherAppConfig, all_lowercase, check_seed, string_at,
  parse_identity_config, parse_qubic_config, parse_pool_config, parse_dispatcher_config,
}
use doge_connect.Config.Keys.{key_identity, key_seed, key_stats_file, key_dry_run}
use mathlib.Core.Option.{some-injective, none-ne-some}
use doge_connect.Prelude.{
  ℕ, ltb, ◌==◌, ==_iff, Bool-cases, ◌>>=◌, length, ◌≡◌, refl, sym, ap, ◌↔◌, inl, inr, true, false,
  ◌||◌, Option, none, some, List, [], ◌∷◌, arith,
}

all_lowercase-IsLowercase : (cs : List ℕ) → all_lowercase cs ≡ true → IsLowercase cs
unfolding all_lowercase
all_lowercase-IsLowercase [] h = tt
all_lowercase-IsLowercase (c ∷ cs) h = elim (Bool-cases (ltb c b'a' || ltb b'z' c)) [
  | inl outside ↦ let bad : false ≡ true = rw outside at h in absurd cc
  | inr inside ↦
      let rest : all_lowercase cs ≡ true = rw inside at h in
      (ground arith, all_lowercase-IsLowercase cs rest)
]

-- A seed that passes the checks.
abbrev pub IsSeed : DispatcherIdentityConfig → Type 0
IsSeed identity = (length identity.seed ≡ 55) × IsLowercase identity.seed

check_seed-IsSeed :
    (seed : List ℕ) (identity : DispatcherIdentityConfig)
    → check_seed seed ≡ some identity
    → IsSeed identity
unfolding check_seed
check_seed-IsSeed seed identity h = elim (Bool-cases (length seed == 55)) [
  | inr other ↦ absurd (none-ne-some _ (rw other at h))
  | inl len ↦ elim (Bool-cases (all_lowercase seed)) [
    | inr outside ↦ absurd (none-ne-some _ (rw (len, outside) at h))
    | inl low ↦
        let same : ◌≡◌ {A = DispatcherIdentityConfig} (record { seed = seed }) identity =
          some-injective _ _ (rw (len, low) at h) in
        rw (sym same) ((==_iff _ _).0 len, all_lowercase-IsLowercase seed low)
  ]
]

-- A step that is some result came from some result before it.
bind-some :
    {A B : Type 0} (o : Option A) (f : A → Option B) (b : B)
    → (o >>= f) ≡ some b
    → (a : A) × (o ≡ some a) × (f a ≡ some b)
bind-some none f b h = absurd (none-ne-some _ h)
bind-some (some a) f b h = (a, refl, h)

module _ {Json : Type 0} (lib : ConfigLib Json) (p : Primitives) where
  -- Keys are derived from the seed of the identity.
  abbrev pub Signs : DispatcherIdentityConfig → Type 0
  Signs identity =
      init_signing_context p identity.seed
      ≡ some (record {
        subseed = p.k12 (offsets identity.seed);
        public_key = p.public_of_private (p.k12 (p.k12 (offsets identity.seed)));
      })

  parse_identity_config-Signs :
      (j : Json) (identity : DispatcherIdentityConfig)
      → parse_identity_config lib j ≡ some identity
      → Signs identity
  unfolding parse_identity_config
  parse_identity_config-Signs j identity h =
      let (section, at, h1) = bind-some (lib.at j key_identity) _ identity h in
      let (seed, text, h2) = bind-some (string_at lib section key_seed) _ identity h1 in
      let (len, low) = check_seed-IsSeed seed identity h2 in
      init_signing_context-derives p identity.seed len low

  pub parse_dispatcher_config-Signs :
      (j : Json) (config : DispatcherAppConfig)
      → parse_dispatcher_config lib j ≡ some config
      → Signs config.identity
  unfolding parse_dispatcher_config
  parse_dispatcher_config-Signs j config h =
      let (pool, e0, h0) = bind-some (parse_pool_config lib j) _ config h in
      let (qubic, e1, h1) = bind-some (parse_qubic_config lib j) _ config h0 in
      let (identity, e2, h2) = bind-some (parse_identity_config lib j) _ config h1 in
      let (stats_file, e3, h3) = bind-some (lib.value_string j key_stats_file []) _ config h2 in
      let (dry_run, e4, h4) = bind-some (lib.value_bool j key_dry_run false) _ config h3 in
      let signs : Signs identity = parse_identity_config-Signs j identity e2 in
      let same : identity ≡ config.identity =
        ap (λ (c : DispatcherAppConfig). c.identity) (some-injective _ _ h4) in
      rw (← same) signs

  all_lowercase_lem : (cs : List ℕ) → IsLowercase cs → all_lowercase cs ≡ true
  unfolding all_lowercase
  all_lowercase_lem [] h = refl
  all_lowercase_lem (c ∷ cs) (here, h) =
      let inside : (ltb c b'a' || ltb b'z' c) ≡ false = ground arith in
      rw inside (all_lowercase_lem cs h)

  -- The text under `identity` and `seed` is accepted, by each of the three programs, exactly when
  -- keys can be derived from it.
  pub parse_identity_config-accepts :
      (j section : Json) (seed : List ℕ)
      → lib.at j key_identity ≡ some section
      → string_at lib section key_seed ≡ some seed
      → (parse_identity_config lib j ≡ some (record { seed = seed }))
        ↔ ((ctx : DispatcherSigningContext) × (init_signing_context p seed ≡ some ctx))
  unfolding parse_identity_config check_seed
  parse_identity_config-accepts j section seed at text = (
    λ accepted. (
      record {
        subseed = p.k12 (offsets seed);
        public_key = p.public_of_private (p.k12 (p.k12 (offsets seed)));
      },
      parse_identity_config-Signs j (record { seed = seed }) accepted,
    ),
    λ derived.
        let (len, low) = init_signing_context-only p seed derived.1 in
        let len' : (length seed == 55) ≡ true = (==_iff _ _).1 len in
        rw (at, text, len', all_lowercase_lem seed low) refl,
  )
