-- ===== src/Config.antt =====
-- dispatcher/src/config/config.{h,cpp}: the configurations of the three programs, from a JSON value.
-- The JSON library is a parameter; `none` is an exception, which ends the program.
pub mod Keys
pub mod Accepts
mod Tests
use doge_connect.Config.Keys.{
  key_pool, key_url, key_stratum_port, key_worker_name, key_worker_password, key_qubic, key_ips,
  key_port, key_identity, key_seed, key_stats_file, key_dry_run, key_test_dispatcher,
  key_time_between_jobs_sec, key_frequency_clear_jobs, default_password,
}
use doge_connect.Prelude.{
  ℕ, ltb, leb, ◌==◌, if◌then◌else◌, ltb→lt, lt→ltb, leb→le, ==_iff, tests, Bool-cases, Option-cases,
  ◌>>=◌, length, get_elem?, set, length-append, length-set, get_elem?-set_self, get_elem?-set_ne,
  get_or, take, drop, replicate, take-append-drop, length-take, length-drop, take-all,
  length-reverse, take-append, drop-append, drop-drop, take-append_le, drop-append_le, get_or-drop,
  length-replicate, length-map, All, All-append, IsBytes, le_value, to_le, le_value-nil,
  le_value-cons, length-to_le, to_le-IsBytes, le_value-lt, le_value-lt_pow, le_value-to_le,
  to_le-le_value, le_value-append, le_value-take-suc, le_value-take-add, le_value-replicate,
  get_or-replicate, get_or-set_ne, take-IsBytes, drop-IsBytes, get_or-lt_byte, append-IsBytes,
  le_value-set, prefix-lt, reverse-IsBytes, all_bytes, all_bytes-IsBytes, bit_or_disjoint,
  bit_and_bit, zero, suc, ◌+◌, ◌-◌, ◌*◌, ◌/◌, ◌%◌, ◌^◌, ◌≤◌, ◌<◌, min, bit_and, bit_or, ◌≡◌, refl,
  sym, ap, ap₂, ◌∙◌, ◌≢◌, ◌↔◌, ◌⊎◌, inl, inr, Bool, true, false, not, ◌&&◌, ◌||◌, Option, none,
  some, List, [], ◌∷◌, ◌++◌, map, foldl, reverse, append_assoc, append-nil, arith,
}

-- `at` throws when the key is missing, `value` gives its default then; all throw on another type.
-- A number is converted to `int` or `unsigned int`, given as its 32 bits.
pub record ConfigLib (Json : Type 0) : Type 0 where
  pub at : Json → List ℕ → Option Json
  pub contains : Json → List ℕ → Bool
  pub get_string : Json → Option (List ℕ)
  pub get_strings : Json → Option (List (List ℕ))
  pub value_string : Json → List ℕ → List ℕ → Option (List ℕ)
  pub value_number : Json → List ℕ → ℕ → Option ℕ
  pub value_bool : Json → List ℕ → Bool → Option Bool

pub record PoolConfig : Type 0 where
  pub url : List ℕ
  pub stratum_port : List ℕ
  pub worker_name : List ℕ
  pub worker_password : List ℕ

pub record QubicConfig : Type 0 where
  pub ips : List (List ℕ)
  pub port : ℕ

pub record TestDispatcherConfig : Type 0 where
  pub time_between_jobs_sec : ℕ
  pub frequency_clear_jobs : ℕ

pub record DispatcherIdentityConfig : Type 0 where
  pub seed : List ℕ

pub record DispatcherAppConfig : Type 0 where
  pub pool : PoolConfig
  pub qubic : QubicConfig
  pub identity : DispatcherIdentityConfig
  pub stats_file : List ℕ
  pub dry_run : Bool

pub record TestDispatcherAppConfig : Type 0 where
  pub qubic : QubicConfig
  pub identity : DispatcherIdentityConfig
  pub test_dispatcher : TestDispatcherConfig

pub record TestMinerAppConfig : Type 0 where
  pub qubic : QubicConfig
  pub identity : DispatcherIdentityConfig

-- The loop over the characters of the seed.
unfoldable pub all_lowercase : List ℕ → Bool
all_lowercase [] = true
all_lowercase (c ∷ cs) =
    let rest = all_lowercase cs in if ltb c b'a' || ltb b'z' c then false else rest

-- The checks of the seed.
unfoldable pub check_seed : List ℕ → Option DispatcherIdentityConfig
check_seed seed =
    if not (length seed == 55)
    then none
    else if all_lowercase seed
    then some (record { seed = seed })
    else none

-- The defaults of `TestDispatcherConfig`.
abbrev pub default_test_dispatcher : TestDispatcherConfig
default_test_dispatcher = record { time_between_jobs_sec = 10; frequency_clear_jobs = 6 }

module _ {Json : Type 0} (lib : ConfigLib Json) where
  unfoldable pub string_at : Json → List ℕ → Option (List ℕ)
  string_at j key = do v ← lib.at j key; lib.get_string v

  unfoldable pub parse_identity_config : Json → Option DispatcherIdentityConfig
  parse_identity_config j = do
    identity ← lib.at j key_identity
    seed ← string_at identity key_seed
    check_seed seed

  unfoldable pub parse_qubic_config : Json → Option QubicConfig
  parse_qubic_config j = do
    qubic ← lib.at j key_qubic
    array ← lib.at qubic key_ips
    ips ← lib.get_strings array
    port ← lib.value_number qubic key_port 21841
    some (record { ips = ips; port = port })

  unfoldable pub parse_pool_config : Json → Option PoolConfig
  parse_pool_config j = do
    pool ← lib.at j key_pool
    url ← string_at pool key_url
    stratum_port ← string_at pool key_stratum_port
    worker_name ← string_at pool key_worker_name
    worker_password ← lib.value_string pool key_worker_password default_password
    some (record {
      url = url;
      stratum_port = stratum_port;
      worker_name = worker_name;
      worker_password = worker_password;
    })

  unfoldable pub parse_dispatcher_config : Json → Option DispatcherAppConfig
  parse_dispatcher_config j = do
    pool ← parse_pool_config j
    qubic ← parse_qubic_config j
    identity ← parse_identity_config j
    stats_file ← lib.value_string j key_stats_file []
    dry_run ← lib.value_bool j key_dry_run false
    some (record {
      pool = pool;
      qubic = qubic;
      identity = identity;
      stats_file = stats_file;
      dry_run = dry_run;
    })

  -- The member `testDispatcher`, where it is there.
  pub parse_test_dispatcher : Json → Option TestDispatcherConfig
  parse_test_dispatcher j = elim (lib.contains j key_test_dispatcher) [
    | false ↦ some default_test_dispatcher
    | true ↦ do
      td ← lib.at j key_test_dispatcher
      time ← lib.value_number td key_time_between_jobs_sec 10
      frequency ← lib.value_number td key_frequency_clear_jobs 6
      some (record { time_between_jobs_sec = time; frequency_clear_jobs = frequency })
  ]

  pub parse_test_dispatcher_config : Json → Option TestDispatcherAppConfig
  parse_test_dispatcher_config j = do
    qubic ← parse_qubic_config j
    identity ← parse_identity_config j
    test_dispatcher ← parse_test_dispatcher j
    some (record { qubic = qubic; identity = identity; test_dispatcher = test_dispatcher })

  pub parse_test_miner_config : Json → Option TestMinerAppConfig
  parse_test_miner_config j = do
    qubic ← parse_qubic_config j
    identity ← parse_identity_config j
    some (record { qubic = qubic; identity = identity })
