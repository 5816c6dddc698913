-- ===== src/Dispatcher/StartUp.antt =====
-- main of dispatcher/src/dispatcher.cpp, up to the start of its threads.
use doge_connect.Prelude.{
  ℕ, leb, if◌then◌else◌, length, take, drop, replicate, ◌+◌, Bool, true, false, not, Option, none,
  some, List, [], ◌∷◌, ◌++◌, map,
}
use doge_connect.Structs.{DispatcherStats, num_computors}
use doge_connect.Difficulty.{DifficultyTarget, of_compact_rep}
use doge_connect.Difficulty.Base.{base_compact}
use doge_connect.Signing.{Primitives, DispatcherSigningContext, init_signing_context}
use doge_connect.KeyUtils.{identity_from_public_key}
use doge_connect.Config.{ConfigLib, DispatcherAppConfig, parse_dispatcher_config}
use doge_connect.Connection.{done, failed, waiting}
use doge_connect.QubicConnection.Open.{QubicConnection, Network, Opened, reconnect}
use doge_connect.StratumRecv.Requests.{Login}
use doge_connect.StratumRecv.Init.{StratumLib, Begun, init_stratum_protocol}

-- `seed.substr(0, 3) + std::string(49, '*') + seed.substr(52, 3)`; `none` is the exception of a
-- position behind the end.
unfoldable pub masked_seed : List ℕ → Option (List ℕ)
masked_seed seed =
    if leb 52 (length seed)
    then some (take 3 seed ++ (replicate 49 b'*' ++ take 3 (drop 52 seed)))
    else none

-- What `loadConfigFile` comes to: nothing, where the file cannot be opened or the JSON library throws
-- a `parse_error`; another exception of the library, which is not caught, as that of a number out of
-- range; or a value.
pub data ConfigJson (Json : Type 0) : Type 0 where
  not_loaded parse_throws : ConfigJson Json
  loaded : Json → ConfigJson Json

-- What the file, the system, the peers and the pool answer.
pub record Surroundings (Json : Type 0) : Type 0 where
  pub config_json : ConfigJson Json
  pub has_context : Bool
  pub stratum_opens : Bool
  pub network : ℕ → Network
  pub subscribe_reply : List ℕ
  pub authorize_reply : List ℕ

-- What main has when it starts the threads.
pub record Running (Json : Type 0) : Type 0 where
  pub config : DispatcherAppConfig
  pub signing_context : DispatcherSigningContext
  pub masked : List ℕ
  pub identity : List ℕ
  pub qubic_connections : List QubicConnection
  pub recv_stratum_messages : List Json
  pub extra_nonce1 : List ℕ
  pub requests : List (List ℕ)
  pub next_stratum_send_id : ℕ
  pub pool_base_difficulty : DifficultyTarget
  pub pool_current_difficulty : DifficultyTarget
  pub stats : DispatcherStats

-- main returns 1, an exception ends the program, a peer lets it wait, or the threads are started.
pub data Start (Json : Type 0) : Type 0 where
  exits terminates waits : Start Json
  runs : Running Json → Start Json

abbrev pub initial_stats : DispatcherStats
initial_stats = record {
  tasks_distributed = 0;
  solutions_received = 0;
  solutions_accepted = 0;
  solutions_rejected = 0;
  solutions_stale = 0;
  solutions_passed_pool_diff = 0;
  pool_shares_accepted = 0;
  pool_shares_rejected = 0;
  pool_difficulty = 1;
  computor_shares = replicate num_computors 0;
  computor_last_seen = replicate num_computors 0;
}

-- `0x1f00ffff`, its mantissa's lowest byte first.
abbrev pub base_difficulty : DifficultyTarget
base_difficulty = of_compact_rep base_compact

-- `setPeer` and `reconnect()` of the connections from the `i`-th on, each in a thread that is joined.
unfoldable pub connect_peers : (ℕ → Network) → ℕ → List (List ℕ) → ℕ → List Opened
connect_peers network i [] port = []
connect_peers network i (ip ∷ ips) port =
    reconnect (network i) (record { is_connected = false; peer_ip = ip; peer_port = port })
    ∷ connect_peers network (i + 1) ips port

-- Whether some thread does not come to its end.
unfoldable pub any_waiting : List Opened → Bool
any_waiting [] = false
any_waiting (o ∷ os) = elim o.verdict [
  | waiting ↦ true
  | failed ↦ any_waiting os
  | done ↦ any_waiting os
]

abbrev pub connection_of : Opened → QubicConnection
connection_of o = o.connection

-- `config.pool.workerName` and `config.pool.workerPassword`.
abbrev pub login_of : DispatcherAppConfig → Login
login_of config = record {
  worker_name = config.pool.worker_name;
  worker_password = config.pool.worker_password;
}

module _ {Json : Type 0} (config_lib : ConfigLib Json) (stratum_lib : StratumLib Json)
    (p : Primitives) (k12_3 : List ℕ → List ℕ) where
  -- After `initStratumProtocol`.
  unfoldable pub on_begun :
      DispatcherAppConfig
      → DispatcherSigningContext
      → List ℕ
      → List Opened
      → Begun Json
      → Start Json
  on_begun config ctx masked peers begun =
      if begun.result
      then runs (record {
        config = config;
        signing_context = ctx;
        masked = masked;
        identity = identity_from_public_key k12_3 ctx.public_key false;
        qubic_connections = map connection_of peers;
        recv_stratum_messages = begun.queue;
        extra_nonce1 = begun.extra_nonce1;
        requests = begun.requests;
        next_stratum_send_id = 3;
        pool_base_difficulty = base_difficulty;
        pool_current_difficulty = base_difficulty;
        stats = initial_stats;
      })
      else exits

  unfoldable pub on_replies :
      DispatcherAppConfig
      → DispatcherSigningContext
      → List ℕ
      → List Opened
      → Option (Begun Json)
      → Start Json
  on_replies config ctx masked peers none = terminates
  on_replies config ctx masked peers (some begun) = on_begun config ctx masked peers begun

  -- From the context of the connections on.
  unfoldable pub connect :
      Surroundings Json → DispatcherAppConfig → DispatcherSigningContext → List ℕ → Start Json
  connect env config ctx masked =
      let peers = connect_peers env.network 0 config.qubic.ips config.qubic.port in
      if not env.has_context
      then exits
      else if not env.stratum_opens
      then exits
      else if any_waiting peers
      then waits
      else on_replies config ctx masked peers (
          init_stratum_protocol stratum_lib (login_of config) env.subscribe_reply
            env.authorize_reply [] [])

  unfoldable pub on_masked :
      Surroundings Json
      → DispatcherAppConfig
      → DispatcherSigningContext
      → Option (List ℕ)
      → Start Json
  on_masked env config ctx none = terminates
  on_masked env config ctx (some masked) = connect env config ctx masked

  unfoldable pub on_context :
      Surroundings Json → DispatcherAppConfig → Option DispatcherSigningContext → Start Json
  on_context env config none = exits
  on_context env config (some ctx) = on_masked env config ctx (masked_seed config.identity.seed)

  -- What `parseDispatcherConfig` throws is caught.
  unfoldable pub on_config : Surroundings Json → Option DispatcherAppConfig → Start Json
  on_config env none = exits
  on_config env (some config) = on_context env config (init_signing_context p config.identity.seed)

  unfoldable pub on_json : Surroundings Json → ConfigJson Json → Start Json
  on_json env not_loaded = exits
  on_json env parse_throws = terminates
  on_json env (loaded json) = on_config env (parse_dispatcher_config config_lib json)

  unfoldable pub start_up : Surroundings Json → Start Json
  start_up env = on_json env env.config_json
