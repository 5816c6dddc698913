-- ===== src/Dispatcher/Tests.antt =====
-- A start-up with values that are texts, a dry run, and counters of two computors.
use doge_connect.Prelude.{
  ℕ, ◌==◌, if◌then◌else◌, length, get_or, take, replicate, ◌+◌, ◌%◌, ◌^◌, ◌≡◌, refl, true, false,
  not, none, some, List, [], ◌∷◌, reverse, arith, ◌⊎◌,
}
use doge_connect.Structs.{DispatcherStats}
use doge_connect.HashUtil.{hex_to_bytes, big_endian}
use doge_connect.Signing.{
  Primitives, seed_bytes, subseed_from_seed, private_key_from_subseed, public_key_from_private_key,
  init_signing_context,
}
use doge_connect.Config.{
  ConfigLib, DispatcherAppConfig, parse_dispatcher_config, parse_pool_config, parse_qubic_config,
  parse_identity_config, string_at, check_seed, all_lowercase,
}
use doge_connect.QubicConnection.Open.{refused, reconnect, open_qubic_connection, establishes}
use doge_connect.StratumRecv.{cut_line}
use doge_connect.StratumRecv.Requests.{subscribe_request, authorize_request}
use doge_connect.StratumRecv.Init.{
  StratumLib, Begun, init_stratum_protocol, is_subscribed, subscription, on_subscription, authorize,
  authorize_lines, on_line, on_response, is_refused, go_on,
}
use doge_connect.TaskDist.{JsonLib}
use doge_connect.ShareValid.Counters.{Balanced, sum}
use doge_connect.Dispatcher.StartUp.{
  parse_throws, loaded, Surroundings, Running, runs, terminates, initial_stats, connect_peers,
  any_waiting, login_of, start_up, on_json, on_config, on_context, on_masked, masked_seed, connect,
  on_replies,
}
use doge_connect.Dispatcher.Runs.{Configured, IsReady, start_up-IsReady, start_up-terminates}
use doge_connect.Dispatcher.DryRun.{drain_message, on_id, on_method, first_param, dry_run}
use doge_connect.Dispatcher.Shutdown.{
  ended, Event, consumer_turn, main_turn, arrives, popped, consumer_at, closing_at, consumer_step,
  consumer_run, started,
}
use doge_connect.Dispatcher.Ends.{consumer_turns, consumer_run-Ends}
use doge_connect.Dispatcher.Effects.{MissingIsNoText}
use doge_connect.Dispatcher.Tally.{Tallies, dry_run-Tallies}
use doge_connect.Dispatcher.Activity.{IsTally, sum_counts, count_active, count_active-IsTally}

-- A JSON value is a text. The members are the text itself, for the configuration.
abbrev config_lib : ConfigLib (List ℕ)
config_lib = record {
  at = λ j key. some j;
  contains = λ j key. true;
  get_string = λ j. some j;
  get_strings = λ j. some ((b'1' ∷ []) ∷ []);
  value_string = λ j key d. some d;
  value_number = λ j key d. some d;
  value_bool = λ j key d. some d;
}

-- The reply that begins with 0 has the id 1, any other the id 2; there are no errors.
abbrev stratum_lib : StratumLib (List ℕ)
stratum_lib = record {
  parse = λ text. if get_or text 0 0 == b'x' then none else some text;
  at_key = λ j key. some (
    if length key == 2
        then (if get_or j 0 0 == b'0' then b'1' ∷ [] else b'2' ∷ [])
        else if length key == 5
        then b'n' ∷ []
        else b'r' ∷ [],
    j,
  );
  at_index = λ j i. some j;
  get_string = λ j. some (b'0' ∷ b'a' ∷ []);
  get_unsigned = λ j. some 8;
  is_number = λ j n. get_or j 0 0 == 48 + n;
  is_null = λ j. get_or j 0 0 == b'n';
  is_false = λ j. false;
}

abbrev toy : Primitives
toy = record {
  k12 = take 32;
  public_of_private = reverse;
  sign = λ subseed key digest. replicate 64 9;
}

abbrev seed : List ℕ
seed = replicate 55 b'q'

-- No peer answers.
abbrev env : Surroundings (List ℕ)
env = record {
  config_json = loaded seed;
  has_context = true;
  stratum_opens = true;
  network = λ i. record {
    is_address = false;
    connect_answer = refused;
    is_writable = false;
    has_error = false;
    reads = [];
    writes = [];
  };
  subscribe_reply = b'0' ∷ [];
  authorize_reply = b'6' ∷ [];
}

abbrev config : DispatcherAppConfig
config = record {
  pool = record {
    url = seed;
    stratum_port = seed;
    worker_name = seed;
    worker_password = b'1' ∷ b'2' ∷ b'3' ∷ [];
  };
  qubic = record { ips = (b'1' ∷ []) ∷ []; port = 21841 };
  identity = record { seed = seed };
  stats_file = [];
  dry_run = false;
}

configured : Configured config_lib stratum_lib toy (take 3) env config
unfolding parse_dispatcher_config parse_pool_config parse_qubic_config parse_identity_config
    string_at check_seed all_lowercase
configured = (seed, refl, refl)

abbrev begun : Begun (List ℕ)
begun = record {
  result = true;
  extra_nonce1 = hex_to_bytes (b'0' ∷ b'a' ∷ []) big_endian;
  queue = [];
  requests = subscribe_request ∷ authorize_request (login_of config) ∷ [];
}

begins :
    init_stratum_protocol stratum_lib (login_of config) (b'0' ∷ []) (b'6' ∷ []) [] [] ≡ some begun
unfolding init_stratum_protocol is_subscribed subscription on_subscription authorize authorize_lines
    on_line on_response is_refused go_on cut_line
begins = refl

no_wait : any_waiting (connect_peers env.network 0 config.qubic.ips config.qubic.port) ≡ false
unfolding any_waiting connect_peers reconnect open_qubic_connection establishes
no_wait = refl

full_start :
    (r : Running (List ℕ)) × (start_up config_lib stratum_lib toy (take 3) env ≡ runs r)
    × IsReady config_lib stratum_lib toy (take 3) env r
full_start =
    start_up-IsReady config_lib stratum_lib toy (take 3) env config begun configured refl refl
      no_wait begins refl

-- The reply to the first request is no JSON.
abbrev odd_env : Surroundings (List ℕ)
odd_env = record env { subscribe_reply = b'x' ∷ [] }

throws : start_up config_lib stratum_lib toy (take 3) odd_env ≡ terminates
unfolding start_up on_json on_config on_context on_masked masked_seed connect on_replies
    init_signing_context subseed_from_seed seed_bytes private_key_from_subseed
    public_key_from_private_key parse_dispatcher_config parse_pool_config parse_qubic_config
    parse_identity_config string_at check_seed all_lowercase any_waiting connect_peers reconnect
    open_qubic_connection establishes init_stratum_protocol
throws = refl

start_up-terminates_example :
    (odd_env.config_json ≡ parse_throws)
    ⊎ ((c : DispatcherAppConfig) × Configured config_lib stratum_lib toy (take 3) odd_env c
        × (init_stratum_protocol stratum_lib (login_of c) (b'x' ∷ []) (b'6' ∷ []) [] [] ≡ none))
start_up-terminates_example = start_up-terminates config_lib stratum_lib toy (take 3) odd_env throws

-- Messages by their numbers: 0 has no id, 1 announces a job, any other sets the difficulty to 7.
abbrev json_lib : JsonLib ℕ
json_lib = record {
  contains = λ j key. not (j == 0);
  at_key = λ j key. some (if j == 0 then 0 else if length key == 2 then 9 else j);
  at_index = λ j i. some j;
  get_bool = λ j. none;
  get_string = λ j. none;
  get_unsigned = λ j. some 7;
  items = λ j. none;
  is_null = λ j. j == 9;
  is_unsigned = λ j. false;
  is_true = λ j. false;
  is_string =
      λ j text. if j == 0 then false else if j == 1 then length text == 13 else length text == 21;
}

law : MissingIsNoText json_lib
law j v key text lacks at = ground arith

drained :
    dry_run json_lib (1 ∷ 0 ∷ 2 ∷ 1 ∷ []) initial_stats
    ≡ some (record initial_stats { tasks_distributed = 2; pool_difficulty = 7 })
unfolding dry_run drain_message on_id on_method first_param
drained = refl

dry_run-Tallies_example :
    Tallies json_lib
      (1 ∷ 0 ∷ 2 ∷ 1 ∷ [])
      initial_stats
      (record initial_stats { tasks_distributed = 2; pool_difficulty = 7 })
dry_run-Tallies_example =
    dry_run-Tallies json_lib law (1 ∷ 0 ∷ 2 ∷ 1 ∷ []) initial_stats
      (record initial_stats { tasks_distributed = 2; pool_difficulty = 7 }) (omega arith) drained

-- Computor 0 has five shares, computor 1 three.
abbrev busy : DispatcherStats
busy = record initial_stats {
  solutions_received = 8;
  solutions_accepted = 8;
  solutions_passed_pool_diff = 8;
  computor_shares = 5 ∷ 3 ∷ replicate 674 0;
}

busy-Balanced : Balanced 0 busy
unfolding sum
busy-Balanced = record { verdicts = refl; passed = refl; shares = refl; computors = refl }

two_active :
    IsTally busy (count_active 1700000000 busy)
    × (sum_counts (count_active 1700000000 busy).shares % 2 ^ 64 ≡ 8)
two_active = count_active-IsTally 1700000000 busy busy-Balanced

-- The thread has taken a message when main requests the stop, takes the dummy with it as it drains
-- the queue, and sees the request at its `while`.
abbrev before_end : List (Event ℕ)
before_end = arrives 7 ∷ consumer_turn 0 ∷ consumer_turn 0 ∷ main_turn ∷ arrives 8 ∷ main_turn ∷ []

abbrev after_end : List (Event ℕ)
after_end = main_turn ∷ consumer_turn 5 ∷ arrives 9 ∷ consumer_turn 0 ∷ consumer_turn 0 ∷ []

consumer_run-Ends_example :
    (consumer_run 0 after_end (consumer_run 0 before_end started)).pc ≡ ended
unfolding consumer_run consumer_step consumer_at closing_at popped consumer_turns
consumer_run-Ends_example = consumer_run-Ends 0 before_end after_end refl (omega arith)
