-- ===== src/StratumRecv/Tests.antt =====
-- A pool whose texts are known by their first character: 0 is the answer to `mining.subscribe`, 6
-- the answer to `mining.authorize`, 9 a notification.
use doge_connect.StratumRecv.{cut_line}
use doge_connect.StratumRecv.Split.{text_of}
use doge_connect.StratumRecv.Lines.{joined, messages, receive_chunks, receive_chunks-lines}
use doge_connect.StratumRecv.Requests.{Login, subscribe_request, authorize_request}
use doge_connect.StratumRecv.Init.{
  StratumLib, Begun, is_subscribed, subscription, on_subscription, authorize, authorize_lines,
  on_line, on_response, is_refused, go_on, init_stratum_protocol,
}
use doge_connect.StratumRecv.Begins.{Begins}
use doge_connect.StratumRecv.Retry.{
  Attempt, not_opened, opened, reconnected, PoolState, Retried, retry, next_delay,
  reconnect_to_pool,
}
use doge_connect.StratumRecv.Delays.{Resumes, reconnect_to_pool-Resumes}
use doge_connect.HashUtil.{hex_to_bytes, big_endian}
use doge_connect.Prelude.{
  ℕ, ◌==◌, if◌then◌else◌, ◌>>=◌, length, ◌≡◌, refl, Bool, true, false, Option, none, some, List, [],
  ◌∷◌, arith,
}

data Toy : Type 0 where
  subscribed authorized notified one two nothing success results nonce eight : Toy

abbrev toy_parse : List ℕ → Option Toy
toy_parse [] = none
toy_parse (c ∷ text) =
    if c == 48
    then some subscribed
    else if c == 54
    then some authorized
    else if c == 57
    then some notified
    else none

-- The keys `id`, `error` and `result` differ in their lengths.
abbrev toy_member : Toy → ℕ → Option Toy
toy_member subscribed key = some (if key == 2 then one else if key == 5 then nothing else results)
toy_member authorized key = some (if key == 2 then two else if key == 5 then nothing else success)
toy_member notified key = some nothing
toy_member one key = none
toy_member two key = none
toy_member nothing key = none
toy_member success key = none
toy_member results key = none
toy_member nonce key = none
toy_member eight key = none

abbrev toy_is_number : Toy → ℕ → Bool
toy_is_number one n = n == 1
toy_is_number two n = n == 2
toy_is_number subscribed n = false
toy_is_number authorized n = false
toy_is_number notified n = false
toy_is_number nothing n = false
toy_is_number success n = false
toy_is_number results n = false
toy_is_number nonce n = false
toy_is_number eight n = false

abbrev toy_is_null : Toy → Bool
toy_is_null nothing = true
toy_is_null subscribed = false
toy_is_null authorized = false
toy_is_null notified = false
toy_is_null one = false
toy_is_null two = false
toy_is_null success = false
toy_is_null results = false
toy_is_null nonce = false
toy_is_null eight = false

abbrev toy_lib : StratumLib Toy
toy_lib = record {
  parse = toy_parse;
  at_key = λ value key. toy_member value (length key) >>= λ m. some (m, value);
  at_index = λ value i. some (if i == 1 then nonce else eight);
  get_string = λ value. some (48 ∷ 97 ∷ []);
  get_unsigned = λ value. some 8;
  is_number = toy_is_number;
  is_null = toy_is_null;
  is_false = λ value. false;
}

-- Three lines, of which one is no JSON and the last is not complete.
abbrev pieces : List (List ℕ)
pieces = (57 ∷ 32 ∷ []) ∷ (10 ∷ 120 ∷ 10 ∷ 54 ∷ []) ∷ (10 ∷ 57 ∷ []) ∷ []

receive_chunks-lines_example :
    receive_chunks toy_parse pieces (record { network_buffer = []; queue = [] }) ≡ record {
      network_buffer = 57 ∷ [];
      queue = messages toy_parse ((57 ∷ 32 ∷ []) ∷ (120 ∷ []) ∷ (54 ∷ []) ∷ []);
    }
unfolding joined text_of
receive_chunks-lines_example =
    receive_chunks-lines toy_parse pieces ((57 ∷ 32 ∷ []) ∷ (120 ∷ []) ∷ (54 ∷ []) ∷ []) (57 ∷ [])
      [] ((omega arith, (omega arith, tt)), ((omega arith, tt), ((omega arith, tt), tt)))
      (omega arith, tt) refl

abbrev toy_login : Login
toy_login = record { worker_name = b'w' ∷ []; worker_password = b'x' ∷ [] }

abbrev begun : Begun Toy
begun = record {
  result = true;
  extra_nonce1 = hex_to_bytes (48 ∷ 97 ∷ []) big_endian;
  queue = notified ∷ [];
  requests = subscribe_request ∷ authorize_request toy_login ∷ [];
}

-- The reply to `mining.authorize` has a notification after the answer.
begins :
    init_stratum_protocol toy_lib toy_login (48 ∷ []) (54 ∷ 10 ∷ 57 ∷ 10 ∷ []) [] [] ≡ some begun
unfolding init_stratum_protocol is_subscribed subscription on_subscription authorize authorize_lines
    on_line on_response is_refused go_on cut_line
begins = refl

-- The connection is lost within a line; the first attempt fails.
abbrev lost : PoolState Toy
lost = record { stream = record { network_buffer = 57 ∷ []; queue = [] }; extra_nonce1 = [] }

abbrev attempts : List Attempt
attempts = not_opened ∷ opened (48 ∷ []) (54 ∷ 10 ∷ 57 ∷ 10 ∷ []) ∷ []

abbrev back : Retried Toy
back = record {
  outcome = reconnected;
  delays = 2 ∷ 4 ∷ [];
  state = record {
    stream = record { network_buffer = []; queue = notified ∷ [] };
    extra_nonce1 = hex_to_bytes (48 ∷ 97 ∷ []) big_endian;
  };
}

goes_on : reconnect_to_pool toy_lib toy_login attempts lost ≡ some back
unfolding reconnect_to_pool retry next_delay
goes_on = rw begins refl

reconnect_to_pool-Resumes_example : Resumes toy_lib toy_login 0 attempts back
reconnect_to_pool-Resumes_example =
    reconnect_to_pool-Resumes toy_lib toy_login attempts lost back goes_on
