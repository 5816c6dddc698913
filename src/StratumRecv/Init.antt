-- ===== src/StratumRecv/Init.antt =====
-- initStratumProtocol of dispatcher/src/threads/stratum_recv_thread.cpp. The replies are what
-- receiveResponse returns, and nothing when the connection is lost.
use doge_connect.HashUtil.{hex_to_bytes, big_endian}
use doge_connect.TaskDist.Loop.{key_id, key_error, key_result}
use doge_connect.StratumRecv.Requests.{Login, subscribe_request, authorize_request}
use doge_connect.StratumRecv.{cut_line}
use doge_connect.Prelude.{
  ℕ, ◌==◌, if◌then◌else◌, ◌>>=◌, length, zero, suc, ◌+◌, ◌%◌, ◌^◌, Bool, true, false, not, Option,
  none, some, List, [], ◌∷◌, ◌++◌,
}

-- What the code uses of a JSON value; `none` is an exception. `at_key` is the `operator[]` of a
-- value that is not constant, with the value as the access leaves it: a member that is missing is
-- added, and null.
pub record StratumLib (Json : Type 0) : Type 0 where
  pub parse : List ℕ → Option Json
  pub at_key : Json → List ℕ → Option (Json × Json)
  pub at_index : Json → ℕ → Option Json
  pub get_string : Json → Option (List ℕ)
  pub get_unsigned : Json → Option ℕ
  pub is_number : Json → ℕ → Bool
  pub is_null : Json → Bool
  pub is_false : Json → Bool

-- What the call leaves in the caller's variables, its result, and the requests that it hands to
-- `sendMessage`, the result of which it ignores.
pub record Begun (Json : Type 0) : Type 0 where
  pub result : Bool
  pub extra_nonce1 : List ℕ
  pub queue : List Json
  pub requests : List (List ℕ)

-- Whether the authorization is not refused so far, and the queue.
pub record Authorized (Json : Type 0) : Type 0 where
  pub accepted : Bool
  pub queue : List Json

module _ {Json : Type 0} (lib : StratumLib Json) where
  -- `response["id"] == 1 && response["error"] == nullptr`, and `response` after that.
  unfoldable pub is_subscribed : Json → Option (Bool × Json)
  is_subscribed response = do
    id ← lib.at_key response key_id
    elim (lib.is_number id.0 1) [
      | false ↦ some (false, id.1)
      | true ↦ do err ← lib.at_key id.1 key_error; some (lib.is_null err.0, err.1)
    ]

  -- `response["result"] == false || response["error"] != nullptr`.
  unfoldable pub is_refused : Json → Option Bool
  is_refused response = do
    result ← lib.at_key response key_result
    elim (lib.is_false result.0) [
      | true ↦ some true
      | false ↦ do err ← lib.at_key result.1 key_error; some (not (lib.is_null err.0))
    ]

  -- A line of the reply to `mining.authorize` that is not empty.
  unfoldable pub on_response : Json → List Json → Option (Authorized Json)
  on_response response queue = do
    id ← lib.at_key response key_id
    elim (lib.is_number id.0 2) [
      | true ↦ do refused ← is_refused id.1; some (record { accepted = not refused; queue = queue })
      | false ↦ do
        again ← lib.at_key id.1 key_id
        some (record {
          accepted = true;
          queue = if lib.is_null again.0 then queue ++ again.1 ∷ [] else queue;
        })
    ]

  unfoldable pub on_line : List ℕ → List Json → Option (Authorized Json)
  on_line [] queue = some (record { accepted = true; queue = queue })
  on_line (c ∷ line) queue = do response ← lib.parse (c ∷ line); on_response response queue

  -- The next lines, unless the authorization is refused.
  unfoldable pub go_on :
      (List Json → Option (Authorized Json)) → Authorized Json → Option (Authorized Json)
  go_on next a = elim a.accepted [ false ↦ some a | true ↦ next a.queue ]

  -- The loop over the reply from `pos` on. The last line may have no newline.
  unfoldable pub authorize_lines :
      (rounds : ℕ) → (text : List ℕ) → List Json → Option (Authorized Json)
  authorize_lines zero text queue = some (record { accepted = true; queue = queue })
  authorize_lines (suc rounds) text queue = elim (cut_line text) [
    | none ↦ on_line text queue
    | some cut ↦ do a ← on_line cut.0 queue; go_on (authorize_lines rounds cut.1) a
  ]

  -- From the result of `mining.subscribe`: `extraNonce1`, and the size of `extraNonce2`.
  unfoldable pub subscription : Json → Option (List ℕ × ℕ)
  subscription response = do
    result ← lib.at_key response key_result
    nonce ← lib.at_index result.0 1
    text ← lib.get_string nonce
    size ← lib.at_index result.0 2
    bytes ← lib.get_unsigned size
    some (hex_to_bytes text big_endian, bytes)

module _ {Json : Type 0} (lib : StratumLib Json) (login : Login) where
  abbrev pub refuses : List ℕ → List Json → Begun Json
  refuses extra_nonce1 queue = record {
    result = false;
    extra_nonce1 = extra_nonce1;
    queue = queue;
    requests = subscribe_request ∷ [];
  }

  -- After a subscription with the size of `extraNonce2` that is asked for.
  unfoldable pub authorize : List ℕ → List ℕ → List Json → Option (Begun Json)
  authorize reply extra_nonce1 queue = do
    a ← authorize_lines lib (length reply + 1) reply queue
    some (record {
      result = a.accepted;
      extra_nonce1 = extra_nonce1;
      queue = a.queue;
      requests = subscribe_request ∷ authorize_request login ∷ [];
    })

  -- The number of bytes is converted to `unsigned int`.
  unfoldable pub on_subscription : List ℕ → List ℕ → ℕ → List Json → Option (Begun Json)
  on_subscription reply extra_nonce1 size queue =
      if not (size % 2 ^ 32 == 8)
      then some (refuses extra_nonce1 queue)
      else authorize reply extra_nonce1 queue

  -- `initStratumProtocol`: the replies to `mining.subscribe` and to `mining.authorize`.
  unfoldable pub init_stratum_protocol :
      (subscribe_reply authorize_reply : List ℕ) → List ℕ → List Json → Option (Begun Json)
  init_stratum_protocol [] authorize_reply extra_nonce1 queue = some (refuses extra_nonce1 queue)
  init_stratum_protocol (c ∷ reply) authorize_reply extra_nonce1 queue = do
    response ← lib.parse (c ∷ reply)
    subscribed ← is_subscribed lib response
    elim subscribed.0 [
      | false ↦ some (refuses extra_nonce1 queue)
      | true ↦ do s ← subscription lib subscribed.1; on_subscription authorize_reply s.0 s.1 queue
    ]
