-- ===== src/StratumRecv/Retry.antt =====
-- stratumReceiveLoop of dispatcher/src/threads/stratum_recv_thread.cpp, a round at a time, with the
-- reconnection to the pool.
use doge_connect.StratumRecv.{Stream, receive_bytes}
use doge_connect.StratumRecv.Requests.{Login}
use doge_connect.StratumRecv.Init.{StratumLib, Begun, init_stratum_protocol}
use doge_connect.Prelude.{ℕ, ◌>>=◌, ◌*◌, ◌%◌, ◌^◌, min, true, false, Option, some, List, [], ◌∷◌}

abbrev pub stratum_reconnect_base_delay_sec : ℕ
stratum_reconnect_base_delay_sec = 2

abbrev pub stratum_reconnect_max_delay_sec : ℕ
stratum_reconnect_max_delay_sec = 60

-- The stop is requested while the thread waits; the connection cannot be opened; or it is opened
-- and the pool replies to the two requests.
pub data Attempt : Type 0 where
  stop_requested not_opened : Attempt
  opened : (subscribe_reply authorize_reply : List ℕ) → Attempt

pub data Reconnection : Type 0 where
  returned reconnected still_trying : Reconnection

-- What the loop and the caller share.
pub record PoolState (Json : Type 0) : Type 0 where
  pub stream : Stream Json
  pub extra_nonce1 : List ℕ

-- How the reconnection ends, after which delays.
pub record Retried (Json : Type 0) : Type 0 where
  pub outcome : Reconnection
  pub delays : List ℕ
  pub state : PoolState Json

unfoldable pub next_delay : ℕ → ℕ
next_delay delay_sec = min (delay_sec * 2 % 2 ^ 32) stratum_reconnect_max_delay_sec

abbrev pub after_delay : {Json : Type 0} → ℕ → Retried Json → Retried Json
after_delay delay_sec r = record r { delays = delay_sec ∷ r.delays }

module _ {Json : Type 0} (lib : StratumLib Json) (login : Login) where
  abbrev pub begun_state : PoolState Json → Begun Json → PoolState Json
  begun_state st b = record {
    stream = record st.stream { queue = b.queue };
    extra_nonce1 = b.extra_nonce1;
  }

  -- The inner loop; a failed call of `initStratumProtocol` may have changed the queue.
  unfoldable pub retry : List Attempt → (delay_sec : ℕ) → PoolState Json → Option (Retried Json)
  retry [] delay_sec st = some (record { outcome = still_trying; delays = []; state = st })
  retry (stop_requested ∷ attempts) delay_sec st =
      some (record { outcome = returned; delays = []; state = st })
  retry (not_opened ∷ attempts) delay_sec st = do
    r ← retry attempts (next_delay delay_sec) st
    some (after_delay delay_sec r)
  retry (opened subscribe_reply authorize_reply ∷ attempts) delay_sec st = do
    b ←
        init_stratum_protocol lib login subscribe_reply authorize_reply st.extra_nonce1
          st.stream.queue
    elim b.result [
      | true ↦
          some (record { outcome = reconnected; delays = delay_sec ∷ []; state = begun_state st b })
      | false ↦ do
        r ← retry attempts (next_delay delay_sec) (begun_state st b)
        some (after_delay delay_sec r)
    ]

  -- After `receiveResponse` brings nothing.
  unfoldable pub reconnect_to_pool : List Attempt → PoolState Json → Option (Retried Json)
  reconnect_to_pool attempts st =
      retry attempts stratum_reconnect_base_delay_sec
        (record st { stream = record st.stream { network_buffer = [] } })

  -- A round of the loop: bytes arrive, or the connection is lost and attempts follow.
  pub receive_round : List ℕ → List Attempt → PoolState Json → Option (Retried Json)
  receive_round [] attempts st = reconnect_to_pool attempts st
  receive_round (c ∷ bytes) attempts st = some (record {
    outcome = reconnected;
    delays = [];
    state = record st { stream = receive_bytes lib.parse (c ∷ bytes) st.stream };
  })
