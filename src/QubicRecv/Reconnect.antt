-- ===== src/QubicRecv/Reconnect.antt =====
-- `qubicReceiveLoop` of dispatcher/src/threads/qubic_recv_thread.cpp, a round at a time: polling,
-- reading, and reconnecting with back-off. The sockets are inputs of a round.
pub mod Tracked
pub mod Scan
use doge_connect.Structs.{DispatcherMiningSolution, PeerStats, incr}
use doge_connect.QubicRecv.{Sink, Received, process_recv_buffer}
use doge_connect.Prelude.{
  ℕ, ltb, leb, ◌==◌, if◌then◌else◌, ltb→lt, lt→ltb, leb→le, ==_iff, tests, Bool-cases, Option-cases,
  ◌>>=◌, length, get_elem?, set, length-append, length-set, get_elem?-set_self, get_elem?-set_ne,
  get_or, take, drop, replicate, take-append-drop, length-take, length-drop, take-all,
  length-reverse, take-append, drop-append, drop-drop, take-append_le, drop-append_le, get_or-drop,
  length-replicate, length-map, All, All-append, IsBytes, le_value, to_le, le_value-nil,
  le_value-cons, length-to_le, to_le-IsBytes, le_value-lt, le_value-lt_pow, le_value-to_le,
  to_le-le_value, le_value-append, le_value-take-suc, le_value-take-add, le_value-replicate,
  get_or-replicate, get_or-set_ne, take-IsBytes, drop-IsBytes, get_or-lt_byte, append-IsBytes,
  le_value-set, prefix-lt, reverse-IsBytes, all_bytes, all_bytes-IsBytes, bit_or_disjoint,
  bit_and_bit, zero, suc, ◌+◌, ◌-◌, ◌*◌, ◌/◌, ◌%◌, ◌^◌, ◌≤◌, ◌<◌, min, bit_and, bit_or, ◌≡◌, refl,
  sym, ap, ap₂, ◌∙◌, ◌≢◌, ◌↔◌, ◌⊎◌, inl, inr, Bool, true, false, not, ◌&&◌, ◌||◌, Option, none,
  some, List, [], ◌∷◌, ◌++◌, map, foldl, reverse, append_assoc, append-nil, arith,
}

abbrev pub reconnect_base_delay_sec : ℕ
reconnect_base_delay_sec = 2

abbrev pub reconnect_max_delay_sec : ℕ
reconnect_max_delay_sec = 60

-- Time points are nanoseconds of the steady clock; `none` is `time_point::min()`.
pub record ReconnectState : Type 0 where
  pub delay_sec : ℕ
  pub next_retry_time : Option ℕ

pub schedule_retry : ℕ → ReconnectState → ReconnectState
schedule_retry now rs = record rs { next_retry_time = some (now + rs.delay_sec * 1_000_000_000) }

pub backoff : ReconnectState → ReconnectState
backoff rs = record rs {
  delay_sec =
      if ltb rs.delay_sec reconnect_base_delay_sec
      then reconnect_base_delay_sec
      else min (rs.delay_sec * 2 % 2 ^ 32) reconnect_max_delay_sec;
}

abbrev pub reset : ReconnectState
reset = record { delay_sec = reconnect_base_delay_sec; next_retry_time = none }

unfoldable pub is_ready : ℕ → ReconnectState → Bool
is_ready now rs = elim rs.next_retry_time [ none ↦ false | some t ↦ leb t now ]

-- One entry of each of the vectors: connection, stream buffer, reconnect state and counters.
pub record Peer : Type 0 where
  pub connected : Bool
  pub recv_buffer : List ℕ
  pub reconnect_state : ReconnectState
  pub stats : PeerStats

-- `markDisconnected`.
pub mark_disconnected : ℕ → Peer → Peer
mark_disconnected now peer = record {
  connected = false;
  recv_buffer = [];
  reconnect_state = schedule_retry now peer.reconnect_state;
  stats = record peer.stats { disconnects = incr peer.stats.disconnects };
}

-- `buildPollList`: the indices, from `i` on, of the connected peers.
pub build_poll_list : ℕ → List Peer → List ℕ
build_poll_list i [] = []
build_poll_list i (peer ∷ peers) =
    let rest = build_poll_list (i + 1) peers in if peer.connected then i ∷ rest else rest

-- What a scan leaves: the peers, the index to start from next, the peer that was tried, and
-- whether `reconnect()` returned true.
pub record Scanned : Type 0 where
  pub peers : List Peer
  pub next_idx : ℕ
  pub tried : Option ℕ
  pub established : Bool

-- How `reconnect()` ends: the connection stands; it returns true, but the handshake could not be
-- sent and the connection is closed; or it returns false.
pub data Outcome : Type 0 where
  stands handshake_failed not_reached : Outcome

abbrev pub returns_true : Outcome → Bool
returns_true stands = true
returns_true handshake_failed = true
returns_true not_reached = false

-- After `reconnect()` has returned true.
abbrev pub after_success : Bool → Peer → Peer
after_success is_connected peer = record peer {
  connected = is_connected;
  reconnect_state = reset;
  stats = record peer.stats { reconnects = incr peer.stats.reconnects };
}

-- An attempt to reconnect a peer, with its outcome.
unfoldable pub attempt : ℕ → Outcome → Peer → Peer
attempt now stands peer = after_success true peer
attempt now handshake_failed peer = after_success false peer
attempt now not_reached peer = record peer {
  connected = false;
  reconnect_state = schedule_retry now (backoff peer.reconnect_state);
}

-- The loop of `tryOneReconnect`, with `rounds` to go; `outcome i` is that of `reconnect()`.
unfoldable pub scan : ℕ → ℕ → (ℕ → Outcome) → List Peer → ℕ → Scanned
scan zero now outcome peers next = record {
  peers = peers;
  next_idx = next;
  tried = none;
  established = false;
}
scan (suc rounds) now outcome peers next =
    let i = next % length peers in
    let next' = (next + 1) % length peers in
    let rest = scan rounds now outcome peers next' in
    elim (get_elem? peers i) [
      | none ↦ rest
      | some peer ↦
          if is_ready now peer.reconnect_state
          then record {
            peers = set peers i (attempt now (outcome i) peer);
            next_idx = next';
            tried = some i;
            established = returns_true (outcome i);
          }
          else rest
    ]

-- `tryOneReconnect`.
unfoldable pub try_one_reconnect : ℕ → (ℕ → Outcome) → List Peer → ℕ → Scanned
try_one_reconnect now outcome peers next = scan (length peers) now outcome peers next

-- What `poll` and `read` report of a socket.
pub data Event : Type 0 where
  quiet : Event
  arrived : List ℕ → Event
  ended hung_up : Event

-- The variables of the loop.
pub record ReceiveState : Type 0 where
  pub peers : List Peer
  pub next_reconn_idx : ℕ
  pub poll_list : List ℕ
  pub queue : List DispatcherMiningSolution

-- The start of the loop, before its first round.
pub connect_at_start : ℕ → Peer → Peer
connect_at_start now peer = if peer.connected then peer else record peer {
  reconnect_state = schedule_retry now (record peer.reconnect_state { delay_sec = 0 });
}

pub start : ℕ → List Peer → List DispatcherMiningSolution → ReceiveState
start now peers queue =
    let begun = map (connect_at_start now) peers in
    record {
      peers = begun;
      next_reconn_idx = 0;
      poll_list = build_poll_list 0 begun;
      queue = queue;
    }

module _ (k12 : List ℕ → List ℕ) (verify : List ℕ → List ℕ → List ℕ → Bool) where
  -- `recvBytes` bytes are appended to the buffer, and the packets in it are processed.
  pub on_arrived :
      List ℕ → Peer → List DispatcherMiningSolution → Peer × List DispatcherMiningSolution
  on_arrived bytes peer queue =
      let counted = record peer.stats {
        bytes_received = (peer.stats.bytes_received + length bytes) % 2 ^ 64;
      } in
      let r =
        process_recv_buffer k12 verify (peer.recv_buffer ++ bytes)
          (record { queue = queue; peer = counted }) in
      (record peer { recv_buffer = r.rest; stats = r.sink.peer }, r.sink.queue)

  pub on_event :
      ℕ → Event → Peer → List DispatcherMiningSolution → Peer × List DispatcherMiningSolution
  on_event now quiet peer queue = (peer, queue)
  on_event now (arrived bytes) peer queue = on_arrived bytes peer queue
  on_event now ended peer queue = (mark_disconnected now peer, queue)
  on_event now hung_up peer queue = (mark_disconnected now peer, queue)

  abbrev with_peer : ℕ → ReceiveState → Peer × List DispatcherMiningSolution → ReceiveState
  with_peer i st done = record st { peers = set st.peers i done.0; queue = done.1 }

  -- The event of the socket of peer `i`.
  pub handle_event : ℕ → ℕ → Event → ReceiveState → ReceiveState
  handle_event now i event st = elim (get_elem? st.peers i) [
    | none ↦ st
    | some peer ↦ with_peer i st (on_event now event peer st.queue)
  ]

  -- The loop over the poll list, with the events of its sockets.
  pub handle_events : ℕ → List ℕ → List Event → ReceiveState → ReceiveState
  handle_events now [] events st = st
  handle_events now (i ∷ is) [] st = st
  handle_events now (i ∷ is) (event ∷ events) st =
      handle_events now is events (handle_event now i event st)

  -- `needRebuild`: the events of the polled sockets that end a connection.
  pub needs_rebuild : List ℕ → List Event → Bool
  needs_rebuild [] events = false
  needs_rebuild (i ∷ is) [] = false
  needs_rebuild (i ∷ is) (ended ∷ events) = true
  needs_rebuild (i ∷ is) (hung_up ∷ events) = true
  needs_rebuild (i ∷ is) (quiet ∷ events) = needs_rebuild is events
  needs_rebuild (i ∷ is) (arrived bytes ∷ events) = needs_rebuild is events

  abbrev rebuild : Bool → ReceiveState → ReceiveState
  rebuild needed st = if needed then record st { poll_list = build_poll_list 0 st.peers } else st

  -- `none` is an error of `poll`, no events a timeout. With no sockets the loop only sleeps.
  pub poll_sockets : ℕ → Option (List Event) → ReceiveState → ReceiveState
  poll_sockets now none st = rebuild (ltb 0 (length st.poll_list)) st
  poll_sockets now (some events) st =
      rebuild (needs_rebuild st.poll_list events) (handle_events now st.poll_list events st)

  -- A round of the loop: one attempt to reconnect, then the sockets.
  pub receive_round : ℕ → (ℕ → Outcome) → Option (List Event) → ReceiveState → ReceiveState
  receive_round now outcome polled st =
      let scanned = try_one_reconnect now outcome st.peers st.next_reconn_idx in
      poll_sockets now polled (
        rebuild scanned.established
          (record st { peers = scanned.peers; next_reconn_idx = scanned.next_idx }))
