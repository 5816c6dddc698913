-- ===== src/QubicRecv/Tests.antt =====
-- A stream of two short packets, the second cut in two.
use doge_connect.Structs.Header.{header_size, header_type}
use doge_connect.QubicRecv.{
  Sink, stopped, deliver, process_solution, recv_loop, process_recv_buffer,
}
use doge_connect.QubicRecv.Reconnect.{
  Outcome, not_reached, Peer, ReceiveState, reset, try_one_reconnect,
}
use doge_connect.QubicRecv.Reconnect.Scan.{Tries, try_one_reconnect-Tries}
use doge_connect.QubicRecv.Chunks.{
  IsPacket, join, deliver_all, process_recv_buffer-chunks, process_recv_buffer-packets,
}
use doge_connect.Prelude.{
  ℕ, take, drop, le_value, ◌≡◌, refl, inl, Bool, true, List, [], ◌∷◌, ◌++◌, arith, false, some,
}

abbrev toy_k12 : List ℕ → List ℕ
toy_k12 = take 32

abbrev toy_verify : List ℕ → List ℕ → List ℕ → Bool
toy_verify key digest signature = true

-- A header that states 9 bytes, of another type, and one byte.
abbrev packet : List ℕ
packet = 9 ∷ 0 ∷ 0 ∷ 1 ∷ 0 ∷ 0 ∷ 0 ∷ 0 ∷ 77 ∷ []

abbrev start : Sink
start = record {
  queue = [];
  peer = record {
    ip = [];
    port = 0;
    reconnects = 0;
    solutions_received = 0;
    packets_received = 5;
    bytes_received = 0;
    disconnects = 0;
    send_failures = 0;
  };
}

abbrev after_one : Sink
after_one = record start { peer = record start.peer { packets_received = 6 } }

stops : recv_loop toy_k12 toy_verify 11 0 (packet ++ take 2 packet) start ≡ stopped 9 after_one
unfolding recv_loop header_size header_type le_value deliver process_solution
stops = refl

process_recv_buffer-chunks_example :
    process_recv_buffer toy_k12 toy_verify ((packet ++ take 2 packet) ++ drop 2 packet) start
    ≡ process_recv_buffer toy_k12 toy_verify (take 2 packet ++ drop 2 packet) after_one
process_recv_buffer-chunks_example =
    process_recv_buffer-chunks toy_k12 toy_verify (packet ++ take 2 packet) (drop 2 packet) start
      after_one 9 (omega arith) stops

is_packet : IsPacket toy_k12 toy_verify packet
unfolding header_size le_value
is_packet = (refl, omega arith, omega arith)

process_recv_buffer-packets_example :
    process_recv_buffer toy_k12 toy_verify
      (join toy_k12 toy_verify (packet ∷ packet ∷ []) (take 2 packet))
      start
    ≡ record {
      rest = take 2 packet;
      sink = deliver_all toy_k12 toy_verify (packet ∷ packet ∷ []) start;
    }
process_recv_buffer-packets_example =
    process_recv_buffer-packets toy_k12 toy_verify (packet ∷ packet ∷ []) (take 2 packet) start
      (is_packet, (is_packet, tt)) (inl (omega arith)) (omega arith)

-- Two peers at 5 seconds: one connected, one due since 3 seconds.
abbrev up : Peer
up = record {
  connected = true;
  recv_buffer = take 3 packet;
  reconnect_state = reset;
  stats = start.peer;
}

abbrev down : Peer
down = record {
  connected = false;
  recv_buffer = [];
  reconnect_state = record { delay_sec = 2; next_retry_time = some 3_000_000_000 };
  stats = start.peer;
}

abbrev loop : ReceiveState
loop = record { peers = up ∷ down ∷ []; next_reconn_idx = 0; poll_list = 0 ∷ []; queue = [] }

abbrev fails : ℕ → Outcome
fails i = not_reached

try_one_reconnect-Tries_example :
    Tries 5_000_000_000 fails
      (up ∷ down ∷ [])
      1
      down
      refl
      (3_000_000_000, refl, omega arith)
      (try_one_reconnect 5_000_000_000 fails (up ∷ down ∷ []) 0)
try_one_reconnect-Tries_example =
    try_one_reconnect-Tries 5_000_000_000 fails (up ∷ down ∷ []) 1 down refl
      (3_000_000_000, refl, omega arith) 0 (omega arith) (omega arith)
