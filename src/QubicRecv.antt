-- ===== src/QubicRecv.antt =====
-- dispatcher/src/threads/qubic_recv_thread.cpp: solutions from the Qubic network. KangarooTwelve
-- and the signature check are parameters.
pub mod Framing
pub mod Chunks
pub mod Reconnect
mod Tests
use doge_connect.Concurrency.Queue.{push}
use doge_connect.Structs.{
  DispatcherMiningSolution, PeerStats, incr, doge, field_at, signature_size, sizeof_header,
  sizeof_custom_solution, sizeof_doge_solution, custom_solution_type,
}
use doge_connect.Structs.Header.{header_size, header_type}
use doge_connect.Prelude.{
  ltb, leb, ◌==◌, if◌then◌else◌, ltb→lt, lt→ltb, leb→le, ==_iff, tests, Bool-cases, Option-cases,
  length, get_elem?, set, length-append, length-set, get_elem?-set_self, get_elem?-set_ne, get_or,
  take, drop, replicate, take-append-drop, length-take, length-drop, take-all, length-reverse,
  take-append, drop-append, get_or-drop, length-replicate, length-map, All, All-append, IsBytes,
  le_value, to_le, le_value-nil, le_value-cons, length-to_le, to_le-IsBytes, le_value-lt,
  le_value-lt_pow, le_value-to_le, to_le-le_value, le_value-append, le_value-take-suc,
  le_value-take-add, le_value-replicate, get_or-replicate, get_or-set_ne, take-IsBytes,
  drop-IsBytes, get_or-lt_byte, append-IsBytes, le_value-set, prefix-lt, reverse-IsBytes,
  bit_or_disjoint, bit_and_bit, ℕ, zero, suc, ◌+◌, ◌-◌, ◌*◌, ◌/◌, ◌%◌, ◌^◌, ◌≤◌, ◌<◌, min, bit_and,
  bit_or, ◌≡◌, refl, sym, ap, ap₂, ◌∙◌, ◌≢◌, ◌↔◌, ◌⊎◌, inl, inr, Bool, true, false, not, ◌&&◌, ◌||◌,
  Option, none, some, List, [], ◌∷◌, ◌++◌, map, foldl, reverse, append_assoc, append-nil, arith,
  drop-drop, take-append_le, drop-append_le,
}

abbrev pub required_size : ℕ
required_size = sizeof_header + sizeof_custom_solution + sizeof_doge_solution + signature_size

-- The fields that are read in place from the packet, each at its offset in the packed structs.
unfoldable pub read_solution : List ℕ → DispatcherMiningSolution
read_solution packet =
    let custom = sizeof_header in
    let solution = sizeof_header + sizeof_custom_solution in
    record {
      job_id = le_value (field_at (custom + 32) 8 packet);
      n_time = field_at solution 4 packet;
      nonce = field_at (solution + 4) 4 packet;
      merkle_root = field_at (solution + 8) 32 packet;
      extra_nonce2 = field_at (solution + 40) 8 packet;
      source_public_key = field_at custom 32 packet;
    }

-- The thread's queue with the counters of the peer whose bytes are processed.
pub record Sink : Type 0 where
  pub queue : List DispatcherMiningSolution
  pub peer : PeerStats

-- What is left of a stream buffer.
pub record Received : Type 0 where
  pub rest : List ℕ
  pub sink : Sink

abbrev pub is_broken : ℕ → Bool
is_broken packet_size = ltb packet_size sizeof_header || ltb (10 * 1024 * 1024) packet_size

-- Where the loop ends: by clearing the buffer, or at a position.
pub data Ending : Type 0 where
  cleared : Sink → Ending
  stopped : ℕ → Sink → Ending

abbrev pub close : List ℕ → Ending → Received
close buf (cleared sink) = record { rest = []; sink = sink }
close buf (stopped pos sink) = record { rest = drop pos buf; sink = sink }

-- `k12 data` is `KangarooTwelve(data, size, digest, 32)`; `verify key digest signature`.
module _ (k12 : List ℕ → List ℕ) (verify : List ℕ → List ℕ → List ℕ → Bool) where
  abbrev pub is_signed : List ℕ → ℕ → Bool
  is_signed packet packet_size =
      let message_size = packet_size - sizeof_header in
      let digest = k12 (field_at sizeof_header (message_size - signature_size) packet) in
      verify (field_at sizeof_header 32 packet) digest
        (field_at (sizeof_header + (message_size - signature_size)) signature_size packet)

  -- `processSolution`.
  unfoldable pub process_solution :
      List ℕ → ℕ → List DispatcherMiningSolution → List DispatcherMiningSolution
  process_solution packet packet_size queue =
      if not (packet_size == required_size)
      then queue
      else if not (header_type packet == custom_solution_type)
      then queue
      else if not (get_or packet (sizeof_header + 40) 0 == doge)
      then queue
      else if is_signed packet packet_size
      then push (read_solution packet) queue
      else queue

  -- One complete packet of the buffer.
  pub deliver : List ℕ → ℕ → Sink → Sink
  deliver packet packet_size sink =
      let counted = record sink.peer { packets_received = incr sink.peer.packets_received } in
      let queue' = process_solution packet packet_size sink.queue in
      if ltb (length sink.queue) (length queue')
      then record {
        queue = queue';
        peer = record counted { solutions_received = incr counted.solutions_received };
      }
      else record { queue = queue'; peer = counted }

  -- The loop of `processRecvBuffer` at position `pos`. Positions are `unsigned int`.
  pub recv_loop : ℕ → ℕ → List ℕ → Sink → Ending
  recv_loop zero pos buf sink = stopped pos sink
  recv_loop (suc fuel) pos buf sink =
      let packet_size = header_size (drop pos buf) in
      let packet = take packet_size (drop pos buf) in
      let more =
        recv_loop fuel ((pos + packet_size) % 2 ^ 32) buf (deliver packet packet_size sink) in
      if leb (pos + sizeof_header) (length buf)
      then if is_broken packet_size
        then cleared sink
        else if ltb (length buf) ((pos + packet_size) % 2 ^ 32)
        then stopped pos sink
        else more
      else stopped pos sink

  -- `processRecvBuffer`: a packet takes 8 bytes at least, so as many rounds as bytes are enough.
  pub process_recv_buffer : List ℕ → Sink → Received
  process_recv_buffer buf sink = close buf (recv_loop (length buf) 0 buf sink)
