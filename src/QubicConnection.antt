-- ===== src/QubicConnection.antt =====
-- dispatcher/src/connection/qubic_connection.{h,cpp}: receiving the next packet of a type, and the
-- handshake. `asked` lists the sizes that `receiveAllData` was asked to write to `m_buffer`.
pub mod Open
pub mod Opening
pub mod Drained
pub mod Skipping
pub mod Bounds
mod Rounds
pub mod Extra
mod Tests
use doge_connect.Connection.{
  ReadAnswer, read_failed, chunk, Verdict, done, failed, waiting, Received, receive_all_data,
  receive_response,
}
use doge_connect.Structs.{sizeof_header}
use doge_connect.Structs.Header.{header_size, header_type}
use doge_connect.Prelude.{
  ℕ, ltb, leb, ◌==◌, if◌then◌else◌, ltb→lt, lt→ltb, leb→le, ==_iff, tests, Bool-cases, Option-cases,
  ◌>>=◌, length, get_elem?, set, length-append, length-set, get_elem?-set_self, get_elem?-set_ne,
  get_or, take, drop, replicate, take-append-drop, length-take, length-drop, take-all,
  length-reverse, take-append, drop-append, drop-drop, take-append_le, drop-append_le, get_or-drop,
  length-replicate, length-map, All, All-append, IsBytes, le_value, to_le, le_value-nil,
  le_value-cons, length-to_le, to_le-IsBytes, le_value-lt, le_value-lt_pow, le_value-to_le,
  to_le-le_value, le_value-append, le_value-take-suc, le_value-take-add, le_value-replicate,
  get_or-replicate, get_or-set_ne, take-IsBytes, drop-IsBytes, get_or-lt_byte, append-IsBytes,
  le_value-set, prefix-lt, reverse-IsBytes, all_bytes, all_bytes-IsBytes, bit_or_disjoint,
  bit_and_bit, zero, suc, ◌+◌, ◌-◌, ◌*◌, ◌/◌, ◌%◌, ◌^◌, ◌≤◌, ◌<◌, min, bit_and, bit_or, ◌≡◌, refl,
  sym, ap, ap₂, ◌∙◌, ◌≢◌, ◌↔◌, ◌⊎◌, inl, inr, Bool, true, false, not, ◌&&◌, ◌||◌, Option, none,
  some, List, [], ◌∷◌, ◌++◌, map, foldl, reverse, append_assoc, append-nil, arith,
}

abbrev pub end_response_type : ℕ
end_response_type = 35

abbrev pub max_skip : ℕ
max_skip = 3

-- `m_buffer.size()`.
abbrev pub buffer_size : ℕ
buffer_size = 4096

-- `remainingSize`, an `int`, as its 32 bits.
abbrev pub remaining_size : List ℕ → ℕ
remaining_size header = (header_size header + 2 ^ 32 - sizeof_header) % 2 ^ 32

abbrev pub is_positive : ℕ → Bool
is_positive n = ltb 0 n && ltb n (2 ^ 31)

pub record Reader : Type 0 where
  pub answers : List ReadAnswer
  pub asked : List ℕ

-- A call of `receiveAllData` on `m_buffer`.
pub record Filled : Type 0 where
  pub verdict : Verdict
  pub bytes : List ℕ
  pub reader : Reader

pub fill : Bool → ℕ → Reader → Filled
fill is_connected size reader =
    let received = receive_all_data is_connected reader.answers size in
    record {
      verdict = received.verdict;
      bytes = received.buffer;
      reader = record { answers = received.answers; asked = reader.asked ++ size ∷ [] };
    }

-- What follows the call, by its outcome.
abbrev pub when_filled {ℓ} :
    {A : Type ℓ} → (List ℕ → Reader → A) → (Reader → A) → (Reader → A) → Filled → A
when_filled whole lost blocked filled = elim filled.verdict [
  | done ↦ whole filled.bytes filled.reader
  | failed ↦ lost filled.reader
  | waiting ↦ blocked filled.reader
]

-- The loop that skips the rest of a packet in chunks. A round takes 4096 bytes unless it is the
-- last, so `remaining / 4096 + 1` rounds are enough.
pub record DrainedBytes : Type 0 where
  pub verdict : Verdict
  pub reader : Reader

pub drain_bytes : Bool → (rounds : ℕ) → (remaining : ℕ) → Reader → DrainedBytes
drain_bytes is_connected zero remaining reader = record { verdict = done; reader = reader }
drain_bytes is_connected (suc rounds) remaining reader =
    let chunk_size = min remaining buffer_size in
    let next : DrainedBytes =
      when_filled (λ bytes. drain_bytes is_connected rounds (remaining - chunk_size))
        (λ r. record { verdict = failed; reader = r })
        (λ r. record { verdict = waiting; reader = r }) (fill is_connected chunk_size reader) in
    if is_positive remaining then next else record { verdict = done; reader = reader }

abbrev pub when_drained {ℓ} :
    {A : Type ℓ} → (Reader → A) → (Reader → A) → (Reader → A) → DrainedBytes → A
when_drained after lost blocked drained = elim drained.verdict [
  | done ↦ after drained.reader
  | failed ↦ lost drained.reader
  | waiting ↦ blocked drained.reader
]

-- `result` when the call returns (`verdict` is `done`), and the reader.
pub record Packet : Type 0 where
  pub verdict : Verdict
  pub result : List ℕ
  pub reader : Reader

-- `T::type()` and `sizeof(T)`.
module _ (is_connected : Bool) (type size : ℕ) where
  abbrev pub nothing : Reader → Packet
  nothing reader = record { verdict = done; result = replicate size 0; reader = reader }

  abbrev pub blocked : Reader → Packet
  blocked reader = record { verdict = waiting; result = replicate size 0; reader = reader }

  -- After the header of a packet of the type: its contents go over zeros in `m_buffer`.
  pub receive_contents : ℕ → Reader → Packet
  receive_contents remaining reader =
      if remaining == 0
      then nothing reader
      else if is_positive remaining && ltb buffer_size remaining
      then nothing reader
      else when_filled
          (λ bytes r. record {
            verdict = done;
            result = take size (bytes ++ drop remaining (replicate size 0));
            reader = r;
          })
          nothing blocked (fill is_connected remaining reader)

  -- The header that was read, when it is of another type, goes to `other`.
  pub on_header : (List ℕ → Reader → Packet) → List ℕ → Reader → Packet
  on_header other header reader =
      if not (length header == sizeof_header)
      then nothing reader
      else if header_type header == end_response_type
      then nothing reader
      else if header_type header == type
      then receive_contents (remaining_size header) reader
      else other header reader

  pub on_answer : (List ℕ → Reader → Packet) → Option ReadAnswer → Reader → Packet
  on_answer other none reader = blocked reader
  on_answer other (some read_failed) reader = nothing reader
  on_answer other (some (chunk header)) reader = on_header other header reader

  pub on_next : (List ℕ → Reader → Packet) → Reader → Packet
  on_next other reader =
      let response = receive_response is_connected reader.answers in
      on_answer other response.answer (record reader { answers = response.answers })

  -- The rest of the packet with this header is read before what comes `after`.
  pub skip : (Reader → Packet) → List ℕ → Reader → Packet
  skip after header reader =
      let remaining = remaining_size header in
      when_drained after nothing blocked
        (drain_bytes is_connected (remaining / buffer_size + 1) remaining reader)

  -- The loop of `receivePacketWithHeaderAs`, with `skips` packets left to skip.
  pub receive_loop : (skips : ℕ) → Reader → Packet
  receive_loop zero = on_next (λ header reader. nothing reader)
  receive_loop (suc skips) = on_next (skip (receive_loop skips))

-- `receivePacketWithHeaderAs<T>`.
pub receive_packet : Bool → (type size : ℕ) → Reader → Packet
receive_packet is_connected type size = receive_loop is_connected type size max_skip

-- What `receivePacketAndExtraDataWithHeaderAs` returns, an `int` as its 32 bits, and what it leaves
-- in the caller's buffer. `verdict` is `failed` where the call asks for more bytes than `m_buffer`
-- holds: they are written behind its end, and what follows is not determined.
pub record ExtraData : Type 0 where
  pub verdict : Verdict
  pub code : ℕ
  pub buffer : List ℕ
  pub reader : Reader

-- `-1` as 32 bits.
abbrev pub minus_one : ℕ
minus_one = 2 ^ 32 - 1

module _ (is_connected : Bool) (type : ℕ) where
  abbrev pub gives : ℕ → Reader → ExtraData
  gives code reader = record { verdict = done; code = code; buffer = []; reader = reader }

  abbrev pub extra_blocked : Reader → ExtraData
  extra_blocked reader = record { verdict = waiting; code = 0; buffer = []; reader = reader }

  -- What `receiveAllData` on the caller's buffer leads to.
  pub extra_received : ℕ → Reader → Received → ExtraData
  extra_received remaining reader received =
      let whole : ExtraData = record {
        verdict = done;
        code = remaining;
        buffer = received.buffer;
        reader = record reader { answers = received.answers };
      } in
      elim received.verdict [
        | done ↦ whole
        | failed ↦ record whole { code = minus_one }
        | waiting ↦ record whole { verdict = waiting }
      ]

  -- The packet of the type goes to the caller's buffer, not to `m_buffer`.
  pub extra_contents : ℕ → Reader → ExtraData
  extra_contents remaining reader =
      if remaining == 0
      then gives 0 reader
      else extra_received remaining reader (receive_all_data is_connected reader.answers remaining)

  abbrev pub extra_overrun : ℕ → Reader → ExtraData
  extra_overrun remaining reader = record {
    verdict = failed;
    code = 0;
    buffer = [];
    reader = record reader { asked = reader.asked ++ remaining ∷ [] };
  }

  -- A packet of another type is read at once into `m_buffer`, and then what comes `after`.
  pub extra_skip : (Reader → ExtraData) → ℕ → Reader → ExtraData
  extra_skip after remaining reader =
      let filled =
        when_filled (λ bytes. after) (gives minus_one) extra_blocked
          (fill is_connected remaining reader) in
      if ltb buffer_size remaining then extra_overrun remaining reader else filled

  pub extra_header : (Reader → ExtraData) → List ℕ → Reader → ExtraData
  extra_header after header reader =
      let skipped = extra_skip after (remaining_size header) reader in
      if length header == 0
      then gives 0 reader
      else if not (length header == sizeof_header)
      then gives minus_one reader
      else if header_type header == end_response_type
      then gives minus_one reader
      else if header_type header == type
      then extra_contents (remaining_size header) reader
      else skipped

  pub extra_answer : (Reader → ExtraData) → Option ReadAnswer → Reader → ExtraData
  extra_answer after none reader = extra_blocked reader
  extra_answer after (some read_failed) reader = gives 0 reader
  extra_answer after (some (chunk header)) reader = extra_header after header reader

  -- The loop. A round uses up an answer.
  pub extra_loop : (rounds : ℕ) → Reader → ExtraData
  extra_loop zero reader = extra_blocked reader
  extra_loop (suc rounds) reader =
      let response = receive_response is_connected reader.answers in
      extra_answer (extra_loop rounds) response.answer
        (record reader { answers = response.answers })

  -- `receivePacketAndExtraDataWithHeaderAs<T>`: as many rounds as answers, and one that waits.
  pub receive_extra_data : Reader → ExtraData
  receive_extra_data reader = extra_loop (length reader.answers + 1) reader
