-- ===== src/Connection.antt =====
-- dispatcher/src/connection/connection.{h,cpp}. What the system's `send` and `read` answer is an
-- input: a list of the answers to the calls, in their order. Where the list ends, the call that
-- would be next is still blocked.
pub mod Send
pub mod Receive
pub mod Left
pub mod Sockets
pub mod Ownership
pub mod Steps
mod Tests
use doge_connect.Prelude.{
  ℕ, ltb, leb, ◌==◌, if◌then◌else◌, ltb→lt, lt→ltb, leb→le, ==_iff, tests, Bool-cases, Option-cases,
  ◌>>=◌, length, get_elem?, set, length-append, length-set, get_elem?-set_self, get_elem?-set_ne,
  get_or, take, drop, replicate, take-append-drop, length-take, length-drop, take-all,
  length-reverse, take-append, drop-append, drop-drop, take-append_le, drop-append_le, get_or-drop,
  length-replicate, length-map, All, All-append, IsBytes, le_value, to_le, le_value-nil,
  le_value-cons, length-to_le, to_le-IsBytes, le_value-lt, le_value-lt_pow, le_value-to_le,
  to_le-le_value, le_value-append, le_value-take-suc, le_value-take-add, le_value-replicate,
  get_or-replicate, get_or-set_ne, take-IsBytes, drop-IsBytes, get_or-lt_byte, append-IsBytes,
  le_value-set, prefix-lt, reverse-IsBytes, all_bytes, all_bytes-IsBytes, bit_or_disjoint,
  bit_and_bit, zero, suc, ◌+◌, ◌-◌, ◌*◌, ◌/◌, ◌%◌, ◌^◌, ◌≤◌, ◌<◌, min, bit_and, bit_or, ◌≡◌, refl,
  sym, ap, ap₂, ◌∙◌, ◌≢◌, ◌↔◌, ◌⊎◌, inl, inr, Bool, true, false, not, ◌&&◌, ◌||◌, Option, none,
  some, List, [], ◌∷◌, ◌++◌, map, foldl, reverse, append_assoc, append-nil, arith,
}

-- `-1`, or how many of the bytes were taken.
pub data SendAnswer : Type 0 where
  send_failed : SendAnswer
  accepted : ℕ → SendAnswer

-- The bytes that were read, none at the end of the stream; or `-1`.
pub data ReadAnswer : Type 0 where
  read_failed : ReadAnswer
  chunk : List ℕ → ReadAnswer

pub data Verdict : Type 0 where
  done failed waiting : Verdict

-- What a call of `sendMessage` leaves: whether the socket counts as connected, the bytes that the
-- system took, and the answers that were not used.
pub record Sent : Type 0 where
  pub verdict : Verdict
  pub is_connected : Bool
  pub taken : List ℕ
  pub answers : List SendAnswer

-- The loop of `sendMessage` from `total_sent` on. `taken` are the bytes before it.
pub send_loop : List SendAnswer → (total_sent : ℕ) → (taken message : List ℕ) → Sent
send_loop [] total_sent taken message =
    if ltb total_sent (length message)
    then record { verdict = waiting; is_connected = true; taken = taken; answers = [] }
    else record { verdict = done; is_connected = true; taken = taken; answers = [] }
send_loop (answer ∷ answers) total_sent taken message =
    let finished : Sent = record {
      verdict = done;
      is_connected = true;
      taken = taken;
      answers = answer ∷ answers;
    } in
    elim answer [
      | send_failed ↦
          if ltb total_sent (length message)
          then record { verdict = failed; is_connected = false; taken = taken; answers = answers }
          else finished
      | accepted sent ↦
          let more =
            send_loop answers (total_sent + sent) (taken ++ take sent (drop total_sent message))
              message in
          if ltb total_sent (length message) then more else finished
    ]

-- `sendMessage`, of text and of a buffer.
pub send_message : Bool → List SendAnswer → List ℕ → Sent
send_message is_connected answers message =
    if not is_connected
    then record { verdict = failed; is_connected = false; taken = []; answers = answers }
    else send_loop answers 0 [] message

-- What a call of `receiveAllData` leaves: the buffer from its beginning, as far as it was written.
pub record Received : Type 0 where
  pub verdict : Verdict
  pub buffer : List ℕ
  pub answers : List ReadAnswer

-- The loop of `receiveAllData`: `recvBytesTotal` is the length of what the buffer holds.
pub receive_loop : List ReadAnswer → (size : ℕ) → (buffer : List ℕ) → Received
receive_loop [] size buffer =
    if ltb (length buffer) size
    then record { verdict = waiting; buffer = buffer; answers = [] }
    else record { verdict = done; buffer = buffer; answers = [] }
receive_loop (answer ∷ answers) size buffer =
    let finished : Received = record {
      verdict = done;
      buffer = buffer;
      answers = answer ∷ answers;
    } in
    let lost : Received = record { verdict = failed; buffer = buffer; answers = answers } in
    elim answer [
      | read_failed ↦ if ltb (length buffer) size then lost else finished
      | chunk bytes ↦
          let more = receive_loop answers size (buffer ++ bytes) in
          if ltb (length buffer) size then if length bytes == 0 then lost else more else finished
    ]

-- `receiveAllData`.
pub receive_all_data : Bool → List ReadAnswer → ℕ → Received
receive_all_data is_connected answers size =
    if not is_connected
    then record { verdict = failed; buffer = []; answers = answers }
    else receive_loop answers size []

-- `receiveResponse(buffer, size)`: one call of `read`; `read_failed` also stands for the -1 of a
-- socket that is not connected.
pub record Response : Type 0 where
  pub answer : Option ReadAnswer
  pub answers : List ReadAnswer

unfoldable pub receive_response : Bool → List ReadAnswer → Response
receive_response false answers = record { answer = some read_failed; answers = answers }
receive_response true [] = record { answer = none; answers = [] }
receive_response true (answer ∷ answers) = record { answer = some answer; answers = answers }
