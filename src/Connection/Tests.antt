-- ===== src/Connection/Tests.antt =====
-- Sending and receiving in pieces.
use doge_connect.Connection.{
  SendAnswer, send_failed, accepted, done, send_message, ReadAnswer, chunk, receive_all_data,
}
use doge_connect.Connection.Send.{Partial, total, send_message-Partial, send_message-done}
use doge_connect.Connection.Receive
use doge_connect.Connection.Receive.{Fits, joined, receive_all_data-Ends, receive_all_data-done}
use doge_connect.Connection.Sockets.{Process, from_raw, socket_step, move_assign}
use doge_connect.Connection.Ownership.{IsOwned, owners}
use doge_connect.Connection.Steps.{IsAllowed, Keeps, socket_step-Keeps}
use doge_connect.Prelude.{
  ℕ, ◌==◌, Bool-cases, ◌≡◌, refl, inl, inr, true, ◌||◌, some, List, [], ◌∷◌, ◌++◌, map, arith,
}

-- `mine` and a newline, of which the socket takes two bytes and then fails.
abbrev message : List ℕ
message = 109 ∷ 105 ∷ 110 ∷ 101 ∷ 10 ∷ []

abbrev lost : List SendAnswer
lost = accepted 2 ∷ send_failed ∷ accepted 3 ∷ []

send_message-Partial_example : Partial message (send_message true lost message)
send_message-Partial_example = send_message-Partial lost message

two_pieces_sent :
    send_message true (map accepted (2 ∷ 3 ∷ []) ++ (send_failed ∷ [])) message
    ≡ record { verdict = done; is_connected = true; taken = message; answers = send_failed ∷ [] }
unfolding total
two_pieces_sent =
    send_message-done (2 ∷ 3 ∷ []) (send_failed ∷ []) message (omega arith, (omega arith, tt)) refl

abbrev pieces : List (List ℕ)
pieces = (1 ∷ 2 ∷ []) ∷ (3 ∷ []) ∷ []

abbrev ending : List ReadAnswer
ending = chunk (1 ∷ 2 ∷ []) ∷ chunk [] ∷ []

ending-Fits : Fits 3 ending
unfolding Fits
ending-Fits = (omega arith, (omega arith, tt))

ended_early : Receive.Ends 3 (receive_all_data true ending 3)
ended_early = receive_all_data-Ends ending 3 ending-Fits

read_in_order :
    receive_all_data true (map chunk pieces ++ ending) 3
    ≡ record { verdict = done; buffer = joined pieces; answers = ending }
unfolding joined
read_in_order = receive_all_data-done pieces ending 3 (omega arith, (omega arith, tt)) refl

-- Two sockets, of which the second one's descriptor moves to the first, in place of its own.
abbrev holders : Process
holders = record {
  sockets = from_raw (some 3) ∷ from_raw (some 4) ∷ [];
  is_open = λ fd. fd == 3 || fd == 4;
}

holders-IsOwned : IsOwned holders
unfolding IsOwned owners
holders-IsOwned fd = elim (Bool-cases (fd == 3)) [
  | inl three ↦ let e : fd ≡ 3 = ground arith in rw e refl
  | inr other ↦ elim (Bool-cases (fd == 4)) [
    | inl four ↦ let e : fd ≡ 4 = ground arith in rw e refl
    | inr neither ↦ rw (other, neither) refl
  ]
]

socket_step-Keeps_example : Keeps (socket_step (move_assign 0 1) holders)
unfolding IsAllowed
socket_step-Keeps_example =
    socket_step-Keeps (move_assign 0 1) holders (omega arith) holders-IsOwned
