-- ===== src/QubicConnection/Tests.antt =====
-- Packets that arrive in pieces, and a connection that is opened.
use doge_connect.Connection.{read_failed, chunk, done, ReadAnswer, send_failed}
use doge_connect.Connection.Receive.{joined}
use doge_connect.Structs.Header.{header_size, header_type, make_header}
use doge_connect.QubicConnection.{
  remaining_size, buffer_size, receive_packet, receive_extra_data, extra_loop,
}
use doge_connect.QubicConnection.Skipping.{
  foreign_packets, foreign_sizes, IsForeign, IsWanted, receive_packet-finds,
  receive_packet-gives_up,
}
use doge_connect.QubicConnection.Drained.{Brings, Covers}
use doge_connect.QubicConnection.Bounds.{IsSane, receive_packet-Fits}
use doge_connect.QubicConnection.Open.{Network, in_progress, open_qubic_connection, reconnect}
use doge_connect.QubicConnection.Opening.{
  Opens, open_qubic_connection-Opens, reconnect-open_qubic_connection,
}
use doge_connect.Prelude.{
  ℕ, take, drop, replicate, le_value, ◌≡◌, refl, true, List, [], ◌∷◌, ◌++◌, map, arith, All, ◌≤◌,
  false,
}
use doge_connect.QubicConnection.Extra
use doge_connect.QubicConnection.Rounds.{receive_extra_data-rounds}

-- A packet of type 68 with three bytes, and one of type 0 with four.
abbrev other_header : List ℕ
other_header = 11 ∷ 0 ∷ 0 ∷ 68 ∷ 0 ∷ 0 ∷ 0 ∷ 0 ∷ []

abbrev wanted_header : List ℕ
wanted_header = 12 ∷ 0 ∷ 0 ∷ 0 ∷ 0 ∷ 0 ∷ 0 ∷ 0 ∷ []

abbrev other_parts : List (List (List ℕ))
other_parts = ((1 ∷ []) ∷ (2 ∷ 3 ∷ []) ∷ []) ∷ []

abbrev wanted_pieces : List (List ℕ)
wanted_pieces = (10 ∷ 0 ∷ 0 ∷ []) ∷ (1 ∷ []) ∷ []

other-Covers : Covers (remaining_size other_header) other_parts
unfolding Covers Brings header_size le_value joined
other-Covers = (omega arith, ((omega arith, (omega arith, tt)), refl), refl)

other_header-IsForeign : IsForeign 0 16 other_header other_parts
unfolding header_type header_size le_value
other_header-IsForeign = (refl, omega arith, omega arith, omega arith, other-Covers)

wanted-Brings : Brings (remaining_size wanted_header) wanted_pieces
unfolding Brings header_size le_value joined
wanted-Brings = ((omega arith, (omega arith, tt)), refl)

wanted_header-IsWanted : IsWanted 0 16 wanted_header
unfolding header_type header_size le_value
wanted_header-IsWanted = (refl, refl, omega arith, omega arith, omega arith)

receive_packet-finds_example :
    receive_packet true 0 16 (record {
      answers =
          foreign_packets 0 16
            ((other_header, other_parts) ∷ [])
            (chunk wanted_header ∷ (map chunk wanted_pieces ++ read_failed ∷ []));
      asked = [];
    })
    ≡ record {
      verdict = done;
      result =
          take 16 (joined wanted_pieces ++ drop (remaining_size wanted_header) (replicate 16 0));
      reader = record {
        answers = read_failed ∷ [];
        asked =
            foreign_sizes 0 16 ((other_header, other_parts) ∷ []) []
            ++ remaining_size wanted_header ∷ [];
      };
    }
receive_packet-finds_example =
    receive_packet-finds 0 16 ((other_header, other_parts) ∷ []) wanted_header wanted_pieces
      (read_failed ∷ []) [] (other_header-IsForeign, tt) (omega arith) wanted_header-IsWanted
      wanted-Brings

abbrev three_others : List (List ℕ × List (List (List ℕ)))
three_others =
    (other_header, other_parts) ∷ (other_header, other_parts) ∷ (other_header, other_parts) ∷ []

fourth_packet_refused :
    receive_packet true 0 16 (record {
      answers = foreign_packets 0 16 three_others (chunk other_header ∷ read_failed ∷ []);
      asked = [];
    })
    ≡ record {
      verdict = done;
      result = replicate 16 0;
      reader = record { answers = read_failed ∷ []; asked = foreign_sizes 0 16 three_others [] };
    }
unfolding header_type
fourth_packet_refused =
    receive_packet-gives_up 0 16 three_others other_header (read_failed ∷ []) []
      (other_header-IsForeign, (other_header-IsForeign, (other_header-IsForeign, tt))) refl refl
      (omega arith)

-- A header of 9000 bytes, and then the end of the stream.
abbrev cut_short : List ReadAnswer
cut_short = chunk (make_header 9000 68) ∷ chunk (1 ∷ 2 ∷ []) ∷ chunk [] ∷ []

cut_short-IsSane : All IsSane cut_short
unfolding IsSane make_header header_size le_value
cut_short-IsSane =
    ((λ e. omega arith), ((λ e. absurd (omega arith)), ((λ e. absurd (omega arith)), tt)))

receive_packet-Fits_example :
    All
      (λ n. n ≤ buffer_size)
      (receive_packet true 0 16 (record { answers = cut_short; asked = [] })).reader.asked
receive_packet-Fits_example = receive_packet-Fits true 0 16 cut_short cut_short-IsSane

abbrev one_other : List (List ℕ × List (List ℕ))
one_other = (other_header, (1 ∷ []) ∷ (2 ∷ 3 ∷ []) ∷ []) ∷ []

enough_rounds :
    extra_loop true 0 7 (record { answers = cut_short; asked = [] })
    ≡ receive_extra_data true 0 (record { answers = cut_short; asked = [] })
enough_rounds =
    receive_extra_data-rounds true 0 7 (record { answers = cut_short; asked = [] }) (omega arith)

-- A node that accepts the connection but resets it when the handshake is sent.
abbrev resetting : Network
resetting = record {
  is_address = true;
  connect_answer = in_progress;
  is_writable = true;
  has_error = false;
  reads = read_failed ∷ [];
  writes = send_failed ∷ [];
}

abbrev loopback : List ℕ
loopback = 49 ∷ 50 ∷ 55 ∷ 46 ∷ 48 ∷ 46 ∷ 48 ∷ 46 ∷ 49 ∷ []

open_qubic_connection-Opens_example :
    Opens resetting loopback 21841 (open_qubic_connection resetting loopback 21841)
open_qubic_connection-Opens_example = open_qubic_connection-Opens resetting loopback 21841

tries_again :
    reconnect resetting (open_qubic_connection resetting loopback 21841).connection
    ≡ open_qubic_connection resetting loopback 21841
tries_again =
    reconnect-open_qubic_connection resetting resetting loopback 21841 (omega arith) (omega arith)
