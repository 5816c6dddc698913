-- ===== src/QubicConnection/Extra.antt =====
-- receivePacketAndExtraDataWithHeaderAs of dispatcher/src/connection/qubic_connection.cpp: packets
-- of other types, and the packet that is looked for.
use doge_connect.Prelude.{ℕ, length, ◌≤◌, ◌≡◌, ◌≢◌, List, [], ◌∷◌, ◌++◌, map}
use doge_connect.Connection.{ReadAnswer, chunk}
use doge_connect.Structs.{sizeof_header}
use doge_connect.Structs.Header.{header_type}
use doge_connect.QubicConnection.{buffer_size, remaining_size, end_response_type}
use doge_connect.QubicConnection.Drained.{Brings}

module _ (type : ℕ) where
  -- A packet of another type that `m_buffer` holds, and the pieces in which its rest arrives.
  abbrev pub IsForeign : List ℕ → List (List ℕ) → Type 0
  IsForeign header pieces =
      (length header ≡ sizeof_header)
      × (header_type header ≢ end_response_type)
      × (header_type header ≢ type)
      × (remaining_size header ≤ buffer_size)
      × Brings (remaining_size header) pieces

  unfoldable pub foreign_packets : List (List ℕ × List (List ℕ)) → List ReadAnswer → List ReadAnswer
  foreign_packets [] later = later
  foreign_packets (packet ∷ packets) later =
      chunk packet.0 ∷ (map chunk packet.1 ++ foreign_packets packets later)

  unfoldable pub foreign_sizes : List (List ℕ × List (List ℕ)) → List ℕ → List ℕ
  foreign_sizes [] asked = asked
  foreign_sizes (packet ∷ packets) asked =
      foreign_sizes packets (asked ++ remaining_size packet.0 ∷ [])
