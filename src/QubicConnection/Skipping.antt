-- ===== src/QubicConnection/Skipping.antt =====
-- receivePacketWithHeaderAs of dispatcher/src/connection/qubic_connection.cpp: packets of other
-- types, and the packet that is looked for. The rest of a packet arrives in pieces of any size.
use doge_connect.Connection.{ReadAnswer, chunk, done, receive_response}
use doge_connect.Connection.Receive.{joined}
use doge_connect.Structs.{sizeof_header}
use doge_connect.Structs.Header.{header_type}
use doge_connect.QubicConnection.{
  Reader, Packet, when_drained, nothing, blocked, receive_contents, on_header, on_answer, on_next,
  skip, receive_loop, receive_packet, remaining_size, is_positive, buffer_size, end_response_type,
}
use doge_connect.QubicConnection.Drained.{
  Brings, Covers, arriving, sizes, fill-Brings, drain_bytes-Covers,
}
use doge_connect.Prelude.{
  ℕ, ltb, ◌==◌, Bool-cases, length, take, drop, replicate, All, zero, suc, ◌+◌, ◌/◌, ◌^◌, ◌≤◌, ◌<◌,
  ◌≡◌, refl, sym, ap, ◌∙◌, ◌≢◌, inl, inr, true, false, ◌&&◌, List, [], ◌∷◌, ◌++◌, map, arith,
}

module _ (type size : ℕ) where
  -- A packet of another type, and what its rest brings.
  abbrev pub IsForeign : List ℕ → List (List (List ℕ)) → Type 0
  IsForeign header parts =
      (length header ≡ sizeof_header)
      × (header_type header ≢ end_response_type)
      × (header_type header ≢ type)
      × (remaining_size header < 2 ^ 31)
      × Covers (remaining_size header) parts

  -- `n` packets of other types, and what arrives after them.
  unfoldable pub foreign_packets :
      List (List ℕ × List (List (List ℕ))) → List ReadAnswer → List ReadAnswer
  foreign_packets [] later = later
  foreign_packets (packet ∷ packets) later =
      chunk packet.0 ∷ arriving packet.1 (foreign_packets packets later)

  unfoldable pub foreign_sizes : List (List ℕ × List (List (List ℕ))) → List ℕ → List ℕ
  foreign_sizes [] asked = asked
  foreign_sizes (packet ∷ packets) asked = foreign_sizes packets (sizes packet.1 asked)

  skip-foreign :
      (after : Reader → Packet) (header : List ℕ) (parts : List (List (List ℕ)))
      (later : List ReadAnswer) (asked : List ℕ)
      → IsForeign header parts
      → on_next true type size
          (skip true type size after)
          (record { answers = chunk header ∷ arriving parts later; asked = asked })
        ≡ after (record { answers = later; asked = sizes parts asked })
  unfolding on_next on_answer on_header skip receive_response
  skip-foreign after header parts later asked (whole, not_end, other, small, covers) =
      let w : (length header == sizeof_header) ≡ true = ground arith in
      let e : (header_type header == end_response_type) ≡ false = ground arith in
      let t : (header_type header == type) ≡ false = ground arith in
      let d =
        drain_bytes-Covers (remaining_size header / buffer_size + 1) (remaining_size header) parts
          later asked small (omega arith) covers in
      rw (w, e, t) (ap (when_drained after (nothing true type size) (blocked true type size)) d)

  -- The rest of a packet of the type, where it fits.
  receive_contents-Brings :
      (remaining : ℕ) (pieces : List (List ℕ)) (later : List ReadAnswer) (asked : List ℕ)
      → 0 < remaining
      → remaining ≤ buffer_size
      → Brings remaining pieces
      → receive_contents true type size remaining
          (record { answers = map chunk pieces ++ later; asked = asked })
        ≡ record {
          verdict = done;
          result = take size (joined pieces ++ drop remaining (replicate size 0));
          reader = record { answers = later; asked = asked ++ remaining ∷ [] };
        }
  unfolding receive_contents
  receive_contents-Brings remaining pieces later asked some_left small brings =
      let z : (remaining == 0) ≡ false = ground arith in
      let l : (is_positive remaining && ltb buffer_size remaining) ≡ false = ground arith in
      rw (z, l, fill-Brings remaining pieces later asked brings) refl

  -- A header of the type, and the packet's size without it.
  abbrev pub IsWanted : List ℕ → Type 0
  IsWanted header =
      (length header ≡ sizeof_header)
      × (header_type header ≡ type)
      × (header_type header ≢ end_response_type)
      × (0 < remaining_size header)
      × (remaining_size header ≤ buffer_size)

  on_next-IsWanted :
      (other : List ℕ → Reader → Packet) (header : List ℕ) (rest : List ReadAnswer) (asked : List ℕ)
      → IsWanted header
      → on_next true type size other (record { answers = chunk header ∷ rest; asked = asked })
        ≡ receive_contents true type size
            (remaining_size header)
            (record { answers = rest; asked = asked })
  unfolding on_next on_answer on_header receive_response
  on_next-IsWanted other header rest asked (whole, same, not_end, some_left, fits) =
      let w : (length header == sizeof_header) ≡ true = ground arith in
      let e : (header_type header == end_response_type) ≡ false = ground arith in
      let t : (header_type header == type) ≡ true = ground arith in rw (w, e, t) refl

  found :
      (other : List ℕ → Reader → Packet) (header : List ℕ) (pieces : List (List ℕ))
      (later : List ReadAnswer) (asked : List ℕ)
      → IsWanted header
      → Brings (remaining_size header) pieces
      → on_next true type size other
          (record { answers = chunk header ∷ (map chunk pieces ++ later); asked = asked })
        ≡ record {
          verdict = done;
          result = take size (joined pieces ++ drop (remaining_size header) (replicate size 0));
          reader = record { answers = later; asked = asked ++ remaining_size header ∷ [] };
        }
  found other header pieces later asked wanted brings =
      on_next-IsWanted other header (map chunk pieces ++ later) asked wanted
      ∙ receive_contents-Brings (remaining_size header) pieces later asked wanted.3 wanted.4 brings

  receive_loop-finds :
      (skips : ℕ) (packets : List (List ℕ × List (List (List ℕ)))) (header : List ℕ)
      (pieces : List (List ℕ)) (later : List ReadAnswer) (asked : List ℕ)
      → All (λ packet. IsForeign packet.0 packet.1) packets
      → length packets ≤ skips
      → IsWanted header
      → Brings (remaining_size header) pieces
      → receive_loop true type size skips (record {
        answers = foreign_packets packets (chunk header ∷ (map chunk pieces ++ later));
        asked = asked;
      })
        ≡ record {
          verdict = done;
          result = take size (joined pieces ++ drop (remaining_size header) (replicate size 0));
          reader = record {
            answers = later;
            asked = foreign_sizes packets asked ++ remaining_size header ∷ [];
          };
        }
  unfolding receive_loop foreign_packets foreign_sizes
  receive_loop-finds zero [] header pieces later asked foreign few wanted brings =
      found (λ header reader. nothing true type size reader) header pieces later asked wanted brings
  receive_loop-finds (suc skips) [] header pieces later asked foreign few wanted brings =
      found (skip true type size (receive_loop true type size skips)) header pieces later asked
        wanted brings
  receive_loop-finds zero (packet ∷ packets) header pieces later asked foreign few wanted brings =
      absurd (omega arith)
  receive_loop-finds (suc skips) (packet ∷ packets) header pieces later asked (here, foreign) few
        wanted brings =
      skip-foreign (receive_loop true type size skips) packet.0 packet.1
        (foreign_packets packets (chunk header ∷ (map chunk pieces ++ later))) asked here
      ∙ receive_loop-finds skips packets header pieces later (sizes packet.1 asked) foreign
          (omega arith) wanted brings

  -- Up to three packets of other types, but for the one of type 35, which state a size of at least
  -- the 8 bytes of the header, are skipped whole, and the first `size` bytes of the next packet, when
  -- it is of the type, not empty and at most 4096 bytes long, are the result, with zeros after its
  -- end. Nothing after it is read. Each header comes with one read, the rest of a packet in any
  -- pieces.
  pub receive_packet-finds :
      (packets : List (List ℕ × List (List (List ℕ)))) (header : List ℕ) (pieces : List (List ℕ))
      (later : List ReadAnswer) (asked : List ℕ)
      → All (λ packet. IsForeign packet.0 packet.1) packets
      → length packets ≤ 3
      → IsWanted header
      → Brings (remaining_size header) pieces
      → receive_packet true type size (record {
        answers = foreign_packets packets (chunk header ∷ (map chunk pieces ++ later));
        asked = asked;
      })
        ≡ record {
          verdict = done;
          result = take size (joined pieces ++ drop (remaining_size header) (replicate size 0));
          reader = record {
            answers = later;
            asked = foreign_sizes packets asked ++ remaining_size header ∷ [];
          };
        }
  unfolding receive_packet
  receive_packet-finds = receive_loop-finds 3

  receive_loop-gives_up :
      (packets : List (List ℕ × List (List (List ℕ)))) (header : List ℕ) (later : List ReadAnswer)
      (asked : List ℕ)
      → All (λ packet. IsForeign packet.0 packet.1) packets
      → length header ≡ sizeof_header
      → header_type header ≢ type
      → receive_loop true type size
          (length packets)
          (record { answers = foreign_packets packets (chunk header ∷ later); asked = asked })
        ≡ nothing true type size (record { answers = later; asked = foreign_sizes packets asked })
  unfolding receive_loop foreign_packets foreign_sizes on_next on_answer on_header receive_response
  receive_loop-gives_up [] header later asked foreign whole other =
      let w : (length header == sizeof_header) ≡ true = ground arith in
      let t : (header_type header == type) ≡ false = ground arith in
      elim (Bool-cases (header_type header == end_response_type)) [
        | inl e ↦ rw (w, e) refl
        | inr e ↦ rw (w, e, t) refl
      ]
  receive_loop-gives_up (packet ∷ packets) header later asked (here, foreign) whole other =
      skip-foreign (receive_loop true type size (length packets)) packet.0 packet.1
        (foreign_packets packets (chunk header ∷ later)) asked here
      ∙ receive_loop-gives_up packets header later (sizes packet.1 asked) foreign whole other

  -- The header of a fourth packet of another type ends the call, with a result of zeros.
  pub receive_packet-gives_up :
      (packets : List (List ℕ × List (List (List ℕ)))) (header : List ℕ) (later : List ReadAnswer)
      (asked : List ℕ)
      → All (λ packet. IsForeign packet.0 packet.1) packets
      → length packets ≡ 3
      → length header ≡ sizeof_header
      → header_type header ≢ type
      → receive_packet true type size
          (record { answers = foreign_packets packets (chunk header ∷ later); asked = asked })
        ≡ record {
          verdict = done;
          result = replicate size 0;
          reader = record { answers = later; asked = foreign_sizes packets asked };
        }
  unfolding receive_packet
  receive_packet-gives_up packets header later asked foreign three whole other =
      rw (sym three) (receive_loop-gives_up packets header later asked foreign whole other)
