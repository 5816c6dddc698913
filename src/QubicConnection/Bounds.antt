-- ===== src/QubicConnection/Bounds.antt =====
-- What dispatcher/src/connection/qubic_connection.cpp writes to the 4096 bytes of m_buffer.
use doge_connect.Connection.{
  ReadAnswer, read_failed, chunk, done, failed, waiting, receive_response,
}
use doge_connect.Connection.Left.{receive_all_data-left, receive_response-left}
use doge_connect.Structs.{sizeof_header}
use doge_connect.Structs.Header.{header_size, header_type, header_size-bounds}
use doge_connect.QubicConnection.{
  Reader, Filled, fill, when_filled, DrainedBytes, drain_bytes, Packet, when_drained, nothing,
  blocked, receive_contents, on_header, on_answer, on_next, skip, receive_loop, receive_packet,
  remaining_size, is_positive, buffer_size, end_response_type,
}
use doge_connect.Prelude.{
  ℕ, ltb, ◌==◌, Bool-cases, length, take, drop, replicate, All, All-append, zero, suc, ◌+◌, ◌-◌,
  ◌/◌, ◌≤◌, min, ◌≡◌, inl, inr, Bool, true, false, ◌&&◌, Option, none, some, List, [], ◌∷◌, ◌++◌,
  arith,
}

-- Eight bytes that are read as a header state a size of at least those eight.
unfoldable pub IsSane : ReadAnswer → Type 0
IsSane read_failed = Unit
IsSane (chunk header) = length header ≡ sizeof_header → sizeof_header ≤ header_size header

-- All that was asked for fits into `m_buffer`.
unfoldable pub Fits : Reader → Type 0
Fits reader = All IsSane reader.answers × All (λ n. n ≤ buffer_size) reader.asked

to_list : Option ReadAnswer → List ReadAnswer
to_list none = []
to_list (some answer) = answer ∷ []

receive_response-IsSane :
    (is_connected : Bool) (answers : List ReadAnswer)
    → All IsSane answers
    → All IsSane (to_list (receive_response is_connected answers).answer)
unfolding receive_response IsSane to_list
receive_response-IsSane false answers sane = (tt, tt)
receive_response-IsSane true [] sane = tt
receive_response-IsSane true (answer ∷ answers) sane = (sane.0, tt)

module _ (is_connected : Bool) where
  -- Whatever follows a call keeps what each continuation keeps.
  when_filled-keeps :
      {A : Type 0} (Q : A → Type 0) (whole : List ℕ → Reader → A) (lost waits : Reader → A)
      (filled : Filled)
      → Q (whole filled.bytes filled.reader)
      → Q (lost filled.reader)
      → Q (waits filled.reader)
      → Q (when_filled whole lost waits filled)
  when_filled-keeps Q whole lost waits filled w l b =
      elim filled.verdict
        as (λ v. Q (elim v [
          | done ↦ whole filled.bytes filled.reader
          | failed ↦ lost filled.reader
          | waiting ↦ waits filled.reader
        ])) [ done ↦ w | failed ↦ l | waiting ↦ b ]

  when_drained-keeps :
      {A : Type 0} (Q : A → Type 0) (after lost waits : Reader → A) (drained : DrainedBytes)
      → Q (after drained.reader)
      → Q (lost drained.reader)
      → Q (waits drained.reader)
      → Q (when_drained after lost waits drained)
  when_drained-keeps Q after lost waits drained w l b =
      elim drained.verdict
        as (λ v. Q (elim v [
          | done ↦ after drained.reader
          | failed ↦ lost drained.reader
          | waiting ↦ waits drained.reader
        ])) [ done ↦ w | failed ↦ l | waiting ↦ b ]

  fill-Fits :
      (size : ℕ) (reader : Reader)
      → size ≤ buffer_size
      → Fits reader
      → Fits (fill is_connected size reader).reader
  unfolding fill Fits
  fill-Fits size reader small (sane, fits) = (
    receive_all_data-left IsSane is_connected reader.answers size sane,
    All-append (λ n. n ≤ buffer_size) reader.asked (size ∷ []) fits (small, tt),
  )

  drain_bytes-Fits :
      (rounds remaining : ℕ) (reader : Reader)
      → Fits reader
      → Fits (drain_bytes is_connected rounds remaining reader).reader
  unfolding drain_bytes
  drain_bytes-Fits zero remaining reader fits = fits
  drain_bytes-Fits (suc rounds) remaining reader fits =
      let size = min remaining buffer_size in
      let filled = fill is_connected size reader in
      let fits' : Fits filled.reader = fill-Fits size reader (omega arith) fits in
      let ih = drain_bytes-Fits rounds (remaining - size) filled.reader fits' in
      elim (Bool-cases (is_positive remaining)) [
        | inr e ↦ rw e fits
        | inl e ↦ rw e (
            when_filled-keeps (λ (d : DrainedBytes). Fits d.reader)
              (λ bytes. drain_bytes is_connected rounds (remaining - size))
              (λ r. record { verdict = failed; reader = r })
              (λ r. record { verdict = waiting; reader = r }) filled ih fits' fits')
      ]

  module _ (type size : ℕ) where
    receive_contents-Fits :
        (header : List ℕ) (reader : Reader)
        → sizeof_header ≤ header_size header
        → Fits reader
        → Fits (receive_contents is_connected type size (remaining_size header) reader).reader
    unfolding receive_contents
    receive_contents-Fits header reader sane fits =
        let r = remaining_size header in
        let bounds = header_size-bounds header in
        elim (Bool-cases (r == 0)) [
          | inl z ↦ rw z fits
          | inr z ↦ elim (Bool-cases (is_positive r && ltb buffer_size r)) [
            | inl l ↦ rw (z, l) fits
            | inr l ↦
                let small : r ≤ buffer_size = ground arith in
                let f = fill-Fits r reader small fits in
                rw (z, l)
                  (when_filled-keeps (λ (d : Packet). Fits d.reader)
                    (λ bytes r'. record {
                      verdict = done;
                      result = take size (bytes ++ drop r (replicate size 0));
                      reader = r';
                    })
                    (nothing is_connected type size) (blocked is_connected type size)
                    (fill is_connected r reader) f f f)
          ]
        ]

    abbrev Keeps : (Reader → Packet) → Type 0
    Keeps call = (reader : Reader) → Fits reader → Fits (call reader).reader

    on_header-Keeps :
        (other : List ℕ → Reader → Packet) (header : List ℕ)
        → IsSane (chunk header)
        → Keeps (other header)
        → Keeps (on_header is_connected type size other header)
    unfolding on_header IsSane
    on_header-Keeps other header sane keeps reader fits =
        elim (Bool-cases (length header == sizeof_header)) [
          | inr w ↦ rw w fits
          | inl w ↦ elim (Bool-cases (header_type header == end_response_type)) [
            | inl e ↦ rw (w, e) fits
            | inr e ↦ elim (Bool-cases (header_type header == type)) [
              | inr t ↦ rw (w, e, t) (keeps reader fits)
              | inl t ↦
                  let whole : length header ≡ sizeof_header = ground arith in
                  rw (w, e, t) (receive_contents-Fits header reader (sane whole) fits)
            ]
          ]
        ]

    on_answer-Keeps :
        (other : List ℕ → Reader → Packet) (answer : Option ReadAnswer)
        → All IsSane (to_list answer)
        → ((header : List ℕ) → Keeps (other header))
        → Keeps (on_answer is_connected type size other answer)
    unfolding on_answer to_list
    on_answer-Keeps other none sane keeps reader fits = fits
    on_answer-Keeps other (some read_failed) sane keeps reader fits = fits
    on_answer-Keeps other (some (chunk header)) sane keeps reader fits =
        on_header-Keeps other header sane.0 (keeps header) reader fits

    on_next-Keeps :
        (other : List ℕ → Reader → Packet)
        → ((header : List ℕ) → Keeps (other header))
        → Keeps (on_next is_connected type size other)
    unfolding on_next Fits
    on_next-Keeps other keeps reader (sane, fits) =
        let response = receive_response is_connected reader.answers in
        on_answer-Keeps other response.answer
          (receive_response-IsSane is_connected reader.answers sane) keeps
          (record reader { answers = response.answers })
          (receive_response-left IsSane is_connected reader.answers sane, fits)

    skip-Keeps :
        (after : Reader → Packet) (header : List ℕ)
        → Keeps after
        → Keeps (skip is_connected type size after header)
    unfolding skip
    skip-Keeps after header keeps reader fits =
        let r = remaining_size header in
        let drained = drain_bytes is_connected (r / buffer_size + 1) r reader in
        let f = drain_bytes-Fits (r / buffer_size + 1) r reader fits in
        when_drained-keeps (λ (d : Packet). Fits d.reader) after (nothing is_connected type size)
          (blocked is_connected type size) drained (keeps drained.reader f) f f

    receive_loop-Keeps : (skips : ℕ) → Keeps (receive_loop is_connected type size skips)
    unfolding receive_loop
    receive_loop-Keeps zero =
        on_next-Keeps (λ header reader. nothing is_connected type size reader)
          (λ header reader fits. fits)
    receive_loop-Keeps (suc skips) =
        on_next-Keeps (skip is_connected type size (receive_loop is_connected type size skips))
          (λ header.
            skip-Keeps (receive_loop is_connected type size skips) header
              (receive_loop-Keeps skips))

-- When no read brings eight bytes that, taken for a header, state a size below eight, be they a
-- header or not, a call never has more bytes written to `m_buffer` than it holds, wherever the stream
-- ends, and also while packets of other types are skipped.
pub receive_packet-Fits :
    (is_connected : Bool) (type size : ℕ) (answers : List ReadAnswer)
    → All IsSane answers
    → All
        (λ n. n ≤ buffer_size)
        (receive_packet is_connected type size
          (record { answers = answers; asked = [] })).reader.asked
unfolding receive_packet Fits
receive_packet-Fits is_connected type size answers sane =
    (receive_loop-Keeps is_connected type size 3 (record { answers = answers; asked = [] })
      (sane, tt)).1
