-- ===== src/QubicConnection/Rounds.antt =====
-- The rounds of the loop of receivePacketAndExtraDataWithHeaderAs in
-- dispatcher/src/connection/qubic_connection.cpp.
use doge_connect.Prelude.{
  ℕ, length, zero, suc, ◌+◌, ◌≤◌, ◌<◌, ◌≡◌, refl, ap, Bool, true, false, Option, none, some, List,
  [], ◌∷◌, arith, ltb, if◌then◌else◌,
}
use doge_connect.Connection.{ReadAnswer, read_failed, chunk, receive_response}
use doge_connect.Connection.Left.{receive_all_data-length}
use doge_connect.QubicConnection.{
  buffer_size, extra_overrun, Reader, fill, when_filled, ExtraData, minus_one, gives, extra_blocked,
  extra_skip, extra_header, extra_answer, extra_loop, receive_extra_data, remaining_size,
}

module _ (is_connected : Bool) (type : ℕ) where
  -- Two continuations that agree on what is left are as good as each other.
  extra_skip-agree :
      (f g : Reader → ExtraData) (remaining : ℕ) (reader : Reader)
      → ((r : Reader) → length r.answers ≤ length reader.answers → f r ≡ g r)
      → extra_skip is_connected type f remaining reader
        ≡ extra_skip is_connected type g remaining reader
  unfolding extra_skip fill
  extra_skip-agree f g remaining reader agree =
      ap
        (λ (e : ExtraData).
          if ltb buffer_size remaining
          then extra_overrun is_connected type remaining reader
          else when_filled (λ bytes r. e) (gives is_connected type minus_one)
              (extra_blocked is_connected type) (fill is_connected remaining reader))
        (agree (fill is_connected remaining reader).reader
          (receive_all_data-length is_connected reader.answers remaining))

  extra_header-agree :
      (f g : Reader → ExtraData) (header : List ℕ) (reader : Reader)
      → ((r : Reader) → length r.answers ≤ length reader.answers → f r ≡ g r)
      → extra_header is_connected type f header reader
        ≡ extra_header is_connected type g header reader
  unfolding extra_header
  extra_header-agree f g header reader agree =
      rw (extra_skip-agree f g (remaining_size header) reader agree) refl

  extra_answer-agree :
      (f g : Reader → ExtraData) (answer : Option ReadAnswer) (reader : Reader)
      → ((r : Reader) → length r.answers ≤ length reader.answers → f r ≡ g r)
      → extra_answer is_connected type f answer reader
        ≡ extra_answer is_connected type g answer reader
  unfolding extra_answer
  extra_answer-agree f g none reader agree = refl
  extra_answer-agree f g (some read_failed) reader agree = refl
  extra_answer-agree f g (some (chunk header)) reader agree =
      extra_header-agree f g header reader agree

-- A round of the loop, by what is read.
round-agree :
    (is_connected : Bool) (type : ℕ) (answers : List ReadAnswer) (asked : List ℕ)
    (f g : Reader → ExtraData)
    → ((r : Reader) → length r.answers < length answers → f r ≡ g r)
    → extra_answer is_connected type f
        (receive_response is_connected answers).answer
        (record { answers = (receive_response is_connected answers).answers; asked = asked })
      ≡ extra_answer is_connected type g
          (receive_response is_connected answers).answer
          (record { answers = (receive_response is_connected answers).answers; asked = asked })
unfolding receive_response extra_answer
round-agree false type answers asked f g agree = refl
round-agree true type [] asked f g agree = refl
round-agree true type (answer ∷ answers) asked f g agree =
    extra_answer-agree true type f g (some answer) (record { answers = answers; asked = asked })
      (λ r h. agree r (omega arith))

extra_loop-agree :
    (is_connected : Bool) (type n m : ℕ) (reader : Reader)
    → length reader.answers < n
    → length reader.answers < m
    → extra_loop is_connected type n reader ≡ extra_loop is_connected type m reader
unfolding extra_loop
extra_loop-agree is_connected type zero m reader hn hm = absurd (omega arith)
extra_loop-agree is_connected type (suc n) zero reader hn hm = absurd (omega arith)
extra_loop-agree is_connected type (suc n) (suc m) reader hn hm =
    round-agree is_connected type reader.answers reader.asked (extra_loop is_connected type n)
      (extra_loop is_connected type m)
      (λ r h. extra_loop-agree is_connected type n m r (omega arith) (omega arith))

-- The loop ends by itself within as many rounds as there are answers, and one that waits: with any
-- larger number of rounds the call has the same result.
pub receive_extra_data-rounds :
    (is_connected : Bool) (type rounds : ℕ) (reader : Reader)
    → length reader.answers < rounds
    → extra_loop is_connected type rounds reader ≡ receive_extra_data is_connected type reader
unfolding receive_extra_data
receive_extra_data-rounds is_connected type rounds reader h =
    extra_loop-agree is_connected type rounds (length reader.answers + 1) reader h (omega arith)
