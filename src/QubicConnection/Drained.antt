-- ===== src/QubicConnection/Drained.antt =====
-- The bytes that the loops of dispatcher/src/connection/qubic_connection.cpp skip, as they arrive in
-- pieces of any size.
use doge_connect.Connection.{ReadAnswer, chunk, done, failed, waiting}
use doge_connect.Connection.Receive.{joined, receive_all_data-done}
use doge_connect.QubicConnection.{Reader, fill, when_filled, drain_bytes, is_positive, buffer_size}
use doge_connect.Prelude.{
  ℕ, length, All, zero, suc, ◌-◌, ◌*◌, ◌^◌, ◌≤◌, ◌<◌, min, ◌≡◌, refl, ap, ◌∙◌, true, false, List,
  [], ◌∷◌, ◌++◌, map, arith,
}

-- What one call of `receiveAllData` for `size` bytes reads.
unfoldable pub Brings : ℕ → List (List ℕ) → Type 0
Brings size pieces = All (λ c. 0 < length c) pieces × (length (joined pieces) ≡ size)

-- What the loop that skips `remaining` bytes reads, call by call.
unfoldable pub Covers : ℕ → List (List (List ℕ)) → Type 0
Covers remaining [] = remaining ≡ 0
Covers remaining (pieces ∷ parts) =
    (0 < remaining)
    × Brings (min remaining buffer_size) pieces
    × Covers (remaining - min remaining buffer_size) parts

unfoldable pub arriving : List (List (List ℕ)) → List ReadAnswer → List ReadAnswer
arriving [] later = later
arriving (pieces ∷ parts) later = map chunk pieces ++ arriving parts later

-- The sizes that the skipping asks for.
unfoldable pub sizes : List (List (List ℕ)) → List ℕ → List ℕ
sizes [] asked = asked
sizes (pieces ∷ parts) asked = sizes parts (asked ++ length (joined pieces) ∷ [])

pub fill-Brings :
    (size : ℕ) (pieces : List (List ℕ)) (later : List ReadAnswer) (asked : List ℕ)
    → Brings size pieces
    → fill true size (record { answers = map chunk pieces ++ later; asked = asked }) ≡ record {
      verdict = done;
      bytes = joined pieces;
      reader = record { answers = later; asked = asked ++ size ∷ [] };
    }
unfolding fill Brings
fill-Brings size pieces later asked (some_bytes, all) =
    rw (receive_all_data-done pieces later size some_bytes all) refl

drain_bytes-step :
    (rounds remaining : ℕ) (reader : Reader) {bytes : List ℕ} {after : Reader}
    → is_positive remaining ≡ true
    → fill true (min remaining buffer_size) reader
      ≡ record { verdict = done; bytes = bytes; reader = after }
    → drain_bytes true (suc rounds) remaining reader
      ≡ drain_bytes true rounds (remaining - min remaining buffer_size) after
unfolding drain_bytes
drain_bytes-step rounds remaining reader positive e = rw positive (
    ap
      (when_filled (λ bytes. drain_bytes true rounds (remaining - min remaining buffer_size))
        (λ r. record { verdict = failed; reader = r })
        (λ r. record { verdict = waiting; reader = r }))
      e)

pub drain_bytes-Covers :
    (rounds remaining : ℕ) (parts : List (List (List ℕ))) (later : List ReadAnswer) (asked : List ℕ)
    → remaining < 2 ^ 31
    → remaining ≤ rounds * 4096
    → Covers remaining parts
    → drain_bytes true rounds remaining (record { answers = arriving parts later; asked = asked })
      ≡ record { verdict = done; reader = record { answers = later; asked = sizes parts asked } }
unfolding drain_bytes Covers arriving sizes Brings
drain_bytes-Covers zero remaining [] later asked small enough covers = refl
drain_bytes-Covers zero remaining (pieces ∷ parts) later asked small enough
      (some_left, brings, covers) =
    absurd (omega arith)
drain_bytes-Covers (suc rounds) remaining [] later asked small enough covers =
    let nothing_left : is_positive remaining ≡ false = ground arith in rw nothing_left refl
drain_bytes-Covers (suc rounds) remaining (pieces ∷ parts) later asked small enough
      (some_left, brings, covers) =
    let positive : is_positive remaining ≡ true = ground arith in
    let size = min remaining buffer_size in
    let e : length (joined pieces) ≡ size = brings.1 in
    let bound : remaining - min remaining 4096 ≤ rounds * 4096 = omega arith in
    drain_bytes-step rounds remaining
      (record { answers = arriving (pieces ∷ parts) later; asked = asked }) positive
      (fill-Brings size pieces (arriving parts later) asked brings)
    ∙ rw e (
        drain_bytes-Covers rounds (remaining - size) parts later (asked ++ size ∷ []) (omega arith)
          bound covers)
