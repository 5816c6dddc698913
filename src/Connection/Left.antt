-- ===== src/Connection/Left.antt =====
-- The answers that receiveAllData and receiveResponse of dispatcher/src/connection/connection.cpp
-- leave for later calls.
use doge_connect.Connection.{
  ReadAnswer, read_failed, chunk, receive_loop, receive_all_data, receive_response,
}
use doge_connect.Prelude.{
  ℕ, ltb, ◌==◌, Bool-cases, length, All, ◌≤◌, inl, inr, Bool, true, false, List, [], ◌∷◌, ◌++◌,
  arith,
}

module _ (P : ReadAnswer → Type 0) where
  -- The answers that are left are the last of the answers.
  receive_loop-left :
      (answers : List ReadAnswer) (size : ℕ) (buffer : List ℕ)
      → All P answers
      → All P (receive_loop answers size buffer).answers
  unfolding receive_loop
  receive_loop-left [] size buffer h = elim (Bool-cases (ltb (length buffer) size)) [
    | inl e ↦ rw e h
    | inr e ↦ rw e h
  ]
  receive_loop-left (read_failed ∷ answers) size buffer h =
      elim (Bool-cases (ltb (length buffer) size)) [ inl e ↦ rw e h.1 | inr e ↦ rw e h ]
  receive_loop-left (chunk bytes ∷ answers) size buffer h =
      let ih = receive_loop-left answers size (buffer ++ bytes) h.1 in
      elim (Bool-cases (ltb (length buffer) size)) [
        | inr e ↦ rw e h
        | inl e ↦ elim (Bool-cases (length bytes == 0)) [
          | inl z ↦ rw (e, z) h.1
          | inr z ↦ rw (e, z) ih
        ]
      ]

  pub receive_all_data-left :
      (is_connected : Bool) (answers : List ReadAnswer) (size : ℕ)
      → All P answers
      → All P (receive_all_data is_connected answers size).answers
  unfolding receive_all_data
  receive_all_data-left false answers size h = h
  receive_all_data-left true answers size h = receive_loop-left answers size [] h

  pub receive_response-left :
      (is_connected : Bool) (answers : List ReadAnswer)
      → All P answers
      → All P (receive_response is_connected answers).answers
  unfolding receive_response
  receive_response-left false answers h = h
  receive_response-left true [] h = h
  receive_response-left true (answer ∷ answers) h = h.1

-- A call uses up answers, or none.
receive_loop-length :
    (answers : List ReadAnswer) (size : ℕ) (buffer : List ℕ)
    → length (receive_loop answers size buffer).answers ≤ length answers
unfolding receive_loop
receive_loop-length [] size buffer = elim (Bool-cases (ltb (length buffer) size)) [
  | inl e ↦ rw e (omega arith)
  | inr e ↦ rw e (omega arith)
]
receive_loop-length (read_failed ∷ answers) size buffer =
    elim (Bool-cases (ltb (length buffer) size)) [
      | inl e ↦ rw e (omega arith)
      | inr e ↦ rw e (omega arith)
    ]
receive_loop-length (chunk bytes ∷ answers) size buffer =
    let ih = receive_loop-length answers size (buffer ++ bytes) in
    elim (Bool-cases (ltb (length buffer) size)) [
      | inr e ↦ rw e (omega arith)
      | inl e ↦ elim (Bool-cases (length bytes == 0)) [
        | inl z ↦ rw (e, z) (omega arith)
        | inr z ↦ rw (e, z) (omega (arith, ih))
      ]
    ]

pub receive_all_data-length :
    (is_connected : Bool) (answers : List ReadAnswer) (size : ℕ)
    → length (receive_all_data is_connected answers size).answers ≤ length answers
unfolding receive_all_data
receive_all_data-length false answers size = omega arith
receive_all_data-length true answers size = receive_loop-length answers size []
