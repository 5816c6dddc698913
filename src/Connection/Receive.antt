-- ===== src/Connection/Receive.antt =====
-- receiveAllData of dispatcher/src/connection/connection.cpp: what it has read into the buffer.
use doge_connect.Connection.{
  ReadAnswer, read_failed, chunk, done, failed, waiting, Received, receive_loop, receive_all_data,
}
use doge_connect.Prelude.{
  ℕ, ltb, ◌==◌, Bool-cases, length, length-append, All, ◌+◌, ◌-◌, ◌≤◌, ◌<◌, ◌≡◌, refl, ap, ◌∙◌, inl,
  inr, true, false, List, [], ◌∷◌, ◌++◌, map, append_assoc, append-nil, arith,
}

-- The bytes that a run of answers brings.
unfoldable pub joined : List (List ℕ) → List ℕ
joined [] = []
joined (bytes ∷ more) = bytes ++ joined more

-- No call of `read` brings more than it was asked for, when `left` bytes are wanted.
unfoldable pub Fits : ℕ → List ReadAnswer → Type 0
Fits left [] = Unit
Fits left (read_failed ∷ answers) = Unit
Fits left (chunk bytes ∷ answers) = (length bytes ≤ left) × Fits (left - length bytes) answers

-- How a call ends: done with exactly the bytes that were asked for, or otherwise with fewer.
unfoldable pub Ends : ℕ → Received → Type 0
Ends size received = elim received.verdict [
  | done ↦ length received.buffer ≡ size
  | failed ↦ length received.buffer < size
  | waiting ↦ length received.buffer < size
]

receive_loop-finished :
    (answers : List ReadAnswer) (size : ℕ) (buffer : List ℕ)
    → size ≤ length buffer
    → receive_loop answers size buffer
      ≡ record { verdict = done; buffer = buffer; answers = answers }
unfolding receive_loop
receive_loop-finished [] size buffer h =
    let full : ltb (length buffer) size ≡ false = ground arith in rw full refl
receive_loop-finished (read_failed ∷ answers) size buffer h =
    let full : ltb (length buffer) size ≡ false = ground arith in rw full refl
receive_loop-finished (chunk bytes ∷ answers) size buffer h =
    let full : ltb (length buffer) size ≡ false = ground arith in rw full refl

Ends-finished :
    (answers : List ReadAnswer) (size : ℕ) (buffer : List ℕ)
    → ltb (length buffer) size ≡ false
    → length buffer ≤ size
    → Ends size (receive_loop answers size buffer)
unfolding Ends
Ends-finished answers size buffer full fits =
    let all : size ≤ length buffer = ground arith in
    rw (receive_loop-finished answers size buffer all) (omega arith)

receive_loop-Ends :
    (answers : List ReadAnswer) (size : ℕ) (buffer : List ℕ)
    → length buffer ≤ size
    → Fits (size - length buffer) answers
    → Ends size (receive_loop answers size buffer)
unfolding Ends receive_loop Fits
receive_loop-Ends [] size buffer fits all = elim (Bool-cases (ltb (length buffer) size)) [
  | inl wanted ↦ rw wanted (ground arith)
  | inr full ↦ Ends-finished [] size buffer full fits
]
receive_loop-Ends (read_failed ∷ answers) size buffer fits all =
    elim (Bool-cases (ltb (length buffer) size)) [
      | inl wanted ↦ rw wanted (ground arith)
      | inr full ↦ Ends-finished (read_failed ∷ answers) size buffer full fits
    ]
receive_loop-Ends (chunk bytes ∷ answers) size buffer fits (one, all) =
    let len : length (buffer ++ bytes) ≡ length buffer + length bytes =
      length-append buffer bytes in
    let fits' : Fits (size - length (buffer ++ bytes)) answers =
      let e : size - length (buffer ++ bytes) ≡ size - length buffer - length bytes = omega arith in
      rw e all in
    let ih : Ends size (receive_loop answers size (buffer ++ bytes)) =
      receive_loop-Ends answers size (buffer ++ bytes) (omega arith) fits' in
    elim (Bool-cases (ltb (length buffer) size)) [
      | inr full ↦ Ends-finished (chunk bytes ∷ answers) size buffer full fits
      | inl wanted ↦ elim (Bool-cases (length bytes == 0)) [
        | inl nothing ↦ rw (wanted, nothing) (ground arith)
        | inr something ↦ rw (wanted, something) ih
      ]
    ]

-- When `read` never brings more than it is asked for, a call is done with exactly as many bytes
-- in the buffer as were asked for, and otherwise it leaves fewer: nothing is written past the
-- bytes that were asked for.
pub receive_all_data-Ends :
    (answers : List ReadAnswer) (size : ℕ)
    → Fits size answers
    → Ends size (receive_all_data true answers size)
unfolding receive_all_data
receive_all_data-Ends answers size all =
    let e : size - 0 ≡ size = omega arith in
    receive_loop-Ends answers size [] (omega arith) (rw e all)

receive_loop-done :
    (later : List ReadAnswer) (chunks : List (List ℕ)) (size : ℕ) (buffer : List ℕ)
    → All (λ c. 0 < length c) chunks
    → length buffer + length (joined chunks) ≡ size
    → receive_loop (map chunk chunks ++ later) size buffer
      ≡ record { verdict = done; buffer = buffer ++ joined chunks; answers = later }
unfolding receive_loop joined
receive_loop-done later [] size buffer h e =
    rw append-nil (receive_loop-finished later size buffer (omega (arith, e)))
receive_loop-done later (bytes ∷ chunks) size buffer (pos, h) e =
    let len : length (buffer ++ bytes) ≡ length buffer + length bytes =
      length-append buffer bytes in
    let all : length (bytes ++ joined chunks) ≡ length bytes + length (joined chunks) =
      length-append bytes (joined chunks) in
    let wanted : ltb (length buffer) size ≡ true = ground arith in
    let something : (length bytes == 0) ≡ false = ground arith in
    rw (wanted, something)
      (receive_loop-done later chunks size (buffer ++ bytes) h (omega arith)
        ∙ ap (λ (t : List ℕ). record { verdict = done; buffer = t; answers = later })
            (append_assoc buffer bytes (joined chunks)))

-- When the calls of `read` bring bytes each, as many as are asked for together, the call is done with
-- their bytes in order; the answers after those are left for the next call.
pub receive_all_data-done :
    (chunks : List (List ℕ)) (later : List ReadAnswer) (size : ℕ)
    → All (λ c. 0 < length c) chunks
    → length (joined chunks) ≡ size
    → receive_all_data true (map chunk chunks ++ later) size
      ≡ record { verdict = done; buffer = joined chunks; answers = later }
unfolding receive_all_data
receive_all_data-done chunks later size some_bytes all =
    receive_loop-done later chunks size [] some_bytes (omega (arith, all))
