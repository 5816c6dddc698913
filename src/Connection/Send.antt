-- ===== src/Connection/Send.antt =====
-- sendMessage of dispatcher/src/connection/connection.cpp: what the socket has taken of a message.
use doge_connect.Connection.{
  SendAnswer, send_failed, accepted, done, failed, waiting, Sent, send_loop, send_message,
}
use doge_connect.Prelude.{
  ℕ, ltb, Bool-cases, length, take, drop, length-take, take-all, All, zero, suc, ◌+◌, ◌≤◌, ◌<◌, ◌≡◌,
  refl, sym, ap, ◌∙◌, inl, inr, true, false, List, [], ◌∷◌, ◌++◌, map, arith,
}

-- The bytes that a run of answers takes.
unfoldable pub total : List ℕ → ℕ
total [] = 0
total (n ∷ ns) = n + total ns

take_nil : (m : ℕ) → take {A = ℕ} m [] ≡ []
take_nil zero = refl
take_nil (suc m) = refl

take-take : (n m : ℕ) (xs : List ℕ) → take n xs ++ take m (drop n xs) ≡ take (n + m) xs
take-take zero m xs = ap (λ (t : ℕ). take t xs) (omega arith)
take-take (suc n) m [] = take_nil m ∙ sym (take_nil (suc n + m))
take-take (suc n) m (x ∷ xs) =
    let e : suc (n + m) ≡ suc n + m = omega arith in
    ap (◌∷◌ x) (take-take n m xs) ∙ ap (λ (t : ℕ). take t (x ∷ xs)) e

-- How a call that had to do with a connected socket ends.
unfoldable pub Ends : List ℕ → Sent → Type 0
Ends message sent = elim sent.verdict [
  | done ↦ (sent.is_connected ≡ true) × (sent.taken ≡ message)
  | failed ↦ (sent.is_connected ≡ false) × (length sent.taken < length message)
  | waiting ↦ (sent.is_connected ≡ true) × (length sent.taken < length message)
]

-- What was taken is the beginning of the message.
unfoldable pub Partial : List ℕ → Sent → Type 0
Partial message sent =
    (sent.taken ++ drop (length sent.taken) message ≡ message) × Ends message sent

take_prefix : (n : ℕ) (xs : List ℕ) → take n xs ++ drop (length (take n xs)) xs ≡ xs
take_prefix zero xs = refl
take_prefix (suc n) [] = refl
take_prefix (suc n) (x ∷ xs) = ap (◌∷◌ x) (take_prefix n xs)

length-take_lt : (n : ℕ) (xs : List ℕ) → n < length xs → length (take n xs) < length xs
length-take_lt n xs h = omega (arith, length-take n xs)

send_loop-finished :
    (answers : List SendAnswer) (n : ℕ) (taken message : List ℕ)
    → length message ≤ n
    → send_loop answers n taken message
      ≡ record { verdict = done; is_connected = true; taken = taken; answers = answers }
unfolding send_loop
send_loop-finished [] n taken message h =
    let at_end : ltb n (length message) ≡ false = ground arith in rw at_end refl
send_loop-finished (send_failed ∷ answers) n taken message h =
    let at_end : ltb n (length message) ≡ false = ground arith in rw at_end refl
send_loop-finished (accepted sent ∷ answers) n taken message h =
    let at_end : ltb n (length message) ≡ false = ground arith in rw at_end refl

module _ (n : ℕ) (message : List ℕ) where
  Partial-finished :
      (answers : List SendAnswer)
      → ltb n (length message) ≡ false
      → Partial message (send_loop answers n (take n message) message)
  unfolding Partial Ends
  Partial-finished answers at_end =
      let all : length message ≤ n = ground arith in
      rw (send_loop-finished answers n (take n message) message all)
        (take_prefix n message, (refl, take-all n message all))

  less_taken : ltb n (length message) ≡ true → length (take n message) < length message
  less_taken inside = length-take_lt n message (ground arith)

send_loop-Partial :
    (answers : List SendAnswer) (n : ℕ) (message : List ℕ)
    → Partial message (send_loop answers n (take n message) message)
unfolding Partial Ends send_loop
send_loop-Partial [] n message = elim (Bool-cases (ltb n (length message))) [
  | inl inside ↦ rw inside (take_prefix n message, (refl, less_taken n message inside))
  | inr at_end ↦ Partial-finished n message [] at_end
]
send_loop-Partial (send_failed ∷ answers) n message = elim (Bool-cases (ltb n (length message))) [
  | inl inside ↦ rw inside (take_prefix n message, (refl, less_taken n message inside))
  | inr at_end ↦ Partial-finished n message (send_failed ∷ answers) at_end
]
send_loop-Partial (accepted sent ∷ answers) n message =
    let ih = send_loop-Partial answers (n + sent) message in
    elim (Bool-cases (ltb n (length message))) [
      | inl inside ↦ rw (inside, take-take n sent message) ih
      | inr at_end ↦ Partial-finished n message (accepted sent ∷ answers) at_end
    ]

-- Whatever the socket answers, the bytes it took are the beginning of the message, in order and
-- without a gap. The call is done exactly when it took the whole message; when it fails, or still
-- waits, it took less, and the socket counts as connected unless the call failed.
pub send_message-Partial :
    (answers : List SendAnswer) (message : List ℕ)
    → Partial message (send_message true answers message)
unfolding send_message
send_message-Partial answers message = send_loop-Partial answers 0 message

send_loop-done :
    (later : List SendAnswer) (message ns : List ℕ) (n : ℕ)
    → All (λ m. 0 < m) ns
    → n + total ns ≡ length message
    → send_loop (map accepted ns ++ later) n (take n message) message
      ≡ record { verdict = done; is_connected = true; taken = message; answers = later }
unfolding total send_loop
send_loop-done later message [] n h e =
    send_loop-finished later n (take n message) message (omega (arith, e))
    ∙ ap
        (λ (t : List ℕ). record { verdict = done; is_connected = true; taken = t; answers = later })
        (take-all n message (omega (arith, e)))
send_loop-done later message (m ∷ ns) n (pos, h) e =
    let inside : ltb n (length message) ≡ true = ground arith in
    rw (inside, take-take n m message) (send_loop-done later message ns (n + m) h (omega arith))

-- When every call takes at least one of the bytes left, and together they take all of them, the
-- message is sent whole; the answers after those are left for the next call.
pub send_message-done :
    (ns : List ℕ) (later : List SendAnswer) (message : List ℕ)
    → All (λ n. 0 < n) ns
    → total ns ≡ length message
    → send_message true (map accepted ns ++ later) message
      ≡ record { verdict = done; is_connected = true; taken = message; answers = later }
unfolding send_message
send_message-done ns later message some_taken all =
    send_loop-done later message ns 0 some_taken (omega arith)
