-- ===== src/StratumRecv/Lines.antt =====
-- The lines of the stream in dispatcher/src/threads/stratum_recv_thread.cpp, however it is cut.
use doge_connect.StratumRecv.{cut_line, push_line, Stream, take_lines, receive_bytes}
use doge_connect.StratumRecv.Split.{
  split, split-append, split-none, split-some, split-rest, IsLine, text_of, split-text_of,
}
use doge_connect.Prelude.{
  ℕ, ◌==◌, Option-cases, length, All, zero, suc, ◌≤◌, ◌≡◌, refl, sym, ap, ◌∙◌, inl, inr, false,
  Option, none, some, List, [], ◌∷◌, ◌++◌, append_assoc, append-nil, arith,
}

module _ {Json : Type 0} (parse : List ℕ → Option Json) where
  -- What a line brings.
  unfoldable pub message : List ℕ → List Json
  message [] = []
  message (c ∷ line) = elim (parse (c ∷ line)) [ none ↦ [] | some j ↦ j ∷ [] ]

  unfoldable pub messages : List (List ℕ) → List Json
  messages [] = []
  messages (line ∷ lines) = message line ++ messages lines

  messages-append : (xs ys : List (List ℕ)) → messages (xs ++ ys) ≡ messages xs ++ messages ys
  unfolding messages
  messages-append [] ys = refl
  messages-append (x ∷ xs) ys =
      rw (messages-append xs ys) (sym (append_assoc (message x) (messages xs) (messages ys)))

  push_line-message :
      (line : List ℕ) (queue : List Json) → push_line parse line queue ≡ queue ++ message line
  unfolding push_line message
  push_line-message [] queue = sym (append-nil queue)
  push_line-message (c ∷ line) queue =
      let some_chars : (suc (length line) == 0) ≡ false = ground arith in
      elim (Option-cases (parse (c ∷ line))) [
        | inl absent ↦ rw (some_chars, absent, message) (sym (append-nil queue))
        | inr (j, found) ↦ rw (some_chars, found, message) refl
      ]

  -- Where the rounds are enough, the loop takes all lines.
  take_lines-split :
      (rounds : ℕ) (text : List ℕ) (queue : List Json)
      → length text ≤ rounds
      → take_lines parse rounds (record { network_buffer = text; queue = queue }) ≡ record {
        network_buffer = (split text).rest;
        queue = queue ++ messages (split text).lines;
      }
  unfolding take_lines messages split
  take_lines-split zero [] queue enough = rw (split, append-nil) refl
  take_lines-split zero (c ∷ text) queue enough = absurd (omega arith)
  take_lines-split (suc rounds) text queue enough = elim (Option-cases (cut_line text)) [
    | inl absent ↦ rw (absent, take_lines, split-none text absent, append-nil) refl
    | inr (cut, found) ↦
        let (e, less) = split-some text cut found in
        let ih =
          take_lines-split rounds cut.1 (push_line parse cut.0 queue)
            (omega (arith, less, enough)) in
        rw (found, take_lines, e)
          (ih
            ∙ ap (λ (q : List Json). record { network_buffer = (split cut.1).rest; queue = q })
                (rw push_line-message
                  (append_assoc queue (message cut.0) (messages (split cut.1).lines))))
  ]

  receive_bytes-split :
      (bytes : List ℕ) (stream : Stream Json)
      → receive_bytes parse bytes stream ≡ record {
        network_buffer = (split (stream.network_buffer ++ bytes)).rest;
        queue = stream.queue ++ messages (split (stream.network_buffer ++ bytes)).lines;
      }
  unfolding receive_bytes
  receive_bytes-split bytes stream =
      let text = stream.network_buffer ++ bytes in
      take_lines-split (length text) text stream.queue (omega arith)

  -- The rounds of the loop while the connection lasts.
  unfoldable pub receive_chunks : List (List ℕ) → Stream Json → Stream Json
  receive_chunks [] stream = stream
  receive_chunks (bytes ∷ chunks) stream = receive_chunks chunks (receive_bytes parse bytes stream)

  unfoldable pub joined : List (List ℕ) → List ℕ
  joined [] = []
  joined (bytes ∷ chunks) = bytes ++ joined chunks

  receive_chunks-split :
      (chunks : List (List ℕ)) (buffer : List ℕ) (queue : List Json)
      → split buffer ≡ record { lines = []; rest = buffer }
      → receive_chunks chunks (record { network_buffer = buffer; queue = queue }) ≡ record {
        network_buffer = (split (buffer ++ joined chunks)).rest;
        queue = queue ++ messages (split (buffer ++ joined chunks)).lines;
      }
  unfolding receive_chunks joined messages
  receive_chunks-split [] buffer queue open_line = rw (append-nil, open_line, append-nil) refl
  receive_chunks-split (bytes ∷ chunks) buffer queue open_line =
      let text = buffer ++ bytes in
      let stream : Stream Json = record { network_buffer = buffer; queue = queue } in
      let whole : buffer ++ (bytes ++ joined chunks) ≡ text ++ joined chunks =
        sym (append_assoc buffer bytes (joined chunks)) in
      let first = messages (split text).lines in
      let later = split ((split text).rest ++ joined chunks) in
      let all : queue ++ messages ((split text).lines ++ later.lines)
          ≡ (queue ++ first) ++ messages later.lines =
        rw messages-append (sym (append_assoc queue first (messages later.lines))) in
      rw (receive_bytes-split bytes stream, whole, split-append text (joined chunks), all)
        (receive_chunks-split chunks (split text).rest (queue ++ first) (split-rest text))

  -- In whatever pieces the stream arrives, each of its lines that is not empty and is JSON is put
  -- in the queue once, in their order, and the text after the last newline is kept for later.
  pub receive_chunks-lines :
      (chunks lines : List (List ℕ)) (rest : List ℕ) (queue : List Json)
      → All IsLine lines
      → IsLine rest
      → joined chunks ≡ text_of lines rest
      → receive_chunks chunks (record { network_buffer = []; queue = queue })
        ≡ record { network_buffer = rest; queue = queue ++ messages lines }
  unfolding split
  receive_chunks-lines chunks lines rest queue each last whole =
      let e : split (joined chunks) ≡ record { lines = lines; rest = rest } =
        rw whole (split-text_of lines rest each last) in
      receive_chunks-split chunks [] queue refl ∙ rw e refl
