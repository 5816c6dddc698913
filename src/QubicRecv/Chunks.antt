-- ===== src/QubicRecv/Chunks.antt =====
-- `processRecvBuffer` and how the stream is cut.
use doge_connect.Structs.Header.{header_size, header_size-append}
use doge_connect.QubicRecv.Framing.{
  Framed, halt, frames, Complete, shape, Complete-drop, frames-Complete, frames-short,
  frames-broken, frames-partial, frames-fuel,
}
use doge_connect.QubicRecv.{
  Sink, Received, Ending, cleared, stopped, deliver, is_broken, recv_loop, close,
  process_recv_buffer,
}
use doge_connect.Prelude.{
  ltb, leb, length, length-append, take, drop, length-drop, take-all, drop-append, drop-drop,
  take-append_le, drop-append_le, All, ℕ, zero, suc, ◌+◌, ◌*◌, ◌%◌, ◌^◌, ◌≤◌, ◌<◌, ◌≡◌, refl, sym,
  ap, ◌∙◌, ◌⊎◌, inl, inr, Bool, true, false, List, [], ◌∷◌, ◌++◌, append-nil, arith,
}

module _ (k12 : List ℕ → List ℕ) (verify : List ℕ → List ℕ → List ℕ → Bool) where
  abbrev framed_of : List ℕ → Ending → Framed
  framed_of buf (cleared sink) = halt true [] sink
  framed_of buf (stopped pos sink) = halt false (drop pos buf) sink

  abbrev received_of : Framed → Received
  received_of f = record { rest = f.rest; sink = f.sink }

  close-framed_of :
      (buf : List ℕ) (ending : Ending) → close buf ending ≡ received_of (framed_of buf ending)
  close-framed_of buf (cleared sink) = refl
  close-framed_of buf (stopped pos sink) = refl

  recv_loop-frames :
      (fuel pos : ℕ) (buf : List ℕ) (sink : Sink)
      → pos ≤ length buf
      → length buf < 2 ^ 31
      → framed_of buf (recv_loop k12 verify fuel pos buf sink)
        ≡ frames k12 verify fuel (drop pos buf) sink
  unfolding recv_loop frames
  recv_loop-frames zero pos buf sink h small = refl
  recv_loop-frames (suc fuel) pos buf sink h small =
      let n = header_size (drop pos buf) in
      let len = length-drop pos buf in
      let a : leb (pos + 8) (length buf) ≡ leb 8 (length (drop pos buf)) = ground (arith, len) in
      elim (shape (drop pos buf)) [
        | inl short ↦ let x : leb 8 (length (drop pos buf)) ≡ false = ground arith in rw (a, x) refl
        | inr (inl (hd, b)) ↦
            let x : leb 8 (length (drop pos buf)) ≡ true = ground arith in rw (a, x, b) refl
        | inr (inr (inl (hd, b, l))) ↦
            let sane : n ≤ 10 * 1024 * 1024 = ground arith in
            let x : leb 8 (length (drop pos buf)) ≡ true = ground arith in
            let wrap : (pos + n) % 2 ^ 32 ≡ pos + n = omega arith in
            let y : ltb (length buf) (pos + n) ≡ true = ground (arith, len) in
            let z : ltb (length (drop pos buf)) n ≡ true = ground arith in
            rw (a, x, b, wrap, y, z) refl
        | inr (inr (inr c)) ↦
            let b = c.sane in
            let sane : n ≤ 10 * 1024 * 1024 = ground arith in
            let x : leb 8 (length (drop pos buf)) ≡ true = ground (arith, c.header) in
            let wrap : (pos + n) % 2 ^ 32 ≡ pos + n = omega arith in
            let y : ltb (length buf) (pos + n) ≡ false = ground (arith, len, c.whole) in
            let z : ltb (length (drop pos buf)) n ≡ false = ground (arith, c.whole) in
            rw (a, x, b, wrap, y, z, drop-drop n pos buf)
              (recv_loop-frames fuel (pos + n) buf
                (deliver k12 verify (take n (drop pos buf)) n sink) (omega (arith, len, c.whole))
                small)
      ]

  frames_at_rest :
      (f h : ℕ) (buf chunk rest : List ℕ) (sink sink' : Sink)
      → length (buf ++ chunk) ≤ f
      → length (rest ++ chunk) ≤ h
      → halt false buf sink ≡ halt false rest sink'
      → frames k12 verify f (buf ++ chunk) sink ≡ frames k12 verify h (rest ++ chunk) sink'
  frames_at_rest f h buf chunk rest sink sink' hf hh e =
      let same_rest : rest ≡ buf = sym (ap (λ (r : Framed). r.rest) e) in
      let same_sink : sink' ≡ sink = sym (ap (λ (r : Framed). r.sink) e) in
      rw same_sink (
        frames-fuel k12 verify f h (buf ++ chunk) sink hf (rw same_rest at hh)
        ∙ ap (λ t. frames k12 verify h (t ++ chunk) sink) (sym same_rest))

  Complete-append : (buf chunk : List ℕ) → Complete buf → Complete (buf ++ chunk)
  Complete-append buf chunk c =
      let len = length-append buf chunk in
      let same = header_size-append buf chunk (omega (arith, c.header)) in
      record {
        header = omega (arith, len, c.header);
        sane = rw same c.sane;
        whole = rw same (omega (arith, len, c.whole));
      }

  -- A complete packet at the head is taken from the longer stream just so.
  frames-Complete_append :
      (f : ℕ) (buf chunk : List ℕ) (sink : Sink)
      → Complete buf
      → let n = header_size buf in
        frames k12 verify (suc f) (buf ++ chunk) sink
        ≡ frames k12 verify f (drop n buf ++ chunk) (deliver k12 verify (take n buf) n sink)
  frames-Complete_append f buf chunk sink c =
      let n = header_size buf in
      frames-Complete k12 verify f (buf ++ chunk) sink (Complete-append buf chunk c)
      ∙ rw
          (
            header_size-append buf chunk (omega (arith, c.header)),
            drop-append_le n buf chunk c.whole,
            take-append_le n buf chunk c.whole,
          )
          refl

  frames-chunks :
      (g f h : ℕ) (buf chunk rest : List ℕ) (sink sink' : Sink)
      → length buf ≤ g
      → length (buf ++ chunk) ≤ f
      → length (rest ++ chunk) ≤ h
      → frames k12 verify g buf sink ≡ halt false rest sink'
      → frames k12 verify f (buf ++ chunk) sink ≡ frames k12 verify h (rest ++ chunk) sink'
  frames-chunks zero f h buf chunk rest sink sink' hg hf hh e =
      frames_at_rest f h buf chunk rest sink sink' hf hh
        (sym (frames-short k12 verify zero buf sink (omega arith)) ∙ e)
  frames-chunks (suc g) zero h buf chunk rest sink sink' hg hf hh e =
      frames_at_rest zero h buf chunk rest sink sink' hf hh (
        sym (frames-short k12 verify (suc g) buf sink (omega (arith, length-append buf chunk))) ∙ e)
  frames-chunks (suc g) (suc f) h buf chunk rest sink sink' hg hf hh e = elim (shape buf) [
    | inl short ↦
        frames_at_rest (suc f) h buf chunk rest sink sink' hf hh
          (sym (frames-short k12 verify (suc g) buf sink short) ∙ e)
    | inr (inl (hd, b)) ↦
        let eq = sym (frames-broken k12 verify g buf sink hd b) ∙ e in
        let no : true ≡ false = ap (λ (r : Framed). r.broken) eq in cc
    | inr (inr (inl (hd, b, l))) ↦
        frames_at_rest (suc f) h buf chunk rest sink sink' hf hh
          (sym (frames-partial k12 verify (suc g) buf sink hd b l) ∙ e)
    | inr (inr (inr c)) ↦
        let n = header_size buf in
        let next = deliver k12 verify (take n buf) n sink in
        let shorter = Complete-drop buf c in
        frames-Complete_append f buf chunk sink c
        ∙ frames-chunks g f h (drop n buf) chunk rest next sink' (omega (arith, shorter))
            (omega (arith, shorter, length-append (drop n buf) chunk, length-append buf chunk)) hh
            (sym (frames-Complete k12 verify g buf sink c) ∙ e)
  ]

  process-frames :
      (buf : List ℕ) (sink : Sink)
      → length buf < 2 ^ 31
      → process_recv_buffer k12 verify buf sink
        ≡ received_of (frames k12 verify (length buf) buf sink)
  unfolding process_recv_buffer
  process-frames buf sink small =
      close-framed_of buf (recv_loop k12 verify (length buf) 0 buf sink)
      ∙ ap received_of (recv_loop-frames (length buf) 0 buf sink (omega arith) small)

  -- The packets that are handled do not depend on how the stream is cut: where the loop over `buf`
  -- stopped at `pos` without clearing the buffer, handling `buf` with `chunk` behind it in one go
  -- is handling what was left of `buf`, with `chunk` behind that, from the state at the stop. The bytes together are fewer than 2 ^ 31.
  pub process_recv_buffer-chunks :
      (buf chunk : List ℕ) (sink sink' : Sink) (pos : ℕ)
      → length (buf ++ chunk) < 2 ^ 31
      → recv_loop k12 verify (length buf) 0 buf sink ≡ stopped pos sink'
      → process_recv_buffer k12 verify (buf ++ chunk) sink
        ≡ process_recv_buffer k12 verify (drop pos buf ++ chunk) sink'
  process_recv_buffer-chunks buf chunk sink sink' pos small e =
      let framed =
        recv_loop-frames (length buf) 0 buf sink (omega arith)
          (omega (arith, length-append buf chunk)) in
      let r = drop pos buf in
      let short : length (r ++ chunk) ≤ length (buf ++ chunk) =
        omega (arith, length-append r chunk, length-append buf chunk, length-drop pos buf) in
      let all =
        frames-chunks (length buf) (length (buf ++ chunk)) (length (r ++ chunk)) buf chunk r sink
          sink' (omega arith) (omega arith) (omega arith) (sym framed ∙ ap (framed_of buf) e) in
      process-frames (buf ++ chunk) sink small
      ∙ ap received_of all
      ∙ sym (process-frames (r ++ chunk) sink' (omega arith))

  -- A packet whose header states its length, within the limit of the reader.
  abbrev pub IsPacket : List ℕ → Type 0
  IsPacket p = (header_size p ≡ length p) × (8 ≤ length p) × (length p ≤ 10 * 1024 * 1024)

  -- The beginning of a packet that has not arrived in full.
  abbrev pub IsPartial : List ℕ → Type 0
  IsPartial tail =
      (length tail < 8)
      ⊎ ((8 ≤ length tail)
          × (is_broken (header_size tail) ≡ false)
          × (length tail < header_size tail))

  abbrev pub join : List (List ℕ) → List ℕ → List ℕ
  join [] tail = tail
  join (p ∷ ps) tail = p ++ join ps tail

  abbrev pub deliver_all : List (List ℕ) → Sink → Sink
  deliver_all [] sink = sink
  deliver_all (p ∷ ps) sink = deliver_all ps (deliver k12 verify p (length p) sink)

  frames-packets :
      (f : ℕ) (ps : List (List ℕ)) (tail : List ℕ) (sink : Sink)
      → All IsPacket ps
      → IsPartial tail
      → length (join ps tail) ≤ f
      → frames k12 verify f (join ps tail) sink ≡ halt false tail (deliver_all ps sink)
  frames-packets f [] tail sink hp (inl short) h = frames-short k12 verify f tail sink short
  frames-packets f [] tail sink hp (inr (hd, b, l)) h = frames-partial k12 verify f tail sink hd b l
  frames-packets zero (p ∷ ps) tail sink hp ht h =
      absurd (omega (arith, length-append p (join ps tail), hp))
  frames-packets (suc f) (p ∷ ps) tail sink hp ht h =
      let at = hp.0 in
      let sane : is_broken (header_size p) ≡ false = rw at.0 (ground (arith, at.1, at.2)) in
      let c : Complete p = record { header = at.1; sane = sane; whole = omega (arith, at.0) } in
      let gone : drop (header_size p) p ≡ [] =
        rw at.0 (ap (drop (length p)) (sym (append-nil p)) ∙ drop-append p []) in
      let all : take (header_size p) p ≡ p = take-all (header_size p) p (omega (arith, at.0)) in
      frames-Complete_append f p (join ps tail) sink c
      ∙ rw (gone, all, at.0)
          (frames-packets f ps tail (deliver k12 verify p (length p) sink) hp.1 ht
            (omega (arith, length-append p (join ps tail), at)))

  -- A stream of packets with the beginning of another behind them: every packet is handled, in
  -- order, and the beginning is what is left in the buffer. The stream is below 2 ^ 31 bytes.
  pub process_recv_buffer-packets :
      (ps : List (List ℕ)) (tail : List ℕ) (sink : Sink)
      → All IsPacket ps
      → IsPartial tail
      → length (join ps tail) < 2 ^ 31
      → process_recv_buffer k12 verify (join ps tail) sink
        ≡ record { rest = tail; sink = deliver_all ps sink }
  process_recv_buffer-packets ps tail sink hp ht small =
      process-frames (join ps tail) sink small
      ∙ ap received_of (frames-packets (length (join ps tail)) ps tail sink hp ht (omega arith))
