-- ===== src/QubicRecv/Framing.antt =====
-- The framing of packets in the TCP stream: `processRecvBuffer` against a reader that needs no
-- positions, and its independence of how the stream is cut into chunks.
use doge_connect.Structs.Header.{header_size}
use doge_connect.QubicRecv.{Sink, deliver, is_broken}
use doge_connect.Prelude.{
  ltb, leb, if◌then◌else◌, Bool-cases, length, take, drop, length-drop, ℕ, zero, suc, ◌+◌, ◌≤◌, ◌<◌,
  ◌≡◌, refl, sym, ◌∙◌, ◌⊎◌, inl, inr, Bool, true, false, List, [], arith,
}

pub record Framed : Type 0 where
  pub broken : Bool
  pub rest : List ℕ
  pub sink : Sink

abbrev pub halt : Bool → List ℕ → Sink → Framed
halt broken rest sink = record { broken = broken; rest = rest; sink = sink }

-- Whether a complete packet stands at the head of the buffer.
pub record Complete (buf : List ℕ) : Type 0 where
  pub header : 8 ≤ length buf
  pub sane : is_broken (header_size buf) ≡ false
  pub whole : header_size buf ≤ length buf

abbrev pub Shape : List ℕ → Type 0
Shape buf =
    (length buf < 8)
    ⊎ ((8 ≤ length buf) × (is_broken (header_size buf) ≡ true))
    ⊎ ((8 ≤ length buf) × (is_broken (header_size buf) ≡ false) × (length buf < header_size buf))
    ⊎ Complete buf

pub shape : (buf : List ℕ) → Shape buf
shape buf = elim (Bool-cases (leb 8 (length buf))) [
  | inr short ↦ inl (ground arith)
  | inl long ↦
      let long' : 8 ≤ length buf = ground arith in
      elim (Bool-cases (is_broken (header_size buf))) [
        | inl bad ↦ inr (inl (long', bad))
        | inr sane ↦ elim (Bool-cases (ltb (length buf) (header_size buf))) [
          | inl part ↦ inr (inr (inl (long', sane, ground arith)))
          | inr whole ↦
              inr (inr (inr (record { header = long'; sane = sane; whole = ground arith })))
        ]
      ]
]

pub Complete-drop :
    (buf : List ℕ) → Complete buf → length (drop (header_size buf) buf) + 8 ≤ length buf
Complete-drop buf c =
    let sane : 8 ≤ header_size buf = ground (arith, c.sane) in
    omega (arith, length-drop (header_size buf) buf, c.whole)

module _ (k12 : List ℕ → List ℕ) (verify : List ℕ → List ℕ → List ℕ → Bool) where
  unfoldable pub frames : ℕ → List ℕ → Sink → Framed
  frames zero buf sink = halt false buf sink
  frames (suc fuel) buf sink =
      let n = header_size buf in
      let more = frames fuel (drop n buf) (deliver k12 verify (take n buf) n sink) in
      if leb 8 (length buf)
      then if is_broken n
        then halt true [] sink
        else if ltb (length buf) n
        then halt false buf sink
        else more
      else halt false buf sink

  pub frames-Complete :
      (fuel : ℕ) (buf : List ℕ) (sink : Sink)
      → Complete buf
      → let n = header_size buf in
        frames (suc fuel) buf sink
        ≡ frames fuel (drop n buf) (deliver k12 verify (take n buf) n sink)
  unfolding frames
  frames-Complete fuel buf sink c =
      let a : leb 8 (length buf) ≡ true = ground (arith, c.header) in
      let b : ltb (length buf) (header_size buf) ≡ false = ground (arith, c.whole) in
      rw (a, c.sane, b) refl

  pub frames-short :
      (fuel : ℕ) (buf : List ℕ) (sink : Sink)
      → length buf < 8
      → frames fuel buf sink ≡ halt false buf sink
  unfolding frames
  frames-short zero buf sink h = refl
  frames-short (suc fuel) buf sink h =
      let a : leb 8 (length buf) ≡ false = ground arith in rw a refl

  pub frames-broken :
      (fuel : ℕ) (buf : List ℕ) (sink : Sink)
      → 8 ≤ length buf
      → is_broken (header_size buf) ≡ true
      → frames (suc fuel) buf sink ≡ halt true [] sink
  unfolding frames
  frames-broken fuel buf sink h b =
      let a : leb 8 (length buf) ≡ true = ground arith in rw (a, b) refl

  pub frames-partial :
      (fuel : ℕ) (buf : List ℕ) (sink : Sink)
      → 8 ≤ length buf
      → is_broken (header_size buf) ≡ false
      → length buf < header_size buf
      → frames fuel buf sink ≡ halt false buf sink
  unfolding frames
  frames-partial zero buf sink h b l = refl
  frames-partial (suc fuel) buf sink h b l =
      let a : leb 8 (length buf) ≡ true = ground arith in
      let c : ltb (length buf) (header_size buf) ≡ true = ground arith in rw (a, b, c) refl

  -- Fuel for all the bytes is enough: more changes nothing.
  pub frames-fuel :
      (f g : ℕ) (buf : List ℕ) (sink : Sink)
      → length buf ≤ f
      → length buf ≤ g
      → frames f buf sink ≡ frames g buf sink
  frames-fuel zero g buf sink hf hg =
      frames-short zero buf sink (omega arith) ∙ sym (frames-short g buf sink (omega arith))
  frames-fuel (suc f) zero buf sink hf hg =
      frames-short (suc f) buf sink (omega arith) ∙ sym (frames-short zero buf sink (omega arith))
  frames-fuel (suc f) (suc g) buf sink hf hg = elim (shape buf) [
    | inl short ↦ frames-short (suc f) buf sink short ∙ sym (frames-short (suc g) buf sink short)
    | inr (inl (h, b)) ↦ frames-broken f buf sink h b ∙ sym (frames-broken g buf sink h b)
    | inr (inr (inl (h, b, l))) ↦
        frames-partial (suc f) buf sink h b l ∙ sym (frames-partial (suc g) buf sink h b l)
    | inr (inr (inr c)) ↦
        let n = header_size buf in
        let shorter : length (drop n buf) + 8 ≤ length buf = Complete-drop buf c in
        frames-Complete f buf sink c
        ∙ frames-fuel f g (drop n buf) (deliver k12 verify (take n buf) n sink) (omega arith)
            (omega arith)
        ∙ sym (frames-Complete g buf sink c)
  ]
