-- ===== src/StratumRecv/Split.antt =====
-- The lines of a text, as dispatcher/src/threads/stratum_recv_thread.cpp cuts them off its front.
use doge_connect.StratumRecv.{newline, cut_line}
use mathlib.Core.Option.{some-injective, none-ne-some, some-ne-none}
use doge_connect.Prelude.{
  ℕ, ◌==◌, if◌then◌else◌, Bool-cases, Option-cases, length, All, ◌<◌, ◌≡◌, refl, sym, ◌≢◌, inl, inr,
  false, none, some, List, [], ◌∷◌, ◌++◌, arith,
}

-- The lines of a text, and what follows the last newline, without positions.
pub record Split : Type 0 where
  pub lines : List (List ℕ)
  pub rest : List ℕ

pub add_char : ℕ → List (List ℕ) → List ℕ → Split
add_char c [] rest = record { lines = []; rest = c ∷ rest }
add_char c (line ∷ lines) rest = record { lines = (c ∷ line) ∷ lines; rest = rest }

unfoldable pub split : List ℕ → Split
split [] = record { lines = []; rest = [] }
split (c ∷ text) =
    let s = split text in
    if c == newline
    then record { lines = [] ∷ s.lines; rest = s.rest }
    else add_char c s.lines s.rest

abbrev pub prepend : List (List ℕ) → Split → Split
prepend lines s = record { lines = lines ++ s.lines; rest = s.rest }

add_char-append :
    (c : ℕ) (lines : List (List ℕ)) (rest more : List ℕ)
    → (c == newline) ≡ false
    → add_char c (lines ++ (split (rest ++ more)).lines) (split (rest ++ more)).rest
      ≡ prepend (add_char c lines rest).lines (split ((add_char c lines rest).rest ++ more))
unfolding split add_char
add_char-append c [] rest more e = rw e refl
add_char-append c (line ∷ lines) rest more e = refl

add_char-rest :
    (c : ℕ) (lines : List (List ℕ)) (rest : List ℕ)
    → (c == newline) ≡ false
    → split rest ≡ record { lines = []; rest = rest }
    → split (add_char c lines rest).rest
      ≡ record { lines = []; rest = (add_char c lines rest).rest }
unfolding split add_char
add_char-rest c [] rest e h = rw (e, h) refl
add_char-rest c (line ∷ lines) rest e h = h

-- Cutting a text in two: what follows the last newline of the first part goes to the second.
pub split-append :
    (text more : List ℕ)
    → split (text ++ more) ≡ prepend (split text).lines (split ((split text).rest ++ more))
unfolding split
split-append [] more = refl
split-append (c ∷ text) more =
    let ih = split-append text more in
    elim (Bool-cases (c == newline)) [
      | inl e ↦ rw (e, ih) refl
      | inr e ↦ rw (e, ih) (add_char-append c (split text).lines (split text).rest more e)
    ]

pub split-rest :
    (text : List ℕ) → split (split text).rest ≡ record { lines = []; rest = (split text).rest }
unfolding split
split-rest [] = refl
split-rest (c ∷ text) = elim (Bool-cases (c == newline)) [
  | inl e ↦ rw e (split-rest text)
  | inr e ↦ rw e (add_char-rest c (split text).lines (split text).rest e (split-rest text))
]

-- A line holds no newline.
abbrev pub IsLine : List ℕ → Type 0
IsLine = All (λ c. c ≢ newline)

-- The text of the lines, each with its newline, and what follows them.
unfoldable pub text_of : List (List ℕ) → List ℕ → List ℕ
text_of [] rest = rest
text_of (line ∷ lines) rest = line ++ newline ∷ text_of lines rest

split_line :
    (line : List ℕ) (more : List ℕ)
    → IsLine line
    → split (line ++ newline ∷ more) ≡ prepend (line ∷ []) (split more)
unfolding split add_char
split_line [] more h = refl
split_line (c ∷ line) more (here, h) =
    let e : (c == newline) ≡ false = ground arith in rw (e, split_line line more h) refl

split-IsLine : (rest : List ℕ) → IsLine rest → split rest ≡ record { lines = []; rest = rest }
unfolding split add_char
split-IsLine [] h = refl
split-IsLine (c ∷ rest) (here, h) =
    let e : (c == newline) ≡ false = ground arith in rw (e, split-IsLine rest h) refl

pub split-text_of :
    (lines : List (List ℕ)) (rest : List ℕ)
    → All IsLine lines
    → IsLine rest
    → split (text_of lines rest) ≡ record { lines = lines; rest = rest }
unfolding text_of
split-text_of [] rest each last = split-IsLine rest last
split-text_of (line ∷ lines) rest (here, each) last =
    rw (split_line line (text_of lines rest) here, split-text_of lines rest each last) refl

pub split-none :
    (text : List ℕ) → cut_line text ≡ none → split text ≡ record { lines = []; rest = text }
unfolding split cut_line add_char
split-none [] h = refl
split-none (c ∷ text) h = elim (Bool-cases (c == newline)) [
  | inl e ↦ absurd (some-ne-none _ (rw e at h))
  | inr e ↦ elim (Option-cases (cut_line text)) [
    | inl absent ↦ rw (e, split-none text absent) refl
    | inr (cut, found) ↦ absurd (some-ne-none _ (rw (e, found) at h))
  ]
]

pub split-some :
    (text : List ℕ) (cut : List ℕ × List ℕ)
    → cut_line text ≡ some cut
    → (split text ≡ prepend (cut.0 ∷ []) (split cut.1)) × (length cut.1 < length text)
unfolding split cut_line add_char
split-some [] cut h = absurd (none-ne-some _ h)
split-some (c ∷ text) cut h = elim (Bool-cases (c == newline)) [
  | inl e ↦
      let same : ◌≡◌ {A = List ℕ × List ℕ} ([], text) cut = some-injective _ _ (rw e at h) in
      rw (e, sym same) (refl, omega arith)
  | inr e ↦ elim (Option-cases (cut_line text)) [
    | inl absent ↦ absurd (none-ne-some _ (rw (e, absent) at h))
    | inr (cut', found) ↦
        let same : ◌≡◌ {A = List ℕ × List ℕ} (c ∷ cut'.0, cut'.1) cut =
          some-injective _ _ (rw (e, found) at h) in
        let (ih, less) = split-some text cut' found in
        rw (e, sym same, ih) (refl, omega (arith, less))
  ]
]
