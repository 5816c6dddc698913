-- ===== src/StratumRecv.antt =====
-- dispatcher/src/threads/stratum_recv_thread.cpp: the pool's messages, line by line. What the reads
-- bring is an input, the JSON library a parameter; `none` is an exception that escapes.
pub mod Requests
pub mod Init
pub mod Lines
pub mod Split
pub mod Retry
pub mod Delays
pub mod Replies
pub mod Begins
mod Tests
use doge_connect.Prelude.{
  ℕ, ltb, leb, ◌==◌, if◌then◌else◌, ltb→lt, lt→ltb, leb→le, ==_iff, tests, Bool-cases, Option-cases,
  ◌>>=◌, length, get_elem?, set, length-append, length-set, get_elem?-set_self, get_elem?-set_ne,
  get_or, take, drop, replicate, take-append-drop, length-take, length-drop, take-all,
  length-reverse, take-append, drop-append, drop-drop, take-append_le, drop-append_le, get_or-drop,
  length-replicate, length-map, All, All-append, IsBytes, le_value, to_le, le_value-nil,
  le_value-cons, length-to_le, to_le-IsBytes, le_value-lt, le_value-lt_pow, le_value-to_le,
  to_le-le_value, le_value-append, le_value-take-suc, le_value-take-add, le_value-replicate,
  get_or-replicate, get_or-set_ne, take-IsBytes, drop-IsBytes, get_or-lt_byte, append-IsBytes,
  le_value-set, prefix-lt, reverse-IsBytes, all_bytes, all_bytes-IsBytes, bit_or_disjoint,
  bit_and_bit, zero, suc, ◌+◌, ◌-◌, ◌*◌, ◌/◌, ◌%◌, ◌^◌, ◌≤◌, ◌<◌, min, bit_and, bit_or, ◌≡◌, refl,
  sym, ap, ap₂, ◌∙◌, ◌≢◌, ◌↔◌, ◌⊎◌, inl, inr, Bool, true, false, not, ◌&&◌, ◌||◌, Option, none,
  some, List, [], ◌∷◌, ◌++◌, map, foldl, reverse, append_assoc, append-nil, arith,
}

abbrev pub newline : ℕ
newline = 10

-- `find`, `substr` and `erase`: the line before the first newline, and what follows it.
unfoldable pub cut_line : List ℕ → Option (List ℕ × List ℕ)
cut_line [] = none
cut_line (c ∷ text) =
    let rest = cut_line text in
    if c == newline
    then some ([], text)
    else elim rest [ none ↦ none | some cut ↦ some (c ∷ cut.0, cut.1) ]

-- The text that stays in `networkBuffer`, and the queue.
pub record Stream (Json : Type 0) : Type 0 where
  pub network_buffer : List ℕ
  pub queue : List Json

module _ {Json : Type 0} (parse : List ℕ → Option Json) where
  -- An empty line and one that is not JSON are passed over.
  pub push_line : List ℕ → List Json → List Json
  push_line line queue =
      let pushed : List Json = elim (parse line) [
        | none ↦ queue
        | some message ↦ queue ++ message ∷ []
      ] in
      if length line == 0 then queue else pushed

  -- The loop over the lines in `networkBuffer`. Each takes a character at least.
  pub take_lines : (rounds : ℕ) → Stream Json → Stream Json
  take_lines zero stream = stream
  take_lines (suc rounds) stream = elim (cut_line stream.network_buffer) [
    | none ↦ stream
    | some cut ↦
        take_lines rounds (record { network_buffer = cut.1; queue = push_line cut.0 stream.queue })
  ]

  -- A round of `stratumReceiveLoop` in which `bytes` arrive.
  pub receive_bytes : List ℕ → Stream Json → Stream Json
  receive_bytes bytes stream =
      let text = stream.network_buffer ++ bytes in
      take_lines (length text) (record stream { network_buffer = text })
