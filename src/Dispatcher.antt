-- ===== src/Dispatcher.antt =====
-- dispatcher/src/dispatcher.cpp: what main does before its threads run (StartUp, and Runs about it),
-- the thread of the dry run (DryRun, and Tally about it), and what the status loop writes of the
-- computors (Activity).
pub mod StartUp
mod Initial
mod Runs
pub mod DryRun
mod Effects
mod Tally
mod Activity
pub mod PeerFile
mod Peers
pub mod Rates
mod Windows
mod Idle
pub mod Shutdown
mod Ends
mod Tests
mod StatusTests
use doge_connect.Prelude.{
  ltb, leb, ◌==◌, if◌then◌else◌, ltb→lt, lt→ltb, leb→le, ==_iff, tests, Bool-cases, Option-cases,
  ◌>>=◌, length, get_elem?, set, length-append, length-set, get_elem?-set_self, get_elem?-set_ne,
  get_or, take, drop, replicate, take-append-drop, length-take, length-drop, take-all,
  length-reverse, take-append, drop-append, drop-drop, take-append_le, drop-append_le, get_or-drop,
  length-replicate, length-map, All, All-append, IsBytes, le_value, to_le, le_value-nil,
  le_value-cons, length-to_le, to_le-IsBytes, le_value-lt, le_value-lt_pow, le_value-to_le,
  to_le-le_value, le_value-append, le_value-take-suc, le_value-take-add, le_value-replicate,
  get_or-replicate, get_or-set_ne, take-IsBytes, drop-IsBytes, get_or-lt_byte, append-IsBytes,
  le_value-set, prefix-lt, reverse-IsBytes, all_bytes, all_bytes-IsBytes, bit_or_disjoint,
  bit_and_bit, ℕ, zero, suc, ◌+◌, ◌-◌, ◌*◌, ◌/◌, ◌%◌, ◌^◌, ◌≤◌, ◌<◌, min, bit_and, bit_or, ◌≡◌,
  refl, sym, ap, ap₂, ◌∙◌, ◌≢◌, ◌↔◌, ◌⊎◌, inl, inr, Bool, true, false, not, ◌&&◌, ◌||◌, Option,
  none, some, List, [], ◌∷◌, ◌++◌, map, foldl, reverse, append_assoc, append-nil, arith,
}
