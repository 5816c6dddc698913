-- ===== src/Dispatcher/Peers.antt =====
-- The file of the peers that the status loop writes: its entries and its place.
use doge_connect.Prelude.{
  ℕ, ◌==◌, length, get_elem?, length-append, take, take-append, All, zero, suc, ◌+◌, ◌≡◌, refl, sym,
  ap, ap₂, ◌∙◌, Bool, true, false, none, some, List, [], ◌∷◌, ◌++◌, append_assoc, arith,
}
use doge_connect.Structs.{PeerStats}
use doge_connect.Dispatcher.PeerFile.{
  is_empty, name_peers, PeerRow, peer_rows, mark_connected, peer_file, slash_before, last_slash,
  peerstats_json, peer_stats_at, peer_stats_path,
}
use mathlib.Core.Option.{some-injective}

abbrev row_of : List ℕ × ℕ → PeerStats → Bool → PeerRow
row_of address ps is_connected = record {
  peer = record ps { ip = address.0; port = address.1 };
  connected = is_connected;
}

get_elem?-peer_rows :
    (i : ℕ) (ip : List ℕ) (port : ℕ) (is_connected : Bool) (ps : PeerStats)
    (addresses : List (List ℕ × ℕ)) (connections : List Bool) (peers : List PeerStats)
    → All (λ a. is_empty a.0 ≡ false) addresses
    → get_elem? addresses i ≡ some (ip, port)
    → get_elem? connections i ≡ some is_connected
    → get_elem? peers i ≡ some ps
    → get_elem? (mark_connected connections (peer_rows (name_peers addresses peers))) i
      ≡ some (record { peer = record ps { ip = ip; port = port }; connected = is_connected })
unfolding mark_connected peer_rows name_peers
get_elem?-peer_rows i ip port b ps [] connections peers named a c p = absurd cc
get_elem?-peer_rows i ip port b ps (x ∷ xs) [] peers named a c p = absurd cc
get_elem?-peer_rows i ip port b ps (x ∷ xs) (y ∷ ys) [] named a c p = absurd cc
get_elem?-peer_rows zero ip port b ps (x ∷ xs) (y ∷ ys) (z ∷ zs) named a c p = rw named.0 (
    ap (λ q. some (row_of q z y)) (some-injective _ _ a)
    ∙ ap (λ q. some (row_of (ip, port) q y)) (some-injective _ _ p)
    ∙ ap (λ q. some (row_of (ip, port) ps q)) (some-injective _ _ c))
get_elem?-peer_rows (suc i) ip port b ps (x ∷ xs) (y ∷ ys) (z ∷ zs) named a c p =
    rw named.0 (get_elem?-peer_rows i ip port b ps xs ys zs named.1 a c p)

-- When every peer has an address, the entry at each position has the address, the counters and the
-- state of the peer and the connection at that position.
pub get_elem?-peer_file :
    (i : ℕ) (ip : List ℕ) (port : ℕ) (is_connected : Bool) (ps : PeerStats)
    (addresses : List (List ℕ × ℕ)) (connections : List Bool) (peers : List PeerStats)
    → All (λ a. is_empty a.0 ≡ false) addresses
    → get_elem? addresses i ≡ some (ip, port)
    → get_elem? connections i ≡ some is_connected
    → get_elem? peers i ≡ some ps
    → get_elem? (peer_file connections (name_peers addresses peers)) i
      ≡ some (record { peer = record ps { ip = ip; port = port }; connected = is_connected })
unfolding peer_file
get_elem?-peer_file = get_elem?-peer_rows

-- Before the thread has entered the addresses, the file has no entries.
pub peer_file-nil :
    (connections : List Bool) (peers : List PeerStats)
    → All (λ p. is_empty p.ip ≡ true) peers
    → peer_file connections peers ≡ []
unfolding peer_file peer_rows mark_connected
peer_file-nil [] [] none_named = refl
peer_file-nil (c ∷ cs) [] none_named = refl
peer_file-nil cs (p ∷ peers) none_named = rw none_named.0 (peer_file-nil cs peers none_named.1)

no_slash_after : (name : List ℕ) → All (λ c. (c == b'/') ≡ false) name → last_slash name ≡ none
unfolding last_slash slash_before
no_slash_after [] named = refl
no_slash_after (c ∷ cs) named = rw (no_slash_after cs named.1, named.0) refl

last_slash-append :
    (directory name : List ℕ)
    → All (λ c. (c == b'/') ≡ false) name
    → last_slash (directory ++ b'/' ∷ name) ≡ some (length directory)
unfolding last_slash slash_before
last_slash-append [] name named = rw (no_slash_after name named) refl
last_slash-append (c ∷ cs) name named = rw (last_slash-append cs name named) (ap some (omega arith))

through_slash :
    (directory name : List ℕ)
    → take (length directory + 1) (directory ++ b'/' ∷ name) ≡ directory ++ b'/' ∷ []
through_slash directory name =
    ap₂ take (sym (length-append directory (b'/' ∷ [])))
      (sym (append_assoc directory (b'/' ∷ []) name))
    ∙ take-append (directory ++ b'/' ∷ []) name

-- The file of the peers stands beside the file of the statistics: in the same directory, or in the
-- current one when that has none.
pub peer_stats_path-directory :
    (directory name : List ℕ)
    → All (λ c. (c == b'/') ≡ false) name
    → (peer_stats_path (directory ++ b'/' ∷ name) ≡ directory ++ b'/' ∷ peerstats_json)
      × (peer_stats_path name ≡ peerstats_json)
unfolding peer_stats_path peer_stats_at
peer_stats_path-directory directory name named = (
  rw (last_slash-append directory name named) (
      ap (λ t. t ++ peerstats_json) (through_slash directory name)
      ∙ append_assoc directory (b'/' ∷ []) peerstats_json),
  rw (no_slash_after name named) refl,
)
