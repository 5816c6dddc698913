-- ===== src/Dispatcher/PeerFile.antt =====
-- What the status loop of dispatcher/src/dispatcher.cpp writes about the peers, whose addresses
-- qubicReceiveLoop of dispatcher/src/threads/qubic_recv_thread.cpp has entered.
use doge_connect.Prelude.{
  ℕ, ◌==◌, if◌then◌else◌, take, ◌+◌, Bool, true, false, Option, none, some, List, [], ◌∷◌, ◌++◌,
}
use doge_connect.Structs.{PeerStats}

unfoldable pub is_empty : List ℕ → Bool
is_empty [] = true
is_empty (c ∷ cs) = false

-- The first loop of `qubicReceiveLoop`, over the peers' addresses and ports.
unfoldable pub name_peers : List (List ℕ × ℕ) → List PeerStats → List PeerStats
name_peers [] peers = peers
name_peers (address ∷ addresses) [] = []
name_peers ((ip, port) ∷ addresses) (ps ∷ peers) =
    record ps { ip = ip; port = port } ∷ name_peers addresses peers

-- An entry of `peerStatsJson`.
pub record PeerRow : Type 0 where
  pub peer : PeerStats
  pub connected : Bool

unfoldable pub peer_rows : List PeerStats → List PeerRow
peer_rows [] = []
peer_rows (ps ∷ peers) =
    let rest = peer_rows peers in
    if is_empty ps.ip then rest else record { peer = ps; connected = false } ∷ rest

-- The loop over the connections, as far as there are entries.
unfoldable pub mark_connected : List Bool → List PeerRow → List PeerRow
mark_connected [] rows = rows
mark_connected (is_connected ∷ connections) [] = []
mark_connected (is_connected ∷ connections) (row ∷ rows) =
    record row { connected = is_connected } ∷ mark_connected connections rows

unfoldable pub peer_file : List Bool → List PeerStats → List PeerRow
peer_file connections peers = mark_connected connections (peer_rows peers)

-- A character in front of a text, in which the last '/' is at the position that is given.
unfoldable pub slash_before : ℕ → Option ℕ → Option ℕ
slash_before c (some i) = some (i + 1)
slash_before c none = if c == b'/' then some 0 else none

-- `rfind('/')`.
unfoldable pub last_slash : List ℕ → Option ℕ
last_slash [] = none
last_slash (c ∷ cs) = slash_before c (last_slash cs)

abbrev pub peerstats_json : List ℕ
peerstats_json =
    b'p' ∷ b'e' ∷ b'e' ∷ b'r' ∷ b's' ∷ b't' ∷ b'a' ∷ b't' ∷ b's' ∷ b'.' ∷ b'j' ∷ b's' ∷ b'o' ∷ b'n'
    ∷ []

unfoldable pub peer_stats_at : List ℕ → Option ℕ → List ℕ
peer_stats_at path (some i) = take (i + 1) path ++ peerstats_json
peer_stats_at path none = peerstats_json

unfoldable pub peer_stats_path : (stats_file : List ℕ) → List ℕ
peer_stats_path stats_file = peer_stats_at stats_file (last_slash stats_file)
