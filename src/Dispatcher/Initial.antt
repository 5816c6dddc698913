-- ===== src/Dispatcher/Initial.antt =====
-- What main of dispatcher/src/dispatcher.cpp prints of the seed, the peers it connects, and the values
-- with which it starts.
use doge_connect.Prelude.{
  ℕ, leb, ◌==◌, Bool-cases, length, take, drop, replicate, length-drop, take-all, length-replicate,
  all_bytes-IsBytes, zero, suc, ◌+◌, ◌≡◌, refl, ap, ap₂, ◌∙◌, inl, inr, true, false, ◌||◌, some,
  List, [], ◌∷◌, ◌++◌, map, arith,
}
use doge_connect.Structs.{num_computors}
use doge_connect.Difficulty.Base.{base_compact, of_compact_rep-full_rep, compact_of_full-base}
use doge_connect.Difficulty.Stricter.{full_of_compact-IsBytes}
use doge_connect.Difficulty.Compact.{length-full_of_compact}
use doge_connect.QubicConnection.Open.{QubicConnection, Network, reconnect}
use doge_connect.QubicConnection.Opening.{Opens, open_qubic_connection-Opens}
use doge_connect.ShareValid.Counters.{Balanced, sum}
use doge_connect.EndToEnd.Found.{IsTarget}
use doge_connect.Dispatcher.StartUp.{
  masked_seed, initial_stats, base_difficulty, connect_peers, connection_of,
}

-- The first and the last three letters, and stars between.
abbrev pub mask_of : List ℕ → List ℕ
mask_of seed = take 3 seed ++ (replicate 49 b'*' ++ drop 52 seed)

pub masked_seed-mask_of :
    (seed : List ℕ) → length seed ≡ 55 → masked_seed seed ≡ some (mask_of seed)
unfolding masked_seed
masked_seed-mask_of seed len =
    let long : leb 52 (length seed) ≡ true = rw len refl in
    let last = take-all 3 (drop 52 seed) (omega (arith, length-drop 52 seed, len)) in
    rw (long, last) refl

-- A connection's address.
abbrev pub address : QubicConnection → List ℕ × ℕ
address c = (c.peer_ip, c.peer_port)

address-reconnect :
    (net : Network) (ip : List ℕ) (port : ℕ)
    → address (
        connection_of
          (reconnect net (record { is_connected = false; peer_ip = ip; peer_port = port })))
      ≡ (ip, port)
unfolding reconnect Opens
address-reconnect net ip port = elim (Bool-cases (length ip == 0 || port == 0)) [
  | inl empty ↦ rw (empty, reconnect) refl
  | inr there ↦
      let opens = open_qubic_connection-Opens net ip port in
      rw (there, reconnect) (rw (opens.0, opens.1) refl)
]

pub addresses :
    (network : ℕ → Network) (i : ℕ) (ips : List (List ℕ)) (port : ℕ)
    → map address (map connection_of (connect_peers network i ips port))
      ≡ map (λ ip. (ip, port)) ips
unfolding connect_peers
addresses network i [] port = refl
addresses network i (ip ∷ ips) port =
    ap₂ (◌∷◌) (address-reconnect (network i) ip port) (addresses network (i + 1) ips port)

sum-replicate : (n : ℕ) → sum (replicate n 0) ≡ 0
unfolding sum
sum-replicate zero = refl
sum-replicate (suc n) = omega (arith, sum-replicate n)

pub initial_stats-Balanced : Balanced 0 initial_stats
initial_stats-Balanced = record {
  verdicts = refl;
  passed = refl;
  shares = rw (sum-replicate num_computors) refl;
  computors = length-replicate {A = ℕ} num_computors 0;
}

pub base_difficulty-IsTarget : IsTarget base_difficulty
base_difficulty-IsTarget =
    let full = of_compact_rep-full_rep base_compact in
    record {
      bytes = rw full (full_of_compact-IsBytes base_compact (all_bytes-IsBytes base_compact refl));
      size = ap length full ∙ length-full_of_compact base_compact;
      compact = compact_of_full-base;
    }
