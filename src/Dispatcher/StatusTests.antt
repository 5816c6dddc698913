-- ===== src/Dispatcher/StatusTests.antt =====
-- A share and then none, in passes of the status loop, and two peers.
use doge_connect.Prelude.{
  ℕ, ltb, leb, get_elem?, ◌*◌, ◌/◌, ◌^◌, ◌≡◌, refl, true, false, some, [], ◌∷◌, arith,
}
use doge_connect.Structs.{PeerStats}
use doge_connect.Dispatcher.StartUp.{initial_stats}
use doge_connect.Dispatcher.Rates.{
  Doubles, Pass, shares_since, new_rate, update_window, update_rates, status_passes, first_rates,
}
use doge_connect.Dispatcher.Windows.{IsExact}
use doge_connect.Dispatcher.Idle.{
  reaches, Idle, Until, incoming_side, window_of, status_passes-rate,
}
use doge_connect.Dispatcher.PeerFile.{
  is_empty, name_peers, peer_file, peerstats_json, peer_stats_path,
}
use doge_connect.Dispatcher.Peers.{get_elem?-peer_file, peer_file-nil, peer_stats_path-directory}

-- Numbers of nanoseconds and of billionths.
abbrev billionths : Doubles ℕ
billionths = record {
  of_nat = λ n. n * 10 ^ 9;
  seconds = λ n. n;
  mul = λ a b. a * b / 10 ^ 9;
  div = λ a b. a * 10 ^ 9 / b;
  less = ltb;
  at_least = λ a b. leb b a;
}

exact : IsExact billionths
exact = record { positive = λ n. refl; over = λ n. refl }

abbrev pass_at : (seconds : ℕ) → Pass
pass_at seconds = record {
  now = seconds * 10 ^ 9;
  stats = record initial_stats { pool_difficulty = 1; solutions_accepted = 5 };
}

-- 5 shares of 65536 hashes, in 5 seconds.
some_rate :
    (status_passes billionths (pass_at 5 ∷ []) (first_rates billionths 0 0)).incoming.rate
    ≡ 65536 * 10 ^ 9
unfolding status_passes first_rates update_rates update_window new_rate shares_since
some_rate = refl

status_passes-rate_example :
    (window_of incoming_side (
      status_passes billionths (pass_at 600 ∷ pass_at 605 ∷ []) (
        status_passes billionths (pass_at 5 ∷ pass_at 300 ∷ []) (first_rates billionths 0 0)))).rate
    ≡ 0
unfolding first_rates Idle Until reaches
status_passes-rate_example =
    status_passes-rate billionths exact incoming_side 5 (300 * 10 ^ 9)
      (pass_at 5 ∷ pass_at 300 ∷ []) (pass_at 600 ∷ pass_at 605 ∷ []) (first_rates billionths 0 0)
      (omega arith) (omega arith) (omega arith, (omega arith, tt)) (refl, (refl, tt))
      (refl, (refl, tt)) refl refl

abbrev unnamed : PeerStats
unnamed = record {
  ip = [];
  port = 0;
  reconnects = 0;
  solutions_received = 0;
  packets_received = 0;
  bytes_received = 0;
  disconnects = 0;
  send_failures = 0;
}

second_peer :
    get_elem?
      (peer_file
        (true ∷ false ∷ [])
        (name_peers ((b'1' ∷ [], 7) ∷ (b'2' ∷ [], 8) ∷ []) (unnamed ∷ unnamed ∷ [])))
      1
    ≡ some (record { peer = record unnamed { ip = b'2' ∷ []; port = 8 }; connected = false })
unfolding is_empty
second_peer =
    get_elem?-peer_file 1 (b'2' ∷ []) 8 false unnamed ((b'1' ∷ [], 7) ∷ (b'2' ∷ [], 8) ∷ [])
      (true ∷ false ∷ []) (unnamed ∷ unnamed ∷ []) (refl, (refl, tt)) refl refl refl

no_entries : peer_file (true ∷ []) (unnamed ∷ []) ≡ []
unfolding is_empty
no_entries = peer_file-nil (true ∷ []) (unnamed ∷ []) (refl, tt)

-- `d/s`, or `s` alone.
beside :
    (peer_stats_path (b'd' ∷ b'/' ∷ b's' ∷ []) ≡ b'd' ∷ b'/' ∷ peerstats_json)
    × (peer_stats_path (b's' ∷ []) ≡ peerstats_json)
beside = peer_stats_path-directory (b'd' ∷ []) (b's' ∷ []) (refl, tt)
