-- ===== src/Config/Keys.antt =====
-- The keys of the configuration files of dispatcher/src/config/config.cpp, and a default.
use doge_connect.Prelude.{ℕ, List, [], ◌∷◌}

abbrev pub key_pool : List ℕ
key_pool = b'p' ∷ b'o' ∷ b'o' ∷ b'l' ∷ []

abbrev pub key_url : List ℕ
key_url = b'u' ∷ b'r' ∷ b'l' ∷ []

abbrev pub key_stratum_port : List ℕ
key_stratum_port = b's' ∷ b't' ∷ b'r' ∷ b'a' ∷ b't' ∷ b'u' ∷ b'm' ∷ b'P' ∷ b'o' ∷ b'r' ∷ b't' ∷ []

abbrev pub key_worker_name : List ℕ
key_worker_name = b'w' ∷ b'o' ∷ b'r' ∷ b'k' ∷ b'e' ∷ b'r' ∷ b'N' ∷ b'a' ∷ b'm' ∷ b'e' ∷ []

abbrev pub key_worker_password : List ℕ
key_worker_password =
    b'w' ∷ b'o' ∷ b'r' ∷ b'k' ∷ b'e' ∷ b'r' ∷ b'P' ∷ b'a' ∷ b's' ∷ b's' ∷ b'w' ∷ b'o' ∷ b'r' ∷ b'd'
    ∷ []

abbrev pub key_qubic : List ℕ
key_qubic = b'q' ∷ b'u' ∷ b'b' ∷ b'i' ∷ b'c' ∷ []

abbrev pub key_ips : List ℕ
key_ips = b'i' ∷ b'p' ∷ b's' ∷ []

abbrev pub key_port : List ℕ
key_port = b'p' ∷ b'o' ∷ b'r' ∷ b't' ∷ []

abbrev pub key_identity : List ℕ
key_identity = b'i' ∷ b'd' ∷ b'e' ∷ b'n' ∷ b't' ∷ b'i' ∷ b't' ∷ b'y' ∷ []

abbrev pub key_seed : List ℕ
key_seed = b's' ∷ b'e' ∷ b'e' ∷ b'd' ∷ []

abbrev pub key_stats_file : List ℕ
key_stats_file = b's' ∷ b't' ∷ b'a' ∷ b't' ∷ b's' ∷ b'F' ∷ b'i' ∷ b'l' ∷ b'e' ∷ []

abbrev pub key_dry_run : List ℕ
key_dry_run = b'd' ∷ b'r' ∷ b'y' ∷ b'R' ∷ b'u' ∷ b'n' ∷ []

abbrev pub key_test_dispatcher : List ℕ
key_test_dispatcher =
    b't' ∷ b'e' ∷ b's' ∷ b't' ∷ b'D' ∷ b'i' ∷ b's' ∷ b'p' ∷ b'a' ∷ b't' ∷ b'c' ∷ b'h' ∷ b'e' ∷ b'r'
    ∷ []

abbrev pub key_time_between_jobs_sec : List ℕ
key_time_between_jobs_sec =
    b't' ∷ b'i' ∷ b'm' ∷ b'e' ∷ b'B' ∷ b'e' ∷ b't' ∷ b'w' ∷ b'e' ∷ b'e' ∷ b'n' ∷ b'J' ∷ b'o' ∷ b'b'
    ∷ b's' ∷ b'S' ∷ b'e' ∷ b'c' ∷ []

abbrev pub key_frequency_clear_jobs : List ℕ
key_frequency_clear_jobs =
    b'f' ∷ b'r' ∷ b'e' ∷ b'q' ∷ b'u' ∷ b'e' ∷ b'n' ∷ b'c' ∷ b'y' ∷ b'C' ∷ b'l' ∷ b'e' ∷ b'a' ∷ b'r'
    ∷ b'J' ∷ b'o' ∷ b'b' ∷ b's' ∷ []

abbrev pub default_password : List ℕ
default_password = b'1' ∷ b'2' ∷ b'3' ∷ []
