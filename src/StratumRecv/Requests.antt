-- ===== src/StratumRecv/Requests.antt =====
-- The requests of dispatcher/src/threads/stratum_recv_thread.cpp, each with its newline.
use doge_connect.Prelude.{ℕ, List, [], ◌∷◌, ◌++◌}

-- `workerName` and `workerPassword`.
pub record Login : Type 0 where
  pub worker_name : List ℕ
  pub worker_password : List ℕ

-- Request 1, and the parts of request 2.
abbrev pub subscribe_request : List ℕ
subscribe_request =
    b'{' ∷ 34 ∷ b'i' ∷ b'd' ∷ 34 ∷ b':' ∷ b' ' ∷ b'1' ∷ b',' ∷ b' ' ∷ 34 ∷ b'm' ∷ b'e' ∷ b't' ∷ b'h'
    ∷ b'o' ∷ b'd' ∷ 34 ∷ b':' ∷ b' ' ∷ 34 ∷ b'm' ∷ b'i' ∷ b'n' ∷ b'i' ∷ b'n' ∷ b'g' ∷ b'.' ∷ b's'
    ∷ b'u' ∷ b'b' ∷ b's' ∷ b'c' ∷ b'r' ∷ b'i' ∷ b'b' ∷ b'e' ∷ 34 ∷ b',' ∷ b' ' ∷ 34 ∷ b'p' ∷ b'a'
    ∷ b'r' ∷ b'a' ∷ b'm' ∷ b's' ∷ 34 ∷ b':' ∷ b' ' ∷ b'[' ∷ b']' ∷ b'}' ∷ 10 ∷ []

abbrev pub authorize_begin : List ℕ
authorize_begin =
    b'{' ∷ 34 ∷ b'i' ∷ b'd' ∷ 34 ∷ b':' ∷ b' ' ∷ b'2' ∷ b',' ∷ b' ' ∷ 34 ∷ b'm' ∷ b'e' ∷ b't' ∷ b'h'
    ∷ b'o' ∷ b'd' ∷ 34 ∷ b':' ∷ b' ' ∷ 34 ∷ b'm' ∷ b'i' ∷ b'n' ∷ b'i' ∷ b'n' ∷ b'g' ∷ b'.' ∷ b'a'
    ∷ b'u' ∷ b't' ∷ b'h' ∷ b'o' ∷ b'r' ∷ b'i' ∷ b'z' ∷ b'e' ∷ 34 ∷ b',' ∷ b' ' ∷ 34 ∷ b'p' ∷ b'a'
    ∷ b'r' ∷ b'a' ∷ b'm' ∷ b's' ∷ 34 ∷ b':' ∷ b' ' ∷ b'[' ∷ 34 ∷ []

abbrev pub between_strings : List ℕ
between_strings = 34 ∷ b',' ∷ b' ' ∷ 34 ∷ []

abbrev pub authorize_end : List ℕ
authorize_end = 34 ∷ b']' ∷ b'}' ∷ 10 ∷ []

unfoldable pub authorize_request : Login → List ℕ
authorize_request login =
    authorize_begin
    ++ (login.worker_name ++ (between_strings ++ (login.worker_password ++ authorize_end)))
