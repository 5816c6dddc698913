-- ===== src/QubicConnection/Open.antt =====
-- openQubicConnection and reconnect of dispatcher/src/connection/qubic_connection.{h,cpp}.
use doge_connect.Connection.{SendAnswer, ReadAnswer, Verdict, done, failed, waiting, send_message}
use doge_connect.Structs.Header.{make_header}
use doge_connect.QubicConnection.{receive_packet}
use doge_connect.Prelude.{
  ℕ, ◌==◌, if◌then◌else◌, length, replicate, ◌+◌, Bool, true, false, not, ◌&&◌, ◌||◌, List, [],
  ◌++◌,
}

-- The socket's flag, `m_peerIp` and `m_peerPort`.
pub record QubicConnection : Type 0 where
  pub is_connected : Bool
  pub peer_ip : List ℕ
  pub peer_port : ℕ

pub data ConnectAnswer : Type 0 where
  at_once in_progress refused : ConnectAnswer

-- What the system answers: `inet_pton`, `connect`, whether `poll` reports the socket as writable
-- in time, whether there is a pending error, and the reads and writes of the handshake.
pub record Network : Type 0 where
  pub is_address : Bool
  pub connect_answer : ConnectAnswer
  pub is_writable : Bool
  pub has_error : Bool
  pub reads : List ReadAnswer
  pub writes : List SendAnswer

-- Whether the code up to `m_socket.isConnected = true` does not return.
unfoldable pub establishes : Network → Bool
establishes net = net.is_address && elim net.connect_answer [
  | at_once ↦ true
  | in_progress ↦ net.is_writable && not net.has_error
  | refused ↦ false
]

abbrev pub exchange_public_peers_type : ℕ
exchange_public_peers_type = 0

abbrev pub sizeof_exchange_public_peers : ℕ
sizeof_exchange_public_peers = 16

abbrev pub request_computors_type : ℕ
request_computors_type = 11

-- An object of an empty class takes a byte.
abbrev pub sizeof_request_computors : ℕ
sizeof_request_computors = 1

-- `packet`, a header and no peers.
unfoldable pub handshake_packet : List ℕ
handshake_packet =
    make_header (8 + sizeof_exchange_public_peers) exchange_public_peers_type
    ++ replicate sizeof_exchange_public_peers 0

-- `verdict` is `waiting` where the handshake still waits.
pub record Opened : Type 0 where
  pub verdict : Verdict
  pub result : Bool
  pub connection : QubicConnection
  pub sent : List ℕ

-- From `m_socket.isConnected = true` on.
unfoldable pub handshake : Network → QubicConnection → Opened
handshake net connection =
    let peers =
      receive_packet true exchange_public_peers_type sizeof_exchange_public_peers
        (record { answers = net.reads; asked = [] }) in
    let message = send_message true net.writes handshake_packet in
    let computors =
      receive_packet message.is_connected request_computors_type sizeof_request_computors
        peers.reader in
    let blocked : Opened = record {
      verdict = waiting;
      result = false;
      connection = connection;
      sent = [];
    } in
    let opened : Opened = record {
      verdict = computors.verdict;
      result = true;
      connection = record connection { is_connected = message.is_connected };
      sent = message.taken;
    } in
    elim peers.verdict [
      | waiting ↦ blocked
      | failed ↦ blocked
      | done ↦ elim message.verdict [
        | waiting ↦ record blocked { sent = message.taken }
        | failed ↦ opened
        | done ↦ opened
      ]
    ]

-- `openQubicConnection`; the old socket is closed first.
unfoldable pub open_qubic_connection : Network → List ℕ → ℕ → Opened
open_qubic_connection net ip port =
    if establishes net
    then handshake net (record { is_connected = true; peer_ip = ip; peer_port = port })
    else record {
      verdict = done;
      result = false;
      connection = record { is_connected = false; peer_ip = ip; peer_port = port };
      sent = [];
    }

unfoldable pub reconnect : Network → QubicConnection → Opened
reconnect net connection =
    if length connection.peer_ip == 0 || connection.peer_port == 0
    then record { verdict = done; result = false; connection = connection; sent = [] }
    else open_qubic_connection net connection.peer_ip connection.peer_port
