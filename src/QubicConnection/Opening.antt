-- ===== src/QubicConnection/Opening.antt =====
-- What openQubicConnection and reconnect of dispatcher/src/connection/qubic_connection.cpp promise.
use doge_connect.Connection.{Verdict, done, failed, waiting, send_message, Sent}
use doge_connect.Connection.Send.{Partial, send_message-Partial}
use doge_connect.QubicConnection.{receive_packet}
use doge_connect.QubicConnection.Open.{
  ConnectAnswer, at_once, in_progress, refused, Network, establishes, handshake_packet, Opened,
  handshake, open_qubic_connection, reconnect, exchange_public_peers_type,
  sizeof_exchange_public_peers,
}
use doge_connect.Prelude.{
  ℕ, ◌==◌, Bool-cases, length, drop, ◌<◌, ◌≡◌, refl, ◌⊎◌, inl, inr, Bool, true, false, List, [],
  ◌++◌, arith, sym, ◌∙◌, ◌≢◌, ◌↔◌,
}

-- The first bytes of the packet that the handshake sends.
abbrev pub IsBeginning : List ℕ → Type 0
IsBeginning sent = sent ++ drop (length sent) handshake_packet ≡ handshake_packet

ConnectAnswer-cases : (a : ConnectAnswer) → (a ≡ at_once) ⊎ ((a ≡ in_progress) ⊎ (a ≡ refused))
ConnectAnswer-cases at_once = inl refl
ConnectAnswer-cases in_progress = inr (inl refl)
ConnectAnswer-cases refused = inr (inr refl)

-- The address is right, and `connect` succeeds at once, or in time and without an error.
unfoldable pub IsEstablished : Network → Type 0
IsEstablished net =
    (net.is_address ≡ true)
    × ((net.connect_answer ≡ at_once)
        ⊎ ((net.connect_answer ≡ in_progress) × (net.is_writable ≡ true) × (net.has_error ≡ false)))

establishes_iff : (net : Network) → (establishes net ≡ true) ↔ IsEstablished net
unfolding establishes IsEstablished
establishes_iff net = elim (ConnectAnswer-cases net.connect_answer) [
  | inl e ↦ rw e (λ h. (ground arith, inl refl), λ h. rw h.0 refl)
  | inr (inl e) ↦ rw e (
    λ h. (ground arith, inr (refl, ground arith, ground arith)),
    λ h. elim h.1 [
      | inl f ↦ absurd cc
      | inr (f, writable, no_error) ↦ rw (h.0, writable, no_error) refl
    ],
  )
  | inr (inr e) ↦
      rw e (λ h. absurd (ground arith), λ h. elim h.1 [ inl f ↦ absurd cc | inr f ↦ absurd cc ])
]

-- What holds of an opened connection, whatever the handshake met with.
unfoldable pub OpensIf : Bool → List ℕ → ℕ → Opened → Type 0
OpensIf established ip port opened =
    (opened.connection.peer_ip ≡ ip)
    × (opened.connection.peer_port ≡ port)
    × (opened.verdict ≡ done → opened.result ≡ established)
    × IsBeginning opened.sent

Verdict-cases : (v : Verdict) → (v ≡ done) ⊎ ((v ≡ failed) ⊎ (v ≡ waiting))
Verdict-cases done = inl refl
Verdict-cases failed = inr (inl refl)
Verdict-cases waiting = inr (inr refl)

prefix_of : (sent : Sent) → Partial handshake_packet sent → IsBeginning sent.taken
unfolding Partial
prefix_of sent partial = partial.0

handshake-OpensIf :
    (net : Network) (ip : List ℕ) (port : ℕ)
    → OpensIf true ip port
        (handshake net (record { is_connected = true; peer_ip = ip; peer_port = port }))
unfolding handshake OpensIf
handshake-OpensIf net ip port =
    let peers =
      receive_packet true exchange_public_peers_type sizeof_exchange_public_peers
        (record { answers = net.reads; asked = [] }) in
    let message = send_message true net.writes handshake_packet in
    let begun : IsBeginning message.taken =
      prefix_of message (send_message-Partial net.writes handshake_packet) in
    elim (Verdict-cases peers.verdict) [
      | inr (inr e) ↦ rw (e, handshake) (refl, refl, λ h. absurd cc, refl)
      | inr (inl e) ↦ rw (e, handshake) (refl, refl, λ h. absurd cc, refl)
      | inl e ↦ elim (Verdict-cases message.verdict) [
        | inl m ↦ rw (e, m, handshake) (refl, refl, λ h. refl, begun)
        | inr (inl m) ↦ rw (e, m, handshake) (refl, refl, λ h. refl, begun)
        | inr (inr m) ↦ rw (e, m, handshake) (refl, refl, λ h. absurd cc, begun)
      ]
    ]

opening-OpensIf :
    (net : Network) (ip : List ℕ) (port : ℕ)
    → OpensIf (establishes net) ip port (open_qubic_connection net ip port)
unfolding open_qubic_connection OpensIf
opening-OpensIf net ip port = elim (Bool-cases (establishes net)) [
  | inl e ↦ rw e (handshake-OpensIf net ip port)
  | inr e ↦ rw e (refl, refl, λ h. refl, refl)
]

-- The node's address is kept, what was sent is the beginning of the handshake packet, and a call
-- that comes to its end succeeds exactly when the connection is established.
unfoldable pub Opens : Network → List ℕ → ℕ → Opened → Type 0
Opens net ip port opened =
    (opened.connection.peer_ip ≡ ip)
    × (opened.connection.peer_port ≡ port)
    × ((opened.verdict ≢ done) ⊎ ((opened.result ≡ true) ↔ IsEstablished net))
    × IsBeginning opened.sent

-- Unless it waits in the handshake, the call succeeds exactly when the address is right and the
-- connection is established, at once, or in time without an error, whatever comes of the handshake.
-- In every case the node's address is kept, and what was sent to it is the beginning of the
-- handshake packet.
pub open_qubic_connection-Opens :
    (net : Network) (ip : List ℕ) (port : ℕ) → Opens net ip port (open_qubic_connection net ip port)
unfolding OpensIf Opens
open_qubic_connection-Opens net ip port =
    let opened = open_qubic_connection net ip port in
    let (same_ip, same_port, succeeds, begins) = opening-OpensIf net ip port in
    let (to, from) = establishes_iff net in
    (
      same_ip,
      same_port,
      elim (Verdict-cases opened.verdict) [
        | inl ends ↦
            inr (λ r. to (sym (succeeds ends) ∙ r), λ established. succeeds ends ∙ from established)
        | inr (inl lost) ↦ inl (λ ends. absurd cc)
        | inr (inr waits) ↦ inl (λ ends. absurd cc)
      ],
      begins,
    )

-- After a call of openQubicConnection with an address and a port, successful or not, a reconnect
-- does the same as opening that address again.
pub reconnect-open_qubic_connection :
    (net later : Network) (ip : List ℕ) (port : ℕ)
    → 0 < length ip
    → 0 < port
    → reconnect later (open_qubic_connection net ip port).connection
      ≡ open_qubic_connection later ip port
unfolding reconnect Opens
reconnect-open_qubic_connection net later ip port some_ip some_port =
    let opens = open_qubic_connection-Opens net ip port in
    let some_ip' : (length ip == 0) ≡ false = ground arith in
    let some_port' : (port == 0) ≡ false = ground arith in
    rw (opens.0, opens.1, some_ip', some_port') refl
