-- ===== src/QubicRecv/Reconnect/Tracked.antt =====
-- No peer is forgotten, and the delays stay within their bounds.
use doge_connect.Structs.{DispatcherMiningSolution}
use doge_connect.QubicRecv.Reconnect.{Peer, schedule_retry, connect_at_start, start}
use doge_connect.Prelude.{
  ℕ, Bool-cases, All, ◌≤◌, ◌≡◌, refl, ◌⊎◌, inl, inr, true, some, List, [], ◌∷◌, arith,
}

-- A peer is connected, or a time is set at which it is tried again; the delay is at most 60 seconds.
pub record IsTracked (peer : Peer) : Type 0 where
  pub alive : (peer.connected ≡ true) ⊎ ((t : ℕ) × (peer.reconnect_state.next_retry_time ≡ some t))
  pub delay : peer.reconnect_state.delay_sec ≤ 60

connect_at_start-IsTracked :
    (now : ℕ) (peer : Peer)
    → peer.reconnect_state.delay_sec ≤ 60
    → IsTracked (connect_at_start now peer)
unfolding connect_at_start schedule_retry
connect_at_start-IsTracked now peer h = elim (Bool-cases peer.connected) [
  | inl up ↦ rw up (record { alive = inl refl; delay = h })
  | inr down ↦ rw down (record { alive = inr (_, refl); delay = omega arith })
]

-- At the start of the loop every peer is so, where the delays begin at 2 seconds.
pub start-IsTracked :
    (now : ℕ) (peers : List Peer) (queue : List DispatcherMiningSolution)
    → All (λ p. p.reconnect_state.delay_sec ≡ 2) peers
    → All IsTracked (start now peers queue).peers
unfolding start
start-IsTracked now [] queue h = tt
start-IsTracked now (peer ∷ peers) queue h =
    (connect_at_start-IsTracked now peer (omega (arith, h.0)), start-IsTracked now peers queue h.1)
