-- ===== src/QubicRecv/Reconnect/Scan.antt =====
-- The scan for a peer to reconnect.
use doge_connect.QubicRecv.Reconnect.{
  Peer, Scanned, Outcome, attempt, returns_true, is_ready, scan, try_one_reconnect,
}
use native.Mathlib.Nat.{mod-eq_of_lt, mod_self, mod-add-mod}
use doge_connect.Prelude.{
  ℕ, ltb, leb, Bool-cases, Option-cases, length, get_elem?, zero, suc, ◌+◌, ◌-◌, ◌%◌, ◌≤◌, ◌<◌, ◌≡◌,
  refl, ap, ◌∙◌, ◌⊎◌, inl, inr, true, some, List, arith, set, sym,
}

-- The round-robin order: the position after `next` of `n`.
next_position :
    (n next : ℕ)
    → next < n
    → (((next + 1) % n ≡ next + 1) × (next + 1 < n)) ⊎ (((next + 1) % n ≡ 0) × (next + 1 ≡ n))
next_position n next h = elim (Bool-cases (ltb (next + 1) n)) [
  | inl inside ↦ let lt : next + 1 < n = ground arith in inl (mod-eq_of_lt lt, lt)
  | inr at_end ↦
      let all : next + 1 ≡ n = ground arith in inr (ap (λ (t : ℕ). t % n) all ∙ mod_self n, all)
]

-- A peer whose next attempt is set, for `now` or earlier.
abbrev pub IsDue : ℕ → Peer → Type 0
IsDue now peer = (t : ℕ) × (peer.reconnect_state.next_retry_time ≡ some t) × (t ≤ now)

is_ready-IsDue : (now : ℕ) (peer : Peer) → is_ready now peer.reconnect_state ≡ true → IsDue now peer
unfolding is_ready
is_ready-IsDue now peer h = elim (Option-cases peer.reconnect_state.next_retry_time) [
  | inl never ↦ let bad = rw (never, is_ready) at h in absurd cc
  | inr (t, e) ↦ let due : leb t now ≡ true = rw (e, is_ready) at h in (t, e, ground arith)
]

IsDue-is_ready : (now : ℕ) (peer : Peer) → IsDue now peer → is_ready now peer.reconnect_state ≡ true
unfolding is_ready
IsDue-is_ready now peer (t, e, low) = rw (e, is_ready) (ground arith)

module _ (now : ℕ) (outcome : ℕ → Outcome) (peers : List Peer) (j : ℕ) (peer : Peer)
    (here : get_elem? peers j ≡ some peer) (due : IsDue now peer) where
  -- One peer that is due, at some position `i`, is reconnected, and the others are left; the next
  -- scan starts behind it.
  abbrev pub Tries : Scanned → Type 0
  Tries s =
      (i : ℕ) × (tried : Peer) × (get_elem? peers i ≡ some tried)
      × IsDue now tried
      × (s.peers ≡ set peers i (attempt now (outcome i) tried))
      × (s.tried ≡ some i)
      × (s.established ≡ returns_true (outcome i))
      × (s.next_idx ≡ (i + 1) % length peers)

  ready : is_ready now peer.reconnect_state ≡ true
  ready = IsDue-is_ready now peer due

  -- The position after `next`, wrapped around, is that after `next % n`.
  next_idx-lem : (next : ℕ) → (next + 1) % length peers ≡ (next % length peers + 1) % length peers
  next_idx-lem next = sym (mod-add-mod next (length peers) 1)

  -- `j` lies `d` positions after `next`, around the end if need be.
  abbrev Ahead : ℕ → ℕ → Type 0
  Ahead next d = (next + d ≡ j) ⊎ (next + d ≡ j + length peers)

  Ahead-next : (next d : ℕ) → Ahead next (suc d) → Ahead (next + 1) d
  Ahead-next next d (inl e) = inl (omega arith)
  Ahead-next next d (inr e) = inr (omega arith)

  Ahead-wrap :
      (next d : ℕ) → Ahead next (suc d) → j < length peers → next + 1 ≡ length peers → Ahead 0 d
  Ahead-wrap next d (inl e) hj at_end = absurd (omega arith)
  Ahead-wrap next d (inr e) hj at_end = inl (omega arith)

  scan-Tries :
      (rounds next d : ℕ)
      → next < length peers
      → j < length peers
      → d < rounds
      → Ahead next d
      → Tries (scan rounds now outcome peers next)
  unfolding scan
  scan-Tries zero next d hn hj hd a = absurd (omega arith)
  scan-Tries (suc rounds) next zero hn hj hd a =
      let at : next % length peers ≡ j = mod-eq_of_lt hn ∙ omega (arith, a) in
      let found : get_elem? peers (next % length peers) ≡ some peer = rw at here in
      rw (found, scan)
        (rw ready (next % length peers, peer, found, due, refl, refl, refl, next_idx-lem next))
  scan-Tries (suc rounds) next (suc d) hn hj hd a =
      let i = next % length peers in
      let later : Tries (scan rounds now outcome peers ((next + 1) % length peers)) =
        elim (next_position (length peers) next hn) [
          | inl (e, inside) ↦
              rw e (scan-Tries rounds (next + 1) d inside hj (omega arith) (Ahead-next next d a))
          | inr (e, at_end) ↦
              rw e (
                scan-Tries rounds 0 d (omega arith) hj (omega arith)
                  (Ahead-wrap next d a hj at_end))
        ] in
      elim (Option-cases (get_elem? peers i)) [
        | inl absent ↦ rw (absent, scan) later
        | inr (other, there) ↦ elim (Bool-cases (is_ready now other.reconnect_state)) [
          | inl is_due ↦
              rw (there, scan)
                (rw is_due (
                  i,
                  other,
                  there,
                  is_ready-IsDue now other is_due,
                  refl,
                  refl,
                  refl,
                  next_idx-lem next,
                ))
          | inr waits ↦ rw (there, scan) (rw waits later)
        ]
      ]

  -- When some peer is due, its next attempt being set for now or earlier, the scan reconnects one
  -- peer that is due, from whatever position in the list it starts: that peer becomes what the
  -- outcome of its attempt makes of it, the others stay as they are, and the next scan starts behind
  -- it.
  pub try_one_reconnect-Tries :
      (next : ℕ)
      → next < length peers
      → j < length peers
      → Tries (try_one_reconnect now outcome peers next)
  unfolding try_one_reconnect
  try_one_reconnect-Tries next hn hj = elim (Bool-cases (leb next j)) [
    | inl before ↦
        let low : next ≤ j = ground arith in
        scan-Tries (length peers) next (j - next) hn hj (omega arith) (inl (omega arith))
    | inr behind ↦
        let high : j < next = ground arith in
        scan-Tries (length peers) next (j + length peers - next) hn hj (omega arith)
          (inr (omega arith))
  ]
