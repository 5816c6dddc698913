-- ===== src/TestMiner/Tried.antt =====
-- What the search of dispatcher/test/testminer/mining_thread.cpp sends, as long as neither a stop nor
-- a new job is signalled.
use doge_connect.Prelude.{
  ℕ, leb, replicate, zero, suc, ◌+◌, ◌%◌, ◌^◌, ◌<◌, ◌≡◌, refl, ap, ap₂, ◌∙◌, true, false, List, [],
  ◌∷◌, ◌++◌, append_assoc, append-nil, arith, ◌==◌, Bool-cases, ◌≢◌, ◌⊎◌, inl, inr,
}
use doge_connect.TestMiner.Search.{
  Miner, Search, at, uint32_max, next_nonce, report, count_found, passed_target, packet_of,
}
use doge_connect.TestMiner.Threads.{
  System, Event, miner_turn, searching, try_nonce, place, miner_at, step, run,
}

-- The search at the `n`-th nonce from here.
abbrev pub later : ℕ → Search → Search
later n q = record q { nonce = (q.nonce + n) % 2 ^ 32 }

abbrev pub turns : ℕ → List Event
turns n = replicate n miner_turn

-- A system whose miner is at `q`, with neither flag set.
abbrev pub at_search : Search → System → System
at_search q s = record s { miner = searching q; start_new_job = false; stop_requested = false }

next_nonce-later : (q : Search) → next_nonce q ≡ at (later 1 q)
unfolding next_nonce
next_nonce-later q =
    let small : leb ((q.nonce + 1) % 2 ^ 32) uint32_max ≡ true = ground arith in rw small refl

later-suc : (n : ℕ) (q : Search) → later n (later 1 q) ≡ later (suc n) q
later-suc n q =
    let e : ((q.nonce + 1) % 2 ^ 32 + n) % 2 ^ 32 ≡ (q.nonce + suc n) % 2 ^ 32 = omega arith in
    ap (λ (k : ℕ). record q { nonce = k }) e

later-zero : (q : Search) → q.nonce < 2 ^ 32 → later 0 q ≡ q
later-zero q small =
    let e : (q.nonce + 0) % 2 ^ 32 ≡ q.nonce = omega (arith, small) in
    ap (λ (k : ℕ). record q { nonce = k }) e

module _ (m : Miner) where
  -- What the next `n` passes send, in order.
  unfoldable pub reports : ℕ → Search → List (List ℕ)
  reports zero q = []
  reports (suc n) q = report m q ++ reports n (later 1 q)

  -- The counter after them.
  unfoldable pub found_after : ℕ → Search → ℕ → ℕ
  found_after zero q found = found
  found_after (suc n) q found = found_after n (later 1 q) (count_found m q found)

  abbrev pub searched : ℕ → Search → System → System
  searched n q s = record s {
    solutions_found = found_after n q s.solutions_found;
    sent = s.sent ++ reports n q;
  }

  one_turn :
      (q : Search) (s : System)
      → step m miner_turn (at_search q s)
        ≡ at_search (later 1 q) (record s {
          solutions_found = count_found m q s.solutions_found;
          sent = s.sent ++ report m q;
        })
  unfolding step miner_at try_nonce place
  one_turn q s = rw (next_nonce-later q) refl

  -- What is sent of the next `n` nonces: a packet of each whose hash passes the target or that 10000
  -- divides, and nothing of the others.
  unfoldable pub Reported : ℕ → Search → List (List ℕ) → Type 0
  Reported zero q packets = packets ≡ []
  Reported (suc n) q packets =
      (((passed_target m q ≡ true) ⊎ (q.nonce % 10000 ≡ 0))
        × ((rest : List (List ℕ)) × (packets ≡ packet_of m q ∷ rest) × Reported n (later 1 q) rest))
      ⊎ ((passed_target m q ≡ false) × (q.nonce % 10000 ≢ 0) × Reported n (later 1 q) packets)

  reports-Reported : (n : ℕ) (q : Search) → Reported n q (reports n q)
  unfolding Reported reports report
  reports-Reported zero q = refl
  reports-Reported (suc n) q =
      let rest = reports-Reported n (later 1 q) in
      elim (Bool-cases (passed_target m q)) [
        | inl passes ↦ inl (inl passes, (reports n (later 1 q), rw passes refl, rest))
        | inr fails ↦ elim (Bool-cases (q.nonce % 10000 == 0)) [
          | inl divides ↦
              inl (inr (ground arith), (reports n (later 1 q), rw (fails, divides) refl, rest))
          | inr not_divided ↦
              inr (fails, (λ e. absurd (ground arith)), rw (fails, not_divided) rest)
        ]
      ]

  pub run-searched :
      (n : ℕ) (q : Search) (s : System)
      → q.nonce < 2 ^ 32
      → run m (turns n) (at_search q s) ≡ at_search (later n q) (searched n q s)
  unfolding run reports found_after
  run-searched zero q s small = rw (later-zero q small, append-nil) refl
  run-searched (suc n) q s small =
      let s' : System = record s {
        solutions_found = count_found m q s.solutions_found;
        sent = s.sent ++ report m q;
      } in
      ap (run m (turns n)) (one_turn q s)
      ∙ run-searched n (later 1 q) s' (omega arith)
      ∙ ap₂
          (λ (r : Search) (t : List (List ℕ)). at_search r (record s {
            solutions_found = found_after n (later 1 q) (count_found m q s.solutions_found);
            sent = t;
          }))
          (later-suc n q) (append_assoc s.sent (report m q) (reports n (later 1 q)))

  -- As long as neither flag is set, each pass tries the next nonce, from 2 ^ 32 - 1 on to 0 again,
  -- and sends the packet of each that passes the target, or that 10000 divides, and no other; the
  -- counter in `extraNonce2` stays the same, however many passes there are.
  pub run-Reported :
      (n : ℕ) (q : Search) (s : System)
      → q.nonce < 2 ^ 32
      → ((run m (turns n) (at_search q s)).miner ≡ searching (later n q))
        × ((packets : List (List ℕ)) × ((run m (turns n) (at_search q s)).sent ≡ s.sent ++ packets)
            × Reported n q packets)
  run-Reported n q s small =
      let e = run-searched n q s small in
      (
        ap (λ (t : System). t.miner) e,
        (reports n q, ap (λ (t : System). t.sent) e, reports-Reported n q),
      )

  report-found : (q : Search) → passed_target m q ≡ true → report m q ≡ packet_of m q ∷ []
  unfolding report
  report-found q passes = rw passes refl

  reports-found :
      (n k : ℕ) (q : Search)
      → q.nonce < 2 ^ 32
      → k < n
      → passed_target m (later k q) ≡ true
      → (before : List (List ℕ)) × (after : List (List ℕ)) × (reports n q
          ≡ before ++ packet_of m (later k q) ∷ after)
  unfolding reports
  reports-found zero k q small inside passes = absurd (omega arith)
  reports-found (suc n) zero q small inside passes =
      let same = later-zero q small in
      ([], reports n (later 1 q), rw same (rw (report-found q (rw same at passes)) refl))
  reports-found (suc n) (suc k) q small inside passes =
      let (before, after, e) =
        reports-found n k (later 1 q) (omega arith) (omega arith) (rw (later-suc k q) passes) in
      (
        report m q ++ before,
        after,
        rw
            (
              e,
              later-suc k q,
              append_assoc (report m q) before (packet_of m (later (suc k) q) ∷ after),
            )
            refl,
      )

  -- Within the passes that reach it, a nonce whose hash passes the target is found, and its packet
  -- is sent.
  pub search-finds :
      (n k : ℕ) (q : Search) (s : System)
      → q.nonce < 2 ^ 32
      → k < n
      → passed_target m (later k q) ≡ true
      → (before : List (List ℕ)) × (after : List (List ℕ)) × ((run m (turns n) (at_search q s)).sent
          ≡ s.sent ++ (before ++ packet_of m (later k q) ∷ after))
  search-finds n k q s small inside passes =
      let (before, after, e) = reports-found n k q small inside passes in
      (
        before,
        after,
        ap (λ (t : System). t.sent) (run-searched n q s small) ∙ ap (λ t. s.sent ++ t) e,
      )
