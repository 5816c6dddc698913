-- ===== src/ShareValid/Counters.antt =====
-- The counters of the validation loop add up.
use doge_connect.Structs.{
  DispatcherMiningSolution, DispatcherMiningTask, DispatcherStats, incr, num_computors,
}
use doge_connect.Concurrency.HashMap.{get}
use doge_connect.ShareValid.Cases.{check_share-cases}
use doge_connect.ShareValid.{
  ShareState, ShareInput, computor_idx, count_share, accept, check_share, begin_share, find_task,
  validate_share, validate_shares, dedupe_key, counts,
}
use doge_connect.Prelude.{
  ltb, Bool-cases, Option-cases, length, set, length-set, get_or, ℕ, zero, suc, ◌+◌, ◌%◌, ◌^◌, ◌<◌,
  ◌≡◌, refl, inl, inr, true, List, [], ◌∷◌, arith,
}

unfoldable pub sum : List ℕ → ℕ
sum [] = 0
sum (x ∷ xs) = x + sum xs

sum-set : (xs : List ℕ) (i v : ℕ) → i < length xs → sum (set xs i v) + get_or xs i 0 ≡ sum xs + v
unfolding sum
sum-set [] i v h = absurd (omega arith)
sum-set (x ∷ xs) zero v h = omega arith
sum-set (x ∷ xs) (suc i) v h = omega (arith, sum-set xs i v (omega arith))

-- All counters but that of the solutions received, which is `pending` ahead.
pub record Balanced (pending : ℕ) (s : DispatcherStats) : Type 0 where
  pub verdicts :
      s.solutions_received
      ≡ (s.solutions_accepted + s.solutions_rejected + s.solutions_stale + pending) % 2 ^ 64
  pub passed : s.solutions_passed_pool_diff ≡ s.solutions_accepted
  pub shares : sum s.computor_shares % 2 ^ 64 ≡ s.solutions_accepted
  pub computors : length s.computor_shares ≡ num_computors

-- The computor's index is always in range of the counters.
pub computor_idx-lt : (sol : DispatcherMiningSolution) → computor_idx sol < num_computors
unfolding computor_idx
computor_idx-lt sol = omega arith

begin_share-Balanced :
    (sol : DispatcherMiningSolution) (st : ShareState)
    → Balanced 0 st.stats
    → Balanced 1 (begin_share sol st).stats
unfolding begin_share
begin_share-Balanced sol st b = ground arith

-- A counted share raises one computor's counter and no verdict.
record Counted (before after : DispatcherStats) : Type 0 where
  received : after.solutions_received ≡ before.solutions_received
  accepted : after.solutions_accepted ≡ before.solutions_accepted
  rejected : after.solutions_rejected ≡ before.solutions_rejected
  stale : after.solutions_stale ≡ before.solutions_stale
  passed : after.solutions_passed_pool_diff ≡ before.solutions_passed_pool_diff
  shares : sum after.computor_shares % 2 ^ 64 ≡ (sum before.computor_shares + 1) % 2 ^ 64
  computors : length after.computor_shares ≡ length before.computor_shares

count_share-Counted :
    (idx now : ℕ) (s : DispatcherStats)
    → idx < length s.computor_shares
    → length s.computor_shares ≡ num_computors
    → Counted s (count_share idx now s)
unfolding count_share
count_share-Counted idx now s h len =
    let old = get_or s.computor_shares idx 0 in
    let split = sum-set s.computor_shares idx (incr old) h in
    let same = length-set s.computor_shares idx (incr old) in
    let inside : ltb idx num_computors ≡ true = ground arith in
    rw inside (record {
      received = refl;
      accepted = refl;
      rejected = refl;
      stale = refl;
      passed = refl;
      shares = omega (arith, split);
      computors = same;
    })

module _ (scrypt : List ℕ → List ℕ) (worker_name : List ℕ) where
  accept-Balanced :
      (input : ShareInput) (task : DispatcherMiningTask) (st : ShareState)
      → Balanced 1 st.stats
      → Balanced 0 (accept scrypt worker_name input task st).stats
  unfolding accept
  accept-Balanced input task st b =
      let s = record st.stats { solutions_accepted = incr st.stats.solutions_accepted } in
      let inside = computor_idx-lt input.solution in
      let c =
        count_share-Counted (computor_idx input.solution) input.now s
          (omega (arith, inside, b.computors)) b.computors in
      elim (Bool-cases input.connected) [
        | inl up ↦ rw up (omega (arith, c, b))
        | inr down ↦ rw down (omega (arith, c, b))
      ]

  check_share-Balanced :
      (input : ShareInput) (task : DispatcherMiningTask) (st : ShareState)
      → Balanced 1 st.stats
      → Balanced 0 (check_share scrypt worker_name input task st).stats
  check_share-Balanced input task st b = elim (check_share-cases scrypt worker_name input task st) [
    | inl rejected ↦ rw rejected (omega (arith, b))
    | inr (sound, accepted) ↦ rw accepted (accept-Balanced input task st b)
  ]

  find_task-Balanced :
      (input : ShareInput) (st : ShareState)
      → Balanced 1 st.stats
      → Balanced 0 (find_task scrypt worker_name input st).stats
  unfolding find_task
  find_task-Balanced input st b =
      elim (Option-cases (get input.active_tasks input.solution.job_id)) [
        | inl absent ↦ rw (absent, find_task) (omega (arith, b))
        | inr (task, active) ↦ rw (active, find_task) (check_share-Balanced input task st b)
      ]

  validate_share-Balanced :
      (input : ShareInput) (st : ShareState)
      → Balanced 0 st.stats
      → Balanced 0 (validate_share scrypt worker_name input st).stats
  unfolding validate_share
  validate_share-Balanced input st b =
      elim (Bool-cases (counts st.recent_submits (dedupe_key input.solution))) [
        | inl known ↦ rw known b
        | inr new ↦ rw new (find_task-Balanced input _ (begin_share-Balanced input.solution st b))
      ]

  -- Over any run of the loop the counters stay in balance, modulo 2 ^ 64: the solutions received
  -- are those accepted, rejected and stale together, and the computors' shares add up to those
  -- accepted.
  pub validate_shares-Balanced :
      (inputs : List ShareInput) (st : ShareState)
      → Balanced 0 st.stats
      → Balanced 0 (validate_shares scrypt worker_name inputs st).stats
  unfolding validate_shares
  validate_shares-Balanced [] st b = b
  validate_shares-Balanced (input ∷ inputs) st b =
      validate_shares-Balanced inputs _ (validate_share-Balanced input st b)
