-- ===== src/TestDispatcher/Jobs.antt =====
-- The jobs of dispatcher/test/testdispatcher/dummy_stratum_recv_thread.cpp.
use doge_connect.Prelude.{
  ℕ, ltb, ◌==◌, if◌then◌else◌, ltb→lt, Bool-cases, ◌>>=◌, length, get_elem?, get_or, zero, suc, ◌+◌,
  ◌%◌, ◌^◌, ◌<◌, ◌≡◌, refl, sym, ap, ◌∙◌, inl, inr, Bool, ◌&&◌, some, List, [], ◌∷◌, ◌++◌,
  append_assoc, append-nil, arith,
}
use native.Mathlib.Nat.{mod-add-mod, zero-mod}
use doge_connect.Concurrency.Queue.{push}
use doge_connect.TestDispatcher.{
  Dummy, clear_flag, push_job, dummy_round, dummy_rounds, first_dummy,
}

-- Every `frequency`-th job is clean, the first among them; none is, when that is 0.
abbrev pub is_clean : (frequency k : ℕ) → Bool
is_clean frequency k = ltb 0 frequency && k % frequency == 0

-- The variables before the `k`-th round.
abbrev pub dummy_at : (size frequency k : ℕ) → Dummy
dummy_at size frequency k = record {
  current_data_index = k % size;
  clear_jobs_index = if ltb 0 frequency then k % frequency else 0;
}

dummy_at-zero : (size frequency : ℕ) → dummy_at size frequency 0 ≡ first_dummy
dummy_at-zero size frequency = elim (Bool-cases (ltb 0 frequency)) [
  | inr never ↦ rw (never, zero-mod size) refl
  | inl often ↦ rw (often, zero-mod size, zero-mod frequency) refl
]

clear_flag-is_clean :
    (frequency k : ℕ)
    → frequency < 2 ^ 32
    → clear_flag frequency (if ltb 0 frequency then k % frequency else 0)
      ≡ (is_clean frequency k, if ltb 0 frequency then (k + 1) % frequency else 0)
unfolding clear_flag
clear_flag-is_clean frequency k small = elim (Bool-cases (ltb 0 frequency)) [
  | inr never ↦ rw never refl
  | inl often ↦
      let pos : 0 < frequency = ltb→lt 0 frequency often in
      let below : k % frequency < frequency = grind arith in
      let kept : (k % frequency + 1) % 2 ^ 32 ≡ k % frequency + 1 = omega (arith, below, small) in
      let next : (k % frequency + 1) % 2 ^ 32 % frequency ≡ (k + 1) % frequency =
        ap (λ (n : ℕ). n % frequency) kept ∙ mod-add-mod k frequency 1 in
      rw often (ap (λ (n : ℕ). (k % frequency == 0, n)) next)
]

get_elem?-get_or :
    {A : Type 0} (xs : List A) (i : ℕ) (d : A)
    → i < length xs
    → get_elem? xs i ≡ some (get_or xs i d)
get_elem?-get_or [] i d h = absurd (omega arith)
get_elem?-get_or (x ∷ xs) zero d h = refl
get_elem?-get_or (x ∷ xs) (suc i) d h = get_elem?-get_or xs i d (omega arith)

module _ {Json : Type 0} (with_clear_flag : Json → Bool → Json) (example : Json)
    (examples : List Json) (frequency : ℕ) (small : frequency < 2 ^ 32) where
  abbrev pub data_of : List Json
  data_of = example ∷ examples

  -- The `n` jobs from the `k`-th on.
  unfoldable pub jobs_from : (k n : ℕ) → List Json
  jobs_from k zero = []
  jobs_from k (suc n) =
      with_clear_flag (get_or data_of (k % length data_of) example) (is_clean frequency k)
      ∷ jobs_from (k + 1) n

  dummy_round-job :
      (k : ℕ) (queue : List Json)
      → dummy_round with_clear_flag data_of frequency (dummy_at (length data_of) frequency k, queue)
        ≡ some (
          dummy_at (length data_of) frequency (k + 1),
          push
              (with_clear_flag (get_or data_of (k % length data_of) example) (is_clean frequency k))
              queue,
        )
  unfolding dummy_round push_job
  dummy_round-job k queue =
      let size = length data_of in
      let inside : k % size < size = grind arith in
      let found = get_elem?-get_or data_of (k % size) example inside in
      ap (push_job with_clear_flag data_of frequency (dummy_at size frequency k) queue) found
      ∙ rw (clear_flag-is_clean frequency k small, mod-add-mod k size 1) refl

  dummy_rounds-jobs :
      (n k : ℕ) (queue : List Json)
      → dummy_rounds with_clear_flag data_of n frequency
          (dummy_at (length data_of) frequency k, queue)
        ≡ some (dummy_at (length data_of) frequency (k + n), queue ++ jobs_from k n)
  unfolding dummy_rounds jobs_from
  dummy_rounds-jobs zero k queue = let e : k + 0 ≡ k = omega arith in rw (e, append-nil) refl
  dummy_rounds-jobs (suc n) k queue =
      let job =
        with_clear_flag (get_or data_of (k % length data_of) example) (is_clean frequency k) in
      let e : k + 1 + n ≡ k + suc n = omega arith in
      ap (λ o. o >>= dummy_rounds with_clear_flag data_of n frequency) (dummy_round-job k queue)
      ∙ dummy_rounds-jobs n (k + 1) (push job queue)
      ∙ rw (e, append_assoc queue (job ∷ []) (jobs_from (k + 1) n)) refl

  -- The thread never reads behind the end of its example data: after `n` rounds it has pushed `n`
  -- jobs, the examples in turn, of which every `frequency`-th is clean, the first among them; none
  -- is, when that is 0.
  pub dummy_rounds-pushes :
      (n : ℕ) (queue : List Json)
      → dummy_rounds with_clear_flag data_of n frequency (first_dummy, queue)
        ≡ some (dummy_at (length data_of) frequency n, queue ++ jobs_from 0 n)
  dummy_rounds-pushes n queue =
      ap (λ d. dummy_rounds with_clear_flag data_of n frequency (d, queue))
        (sym (dummy_at-zero (length data_of) frequency))
      ∙ dummy_rounds-jobs n 0 queue
      ∙ let e : 0 + n ≡ n = omega arith in rw e refl
