-- ===== src/ShareValid/Cases.antt =====
-- The ways through one round of the validation loop.
use doge_connect.Structs.{DispatcherMiningTask, extra_nonce2_num_bytes}
use doge_connect.Difficulty.{verify_hash_vs_target}
use doge_connect.ShareValid.{ShareState, ShareInput, full_header, reject, accept, check_share}
use doge_connect.Prelude.{
  ◌==◌, ==_iff, Bool-cases, length, ℕ, ◌≡◌, refl, sym, ◌⊎◌, inl, inr, true, List,
}

module _ (scrypt : List ℕ → List ℕ) (worker_name : List ℕ) where
  -- The solution passes the three checks against its task.
  pub record IsSound (input : ShareInput) (task : DispatcherMiningTask) : Type 0 where
    pub extra_nonce2 : length input.solution.extra_nonce2 ≡ extra_nonce2_num_bytes
    pub header : length (full_header task input.solution) ≡ 80
    pub target :
        verify_hash_vs_target (scrypt (full_header task input.solution)) task.target_pool ≡ true

  module _ (input : ShareInput) (task : DispatcherMiningTask) (st : ShareState) where
    pub check_share_sound :
        IsSound input task
        → check_share scrypt worker_name input task st ≡ accept scrypt worker_name input task st
    unfolding check_share
    check_share_sound s =
        let a : (extra_nonce2_num_bytes == length input.solution.extra_nonce2) ≡ true =
          (==_iff _ _).1 (sym s.extra_nonce2) in
        let b : (length (full_header task input.solution) == 80) ≡ true = (==_iff _ _).1 s.header in
        rw (a, b, s.target) refl

    pub check_share-cases :
        (check_share scrypt worker_name input task st ≡ reject st)
        ⊎ (IsSound input task
            × (check_share scrypt worker_name input task st
                ≡ accept scrypt worker_name input task st))
    unfolding check_share
    check_share-cases =
        elim (Bool-cases (extra_nonce2_num_bytes == length input.solution.extra_nonce2)) [
          | inr a ↦ inl (rw a refl)
          | inl a ↦ elim (Bool-cases (length (full_header task input.solution) == 80)) [
            | inr b ↦ inl (rw (a, b) refl)
            | inl b ↦
                elim (Bool-cases (
                  verify_hash_vs_target (scrypt (full_header task input.solution))
                    task.target_pool)) [
                      | inr c ↦ inl (rw (a, b, c) refl)
                      | inl c ↦ inr (
                        record {
                          extra_nonce2 = sym ((==_iff _ _).0 a);
                          header = (==_iff _ _).0 b;
                          target = c;
                        },
                        rw (a, b, c) refl,
                      )
                    ]
          ]
        ]
