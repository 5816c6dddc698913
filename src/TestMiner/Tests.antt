-- ===== src/TestMiner/Tests.antt =====
-- A solution's packet, with stand-ins for the primitives.
use doge_connect.Structs.{DispatcherMiningSolution}
use doge_connect.Signing.{Primitives, DispatcherSigningContext, sign_task_packet}
use doge_connect.Concurrency.Queue.{push}
use doge_connect.QubicRecv.{process_solution}
use doge_connect.TestMiner.{solution_packet, solution_bytes}
use doge_connect.TestMiner.Solutions.{IsWire, process_solution-solution_packet}
use doge_connect.Prelude.{
  ℕ, ◌==◌, length, get_or, take, replicate, ◌≡◌, refl, Bool, true, List, [], ◌++◌, reverse, arith,
}

-- The signature begins with the key, which is all that the check compares.
abbrev toy : Primitives
toy = record {
  k12 = take 32;
  public_of_private = reverse;
  sign = λ subseed key digest. key ++ replicate 32 9;
}

abbrev toy_verify : List ℕ → List ℕ → List ℕ → Bool
toy_verify key digest signature = get_or key 0 0 == get_or signature 0 0

abbrev context : DispatcherSigningContext
context = record { subseed = replicate 32 1; public_key = replicate 32 2 }

abbrev solution : DispatcherMiningSolution
solution = record {
  job_id = 1700000000000;
  n_time = replicate 4 3;
  nonce = replicate 4 4;
  merkle_root = replicate 32 5;
  extra_nonce2 = replicate 8 6;
  source_public_key = replicate 32 2;
}

is_wire : IsWire solution
is_wire = record {
  job_id = omega arith;
  source_public_key = refl;
  n_time = refl;
  nonce = refl;
  merkle_root = refl;
  extra_nonce2 = refl;
}

signature_length : (bytes : List ℕ) → length (sign_task_packet toy context bytes) ≡ 64
unfolding sign_task_packet
signature_length bytes = refl

verifies :
    toy_verify solution.source_public_key
      (toy.k12 (solution_bytes solution))
      (sign_task_packet toy context (solution_bytes solution))
    ≡ true
unfolding sign_task_packet
verifies = refl

process_solution-solution_packet_example :
    process_solution toy.k12 toy_verify (solution_packet toy context solution) 161 []
    ≡ push solution []
process_solution-solution_packet_example =
    process_solution-solution_packet toy context solution toy_verify [] is_wire (signature_length _)
      verifies
