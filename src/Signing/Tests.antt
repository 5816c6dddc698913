-- ===== src/Signing/Tests.antt =====
-- A signing context of one seed.
use doge_connect.Signing.{
  Primitives, DispatcherSigningContext, init_signing_context, offsets, IsLowercase,
  init_signing_context-derives, init_signing_context-only,
}
use doge_connect.Prelude.{
  ℕ, length, take, replicate, zero, suc, ◌≡◌, refl, some, List, ◌++◌, reverse, arith,
}

-- Stand-ins for the primitives.
abbrev toy : Primitives
toy = record {
  k12 = λ bytes. take 32 (bytes ++ replicate 32 1);
  public_of_private = reverse;
  sign = λ subseed key digest. subseed ++ digest;
}

abbrev seed : List ℕ
seed = replicate 55 b'c'

abbrev context : DispatcherSigningContext
context = record {
  subseed = toy.k12 (offsets seed);
  public_key = toy.public_of_private (toy.k12 (toy.k12 (offsets seed)));
}

all_letters : (n : ℕ) → IsLowercase (replicate n b'c')
all_letters zero = tt
all_letters (suc n) = ((omega arith, omega arith), all_letters n)

derived_context : init_signing_context toy seed ≡ some context
derived_context = init_signing_context-derives toy seed refl (all_letters 55)

accepted_seed : (length seed ≡ 55) × IsLowercase seed
accepted_seed =
    init_signing_context-only toy seed {ctx = context}
      (init_signing_context-derives toy seed refl (all_letters 55))
