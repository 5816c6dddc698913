-- ===== src/Config/Tests.antt =====
-- A configuration with a seed of 55 letters.
use doge_connect.Signing.{Primitives, DispatcherSigningContext, init_signing_context}
use doge_connect.Config.{ConfigLib, string_at, parse_identity_config}
use doge_connect.Config.Accepts.{parse_identity_config-accepts}
use doge_connect.Prelude.{ℕ, take, replicate, ◌≡◌, refl, ◌↔◌, true, some, List, [], ◌∷◌, reverse}

abbrev toy : Primitives
toy = record {
  k12 = take 32;
  public_of_private = reverse;
  sign = λ subseed key digest. replicate 64 9;
}

-- A value is the text that stands under its keys.
abbrev toy_lib : ConfigLib (List ℕ)
toy_lib = record {
  at = λ j key. some j;
  contains = λ j key. true;
  get_string = λ j. some j;
  get_strings = λ j. some (j ∷ []);
  value_string = λ j key default. some default;
  value_number = λ j key default. some default;
  value_bool = λ j key default. some default;
}

abbrev seed : List ℕ
seed = replicate 55 b'a'

accepted_identity :
    (parse_identity_config toy_lib seed ≡ some (record { seed = seed }))
    ↔ ((ctx : DispatcherSigningContext) × (init_signing_context toy seed ≡ some ctx))
unfolding string_at
accepted_identity = parse_identity_config-accepts toy_lib toy seed seed seed refl refl
