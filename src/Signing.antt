-- ===== src/Signing.antt =====
-- dispatcher/src/crypto/dispatcher_signing.{h,cpp} and the derivation of keys in
-- dispatcher/src/crypto/key_utils.cpp. KangarooTwelve and the curve's operations are parameters.
mod Tests
use doge_connect.Prelude.{
  ℕ, ltb, ◌==◌, if◌then◌else◌, ==_iff, Bool-cases, Option-cases, length, All, ◌-◌, ◌≤◌, ◌≡◌, refl,
  inl, inr, true, not, ◌||◌, Option, none, some, List, [], ◌∷◌, map, arith, leb, ltb→lt, lt→ltb,
  leb→le, tests, ◌>>=◌, get_elem?, set, length-append, length-set, get_elem?-set_self,
  get_elem?-set_ne, get_or, take, drop, replicate, take-append-drop, length-take, length-drop,
  take-all, length-reverse, take-append, drop-append, drop-drop, take-append_le, drop-append_le,
  get_or-drop, length-replicate, length-map, All-append, IsBytes, le_value, to_le, le_value-nil,
  le_value-cons, length-to_le, to_le-IsBytes, le_value-lt, le_value-lt_pow, le_value-to_le,
  to_le-le_value, le_value-append, le_value-take-suc, le_value-take-add, le_value-replicate,
  get_or-replicate, get_or-set_ne, take-IsBytes, drop-IsBytes, get_or-lt_byte, append-IsBytes,
  le_value-set, prefix-lt, reverse-IsBytes, all_bytes, all_bytes-IsBytes, bit_or_disjoint,
  bit_and_bit, zero, suc, ◌+◌, ◌*◌, ◌/◌, ◌%◌, ◌^◌, ◌<◌, min, bit_and, bit_or, sym, ap, ap₂, ◌∙◌,
  ◌≢◌, ◌↔◌, ◌⊎◌, Bool, false, ◌&&◌, ◌++◌, foldl, reverse, append_assoc, append-nil,
}

pub record DispatcherSigningContext : Type 0 where
  pub subseed : List ℕ
  pub public_key : List ℕ

-- The primitives that key_utils.cpp calls: `KangarooTwelve(data, n, out, 32)`, `ecc_mul_fixed`
-- with `encode`, and `sign(subseed, publicKey, digest, out)`.
pub record Primitives : Type 0 where
  pub k12 : List ℕ → List ℕ
  pub public_of_private : List ℕ → List ℕ
  pub sign : List ℕ → List ℕ → List ℕ → List ℕ

-- The loop over the seed's letters; `none` is the early `return false`.
unfoldable pub seed_bytes : List ℕ → Option (List ℕ)
seed_bytes [] = some []
seed_bytes (c ∷ cs) = elim (seed_bytes cs) [
  | none ↦ none
  | some bs ↦ if ltb c b'a' || ltb b'z' c then none else some ((c - b'a') ∷ bs)
]

module _ (p : Primitives) where
  -- `getSubseedFromSeed`, of 55 letters.
  unfoldable pub subseed_from_seed : List ℕ → Option (List ℕ)
  subseed_from_seed seed = elim (seed_bytes seed) [ none ↦ none | some bs ↦ some (p.k12 bs) ]

  unfoldable pub private_key_from_subseed : List ℕ → List ℕ
  private_key_from_subseed = p.k12

  unfoldable pub public_key_from_private_key : List ℕ → List ℕ
  public_key_from_private_key = p.public_of_private

  -- `initSigningContext`; `none` is `false`.
  unfoldable pub init_signing_context : List ℕ → Option DispatcherSigningContext
  init_signing_context seed =
      if not (length seed == 55) then none else elim (subseed_from_seed seed) [
        | none ↦ none
        | some subseed ↦ some (record {
          subseed = subseed;
          public_key = public_key_from_private_key (private_key_from_subseed subseed);
        })
      ]

  -- `signTaskPacket`.
  unfoldable pub sign_task_packet : DispatcherSigningContext → List ℕ → List ℕ
  sign_task_packet ctx bytes = p.sign ctx.subseed ctx.public_key (p.k12 bytes)

-- A seed of lowercase letters.
abbrev pub IsLowercase : List ℕ → Type 0
IsLowercase = All (λ c. (b'a' ≤ c) × (c ≤ b'z'))

-- The positions of the letters in the alphabet.
abbrev pub offsets : List ℕ → List ℕ
offsets = map (λ c. c - b'a')

seed_bytes-some : (cs : List ℕ) → IsLowercase cs → seed_bytes cs ≡ some (offsets cs)
unfolding seed_bytes
seed_bytes-some [] h = refl
seed_bytes-some (c ∷ cs) h = rw (seed_bytes-some cs h.1, seed_bytes) (ground arith)

seed_bytes-IsLowercase : (cs : List ℕ) {bs : List ℕ} → seed_bytes cs ≡ some bs → IsLowercase cs
unfolding seed_bytes
seed_bytes-IsLowercase [] e = tt
seed_bytes-IsLowercase (c ∷ cs) {bs} e = elim (Option-cases (seed_bytes cs)) [
  | inl bad ↦ let no = rw (bad, seed_bytes) at e in cc
  | inr (rest, good) ↦
      let step = rw (good, seed_bytes) at e in (ground arith, seed_bytes-IsLowercase cs good)
]

module _ (p : Primitives) (seed : List ℕ) where
  -- From 55 lowercase letters a context is derived: the subseed is the hash of their positions in
  -- the alphabet, and the public key that of the subseed's hash.
  pub init_signing_context-derives :
      length seed ≡ 55
      → IsLowercase seed
      → init_signing_context p seed
        ≡ some (record {
          subseed = p.k12 (offsets seed);
          public_key = p.public_of_private (p.k12 (p.k12 (offsets seed)));
        })
  unfolding init_signing_context subseed_from_seed private_key_from_subseed
      public_key_from_private_key
  init_signing_context-derives len low =
      let e : (length seed == 55) ≡ true = (==_iff _ _).1 len in
      rw (e, seed_bytes-some seed low) refl

  -- A context is derived from nothing but 55 lowercase letters.
  pub init_signing_context-only :
      {ctx : DispatcherSigningContext}
      → init_signing_context p seed ≡ some ctx
      → (length seed ≡ 55) × IsLowercase seed
  unfolding init_signing_context subseed_from_seed
  init_signing_context-only h = elim (Bool-cases (length seed == 55)) [
    | inr long ↦ let bad = rw long at h in cc
    | inl len ↦ elim (Option-cases (seed_bytes seed)) [
      | inl odd ↦ let bad = rw (len, odd) at h in cc
      | inr (bs, good) ↦ ((==_iff _ _).0 len, seed_bytes-IsLowercase seed good)
    ]
  ]
