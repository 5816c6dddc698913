-- ===== src/TestMiner/Solutions.antt =====
-- The packet of a solution, read by the dispatcher.
use doge_connect.Structs.{DispatcherMiningSolution, field_at, doge, custom_solution_type}
use doge_connect.Structs.Fields.{field_behind, drop_next, take_first}
use doge_connect.Structs.Header.{make_header, header_type-make_header, length-make_header}
use doge_connect.Concurrency.Queue.{push}
use doge_connect.Signing.{Primitives, DispatcherSigningContext, sign_task_packet}
use doge_connect.QubicRecv.{process_solution, read_solution}
use doge_connect.TestMiner.{solution_bytes, solution_packet, make_header}
use doge_connect.Prelude.{
  length, length-append, get_or, take, drop, take-all, drop-drop, get_or-drop, le_value, to_le,
  length-to_le, le_value-to_le, ℕ, ◌+◌, ◌^◌, ◌<◌, ◌≡◌, refl, sym, ap, ◌∙◌, Bool, true, List, ◌∷◌,
  ◌++◌, append_assoc, arith,
}

-- The fields have the sizes of the struct's arrays.
pub record IsWire (sol : DispatcherMiningSolution) : Type 0 where
  pub job_id : sol.job_id < 2 ^ 64
  pub source_public_key : length sol.source_public_key ≡ 32
  pub n_time : length sol.n_time ≡ 4
  pub nonce : length sol.nonce ≡ 4
  pub merkle_root : length sol.merkle_root ≡ 32
  pub extra_nonce2 : length sol.extra_nonce2 ≡ 8

-- The fields of a packet: 8 bytes of header `h`, the solution, and the signature `s`.
module _ (sol : DispatcherMiningSolution) (w : IsWire sol) (h s : List ℕ)
    (header : length h ≡ 8) where
  abbrev packet : List ℕ
  packet = h ++ (solution_bytes sol ++ s)

  -- What follows the type byte.
  abbrev behind_type : List ℕ
  behind_type = sol.n_time ++ (sol.nonce ++ (sol.merkle_root ++ (sol.extra_nonce2 ++ s)))

  packet-fields :
      packet ≡ h ++ (sol.source_public_key ++ (to_le 8 sol.job_id ++ (doge ∷ behind_type)))
  unfolding solution_bytes
  packet-fields = ap (λ t. h ++ t) (simp append_assoc)

  drop_header : drop 8 packet ≡ solution_bytes sol ++ s
  drop_header = drop_next 8 8 0 h (solution_bytes sol ++ s) header refl

  drop_key : drop 40 packet ≡ to_le 8 sol.job_id ++ (doge ∷ behind_type)
  drop_key =
      ap (drop 40) packet-fields
      ∙ drop_next 40 8 32 h (sol.source_public_key ++ (to_le 8 sol.job_id ++ (doge ∷ behind_type)))
          header refl
      ∙ drop_next 32 32 0 sol.source_public_key (to_le 8 sol.job_id ++ (doge ∷ behind_type))
          w.source_public_key refl

  drop_job : drop 48 packet ≡ doge ∷ behind_type
  drop_job =
      sym (drop-drop 8 40 packet)
      ∙ ap (drop 8) drop_key
      ∙ drop_next 8 8 0 (to_le 8 sol.job_id) (doge ∷ behind_type) (length-to_le 8 sol.job_id) refl

  drop_type : (m : ℕ) → drop (49 + m) packet ≡ drop m behind_type
  drop_type m =
      sym (drop-drop m 49 packet) ∙ ap (drop m) (sym (drop-drop 1 48 packet) ∙ ap (drop 1) drop_job)

  key-packet : field_at 8 32 packet ≡ sol.source_public_key
  key-packet =
      ap (field_at 8 32) packet-fields
      ∙ field_behind 8 32 h sol.source_public_key (to_le 8 sol.job_id ++ (doge ∷ behind_type))
          header w.source_public_key

  type-packet : get_or packet 48 0 ≡ doge
  type-packet = sym (get_or-drop 48 0 packet 0) ∙ ap (λ t. get_or t 0 0) drop_job

  job_id-packet : le_value (field_at 40 8 packet) ≡ sol.job_id
  job_id-packet =
      ap (λ t. le_value (take 8 t)) drop_key
      ∙ ap le_value
          (take_first 8 (to_le 8 sol.job_id) (doge ∷ behind_type) (length-to_le 8 sol.job_id))
      ∙ le_value-to_le 8 sol.job_id w.job_id

  n_time-packet : field_at 49 4 packet ≡ sol.n_time
  n_time-packet =
      ap (take 4) (drop_type 0)
      ∙ take_first 4 sol.n_time (sol.nonce ++ (sol.merkle_root ++ (sol.extra_nonce2 ++ s))) w.n_time

  nonce-packet : field_at 53 4 packet ≡ sol.nonce
  nonce-packet =
      ap (take 4) (drop_type 4)
      ∙ field_behind 4 4 sol.n_time sol.nonce (sol.merkle_root ++ (sol.extra_nonce2 ++ s)) w.n_time
          w.nonce

  merkle_root-packet : field_at 57 32 packet ≡ sol.merkle_root
  merkle_root-packet =
      ap (take 32) (drop_type 8)
      ∙ ap (take 32) (
          drop_next 8 4 4 sol.n_time (sol.nonce ++ (sol.merkle_root ++ (sol.extra_nonce2 ++ s)))
            w.n_time refl)
      ∙ field_behind 4 32 sol.nonce sol.merkle_root (sol.extra_nonce2 ++ s) w.nonce w.merkle_root

  extra_nonce2-packet : field_at 89 8 packet ≡ sol.extra_nonce2
  extra_nonce2-packet =
      ap (take 8) (drop_type 40)
      ∙ ap (take 8) (
          drop_next 40 4 36 sol.n_time (sol.nonce ++ (sol.merkle_root ++ (sol.extra_nonce2 ++ s)))
            w.n_time refl)
      ∙ ap (take 8)
          (drop_next 36 4 32 sol.nonce (sol.merkle_root ++ (sol.extra_nonce2 ++ s)) w.nonce refl)
      ∙ field_behind 32 8 sol.merkle_root sol.extra_nonce2 s w.merkle_root w.extra_nonce2

  length-solution_bytes : length (solution_bytes sol) ≡ 89
  unfolding solution_bytes
  length-solution_bytes = omega (
    arith,
    length-append sol.source_public_key (
        to_le 8 sol.job_id
        ++ (doge ∷ (sol.n_time ++ (sol.nonce ++ (sol.merkle_root ++ sol.extra_nonce2))))),
    length-append (to_le 8 sol.job_id)
        (doge ∷ (sol.n_time ++ (sol.nonce ++ (sol.merkle_root ++ sol.extra_nonce2)))),
    length-to_le 8 sol.job_id,
    length-append sol.n_time (sol.nonce ++ (sol.merkle_root ++ sol.extra_nonce2)),
    length-append sol.nonce (sol.merkle_root ++ sol.extra_nonce2),
    length-append sol.merkle_root sol.extra_nonce2,
    w,
  )

  payload-packet : field_at 8 89 packet ≡ solution_bytes sol
  payload-packet = field_behind 8 89 h (solution_bytes sol) s header length-solution_bytes

  signature-packet : length s ≡ 64 → field_at 97 64 packet ≡ s
  signature-packet len =
      ap (take 64) (drop_next 97 8 89 h (solution_bytes sol ++ s) header refl)
      ∙ ap (take 64) (drop_next 89 89 0 (solution_bytes sol) s length-solution_bytes refl)
      ∙ take-all 64 s (omega arith)

  read_solution-packet : read_solution packet ≡ sol
  unfolding read_solution
  read_solution-packet =
      rw
        (
          key-packet, job_id-packet, n_time-packet, nonce-packet, merkle_root-packet,
          extra_nonce2-packet,
        )
        refl

-- The miner's packet of a solution, read by the dispatcher, puts that very solution into the
-- queue, for fields of their sizes, signatures of 64 bytes, and provided that the signature
-- verifies under the solution's key.
pub process_solution-solution_packet :
    (p : Primitives) (ctx : DispatcherSigningContext) (sol : DispatcherMiningSolution)
    (verify : List ℕ → List ℕ → List ℕ → Bool) (queue : List DispatcherMiningSolution)
    → IsWire sol
    → length (sign_task_packet p ctx (solution_bytes sol)) ≡ 64
    → verify sol.source_public_key
        (p.k12 (solution_bytes sol))
        (sign_task_packet p ctx (solution_bytes sol))
      ≡ true
    → process_solution p.k12 verify (solution_packet p ctx sol) 161 queue ≡ push sol queue
unfolding process_solution solution_packet
process_solution-solution_packet p ctx sol verify queue w len good =
    let h = make_header 161 custom_solution_type in
    let s = sign_task_packet p ctx (solution_bytes sol) in
    let eight = length-make_header 161 custom_solution_type in
    rw
      (
        header_type-make_header 161 custom_solution_type (solution_bytes sol ++ s),
        type-packet sol w h s eight,
        key-packet sol w h s eight,
        payload-packet sol w h s eight,
        signature-packet sol w h s eight len,
        read_solution-packet sol w h s eight,
        good,
      )
      refl
