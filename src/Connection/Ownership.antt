-- ===== src/Connection/Ownership.antt =====
-- Ownership of descriptors by the `Socket` objects of dispatcher/src/connection/connection.{h,cpp}.
use doge_connect.Connection.Sockets.{
  Socket, Process, invalid_socket, update, close_descriptor, put, reset_at, opened,
}
use mathlib.Core.Option.{some-injective}
use doge_connect.Prelude.{
  ℕ, ◌==◌, if◌then◌else◌, Bool-cases, Option-cases, get_elem?, set, zero, suc, ◌+◌, ◌≤◌, ◌≡◌, refl,
  ap, inl, inr, Bool, true, false, Option, none, some, List, [], ◌∷◌, ◌++◌, arith,
}

abbrev pub holds : ℕ → Option ℕ → ℕ
holds fd none = 0
holds fd (some raw) = if fd == raw then 1 else 0

-- How many of the sockets hold the descriptor.
unfoldable pub owners : ℕ → List Socket → ℕ
owners fd [] = 0
owners fd (s ∷ sockets) = holds fd s.raw_socket + owners fd sockets

abbrev pub bit : Bool → ℕ
bit false = 0
bit true = 1

-- Every open descriptor is held by exactly one socket, and no socket holds another.
unfoldable pub IsOwned : Process → Type 0
IsOwned p = (fd : ℕ) → owners fd p.sockets ≡ bit (p.is_open fd)

-- The system hands out descriptors that were not open.
unfoldable pub IsFresh : Option ℕ → Process → Type 0
IsFresh none p = Unit
IsFresh (some fd) p = p.is_open fd ≡ false

pub owners-append :
    (fd : ℕ) (xs ys : List Socket) → owners fd (xs ++ ys) ≡ owners fd xs + owners fd ys
unfolding owners
owners-append fd [] ys = omega arith
owners-append fd (x ∷ xs) ys = omega (arith, owners-append fd xs ys)

pub owners-set :
    (fd : ℕ) (sockets : List Socket) (i : ℕ) (old new : Socket)
    → get_elem? sockets i ≡ some old
    → owners fd (set sockets i new) + holds fd old.raw_socket
      ≡ owners fd sockets + holds fd new.raw_socket
unfolding owners
owners-set fd [] i old new h = absurd cc
owners-set fd (s ∷ sockets) zero old new h =
    let same : holds fd s.raw_socket ≡ holds fd old.raw_socket =
      ap (λ (t : Socket). holds fd t.raw_socket) (some-injective _ _ h) in
    omega arith
owners-set fd (s ∷ sockets) (suc i) old new h = omega (arith, owners-set fd sockets i old new h)

owners_member :
    (fd : ℕ) (sockets : List Socket) (i : ℕ) (old : Socket)
    → get_elem? sockets i ≡ some old
    → holds fd old.raw_socket ≤ owners fd sockets
owners_member fd sockets i old h = omega (arith, owners-set fd sockets i old invalid_socket h)

module _ (p : Process) (own : IsOwned p) (this : ℕ) (old : Socket)
    (here : get_elem? p.sockets this ≡ some old) where
  -- Where a socket is replaced, the open descriptors change by those it held and holds.
  pub IsOwned-replace :
      (new : Socket) (is_open : ℕ → Bool)
      → ((fd : ℕ)
          → bit (is_open fd) + holds fd old.raw_socket
            ≡ bit (p.is_open fd) + holds fd new.raw_socket)
      → IsOwned (record { sockets = set p.sockets this new; is_open = is_open })
  unfolding IsOwned
  IsOwned-replace new is_open change fd =
      omega (arith, owners-set fd p.sockets this old new here, own fd, change fd)

  -- The descriptor that a socket holds is open, so it can be closed.
  close_descriptor-bits :
      (q : Process) × (close_descriptor old.raw_socket p ≡ some q)
      × (q.sockets ≡ p.sockets)
      × ((fd : ℕ) → bit (q.is_open fd) + holds fd old.raw_socket ≡ bit (p.is_open fd))
  unfolding close_descriptor IsOwned
  close_descriptor-bits = elim (Option-cases old.raw_socket) [
    | inl invalid ↦ rw invalid (p, refl, refl, λ fd. omega arith)
    | inr (raw, held) ↦
        let one : holds raw old.raw_socket ≡ 1 = rw held (ground arith) in
        let is_open : p.is_open raw ≡ true = elim (Bool-cases (p.is_open raw)) [
          | inl e ↦ e
          | inr e ↦
              let zero_bit : bit (p.is_open raw) ≡ 0 = rw e refl in
              absurd (omega (arith, owners_member raw p.sockets this old here, own raw))
        ] in
        let bits : (fd : ℕ)
            → bit (update raw false p.is_open fd) + holds fd (some raw) ≡ bit (p.is_open fd) =
          λ fd. elim (Bool-cases (fd == raw)) [
            | inl same ↦ let e : fd ≡ raw = ground arith in rw same (rw (e, is_open) refl)
            | inr other ↦ rw other (omega arith)
          ] in
        rw held (record p { is_open = update raw false p.is_open }, rw is_open refl, refl, bits)
  ]

  pub reset_at-IsOwned :
      (q : Process) × (reset_at this p ≡ some q)
      × IsOwned q
      × (q.sockets ≡ set p.sockets this invalid_socket)
  unfolding reset_at
  reset_at-IsOwned =
      let (closed, e, same, bits) = close_descriptor-bits in
      let change : (fd : ℕ)
          → bit (closed.is_open fd) + holds fd old.raw_socket ≡ bit (p.is_open fd) + holds fd none =
        λ fd. omega (arith, bits fd) in
      (
        put this invalid_socket closed,
        rw (here, reset_at) (rw e refl),
        rw same (IsOwned-replace invalid_socket closed.is_open change),
        rw same refl,
      )

pub opened-bits :
    (raw : Option ℕ) (p : Process)
    → IsFresh raw p
    → (fd : ℕ) → bit ((opened raw p).is_open fd) ≡ bit (p.is_open fd) + holds fd raw
unfolding IsFresh
opened-bits none p fresh fd = omega arith
opened-bits (some raw) p fresh fd = elim (Bool-cases (fd == raw)) [
  | inl same ↦ let e : fd ≡ raw = ground arith in rw same (rw (e, fresh) refl)
  | inr other ↦ rw other (omega arith)
]

pub opened-sockets : (raw : Option ℕ) (p : Process) → (opened raw p).sockets ≡ p.sockets
opened-sockets none p = refl
opened-sockets (some raw) p = refl

-- No socket at the index.
pub reset_at-absent :
    (this : ℕ) (p : Process) → get_elem? p.sockets this ≡ none → reset_at this p ≡ some p
unfolding reset_at
reset_at-absent this p e = rw (e, reset_at) refl
