-- ===== src/Connection/Steps.antt =====
-- Steps keep the ownership of descriptors by the `Socket` objects of dispatcher/src/connection/connection.{h,cpp}.
use doge_connect.Connection.Sockets.{
  Socket, Process, SocketStep, invalid_socket, from_raw, put, reset_at, opened, steal, append,
  connect_at, open_connection, socket_step, construct, move_construct, move_assign, reset_socket,
  destroy, open_socket,
}
use doge_connect.Connection.Ownership.{
  holds, owners, bit, IsOwned, IsFresh, owners-append, owners-set, IsOwned-replace,
  reset_at-IsOwned, opened-bits, opened-sockets, reset_at-absent,
}
use doge_connect.Prelude.{
  ℕ, ◌==◌, Bool-cases, Option-cases, length, get_elem?, set, get_elem?-set_self, get_elem?-set_ne,
  zero, suc, ◌+◌, ◌<◌, ◌≡◌, refl, sym, ap, ◌∙◌, ◌≢◌, inl, inr, Bool, true, false, Option, none,
  some, List, [], ◌∷◌, arith,
}

-- What a step needs: the object exists, and the system hands out descriptors that were not open.
unfoldable pub IsAllowed : SocketStep → Process → Type 0
IsAllowed (construct raw) p = IsFresh raw p
IsAllowed (move_construct other) p = Unit
IsAllowed (move_assign this other) p = this < length p.sockets
IsAllowed (reset_socket this) p = Unit
IsAllowed (destroy this) p = Unit
IsAllowed (open_socket this is_resolved raw connects) p =
    (this < length p.sockets)
    × ((closed : Process) → reset_at this p ≡ some closed → IsFresh raw closed)

-- A step that leaves an owned process.
abbrev pub Keeps : Option Process → Type 0
Keeps result = (q : Process) × (result ≡ some q) × IsOwned q

reset_at-Keeps : (this : ℕ) (p : Process) → IsOwned p → Keeps (reset_at this p)
reset_at-Keeps this p own = elim (Option-cases (get_elem? p.sockets this)) [
  | inl absent ↦ (p, reset_at-absent this p absent, own)
  | inr (old, here) ↦ let (q, e, own', same) = reset_at-IsOwned p own this old here in (q, e, own')
]

get_elem?-lt :
    {A : Type 0} (xs : List A) (i : ℕ) → i < length xs → (x : A) × (get_elem? xs i ≡ some x)
get_elem?-lt [] i h = absurd (omega arith)
get_elem?-lt (x ∷ xs) zero h = (x, refl)
get_elem?-lt (x ∷ xs) (suc i) h = get_elem?-lt xs i (omega arith)

-- The object at an index is left without a descriptor.
reset_at-empties :
    (this : ℕ) (p : Process)
    → this < length p.sockets
    → IsOwned p
    → (q : Process) × (reset_at this p ≡ some q)
      × IsOwned q
      × (get_elem? q.sockets this ≡ some invalid_socket)
reset_at-empties this p inside own =
    let (old, here) = get_elem?-lt p.sockets this inside in
    let (q, e, own', same) = reset_at-IsOwned p own this old here in
    (q, e, own', rw same (get_elem?-set_self p.sockets this invalid_socket inside))

-- A new object with a fresh descriptor.
construct-IsOwned :
    (raw : Option ℕ) (p : Process)
    → IsOwned p
    → IsFresh raw p
    → IsOwned (append (from_raw raw) (opened raw p))
unfolding IsOwned owners
construct-IsOwned raw p own fresh fd =
    let same : owners fd (opened raw p).sockets ≡ owners fd p.sockets =
      ap (owners fd) (opened-sockets raw p) in
    let last : owners fd (from_raw raw ∷ []) ≡ holds fd raw + 0 = refl in
    omega (
      arith,
      owners-append fd (opened raw p).sockets (from_raw raw ∷ []),
      own fd,
      opened-bits raw p fresh fd,
    )

-- Moving: what `other` held goes to the new holder.
steal-append-IsOwned : (other : ℕ) (p : Process) → IsOwned p → IsOwned (steal other append p)
unfolding IsOwned owners steal
steal-append-IsOwned other p own fd = elim (Option-cases (get_elem? p.sockets other)) [
  | inl absent ↦ rw (absent, steal) (own fd)
  | inr (old, here) ↦
      let moved = set p.sockets other invalid_socket in
      let last : owners fd (from_raw old.raw_socket ∷ []) ≡ holds fd old.raw_socket + 0 = refl in
      rw (here, steal)
        (omega (
          arith,
          owners-append fd moved (from_raw old.raw_socket ∷ []),
          owners-set fd p.sockets other old invalid_socket here,
          own fd,
        ))
]

steal-put-IsOwned :
    (this other : ℕ) (p : Process) (s : Socket)
    → this ≢ other
    → get_elem? p.sockets this ≡ some s
    → s.raw_socket ≡ none
    → IsOwned p
    → IsOwned (steal other (put this) p)
unfolding IsOwned steal
steal-put-IsOwned this other p s distinct here empty own fd =
    elim (Option-cases (get_elem? p.sockets other)) [
      | inl absent ↦ rw (absent, steal) (own fd)
      | inr (old, there) ↦
          let moved = set p.sockets other invalid_socket in
          let here' : get_elem? moved this ≡ some s =
            get_elem?-set_ne p.sockets invalid_socket (λ e. distinct (sym e)) ∙ here in
          let held : holds fd s.raw_socket ≡ 0 = rw empty refl in
          rw (there, steal)
            (omega (
              arith,
              owners-set fd moved this s (from_raw old.raw_socket) here',
              owners-set fd p.sockets other old invalid_socket there,
              own fd,
            ))
    ]

set-set : {A : Type 0} (xs : List A) (i : ℕ) (x y : A) → set (set xs i x) i y ≡ set xs i y
set-set [] i x y = refl
set-set (z ∷ xs) zero x y = refl
set-set (z ∷ xs) (suc i) x y = ap (◌∷◌ z) (set-set xs i x y)

-- The socket that `openConnection` created, before and after it is connected.
holder-IsOwned :
    (this : ℕ) (raw : Option ℕ) (connected : Bool) (p : Process) (s : Socket)
    → get_elem? p.sockets this ≡ some s
    → s.raw_socket ≡ none
    → IsFresh raw p
    → IsOwned p
    → IsOwned (put this (record { raw_socket = raw; is_connected = connected }) (opened raw p))
holder-IsOwned this raw connected p s here empty fresh own =
    let new : Socket = record { raw_socket = raw; is_connected = connected } in
    let change : (fd : ℕ)
        → bit ((opened raw p).is_open fd) + holds fd s.raw_socket
          ≡ bit (p.is_open fd) + holds fd raw =
      λ fd. rw empty (omega (arith, opened-bits raw p fresh fd)) in
    rw (opened-sockets raw p) (IsOwned-replace p own this s here new (opened raw p).is_open change)

connect_at-Keeps :
    (this : ℕ) (is_resolved : Bool) (raw : Option ℕ) (connects : Bool) (p : Process) (s : Socket)
    → get_elem? p.sockets this ≡ some s
    → s.raw_socket ≡ none
    → IsFresh raw p
    → IsOwned p
    → Keeps (connect_at this is_resolved raw connects p)
unfolding connect_at IsOwned
connect_at-Keeps this false raw connects p s here empty fresh own = (p, refl, own)
connect_at-Keeps this true raw true p s here empty fresh own =
    let new : Socket = record { raw_socket = raw; is_connected = true } in
    (
      put this new (put this (record { raw_socket = raw; is_connected = false }) (opened raw p)),
      refl,
      rw set-set (holder-IsOwned this raw true p s here empty fresh own),
    )
connect_at-Keeps this true raw false p s here empty fresh own =
    reset_at-Keeps this
      (put this (record { raw_socket = raw; is_connected = false }) (opened raw p))
      (holder-IsOwned this raw false p s here empty fresh own)

-- When every open descriptor is held by exactly one socket and none holds another, each operation
-- closes open descriptors only and leaves it so: none is leaked, closed twice or shared. This
-- covers construction, moving (also onto itself), `reset`, destruction and `openConnection` on all
-- its branches, where the object is there and the system hands out descriptors that are not open.
pub socket_step-Keeps :
    (step : SocketStep) (p : Process) → IsAllowed step p → IsOwned p → Keeps (socket_step step p)
unfolding socket_step IsAllowed open_connection
socket_step-Keeps (construct raw) p fresh own =
    (append (from_raw raw) (opened raw p), refl, construct-IsOwned raw p own fresh)
socket_step-Keeps (move_construct other) p allowed own =
    (steal other append p, refl, steal-append-IsOwned other p own)
socket_step-Keeps (move_assign this other) p inside own = elim (Bool-cases (this == other)) [
  | inl same ↦ rw same (p, refl, own)
  | inr differs ↦
      let distinct : this ≢ other = λ e. absurd (ground arith) in
      let (q, e, own', here) = reset_at-empties this p inside own in
      rw (differs, e)
        (
          steal other (put this) q,
          refl,
          steal-put-IsOwned this other q invalid_socket distinct here refl own',
        )
]
socket_step-Keeps (reset_socket this) p allowed own = reset_at-Keeps this p own
socket_step-Keeps (destroy this) p allowed own = reset_at-Keeps this p own
socket_step-Keeps (open_socket this is_resolved raw connects) p (inside, fresh) own =
    let (q, e, own', here) = reset_at-empties this p inside own in
    rw (e, open_connection)
      (connect_at-Keeps this is_resolved raw connects q invalid_socket here refl (fresh q e) own')
