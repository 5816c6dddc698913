-- ===== src/Connection/Sockets.antt =====
-- The `Socket` objects of dispatcher/src/connection/connection.{h,cpp} and the descriptors they
-- hold. What the system answers is an argument of a step.
use doge_connect.Prelude.{
  ℕ, ◌==◌, if◌then◌else◌, ◌>>=◌, get_elem?, set, Bool, true, false, not, Option, none, some, List,
  [], ◌∷◌, ◌++◌,
}

-- `INVALID_SKT` is `none`.
pub record Socket : Type 0 where
  pub raw_socket : Option ℕ
  pub is_connected : Bool

abbrev pub is_valid : Option ℕ → Bool
is_valid none = false
is_valid (some fd) = true

-- `Socket()`.
abbrev pub invalid_socket : Socket
invalid_socket = record { raw_socket = none; is_connected = false }

-- `Socket(SocketType)`.
abbrev pub from_raw : Option ℕ → Socket
from_raw raw = record { raw_socket = raw; is_connected = is_valid raw }

-- The objects, by index, and which descriptors are open.
pub record Process : Type 0 where
  pub sockets : List Socket
  pub is_open : ℕ → Bool

abbrev pub update : ℕ → Bool → (ℕ → Bool) → ℕ → Bool
update fd b is_open other = if other == fd then b else is_open other

-- `closesocket`; `none` when the descriptor is not open, and so may be another's.
unfoldable pub close_descriptor : Option ℕ → Process → Option Process
close_descriptor none p = some p
close_descriptor (some fd) p =
    if p.is_open fd then some (record p { is_open = update fd false p.is_open }) else none

pub data SocketStep : Type 0 where
  construct : Option ℕ → SocketStep
  move_construct : (other : ℕ) → SocketStep
  move_assign : (this other : ℕ) → SocketStep
  reset_socket destroy : (this : ℕ) → SocketStep
  open_socket : (this : ℕ) → (is_resolved : Bool) → Option ℕ → (connects : Bool) → SocketStep

abbrev pub put : ℕ → Socket → Process → Process
put this socket p = record p { sockets = set p.sockets this socket }

-- `reset`.
unfoldable pub reset_at : ℕ → Process → Option Process
reset_at this p = elim (get_elem? p.sockets this) [
  | none ↦ some p
  | some socket ↦ do
    closed ← close_descriptor socket.raw_socket p
    some (put this invalid_socket closed)
]

-- A descriptor that the system hands out is open.
abbrev pub opened : Option ℕ → Process → Process
opened none p = p
opened (some fd) p = record p { is_open = update fd true p.is_open }

-- The descriptor of `other` goes to `this`, which `place` puts in its place.
unfoldable pub steal : ℕ → (Socket → Process → Process) → Process → Process
steal other place p = elim (get_elem? p.sockets other) [
  | none ↦ p
  | some socket ↦ place (from_raw socket.raw_socket) (put other invalid_socket p)
]

abbrev pub append : Socket → Process → Process
append socket p = record p { sockets = p.sockets ++ socket ∷ [] }

unfoldable pub connect_at : ℕ → Bool → Option ℕ → Bool → Process → Option Process
connect_at this is_resolved raw connects closed =
    let created =
      put this (record { raw_socket = raw; is_connected = false }) (opened raw closed) in
    if not is_resolved
    then some closed
    else if connects
    then some (put this (record { raw_socket = raw; is_connected = true }) created)
    else reset_at this created

-- `openConnection`, with the outcomes of `getaddrinfo`, `socket` and `connect`.
unfoldable pub open_connection : ℕ → Bool → Option ℕ → Bool → Process → Option Process
open_connection this is_resolved raw connects p = do
  closed ← reset_at this p
  connect_at this is_resolved raw connects closed

unfoldable pub socket_step : SocketStep → Process → Option Process
socket_step (construct raw) p = some (append (from_raw raw) (opened raw p))
socket_step (move_construct other) p = some (steal other append p)
socket_step (move_assign this other) p =
    if this == other
    then some p
    else (do closed ← reset_at this p; some (steal other (put this) closed))
socket_step (reset_socket this) p = reset_at this p
socket_step (destroy this) p = reset_at this p
socket_step (open_socket this is_resolved raw connects) p =
    open_connection this is_resolved raw connects p
