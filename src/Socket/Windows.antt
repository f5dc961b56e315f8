-- ===== src/Socket/Windows.antt =====
-- src/setka/socket.cpp, tcp_socket.cpp, tcp_server_socket.cpp and udp_socket.cpp, on Windows: the event of
-- a socket, which network events a wait is for, and what they make of the flags.
pub mod Waits
use setka.Prelude.{ℕ, Bool, true, false, not, ◌&&◌, ◌||◌, Option, none, some, ◌==◌, if◌then◌else◌}
use setka.Socket.Method.{logic_error, Io, pure, throw_if, ◌>>=◌, ◌>>◌, gets}
use setka.Socket.Posix.{Answer}
use setka.Socket.Moves.{Pair}
use setka.Socket.{
  Flags, no_flags, Socket, World, set_sock, set_flags, set_members, call, with_sock, or_throw,
}

-- A `long` of the bits `FD_READ`, `FD_WRITE`, `FD_ACCEPT`, `FD_CONNECT` and `FD_CLOSE`
pub record FdBits : Type 0 where
  pub fd_read : Bool
  pub fd_write : Bool
  pub fd_accept : Bool
  pub fd_connect : Bool
  pub fd_close : Bool

-- `WSANETWORKEVENTS`, as far as the error codes are read
pub record NetworkEvents : Type 0 where
  pub network_events : FdBits
  pub read_code : ℕ
  pub write_code : ℕ
  pub accept_code : ℕ
  pub connect_code : ℕ

-- The calls of Winsock that handle events. `none` is an invalid socket or event.
pub record Winsock : Type 1 where
  pub State : Type 0
  pub shutdown : ℕ → State → State
  pub closesocket : ℕ → State → State
  pub set_nonblocking : ℕ → State → Answer (Unit {0}) × State
  pub create_event : State → Answer ℕ × State
  pub close_event : Option ℕ → State → State
  pub event_select : Option ℕ → Option ℕ → FdBits → State → Answer (Unit {0}) × State
  pub enum_network_events : Option ℕ → Option ℕ → State → Answer NetworkEvents × State

-- An event that can be read, and one that can be written, with its error code
abbrev readable : Bool → ℕ → Flags → Flags
readable event code f =
    if event then record f { read = true; error = if code == 0 then f.error else true } else f

abbrev writable : Bool → ℕ → Flags → Flags
writable event code f =
    if event then record f { write = true; error = if code == 0 then f.error else true } else f

-- The flags after the events that were found
pub mark : NetworkEvents → Flags → Flags
mark e f =
    let f = record f { error = if e.network_events.fd_close then true else f.error } in
    let f = readable e.network_events.fd_read e.read_code f in
    let f = readable e.network_events.fd_accept e.accept_code f in
    let f = writable e.network_events.fd_write e.write_code f in
    writable e.network_events.fd_connect e.connect_code f

-- The events for a wait, of each kind of socket
abbrev only_close : FdBits
only_close = record {
  fd_read = false;
  fd_write = false;
  fd_accept = false;
  fd_connect = false;
  fd_close = true;
}

unfoldable pub tcp_events : Flags → FdBits
tcp_events w =
    let flags = if w.read then record only_close { fd_read = true } else only_close in
    if w.write then record flags { fd_write = true; fd_connect = true } else flags

pub server_events : Flags → FdBits
server_events w = if w.read then record only_close { fd_accept = true } else only_close

pub udp_events : Flags → FdBits
udp_events w =
    let flags = if w.read then record only_close { fd_read = true } else only_close in
    if w.write then record flags { fd_write = true } else flags

-- `opros::flags::is_clear`
abbrev pub is_clear : Flags → Bool
is_clear w = not w.read && not w.write && not w.error

-- The member of a socket is `event_for_waitable`; the kind of a socket has no part in this.
abbrev pub Waitable : Type 0 → Type 0
Waitable S = World (Option ℕ) S

module _ (k : Winsock) where
  pub get_handle : Io (Waitable k.State) (Option ℕ)
  get_handle = gets λ w. w.object.members

  pub create_event_for_waitable : Io (Waitable k.State) (Unit {0})
  create_event_for_waitable = (do
    made ← call k.create_event
    event ← or_throw made
    set_members (some event))

  pub close_event_for_waitable : Io (Waitable k.State) (Unit {0})
  close_event_for_waitable = (do
    event ← gets λ w. w.object.members
    _ ← call (λ s. (tt, k.close_event event s))
    set_members none)

  unfoldable pub set_waiting_events_for_windows : FdBits → Io (Waitable k.State) (Unit {0})
  set_waiting_events_for_windows flags = (do
    object ← gets λ w. w.object
    selected ← call (k.event_select object.sock object.members flags)
    or_throw selected)

  -- `waitable::check_signaled`, of the flags, is a parameter.
  pub check_signaled : (Flags → Bool) → Io (Waitable k.State) Bool
  check_signaled of_waitable = (do
    object ← gets λ w. w.object
    found ← call (k.enum_network_events object.sock object.members)
    events ← or_throw found
    _ ← set_flags (mark events)
    gets λ w. of_waitable w.object.readiness_flags)

  unfoldable pub tcp_set_waiting_flags : Flags → Io (Waitable k.State) (Unit {0})
  unfolding set_waiting_events_for_windows
  tcp_set_waiting_flags w = set_waiting_events_for_windows (tcp_events w)

  pub server_set_waiting_flags : Flags → Io (Waitable k.State) (Unit {0})
  unfolding set_waiting_events_for_windows
  server_set_waiting_flags w =
      throw_if (not (is_clear w) && not w.read) logic_error
        (set_waiting_events_for_windows (server_events w))

  pub udp_set_waiting_flags : Flags → Io (Waitable k.State) (Unit {0})
  unfolding set_waiting_events_for_windows
  udp_set_waiting_flags w = set_waiting_events_for_windows (udp_events w)

  pub set_nonblocking_mode : Io (Waitable k.State) (Unit {0})
  set_nonblocking_mode = with_sock λ d. (do set ← call (k.set_nonblocking d); or_throw set)

  -- `shutdown`, `closesocket` and the closing of the event
  pub close_handles : ℕ → Io (Waitable k.State) (Unit {0})
  unfolding close_event_for_waitable
  close_handles d = (do
    _ ← call (λ s. (tt, k.closesocket d (k.shutdown d s)))
    close_event_for_waitable)

  pub close : Io (Waitable k.State) (Unit {0})
  unfolding close_handles
  close = (do
    sock ← gets λ w. w.object.sock
    _ ← elim sock [ none ↦ pure tt | some d ↦ close_handles d ]
    _ ← set_flags λ f. no_flags
    set_sock none)

  -- `operator=` of two objects, where `waitable::operator=` succeeds: what it makes of the flags of its
  -- source is a parameter, as in Socket.Moves.
  pub move : (Flags → Flags → Flags) → Pair (Option ℕ) k.State → Pair (Option ℕ) k.State
  unfolding close
  move moved p =
      let w = (close (record { object = p.target; kernel = p.kernel })).1 in
      record {
        target = record w.object { sock = p.source.sock; members = p.source.members };
        source = record p.source {
          sock = none;
          members = none;
          readiness_flags = moved p.target.readiness_flags p.source.readiness_flags;
        };
        kernel = w.kernel;
      }
