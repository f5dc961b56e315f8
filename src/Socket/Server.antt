-- ===== src/Socket/Server.antt =====
-- src/setka/tcp_server_socket.cpp
use setka.Prelude.{ℕ, Bool, false, some}
use setka.Socket.Method.{Io, Result, ok, throws, out_of_fuel, ◌>>=◌, ◌>>◌, when}
use setka.Socket.Posix.{Kernel, sock_stream, so_reuseaddr, Answer, returns, fails}
use setka.Socket.{
  World, Socket, new_socket, set_flags, set_members, call, with_sock, if_closed, close_sock,
  disable_naggle, set_nonblocking_mode,
}
use setka.Socket.Create.{create, any_address, or_close}
use setka.Socket.Tcp.{Tcp}

-- The member is `disable_naggle`.
abbrev pub Server : Type 0 → Type 0
Server S = World Bool S

module _ (k : Kernel) where
  -- The socket, from IPv6 down to IPv4
  unfoldable pub create_stream : Io (Server k.State) (ℕ × Bool)
  create_stream = create k sock_stream

  unfoldable pub open_server : ℕ → Bool → ℕ → Io (Server k.State) (Unit {0})
  open_server port no_delay queue_length = if_closed (do
    set_members no_delay
    (d, ipv4) ← create_stream
    _ ← call (k.setsockopt d so_reuseaddr 1)
    bound ← call (k.bind d (any_address k ipv4 port))
    or_close k bound
    listens ← call (k.listen d queue_length)
    or_close k listens
    set_nonblocking_mode k)

  -- `s.set_nonblocking_mode()` and `s.disable_naggle()` of the accepted socket
  abbrev pub prepare : Bool → Io (Tcp k.State) (Unit {0})
  prepare no_delay = do set_nonblocking_mode k; when no_delay (disable_naggle k)

  -- The return of a local socket: a throw destroys it, and so closes it.
  abbrev pub return_local :
      Result (Unit {0}) × Tcp k.State → Server k.State → Result (Socket (Unit {0})) × Server k.State
  return_local (ok u, s) w = (ok s.object, record w { kernel = s.kernel })
  return_local (throws e, s) w =
      (throws e, record w { kernel = close_sock k s.object.sock s.kernel })
  return_local (out_of_fuel, s) w = (out_of_fuel, record w { kernel = s.kernel })

  -- The socket for a connection, or a closed one if there is none.
  abbrev pub accepted : Answer ℕ → Io (Server k.State) (Socket (Unit {0}))
  accepted (fails e) w = (ok (new_socket tt), w)
  accepted (returns d) w =
      let s : Tcp k.State = record {
        object = record (new_socket tt) { sock = some d };
        kernel = w.kernel;
      } in
      return_local (prepare w.object.members s) w

  unfoldable pub accept : Io (Server k.State) (Socket (Unit {0}))
  accept = with_sock λ d. (do
    set_flags (λ f. record f { read = false })
    answer ← call (k.accept d)
    accepted answer)
