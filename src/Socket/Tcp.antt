-- ===== src/Socket/Tcp.antt =====
-- src/setka/tcp_socket.cpp
use setka.Prelude.{ℕ, Bool, false, ◌||◌, some, [], ◌==◌, length, if◌then◌else◌}
use setka.Utki.{Bytes}
use setka.Address.{Address, is_v4}
use setka.Socket.Method.{Io, pure, throw, system_error, ◌>>=◌, ◌>>◌, when}
use setka.Socket.Posix.{Kernel, pf_inet, pf_inet6, sock_stream, Answer, returns, fails}
use setka.Socket.{
  no_flags, World, set_sock, set_flags, call, with_sock, if_closed, or_throw, close, disable_naggle,
  set_nonblocking_mode, retry, size_of_int,
}
use setka.Socket.Inet.{to_sockaddr, make_ip_address}

-- `tcp_socket` has no members of its own.
abbrev pub Tcp : Type 0 → Type 0
Tcp S = World (Unit {0}) S

module _ (k : Kernel) where
  -- After a failed `connect`
  abbrev pub not_connected : ℕ → Io (Tcp k.State) (Unit {0})
  not_connected e =
      if e == k.error_interrupted || e == k.error_in_progress
      then pure tt
      else (do close k; throw (system_error e))

  abbrev pub connected : Answer (Unit {0}) → Io (Tcp k.State) (Unit {0})
  connected (returns u) = pure tt
  connected (fails e) = not_connected e

  unfoldable pub open_tcp : Address → Bool → Io (Tcp k.State) (Unit {0})
  open_tcp ip no_delay = if_closed (do
    created ← call (k.socket (if is_v4 ip.host then pf_inet else pf_inet6) sock_stream)
    d ← or_throw created
    set_sock (some d)
    when no_delay (disable_naggle k)
    set_nonblocking_mode k
    set_flags (λ f. no_flags)
    answer ← call (k.connect d (to_sockaddr k ip))
    connected answer)

  -- `len`, and 0 for `error_again`
  abbrev pub length_or_zero : Answer ℕ → Io (Tcp k.State) ℕ
  length_or_zero (returns n) = pure n
  length_or_zero (fails e) = if e == k.error_again then pure 0 else throw (system_error e)

  unfoldable pub send : ℕ → Bytes → Io (Tcp k.State) ℕ
  send fuel buf = with_sock λ d. (do
    set_flags (λ f. record f { write = false })
    answer ← retry k fuel (k.send d buf (size_of_int (length buf)))
    length_or_zero answer)

  abbrev pub bytes_or_none : Answer Bytes → Io (Tcp k.State) Bytes
  bytes_or_none (returns b) = pure b
  bytes_or_none (fails e) = if e == k.error_again then pure [] else throw (system_error e)

  -- The bytes that were received
  unfoldable pub recieve : ℕ → ℕ → Io (Tcp k.State) Bytes
  recieve fuel size = do
    set_flags (λ f. record f { read = false })
    with_sock λ d. (do answer ← retry k fuel (k.recv d (size_of_int size)); bytes_or_none answer)

  unfoldable pub get_local_address : Io (Tcp k.State) Address
  get_local_address =
      with_sock
        λ d. (do got ← call (k.getsockname d); addr ← or_throw got; pure (make_ip_address k addr))

  unfoldable pub get_remote_address : Io (Tcp k.State) Address
  get_remote_address =
      with_sock
        λ d. (do got ← call (k.getpeername d); addr ← or_throw got; pure (make_ip_address k addr))
