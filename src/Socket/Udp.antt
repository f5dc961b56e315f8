-- ===== src/Socket/Udp.antt =====
-- src/setka/udp_socket.cpp
use setka.Prelude.{ℕ, Bool, false, not, Option, none, some, [], ◌==◌, length, if◌then◌else◌}
use setka.Utki.{Bytes}
use setka.Address.{Address}
use setka.Socket.Method.{Io, pure, throw, gets, system_error, ◌>>=◌, ◌>>◌, when}
use setka.Socket.Posix.{Kernel, sock_dgram, so_broadcast, Sockaddr, Answer, returns, fails}
use setka.Socket.{
  no_flags, World, set_flags, set_members, call, with_sock, if_closed, close, set_nonblocking_mode,
  retry, size_of_int,
}
use setka.Socket.Inet.{to_sockaddr, make_ip_address}
use setka.Socket.Create.{create, any_address, or_close}

-- The member is `ipv4`.
abbrev pub Udp : Type 0 → Type 0
Udp S = World Bool S

module _ (k : Kernel) where
  -- The socket, from IPv6 down to IPv4
  unfoldable pub create_dgram : Io (Udp k.State) (ℕ × Bool)
  create_dgram = create k sock_dgram

  -- After `bind`: the socket is closed before `errno` is read.
  abbrev pub bound_or_close : Answer (Unit {0}) → Io (Udp k.State) (Unit {0})
  bound_or_close (returns u) = pure tt
  bound_or_close (fails e) = do
    close k
    error_code ← gets (λ w. k.errno w.kernel)
    throw (system_error error_code)

  -- `if(port != 0)`, and `bind`
  abbrev pub bind_port : ℕ → ℕ → Bool → Io (Udp k.State) (Unit {0})
  bind_port port d ipv4 =
      when (not (port == 0))
        (do bound ← call (k.bind d (any_address k ipv4 port)); bound_or_close bound)

  unfoldable pub open_udp : ℕ → Io (Udp k.State) (Unit {0})
  open_udp port = if_closed (do
    set_members false
    (d, ipv4) ← create_dgram
    set_members ipv4
    bind_port port d ipv4
    set_nonblocking_mode k
    answer ← call (k.setsockopt d so_broadcast 1)
    or_close k answer
    set_flags (λ f. no_flags))

  abbrev pub length_or_zero : Answer ℕ → Io (Udp k.State) ℕ
  length_or_zero (returns n) = pure n
  length_or_zero (fails e) = if e == k.error_again then pure 0 else throw (system_error e)

  unfoldable pub send : ℕ → Bytes → Address → Io (Udp k.State) ℕ
  send fuel buf destination_address = with_sock λ d. (do
    set_flags (λ f. record f { write = false })
    answer ←
        retry k fuel (k.sendto d buf (size_of_int (length buf)) (to_sockaddr k destination_address))
    length_or_zero answer)

  -- With the sender's address, which is left as it was if nothing was received.
  abbrev pub bytes_and_sender :
      Answer (Bytes × Sockaddr) → Io (Udp k.State) (Bytes × Option Address)
  bytes_and_sender (returns (b, a)) = pure (b, some (make_ip_address k a))
  bytes_and_sender (fails e) =
      if e == k.error_again then pure ([], none) else throw (system_error e)

  unfoldable pub recieve : ℕ → ℕ → Io (Udp k.State) (Bytes × Option Address)
  recieve fuel size = with_sock λ d. (do
    set_flags (λ f. record f { read = false })
    answer ← retry k fuel (k.recvfrom d (size_of_int size))
    bytes_and_sender answer)
