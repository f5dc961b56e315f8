-- ===== src/Socket/Create.antt =====
-- The creation of sockets that accept IPv6 and IPv4, which tcp_server_socket.cpp and udp_socket.cpp have
-- in the same words.
use setka.Prelude.{ℕ, Bool, true, false, some, if◌then◌else◌}
use setka.Socket.Method.{Io, pure, throw, system_error, ◌>>=◌, ◌>>◌}
use setka.Socket.Posix.{
  Kernel, pf_inet, pf_inet6, Kind, ipv6_v6only, Sockaddr, in4, in6, Answer, returns, fails,
}
use setka.Socket.{World, set_sock, call, or_throw, close}

module _ (k : Kernel) where
  -- `INADDR_ANY` and `in6addr_any`, with a port
  abbrev pub any_address : Bool → ℕ → Sockaddr
  any_address ipv4 port = if ipv4 then in4 0 (k.htons port) else in6 0 0 0 0 (k.htons port)

module _ (k : Kernel) {E : Type 0} where
  -- A socket for IPv4 only
  abbrev pub create_v4 : Kind → Io (World E k.State) (ℕ × Bool)
  create_v4 kind = do
    created ← call (k.socket pf_inet kind)
    d ← or_throw created
    set_sock (some d)
    pure (d, true)

  -- Where dual stack is not supported, IPv4 only.
  abbrev pub dual_stack : Kind → ℕ → Answer (Unit {0}) → Io (World E k.State) (ℕ × Bool)
  dual_stack kind d (returns u) = pure (d, false)
  dual_stack kind d (fails e) = do close k; create_v4 kind

  abbrev pub created_v6 : Kind → Answer ℕ → Io (World E k.State) (ℕ × Bool)
  created_v6 kind (fails e) = create_v4 kind
  created_v6 kind (returns d) = do
    set_sock (some d)
    answer ← call (k.setsockopt d ipv6_v6only 0)
    dual_stack kind d answer

  -- The creation of a socket that accepts IPv4 too, as the servers and UDP sockets have it: its
  -- descriptor, and whether it is one for IPv4 only.
  unfoldable pub create : Kind → Io (World E k.State) (ℕ × Bool)
  create kind = do created ← call (k.socket pf_inet6 kind); created_v6 kind created

  -- A failure after which the socket is closed
  abbrev pub or_close : Answer (Unit {0}) → Io (World E k.State) (Unit {0})
  or_close (returns u) = pure tt
  or_close (fails e) = do close k; throw (system_error e)
