-- ===== src/Socket/Calls.antt =====
-- Sequences of calls of a socket's methods, whatever each of them ends with.
pub mod Accounts
pub mod OfTcp
pub mod OfServer
pub mod OfUdp
pub mod Accepts
use setka.Prelude.{ℕ, Bool, List, [], ◌∷◌}
use setka.Utki.{Bytes}
use setka.Address.{Address}
use setka.Socket.Method.{Io, pure, ◌>>=◌}
use setka.Socket.Posix.{Kernel}
use setka.Socket.{World, close, get_local_port}
use setka.Socket.Tcp
use setka.Socket.Tcp.{Tcp, open_tcp, get_local_address, get_remote_address}
use setka.Socket.Server.{Server, open_server}
use setka.Socket.Udp
use setka.Socket.Udp.{Udp, open_udp}

-- The call of a method whose result is not used
abbrev pub ignore : {S A : Type 0} → Io S A → Io S (Unit {0})
ignore m = m >>= λ _. pure tt

pub data TcpCall : Type 0 where
  opens : Address → Bool → TcpCall
  sends : ℕ → Bytes → TcpCall
  receives : ℕ → ℕ → TcpCall
  closes asks_port asks_local asks_remote : TcpCall

abbrev pub tcp_method : (k : Kernel) → TcpCall → Io (Tcp k.State) (Unit {0})
tcp_method k (opens a b) = open_tcp k a b
tcp_method k (sends fuel buf) = ignore (Tcp.send k fuel buf)
tcp_method k (receives fuel size) = ignore (Tcp.recieve k fuel size)
tcp_method k closes = close k
tcp_method k asks_port = ignore (get_local_port k)
tcp_method k asks_local = ignore (get_local_address k)
tcp_method k asks_remote = ignore (get_remote_address k)

-- What `accept` returns is another object, so it is not among these calls.
pub data ServerCall : Type 0 where
  listens : ℕ → Bool → ℕ → ServerCall
  closes asks_port : ServerCall

abbrev pub server_method : (k : Kernel) → ServerCall → Io (Server k.State) (Unit {0})
server_method k (listens port no_delay n) = open_server k port no_delay n
server_method k closes = close k
server_method k asks_port = ignore (get_local_port k)

pub data UdpCall : Type 0 where
  opens : ℕ → UdpCall
  sends : ℕ → Bytes → Address → UdpCall
  receives : ℕ → ℕ → UdpCall
  closes asks_port : UdpCall

abbrev pub udp_method : (k : Kernel) → UdpCall → Io (Udp k.State) (Unit {0})
udp_method k (opens port) = open_udp k port
udp_method k (sends fuel buf a) = ignore (Udp.send k fuel buf a)
udp_method k (receives fuel size) = ignore (Udp.recieve k fuel size)
udp_method k closes = close k
udp_method k asks_port = ignore (get_local_port k)

-- The state after calls, one after the other
unfoldable pub after_calls : {S C : Type 0} → (C → Io S (Unit {0})) → List C → S → S
after_calls f [] s = s
after_calls f (c ∷ cs) s = after_calls f cs (f c s).1
