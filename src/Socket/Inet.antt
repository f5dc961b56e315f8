-- ===== src/Socket/Inet.antt =====
-- Addresses for system calls: the filling of a `sockaddr_storage` in tcp_socket.cpp and udp_socket.cpp,
-- and back (`make_ip_address`). The numbers of an IPv6 address are written as four numbers in network
-- byte order, or, on some systems, as sixteen bytes.
pub mod RoundTrip
use setka.Prelude.{
  ℕ, ◌*◌, ◌/◌, ◌%◌, ◌^◌, Option, none, some, List, [], ◌∷◌, bit_or, bit_and, if◌then◌else◌,
}
use setka.Utki.{Bytes}
use setka.Address.{Ip, Address, of_quads, of_v4, is_v4, get_v4}
use setka.Socket.Posix.{Sockaddr, in4, in6, Kernel}

module _ (k : Kernel) where
  pub to_sockaddr : Address → Sockaddr
  to_sockaddr a =
      if is_v4 a.host
      then in4 (k.htonl (get_v4 a.host)) (k.htons a.port)
      else in6 (k.htonl a.host.quad0) (k.htonl a.host.quad1) (k.htonl a.host.quad2)
          (k.htonl a.host.quad3) (k.htons a.port)

  pub make_ip_address : Sockaddr → Address
  make_ip_address (in4 a p) = record { host = of_v4 (k.ntohl a); port = k.ntohs p }
  make_ip_address (in6 a b c d p) = record {
    host = of_quads (k.ntohl a) (k.ntohl b) (k.ntohl c) (k.ntohl d);
    port = k.ntohs p;
  }

-- The four bytes `quad >> 24`, `(quad >> 16) & 0xff`, `(quad >> 8) & 0xff` and `quad & 0xff`; the first
-- is converted to a byte.
abbrev pub quad_bytes : ℕ → Bytes → Bytes
quad_bytes q rest = (q / 2 ^ 24 % 256) ∷ (q / 2 ^ 16 % 256) ∷ (q / 2 ^ 8 % 256) ∷ (q % 256) ∷ rest

-- `s6_addr[0]`, ..., `s6_addr[15]`
pub s6_addr : Ip → Bytes
s6_addr i = quad_bytes i.quad0 (quad_bytes i.quad1 (quad_bytes i.quad2 (quad_bytes i.quad3 [])))

-- `(uint32_t(a) << 24) | (uint32_t(b) << 16) | (uint32_t(c) << 8) | uint32_t(d)`
abbrev pub join_quad : ℕ → ℕ → ℕ → ℕ → ℕ
join_quad a b c d =
    bit_or (bit_or (bit_or (a * 2 ^ 24 % 2 ^ 32) (b * 2 ^ 16 % 2 ^ 32)) (c * 2 ^ 8 % 2 ^ 32)) d

-- The address of sixteen bytes
pub ip_of_s6_addr : Bytes → Option Ip
ip_of_s6_addr (a0 ∷ a1 ∷ a2 ∷ a3 ∷ b0 ∷ b1 ∷ b2 ∷ b3 ∷ c0 ∷ c1 ∷ c2 ∷ c3 ∷ d0 ∷ d1 ∷ d2 ∷ d3 ∷ []) =
    some (
      of_quads (join_quad a0 a1 a2 a3) (join_quad b0 b1 b2 b3) (join_quad c0 c1 c2 c3)
        (join_quad d0 d1 d2 d3))
ip_of_s6_addr _ = none
