-- ===== src/Socket/Inet/RoundTrip.antt =====
-- An address comes back from what the system is given.
use setka.Prelude.{ℕ, ◌+◌, ◌*◌, ◌/◌, ◌%◌, ◌^◌, ◌<◌, ◌≡◌, ◌∙◌, true, some, arith, bit_or}
use setka.Prelude.Bits.{bit_or-shift}
use setka.Address.{Ip, Address, IsIp, of_v4, is_v4, get_v4}
use setka.Socket.Posix.{Kernel, ByteOrder}
use setka.Socket.Inet.{to_sockaddr, make_ip_address, s6_addr, join_quad, ip_of_s6_addr}

-- An IPv4 address is the one that is made from its last quad.
of_v4-get_v4 : (i : Ip) → is_v4 i ≡ true → of_v4 (get_v4 i) ≡ i
of_v4-get_v4 i e = ground arith

-- The address that a socket address is filled from is the one that is made of it again: for IPv4 and
-- IPv6, with all quads and the port in the range of their types, and conversions of the byte order that
-- are inverse to each other.
pub make_ip_address-to_sockaddr :
    (k : Kernel) (b : ByteOrder k) (a : Address)
    → IsIp a.host
    → a.port < 2 ^ 16
    → make_ip_address k (to_sockaddr k a) ≡ a
unfolding to_sockaddr make_ip_address
make_ip_address-to_sockaddr k b a v p = ground (
  arith,
  of_v4-get_v4 a.host,
  b.ntohl-htonl a.host.quad0 v.quad0_lt,
  b.ntohl-htonl a.host.quad1 v.quad1_lt,
  b.ntohl-htonl a.host.quad2 v.quad2_lt,
  b.ntohl-htonl a.host.quad3 v.quad3_lt,
  b.ntohs-htons a.port p,
)

-- The shifts of four bytes are put together to a sum.
pub join_quad_lem :
    (a b c d : ℕ)
    → a < 256
    → b < 256
    → c < 256
    → d < 256
    → join_quad a b c d ≡ ((a * 256 + b) * 256 + c) * 256 + d
join_quad_lem a b c d ha hb hc hd =
    let high : a * 2 ^ 24 % 2 ^ 32 ≡ a * 2 ^ 24 = omega arith in
    let second : b * 2 ^ 16 % 2 ^ 32 ≡ b * 2 ^ 16 = omega arith in
    let third : c * 2 ^ 8 % 2 ^ 32 ≡ c * 2 ^ 8 = omega arith in
    let two : bit_or (a * 2 ^ 24) (b * 2 ^ 16) ≡ (a * 256 + b) * 2 ^ 16 =
      bit_or-shift 24 a (b * 2 ^ 16) (omega arith) ∙ omega arith in
    let three : bit_or ((a * 256 + b) * 2 ^ 16) (c * 2 ^ 8) ≡ ((a * 256 + b) * 256 + c) * 2 ^ 8 =
      bit_or-shift 16 (a * 256 + b) (c * 2 ^ 8) (omega arith) ∙ omega arith in
    rw (high, second, third, two, three)
      (bit_or-shift 8 ((a * 256 + b) * 256 + c) d (omega arith) ∙ omega arith)

join_quad-bytes :
    (q : ℕ)
    → q < 2 ^ 32
    → join_quad (q / 2 ^ 24 % 256) (q / 2 ^ 16 % 256) (q / 2 ^ 8 % 256) (q % 256) ≡ q
join_quad-bytes q h =
    join_quad_lem (q / 2 ^ 24 % 256) (q / 2 ^ 16 % 256) (q / 2 ^ 8 % 256) (q % 256) (omega arith)
      (omega arith) (omega arith) (omega arith)
    ∙ omega arith

-- The sixteen bytes that an IPv6 address is written as make up the address again, if its quads are
-- numbers of 32 bits.
pub ip_of_s6_addr-s6_addr : (i : Ip) → IsIp i → ip_of_s6_addr (s6_addr i) ≡ some i
unfolding ip_of_s6_addr s6_addr
ip_of_s6_addr-s6_addr i v = ground (
  arith,
  join_quad-bytes i.quad0 v.quad0_lt,
  join_quad-bytes i.quad1 v.quad1_lt,
  join_quad-bytes i.quad2 v.quad2_lt,
  join_quad-bytes i.quad3 v.quad3_lt,
)
