-- ===== src/Socket/Tests/Calls.antt =====
-- Sockets on a small system, where the descriptors 0 to 2 are those of others.
use setka.Prelude.{
  ℕ, ltb, ◌≡◌, refl, Bool, true, false, none, some, List, [], ◌∷◌, arith, if◌then◌else◌,
}
use setka.Utki.{Bytes}
use setka.Address.{Ip, Address, IsIp, of_v4, of_quads}
use setka.Socket.Method.{ok}
use setka.Socket.Posix.{returns, Sockaddr, in4}
use setka.Socket.{Flags, World, new_socket}
use setka.Socket.Inet.{to_sockaddr, make_ip_address}
use setka.Socket.Inet.RoundTrip.{make_ip_address-to_sockaddr}
use setka.Socket.Tcp
use setka.Socket.Tcp.{Tcp}
use setka.Socket.Server.{accept}
use setka.Socket.Udp
use setka.Socket.Udp.{Udp}
use setka.Socket.Moves.{Pair, move, OwnBoth, move-OwnBoth}
use setka.Socket.Owns.{holds, Owns}
use setka.Socket.Calls.{TcpCall, tcp_method, ServerCall, UdpCall, udp_method, after_calls}
use setka.Socket.Calls.OfTcp.{tcp_calls-Owns}
use setka.Socket.Calls.OfUdp.{udp_calls-Owns}
use setka.Socket.Calls.Accepts.{IsAcceptEnd, accept-Owns}
use setka.Socket.Interrupts.{sent_from, received_from, send_tcp_lem, recieve_udp_lem}
use setka.Socket.Tests.{System, kernel, descriptors, byte_order}

abbrev standard : ℕ → Bool
standard c = ltb c 3

-- So many descriptors are open, and the next call is interrupted twice.
abbrev system : ℕ → System
system n = record { next = n; opened = λ c. true; interruptions = 2 }

abbrev closed_world : {E : Type 0} → E → World E System
closed_world e = record { object = new_socket e; kernel = system 3 }

-- A socket whose descriptor is 3
abbrev open_world : {E : Type 0} → E → World E System
open_world e = record { object = record (new_socket e) { sock = some 3 }; kernel = system 4 }

closed_world-Owns : {E : Type 0} (e : E) → Owns kernel descriptors standard (closed_world e)
closed_world-Owns e = record {
  handle = refl;
  opened = λ c. ground arith;
  apart = λ c. ground arith;
}

open_world-Owns : {E : Type 0} (e : E) → Owns kernel descriptors standard (open_world e)
open_world-Owns e = record { handle = refl; opened = λ c. ground arith; apart = λ c. ground arith }

abbrev localhost : Address
localhost = record { host = of_v4 2130706433; port = 80 }

abbrev tcp_calls : List TcpCall
tcp_calls =
    TcpCall.opens localhost true
    ∷ TcpCall.sends 3 (1 ∷ 2 ∷ [])
    ∷ TcpCall.receives 2 10
    ∷ TcpCall.closes
    ∷ TcpCall.asks_port
    ∷ TcpCall.opens localhost false
    ∷ TcpCall.opens localhost false
    ∷ []

tcp_calls-Owns_example :
    Owns kernel descriptors standard (after_calls (tcp_method kernel) tcp_calls (closed_world tt))
tcp_calls-Owns_example =
    tcp_calls-Owns kernel descriptors standard tcp_calls (closed_world tt) (closed_world-Owns tt)

abbrev server_calls : List ServerCall
server_calls =
    ServerCall.listens 80 true 5
    ∷ ServerCall.asks_port
    ∷ ServerCall.listens 81 true 5
    ∷ ServerCall.closes
    ∷ ServerCall.listens 82 false 5
    ∷ []

abbrev udp_calls : List UdpCall
udp_calls =
    UdpCall.opens 0
    ∷ UdpCall.sends 3 (1 ∷ []) localhost
    ∷ UdpCall.receives 3 2
    ∷ UdpCall.opens 53
    ∷ UdpCall.closes
    ∷ UdpCall.opens 53
    ∷ []

udp_calls-Owns_example :
    Owns kernel descriptors standard
      (after_calls (udp_method kernel) udp_calls (closed_world false))
udp_calls-Owns_example =
    udp_calls-Owns kernel descriptors standard udp_calls (closed_world false)
      (closed_world-Owns false)

accept-Owns_example :
    IsAcceptEnd kernel descriptors standard (some 3) (accept kernel (open_world true))
accept-Owns_example =
    accept-Owns kernel descriptors standard (open_world true) (open_world-Owns true)

-- Two sockets, with the descriptors 3 and 4.
abbrev both : Pair Bool System
both = record {
  target = record (new_socket true) { sock = some 3 };
  source = record (new_socket false) { sock = some 4 };
  kernel = system 5;
}

both-OwnBoth : OwnBoth kernel descriptors standard both
both-OwnBoth = record {
  opened = λ c. ground arith;
  apart_target = λ c. ground arith;
  apart_source = λ c. ground arith;
  apart_both = λ c. ground arith;
}

abbrev keep_flags : Flags → Flags → Flags
keep_flags target source = source

move-OwnBoth_example :
    let q = move kernel keep_flags both in
    OwnBoth kernel descriptors standard q
    × (q.target.sock ≡ some 4)
    × (q.source.sock ≡ none)
    × ((c : ℕ)
        → descriptors.is_open q.kernel c
          ≡ (if holds (some 3) c then false else descriptors.is_open both.kernel c))
move-OwnBoth_example = move-OwnBoth kernel descriptors standard keep_flags both both-OwnBoth

abbrev ip6 : Ip
ip6 = of_quads 536939960 0 0 258

ip6-IsIp : IsIp ip6
ip6-IsIp = record {
  quad0_lt = omega arith;
  quad1_lt = omega arith;
  quad2_lt = omega arith;
  quad3_lt = omega arith;
}

make_ip_address-to_sockaddr_example :
    make_ip_address kernel (to_sockaddr kernel (record { host = ip6; port = 8080 }))
    ≡ record { host = ip6; port = 8080 }
make_ip_address-to_sockaddr_example =
    make_ip_address-to_sockaddr kernel byte_order (record { host = ip6; port = 8080 }) ip6-IsIp
      (omega arith)

-- After the two interruptions
abbrev calm : System
calm = record (system 4) { interruptions = 0 }

abbrev tcp_open : Tcp System
tcp_open = open_world tt

abbrev udp_open : Udp System
udp_open = open_world false

send_tcp_lem_example :
    Tcp.send kernel 3 (7 ∷ 8 ∷ []) tcp_open ≡ (ok 2, sent_from kernel tcp_open.object calm)
send_tcp_lem_example =
    send_tcp_lem kernel 2 3 3 (7 ∷ 8 ∷ []) tcp_open (returns 2) calm refl (omega arith)
      (refl, (refl, (refl, refl, tt))) (omega arith)

abbrev datagram : Bytes × Sockaddr
datagram = (1 ∷ 2 ∷ [], in4 16777343 13568)

recieve_udp_lem_example : Udp.recieve kernel 3 2 udp_open ≡ (
  ok (1 ∷ 2 ∷ [], some (make_ip_address kernel (in4 16777343 13568))),
  received_from kernel udp_open.object calm,
)
recieve_udp_lem_example =
    recieve_udp_lem kernel 2 3 3 2 udp_open (returns datagram) calm refl (omega arith)
      (refl, (refl, (refl, refl, tt))) (omega arith)
