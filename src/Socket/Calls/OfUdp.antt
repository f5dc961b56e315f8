-- ===== src/Socket/Calls/OfUdp.antt =====
-- UDP sockets keep account of their descriptors.
use setka.Prelude.{ℕ, Bool, false, not, none, some, List, [], ◌==◌, length}
use setka.Utki.{Bytes}
use setka.Address.{Address}
use setka.Socket.Method.{system_error}
use setka.Socket.Posix.{sock_dgram, so_broadcast, Answer, returns, fails, Kernel, Descriptors}
use setka.Socket.{no_flags, World, size_of_int}
use setka.Socket.Inet.{to_sockaddr, make_ip_address}
use setka.Socket.Create.{any_address}
use setka.Socket.Udp
use setka.Socket.Udp.{Udp, create_dgram, bind_port, bound_or_close, open_udp}
use setka.Socket.Owns.{Owns, Ensures}
use setka.Socket.Owns.Rules.{
  Ensures-bind, Ensures-pure, Ensures-gets, Ensures-throw, Ensures-set_flags, Ensures-set_members,
  Ensures-when, Ensures-close,
}
use setka.Socket.Owns.Opening.{Ensures-with_sock, Ensures-if_closed}
use setka.Socket.Owned.{
  H, then_call, then_retry, then_do, Ensures-set_nonblocking, Ensures-or_close, Ensures-create,
}
use setka.Socket.Calls.{UdpCall, udp_method, after_calls}
use setka.Socket.Calls.Accounts.{
  after_calls-Owns, Accounts, owns, Accounts-ignore, Accounts-close, Accounts-get_local_port,
  Accounts-value, Accounts-again,
}

module _ (k : Kernel) (os : Descriptors k) (others : ℕ → Bool) where
  Ensures-bound_or_close :
      (d : ℕ) (r : Answer (Unit {0}))
      → Ensures k os others
          (H k os others (some d))
          (bound_or_close k r)
          (λ _. H k os others (some d))
  Ensures-bound_or_close d (returns u) = Ensures-pure k os others tt _
  Ensures-bound_or_close d (fails e) =
      Ensures-bind k os others _ _ _ _ _ (Ensures-close k os others (some d)) λ _.
        Ensures-bind k os others _ _ _ _ _
          (Ensures-gets k os others (λ w. k.errno w.kernel) (H k os others none))
          λ c. Ensures-throw k os others (system_error c) none _

  Ensures-bind_port :
      (port d : ℕ) (ipv4 : Bool)
      → Ensures k os others
          (H k os others (some d))
          (bind_port k port d ipv4)
          (λ _. H k os others (some d))
  Ensures-bind_port port d ipv4 = Ensures-when k os others _ (not (port == 0)) _ (
      then_call k os others _ _ (k.bind d (any_address k ipv4 port)) (bound_or_close k)
        (os.quiet-bind d _) (Ensures-bound_or_close d))

  Accounts-open_udp : (port : ℕ) → Accounts k os others (open_udp k port)
  unfolding open_udp create_dgram
  Accounts-open_udp port = Ensures-if_closed k os others _ _ (
      then_do k os others _ _ _ _ (Ensures-set_members k os others _ false) (
        Ensures-bind k os others _ _ _ _ _ (Ensures-create k os others sock_dgram) λ (d, ipv4).
          then_do k os others _ _ _ _ (Ensures-set_members k os others _ ipv4) (
            then_do k os others _ _ _ _ (Ensures-bind_port port d ipv4) (
              then_do k os others _ _ _ _ (Ensures-set_nonblocking k os others d) (
                then_call k os others _ _ (k.setsockopt d so_broadcast 1) _
                  (os.quiet-setsockopt d _ _)
                  λ answer. then_do k os others _ _ _ _ (Ensures-or_close k os others d answer) (
                    owns k os others (some d) _
                      (Ensures-set_flags k os others _ (λ f. no_flags))))))))

  Accounts-send_udp :
      (fuel : ℕ) (buf : Bytes) (a : Address) → Accounts k os others (Udp.send k fuel buf a)
  unfolding Udp.send
  Accounts-send_udp fuel buf a = Ensures-with_sock k os others _ _ λ d.
      then_do k os others _ _ _ _
        (Ensures-set_flags k os others _ (λ f. record f { write = false }))
        (then_retry k os others _ _ fuel
          (k.sendto d buf (size_of_int (length buf)) (to_sockaddr k a)) (Udp.length_or_zero k)
          (os.quiet-sendto d buf _ _)
          (elim [
            | returns n ↦ Accounts-value k os others d n
            | fails e ↦ Accounts-again k os others d e 0
          ]))

  Accounts-recieve_udp : (fuel size : ℕ) → Accounts k os others (Udp.recieve k fuel size)
  unfolding Udp.recieve
  Accounts-recieve_udp fuel size = Ensures-with_sock k os others _ _ λ d.
      then_do k os others _ _ _ _ (Ensures-set_flags k os others _ (λ f. record f { read = false }))
        (then_retry k os others _ _ fuel (k.recvfrom d (size_of_int size)) (Udp.bytes_and_sender k)
          (os.quiet-recvfrom d _)
          (elim [
            | returns (b, a) ↦ Accounts-value k os others d (b, some (make_ip_address k a))
            | fails e ↦ Accounts-again k os others d e ([], none)
          ]))

  Accounts-udp_method : (c : UdpCall) → Accounts k os others (udp_method k c)
  Accounts-udp_method (UdpCall.opens port) = Accounts-open_udp port
  Accounts-udp_method (UdpCall.sends fuel buf a) =
      Accounts-ignore k os others _ (Accounts-send_udp fuel buf a)
  Accounts-udp_method (UdpCall.receives fuel size) =
      Accounts-ignore k os others _ (Accounts-recieve_udp fuel size)
  Accounts-udp_method UdpCall.closes = Accounts-close k os others
  Accounts-udp_method UdpCall.asks_port =
      Accounts-ignore k os others _ (Accounts-get_local_port k os others)

  -- Whatever calls are made on a UDP socket, and however each of them ends, the descriptors that are
  -- open are afterwards those of the others, which the calls neither open nor close, and that of the
  -- socket, if it is open: none is leaked, and none is closed that is not open. This if it was so before
  -- the calls, if no other thread opens or closes descriptors, and where nothing is known of the closing
  -- of a descriptor that is not open.
  pub udp_calls-Owns :
      (cs : List UdpCall) (w : World _ k.State)
      → Owns k os others w
      → Owns k os others (after_calls (udp_method k) cs w)
  udp_calls-Owns = after_calls-Owns k os others (udp_method k) Accounts-udp_method
