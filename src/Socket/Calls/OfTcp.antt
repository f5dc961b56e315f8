-- ===== src/Socket/Calls/OfTcp.antt =====
-- TCP sockets keep account of their descriptors.
use setka.Prelude.{ℕ, inl, inr, Bool, false, ◌||◌, none, some, List, [], ◌==◌, Bool-cases, length}
use setka.Utki.{Bytes}
use setka.Address.{Address}
use setka.Socket.Posix.{sock_stream, Answer, returns, fails, Kernel, Descriptors}
use setka.Socket.{no_flags, World, size_of_int}
use setka.Socket.Inet.{to_sockaddr, make_ip_address}
use setka.Socket.Tcp
use setka.Socket.Tcp.{
  Tcp, connected, not_connected, open_tcp, get_local_address, get_remote_address,
}
use setka.Socket.Owns.{Owns, Ensures}
use setka.Socket.Owns.Rules.{
  Ensures-bind, Ensures-pure, Ensures-throw, Ensures-set_flags, Ensures-when, Ensures-close,
}
use setka.Socket.Owns.Opening.{
  Ensures-socket, Ensures-or_throw-Created, Ensures-with_sock, Ensures-if_closed,
}
use setka.Socket.Owned.{
  H, then_call, then_or_throw, then_retry, then_do, then_set_sock, Ensures-set_nonblocking,
  Ensures-disable_naggle,
}
use setka.Socket.Calls.{TcpCall, tcp_method, after_calls}
use setka.Socket.Calls.Accounts.{
  after_calls-Owns, Accounts, owns, Accounts-ignore, Accounts-close, Accounts-flags,
  Accounts-get_local_port, Accounts-value, Accounts-again,
}

module _ (k : Kernel) (os : Descriptors k) (others : ℕ → Bool) where
  Accounts-connected :
      (d : ℕ) (r : Answer (Unit {0}))
      → Ensures k os others (H k os others (some d)) (connected k r) (λ _. Owns k os others)
  Accounts-connected d (returns u) = owns k os others (some d) _ (Ensures-pure k os others tt _)
  Accounts-connected d (fails e) =
      elim (Bool-cases (e == k.error_interrupted || e == k.error_in_progress)) [
        | inl goes_on ↦ rw goes_on (owns k os others (some d) _ (Ensures-pure k os others tt _))
        | inr failed ↦ rw failed (
            Ensures-bind k os others _ _ _ _ _ (Ensures-close k os others (some d))
              λ _. Ensures-throw k os others _ none _)
      ]

  Accounts-open_tcp : (a : Address) (no_delay : Bool) → Accounts k os others (open_tcp k a no_delay)
  unfolding open_tcp
  Accounts-open_tcp a no_delay = Ensures-if_closed k os others _ _ (
      Ensures-bind k os others _ _ _ _ _ (Ensures-socket k os others _ sock_stream) λ created.
        Ensures-bind k os others _ _ _ _ _ (Ensures-or_throw-Created k os others created) λ d.
          then_set_sock k os others d _ _ (
            then_do k os others _ _ _ _
              (Ensures-when k os others _ no_delay _ (Ensures-disable_naggle k os others d))
              (then_do k os others _ _ _ _ (Ensures-set_nonblocking k os others d) (
                then_do k os others _ _ _ _ (Ensures-set_flags k os others _ (λ f. no_flags)) (
                  then_call k os others _ _ (k.connect d (to_sockaddr k a)) _ (os.quiet-connect d _)
                    λ r. Accounts-connected d r)))))

  Accounts-send_tcp : (fuel : ℕ) (buf : Bytes) → Accounts k os others (Tcp.send k fuel buf)
  unfolding Tcp.send
  Accounts-send_tcp fuel buf = Ensures-with_sock k os others _ _ λ d.
      then_do k os others _ _ _ _
        (Ensures-set_flags k os others _ (λ f. record f { write = false }))
        (then_retry k os others _ _ fuel (k.send d buf (size_of_int (length buf)))
          (Tcp.length_or_zero k) (os.quiet-send d buf _)
          (elim [
            | returns n ↦ Accounts-value k os others d n
            | fails e ↦ Accounts-again k os others d e 0
          ]))

  Accounts-recieve_tcp : (fuel size : ℕ) → Accounts k os others (Tcp.recieve k fuel size)
  unfolding Tcp.recieve
  Accounts-recieve_tcp fuel size =
      Ensures-bind k os others _ _ _ _ _
        (Accounts-flags k os others (λ f. record f { read = false }))
        λ _. Ensures-with_sock k os others _ _ λ d.
          then_retry k os others _ _ fuel (k.recv d (size_of_int size)) (Tcp.bytes_or_none k)
            (os.quiet-recv d _)
            (elim [
              | returns b ↦ Accounts-value k os others d b
              | fails e ↦ Accounts-again k os others d e []
            ])

  Accounts-get_local_address : Accounts k os others (get_local_address k)
  unfolding get_local_address
  Accounts-get_local_address = Ensures-with_sock k os others _ _ λ d.
      then_call k os others _ _ (k.getsockname d) _ (os.quiet-getsockname d) λ got.
        then_or_throw k os others _ _ got _ λ a. Accounts-value k os others d (make_ip_address k a)

  Accounts-get_remote_address : Accounts k os others (get_remote_address k)
  unfolding get_remote_address
  Accounts-get_remote_address = Ensures-with_sock k os others _ _ λ d.
      then_call k os others _ _ (k.getpeername d) _ (os.quiet-getpeername d) λ got.
        then_or_throw k os others _ _ got _ λ a. Accounts-value k os others d (make_ip_address k a)

  Accounts-tcp_method : (c : TcpCall) → Accounts k os others (tcp_method k c)
  Accounts-tcp_method (TcpCall.opens a b) = Accounts-open_tcp a b
  Accounts-tcp_method (TcpCall.sends fuel buf) =
      Accounts-ignore k os others _ (Accounts-send_tcp fuel buf)
  Accounts-tcp_method (TcpCall.receives fuel size) =
      Accounts-ignore k os others _ (Accounts-recieve_tcp fuel size)
  Accounts-tcp_method TcpCall.closes = Accounts-close k os others
  Accounts-tcp_method TcpCall.asks_port =
      Accounts-ignore k os others _ (Accounts-get_local_port k os others)
  Accounts-tcp_method TcpCall.asks_local = Accounts-ignore k os others _ Accounts-get_local_address
  Accounts-tcp_method TcpCall.asks_remote =
      Accounts-ignore k os others _ Accounts-get_remote_address

  -- Whatever calls are made on a TCP socket, and however each of them ends, the descriptors that are
  -- open are afterwards those of the others, which the calls neither open nor close, and that of the
  -- socket, if it is open: none is leaked, and none is closed that is not open. This if it was so before
  -- the calls, if no other thread opens or closes descriptors, and where nothing is known of the closing
  -- of a descriptor that is not open.
  pub tcp_calls-Owns :
      (cs : List TcpCall) (w : World _ k.State)
      → Owns k os others w
      → Owns k os others (after_calls (tcp_method k) cs w)
  tcp_calls-Owns = after_calls-Owns k os others (tcp_method k) Accounts-tcp_method
