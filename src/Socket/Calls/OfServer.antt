-- ===== src/Socket/Calls/OfServer.antt =====
-- TCP server sockets keep account of their descriptors.
use setka.Prelude.{ℕ, Bool, some, List}
use setka.Socket.Posix.{sock_stream, so_reuseaddr, Kernel, Descriptors}
use setka.Socket.{World}
use setka.Socket.Create.{any_address}
use setka.Socket.Server.{create_stream, open_server}
use setka.Socket.Owns.{Owns}
use setka.Socket.Owns.Rules.{Ensures-bind, Ensures-set_members}
use setka.Socket.Owns.Opening.{Ensures-if_closed}
use setka.Socket.Owned.{
  then_call, then_do, Ensures-set_nonblocking, Ensures-or_close, Ensures-create,
}
use setka.Socket.Calls.{ServerCall, server_method, after_calls}
use setka.Socket.Calls.Accounts.{
  after_calls-Owns, Accounts, owns, Accounts-ignore, Accounts-close, Accounts-get_local_port,
}

module _ (k : Kernel) (os : Descriptors k) (others : ℕ → Bool) where
  Accounts-open_server :
      (port : ℕ) (no_delay : Bool) (n : ℕ) → Accounts k os others (open_server k port no_delay n)
  unfolding open_server create_stream
  Accounts-open_server port no_delay n = Ensures-if_closed k os others _ _ (
      then_do k os others _ _ _ _ (Ensures-set_members k os others _ no_delay) (
        Ensures-bind k os others _ _ _ _ _ (Ensures-create k os others sock_stream) λ (d, ipv4).
          then_call k os others _ _ (k.setsockopt d so_reuseaddr 1) _ (os.quiet-setsockopt d _ _)
            λ _.
              then_call k os others _ _ (k.bind d (any_address k ipv4 port)) _ (os.quiet-bind d _)
                λ bound. then_do k os others _ _ _ _ (Ensures-or_close k os others d bound) (
                  then_call k os others _ _ (k.listen d n) _ (os.quiet-listen d n) λ listens.
                    then_do k os others _ _ _ _ (Ensures-or_close k os others d listens)
                      (owns k os others (some d) _ (Ensures-set_nonblocking k os others d)))))

  Accounts-server_method : (c : ServerCall) → Accounts k os others (server_method k c)
  Accounts-server_method (ServerCall.listens port no_delay n) = Accounts-open_server port no_delay n
  Accounts-server_method ServerCall.closes = Accounts-close k os others
  Accounts-server_method ServerCall.asks_port =
      Accounts-ignore k os others _ (Accounts-get_local_port k os others)

  -- Whatever calls are made on a server socket, and however each of them ends, the descriptors that are
  -- open are afterwards those of the others, which the calls neither open nor close, and that of the
  -- socket, if it is open: none is leaked, and none is closed that is not open. This if it was so before
  -- the calls, if no other thread opens or closes descriptors, and where nothing is known of the closing
  -- of a descriptor that is not open.
  pub server_calls-Owns :
      (cs : List ServerCall) (w : World _ k.State)
      → Owns k os others w
      → Owns k os others (after_calls (server_method k) cs w)
  server_calls-Owns = after_calls-Owns k os others (server_method k) Accounts-server_method
