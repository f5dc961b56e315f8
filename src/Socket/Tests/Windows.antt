-- ===== src/Socket/Tests/Windows.antt =====
-- A small Winsock with one socket: all that is selected happens, but for the closing.
use setka.Prelude.{subst, ap, ◌≡◌, refl, true, false, some, arith}
use setka.Socket.Method.{ok}
use setka.Socket.Posix.{Answer, returns, fails}
use setka.Socket.{Flags, no_flags}
use setka.Socket.Windows.{
  FdBits, NetworkEvents, Winsock, Waitable, check_signaled, tcp_set_waiting_flags,
  set_waiting_events_for_windows, tcp_events,
}
use setka.Socket.Windows.Waits.{
  Selection, is_within, tcp, set_waiting_flags, IsFor, Marks, check_signaled-IsFor,
}

abbrev nothing : FdBits
nothing = record {
  fd_read = false;
  fd_write = false;
  fd_accept = false;
  fd_connect = false;
  fd_close = false;
}

-- The connection is refused.
abbrev happens : FdBits → NetworkEvents
happens m = record {
  network_events = record m { fd_close = false };
  read_code = 0;
  write_code = 0;
  accept_code = 0;
  connect_code = 10061;
}

abbrev winsock : Winsock
winsock = record {
  State = FdBits;
  shutdown = λ d s. s;
  closesocket = λ d s. nothing;
  set_nonblocking = λ d s. (returns tt, s);
  create_event = λ s. (returns 1, s);
  close_event = λ e s. s;
  event_select = λ d e m s. (returns tt, m);
  enum_network_events = λ d e s. (returns (happens s), s);
}

abbrev answered : Answer NetworkEvents → NetworkEvents
answered (returns n) = n
answered (fails e) = happens nothing

within_all : (m : FdBits) → is_within (record m { fd_close = false }) m ≡ true
within_all m = ground arith

abbrev selection : Selection winsock
selection = record {
  selected = λ s d. s;
  selects = λ d e m s h. refl;
  finds = λ d e s found h.
      subst (λ n. is_within n.network_events s ≡ true) (ap answered h) (within_all s);
}

abbrev connecting : Waitable FdBits
connecting = record {
  object = record { sock = some 5; readiness_flags = no_flags; members = some 1 };
  kernel = nothing;
}

abbrev to_write : Flags
to_write = record { read = false; write = true; error = false }

check_signaled-IsFor_example :
    let w1 = (set_waiting_flags winsock tcp to_write connecting).1 in
    let (r, w2) = check_signaled winsock (λ f. f.write) w1 in
    let new = w2.object.readiness_flags in
    (r ≡ ok new.write) × IsFor to_write no_flags new × Marks (happens w1.kernel) no_flags new
unfolding tcp_set_waiting_flags set_waiting_events_for_windows tcp_events
check_signaled-IsFor_example =
    check_signaled-IsFor winsock selection tcp to_write connecting (λ f. f.write)
      (happens (set_waiting_flags winsock tcp to_write connecting).1.kernel) refl refl
