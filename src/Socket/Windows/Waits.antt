-- ===== src/Socket/Windows/Waits.antt =====
-- The waits of the sockets on Windows: what is selected, and the flags that come of it.
use setka.Prelude.{
  subst, inl, inr, ℕ, ◌≡◌, ◌∙◌, sym, ap, refl, Bool, true, false, not, ◌&&◌, ◌||◌, Option, arith,
  ◌==◌,
}
use setka.Socket.Method.{Result, logic_error, ok, Io, throw_if}
use setka.Socket.Posix.{returns, Answer-cases}
use setka.Socket.{Flags, Socket}
use setka.Socket.Windows.{
  FdBits, NetworkEvents, Winsock, mark, tcp_events, server_events, udp_events, is_clear, Waitable,
  set_waiting_events_for_windows, check_signaled, tcp_set_waiting_flags, server_set_waiting_flags,
  udp_set_waiting_flags,
}

-- Each bit of the first is one of the second.
abbrev pub is_within : FdBits → FdBits → Bool
is_within a b =
    (not a.fd_read || b.fd_read)
    && (not a.fd_write || b.fd_write)
    && (not a.fd_accept || b.fd_accept)
    && (not a.fd_connect || b.fd_connect)
    && (not a.fd_close || b.fd_close)

-- What Winsock says of `WSAEventSelect` and `WSAEnumNetworkEvents`: a socket has events that are selected,
-- and no others are found.
pub record Selection (k : Winsock) : Type 0 where
  pub selected : k.State → Option ℕ → FdBits
  pub selects :
      (d e : Option ℕ) (m : FdBits) (s : k.State)
      → (k.event_select d e m s).0 ≡ returns tt
      → selected (k.event_select d e m s).1 d ≡ m
  pub finds :
      (d e : Option ℕ) (s : k.State) (found : NetworkEvents)
      → (k.enum_network_events d e s).0 ≡ returns found
      → is_within found.network_events (selected s d) ≡ true

-- The kinds of sockets, and what each waits with.
pub data Kind : Type 0 where
  tcp server udp : Kind

abbrev pub events : Kind → Flags → FdBits
events tcp w = tcp_events w
events server w = server_events w
events udp w = udp_events w

abbrev pub set_waiting_flags : (k : Winsock) → Kind → Flags → Io (Waitable k.State) (Unit {0})
set_waiting_flags k tcp w = tcp_set_waiting_flags k w
set_waiting_flags k server w = server_set_waiting_flags k w
set_waiting_flags k udp w = udp_set_waiting_flags k w

-- Some event that was found has an error code.
abbrev pub has_code : NetworkEvents → Bool
has_code e =
    (e.network_events.fd_read && not (e.read_code == 0))
    || (e.network_events.fd_accept && not (e.accept_code == 0))
    || (e.network_events.fd_write && not (e.write_code == 0))
    || (e.network_events.fd_connect && not (e.connect_code == 0))

-- The flags after a wait, by those before it and the events that were found
abbrev pub Marks : NetworkEvents → Flags → Flags → Type 0
Marks e old new =
    (new.read ≡ (old.read || e.network_events.fd_read || e.network_events.fd_accept))
    × (new.write ≡ (old.write || e.network_events.fd_write || e.network_events.fd_connect))
    × (new.error ≡ (old.error || e.network_events.fd_close || has_code e))

-- The read and write flags after a wait are ones before it or ones that it was for.
abbrev pub IsFor : Flags → Flags → Flags → Type 0
IsFor waiting old new =
    (new.read ≡ true → (old.read || waiting.read) ≡ true)
    × (new.write ≡ true → (old.write || waiting.write) ≡ true)

mark-IsFor :
    (c : Kind) (waiting old : Flags) (e : NetworkEvents)
    → is_within e.network_events (events c waiting) ≡ true
    → IsFor waiting old (mark e old)
unfolding mark tcp_events server_events udp_events
mark-IsFor tcp waiting old e h = ground arith
mark-IsFor server waiting old e h = ground arith
mark-IsFor udp waiting old e h = ground arith

mark-Marks : (old : Flags) (e : NetworkEvents) → Marks e old (mark e old)
unfolding mark
mark-Marks old e = (ground arith, ground arith, ground arith)

-- What does not throw goes on.
throw_if-ok :
    {S : Type 0} (b : Bool) (m : Io S (Unit {0})) (s : S)
    → (throw_if b logic_error m s).0 ≡ ok tt
    → throw_if b logic_error m s ≡ m s
throw_if-ok true m s h = absurd (ground arith)
throw_if-ok false m s h = refl

module _ (k : Winsock) (os : Selection k) where
  after_select :
      (m : FdBits) (w : Waitable k.State)
      → (set_waiting_events_for_windows k m w).0 ≡ ok tt
      → let w1 = (set_waiting_events_for_windows k m w).1 in
        (w1.object ≡ w.object) × (os.selected w1.kernel w.object.sock ≡ m)
  unfolding set_waiting_events_for_windows
  after_select m w h =
      elim (Answer-cases (k.event_select w.object.sock w.object.members m w.kernel).0) [
        | inl (tt, done) ↦ rw done (refl, os.selects w.object.sock w.object.members m w.kernel done)
        | inr (e, failed) ↦ absurd (ground arith)
      ]

  after_wait :
      (c : Kind) (waiting : Flags) (w : Waitable k.State)
      → (set_waiting_flags k c waiting w).0 ≡ ok tt
      → let w1 = (set_waiting_flags k c waiting w).1 in
        (w1.object ≡ w.object) × (os.selected w1.kernel w.object.sock ≡ events c waiting)
  unfolding tcp_set_waiting_flags server_set_waiting_flags udp_set_waiting_flags
  after_wait tcp waiting w h = after_select (tcp_events waiting) w h
  after_wait server waiting w h =
      let m = set_waiting_events_for_windows k (server_events waiting) in
      let same = throw_if-ok (not (is_clear waiting) && not waiting.read) m w h in
      subst
        (λ (r : Result (Unit {0}) × Waitable k.State).
          (r.1.object ≡ w.object) × (os.selected r.1.kernel w.object.sock ≡ server_events waiting))
        (sym same)
        (after_select (server_events waiting) w
          (ap (λ (r : Result (Unit {0}) × Waitable k.State). r.0) (sym same) ∙ h))
  after_wait udp waiting w h = after_select (udp_events waiting) w h

  after_check :
      (of_waitable : Flags → Bool) (w : Waitable k.State) (found : NetworkEvents)
      → (k.enum_network_events w.object.sock w.object.members w.kernel).0 ≡ returns found
      → let (r, w2) = check_signaled k of_waitable w in
        (r ≡ ok (of_waitable w2.object.readiness_flags))
        × (w2.object.readiness_flags ≡ mark found w.object.readiness_flags)
  unfolding check_signaled
  after_check of_waitable w found e = rw (e, check_signaled) (refl, refl)

  -- On Windows, when a TCP, server or UDP socket has been told what to wait for and Winsock then finds
  -- events for it, check_signaled returns what the base class makes of the flags. These are those set
  -- before, with read for the events of reading and accepting, write for those of writing and connecting,
  -- and error for a closing and for each event with an error code; and read and write are only set where
  -- they were before or where the wait was for them. This where Winsock finds no events but those that were
  -- selected last.
  pub check_signaled-IsFor :
      (c : Kind) (waiting : Flags) (w : Waitable k.State) (of_waitable : Flags → Bool)
      (found : NetworkEvents)
      → (set_waiting_flags k c waiting w).0 ≡ ok tt
      → let w1 = (set_waiting_flags k c waiting w).1 in
        (k.enum_network_events w1.object.sock w1.object.members w1.kernel).0 ≡ returns found
        → let (r, w2) = check_signaled k of_waitable w1 in
          let new = w2.object.readiness_flags in
          (r ≡ ok (of_waitable new))
          × IsFor waiting w.object.readiness_flags new
          × Marks found w.object.readiness_flags new
  check_signaled-IsFor c waiting w of_waitable found told e =
      let w1 = (set_waiting_flags k c waiting w).1 in
      let (kept, selected) = after_wait c waiting w told in
      let (returned, marked) = after_check of_waitable w1 found e in
      let old = w.object.readiness_flags in
      let now = marked ∙ ap (λ (o : Socket (Option ℕ)). mark found o.readiness_flags) kept in
      let within =
        subst (λ d. is_within found.network_events (os.selected w1.kernel d) ≡ true)
          (ap (λ (o : Socket (Option ℕ)). o.sock) kept)
          (os.finds w1.object.sock w1.object.members w1.kernel found e) in
      (
        returned,
        subst (IsFor waiting old) (sym now) (
            mark-IsFor c waiting old found
              (subst (λ b. is_within found.network_events b ≡ true) selected within)),
        subst (Marks found old) (sym now) (mark-Marks old found),
      )
