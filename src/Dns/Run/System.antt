-- ===== src/Dns/Run/System.antt =====
-- `LookupThread::run` as a whole: its start, and its rounds among the calls of other threads. A step is
-- what happens while the mutex of the thread is held, or in a callback.
use setka.Prelude.{ℕ, ◌≡◌, sym, subst, Bool, true, false, Option, some, List, []}
use setka.Utki.{Utki, Bytes}
use setka.Address.{Address}
use setka.Dns.Thread.{LookupThread}
use setka.Dns.Thread.Consistent.{IsConsistent, flags-IsConsistent, dns-IsConsistent}
use setka.Dns.Client.{Threads, ok, Request, resolve}
use setka.Dns.Client.Accepts.{IsValid, resolve_lem}
use setka.Dns.Client.Cancels.{outcome_ok}
use setka.Dns.Client.Calls.{Call}
use setka.Dns.Run.{Completion, Run, Step, ran, Received, Event, ◌>>=◌, fail, round, handle_messages}
use setka.Dns.Run.Keeps.{Keeps, >>=-Keeps, IsGood, IsGoodEnd, fail-Keeps}
use setka.Dns.Run.Rounds.{IsTimelyEvent}
use setka.Dns.Run.WithCalls.{calls_on, calls_on-IsConsistent, round_with_calls-IsConsistent}

-- The thread when `InitDNS` has found a server.
abbrev pub begun : Address → LookupThread → Run
begun dns t = record {
  thread = record t { dns = dns };
  waits_for_write = false;
  completed = [];
  sent = [];
}

module _ (u : Utki) (stack : Bytes) (meanwhile : Completion → LookupThread → LookupThread) where
  -- The start of the thread, but for the mutexes, and whether it goes on to its loop: it does if its
  -- socket is opened.
  unfoldable pub start_run : ℕ → Address → Bool → LookupThread → Step (Run × Bool)
  start_run fuel dns true t = ran (begun dns t, true)
  start_run fuel dns false t = fail u stack meanwhile fuel (begun dns t) >>= λ s. ran (s, false)

module _ (u : Utki) (stack : Bytes) (callbacks : Completion → List Call) where
  abbrev pub meanwhile : Completion → LookupThread → LookupThread
  meanwhile c = calls_on (callbacks c)

  abbrev pub IsInTime : Run → Option Received → Type 0
  IsInTime = IsTimelyEvent u stack meanwhile λ c t. calls_on-IsConsistent (callbacks c) t

  -- One step of the thread, or of another one that calls while the thread is in use. A round receives no
  -- reply to a request that is still to be sent.
  pub data Goes : Run → Run → Type 0 where
    runs_round :
        (fuel : ℕ) (e : Event) (s s' : Run) (wait : Option ℕ)
        → s.thread.quit_flag ≡ false
        → IsInTime s e.received
        → round u stack meanwhile fuel e s ≡ ran (s', wait)
        → Goes s s'
    takes_messages : (s : Run) → Goes s (handle_messages s)
    is_called : (cs : List Call) (s : Run) → Goes s (record s { thread = calls_on cs s.thread })

  pub data Reaches : Run → Run → Type 0 where
    here : (s : Run) → Reaches s s
    next : (s s' s'' : Run) → Goes s s' → Reaches s' s'' → Reaches s s''

  Goes-IsGood : (s s' : Run) → Goes s s' → IsGood s → IsGood s'
  unfolding handle_messages
  Goes-IsGood _ _ (runs_round fuel e s s' wait runs in_time ends) v =
      subst (Keeps IsGoodEnd) ends
        (round_with_calls-IsConsistent u stack callbacks fuel e s v in_time)
  Goes-IsGood _ _ (takes_messages s) v =
      flags-IsConsistent s.thread s.thread.quit_flag s.thread.is_exiting
        s.thread.last_ticks_in_first_half [] v
  Goes-IsGood _ _ (is_called cs s) v = calls_on-IsConsistent cs s.thread v

  pub Reaches-IsGood : (s s' : Run) → Reaches s s' → IsGood s → IsGood s'
  Reaches-IsGood _ _ (here s) v = v
  Reaches-IsGood _ _ (next s s' s'' g r) v = Reaches-IsGood s' s'' r (Goes-IsGood s s' g v)

  start_run-Keeps :
      (fuel : ℕ) (dns : Address) (opened : Bool) (t : LookupThread)
      → IsConsistent t
      → Keeps (λ r. IsGood r.0) (start_run u stack meanwhile fuel dns opened t)
  unfolding start_run
  start_run-Keeps fuel dns true t v = dns-IsConsistent t dns v
  start_run-Keeps fuel dns false t v =
      >>=-Keeps IsGood (λ r. IsGood r.0) _ _
        (fail-Keeps u stack meanwhile (λ c t. calls_on-IsConsistent (callbacks c) t) fuel _
          (dns-IsConsistent t dns v))
        λ s w. w

  -- A lookup thread that `resolve` started uses no null or dangling pointer, as long as it runs and
  -- whether or not its socket is opened: in no round of its loop, whatever calls of `resolve` and
  -- `cancel` are made by other threads and by callbacks, as long as no reply is received to a request
  -- that is still to be sent; and its tables are consistent whenever its mutex is free.
  pub run-IsSafe :
      (g g' : Threads) (q : Request) (t : LookupThread) (fuel fuel' : ℕ) (dns : Address)
      (opened : Bool) (s s' : Run) (e : Event) (goes_on : Bool)
      → IsValid g.thread
      → resolve g q ≡ ok g'
      → g'.thread ≡ some t
      → start_run u stack meanwhile fuel dns opened t ≡ ran (s, goes_on)
      → Reaches s s'
      → IsInTime s' e.received
      → IsGood s' × Keeps IsGoodEnd (round u stack meanwhile fuel' e s')
  run-IsSafe g g' q t fuel fuel' dns opened s s' e goes_on v accepted there starts reaches in_time =
      let (idle, id, w, there', a) =
        outcome_ok g.thread q (resolve g q) g' accepted (resolve_lem g q v) in
      let valid : IsValid g'.thread = subst IsValid (sym there') a.consistent in
      let consistent : IsConsistent t = subst IsValid there valid in
      let started =
        subst (Keeps (λ r. IsGood r.0)) starts (start_run-Keeps fuel dns opened t consistent) in
      let good = Reaches-IsGood s s' reaches started in
      (good, round_with_calls-IsConsistent u stack callbacks fuel' e s' good in_time)
