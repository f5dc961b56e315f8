-- ===== src/Dns/Locks.antt =====
-- src/setka/dns_resolver.cpp: the mutexes of `resolve`, `cancel`, `clean_up` and of the lookup thread
-- with its callbacks, from the start of one lookup thread to its end. A step of a thread is one lock or
-- unlock, or what it does between two of them. Thread 0 is the lookup thread, the others call. A thread that
-- locks a mutex again that it has locked waits for ever. When the lookup thread works, exits and ends is left
-- open. `dns::thread` is this thread: where `resolve` replaces it, where `clean_up` has joined it, and where
-- its socket cannot be opened while there are requests, the state is one that is not followed further.
pub mod Invariant
pub mod Stuck
pub mod Returns
pub mod Tests
use setka.Prelude.{ℕ, zero, suc, ◌≡◌, Bool, true, false, Option, none, some, ◌==◌, if◌then◌else◌}

-- `dns::mutex`, and `mutex` and `completedMutex` of the thread, with the thread that has locked them; the
-- resolvers with an active request; whether the thread has ended. `quiet` is no part of the program: it
-- says that the last call that ended for a resolver was a `cancel` that returned false.
pub record Shared : Type 0 where
  pub dns_mutex : Option ℕ
  pub mutex : Option ℕ
  pub completed_mutex : Option ℕ
  pub active : ℕ → Bool
  pub ended : Bool
  -- `isExiting`, after the call that started the thread
  pub exiting : Bool
  pub quiet : ℕ → Bool

pub data Call : Type 0 where
  resolves cancels : ℕ → Call
  cleans_up : Call

-- Where a thread stands in a call, and what the call will return (`false` for an exception too).
pub data Pc : Type 0 where
  idle : Pc
  begun : Call → Pc  -- before `dns::mutex` is locked
  in_dns : Call → Pc
  cancelling : ℕ → Pc  -- with `mutex` locked
  awaiting : ℕ → Pc  -- before `completedMutex` is locked
  awaited : ℕ → Pc
  checking : ℕ → Pc  -- `resolve`, with `mutex` locked
  checked : ℕ → Pc  -- with `mutex` unlocked again
  adding : ℕ → Pc
  joined : Pc  -- the thread object is destroyed; what follows is not modelled
  replacing : Pc  -- `resolve` puts another thread in its place; what follows is not modelled
  leaving : Call → Bool → Pc  -- before `mutex` is unlocked
  left : Call → Bool → Pc  -- before `dns::mutex` is unlocked

abbrev pub set : (ℕ → Bool) → ℕ → Bool → ℕ → Bool
set f h b k = if k == h then b else f k

-- What a call that has ended says of a resolver.
abbrev pub after_call : Call → Bool → (ℕ → Bool) → ℕ → Bool
after_call (cancels h) false f = set f h true
after_call _ _ f = f

-- A step of thread `t` in a call, once the lookup thread has been started: calls that find no thread, and
-- a start that fails, are before that, and stand in Client.
pub data Acts (t : ℕ) (m : Shared) : Pc → Shared → Pc → Type 0 where
  begins : (c : Call) → Acts t m idle m (begun c)
  locks_dns :
      {c : Call}
      → m.dns_mutex ≡ none
      → Acts t m (begun c) (record m { dns_mutex = some t }) (in_dns c)
  locks_to_cancel :
      {h : ℕ}
      → m.mutex ≡ none
      → Acts t m (in_dns (cancels h)) (record m { mutex = some t }) (cancelling h)
  removes :
      {h : ℕ}
      → m.active h ≡ true
      → Acts t m
          (cancelling h)
          (record m { active = set m.active h false })
          (leaving (cancels h) true)
  finds_none : {h : ℕ} → m.active h ≡ false → Acts t m (cancelling h) m (awaiting h)
  locks_completed :
      {h : ℕ}
      → m.completed_mutex ≡ none
      → Acts t m (awaiting h) (record m { completed_mutex = some t }) (awaited h)
  unlocks_completed :
      {h : ℕ}
      → Acts t m (awaited h) (record m { completed_mutex = none }) (leaving (cancels h) false)
  locks_to_check :
      {h : ℕ}
      → m.mutex ≡ none
      → Acts t m (in_dns (resolves h)) (record m { mutex = some t }) (checking h)
  is_busy : {h : ℕ} → m.active h ≡ true → Acts t m (checking h) m (leaving (resolves h) false)
  unlocks_checked :
      {h : ℕ}
      → m.active h ≡ false
      → m.exiting ≡ false
      → Acts t m (checking h) (record m { mutex = none }) (checked h)
  replaces :
      {h : ℕ}
      → m.active h ≡ false
      → m.exiting ≡ true
      → Acts t m (checking h) (record m { mutex = none }) replacing
  locks_to_add :
      {h : ℕ} → m.mutex ≡ none → Acts t m (checked h) (record m { mutex = some t }) (adding h)
  adds :
      {h : ℕ}
      → Acts t m
          (adding h)
          (record m { active = set m.active h true; quiet = set m.quiet h false })
          (leaving (resolves h) true)
  has_no_id : {h : ℕ} → Acts t m (adding h) m (leaving (resolves h) false)
  joins : m.ended ≡ true → Acts t m (in_dns cleans_up) m joined
  unlocks : {c : Call} {r : Bool} → Acts t m (leaving c r) (record m { mutex = none }) (left c r)
  returns :
      {c : Call} {r : Bool}
      → Acts t m (left c r) (record m { dns_mutex = none; quiet = after_call c r m.quiet }) idle

-- Where the lookup thread stands: in a callback, with the call that the callback makes.
pub data Look : Type 0 where
  starting : Look  -- before it locks `dns::mutex` to open its socket
  opening : Look
  failing : Look  -- the socket cannot be opened
  sleeping : Look
  working : Look  -- with `mutex` locked
  announcing : ℕ → Look  -- in `CallCallback`, before `completedMutex` is locked
  releasing : ℕ → Look  -- before `mutex` is unlocked
  calling : ℕ → Pc → Look
  resuming : Look  -- before `mutex` is locked again
  gone : Look

-- A step of the lookup thread. When it works and when it ends is left open.
pub data Looks (m : Shared) : Look → Shared → Look → Type 0 where
  locks_to_open : m.dns_mutex ≡ none → Looks m starting (record m { dns_mutex = some 0 }) opening
  opened : Looks m opening (record m { dns_mutex = none }) sleeping
  cannot_open : Looks m opening (record m { exiting = true }) failing
  -- with requests, `CallCallback` unlocks `mutex`, which is not locked; what follows is not modelled
  has_no_requests :
      ((h : ℕ) → m.active h ≡ false)
      → Looks m failing (record m { dns_mutex = none; ended = true }) gone
  wakes : m.mutex ≡ none → Looks m sleeping (record m { mutex = some 0 }) working
  sleeps : Looks m working (record m { mutex = none }) sleeping
  sets_exiting : Looks m working (record m { exiting = true }) working
  takes :
      {h : ℕ}
      → m.active h ≡ true
      → Looks m working (record m { active = set m.active h false }) (announcing h)
  locks_before_call :
      {h : ℕ}
      → m.completed_mutex ≡ none
      → Looks m (announcing h) (record m { completed_mutex = some 0 }) (releasing h)
  unlocks_to_call : {h : ℕ} → Looks m (releasing h) (record m { mutex = none }) (calling h idle)
  calls :
      {h : ℕ} {p p' : Pc} {m' : Shared} → Acts 0 m p m' p' → Looks m (calling h p) m' (calling h p')
  called : {h : ℕ} → Looks m (calling h idle) (record m { completed_mutex = none }) resuming
  resumes : m.mutex ≡ none → Looks m resuming (record m { mutex = some 0 }) working
  ends : Looks m sleeping (record m { ended = true }) gone

-- Caller `i` is thread `suc i`.
pub record System : Type 0 where
  pub shared : Shared
  pub look : Look
  pub callers : ℕ → Pc

abbrev pub update : (ℕ → Pc) → ℕ → Pc → ℕ → Pc
update f i p j = if j == i then p else f j

pub data Goes (s : System) : System → Type 0 where
  looks :
      {m : Shared} {l : Look}
      → Looks s.shared s.look m l
      → Goes s (record s { shared = m; look = l })
  acts :
      (i : ℕ) {m : Shared} {p : Pc}
      → Acts (suc i) s.shared (s.callers i) m p
      → Goes s (record s { shared = m; callers = update s.callers i p })

pub data Reaches (s : System) : System → Type 0 where
  here : Reaches s s
  next : {t u : System} → Reaches s t → Goes t u → Reaches s u

-- The call that started the thread has returned, and left these requests.
abbrev pub started : (ℕ → Bool) → System
started requests = record {
  shared = record {
    dns_mutex = none;
    mutex = none;
    completed_mutex = none;
    active = requests;
    ended = false;
    exiting = false;
    quiet = λ h. false;
  };
  look = starting;
  callers = λ i. idle;
}
