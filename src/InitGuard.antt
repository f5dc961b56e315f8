-- ===== src/InitGuard.antt =====
-- src/setka/init_guard.cpp: the start and the end of the library, which change how the process takes the
-- signal SIGPIPE. `signal` of the operating system is taken to succeed.
mod Tests
use setka.Prelude.{
  List, ◌∷◌, ◌++◌, some, ap, inl, inr, length, length-append, ℕ, ◌≡◌, ◌≢◌, refl, Bool, true, false,
  Option, none, [], if◌then◌else◌, arith,
}
use setka.Dns.Client.{Threads}
use setka.Dns.Thread.{LookupThread}

-- `SIG_DFL`, `SIG_IGN`, and functions
pub data Handler : Type 0 where
  default ignored : Handler
  function : ℕ → Handler

-- `signal(SIGPIPE, handler)` of the operating system, which returns the handler that there was, as a
-- parameter.
pub record Signals : Type 1 where
  pub State : Type 0
  pub signal : Handler → State → Handler × State
  pub handler : State → Handler
  pub signal_lem :
      (h : Handler) (s : State) → ((signal h s).0 ≡ handler s) × (handler (signal h s).1 ≡ h)

abbrev pub is_default : Handler → Bool
is_default default = true
is_default _ = false

abbrev pub is_ignored : Handler → Bool
is_ignored ignored = true
is_ignored _ = false

-- The thread that is told to quit, with a message that wakes it.
pub told_to_quit : LookupThread → LookupThread
told_to_quit t = record t { quit_flag = true; queue = t.queue ++ false ∷ [] }

-- `join()` of the lookup thread, as a parameter: whether the thread ends, when it is told to quit in a
-- state. `dns_resolver::clean_up()`: `none` if the join does not return. The reset destroys the thread, with
-- those before it. The debug assertion that no requests are left is not modelled.
module _ (joins : LookupThread → Bool) where
  clean_up_on : List LookupThread → Option LookupThread → Option Threads
  unfolding told_to_quit
  clean_up_on previous none = some (record { thread = none; previous = previous })
  clean_up_on previous (some t) =
      if joins (told_to_quit t) then some (record { thread = none; previous = [] }) else none

  pub clean_up : Threads → Option Threads
  unfolding clean_up_on
  clean_up g = clean_up_on g.previous g.thread

module _ (k : Signals) where
  pub record Process : Type 0 where
    pub signals : k.State
    pub threads : Threads

  -- `init_guard()`
  pub construct : Process → Process
  construct p =
      let (handler, s) = k.signal ignored p.signals in
      record p { signals = if is_default handler then s else (k.signal handler s).1 }

  -- `~init_guard()` behind `clean_up`
  unfoldable restore : Process → Threads → Process
  restore p threads =
      let (handler, s) = k.signal default p.signals in
      record {
        signals = if is_ignored handler then s else (k.signal handler s).1;
        threads = threads;
      }

  -- `~init_guard()`, or `none` if it does not return.
  pub destroy : (LookupThread → Bool) → Process → Option Process
  unfolding clean_up restore
  destroy joins p = elim (clean_up joins p.threads) [ none ↦ none | some g ↦ some (restore p g) ]

-- What is left of the handler that the process had.
abbrev pub left_of : Handler → Handler
left_of default = default
left_of ignored = default
left_of (function n) = function n

clean_up_on_lem :
    (joins : LookupThread → Bool) (previous : List LookupThread) (o : Option LookupThread)
    → ((t : LookupThread) → t.quit_flag ≡ true → t.queue ≢ [] → joins t ≡ true)
    → (g : Threads) × (clean_up_on joins previous o ≡ some g) × (g.thread ≡ none)
unfolding clean_up_on told_to_quit
clean_up_on_lem joins previous none ends =
    (record { thread = none; previous = previous }, refl, refl)
clean_up_on_lem joins previous (some t) ends =
    let told : LookupThread = record t { quit_flag = true; queue = t.queue ++ false ∷ [] } in
    let woken : told.queue ≢ [] = λ e. ground (arith, length-append t.queue (false ∷ []), e) in
    rw (ends told refl woken) (record { thread = none; previous = [] }, refl, refl)

module _ (k : Signals) where
  abbrev pub handled : Process k → Handler
  handled p = k.handler p.signals

  construct-handled :
      (p : Process k)
      → handled (construct k p) ≡ (if is_default (handled p) then ignored else handled p)
  unfolding construct
  construct-handled p =
      let (old, new) = k.signal_lem ignored p.signals in
      let back = k.signal_lem (k.signal ignored p.signals).0 (k.signal ignored p.signals).1 in
      ground (arith, old, new, back)

  restore-handled :
      (p : Process k) (threads : Threads)
      → handled (restore k p threads) ≡ (if is_ignored (handled p) then default else handled p)
  unfolding restore
  restore-handled p threads =
      let (old, new) = k.signal_lem default p.signals in
      let back = k.signal_lem (k.signal default p.signals).0 (k.signal default p.signals).1 in
      ground (arith, old, new, back)

  -- While the library is in use, SIGPIPE does not end the process. If the lookup thread, when it is told to
  -- quit and woken, ends, then the end of the library returns; no lookup thread is left; and where nothing
  -- else has changed the handler, this is the one that there was before, but the default if SIGPIPE was
  -- ignored.
  pub destroy-construct :
      (joins : LookupThread → Bool) (p : Process k) (use_library : Process k → Process k)
      → ((t : LookupThread) → t.quit_flag ≡ true → t.queue ≢ [] → joins t ≡ true)
      → ((q : Process k) → handled (use_library q) ≡ handled q)
      → (handled (construct k p) ≢ default)
        × (q : Process k) × (destroy k joins (use_library (construct k p)) ≡ some q)
        × (handled q ≡ left_of (handled p))
        × (q.threads.thread ≡ none)
  unfolding destroy clean_up
  destroy-construct joins p use_library ends keeps =
      let used = use_library (construct k p) in
      let (threads, cleaned, gone) =
        clean_up_on_lem joins used.threads.previous used.threads.thread ends in
      let start = construct-handled p in
      let end = restore-handled used threads in
      let kept = keeps (construct k p) in
      (
        ground arith,
        restore k used threads,
        ap
            (λ o. elim o as (λ _. Option (Process k)) [
              | none ↦ none
              | some g ↦ some (restore k used g)
            ])
            cleaned,
        ground (arith, kept, start, end),
        gone,
      )
