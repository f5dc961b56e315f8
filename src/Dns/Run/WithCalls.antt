-- ===== src/Dns/Run/WithCalls.antt =====
-- Rounds of the loop, where callbacks and other threads call `resolve` and `cancel`.
use setka.Prelude.{ℕ, Option, none, some, List, [], ◌∷◌, All}
use setka.Utki.{Utki, Bytes}
use setka.Dns.Thread.{LookupThread}
use setka.Dns.Thread.Consistent.{IsConsistent}
use setka.Dns.Client.{Threads}
use setka.Dns.Client.Accepts.{IsValid}
use setka.Dns.Client.Calls.{Call, calls}
use setka.Dns.Client.Previous.{calls-AllValid}
use setka.Dns.Run.{Completion, Run, Event, round}
use setka.Dns.Run.Keeps.{Keeps, IsGood, IsGoodEnd}
use setka.Dns.Run.Rounds.{IsTimelyEvent, round-IsConsistent}

-- The thread that has been there longest: the last of the previous ones, or the one in use.
abbrev pub oldest : LookupThread → List LookupThread → LookupThread
oldest t [] = t
oldest t (p ∷ ps) = oldest p ps

abbrev pub oldest_of : LookupThread → Threads → LookupThread
oldest_of t g = elim g.thread [ none ↦ t | some u ↦ oldest u g.previous ]

-- What calls make of a thread that was in use when they began. If it counts as exiting, `resolve` starts
-- another one, and the thread is left to itself.
abbrev pub calls_on : List Call → LookupThread → LookupThread
calls_on cs t = oldest_of t (calls (record { thread = some t; previous = [] }) cs)

oldest-IsConsistent :
    (t : LookupThread) (ps : List LookupThread)
    → IsConsistent t
    → All IsConsistent ps
    → IsConsistent (oldest t ps)
oldest-IsConsistent t [] v vs = v
oldest-IsConsistent t (p ∷ ps) v vs = oldest-IsConsistent p ps vs.0 vs.1

oldest_of-IsConsistent :
    (t : LookupThread) (o : Option LookupThread) (ps : List LookupThread)
    → IsConsistent t
    → IsValid o
    → All IsConsistent ps
    → IsConsistent (oldest_of t (record { thread = o; previous = ps }))
oldest_of-IsConsistent t none ps v w vs = v
oldest_of-IsConsistent t (some u) ps v w vs = oldest-IsConsistent u ps w vs

pub calls_on-IsConsistent :
    (cs : List Call) (t : LookupThread) → IsConsistent t → IsConsistent (calls_on cs t)
calls_on-IsConsistent cs t v =
    let g = calls (record { thread = some t; previous = [] }) cs in
    let (w, vs) = calls-AllValid (record { thread = some t; previous = [] }) cs (v, tt) in
    oldest_of-IsConsistent t g.thread g.previous v w vs

-- A round of the loop with callbacks, and other threads that run meanwhile, that call `resolve` and
-- `cancel` in any way uses no null or dangling pointer, and leaves consistent tables if it comes to its
-- end: this from consistent tables, if it receives no reply to a request that is still to be sent.
pub round_with_calls-IsConsistent :
    (u : Utki) (stack : Bytes) (callbacks : Completion → List Call) (fuel : ℕ) (e : Event) (s : Run)
    → IsGood s
    → IsTimelyEvent u stack
        (λ c. calls_on (callbacks c))
        (λ c t. calls_on-IsConsistent (callbacks c) t)
        s
        e.received
    → Keeps IsGoodEnd (round u stack (λ c. calls_on (callbacks c)) fuel e s)
round_with_calls-IsConsistent u stack callbacks =
    round-IsConsistent u stack (λ c. calls_on (callbacks c))
      λ c t. calls_on-IsConsistent (callbacks c) t
