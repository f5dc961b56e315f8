-- ===== src/Dns/Client/Lookups.antt =====
-- What `dns_resolver` promises its users, with no ids, times and tables: which lookups are active.
pub mod Refines
use setka.Prelude.{
  ℕ, ◌≡◌, ◌≢◌, ◌<◌, ◌≤◌, refl, sym, subst, ap, ◌∙◌, inl, inr, Bool, true, false, Option, none, some,
  List, [], ◌∷◌, arith, ◌==◌, if◌then◌else◌, Option-cases, length,
}
use setka.Utki.{Bytes}
use setka.Std.Map
use setka.Dns.Thread.{Resolver, LookupThread, new_thread}
use setka.Dns.Thread.Consistent.{IsConsistent}
use setka.Dns.Thread.Remove.{without, remove-flags}
use setka.Dns.Client.{
  Threads, Error, too_long, in_progress, too_many_requests, Result, ok, throws, null_dereference,
  Request, resolver_of, resolve, cancel_on, cancel,
}
use setka.Dns.Client.Accepts.{active, IsValid, serving, IsAccepted, Outcome, resolve_lem}
use setka.Dns.Client.Adds.{with_request}
use setka.Dns.Client.Cancels.{is_some, cancel_lem}
use setka.Dns.Client.Calls.{Call, resolves, cancels, after, call, calls}

-- The active lookups: for a resolver, the name that it looks up.
abbrev pub Lookups : Type 0
Lookups = ℕ → Option Bytes

-- What a call tells its user: that the lookup was started, an exception, that the program is lost, or
-- whether a lookup was cancelled.
pub data Reply : Type 0 where
  started lost : Reply
  refused : Error → Reply
  cancelled : Bool → Reply

-- 65536 resolvers, no two of them the same, have active lookups.
pub record IsFull (a : Lookups) : Type 0 where
  pub resolver : ℕ → ℕ
  pub busy : (i : ℕ) → i < 65536 → a (resolver i) ≢ none
  pub distinct : (i j : ℕ) → i < 65536 → j < 65536 → resolver i ≡ resolver j → i ≡ j

abbrev pub is_active : Option Bytes → Bool
is_active none = false
is_active (some n) = true

abbrev pub Same : Lookups → Lookups → Type 0
Same a a' = (h : ℕ) → a' h ≡ a h

-- How a call may end, and the lookups that are active after it.
pub data Step (a : Lookups) : Call → Reply → Lookups → Type 0 where
  starts :
      (q : Request) (a' : Lookups)
      → length q.host_name ≤ 253
      → a q.resolver ≡ none
      → ((h : ℕ) → a' h ≡ (if h == q.resolver then some q.host_name else a h))
      → Step a (resolves q) started a'
  is_long :
      (q : Request) (a' : Lookups)
      → 253 < length q.host_name
      → Same a a'
      → Step a (resolves q) (refused too_long) a'
  is_busy :
      (q : Request) (a' : Lookups)
      → a q.resolver ≢ none
      → Same a a'
      → Step a (resolves q) (refused in_progress) a'
  is_full :
      (q : Request) (a' : Lookups)
      → IsFull a
      → Same a a'
      → Step a (resolves q) (refused too_many_requests) a'
  -- the thread could not be started
  loses : (q : Request) (a' : Lookups) → q.starts ≡ false → Same a a' → Step a (resolves q) lost a'
  stops :
      (r : ℕ) (a' : Lookups)
      → ((h : ℕ) → a' h ≡ (if h == r then none else a h))
      → Step a (cancels r) (cancelled (is_active (a r))) a'

-- Calls, one after the other.
pub data Steps : Lookups → List Call → List Reply → Lookups → Type 0 where
  no_calls : {a : Lookups} → Steps a [] [] a
  more :
      {a b d : Lookups} {c : Call} {r : Reply} {cs : List Call} {rs : List Reply}
      → Step a c r b
      → Steps b cs rs d
      → Steps a (c ∷ cs) (r ∷ rs) d

-- The lookups of the code
abbrev pub name_of : Option Resolver → Option Bytes
name_of none = none
name_of (some r) = some r.host_name

abbrev pub lookups : Threads → Lookups
lookups g h = name_of (active g.thread h)

abbrev pub reply_of : Result Threads → Reply
reply_of (ok g) = started
reply_of (throws e) = refused e
reply_of null_dereference = lost

abbrev pub reply : Threads → Call → Reply
reply g (resolves q) = reply_of (resolve g q)
reply g (cancels r) = cancelled (cancel g r).1

pub replies : Threads → List Call → List Reply
replies g [] = []
replies g (c ∷ cs) = reply g c ∷ replies (call g c) cs

-- The tables are consistent, and the thread is not exiting.
abbrev pub IsLive : Option LookupThread → Type 0
IsLive none = Unit {0}
IsLive (some t) = IsConsistent t × (t.is_exiting ≡ false)
