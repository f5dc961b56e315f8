-- ===== src/Dns/Locks/Invariant.antt =====
-- src/setka/dns_resolver.cpp: who has locked what, and what is known of a resolver while `cancel` leaves.
pub mod Calls
pub mod Callers
pub mod Thread
pub mod Kept
use setka.Prelude.{
  ℕ, zero, suc, ◌≡◌, ◌≢◌, refl, Bool, true, false, Option, none, some, arith, ◌==◌, if◌then◌else◌,
}
use setka.Dns.Locks.{
  Shared, Call, resolves, cancels, cleans_up, Pc, idle, begun, in_dns, cancelling, awaiting,
  awaited, checking, checked, adding, joined, leaving, left, set, after_call, Acts, Look, starting,
  opening, sleeping, working, announcing, releasing, calling, resuming, gone, Looks, System, update,
  Goes, looks, acts, Reaches, here, next, started, replacing, failing,
}

-- Whether a thread has locked a mutex.
abbrev pub is : ℕ → Option ℕ → Bool
is t none = false
is t (some u) = t == u

-- The mutexes that a call has locked where it stands
abbrev pub has_dns : Pc → Bool
has_dns idle = false
has_dns (begun c) = false
has_dns _ = true

abbrev pub has_mutex : Pc → Bool
has_mutex (cancelling h) = true
has_mutex (awaiting h) = true
has_mutex (awaited h) = true
has_mutex (checking h) = true
has_mutex (adding h) = true
has_mutex (leaving c r) = true
has_mutex _ = false

abbrev pub has_completed : Pc → Bool
has_completed (awaited h) = true
has_completed _ = false

-- Those that the lookup thread has locked, in a callback too.
abbrev pub look_dns : Look → Bool
look_dns opening = true
look_dns failing = true
look_dns (calling h p) = has_dns p
look_dns _ = false

abbrev pub look_mutex : Look → Bool
look_mutex working = true
look_mutex (announcing h) = true
look_mutex (releasing h) = true
look_mutex (calling h p) = has_mutex p
look_mutex _ = false

abbrev pub look_completed : Look → Bool
look_completed (releasing h) = true
look_completed (calling h p) = true
look_completed _ = false

abbrev pub who : Bool → (ℕ → Bool) → ℕ → Bool
who b f zero = b
who b f (suc i) = f i

-- The callback for a resolver is running, or about to.
abbrev pub in_callback : ℕ → Look → Bool
in_callback h (announcing k) = h == k
in_callback h (releasing k) = h == k
in_callback h (calling k p) = h == k
in_callback h _ = false

-- `cancel` of a resolver waits for the callbacks; it has waited for them.
abbrev pub is_waiting : ℕ → Pc → Bool
is_waiting h (awaiting k) = h == k
is_waiting h _ = false

abbrev pub has_waited : ℕ → Pc → Bool
has_waited h (awaited k) = h == k
has_waited h (leaving (cancels k) false) = h == k
has_waited h (left (cancels k) false) = h == k
has_waited h _ = false

-- The call that a callback makes
abbrev pub nested : Look → Pc
nested (calling h p) = p
nested _ = idle

-- Neither is there a request, nor does the callback run.
abbrev pub IsDone : Shared → Look → ℕ → Type 0
IsDone m l h = (m.active h ≡ false) × (in_callback h l ≡ false)

pub record Inv (m : Shared) (l : Look) (f : ℕ → Pc) : Type 0 where
  pub dns : (t : ℕ) → is t m.dns_mutex ≡ who (look_dns l) (λ i. has_dns (f i)) t
  pub mutex : (t : ℕ) → is t m.mutex ≡ who (look_mutex l) (λ i. has_mutex (f i)) t
  pub completed :
      (t : ℕ) → is t m.completed_mutex ≡ who (look_completed l) (λ i. has_completed (f i)) t
  pub quiet : (h : ℕ) → m.quiet h ≡ true → IsDone m l h
  pub waiting : (i h : ℕ) → is_waiting h (f i) ≡ true → m.active h ≡ false
  pub waited : (i h : ℕ) → has_waited h (f i) ≡ true → IsDone m l h
  pub no_nested : (h : ℕ) → has_waited h (nested l) ≡ false
