-- ===== src/Dns/Locks/Invariant/Kept.antt =====
-- src/setka/dns_resolver.cpp: reachable states, and what `cancel` promises.
use setka.Prelude.{ℕ, ◌≡◌, refl, Bool, true, false, arith}
use setka.Dns.Locks.{System, Goes, looks, acts, Reaches, here, next, started}
use setka.Dns.Locks.Invariant.{in_callback, Inv}
use setka.Dns.Locks.Invariant.Callers.{Acts-Inv}
use setka.Dns.Locks.Invariant.Thread.{Looks-Inv}

abbrev pub SystemInv : System → Type 0
SystemInv s = Inv s.shared s.look s.callers

pub started-Inv : (requests : ℕ → Bool) → SystemInv (started requests)
started-Inv requests = record {
  dns = λ t. ground arith;
  mutex = λ t. ground arith;
  completed = λ t. ground arith;
  quiet = λ h q. absurd (ground arith);
  waiting = λ j h w. absurd (ground arith);
  waited = λ j h w. absurd (ground arith);
  no_nested = λ h. refl;
}

pub Goes-Inv : {s t : System} → Goes s t → SystemInv s → SystemInv t
Goes-Inv (looks a) inv = Looks-Inv inv a
Goes-Inv (acts i a) inv = Acts-Inv i inv a

pub Reaches-Inv : {s t : System} → Reaches s t → SystemInv s → SystemInv t
Reaches-Inv here inv = inv
Reaches-Inv (next r g) inv = Goes-Inv g (Reaches-Inv r inv)

pub Reaches-append : {s t u : System} → Reaches s t → Reaches t u → Reaches s u
Reaches-append r here = r
Reaches-append r (next q g) = next (Reaches-append r q) g

-- After a call of `cancel` has returned false, the callback of this resolver does not run and is not
-- begun, until a call of `resolve` files another request of it; this as long as no `resolve` has found the
-- lookup thread exiting and replaced it, in every state that threads which call `resolve`, `cancel` and
-- `clean_up`, also in callbacks, can reach from the start of the lookup thread.
pub cancel-IsDone :
    {requests : ℕ → Bool} {s : System}
    → Reaches (started requests) s
    → (h : ℕ) → s.shared.quiet h ≡ true
    → (s.shared.active h ≡ false) × (in_callback h s.look ≡ false)
cancel-IsDone {requests} r h q = (Reaches-Inv r (started-Inv requests)).quiet h q
