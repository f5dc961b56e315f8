-- ===== src/Dns/Client/Lookups/Refines.antt =====
-- `resolve` and `cancel` keep what `dns_resolver` promises.
use setka.Prelude.{
  ℕ, ◌≡◌, ◌≢◌, ◌<◌, refl, sym, subst, ap, ◌∙◌, Option, none, some, List, [], ◌∷◌, arith,
}
use setka.Std.Map
use setka.Dns.Thread.{Resolver, LookupThread}
use setka.Dns.Thread.Consistent.{IsConsistent}
use setka.Dns.Thread.Remove.{remove-flags}
use setka.Dns.Client.{
  Threads, too_long, in_progress, too_many_requests, Result, ok, throws, null_dereference, Request,
  resolver_of, resolve, cancel_on, cancel,
}
use setka.Dns.Client.Accepts.{active, IsValid, serving, Outcome, resolve_lem}
use setka.Dns.Client.Cancels.{is_some, cancel_lem}
use setka.Dns.Client.Calls.{Call, resolves, cancels, after, call, calls}
use setka.Dns.Client.Lookups.{
  cancelled, IsFull, is_active, Step, starts, is_long, is_busy, is_full, loses, stops, Steps,
  no_calls, more, name_of, lookups, reply_of, reply, replies, IsLive,
}

IsLive-IsValid : (o : Option LookupThread) → IsLive o → IsValid o
IsLive-IsValid none v = tt
IsLive-IsValid (some t) v = v.0

serving-find :
    (o : Option LookupThread) (h : ℕ) → IsLive o → Map.find h (serving o).resolvers_map ≡ active o h
unfolding Map.find
serving-find none h v = refl
serving-find (some t) h v = rw v.1 refl

abbrev holder : Option ℕ → ℕ
holder none = 0
holder (some h) = h

holder-injective :
    (t : LookupThread) (i j : ℕ) (o p : Option ℕ)
    → IsConsistent t
    → Map.find i t.id_map ≡ o
    → Map.find j t.id_map ≡ p
    → o ≢ none
    → p ≢ none
    → holder o ≡ holder p
    → i ≡ j
holder-injective t i j none p v e f d d' same = absurd (d refl)
holder-injective t i j (some h) none v e f d d' same = absurd (d' refl)
holder-injective t i j (some h) (some k) v e f d d' same =
    let (r, found, has_i) = v.id_used i h e in
    let (s, found', has_j) = v.id_used j k f in ground (arith, found, found')

holder-busy :
    (t : LookupThread) (i : ℕ) (o : Option ℕ)
    → IsConsistent t
    → Map.find i t.id_map ≡ o
    → o ≢ none
    → name_of (Map.find (holder o) t.resolvers_map) ≢ none
holder-busy t i none v e d = absurd (d refl)
holder-busy t i (some h) v e d =
    let (r, found, has_i) = v.id_used i h e in λ missing. ground (arith, found)

-- All ids in use are as many active lookups.
IsFull-lookups :
    (previous : List LookupThread) (o : Option LookupThread)
    → IsLive o
    → ((i : ℕ) → i < 65536 → Map.find i (serving o).id_map ≢ none)
    → IsFull (lookups (record { thread = o; previous = previous }))
unfolding Map.find
IsFull-lookups previous none v used = absurd (used 0 (omega arith) refl)
IsFull-lookups previous (some t) (v, runs) used =
    let served : serving (some t) ≡ t = simp runs refl in
    let used : (i : ℕ) → i < 65536 → Map.find i t.id_map ≢ none =
      subst (λ s. (i : ℕ) → i < 65536 → Map.find i s.id_map ≢ none) served used in
    record {
      resolver = λ i. holder (Map.find i t.id_map);
      busy = λ i h. holder-busy t i (Map.find i t.id_map) v refl (used i h);
      distinct = λ i j h k.
          holder-injective t i j (Map.find i t.id_map) (Map.find j t.id_map) v refl refl (used i h)
            (used j k);
    }

name_of-some : (o : Option Resolver) → o ≢ none → name_of o ≢ none
name_of-some none d = absurd (d refl)
name_of-some (some r) d = λ e. ground arith

resolve-Step :
    (g : Threads) (q : Request) (r : Result Threads)
    → IsLive g.thread
    → Outcome g.thread q r
    → Step (lookups g) (resolves q) (reply_of r) (lookups (after g r)) × IsLive (after g r).thread
unfolding resolver_of
resolve-Step g q (ok g') v (short, idle, id, u, there, a) =
    let found : (h : ℕ) → active g'.thread h ≡ Map.find h u.resolvers_map =
      λ h. ap (λ (o : Option LookupThread). active o h) there in
    (
      starts q (lookups g') short (ap name_of idle)
          (λ h. ground (arith, found h, a.requests h, serving-find g.thread h v)),
      subst IsLive (sym there) (a.consistent, a.runs),
    )
resolve-Step g q (throws too_long) v h = (is_long q (lookups g) h λ k. refl, v)
resolve-Step g q (throws in_progress) v h = (is_busy q (lookups g) (name_of-some _ h) λ k. refl, v)
resolve-Step g q (throws too_many_requests) v h =
    (is_full q (lookups g) (IsFull-lookups g.previous g.thread v h) λ k. refl, v)
resolve-Step g q null_dereference v h = (loses q (lookups g) h λ k. refl, v)

is_some-active : (o : Option Resolver) → is_some o ≡ is_active (name_of o)
is_some-active none = refl
is_some-active (some r) = refl

cancel-IsLive :
    (previous : List LookupThread) (o : Option LookupThread) (r : ℕ)
    → IsLive o
    → IsValid (cancel_on previous o r).0.thread
    → IsLive (cancel_on previous o r).0.thread
unfolding cancel_on
cancel-IsLive previous none r v w = tt
cancel-IsLive previous (some t) r v w = (w, (remove-flags t r).1 ∙ v.1)

cancel-Step :
    (g : Threads) (r : ℕ)
    → IsLive g.thread
    → Step (lookups g) (cancels r) (cancelled (cancel g r).1) (lookups (cancel g r).0)
      × IsLive (cancel g r).0.thread
unfolding cancel
cancel-Step g r v =
    let (w, done, left) = cancel_lem g r (IsLive-IsValid g.thread v) in
    (
      subst (λ b. Step (lookups g) (cancels r) (cancelled b) (lookups (cancel g r).0))
          (sym (done ∙ is_some-active (active g.thread r)))
          (stops r (lookups (cancel g r).0) λ h. ground (arith, left h)),
      cancel-IsLive g.previous g.thread r v w,
    )

call-Step :
    (g : Threads) (c : Call)
    → IsLive g.thread
    → Step (lookups g) c (reply g c) (lookups (call g c)) × IsLive (call g c).thread
unfolding call
call-Step g (resolves q) v =
    resolve-Step g q (resolve g q) v (resolve_lem g q (IsLive-IsValid g.thread v))
call-Step g (cancels r) v = cancel-Step g r v

-- Calls of `resolve` and `cancel`, in any order, from a consistent thread that is not exiting, or none:
-- their replies, and the lookups that are active after each, are as specified by the names of the active
-- lookups alone. A lookup is refused only for a long name, a busy resolver, or 65536 active lookups.
pub calls-Steps :
    (g : Threads) (cs : List Call)
    → IsLive g.thread
    → Steps (lookups g) cs (replies g cs) (lookups (calls g cs))
unfolding calls replies
calls-Steps g [] v = no_calls
calls-Steps g (c ∷ cs) v = let (s, w) = call-Step g c v in more s (calls-Steps (call g c) cs w)
