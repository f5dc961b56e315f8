-- ===== src/Dns/Client/Cancels.antt =====
-- What a call of `cancel` does, and that it undoes `resolve`.
use setka.Prelude.{ℕ, ◌≡◌, refl, sym, ap, subst, Bool, true, false, Option, none, some, List, arith}
use setka.Std.Map
use setka.Dns.Thread.{Resolver, LookupThread, remove_resolver}
use setka.Dns.Thread.Consistent.{flags-IsConsistent}
use setka.Dns.Thread.Remove.{without, remove_resolver_lem}
use setka.Dns.Client.{
  Threads, Result, ok, throws, null_dereference, Request, resolve, cancel_on, cancel,
}
use setka.Dns.Client.Accepts.{active, IsValid, serving, IsAccepted, Outcome, resolve_lem}

abbrev pub is_some : Option Resolver → Bool
is_some none = false
is_some (some r) = true

cancel_on_lem :
    (previous : List LookupThread) (o : Option LookupThread) (resolver : ℕ)
    → IsValid o
    → let (g', done) = cancel_on previous o resolver in
      IsValid g'.thread
      × (done ≡ is_some (active o resolver))
      × ((h : ℕ) → active g'.thread h ≡ without resolver h (active o h))
unfolding cancel_on
cancel_on_lem previous none resolver v = (tt, refl, λ h. ground arith)
cancel_on_lem previous (some t) resolver v =
    let (u, removed) = remove_resolver t resolver in
    let (consistent, returned, left) = remove_resolver_lem t resolver v in
    (flags-IsConsistent u _ _ _ _ consistent, rw (returned, cancel_on), left)

-- `cancel` returns whether the resolver had an active request; then it has none, the other requests
-- are as they were, and the maps are consistent.
pub cancel_lem :
    (g : Threads) (resolver : ℕ)
    → IsValid g.thread
    → let (g', done) = cancel g resolver in
      IsValid g'.thread
      × (done ≡ is_some (active g.thread resolver))
      × ((h : ℕ) → active g'.thread h ≡ without resolver h (active g.thread h))
unfolding cancel
cancel_lem g resolver v = cancel_on_lem g.previous g.thread resolver v

pub outcome_ok :
    (o : Option LookupThread) (q : Request) (r : Result Threads) (g' : Threads)
    → r ≡ ok g'
    → Outcome o q r
    → (active o q.resolver ≡ none)
      × (id : ℕ) × (u : LookupThread) × (g'.thread ≡ some u)
      × IsAccepted q (serving o) id u
outcome_ok o q (ok g) g' e (short, idle, id, u, there, a) = (idle, id, u, ground arith, a)
outcome_ok o q (throws x) g' e h = absurd (ground arith)
outcome_ok o q null_dereference g' e h = absurd (ground arith)

idle-serving :
    (o : Option LookupThread) (h : ℕ)
    → active o h ≡ none
    → Map.find h (serving o).resolvers_map ≡ none
unfolding Map.find
idle-serving none h e = refl
idle-serving (some t) h e = ground arith

-- A request that `resolve` accepted is active until it is cancelled: `cancel` then says that there was
-- one, and leaves the requests that the thread had before.
pub cancel-resolve :
    (g g' : Threads) (q : Request)
    → IsValid g.thread
    → resolve g q ≡ ok g'
    → let (g'', done) = cancel g' q.resolver in
      (done ≡ true) × ((h : ℕ) → active g''.thread h ≡ Map.find h (serving g.thread).resolvers_map)
cancel-resolve g g' q v e =
    let (idle, id, u, there, a) = outcome_ok g.thread q (resolve g q) g' e (resolve_lem g q v) in
    let valid : IsValid g'.thread = subst IsValid (sym there) a.consistent in
    let (_, done, left) = cancel_lem g' q.resolver valid in
    let found : (h : ℕ) → active g'.thread h ≡ Map.find h u.resolvers_map =
      λ h. ap (λ (o : Option LookupThread). active o h) there in
    (
      ground (arith, done, found q.resolver, a.requests q.resolver),
      λ h. ground (arith, left h, found h, a.requests h, idle-serving g.thread q.resolver idle),
    )
