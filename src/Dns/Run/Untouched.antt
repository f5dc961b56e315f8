-- ===== src/Dns/Run/Untouched.antt =====
-- src/setka/dns_resolver.cpp, `resolve` and `cancel`: the requests of the resolvers that calls do not name.
use setka.Prelude.{
  ℕ, ◌≡◌, refl, subst, ◌∙◌, inl, inr, Bool, true, false, Option, none, some, List, [], ◌∷◌, All,
  arith, ◌==◌, Option-cases, Bool-cases, length, ltb,
}
use setka.Std.Map
use setka.Std.Map.Laws.{find-insert}
use setka.Dns.Ids.{find_free_id}
use setka.Dns.Thread.{Resolver, LookupThread, new_thread}
use setka.Dns.Thread.Consistent.{IsConsistent}
use setka.Dns.Thread.Remove.{remove_resolver_lem}
use setka.Dns.Client.{
  Threads, Request, resolver_of, add_resolver, place, register, choose, resolve, cancel_on, cancel,
}
use setka.Dns.Client.Accepts.{IsValid}
use setka.Dns.Client.Calls.{Call, resolves, cancels, after, call, calls, call-IsValid}
use setka.Dns.Run.WithCalls.{oldest, oldest_of, calls_on}

abbrev pub names : ℕ → Call → Bool
names h (resolves q) = h == q.resolver
names h (cancels k) = h == k

-- The request of a resolver in the thread that has been there longest
abbrev Has : ℕ → Option Resolver → Option LookupThread → List LookupThread → Type 0
Has h o none previous = ⊥
Has h o (some t) previous = Map.find h (oldest t previous).resolvers_map ≡ o

abbrev HasIn : ℕ → Option Resolver → Threads → Type 0
HasIn h o g = Has h o g.thread g.previous

find-add_resolver :
    (t : LookupThread) (q : Request) (id h : ℕ)
    → IsConsistent t
    → Map.find q.resolver t.resolvers_map ≡ none
    → h == q.resolver ≡ false
    → Map.find h (add_resolver t q id).resolvers_map ≡ Map.find h t.resolvers_map
unfolding add_resolver
find-add_resolver t q id h v idle other =
    ground (arith, find-insert h q.resolver (resolver_of q id t) t.resolvers_map v.resolvers_sorted)

module _ (h : ℕ) (o : Option Resolver) (g : Threads) (old : HasIn h o g) (q : Request)
    (other : h == q.resolver ≡ false) where
  added :
      (t : LookupThread) (previous : List LookupThread) (id : ℕ)
      → IsConsistent t
      → Map.find q.resolver t.resolvers_map ≡ none
      → Has h o (some t) previous
      → Has h o (some (add_resolver t q id)) previous
  added t [] id v idle e = find-add_resolver t q id h v idle other ∙ e
  added t (p ∷ ps) id v idle e = e

  Has-running :
      (t : LookupThread) (previous : List LookupThread)
      → IsConsistent t
      → Map.find q.resolver t.resolvers_map ≡ none
      → Has h o (some t) previous
      → HasIn h o (after g (register previous t false q))
  unfolding register place
  Has-running t previous v idle e = elim (Option-cases (find_free_id t.id_map)) [
    | inl full ↦ rw (full, register) old
    | inr (id, found) ↦ rw (found, register) (added t previous id v idle e)
  ]

  Has-exiting :
      (t : LookupThread) (previous : List LookupThread)
      → Has h o (some t) previous
      → HasIn h o (after g (register (t ∷ previous) new_thread true q))
  unfolding register place
  Has-exiting t previous e = elim (Option-cases (find_free_id new_thread.id_map)) [
    | inl full ↦ rw (full, register) old
    | inr (id, found) ↦
        rw (found, register)
          (elim (Bool-cases q.starts) [ inl starts ↦ rw starts e | inr fails ↦ rw fails old ])
  ]

  Has-choose :
      (c : Option LookupThread) (previous : List LookupThread)
      → IsValid c
      → Has h o c previous
      → HasIn h o (after g (choose previous c q))
  unfolding choose
  Has-choose none previous v e = absurd e
  Has-choose (some t) previous v e = elim (Option-cases (Map.find q.resolver t.resolvers_map)) [
    | inr (r, busy) ↦ rw (busy, choose) old
    | inl idle ↦
        rw (idle, choose)
          (elim (Bool-cases t.is_exiting) [
            | inl exits ↦ simp exits (Has-exiting t previous e)
            | inr runs ↦ simp runs (Has-running t previous v idle e)
          ])
  ]

Has-cancel :
    (h k : ℕ) (o : Option Resolver) (c : Option LookupThread) (previous : List LookupThread)
    → IsValid c
    → h == k ≡ false
    → Has h o c previous
    → HasIn h o (cancel_on previous c k).0
unfolding cancel_on
Has-cancel h k o none previous v other e = absurd e
Has-cancel h k o (some t) [] v other e = ground (arith, (remove_resolver_lem t k v).2 h)
Has-cancel h k o (some t) (p ∷ ps) v other e = e

Has-call :
    (h : ℕ) (o : Option Resolver) (g : Threads) (c : Call)
    → IsValid g.thread
    → names h c ≡ false
    → HasIn h o g
    → HasIn h o (call g c)
unfolding call resolve cancel
Has-call h o g (resolves q) v other e = elim (Bool-cases (ltb 253 (length q.host_name))) [
  | inl long ↦ rw long e
  | inr short ↦ rw short (Has-choose h o g e q other g.thread g.previous v e)
]
Has-call h o g (cancels k) v other e = Has-cancel h k o g.thread g.previous v other e

Has-calls :
    (h : ℕ) (o : Option Resolver) (g : Threads) (cs : List Call)
    → IsValid g.thread
    → All (λ c. names h c ≡ false) cs
    → HasIn h o g
    → HasIn h o (calls g cs)
unfolding calls
Has-calls h o g [] v others e = e
Has-calls h o g (c ∷ cs) v (other, others) e =
    Has-calls h o (call g c) cs (call-IsValid g c v) others (Has-call h o g c v other e)

oldest-Has :
    (h : ℕ) (o : Option Resolver) (t : LookupThread) (g : Threads)
    → HasIn h o g
    → Map.find h (oldest_of t g).resolvers_map ≡ o
oldest-Has h o t g e = elim (Option-cases g.thread) [
  | inl none_there ↦ absurd (subst (λ c. Has h o c g.previous) none_there e)
  | inr (u, there) ↦ rw there (subst (λ c. Has h o c g.previous) there e)
]

-- What calls make of a thread that was in use, for a resolver that none of them names
pub find-calls_on :
    (h : ℕ) (t : LookupThread) (cs : List Call)
    → IsConsistent t
    → All (λ c. names h c ≡ false) cs
    → Map.find h (calls_on cs t).resolvers_map ≡ Map.find h t.resolvers_map
find-calls_on h t cs v others =
    let g : Threads = record { thread = some t; previous = [] } in
    oldest-Has h (Map.find h t.resolvers_map) t (calls g cs)
      (Has-calls h (Map.find h t.resolvers_map) g cs v others refl)
