-- ===== src/Dns/Client/Between.antt =====
-- src/setka/dns_resolver.cpp, `dns_resolver::resolve` where the lookup thread goes on between the two times
-- that `resolve` holds its mutex: for the test of the thread, and to add the request.
use setka.Prelude.{
  subst, sym, ◌∙◌, ==_refl, ℕ, ◌≡◌, ◌≤◌, refl, true, false, Option, none, some, List, ◌∷◌, arith,
  tests, ltb, if◌then◌else◌, length,
}
use setka.Std.Map
use setka.Dns.Ids.{find_free_id}
use setka.Dns.Ids.Free.{find_free_id_lem}
use setka.Dns.Thread.{Resolver, LookupThread, new_thread}
use setka.Dns.Thread.Consistent.{IsConsistent}
use setka.Dns.Client.{
  Threads, too_long, in_progress, Result, ok, throws, Request, resolver_of, add_resolver, place,
  register, choose, resolve,
}
use setka.Dns.Client.Adds.{find-after, add_resolver-IsConsistent}

-- What the lookup thread does in between is a parameter.
module _ (between : LookupThread → LookupThread) where
  pub choose_between : List LookupThread → Option LookupThread → Request → Result Threads
  choose_between previous none q = register previous new_thread true q
  choose_between previous (some t) q = elim (Map.find q.resolver t.resolvers_map) [
    | some r ↦ throws in_progress
    | none ↦
        if t.is_exiting
        then register (between t ∷ previous) new_thread true q
        else register previous (between t) false q
  ]

  unfoldable pub resolve_between : Threads → Request → Result Threads
  unfolding choose_between
  resolve_between g q =
      if ltb 253 (length q.host_name) then throws too_long else choose_between g.previous g.thread q

-- The request is filed with a thread that has left its loop, in consistent tables, and no thread is started
-- for it.
abbrev pub IsLost : Threads → Request → Result Threads → Type 0
IsLost g q (ok g') =
    (u : LookupThread) × (g'.thread ≡ some u)
    × (g'.previous ≡ g.previous)
    × (u.is_exiting ≡ true)
    × IsConsistent u
    × ((r : Resolver) × (Map.find q.resolver u.resolvers_map ≡ some r))
IsLost g q _ = ⊥

-- Where the lookup thread does nothing in between, this is `resolve`.
resolve_between-same : (g : Threads) (q : Request) → resolve_between (λ t. t) g q ≡ resolve g q
unfolding resolve_between choose_between resolve choose
resolve_between-same g q = refl

module _ (between : LookupThread → LookupThread) (g : Threads) (q : Request) (t : LookupThread)
    (v : IsConsistent (between t)) (away : Map.find q.resolver (between t).resolvers_map ≡ none)
    (exits : (between t).is_exiting ≡ true) where
  register-IsLost :
      (id : ℕ)
      → find_free_id (between t).id_map ≡ some id
      → IsLost g q (register g.previous (between t) false q)
  unfolding register place
  register-IsLost id e =
      let (fits, free) = (find_free_id_lem (between t).id_map v.ids_sorted v.ids_within).0 id e in
      rw (e, register)
        (
          add_resolver (between t) q id,
          refl,
          refl,
          unfold add_resolver in exits,
          add_resolver-IsConsistent (between t) q id v away free fits,
          (
            resolver_of q id (between t),
            find-after (between t) q id v away free fits q.resolver
                ∙ ground (arith, ==_refl q.resolver),
          ),
        )

  choose-IsLost :
      (id : ℕ)
      → Map.find q.resolver t.resolvers_map ≡ none
      → t.is_exiting ≡ false
      → find_free_id (between t).id_map ≡ some id
      → IsLost g q (choose_between between g.previous (some t) q)
  unfolding choose_between
  choose-IsLost id idle runs e = rw (idle, choose_between) (simp runs (register-IsLost id e))

  -- When `resolve` has found a thread that is not exiting and has no request of this resolver, and that
  -- thread sets `isExiting` before `resolve` locks its mutex again, then `resolve` files its request with
  -- this thread, which leaves its loop, and starts no other; this for any consistent tables that the thread
  -- leaves behind, with a free id and no request of this resolver.
  pub resolve_between-IsLost :
      (id : ℕ)
      → g.thread ≡ some t
      → length q.host_name ≤ 253
      → Map.find q.resolver t.resolvers_map ≡ none
      → t.is_exiting ≡ false
      → find_free_id (between t).id_map ≡ some id
      → IsLost g q (resolve_between between g q)
  unfolding resolve_between
  resolve_between-IsLost id there short idle runs e =
      let fits : ltb 253 (length q.host_name) ≡ false = omega tests in
      rw fits (
        subst (λ o. IsLost g q (choose_between between g.previous o q)) (sym there)
          (choose-IsLost id idle runs e))
