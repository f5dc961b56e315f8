-- ===== src/Dns/Tests/Calls.antt =====
-- Calls: requests of two resolvers.
use setka.Prelude.{arith, ℕ, ◌≡◌, refl, true, none, some, [], ◌∷◌}
use setka.Address.{of_v4}
use setka.Std.Map
use setka.Dns.Thread.{LookupThread, new_thread, remove_resolver}
use setka.Dns.Thread.Consistent.{IsConsistent}
use setka.Dns.Thread.Remove.{without, remove_resolver_lem}
use setka.Dns.Ids.{find_free_id}
use setka.Dns.Client.{
  place, register, choose, Threads, ok, Request, resolver_of, add_resolver, start, resolve, cancel,
}
use setka.Dns.Client.Accepts.{active, IsValid, serving, Outcome, resolve_lem}
use setka.Dns.Client.Adds.{new_thread-IsConsistent}
use setka.Dns.Client.Between.{resolve_between, IsLost, resolve_between-IsLost}
use setka.Dns.Client.Cancels.{cancel-resolve}
use setka.Dns.Client.Lookups.{lookups, Steps, replies}
use setka.Dns.Client.Lookups.Refines.{calls-Steps}
use setka.Dns.Client.Calls.{
  resolves, cancels, call, calls, no_threads, StaysQuitting, calls-IsValid, calls-last_cancel,
}

abbrev pub request : ℕ → Request
request h = record {
  resolver = h;
  host_name = b'y' ∷ b'a' ∷ b'.' ∷ b'r' ∷ b'u' ∷ [];
  timeout_millis = 20000;
  dns_ip = record { host = of_v4 0x08080808; port = 53 };
  cur_time = 100;
  starts = true;
}

-- The thread after its first request.
abbrev busy_thread : LookupThread
busy_thread = start (request 7) (add_resolver new_thread (request 7) 0)

abbrev busy : Threads
busy = record { thread = some busy_thread; previous = [] }

busy_thread-IsConsistent : IsConsistent busy_thread
unfolding call calls resolve choose register find_free_id place add_resolver Map.insert
busy_thread-IsConsistent = calls-IsValid no_threads (resolves (request 7) ∷ []) tt

resolve_lem_example : Outcome (some busy_thread) (request 8) (resolve busy (request 8))
resolve_lem_example = resolve_lem busy (request 8) busy_thread-IsConsistent

resolved : resolve no_threads (request 7) ≡ ok busy
unfolding resolve choose register find_free_id place
resolved = refl

cancel-resolve_example :
    let (g'', done) = cancel busy 7 in
    (done ≡ true) × ((h : ℕ) → active g''.thread h ≡ Map.find h (serving none).resolvers_map)
cancel-resolve_example = cancel-resolve no_threads busy (request 7) tt resolved

remove_resolver_lem_example :
    let (u, removed) = remove_resolver busy_thread 7 in
    IsConsistent u
    × (removed ≡ Map.find 7 busy_thread.resolvers_map)
    × ((h : ℕ) → Map.find h u.resolvers_map ≡ without 7 h (Map.find h busy_thread.resolvers_map))
remove_resolver_lem_example = remove_resolver_lem busy_thread 7 busy_thread-IsConsistent

calls-IsValid_example :
    IsValid (calls no_threads (resolves (request 7) ∷ cancels 7 ∷ resolves (request 8) ∷ [])).thread
calls-IsValid_example =
    calls-IsValid no_threads (resolves (request 7) ∷ cancels 7 ∷ resolves (request 8) ∷ []) tt

calls-last_cancel_example :
    StaysQuitting busy (calls (call busy (cancels 7)) (resolves (request 8) ∷ []))
unfolding add_resolver Map.insert
calls-last_cancel_example =
    calls-last_cancel [] busy_thread 7 (resolver_of (request 7) 0 new_thread)
      (resolves (request 8) ∷ []) refl refl

calls-Steps_example :
    let cs = resolves (request 7) ∷ resolves (request 7) ∷ cancels 7 ∷ cancels 7 ∷ [] in
    Steps (lookups no_threads) cs (replies no_threads cs) (lookups (calls no_threads cs))
calls-Steps_example =
    calls-Steps no_threads
      (resolves (request 7) ∷ resolves (request 7) ∷ cancels 7 ∷ cancels 7 ∷ []) tt

-- In between the thread removes all its requests, and exits.
resolve_between-IsLost_example :
    IsLost busy (request 8) (resolve_between (λ t. new_thread) busy (request 8))
unfolding find_free_id add_resolver Map.insert Map.find
resolve_between-IsLost_example =
    resolve_between-IsLost (λ t. new_thread) busy (request 8) busy_thread new_thread-IsConsistent
      refl refl 0 refl (omega arith) refl refl refl
