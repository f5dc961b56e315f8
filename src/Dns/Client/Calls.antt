-- ===== src/Dns/Client/Calls.antt =====
-- Sequences of calls, in the order in which they get the mutex.
use setka.Prelude.{
  ℕ, ◌≡◌, refl, sym, subst, ◌∙◌, inl, inr, true, false, Option, none, some, List, [], ◌∷◌, arith,
  Option-cases, Bool-cases, length, ltb,
}
use setka.Std.Map
use setka.Dns.Ids.{find_free_id}
use setka.Dns.Thread.{Resolver, LookupThread}
use setka.Dns.Thread.Remove.{remove-flags, resolvers-remove_only}
use setka.Dns.Client.{
  Threads, Result, ok, throws, null_dereference, Request, add_resolver, place, register, choose,
  resolve, cancel_on, cancel,
}
use setka.Dns.Client.Accepts.{IsValid, Outcome, resolve_lem}
use setka.Dns.Client.Cancels.{cancel_lem}

pub data Call : Type 0 where
  resolves : Request → Call
  cancels : ℕ → Call

-- A call that throws leaves the threads as they were; one that fails with a null pointer ends the
-- program, so nothing follows it.
abbrev pub after : Threads → Result Threads → Threads
after g (ok g') = g'
after g (throws e) = g
after g null_dereference = g

unfoldable pub call : Threads → Call → Threads
call g (resolves q) = after g (resolve g q)
call g (cancels resolver) = (cancel g resolver).0

unfoldable pub calls : Threads → List Call → Threads
calls g [] = g
calls g (c ∷ cs) = calls (call g c) cs

abbrev pub no_threads : Threads
no_threads = record { thread = none; previous = [] }

after_resolve-IsValid :
    (g : Threads) (q : Request) (r : Result Threads)
    → IsValid g.thread
    → Outcome g.thread q r
    → IsValid (after g r).thread
after_resolve-IsValid g q (ok g') v (short, idle, id, u, there, a) =
    subst IsValid (sym there) a.consistent
after_resolve-IsValid g q (throws e) v h = v
after_resolve-IsValid g q null_dereference v h = v

pub call-IsValid : (g : Threads) (c : Call) → IsValid g.thread → IsValid (call g c).thread
unfolding call
call-IsValid g (resolves q) v = after_resolve-IsValid g q (resolve g q) v (resolve_lem g q v)
call-IsValid g (cancels resolver) v = (cancel_lem g resolver v).0

-- Whatever calls are made, in whatever order, the maps of the lookup thread stay consistent.
pub calls-IsValid : (g : Threads) (cs : List Call) → IsValid g.thread → IsValid (calls g cs).thread
unfolding calls
calls-IsValid g [] v = v
calls-IsValid g (c ∷ cs) v = calls-IsValid (call g c) cs (call-IsValid g c v)

-- The thread is to leave its loop at the next test, and `resolve` does not take it for exiting.
abbrev pub IsQuitting : Option LookupThread → Type 0
IsQuitting none = ⊥
IsQuitting (some t) = (t.quit_flag ≡ true) × (t.is_exiting ≡ false)

-- What `resolve` and `cancel` keep of a quitting thread: it stays the one in use.
abbrev pub StaysQuitting : Threads → Threads → Type 0
StaysQuitting g g' = IsQuitting g'.thread × (g'.previous ≡ g.previous)

register-quitting :
    (previous : List LookupThread) (t : LookupThread) (q : Request)
    → t.quit_flag ≡ true
    → t.is_exiting ≡ false
    → StaysQuitting
        (record { thread = some t; previous = previous })
        (after (record { thread = some t; previous = previous }) (register previous t false q))
unfolding register
register-quitting previous t q quits runs = elim (Option-cases (find_free_id t.id_map)) [
  | inl full ↦ rw (full, register) ((quits, runs), refl)
  | inr (id, e) ↦ rw (e, register) (unfold place add_resolver in ((quits, runs), refl))
]

choose-quitting :
    (previous : List LookupThread) (t : LookupThread) (q : Request)
    → t.quit_flag ≡ true
    → t.is_exiting ≡ false
    → StaysQuitting
        (record { thread = some t; previous = previous })
        (after (record { thread = some t; previous = previous }) (choose previous (some t) q))
unfolding choose
choose-quitting previous t q quits runs =
    elim (Option-cases (Map.find q.resolver t.resolvers_map)) [
      | inl idle ↦ rw (idle, choose) (simp runs (register-quitting previous t q quits runs))
      | inr (r, busy) ↦ rw (busy, choose) ((quits, runs), refl)
    ]

resolve-quitting :
    (previous : List LookupThread) (t : LookupThread) (q : Request)
    → t.quit_flag ≡ true
    → t.is_exiting ≡ false
    → StaysQuitting
        (record { thread = some t; previous = previous })
        (call (record { thread = some t; previous = previous }) (resolves q))
unfolding call resolve
resolve-quitting previous t q quits runs = elim (Bool-cases (ltb 253 (length q.host_name))) [
  | inl long ↦ rw long ((quits, runs), refl)
  | inr short ↦ rw short (choose-quitting previous t q quits runs)
]

cancel-quitting :
    (previous : List LookupThread) (t : LookupThread) (resolver : ℕ)
    → t.quit_flag ≡ true
    → t.is_exiting ≡ false
    → StaysQuitting
        (record { thread = some t; previous = previous })
        (call (record { thread = some t; previous = previous }) (cancels resolver))
unfolding call cancel
cancel-quitting previous t resolver quits runs = ground (arith, remove-flags t resolver)

call-quitting :
    (previous : List LookupThread) (o : Option LookupThread) (c : Call)
    → IsQuitting o
    → StaysQuitting
        (record { thread = o; previous = previous })
        (call (record { thread = o; previous = previous }) c)
call-quitting previous none c h = absurd h
call-quitting previous (some t) (resolves q) h = resolve-quitting previous t q h.0 h.1
call-quitting previous (some t) (cancels k) h = cancel-quitting previous t k h.0 h.1

calls-quitting : (g : Threads) (cs : List Call) → IsQuitting g.thread → StaysQuitting g (calls g cs)
unfolding calls
calls-quitting g [] h = (h, refl)
calls-quitting g (c ∷ cs) h =
    let here = call-quitting g.previous g.thread c h in
    let later = calls-quitting (call g c) cs here.0 in (later.0, later.1 ∙ here.1)

cancel-quits :
    (previous : List LookupThread) (t : LookupThread) (h : ℕ) (r : Resolver)
    → t.resolvers_map ≡ (h, r) ∷ []
    → t.is_exiting ≡ false
    → IsQuitting ((cancel_on previous (some t) h).0.thread)
unfolding cancel_on
cancel-quits previous t h r only runs =
    ground (arith, remove-flags t h, resolvers-remove_only t h r only)

-- Where `cancel` removes the only request of a thread that is not exiting, the thread is told to quit
-- but does not count as exiting. Until it sets `isExiting` itself, no further call of `resolve` starts
-- another thread: what it accepts is filed with the thread that is about to leave its loop.
pub calls-last_cancel :
    (previous : List LookupThread) (t : LookupThread) (h : ℕ) (r : Resolver) (cs : List Call)
    → t.resolvers_map ≡ (h, r) ∷ []
    → t.is_exiting ≡ false
    → let g : Threads = record { thread = some t; previous = previous } in
      StaysQuitting g (calls (call g (cancels h)) cs)
unfolding call cancel
calls-last_cancel previous t h r cs only runs =
    calls-quitting _ cs (cancel-quits previous t h r only runs)
