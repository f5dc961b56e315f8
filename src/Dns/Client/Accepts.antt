-- ===== src/Dns/Client/Accepts.antt =====
-- What a call of `resolve` does.
use setka.Prelude.{
  ℕ, ◌≡◌, ◌≢◌, ◌<◌, ◌≤◌, refl, inl, inr, Bool, true, false, not, ◌||◌, Option, none, some, List,
  ◌∷◌, arith, ltb, ltb→le, ltb→lt, if◌then◌else◌, Option-cases, Bool-cases, length,
}
use setka.Std.Map
use setka.Dns.Ids.{find_free_id}
use setka.Dns.Ids.Free.{find_free_id_lem}
use setka.Dns.Thread.{Resolver, LookupThread, new_thread}
use setka.Dns.Thread.Consistent.{IsConsistent, flags-IsConsistent}
use setka.Dns.Client.{
  Threads, too_long, in_progress, too_many_requests, Result, ok, throws, null_dereference, Request,
  resolver_of, add_resolver, start, place, register, choose, resolve,
}
use setka.Dns.Client.Adds.{
  with_request, find-after, add_resolver-IsConsistent, new_thread-IsConsistent,
}

-- The thread that serves a request: the one there is, unless it is exiting.
abbrev pub serving : Option LookupThread → LookupThread
serving none = new_thread
serving (some t) = if t.is_exiting then new_thread else t

-- The active request of a resolver.
abbrev pub active : Option LookupThread → ℕ → Option Resolver
active none h = none
active (some t) h = Map.find h t.resolvers_map

abbrev pub IsValid : Option LookupThread → Type 0
IsValid none = Unit {0}
IsValid (some t) = IsConsistent t

-- The request is active in a consistent thread that is not exiting, under an id that was free, due
-- to be sent, and all others are as they were.
pub record IsAccepted (q : Request) (t : LookupThread) (id : ℕ) (u : LookupThread) : Type 0 where
  pub consistent : IsConsistent u
  pub in_range : id < 65536
  pub id_was_free : Map.find id t.id_map ≡ none
  pub runs : u.is_exiting ≡ false
  pub requests :
      (h : ℕ)
      → Map.find h u.resolvers_map
        ≡ with_request q.resolver (resolver_of q id t) h (Map.find h t.resolvers_map)

abbrev pub Outcome : Option LookupThread → Request → Result Threads → Type 0
Outcome o q (ok g') =
    (length q.host_name ≤ 253)
    × (active o q.resolver ≡ none)
    × (id : ℕ) × (u : LookupThread) × (g'.thread ≡ some u)
    × IsAccepted q (serving o) id u
Outcome o q (throws too_long) = 253 < length q.host_name
Outcome o q (throws in_progress) = active o q.resolver ≢ none
Outcome o q (throws too_many_requests) = (i : ℕ) → i < 65536 → Map.find i (serving o).id_map ≢ none
Outcome o q null_dereference = q.starts ≡ false

module _ (q : Request) (previous : List LookupThread) (t : LookupThread) (v : IsConsistent t)
    (idle : Map.find q.resolver t.resolvers_map ≡ none) where
  abbrev Registered : Result Threads → Type 0
  Registered (ok g') = (id : ℕ) × (u : LookupThread) × (g'.thread ≡ some u) × IsAccepted q t id u
  Registered (throws e) =
      (e ≡ too_many_requests) × ((i : ℕ) → i < 65536 → Map.find i t.id_map ≢ none)
  Registered null_dereference = q.starts ≡ false

  module _ (id : ℕ) (fits : id < 65536) (free : Map.find id t.id_map ≡ none) where
    add-IsAccepted : t.is_exiting ≡ false → IsAccepted q t id (add_resolver t q id)
    add-IsAccepted runs = record {
      consistent = add_resolver-IsConsistent t q id v idle free fits;
      in_range = fits;
      id_was_free = free;
      runs = unfold add_resolver in runs;
      requests = find-after t q id v idle free fits;
    }

    start-IsAccepted : IsAccepted q t id (start q (add_resolver t q id))
    start-IsAccepted = record {
      consistent =
          flags-IsConsistent (add_resolver t q id) _ _ _ _
            (add_resolver-IsConsistent t q id v idle free fits);
      in_range = fits;
      id_was_free = free;
      runs = refl;
      requests = find-after t q id v idle free fits;
    }

    placed :
        (need_start : Bool)
        → need_start || not t.is_exiting ≡ true
        → Registered (place previous t need_start q id)
    unfolding place
    placed true runs = elim (Bool-cases q.starts) [
      | inl starts ↦ simp starts (id, start q (add_resolver t q id), refl, start-IsAccepted)
      | inr fails ↦ simp fails
    ]
    placed false runs = (id, add_resolver t q id, refl, add-IsAccepted (ground arith))

  register-Registered :
      (need_start : Bool)
      → need_start || not t.is_exiting ≡ true
      → Registered (register previous t need_start q)
  unfolding register
  register-Registered need_start runs = elim (Option-cases (find_free_id t.id_map)) [
    | inl full ↦
        rw (full, register) (refl, (find_free_id_lem t.id_map v.ids_sorted v.ids_within).1 full)
    | inr (id, e) ↦
        let (fits, free) = (find_free_id_lem t.id_map v.ids_sorted v.ids_within).0 id e in
        rw (e, register) (placed id fits free need_start runs)
  ]

module _ (o : Option LookupThread) (q : Request) (t : LookupThread) (serves : serving o ≡ t)
    (short : length q.host_name ≤ 253) (idle : active o q.resolver ≡ none) (v : IsConsistent t)
    (idle_there : Map.find q.resolver t.resolvers_map ≡ none) (previous : List LookupThread) where
  Registered-Outcome : (r : Result Threads) → Registered q previous t v idle_there r → Outcome o q r
  Registered-Outcome (ok g') (id, u, e, a) = (short, idle, id, u, e, rw serves a)
  Registered-Outcome (throws too_long) (e, h) = cc
  Registered-Outcome (throws in_progress) (e, h) = cc
  Registered-Outcome (throws too_many_requests) (e, h) = rw serves h
  Registered-Outcome null_dereference h = h

  register-Outcome :
      (need_start : Bool)
      → need_start || not t.is_exiting ≡ true
      → Outcome o q (register previous t need_start q)
  register-Outcome need_start runs =
      Registered-Outcome _ (register-Registered q previous t v idle_there need_start runs)

module _ (q : Request) (previous : List LookupThread) (short : length q.host_name ≤ 253) where
  choose-running :
      (t : LookupThread)
      → IsConsistent t
      → Map.find q.resolver t.resolvers_map ≡ none
      → Outcome (some t) q (
          if t.is_exiting
          then register (t ∷ previous) new_thread true q
          else register previous t false q)
  choose-running t v idle = elim (Bool-cases t.is_exiting) [
    | inl exits ↦ simp exits (
        register-Outcome (some t) q new_thread (simp exits) short idle new_thread-IsConsistent
          (unfold Map.find in refl) (t ∷ previous) true refl)
    | inr runs ↦
        simp runs (
          register-Outcome (some t) q t (simp runs) short idle v idle previous false (ground arith))
  ]

  choose-Outcome : (o : Option LookupThread) → IsValid o → Outcome o q (choose previous o q)
  unfolding choose
  choose-Outcome none v =
      register-Outcome none q new_thread refl short refl new_thread-IsConsistent
        (unfold Map.find in refl) previous true refl
  choose-Outcome (some t) v = elim (Option-cases (Map.find q.resolver t.resolvers_map)) [
    | inl idle ↦ rw (idle, choose) (choose-running t v idle)
    | inr (r, busy) ↦ rw (busy, choose) (λ e. cc)
  ]

-- Every way in which `resolve` can end, from a lookup thread that is consistent, or none. It is
-- accepted; or the name is too long; or the resolver has an active request; or all 65536 ids are in
-- use in the thread that would serve it; or a thread that had to be started did not start.
pub resolve_lem : (g : Threads) (q : Request) → IsValid g.thread → Outcome g.thread q (resolve g q)
unfolding resolve
resolve_lem g q v = elim (Bool-cases (ltb 253 (length q.host_name))) [
  | inl long ↦ rw long (ltb→lt 253 (length q.host_name) long)
  | inr short ↦
      rw short (choose-Outcome q g.previous (ltb→le 253 (length q.host_name) short) g.thread v)
]
