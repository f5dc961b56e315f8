-- ===== src/Dns/Client/Adds.antt =====
-- What adding a request does to the maps of a thread.
use setka.Prelude.{
  ℕ, ◌≡◌, ◌<◌, refl, inl, inr, Option, none, some, arith, ◌==◌, if◌then◌else◌, Bool-cases,
}
use setka.Std.Map
use setka.Std.Map.Laws.{find-insert, insert-IsSorted}
use setka.Std.Multimap
use setka.Std.Multimap.Laws.{count-insert, insert-From}
use setka.Std.Sequence
use setka.Std.Sequence.Laws.{count-push_back}
use setka.Dns.Ids.Free.{insert-Within}
use setka.Dns.Thread.{TimeMap, Resolver, LookupThread, entries, new_thread}
use setka.Dns.Thread.Consistent.{IsConsistent, queued, timed}
use setka.Dns.Client.{Request, end_time, time_map_of, resolver_of, add_resolver}

-- What is found after a request was added.
abbrev pub with_request : ℕ → Resolver → ℕ → Option Resolver → Option Resolver
with_request resolver r h o = if h == resolver then some r else o

module _ (t : LookupThread) (q : Request) (id : ℕ) (v : IsConsistent t)
    (idle : Map.find q.resolver t.resolvers_map ≡ none) (free : Map.find id t.id_map ≡ none)
    (fits : id < 65536) where
  abbrev after : LookupThread
  after = add_resolver t q id

  abbrev added : Resolver
  added = resolver_of q id t

  pub find-after :
      (h : ℕ)
      → Map.find h after.resolvers_map
        ≡ with_request q.resolver added h (Map.find h t.resolvers_map)
  unfolding add_resolver
  find-after h = find-insert h q.resolver added t.resolvers_map v.resolvers_sorted idle

  find_id-after :
      (i : ℕ) → Map.find i after.id_map ≡ (if i == id then some q.resolver else Map.find i t.id_map)
  unfolding add_resolver
  find_id-after i = find-insert i id q.resolver t.id_map v.ids_sorted free

  sends-after : (h : ℕ) → Sequence.count h after.send_list ≡ queued (Map.find h after.resolvers_map)
  unfolding add_resolver
  sends-after h =
      ground (
        arith,
        find-after h,
        count-push_back h q.resolver t.send_list,
        v.sends h,
        v.sends q.resolver,
      )

  times-after :
      (side : TimeMap) (k h : ℕ)
      → Multimap.count k h (entries side after) ≡ timed side k (Map.find h after.resolvers_map)
  unfolding add_resolver
  times-after side k h = ground (
    arith,
    find-after h,
    count-insert k h (end_time q) q.resolver (entries (time_map_of q t) t),
    v.times side k h,
    v.times side k q.resolver,
  )

  id_used-after :
      (i h : ℕ)
      → Map.find i after.id_map ≡ some h
      → (s : Resolver) × (Map.find h after.resolvers_map ≡ some s) × (s.id ≡ i)
  unfolding resolver_of
  id_used-after i h e = elim (Bool-cases (i == id)) [
    | inl same ↦ (added, ground (arith, find-after h, find_id-after i), ground arith)
    | inr other ↦
        let kept : Map.find i t.id_map ≡ some h = ground (arith, find_id-after i) in
        let (s, leads, has) = v.id_used i h kept in (s, ground (arith, find-after h), has)
  ]

  pub add_resolver-IsConsistent : IsConsistent after
  unfolding add_resolver
  add_resolver-IsConsistent = record {
    resolvers_sorted = insert-IsSorted q.resolver added t.resolvers_map v.resolvers_sorted;
    ids_sorted = insert-IsSorted id q.resolver t.id_map v.ids_sorted;
    ids_within = insert-Within id q.resolver t.id_map fits v.ids_within;
    times1_sorted = ground (arith, insert-From 0 (end_time q) q.resolver t.resolvers_by_time1);
    times2_sorted = ground (arith, insert-From 0 (end_time q) q.resolver t.resolvers_by_time2);
    owner = λ h s e. ground (arith, find-after h, v.owner h s);
    has_id = λ h s e. ground (arith, find-after h, find_id-after s.id, v.has_id h s);
    id_used = id_used-after;
    sends = sends-after;
    times = times-after;
  }

pub new_thread-IsConsistent : IsConsistent new_thread
unfolding Map.find Sequence.count Multimap.count
new_thread-IsConsistent = record {
  resolvers_sorted = tt;
  ids_sorted = tt;
  ids_within = tt;
  times1_sorted = tt;
  times2_sorted = tt;
  owner = λ h s e. ground arith;
  has_id = λ h s e. ground arith;
  id_used = λ i h e. absurd (ground arith);
  sends = λ h. refl;
  times = λ side k h. ground arith;
}
