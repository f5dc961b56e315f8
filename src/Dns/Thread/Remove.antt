-- ===== src/Dns/Thread/Remove.antt =====
-- `RemoveResolver` keeps the maps consistent.
use setka.Prelude.{
  ℕ, suc, ◌≤◌, length, ◌≡◌, ◌≢◌, refl, inl, inr, Option, true, none, some, [], ◌∷◌, arith, ◌==◌,
  if◌then◌else◌, Option-cases,
}
use setka.Std.Map
use setka.Std.Map.Laws.{find-erase, erase-IsSorted, length-erase}
use setka.Std.Multimap
use setka.Std.Multimap.{Multimap}
use setka.Std.Multimap.Laws.{count-erase as count-erase_entry, erase-From}
use setka.Std.Sequence
use setka.Std.Sequence.Laws.{count-erase}
use setka.Dns.Ids.Free.{erase-Within}
use setka.Dns.Thread.{TimeMap, Resolver, LookupThread, entries, erase_resolver, remove_resolver}
use setka.Dns.Thread.Consistent.{IsConsistent, same_map, queued, timed}

-- What is found after the removal of one request.
abbrev pub without : ℕ → ℕ → Option Resolver → Option Resolver
without resolver h o = if h == resolver then none else o

module _ (t : LookupThread) (resolver : ℕ) (r : Resolver) (v : IsConsistent t)
    (found : Map.find resolver t.resolvers_map ≡ some r) where
  abbrev after : LookupThread
  after = erase_resolver t resolver r

  find-after :
      (h : ℕ) → Map.find h after.resolvers_map ≡ without resolver h (Map.find h t.resolvers_map)
  unfolding erase_resolver
  find-after h = find-erase h resolver t.resolvers_map v.resolvers_sorted

  find_id-after :
      (i : ℕ) → Map.find i after.id_map ≡ (if i == r.id then none else Map.find i t.id_map)
  unfolding erase_resolver
  find_id-after i = find-erase i r.id t.id_map v.ids_sorted

  -- No other request has the id of the one that is removed.
  other_id :
      (h : ℕ) (s : Resolver) → h ≢ resolver → Map.find h t.resolvers_map ≡ some s → s.id ≢ r.id
  other_id h s differ e same = ground (arith, v.has_id h s e, v.has_id resolver r found)

  sends-after : (h : ℕ) → Sequence.count h after.send_list ≡ queued (Map.find h after.resolvers_map)
  unfolding erase_resolver
  sends-after h =
      ground (arith, find-after h, count-erase h resolver t.send_list, v.sends h, v.sends resolver)

  times-after :
      (side : TimeMap) (k h : ℕ)
      → Multimap.count k h (entries side after) ≡ timed side k (Map.find h after.resolvers_map)
  unfolding erase_resolver
  times-after side k h = ground (
    arith,
    find-after h,
    count-erase_entry k h r.time_key resolver (entries r.time_map t),
    v.times side k h,
    v.times r.time_map r.time_key resolver,
  )

  id_used-after :
      (i h : ℕ)
      → Map.find i after.id_map ≡ some h
      → (s : Resolver) × (Map.find h after.resolvers_map ≡ some s) × (s.id ≡ i)
  id_used-after i h e =
      let kept : Map.find i t.id_map ≡ some h = ground (arith, find_id-after i) in
      let (s, leads, same) = v.id_used i h kept in
      (s, ground (arith, find-after h, find_id-after i), same)

  pub erase_resolver-IsConsistent : IsConsistent after
  unfolding erase_resolver
  erase_resolver-IsConsistent = record {
    resolvers_sorted = erase-IsSorted resolver t.resolvers_map v.resolvers_sorted;
    ids_sorted = erase-IsSorted r.id t.id_map v.ids_sorted;
    ids_within = erase-Within r.id t.id_map v.ids_within;
    times1_sorted = ground (arith, erase-From 0 r.time_key resolver t.resolvers_by_time1);
    times2_sorted = ground (arith, erase-From 0 r.time_key resolver t.resolvers_by_time2);
    owner = λ h s e. v.owner h s (ground (arith, find-after h));
    has_id = λ h s e. ground (arith, find-after h, find_id-after s.id, v.has_id h s, other_id h s);
    id_used = id_used-after;
    sends = sends-after;
    times = times-after;
  }

-- In a consistent thread, `RemoveResolver` returns the request of that resolver, if there is one; then
-- this request is found no more, all others are found as before, and the maps stay consistent: the
-- request is gone from the send list, the ids and the time maps too.
pub remove_resolver_lem :
    (t : LookupThread) (resolver : ℕ)
    → IsConsistent t
    → let (u, removed) = remove_resolver t resolver in
      IsConsistent u
      × (removed ≡ Map.find resolver t.resolvers_map)
      × ((h : ℕ) → Map.find h u.resolvers_map ≡ without resolver h (Map.find h t.resolvers_map))
unfolding remove_resolver
remove_resolver_lem t resolver v = elim (Option-cases (Map.find resolver t.resolvers_map)) [
  | inl missing ↦ rw (missing, remove_resolver) (v, refl, λ h. ground arith)
  | inr (r, found) ↦
      rw (found, remove_resolver)
        (erase_resolver-IsConsistent t resolver r v found, refl, find-after t resolver r v found)
]

pub remove-flags :
    (t : LookupThread) (resolver : ℕ)
    → let u = (remove_resolver t resolver).0 in
      (u.quit_flag ≡ t.quit_flag) × (u.is_exiting ≡ t.is_exiting) × (u.time_map1 ≡ t.time_map1)
unfolding remove_resolver erase_resolver
remove-flags t resolver = ground arith

pub resolvers-remove_only :
    (t : LookupThread) (resolver : ℕ) (r : Resolver)
    → t.resolvers_map ≡ (resolver, r) ∷ []
    → (remove_resolver t resolver).0.resolvers_map ≡ []
unfolding remove_resolver erase_resolver Map.find Map.erase
resolvers-remove_only t resolver r only = ground arith

pub length-remove_resolver :
    (t : LookupThread) (resolver n : ℕ) (r : Resolver)
    → Map.find resolver t.resolvers_map ≡ some r
    → length t.resolvers_map ≤ suc n
    → length (remove_resolver t resolver).0.resolvers_map ≤ n
unfolding remove_resolver erase_resolver
length-remove_resolver t resolver n r found few =
    rw (found, remove_resolver) (length-erase resolver n r t.resolvers_map found few)

pub resolvers-remove_first :
    (t : LookupThread) (resolver : ℕ) (r : Resolver) (m : Map.Map Resolver)
    → t.resolvers_map ≡ (resolver, r) ∷ m
    → (remove_resolver t resolver).0.resolvers_map ≡ m
unfolding remove_resolver erase_resolver Map.find Map.erase
resolvers-remove_first t resolver r m first = ground arith

pub entries-remove :
    (t : LookupThread) (side : TimeMap) (key h : ℕ) (m : Multimap) (r : Resolver)
    → entries side t ≡ (key, h) ∷ m
    → Map.find h t.resolvers_map ≡ some r
    → same_map side r.time_map ≡ true
    → r.time_key ≡ key
    → entries side (remove_resolver t h).0 ≡ m
unfolding remove_resolver erase_resolver Multimap.erase
entries-remove t side key h m r e found same at = ground arith
