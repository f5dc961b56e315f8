-- ===== src/Dns/Run/Changes.antt =====
-- Requests that are changed in place, as the rounds of the loop do.
use setka.Prelude.{ℕ, ◌≡◌, inl, inr, some, List, arith, ◌==◌, if◌then◌else◌, Bool-cases}
use setka.Std.Map
use setka.Std.Map.Laws.{find-insert, insert-IsSorted, find-erase, erase-IsSorted}
use setka.Std.Multimap
use setka.Std.Sequence
use setka.Dns.Thread.{TimeMap, by_time1, by_time2, Resolver, LookupThread, entries}
use setka.Dns.Thread.Consistent.{IsConsistent, queued, timed}
use setka.Dns.Run.{set_resolver}

module _ (t : LookupThread) (r0 r : Resolver) (v : IsConsistent t)
    (found : Map.find r.hnr t.resolvers_map ≡ some r0) (same_id : r.id ≡ r0.id)
    (same_map : r.time_map ≡ r0.time_map) (same_key : r.time_key ≡ r0.time_key) where
  pub find-set_resolver :
      (h : ℕ)
      → Map.find h (set_resolver r t).resolvers_map
        ≡ (if h == r.hnr then some r else Map.find h t.resolvers_map)
  find-set_resolver h =
      let m = t.resolvers_map in
      let gone = find-erase r.hnr r.hnr m v.resolvers_sorted in
      ground (
        arith,
        find-insert h r.hnr r (Map.erase r.hnr m) (erase-IsSorted r.hnr m v.resolvers_sorted),
        find-erase h r.hnr m v.resolvers_sorted,
      )

  module _ (l : List ℕ)
      (sends : (h : ℕ)
        → Sequence.count h l
          ≡ queued (if h == r.hnr then some r else Map.find h t.resolvers_map)) where
    times-set_resolver :
        (side : TimeMap) (k h : ℕ)
        → Multimap.count k h (entries side t)
          ≡ timed side k (Map.find h (set_resolver r t).resolvers_map)
    times-set_resolver side k h = ground (arith, find-set_resolver h, v.times side k h)

    id_used-set_resolver :
        (i h : ℕ)
        → Map.find i t.id_map ≡ some h
        → (s : Resolver) × (Map.find h (set_resolver r t).resolvers_map ≡ some s) × (s.id ≡ i)
    id_used-set_resolver i h e =
        let (s, leads, has) = v.id_used i h e in
        elim (Bool-cases (h == r.hnr)) [
          | inl same ↦ (r, ground (arith, find-set_resolver h), ground arith)
          | inr other ↦ (s, ground (arith, find-set_resolver h), has)
        ]

    -- The maps stay consistent if the request keeps its id and its time, and the send list is one for
    -- the changed request.
    pub change-IsConsistent : IsConsistent (record (set_resolver r t) { send_list = l })
    change-IsConsistent = record {
      resolvers_sorted =
          insert-IsSorted r.hnr r (Map.erase r.hnr t.resolvers_map)
            (erase-IsSorted r.hnr t.resolvers_map v.resolvers_sorted);
      ids_sorted = v.ids_sorted;
      ids_within = v.ids_within;
      times1_sorted = v.times1_sorted;
      times2_sorted = v.times2_sorted;
      owner = λ h s e. ground (arith, find-set_resolver h, v.owner h s);
      has_id = λ h s e. ground (arith, find-set_resolver h, v.has_id h s, v.has_id h r0);
      id_used = id_used-set_resolver;
      sends = λ h. ground (arith, find-set_resolver h, sends h);
      times = elim [
        | by_time1 ↦ times-set_resolver by_time1
        | by_time2 ↦ times-set_resolver by_time2
      ];
    }
