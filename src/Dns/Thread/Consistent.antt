-- ===== src/Dns/Thread/Consistent.antt =====
-- What holds of the maps of a lookup thread whenever its mutex is free: they speak of the same
-- requests.
use setka.Prelude.{ℕ, ◌≡◌, Bool, true, false, ◌&&◌, Option, none, some, List, ◌==◌, if◌then◌else◌}
use setka.Address.{Address}
use setka.Std.Map
use setka.Std.Map.{IsSorted}
use setka.Std.Multimap
use setka.Std.Multimap.{From}
use setka.Std.Sequence
use setka.Dns.Ids.Free.{Within}
use setka.Dns.Thread.{TimeMap, by_time1, by_time2, Resolver, LookupThread, entries}

abbrev pub same_map : TimeMap → TimeMap → Bool
same_map by_time1 by_time1 = true
same_map by_time1 by_time2 = false
same_map by_time2 by_time1 = false
same_map by_time2 by_time2 = true

-- How often a request that is found, or not, should stand in the send list, and in a time map.
abbrev pub queued : Option Resolver → ℕ
queued none = 0
queued (some r) = if r.is_queued then 1 else 0

abbrev pub timed : TimeMap → ℕ → Option Resolver → ℕ
timed side k none = 0
timed side k (some r) = if same_map side r.time_map && k == r.time_key then 1 else 0

pub record IsConsistent (t : LookupThread) : Type 0 where
  pub resolvers_sorted : IsSorted t.resolvers_map
  pub ids_sorted : IsSorted t.id_map
  pub ids_within : Within t.id_map
  pub times1_sorted : From 0 t.resolvers_by_time1
  pub times2_sorted : From 0 t.resolvers_by_time2
  -- a request is filed under its owner, and its id leads to it
  pub owner : (h : ℕ) (r : Resolver) → Map.find h t.resolvers_map ≡ some r → r.hnr ≡ h
  pub has_id :
      (h : ℕ) (r : Resolver) → Map.find h t.resolvers_map ≡ some r → Map.find r.id t.id_map ≡ some h
  -- an id leads to a request that has it
  pub id_used :
      (i h : ℕ)
      → Map.find i t.id_map ≡ some h
      → (r : Resolver) × (Map.find h t.resolvers_map ≡ some r) × (r.id ≡ i)
  -- a request is in the send list once if it is queued, and there is nothing else in it
  pub sends : (h : ℕ) → Sequence.count h t.send_list ≡ queued (Map.find h t.resolvers_map)
  -- a request is in its time map once, under its key, and there is nothing else in either
  pub times :
      (side : TimeMap) (k h : ℕ)
      → Multimap.count k h (entries side t) ≡ timed side k (Map.find h t.resolvers_map)

-- The flags and the messages are no part of it.
pub flags-IsConsistent :
    (t : LookupThread) (quit exiting first_half : Bool) (messages : List Bool)
    → IsConsistent t
    → IsConsistent (record t {
      quit_flag = quit;
      is_exiting = exiting;
      last_ticks_in_first_half = first_half;
      queue = messages;
    })
flags-IsConsistent t quit exiting first_half messages v = record {
  resolvers_sorted = v.resolvers_sorted;
  ids_sorted = v.ids_sorted;
  ids_within = v.ids_within;
  times1_sorted = v.times1_sorted;
  times2_sorted = v.times2_sorted;
  owner = v.owner;
  has_id = v.has_id;
  id_used = v.id_used;
  sends = v.sends;
  times = elim [ by_time1 ↦ v.times by_time1 | by_time2 ↦ v.times by_time2 ];
}

-- Nor is the choice of the first time map.
pub swap-IsConsistent :
    (t : LookupThread) (side : TimeMap)
    → IsConsistent t
    → IsConsistent (record t { time_map1 = side })
swap-IsConsistent t side v = record {
  resolvers_sorted = v.resolvers_sorted;
  ids_sorted = v.ids_sorted;
  ids_within = v.ids_within;
  times1_sorted = v.times1_sorted;
  times2_sorted = v.times2_sorted;
  owner = v.owner;
  has_id = v.has_id;
  id_used = v.id_used;
  sends = v.sends;
  times = elim [ by_time1 ↦ v.times by_time1 | by_time2 ↦ v.times by_time2 ];
}

-- Nor is the address of the server.
pub dns-IsConsistent :
    (t : LookupThread) (a : Address) → IsConsistent t → IsConsistent (record t { dns = a })
dns-IsConsistent t a v = record {
  resolvers_sorted = v.resolvers_sorted;
  ids_sorted = v.ids_sorted;
  ids_within = v.ids_within;
  times1_sorted = v.times1_sorted;
  times2_sorted = v.times2_sorted;
  owner = v.owner;
  has_id = v.has_id;
  id_used = v.id_used;
  sends = v.sends;
  times = elim [ by_time1 ↦ v.times by_time1 | by_time2 ↦ v.times by_time2 ];
}
