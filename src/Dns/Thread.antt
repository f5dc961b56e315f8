-- ===== src/Dns/Thread.antt =====
-- src/setka/dns_resolver.cpp: `dns::Resolver`, the state of `LookupThread`, and `RemoveResolver`.
-- A `dns_resolver*` is a number. A `Resolver*` is the number of the `dns_resolver` that it serves,
-- since `resolversMap` owns one `Resolver` for each. Iterators are what they point to.
pub mod Consistent
pub mod Remove
use setka.Prelude.{ℕ, Bool, true, false, Option, none, some, List, [], if◌then◌else◌}
use setka.Utki.{Bytes}
use setka.Address.{Address, of_v4}
use setka.Std.Map
use setka.Std.Map.{Map}
use setka.Std.Multimap
use setka.Std.Multimap.{Multimap}
use setka.Std.Sequence

-- The two multimaps that `timeMap1` and `timeMap2` point to in turn.
pub data TimeMap : Type 0 where
  by_time1 by_time2 : TimeMap

abbrev pub other : TimeMap → TimeMap
other by_time1 = by_time2
other by_time2 = by_time1

pub record Resolver : Type 0 where
  pub hnr : ℕ
  pub host_name : Bytes
  pub record_type : ℕ
  pub time_map : TimeMap
  -- the key of the entry that `timeMapIter` points to
  pub time_key : ℕ
  pub id : ℕ
  -- `sendIter != sendList.end()`
  pub is_queued : Bool
  pub dns : Address

pub record LookupThread : Type 0 where
  pub resolvers_by_time1 : Multimap
  pub resolvers_by_time2 : Multimap
  pub quit_flag : Bool
  pub is_exiting : Bool
  pub last_ticks_in_first_half : Bool
  pub time_map1 : TimeMap
  pub send_list : List ℕ
  pub resolvers_map : Map Resolver
  pub id_map : Map ℕ
  pub dns : Address
  -- the messages in `queue`: each is `StartSending` or does nothing
  pub queue : List Bool

abbrev pub entries : TimeMap → LookupThread → Multimap
entries by_time1 t = t.resolvers_by_time1
entries by_time2 t = t.resolvers_by_time2

-- The first of two multimaps, if the pointer is to the first.
abbrev pub pick : TimeMap → Multimap → Multimap → Multimap
pick by_time1 m n = m
pick by_time2 m n = n

abbrev pub set_entries : TimeMap → Multimap → LookupThread → LookupThread
set_entries side m t = record t {
  resolvers_by_time1 = pick side m t.resolvers_by_time1;
  resolvers_by_time2 = pick (other side) m t.resolvers_by_time2;
}

-- `std::make_unique<LookupThread>()`. The constructor leaves `lastTicksInFirstHalf` and `dns` as
-- they are in memory; both are set before they are read.
abbrev pub new_thread : LookupThread
new_thread = record {
  resolvers_by_time1 = [];
  resolvers_by_time2 = [];
  quit_flag = false;
  is_exiting = true;
  last_ticks_in_first_half = false;
  time_map1 = by_time1;
  send_list = [];
  resolvers_map = [];
  id_map = [];
  dns = record { host = of_v4 0; port = 0 };
  queue = [];
}

-- The removal of an active request from all the maps.
pub erase_resolver : LookupThread → ℕ → Resolver → LookupThread
erase_resolver t resolver r =
    let u = record t {
      resolvers_map = Map.erase resolver t.resolvers_map;
      send_list = if r.is_queued then Sequence.erase resolver t.send_list else t.send_list;
      id_map = Map.erase r.id t.id_map;
    } in
    set_entries r.time_map (Multimap.erase r.time_key resolver (entries r.time_map t)) u

-- The thread, and the removed resolver, or `none` if there was no such resolver.
pub remove_resolver : LookupThread → ℕ → LookupThread × Option Resolver
remove_resolver t resolver = elim (Map.find resolver t.resolvers_map) [
  | none ↦ (t, none)
  | some r ↦ (erase_resolver t resolver r, some r)
]
