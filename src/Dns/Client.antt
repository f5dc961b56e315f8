-- ===== src/Dns/Client.antt =====
-- src/setka/dns_resolver.cpp: `dns_resolver::resolve` and `cancel`, and the lookup thread
-- that they share. A call holds `dns::mutex` from its start to its end, and is one step here; Between is
-- about the moment at which `resolve` has let go of the mutex of the thread. That memory runs out is not
-- modelled; that the thread does not start is.
pub mod Adds
pub mod Between
pub mod Accepts
pub mod Cancels
pub mod Calls
pub mod Previous
pub mod Lookups
use setka.Prelude.{
  ℕ, ◌+◌, ◌-◌, ◌%◌, ◌^◌, ◌/◌, Bool, true, false, Option, none, some, List, [], ◌∷◌, ◌++◌, ltb, ◌==◌,
  if◌then◌else◌, length,
}
use setka.Utki.{Bytes}
use setka.Address.{Address}
use setka.Std.Map
use setka.Std.Multimap
use setka.Std.Sequence
use setka.Dns.Ids.{find_free_id}
use setka.Dns.Query.{dns_record_aaaa}
use setka.Dns.Thread.{
  TimeMap, other, Resolver, LookupThread, entries, set_entries, new_thread, remove_resolver,
}

-- `dns::thread`, and the threads behind its `prevThread`, the latest first.
pub record Threads : Type 0 where
  pub thread : Option LookupThread
  pub previous : List LookupThread

pub data Error : Type 0 where
  too_long in_progress too_many_requests : Error

-- A call returns, throws, or uses a null pointer.
pub data Result {ℓ} (A : Type ℓ) : Type ℓ where
  ok : A → Result A
  throws : Error → Result A
  null_dereference : Result A

-- What a call of `resolve` is given: its arguments, the ticks that it reads, and whether
-- `nitki::thread::start` succeeds.
pub record Request : Type 0 where
  pub resolver : ℕ
  pub host_name : Bytes
  pub timeout_millis : ℕ
  pub dns_ip : Address
  pub cur_time : ℕ
  pub starts : Bool

-- `endTime`, a `uint32_t`
abbrev pub end_time : Request → ℕ
end_time q = (q.cur_time + q.timeout_millis) % 2 ^ 32

-- The pointer that the request's `timeMap` is: `timeMap2` if the time wraps around.
abbrev pub time_map_of : Request → LookupThread → TimeMap
time_map_of q t = if ltb (end_time q) q.cur_time then other t.time_map1 else t.time_map1

unfoldable pub resolver_of : Request → ℕ → LookupThread → Resolver
resolver_of q id t = record {
  hnr = q.resolver;
  host_name = q.host_name;
  record_type = dns_record_aaaa;
  time_map = time_map_of q t;
  time_key = end_time q;
  id = id;
  is_queued = true;
  dns = q.dns_ip;
}

-- The entries of a request in all the maps, and the message that asks for sending. The resolver has
-- no entry yet, so `resolversMap[this] = ...` inserts one.
unfoldable pub add_resolver : LookupThread → Request → ℕ → LookupThread
unfolding resolver_of
add_resolver t q id =
    let r = resolver_of q id t in
    let u = record t {
      id_map = Map.insert id q.resolver t.id_map;
      send_list = Sequence.push_back t.send_list q.resolver;
      resolvers_map = Map.insert q.resolver r t.resolvers_map;
      queue =
          if length (Sequence.push_back t.send_list q.resolver) == 1
          then t.queue ++ true ∷ []
          else t.queue;
    } in
    set_entries r.time_map (Multimap.insert (end_time q) q.resolver (entries r.time_map t)) u

-- The start of a new thread.
abbrev pub start : Request → LookupThread → LookupThread
start q t = record t {
  last_ticks_in_first_half = ltb q.cur_time ((2 ^ 32 - 1) / 2);
  is_exiting = false;
}

-- The rest of `resolve`, on the thread that it has chosen and with the id that it has found. If the
-- start fails, the handler uses `r`, from which the request was moved away.
unfoldable pub place : List LookupThread → LookupThread → Bool → Request → ℕ → Result Threads
place previous t need_start q id =
    let u = add_resolver t q id in
    if need_start
    then (if q.starts
        then ok (record { thread = some (start q u); previous = previous })
        else null_dereference)
    else ok (record { thread = some u; previous = previous })

-- A call that throws leaves the threads as they were: a new thread has no ids in use, so that an id is
-- found in it, and nothing was changed in the one that was there.
unfoldable pub register : List LookupThread → LookupThread → Bool → Request → Result Threads
register previous t need_start q = elim (find_free_id t.id_map) [
  | none ↦ throws too_many_requests
  | some id ↦ place previous t need_start q id
]

-- The choice of the thread.
unfoldable pub choose : List LookupThread → Option LookupThread → Request → Result Threads
choose previous none q = register previous new_thread true q
choose previous (some t) q = elim (Map.find q.resolver t.resolvers_map) [
  | some r ↦ throws in_progress
  | none ↦
      if t.is_exiting
      then register (t ∷ previous) new_thread true q
      else register previous t false q
]

unfoldable pub resolve : Threads → Request → Result Threads
resolve g q = if ltb 253 (length q.host_name) then throws too_long else choose g.previous g.thread q

-- The quitting of a thread that has no requests left.
abbrev pub quit_if_idle : LookupThread → LookupThread
quit_if_idle t =
    let idle = length t.resolvers_map == 0 in
    record t {
      quit_flag = if idle then true else t.quit_flag;
      queue = if idle then t.queue ++ false ∷ [] else t.queue;
    }

unfoldable pub cancel_on : List LookupThread → Option LookupThread → ℕ → Threads × Bool
cancel_on previous none resolver = (record { thread = none; previous = previous }, false)
cancel_on previous (some t) resolver =
    let (u, removed) = remove_resolver t resolver in
    (
      record { thread = some (quit_if_idle u); previous = previous },
      elim removed [ none ↦ false | some r ↦ true ],
    )

-- The threads, and whether there was a lookup to cancel.
unfoldable pub cancel : Threads → ℕ → Threads × Bool
unfolding cancel_on
cancel g resolver = cancel_on g.previous g.thread resolver
