-- ===== src/Dns/Run/Faults.antt =====
-- Where a round of the loop goes wrong.
use setka.Prelude.{
  ℕ, suc, ◌-◌, ◌/◌, ◌^◌, ◌≡◌, ◌≢◌, refl, true, false, not, ◌&&◌, none, some, [], arith, ltb, length,
  ==_refl,
}
use setka.Utki.{Utki, Bytes}
use setka.Std.Map
use setka.Std.Sequence.Laws.{count-push_back}
use setka.Dns.Query.{dns_record_a, dns_record_aaaa}
use setka.Dns.Result.{not_found, ParseResult}
use setka.Dns.Thread.{Resolver, LookupThread, entries}
use setka.Dns.Run.{
  Completion, Run, ran, set_resolver, past_the_end, retry_with_a, finish_reply, expire,
  swap_if_wrapped, swap_time_maps, next_wait, keep_time, Event, round, write_and_keep_time,
}
use setka.Dns.Run.Changes.{find-set_resolver}
use setka.Dns.Run.Keeps.{IsGood}

-- The request that is changed in place is found.
find_changed :
    (s : Run) (h : ℕ) (r : Resolver)
    → IsGood s
    → Map.find h s.thread.resolvers_map ≡ some r
    → let changed : Resolver = record r { record_type = dns_record_a; is_queued = true } in
      Map.find r.hnr (set_resolver changed s.thread).resolvers_map ≡ some changed
find_changed s h r v found = ground (
  arith,
  find-set_resolver s.thread r (record r { record_type = dns_record_a; is_queued = true }) v
      (ground (arith, v.owner h r)) refl refl refl r.hnr,
  ==_refl r.hnr,
)

module _ (u : Utki) (stack : Bytes) (meanwhile : Completion → LookupThread → LookupThread) where
  -- While the ticks do not wrap around, a thread that has requests, none of them in the first time map, comes
  -- to `begin()` of an empty map.
  pub keep_time-past_the_end :
      (fuel cur_time : ℕ) (s : Run)
      → ltb cur_time ((2 ^ 32 - 1) / 2) && not s.thread.last_ticks_in_first_half ≡ false
      → entries s.thread.time_map1 s.thread ≡ []
      → length s.thread.resolvers_map ≢ 0
      → keep_time u stack meanwhile (suc fuel) cur_time s ≡ past_the_end
  unfolding keep_time swap_time_maps swap_if_wrapped expire next_wait
  keep_time-past_the_end fuel cur_time s goes_on empty busy = ground arith

  -- A round in which nothing is read and nothing can be written.
  pub idle_round :
      (fuel : ℕ) (e : Event) (s : Run)
      → e.has_error ≡ false
      → e.received ≡ none
      → e.can_write ≡ false
      → round u stack meanwhile fuel e s ≡ keep_time u stack meanwhile fuel e.cur_time s
  unfolding round write_and_keep_time
  idle_round fuel e s fine nothing full = rw (fine, nothing, full) refl

  -- A reply that says not found for the type AAAA and comes before its request was sent breaks the
  -- tables: the request is queued twice.
  pub finish_reply-early :
      (s : Run) (h : ℕ) (r : Resolver) (res : ParseResult)
      → IsGood s
      → Map.find h s.thread.resolvers_map ≡ some r
      → r.is_queued ≡ true
      → res.result ≡ not_found
      → r.record_type ≡ dns_record_aaaa
      → (s' : Run) × (finish_reply u stack meanwhile s r res ≡ ran s') × ¬ IsGood s'
  unfolding finish_reply retry_with_a
  finish_reply-early s h r res v found waits says type = (
    retry_with_a u stack meanwhile s r,
    simp (says, type),
    λ w. ground (
      arith,
      w.sends r.hnr,
      v.sends r.hnr,
      v.owner h r,
      count-push_back r.hnr r.hnr s.thread.send_list,
      ==_refl r.hnr,
      find_changed s h r v found,
    ),
  )
