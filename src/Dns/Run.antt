-- ===== src/Dns/Run.antt =====
-- src/setka/dns_resolver.cpp, `LookupThread::run`: the rounds of its loop, `RemoveAllResolvers` and
-- `CallCallback`. A round holds the mutex of the thread, but for the callbacks: what the other threads
-- do while a callback runs is a parameter (`meanwhile`).
mod State
pub mod Changes
pub mod Keeps
pub mod Replies
pub mod Sends
pub mod Rounds
pub mod Faults
pub mod Stops
pub mod Reports
pub mod WithCalls
pub mod Untouched
pub mod System
pub mod Sending
pub mod Ends
pub mod Answers
pub mod Loop
pub use State.*
use setka.Prelude.{
  ℕ, zero, suc, ◌+◌, ◌-◌, ◌%◌, ◌^◌, ◌/◌, Bool, true, false, not, ◌&&◌, ◌||◌, Option, none, some,
  List, [], ◌∷◌, ◌++◌, ltb, ◌==◌, if◌then◌else◌, length, take, drop, bytes_eq, min,
}
use setka.Utki.{Utki, Bytes}
use setka.Address.{Ip, Address, of_v4, get_v4, is_valid}
use setka.Std.Map
use setka.Std.Sequence
use setka.Dns.Name.{parse_host_name_from_dns_packet}
use setka.Dns.Query.{dns_record_a, dns_record_aaaa, packet_size, request_datagram}
use setka.Dns.Result.{DnsResult, ok, timeout, not_found, dns_error, error, ParseResult, no_host}
use setka.Dns.Reply.{parse_reply_from_dns}
use setka.Dns.Thread.{other, Resolver, LookupThread, entries, remove_resolver}

module _ (u : Utki) (stack : Bytes) (meanwhile : Completion → LookupThread → LookupThread) where
  pub call_callback : Run → Resolver → DnsResult → Ip → Run
  call_callback s r result host =
      let c : Completion = record { hnr = r.hnr; result = result; host = host } in
      record s { thread = meanwhile c s.thread; completed = s.completed ++ c ∷ [] }

  -- `RemoveResolver` of a resolver, and `CallCallback` with what it returns
  pub complete : Run → ℕ → DnsResult → Ip → Step Run
  unfolding call_callback
  complete s h result host =
      let (t, removed) = remove_resolver s.thread h in
      elim removed [
        | none ↦ null_pointer
        | some r ↦ ran (call_callback (record s { thread = t }) r result host)
      ]

  pub remove_all_resolvers : ℕ → Run → Step Run
  unfolding complete
  remove_all_resolvers zero s = out_of_fuel
  remove_all_resolvers (suc fuel) s = elim s.thread.resolvers_map [
    | [] ↦ ran s
    | (h, r) ∷ m ↦ complete s h error no_host >>= remove_all_resolvers fuel
  ]

  -- `isExiting = true; RemoveAllResolvers(); break;`
  pub fail : ℕ → Run → Step Run
  unfolding remove_all_resolvers
  fail fuel s =
      remove_all_resolvers fuel (record s { thread = record s.thread { is_exiting = true } })

  -- A second try with record type A: the request is queued again.
  pub retry_with_a : Run → Resolver → Run
  retry_with_a s r =
      let t = set_resolver (record r { record_type = dns_record_a; is_queued = true }) s.thread in
      let send_list = Sequence.push_back t.send_list r.hnr in
      record s {
        thread = record t { send_list = send_list };
        waits_for_write = if length send_list == 1 then true else s.waits_for_write;
      }

  pub finish_reply : Run → Resolver → ParseResult → Step Run
  unfolding complete retry_with_a
  finish_reply s r res =
      if is_not_found res.result && r.record_type == dns_record_aaaa
      then ran (retry_with_a s r)
      else complete s r.hnr res.result res.host

  -- The reply to a request, once the id has led to one. The host name is looked for in the whole
  -- buffer, the rest in what was received.
  pub match_reply : Run → Resolver → Bytes → ℕ → Step Run
  unfolding finish_reply
  match_reply s r buf size =
      if bytes_eq (parse_host_name_from_dns_packet (drop 12 buf)).0 r.host_name
      then (elim (parse_reply_from_dns u r.host_name r.record_type (take size buf)) [
        | none ↦ overread
        | some res ↦ finish_reply s r res
      ])
      else ran s

  -- `deserialize16be` of the start of the buffer
  abbrev pub reply_id : Bytes → ℕ
  reply_id (a ∷ b ∷ p) = u.deserialize16be a b
  reply_id _ = 0

  pub handle_datagram : Run → Bytes → ℕ → Step Run
  unfolding match_reply
  handle_datagram s buf size =
      if ltb size 13 then ran s else (elim (Map.find (reply_id buf) s.thread.id_map) [
        | none ↦ ran s
        | some h ↦ deref h s.thread >>= λ r. match_reply s r buf size
      ])

  -- The first request of the send list was sent; the rest of the list follows.
  pub after_sending : Run → Resolver → List ℕ → Run
  after_sending s r l = record s {
    thread = record (set_resolver (record r { is_queued = false }) s.thread) { send_list = l };
    sent = s.sent ++ (r.dns, request_datagram u stack r.id r.host_name r.record_type) ∷ [];
  }

  -- The loop over the send list. The Boolean says that a call threw.
  pub send_requests : ℕ → List Sent → Run → Step (Run × Bool)
  unfolding complete after_sending
  send_requests zero results s = out_of_fuel
  send_requests (suc fuel) results s = elim s.thread.send_list [
    | [] ↦ ran (s, false)
    | h ∷ l ↦ deref h s.thread >>= λ r.
        let r = record r { dns = if get_v4 r.dns.host == 0 then s.thread.dns else r.dns } in
        let s = record s { thread = set_resolver r s.thread } in
        if is_valid r.dns.host
        then (after_attempt (attempt (packet_size r.host_name) results) s
            λ results. send_requests fuel results (after_sending s r l))
        else (complete s r.hnr error (of_v4 0) >>= send_requests fuel results)
  ]

  -- The timeouts of the first time map up to a time; all of it, if there is none.
  pub expire : ℕ → Option ℕ → Run → Step Run
  unfolding complete
  expire zero limit s = out_of_fuel
  expire (suc fuel) limit s = elim (entries s.thread.time_map1 s.thread) [
    | [] ↦ ran s
    | (key, h) ∷ m ↦ elim limit [
      | none ↦ complete s h timeout (of_v4 0) >>= expire fuel none
      | some time ↦
          if ltb time key
          then ran s
          else (complete s h timeout (of_v4 0) >>= expire fuel (some time))
    ]
  ]

  -- The swap of the time maps, if the time has wrapped around since the last round.
  pub swap_if_wrapped : ℕ → Bool → Run → Step Run
  unfolding expire
  swap_if_wrapped fuel first_half s =
      if first_half && not s.thread.last_ticks_in_first_half
      then (expire fuel none s >>= λ s.
          ran (record s { thread = record s.thread { time_map1 = other s.thread.time_map1 } }))
      else ran s

  pub swap_time_maps : ℕ → ℕ → Run → Step Run
  unfolding swap_if_wrapped
  swap_time_maps fuel cur_time s =
      let first_half = ltb cur_time ((2 ^ 32 - 1) / 2) in
      swap_if_wrapped fuel first_half s >>= λ s.
      ran (record s { thread = record s.thread { last_ticks_in_first_half = first_half } })

  -- The end of a round: `none` if the thread leaves the loop, and else how long it waits.
  pub next_wait : ℕ → Run → Step (Run × Option ℕ)
  next_wait cur_time s =
      if length s.thread.resolvers_map == 0
      then ran (record s { thread = record s.thread { is_exiting = true } }, none)
      else (elim (entries s.thread.time_map1 s.thread) [
        | [] ↦ past_the_end
        | (key, h) ∷ m ↦ ran (s, some (min ((key + 2 ^ 32 - cur_time) % 2 ^ 32) ((2 ^ 32 - 1) / 4)))
      ])

  -- The part of a round behind the reading and the writing.
  pub keep_time : ℕ → ℕ → Run → Step (Run × Option ℕ)
  unfolding swap_time_maps next_wait
  keep_time fuel cur_time s =
      swap_time_maps fuel cur_time s >>= expire fuel (some cur_time) >>= next_wait cur_time

  abbrev pub failed : ℕ → Run → Step (Run × Option ℕ)
  failed fuel s = fail fuel s >>= λ s. ran (s, none)

  -- The writing of a round, and what follows it.
  pub write_and_keep_time : ℕ → Event → Run → Step (Run × Option ℕ)
  unfolding send_requests keep_time fail
  write_and_keep_time fuel e s =
      if e.can_write
      then (send_requests fuel e.sends s >>= λ r.
          if r.1
          then failed fuel r.0
          else keep_time fuel e.cur_time (record r.0 {
            waits_for_write =
                if length r.0.thread.send_list == 0 then false else r.0.waits_for_write;
          }))
      else keep_time fuel e.cur_time s

  -- A round of the loop, up to the wait.
  pub round : ℕ → Event → Run → Step (Run × Option ℕ)
  unfolding write_and_keep_time handle_datagram
  round fuel e s = if e.has_error then failed fuel s else (elim e.received [
    | none ↦ write_and_keep_time fuel e s
    | some receive_throws ↦ failed fuel s
    | some (datagram buf size) ↦ handle_datagram s buf size >>= write_and_keep_time fuel e
  ])

-- The messages of the queue, which are run after a wait: each asks for sending, or does nothing.
abbrev pub asks_for_sending : List Bool → Bool
asks_for_sending [] = false
asks_for_sending (m ∷ ms) = m || asks_for_sending ms

unfoldable pub handle_messages : Run → Run
handle_messages s = record s {
  thread = record s.thread { queue = [] };
  waits_for_write = s.waits_for_write || asks_for_sending s.thread.queue;
}
