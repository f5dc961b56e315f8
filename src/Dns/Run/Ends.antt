-- ===== src/Dns/Run/Ends.antt =====
-- Parts of a round that end, if callbacks do not add requests to the thread: the datagrams.
pub mod Times
pub mod Whole
use setka.Prelude.{
  ℕ, zero, suc, ◌+◌, ◌-◌, ◌/◌, ◌^◌, ◌≤◌, ◌<◌, ◌≡◌, refl, inl, inr, Bool, true, false, not, ◌&&◌,
  Option, none, some, List, [], ◌∷◌, arith, ◌==◌, List-cases, Bool-cases, Option-cases, length, ltb,
  bytes_eq, take, drop, if◌then◌else◌,
}
use setka.Utki.{Utki, Bytes}
use setka.Address.{of_v4, Ip}
use setka.Std.Map
use setka.Std.Map.Laws.{length-find}
use setka.Dns.Name.{parse_host_name_from_dns_packet}
use setka.Dns.Query.{dns_record_a, dns_record_aaaa}
use setka.Dns.Result.{DnsResult, ParseResult, timeout}
use setka.Dns.Reply.{parse_reply_from_dns}
use setka.Dns.Thread.{other, Resolver, LookupThread, entries}
use setka.Dns.Thread.Consistent.{IsConsistent, flags-IsConsistent, swap-IsConsistent}
use setka.Dns.Run.{
  Completion, Run, Step, ran, null_pointer, past_the_end, overread, out_of_fuel, ◌>>=◌, deref,
  Event, Received, receive_throws, datagram, complete, expire, is_not_found, retry_with_a,
  finish_reply, match_reply, reply_id, handle_datagram, swap_if_wrapped, swap_time_maps, next_wait,
  keep_time, fail, failed, send_requests, write_and_keep_time, round,
}
use setka.Dns.Run.Keeps.{Keeps, IsGood, IsGoodEnd, first_timed, fail-Keeps}
use setka.Dns.Run.Replies.{IsTimely, retry-IsGood}
use setka.Dns.Run.Rounds.{IsTimelyEvent}
use setka.Dns.Run.Stops.{
  Stops, >>=-Stops, Stops-map, IsBounded, complete-Stops, remove_all_resolvers-Stops, predecessor,
}
use setka.Dns.Run.Sending.{
  rounds, length-set_resolver, IsBoundedSend, IsBounded-IsFueled, send_requests-Stops,
}

-- A step that does not run out of fuel and uses no null pointer. What it hands on meets a condition.
abbrev pub Ends {ℓ} : {A : Type ℓ} → (A → Type 0) → Step A → Type 0
Ends P (ran a) = P a
Ends P null_pointer = ⊥
Ends P past_the_end = Unit
Ends P overread = Unit
Ends P out_of_fuel = ⊥

pub Stops-Ends {ℓ} :
    {A : Type ℓ} (P Q : A → Type 0) (m : Step A) → ((a : A) → P a → Q a) → Stops P m → Ends Q m
Stops-Ends P Q (ran a) f h = f a h
Stops-Ends P Q null_pointer f h = absurd h
Stops-Ends P Q past_the_end f h = absurd h
Stops-Ends P Q overread f h = absurd h
Stops-Ends P Q out_of_fuel f h = absurd h

pub >>=-Ends {ℓ κ} :
    {A : Type ℓ} {B : Type κ} (P : A → Type 0) (Q : B → Type 0) (m : Step A) (f : A → Step B)
    → Ends P m
    → ((a : A) → P a → Ends Q (f a))
    → Ends Q (m >>= f)
>>=-Ends P Q (ran a) f h k = k a h
>>=-Ends P Q null_pointer f h k = h
>>=-Ends P Q past_the_end f h k = tt
>>=-Ends P Q overread f h k = tt
>>=-Ends P Q out_of_fuel f h k = h

pub Keeps-Ends {ℓ} : {A : Type ℓ} (P Q : A → Type 0) (m : Step A) → Stops P m → Keeps Q m → Ends Q m
Keeps-Ends P Q (ran a) h k = k
Keeps-Ends P Q null_pointer h k = k
Keeps-Ends P Q past_the_end h k = tt
Keeps-Ends P Q overread h k = tt
Keeps-Ends P Q out_of_fuel h k = h

module _ (u : Utki) (stack : Bytes) (meanwhile : Completion → LookupThread → LookupThread)
    (keeps : (c : Completion) (t : LookupThread) → IsConsistent t → IsConsistent (meanwhile c t))
    (adds_none : (c : Completion) (t : LookupThread)
      → length (meanwhile c t).resolvers_map ≤ length t.resolvers_map) where
  -- A completed request leaves room for one more.
  complete-IsBounded :
      (n : ℕ) (s : Run) (h : ℕ) (result : DnsResult) (host : Ip) (r : Resolver)
      → IsBounded n s
      → Map.find h s.thread.resolvers_map ≡ some r
      → Stops (IsBounded n) (complete u stack meanwhile s h result host)
  complete-IsBounded n s h result host r b found =
      let (n', fits) = predecessor n (omega (arith, length-find h r _ found, b.1)) in
      Stops-map (IsBounded n') (IsBounded n) (complete u stack meanwhile s h result host)
        (λ s' b'. (b'.0, omega (arith, b'.1, fits)))
        (complete-Stops u stack meanwhile keeps adds_none n' s h result host r
          (b.0, omega (arith, b.1, fits)) found)

  finish_reply-Ends :
      (n : ℕ) (s : Run) (h : ℕ) (r : Resolver) (res : ParseResult)
      → IsBounded n s
      → Map.find h s.thread.resolvers_map ≡ some r
      → r.is_queued ≡ false
      → Ends (IsBounded n) (finish_reply u stack meanwhile s r res)
  unfolding finish_reply retry_with_a
  finish_reply-Ends n s h r res b found sent =
      let owned : Map.find r.hnr s.thread.resolvers_map ≡ some r = ground (arith, b.0.owner h r) in
      elim (Bool-cases (is_not_found res.result && r.record_type == dns_record_aaaa)) [
        | inl again ↦ rw again (
          retry-IsGood u stack meanwhile keeps s h r b.0 found sent,
          length-set_resolver (record r { record_type = dns_record_a; is_queued = true }) s.thread r
              n owned b.1,
        )
        | inr done ↦ rw done (
            Stops-Ends (IsBounded n) (IsBounded n) _ (λ s b. b)
              (complete-IsBounded n s r.hnr res.result res.host r b owned))
      ]

  match_reply-Ends :
      (n : ℕ) (s : Run) (h : ℕ) (r : Resolver) (buf : Bytes) (size : ℕ)
      → IsBounded n s
      → Map.find h s.thread.resolvers_map ≡ some r
      → r.is_queued ≡ false
      → Ends (IsBounded n) (match_reply u stack meanwhile s r buf size)
  unfolding match_reply
  match_reply-Ends n s h r buf size b found sent =
      elim (Bool-cases (bytes_eq (parse_host_name_from_dns_packet (drop 12 buf)).0 r.host_name)) [
        | inr differ ↦ rw differ b
        | inl same ↦
            rw same
              (elim (Option-cases
                (parse_reply_from_dns u r.host_name r.record_type (take size buf))) [
                  | inl over ↦ rw (over, match_reply) tt
                  | inr (res, e) ↦ rw (e, match_reply) (finish_reply-Ends n s h r res b found sent)
                ])
      ]

  pub handle_datagram-Ends :
      (n : ℕ) (s : Run) (buf : Bytes) (size : ℕ)
      → IsBounded n s
      → IsTimely u stack meanwhile keeps s buf
      → Ends (IsBounded n) (handle_datagram u stack meanwhile s buf size)
  unfolding handle_datagram
  handle_datagram-Ends n s buf size b timely = elim (Bool-cases (ltb size 13)) [
    | inl short ↦ rw short b
    | inr long ↦
        rw long (elim (Option-cases (Map.find (reply_id u stack meanwhile buf) s.thread.id_map)) [
          | inl none_such ↦ rw (none_such, handle_datagram) b
          | inr (h, e) ↦
              let (r, found, same) = b.0.id_used _ h e in
              rw (e, handle_datagram)
                (rw (found, deref, ◌>>=◌, Ends)
                  (match_reply-Ends n s h r buf size b found (timely h r e found)))
        ])
  ]
