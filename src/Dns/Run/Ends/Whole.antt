-- ===== src/Dns/Run/Ends/Whole.antt =====
-- A round of the loop ends, if callbacks do not add requests to the thread.
use setka.Prelude.{
  ℕ, ◌+◌, ◌≤◌, ◌<◌, ◌≡◌, refl, inl, inr, true, false, Option, none, some, [], arith, Bool-cases,
  length,
}
use setka.Utki.{Utki, Bytes}
use setka.Dns.Thread.{LookupThread}
use setka.Dns.Thread.Consistent.{IsConsistent, flags-IsConsistent}
use setka.Dns.Run.{
  Completion, Run, Event, Received, receive_throws, datagram, fail, failed, send_requests,
  write_and_keep_time, round,
}
use setka.Dns.Run.Keeps.{IsGood, IsGoodEnd, fail-Keeps}
use setka.Dns.Run.Rounds.{IsTimelyEvent}
use setka.Dns.Run.Stops.{IsBounded, remove_all_resolvers-Stops}
use setka.Dns.Run.Sending.{rounds, IsBounded-IsFueled, send_requests-Stops}
use setka.Dns.Run.Ends.{Ends, Stops-Ends, >>=-Ends, Keeps-Ends, handle_datagram-Ends}
use setka.Dns.Run.Ends.Times.{keep_time-Ends}

module _ (u : Utki) (stack : Bytes) (meanwhile : Completion → LookupThread → LookupThread)
    (keeps : (c : Completion) (t : LookupThread) → IsConsistent t → IsConsistent (meanwhile c t))
    (adds_none : (c : Completion) (t : LookupThread)
      → length (meanwhile c t).resolvers_map ≤ length t.resolvers_map) where
  failed-Ends :
      (n fuel : ℕ) (s : Run)
      → IsBounded n s
      → n < fuel
      → Ends IsGoodEnd (failed u stack meanwhile fuel s)
  unfolding fail
  failed-Ends n fuel s b few =
      >>=-Ends IsGood IsGoodEnd _ _
        (Keeps-Ends (λ s. s.thread.resolvers_map ≡ []) IsGood (fail u stack meanwhile fuel s)
          (remove_all_resolvers-Stops u stack meanwhile keeps adds_none n fuel _
            (
              flags-IsConsistent s.thread s.thread.quit_flag true s.thread.last_ticks_in_first_half
                  s.thread.queue b.0,
              b.1,
            )
            few)
          (fail-Keeps u stack meanwhile keeps fuel s b.0))
        λ s v. v

  sent-Ends :
      (n fuel : ℕ) (e : Event) (s : Run)
      → IsBounded n s
      → n + rounds n < fuel
      → Ends (λ r. IsBounded n r.0) (send_requests u stack meanwhile fuel e.sends s)
  sent-Ends n fuel e s b few =
      Stops-Ends (λ r. IsBounded n r.0) (λ r. IsBounded n r.0)
        (send_requests u stack meanwhile fuel e.sends s) (λ r b. b)
        (send_requests-Stops u stack meanwhile keeps adds_none n fuel e.sends s
          (IsBounded-IsFueled u stack meanwhile keeps adds_none n fuel s b few))

  write_and_keep_time-Ends :
      (n fuel : ℕ) (e : Event) (s : Run)
      → IsBounded n s
      → n + rounds n < fuel
      → Ends IsGoodEnd (write_and_keep_time u stack meanwhile fuel e s)
  unfolding write_and_keep_time
  write_and_keep_time-Ends n fuel e s b few = elim (Bool-cases e.can_write) [
    | inr reads ↦
        rw reads
          (keep_time-Ends u stack meanwhile keeps adds_none n fuel e.cur_time s b (omega arith))
    | inl writes ↦ rw writes (
        >>=-Ends (λ r. IsBounded n r.0) IsGoodEnd (send_requests u stack meanwhile fuel e.sends s) _
          (sent-Ends n fuel e s b few)
          λ r b. elim (Bool-cases r.1) [
            | inl throws ↦ rw throws (failed-Ends n fuel r.0 b (omega arith))
            | inr done ↦ rw done (
                keep_time-Ends u stack meanwhile keeps adds_none n fuel e.cur_time _ b
                  (omega arith))
          ])
  ]

  received-Ends :
      (n fuel : ℕ) (e : Event) (o : Option Received) (s : Run)
      → e.received ≡ o
      → e.has_error ≡ false
      → IsBounded n s
      → n + rounds n < fuel
      → IsTimelyEvent u stack meanwhile keeps s o
      → Ends IsGoodEnd (round u stack meanwhile fuel e s)
  unfolding round
  received-Ends n fuel e none s q c b few timely =
      rw (c, q, round) (write_and_keep_time-Ends n fuel e s b few)
  received-Ends n fuel e (some receive_throws) s q c b few timely =
      rw (c, q, round) (failed-Ends n fuel s b (omega arith))
  received-Ends n fuel e (some (datagram buf size)) s q c b few timely =
      rw (c, q, round)
        (>>=-Ends (IsBounded n) IsGoodEnd _ _
          (handle_datagram-Ends u stack meanwhile keeps adds_none n s buf size b timely)
          λ s b. write_and_keep_time-Ends n fuel e s b few)

  -- A round of the loop ends, in consistent tables, or in one of its reads outside of a packet or past
  -- the end of a map, and uses no null or dangling pointer: this from consistent tables with n requests
  -- at most, with more fuel than n + n (n + 1) / 2, if what other threads do during a callback keeps the
  -- tables consistent and adds no requests, and if it receives no reply to a request that is still to be
  -- sent.
  pub round-Ends :
      (n fuel : ℕ) (e : Event) (s : Run)
      → IsBounded n s
      → n + rounds n < fuel
      → IsTimelyEvent u stack meanwhile keeps s e.received
      → Ends IsGoodEnd (round u stack meanwhile fuel e s)
  unfolding round
  round-Ends n fuel e s b few timely = elim (Bool-cases e.has_error) [
    | inl broken ↦ rw broken (failed-Ends n fuel s b (omega arith))
    | inr fine ↦ received-Ends n fuel e e.received s refl fine b few timely
  ]
