-- ===== src/Dns/Run/Rounds.antt =====
-- A round of the loop keeps the maps consistent.
use setka.Prelude.{ℕ, ◌≡◌, refl, inl, inr, false, Option, none, some, Bool-cases}
use setka.Utki.{Utki, Bytes}
use setka.Dns.Thread.{LookupThread}
use setka.Dns.Thread.Consistent.{IsConsistent}
use setka.Dns.Run.{
  Completion, Run, Received, receive_throws, datagram, Event, write_and_keep_time, round,
}
use setka.Dns.Run.Keeps.{
  Keeps, >>=-Keeps, IsGood, IsGoodEnd, IsGoodSend, keep_time-Keeps, failed-Keeps,
}
use setka.Dns.Run.Replies.{IsTimely, handle_datagram-Keeps}
use setka.Dns.Run.Sends.{send_requests-Keeps}

module _ (u : Utki) (stack : Bytes) (meanwhile : Completion → LookupThread → LookupThread)
    (keeps : (c : Completion) (t : LookupThread)
      → IsConsistent t
      → IsConsistent (meanwhile c t)) where
  pub write_and_keep_time-Keeps :
      (fuel : ℕ) (e : Event) (s : Run)
      → IsGood s
      → Keeps IsGoodEnd (write_and_keep_time u stack meanwhile fuel e s)
  unfolding write_and_keep_time
  write_and_keep_time-Keeps fuel e s v = elim (Bool-cases e.can_write) [
    | inr reads ↦ rw reads (keep_time-Keeps u stack meanwhile keeps fuel e.cur_time s v)
    | inl writes ↦ rw writes (
        >>=-Keeps IsGoodSend IsGoodEnd _ _
          (send_requests-Keeps u stack meanwhile keeps fuel e.sends s v)
          λ r w. elim (Bool-cases r.1) [
            | inl throws ↦ rw throws (failed-Keeps u stack meanwhile keeps fuel r.0 w)
            | inr done ↦ rw done (keep_time-Keeps u stack meanwhile keeps fuel e.cur_time _ w)
          ])
  ]

  abbrev pub IsTimelyEvent : Run → Option Received → Type 0
  IsTimelyEvent s none = Unit {0}
  IsTimelyEvent s (some receive_throws) = Unit {0}
  IsTimelyEvent s (some (datagram buf size)) = IsTimely u stack meanwhile keeps s buf

  pub received-Keeps :
      (fuel : ℕ) (e : Event) (o : Option Received) (s : Run)
      → e.received ≡ o
      → e.has_error ≡ false
      → IsGood s
      → IsTimelyEvent s o
      → Keeps IsGoodEnd (round u stack meanwhile fuel e s)
  unfolding round
  received-Keeps fuel e none s q c v timely =
      rw (c, q, round) (write_and_keep_time-Keeps fuel e s v)
  received-Keeps fuel e (some receive_throws) s q c v timely =
      rw (c, q, round) (failed-Keeps u stack meanwhile keeps fuel s v)
  received-Keeps fuel e (some (datagram buf size)) s q c v timely =
      rw (c, q, round)
        (>>=-Keeps IsGood IsGoodEnd _ _
          (handle_datagram-Keeps u stack meanwhile keeps s buf size v timely)
          (write_and_keep_time-Keeps fuel e))

  -- A round of the loop uses no null or dangling pointer, whatever the socket, the clock and the
  -- callbacks do, and leaves the tables consistent if it ends: this for a thread with consistent
  -- tables, if what other threads do during a callback keeps them so, and if the round receives no
  -- reply to a request that is still to be sent.
  pub round-IsConsistent :
      (fuel : ℕ) (e : Event) (s : Run)
      → IsGood s
      → IsTimelyEvent s e.received
      → Keeps IsGoodEnd (round u stack meanwhile fuel e s)
  unfolding round
  round-IsConsistent fuel e s v timely = elim (Bool-cases e.has_error) [
    | inl broken ↦ rw broken (failed-Keeps u stack meanwhile keeps fuel s v)
    | inr fine ↦ received-Keeps fuel e e.received s refl fine v timely
  ]
