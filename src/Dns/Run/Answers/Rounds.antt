-- ===== src/Dns/Run/Answers/Rounds.antt =====
-- src/setka/dns_resolver.cpp, `LookupThread::run`: the account of a round, with its replies and its sending.
use setka.Prelude.{
  ℕ, zero, suc, ◌≡◌, ◌∙◌, refl, inl, inr, Bool, true, false, ◌&&◌, Option, none, some, List, ◌∷◌,
  arith, ◌==◌, List-cases, Bool-cases, Option-cases, ltb, bytes_eq, take, drop,
}
use setka.Utki.{Utki, Bytes}
use setka.Address.{of_v4, is_valid}
use setka.Std.Map
use setka.Dns.Name.{parse_host_name_from_dns_packet}
use setka.Dns.Query.{dns_record_a, dns_record_aaaa, packet_size}
use setka.Dns.Result.{ParseResult, error}
use setka.Dns.Reply.{parse_reply_from_dns}
use setka.Dns.Thread.{Resolver, LookupThread}
use setka.Dns.Thread.Consistent.{IsConsistent}
use setka.Dns.Run.{
  Completion, Run, Step, set_resolver, is_not_found, retry_with_a, finish_reply, match_reply,
  reply_id, handle_datagram, Sent, Attempt, attempt_throws, not_sent, all_sent, attempt,
  after_attempt, after_sending, send_requests, write_and_keep_time, Received, receive_throws,
  datagram, Event, round,
}
use setka.Dns.Run.Changes.{find-set_resolver}
use setka.Dns.Run.Keeps.{Keeps, >>=-Keeps, Keeps-if, deref-Keeps, IsGood, first_queued}
use setka.Dns.Run.Replies.{IsTimely, retry-IsGood}
use setka.Dns.Run.Sends.{directed, direct, found_owner, direct-IsGood, found-direct, sent-IsGood}
use setka.Dns.Run.Rounds.{IsTimelyEvent}
use setka.Dns.Run.Answers.{Accounts, Passed, complete-Accounts, keep_time-Passed, failed-Passed}

module _ (u : Utki) (stack : Bytes) (meanwhile : Completion → LookupThread → LookupThread)
    (keeps : (c : Completion) (t : LookupThread) → IsConsistent t → IsConsistent (meanwhile c t))
    (makes_no_calls : (c : Completion) (t : LookupThread) → meanwhile c t ≡ t) (k : ℕ → ℕ)
    (b : Bool) where
  -- A request that is changed in place is still there.
  Accounts-change :
      (s : Run) (s' : Run) (r0 r : Resolver)
      → Accounts k b s
      → Map.find r.hnr s.thread.resolvers_map ≡ some r0
      → r.id ≡ r0.id
      → r.time_map ≡ r0.time_map
      → r.time_key ≡ r0.time_key
      → s'.completed ≡ s.completed
      → s'.thread.resolvers_map ≡ (set_resolver r s.thread).resolvers_map
      → s'.thread.is_exiting ≡ s.thread.is_exiting
      → IsGood s'
      → Accounts k b s'
  Accounts-change s s' r0 r a found ids maps keys told_so same exits v = record {
    good = v;
    count = λ h.
        rw (told_so, same)
          (ground (arith, find-set_resolver s.thread r0 r a.good found ids maps keys h, a.count h));
    exits = exits ∙ a.exits;
  }

  finish_reply-Accounts :
      (s : Run) (h : ℕ) (r : Resolver) (res : ParseResult)
      → Accounts k b s
      → Map.find h s.thread.resolvers_map ≡ some r
      → r.is_queued ≡ false
      → Keeps (Accounts k b) (finish_reply u stack meanwhile s r res)
  unfolding finish_reply retry_with_a
  finish_reply-Accounts s h r res a found sent =
      let owned : Map.find r.hnr s.thread.resolvers_map ≡ some r =
        ground (arith, a.good.owner h r) in
      Keeps-if _ (is_not_found res.result && r.record_type == dns_record_aaaa) _ _
        (λ again.
          Accounts-change s _ r (record r { record_type = dns_record_a; is_queued = true }) a owned
            refl refl refl refl refl refl
            (retry-IsGood u stack meanwhile keeps s h r a.good found sent))
        λ done.
          complete-Accounts u stack meanwhile makes_no_calls k b s r.hnr res.result res.host r a
            owned

  match_reply-Accounts :
      (s : Run) (h : ℕ) (r : Resolver) (buf : Bytes) (size : ℕ)
      → Accounts k b s
      → Map.find h s.thread.resolvers_map ≡ some r
      → r.is_queued ≡ false
      → Keeps (Accounts k b) (match_reply u stack meanwhile s r buf size)
  unfolding match_reply
  match_reply-Accounts s h r buf size a found sent =
      Keeps-if _ (bytes_eq (parse_host_name_from_dns_packet (drop 12 buf)).0 r.host_name) _ _
        (λ same.
          elim (Option-cases (parse_reply_from_dns u r.host_name r.record_type (take size buf))) [
            | inl over ↦ rw (over, match_reply) tt
            | inr (res, e) ↦ rw (e, match_reply) (finish_reply-Accounts s h r res a found sent)
          ])
        λ differ. a

  handle_datagram-Accounts :
      (s : Run) (buf : Bytes) (size : ℕ)
      → Accounts k b s
      → IsTimely u stack meanwhile keeps s buf
      → Keeps (Accounts k b) (handle_datagram u stack meanwhile s buf size)
  unfolding handle_datagram
  handle_datagram-Accounts s buf size a timely =
      Keeps-if _ (ltb size 13) _ _ (λ short. a)
        λ long. elim (Option-cases (Map.find (reply_id u stack meanwhile buf) s.thread.id_map)) [
          | inl none_such ↦ rw (none_such, handle_datagram) a
          | inr (h, e) ↦
              let (r, found, same) = a.good.id_used _ h e in
              rw (e, handle_datagram)
                (deref-Keeps (Accounts k b) h s.thread r _ found
                  (match_reply-Accounts s h r buf size a found (timely h r e found)))
        ]

  abbrev AccountsSend : Run × Bool → Type 0
  AccountsSend r = Accounts k b r.0

  after_attempt-Accounts :
      (o : Attempt) (s : Run) (f : List Sent → Step (Run × Bool))
      → Accounts k b s
      → ((results : List Sent) → Keeps AccountsSend (f results))
      → Keeps AccountsSend (after_attempt o s f)
  after_attempt-Accounts attempt_throws s f a g = a
  after_attempt-Accounts not_sent s f a g = a
  after_attempt-Accounts (all_sent results) s f a g = g results

  module _ (s : Run) (h : ℕ) (l : List ℕ) (r : Resolver) (a : Accounts k b s)
      (first : s.thread.send_list ≡ h ∷ l) (found : Map.find h s.thread.resolvers_map ≡ some r)
      (queued_there : r.is_queued ≡ true) where
    direct-Accounts : Accounts k b (direct u stack meanwhile keeps s r)
    direct-Accounts =
        Accounts-change s _ r (directed u stack meanwhile keeps s r) a
          (found_owner u stack meanwhile keeps s h l r a.good first found queued_there) refl refl
          refl refl refl refl
          (direct-IsGood u stack meanwhile keeps s h l r a.good first found queued_there)

    sent-Accounts : Accounts k b (
        after_sending u stack meanwhile
          (direct u stack meanwhile keeps s r)
          (directed u stack meanwhile keeps s r)
          l)
    unfolding after_sending
    sent-Accounts =
        Accounts-change (direct u stack meanwhile keeps s r) _
          (directed u stack meanwhile keeps s r)
          (record (directed u stack meanwhile keeps s r) { is_queued = false }) direct-Accounts
          (found-direct u stack meanwhile keeps s h l r a.good first found queued_there) refl refl
          refl refl refl refl
          (sent-IsGood u stack meanwhile keeps s h l r a.good first found queued_there)

  send_requests-Accounts :
      (fuel : ℕ) (results : List Sent) (s : Run)
      → Accounts k b s
      → Keeps AccountsSend (send_requests u stack meanwhile fuel results s)
  unfolding send_requests
  send_requests-Accounts zero results s a = tt
  send_requests-Accounts (suc fuel) results s a = elim (List-cases s.thread.send_list) [
    | inl empty ↦ rw (empty, send_requests) a
    | inr (h, l, e) ↦
        let (r, found, q) = first_queued s.thread h l a.good e in
        rw (e, send_requests)
          (deref-Keeps AccountsSend h s.thread r _ found (
            Keeps-if _ (is_valid (directed u stack meanwhile keeps s r).dns.host) _ _
              (λ valid.
                after_attempt-Accounts (attempt (packet_size r.host_name) results)
                  (direct u stack meanwhile keeps s r) _ (direct-Accounts s h l r a e found q)
                  λ rs. send_requests-Accounts fuel rs _ (sent-Accounts s h l r a e found q))
              λ invalid.
                >>=-Keeps (Accounts k b) AccountsSend _ _
                  (complete-Accounts u stack meanwhile makes_no_calls k b
                    (direct u stack meanwhile keeps s r) r.hnr error (of_v4 0)
                    (directed u stack meanwhile keeps s r) (direct-Accounts s h l r a e found q)
                    (found-direct u stack meanwhile keeps s h l r a.good e found q))
                  (send_requests-Accounts fuel results)))
  ]

  abbrev Ended : Run × Option ℕ → Type 0
  Ended = Passed u stack meanwhile makes_no_calls k b

  write_and_keep_time-Passed :
      (fuel : ℕ) (e : Event) (s : Run)
      → Accounts k b s
      → Keeps Ended (write_and_keep_time u stack meanwhile fuel e s)
  unfolding write_and_keep_time
  write_and_keep_time-Passed fuel e s a =
      Keeps-if _ e.can_write _ _
        (λ writes. >>=-Keeps AccountsSend Ended _ _ (send_requests-Accounts fuel e.sends s a) λ r a.
          Keeps-if _ r.1 _ _
            (λ throws. failed-Passed u stack meanwhile makes_no_calls k b fuel r.0 a)
            λ done.
              keep_time-Passed u stack meanwhile makes_no_calls k b fuel e.cur_time _
                (record { good = a.good; count = a.count; exits = a.exits }))
        λ reads. keep_time-Passed u stack meanwhile makes_no_calls k b fuel e.cur_time s a

  received-Passed :
      (fuel : ℕ) (e : Event) (o : Option Received) (s : Run)
      → e.received ≡ o
      → e.has_error ≡ false
      → Accounts k b s
      → IsTimelyEvent u stack meanwhile keeps s o
      → Keeps Ended (round u stack meanwhile fuel e s)
  unfolding round
  received-Passed fuel e none s q c a timely =
      rw (c, q, round) (write_and_keep_time-Passed fuel e s a)
  received-Passed fuel e (some receive_throws) s q c a timely =
      rw (c, q, round) (failed-Passed u stack meanwhile makes_no_calls k b fuel s a)
  received-Passed fuel e (some (datagram buf size)) s q c a timely =
      rw (c, q, round)
        (>>=-Keeps (Accounts k b) Ended _ _ (handle_datagram-Accounts s buf size a timely)
          (write_and_keep_time-Passed fuel e))

  -- A round keeps account of each resolver: its reports and its requests are as many as before.
  pub round-Passed :
      (fuel : ℕ) (e : Event) (s : Run)
      → Accounts k b s
      → IsTimelyEvent u stack meanwhile keeps s e.received
      → Keeps Ended (round u stack meanwhile fuel e s)
  unfolding round
  round-Passed fuel e s a timely = elim (Bool-cases e.has_error) [
    | inl broken ↦ rw broken (failed-Passed u stack meanwhile makes_no_calls k b fuel s a)
    | inr fine ↦ received-Passed fuel e e.received s refl fine a timely
  ]
