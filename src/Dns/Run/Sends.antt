-- ===== src/Dns/Run/Sends.antt =====
-- The loop over the send list keeps the maps consistent.
use setka.Prelude.{
  ℕ, zero, suc, ◌≡◌, refl, inl, inr, Bool, true, false, some, List, ◌∷◌, arith, ◌==◌, ==_refl,
  if◌then◌else◌, List-cases, Bool-cases,
}
use setka.Utki.{Utki, Bytes}
use setka.Address.{of_v4, get_v4, is_valid}
use setka.Std.Map
use setka.Std.Sequence
use setka.Dns.Query.{packet_size}
use setka.Dns.Result.{error}
use setka.Dns.Thread.{Resolver, LookupThread}
use setka.Dns.Thread.Consistent.{IsConsistent}
use setka.Dns.Run.{
  Completion, Run, Step, set_resolver, Sent, Attempt, attempt_throws, not_sent, all_sent, attempt,
  after_attempt, after_sending, send_requests,
}
use setka.Dns.Run.Changes.{find-set_resolver, change-IsConsistent}
use setka.Dns.Run.Keeps.{
  Keeps, >>=-Keeps, deref-Keeps, IsGood, IsGoodSend, first_queued, complete-Keeps,
}

module _ (u : Utki) (stack : Bytes) (meanwhile : Completion → LookupThread → LookupThread)
    (keeps : (c : Completion) (t : LookupThread)
      → IsConsistent t
      → IsConsistent (meanwhile c t)) where
  -- The address that the first request of the send list is sent to.
  abbrev pub directed : Run → Resolver → Resolver
  directed s r = record r { dns = if get_v4 r.dns.host == 0 then s.thread.dns else r.dns }

  abbrev pub direct : Run → Resolver → Run
  direct s r = record s { thread = set_resolver (directed s r) s.thread }

  module _ (s : Run) (h : ℕ) (l : List ℕ) (r : Resolver) (v : IsGood s)
      (first : s.thread.send_list ≡ h ∷ l) (found : Map.find h s.thread.resolvers_map ≡ some r)
      (queued_there : r.is_queued ≡ true) where
    pub found_owner : Map.find r.hnr s.thread.resolvers_map ≡ some r
    found_owner = ground (arith, v.owner h r)

    pub direct-IsGood : IsGood (direct s r)
    direct-IsGood =
        change-IsConsistent s.thread r (directed s r) v found_owner refl refl refl
          s.thread.send_list λ i. ground (arith, v.sends i, found_owner)

    pub found-direct : Map.find r.hnr (direct s r).thread.resolvers_map ≡ some (directed s r)
    found-direct = ground (
      arith,
      find-set_resolver s.thread r (directed s r) v found_owner refl refl refl r.hnr,
      ==_refl r.hnr,
    )

    pub sent-IsGood : IsGood (after_sending u stack meanwhile (direct s r) (directed s r) l)
    unfolding Sequence.count after_sending
    sent-IsGood =
        change-IsConsistent (direct s r).thread (directed s r)
          (record (directed s r) { is_queued = false }) direct-IsGood found-direct refl refl refl l
          λ i. ground (arith, v.owner h r, direct-IsGood.sends i, found-direct)

  pub after_attempt-Keeps :
      (a : Attempt) (s : Run) (f : List Sent → Step (Run × Bool))
      → IsGood s
      → ((results : List Sent) → Keeps IsGoodSend (f results))
      → Keeps IsGoodSend (after_attempt a s f)
  after_attempt-Keeps attempt_throws s f v k = v
  after_attempt-Keeps not_sent s f v k = v
  after_attempt-Keeps (all_sent results) s f v k = k results

  pub send_requests-Keeps :
      (fuel : ℕ) (results : List Sent) (s : Run)
      → IsGood s
      → Keeps IsGoodSend (send_requests u stack meanwhile fuel results s)
  unfolding send_requests
  send_requests-Keeps zero results s v = tt
  send_requests-Keeps (suc fuel) results s v = elim (List-cases s.thread.send_list) [
    | inl empty ↦ rw (empty, send_requests) v
    | inr (h, l, e) ↦
        let (r, found, q) = first_queued s.thread h l v e in
        rw (e, send_requests)
          (deref-Keeps IsGoodSend h s.thread r _ found
            (elim (Bool-cases (is_valid (directed s r).dns.host)) [
              | inl valid ↦ rw valid (
                  after_attempt-Keeps (attempt (packet_size r.host_name) results) (direct s r) _
                    (direct-IsGood s h l r v e found q)
                    λ rs. send_requests-Keeps fuel rs _ (sent-IsGood s h l r v e found q))
              | inr invalid ↦ rw invalid (
                  >>=-Keeps IsGood IsGoodSend _ _
                    (complete-Keeps u stack meanwhile keeps (direct s r) r.hnr error (of_v4 0)
                      (directed s r) (direct-IsGood s h l r v e found q)
                      (found-direct s h l r v e found q))
                    (send_requests-Keeps fuel results))
            ]))
  ]
