-- ===== src/Dns/Run/Sending.antt =====
-- The loop over the send list ends, if callbacks do not add requests to the thread.
use setka.Prelude.{
  ℕ, zero, suc, ◌+◌, ◌≤◌, ◌<◌, ◌≡◌, refl, ap, inl, inr, Bool, true, false, none, some, List, [],
  ◌∷◌, arith, List-cases, Bool-cases, length,
}
use setka.Utki.{Utki, Bytes}
use setka.Address.{of_v4, is_valid}
use setka.Std.Map
use setka.Std.Map.{Map, IsSorted}
use setka.Std.Map.Laws.{Above-IsSorted, length-erase, length-insert, length-find}
use setka.Std.Sequence
use setka.Std.Sequence.Laws.{nothing_counted, count-erase, length-erase as length-erase_element}
use setka.Dns.Query.{packet_size}
use setka.Dns.Result.{error}
use setka.Dns.Thread.{Resolver, LookupThread}
use setka.Dns.Thread.Consistent.{IsConsistent}
use setka.Dns.Run.{
  Completion, Run, Step, deref, ◌>>=◌, set_resolver, Sent, Attempt, attempt_throws, not_sent,
  all_sent, attempt, after_attempt, after_sending, send_requests,
}
use setka.Dns.Run.Keeps.{first_queued}
use setka.Dns.Run.Sends.{directed, direct, found_owner, direct-IsGood, found-direct, sent-IsGood}
use setka.Dns.Run.Stops.{Stops, Stops-map, >>=-Stops, IsBounded, complete-Stops, predecessor}

-- A list in which each element is a key of a map, and stands once, is not longer than the map.
length-counted :
    {V : Type 0} (m : Map V) (l : List ℕ)
    → IsSorted m
    → ((h : ℕ) → Sequence.count h l ≤ 1)
    → ((h : ℕ) → Map.find h m ≡ none → Sequence.count h l ≡ 0)
    → length l ≤ length m
unfolding Map.find
length-counted [] l s once known = omega (arith, nothing_counted l (λ h. known h refl))
length-counted ((k, v) ∷ m) l s once known =
    let rest =
      length-counted m (Sequence.erase k l) (Above-IsSorted k m s)
        (λ h. ground (arith, count-erase h k l, once h))
        (λ h missing. ground (arith, count-erase h k l, once h, known h, missing)) in
    omega (arith, rest, length-erase_element k l)

pub length-set_resolver :
    (r : Resolver) (t : LookupThread) (r0 : Resolver) (n : ℕ)
    → Map.find r.hnr t.resolvers_map ≡ some r0
    → length t.resolvers_map ≤ n
    → length (set_resolver r t).resolvers_map ≤ n
length-set_resolver r t r0 zero found few = absurd (omega (arith, length-find r.hnr r0 _ found))
length-set_resolver r t r0 (suc n) found few = omega (
  arith,
  length-insert r.hnr r (Map.erase r.hnr t.resolvers_map),
  length-erase r.hnr n r0 t.resolvers_map found few,
)

length-send_list : (t : LookupThread) → IsConsistent t → length t.send_list ≤ length t.resolvers_map
length-send_list t v =
    length-counted t.resolvers_map t.send_list v.resolvers_sorted (λ h. ground (arith, v.sends h))
      (λ h missing. ground (arith, v.sends h))

-- Enough rounds for so many requests, besides one for each that is in the send list.
abbrev pub rounds : ℕ → ℕ
rounds zero = 0
rounds (suc n) = rounds n + n + 1

module _ (u : Utki) (stack : Bytes) (meanwhile : Completion → LookupThread → LookupThread)
    (keeps : (c : Completion) (t : LookupThread) → IsConsistent t → IsConsistent (meanwhile c t))
    (adds_none : (c : Completion) (t : LookupThread)
      → length (meanwhile c t).resolvers_map ≤ length t.resolvers_map) where
  -- So many requests at most, and not more in the send list than the fuel is enough for.
  abbrev pub IsFueled : ℕ → ℕ → Run → Type 0
  IsFueled n fuel s = IsBounded n s × (length s.thread.send_list + rounds n < fuel)

  abbrev pub IsBoundedSend : ℕ → Run × Bool → Type 0
  IsBoundedSend n r = IsBounded n r.0

  pub IsBounded-IsFueled :
      (n fuel : ℕ) (s : Run) → IsBounded n s → n + rounds n < fuel → IsFueled n fuel s
  IsBounded-IsFueled n fuel s b h = (b, omega (arith, length-send_list s.thread b.0, b.1))

  module _ (s : Run) (h : ℕ) (l : List ℕ) (r : Resolver) (n fuel : ℕ) (b : IsFueled n (suc fuel) s)
      (first : s.thread.send_list ≡ h ∷ l) (found : Map.find h s.thread.resolvers_map ≡ some r)
      (queued_there : r.is_queued ≡ true) where
    abbrev d : Resolver
    d = directed u stack meanwhile keeps s r

    direct-IsBounded : IsBounded n (direct u stack meanwhile keeps s r)
    direct-IsBounded = (
      direct-IsGood u stack meanwhile keeps s h l r b.0.0 first found queued_there,
      length-set_resolver d s.thread r n
          (found_owner u stack meanwhile keeps s h l r b.0.0 first found queued_there) b.0.1,
    )

    sent-IsFueled :
        IsFueled n fuel (after_sending u stack meanwhile (direct u stack meanwhile keeps s r) d l)
    unfolding after_sending
    sent-IsFueled = (
      (
        sent-IsGood u stack meanwhile keeps s h l r b.0.0 first found queued_there,
        length-set_resolver (record d { is_queued = false })
            (direct u stack meanwhile keeps s r).thread d n
            (found-direct u stack meanwhile keeps s h l r b.0.0 first found queued_there)
            direct-IsBounded.1,
      ),
      omega (arith, b.1, ap length first),
    )

  after_attempt-Stops :
      (n : ℕ) (a : Attempt) (s : Run) (f : List Sent → Step (Run × Bool))
      → IsBounded n s
      → ((results : List Sent) → Stops (IsBoundedSend n) (f results))
      → Stops (IsBoundedSend n) (after_attempt a s f)
  after_attempt-Stops n attempt_throws s f b k = b
  after_attempt-Stops n not_sent s f b k = b
  after_attempt-Stops n (all_sent results) s f b k = k results

  deref-Stops :
      (Q : Run × Bool → Type 0) (h : ℕ) (t : LookupThread) (r : Resolver)
      (f : Resolver → Step (Run × Bool))
      → Map.find h t.resolvers_map ≡ some r
      → Stops Q (f r)
      → Stops Q (deref h t >>= f)
  deref-Stops Q h t r f e k = rw (e, deref, ◌>>=◌, Stops) k

  -- The loop over the send list ends, in consistent tables with no more requests than there were: this
  -- from consistent tables with n requests at most, with more fuel than n + n (n + 1) / 2, if what other
  -- threads do during a callback keeps the tables consistent and adds no requests.
  pub send_requests-Stops :
      (n fuel : ℕ) (results : List Sent) (s : Run)
      → IsFueled n fuel s
      → Stops (IsBoundedSend n) (send_requests u stack meanwhile fuel results s)
  unfolding send_requests
  send_requests-Stops n zero results s b = absurd (omega (arith, b.1))
  send_requests-Stops n (suc fuel) results s b = elim (List-cases s.thread.send_list) [
    | inl empty ↦ rw (empty, send_requests) b.0
    | inr (h, l, e) ↦
        let (r, found, q) = first_queued s.thread h l b.0.0 e in
        let whole = direct-IsBounded s h l r n fuel b e found q in
        rw (e, send_requests)
          (deref-Stops (IsBoundedSend n) h s.thread r _ found
            (elim (Bool-cases (is_valid (directed u stack meanwhile keeps s r).dns.host)) [
              | inl valid ↦ rw valid (
                  after_attempt-Stops n (attempt (packet_size r.host_name) results)
                    (direct u stack meanwhile keeps s r) _ whole
                    λ rs.
                      send_requests-Stops n fuel rs _ (sent-IsFueled s h l r n fuel b e found q))
              | inr invalid ↦
                  let (n', fits) = predecessor n (omega (arith, length-find h r _ found, b.0.1)) in
                  let enough : rounds n ≡ rounds n' + n' + 1 = ap rounds fits in
                  rw invalid (
                    >>=-Stops (IsBounded n') _ _ _
                      (complete-Stops u stack meanwhile keeps adds_none n'
                        (direct u stack meanwhile keeps s r) r.hnr error (of_v4 0)
                        (directed u stack meanwhile keeps s r)
                        (whole.0, omega (arith, whole.1, fits))
                        (found-direct u stack meanwhile keeps s h l r b.0.0 e found q))
                      λ s' b'.
                        Stops-map _ _ (send_requests u stack meanwhile fuel results s')
                          (λ x bx. (bx.0, omega (arith, bx.1, fits)))
                          (send_requests-Stops n' fuel results s' (
                            IsBounded-IsFueled n' fuel s' b'
                              (omega (arith, b.1, enough, ap length e)))))
            ]))
  ]
