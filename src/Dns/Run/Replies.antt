-- ===== src/Dns/Run/Replies.antt =====
-- The handling of a datagram keeps the maps consistent, if it is for no request that is still to be
-- sent.
use setka.Prelude.{
  ℕ, ◌≡◌, refl, inl, inr, false, ◌&&◌, some, arith, ◌==◌, ltb, Option-cases, Bool-cases, bytes_eq,
  take, drop,
}
use setka.Utki.{Utki, Bytes}
use setka.Std.Map
use setka.Std.Sequence.Laws.{count-push_back}
use setka.Dns.Name.{parse_host_name_from_dns_packet}
use setka.Dns.Query.{dns_record_aaaa}
use setka.Dns.Result.{ParseResult}
use setka.Dns.Reply.{parse_reply_from_dns}
use setka.Dns.Thread.{other, Resolver, LookupThread}
use setka.Dns.Thread.Consistent.{IsConsistent}
use setka.Dns.Run.{
  Completion, Run, is_not_found, retry_with_a, finish_reply, match_reply, reply_id, handle_datagram,
}
use setka.Dns.Run.Changes.{change-IsConsistent}
use setka.Dns.Run.Keeps.{Keeps, deref-Keeps, IsGood, complete-Keeps}

module _ (u : Utki) (stack : Bytes) (meanwhile : Completion → LookupThread → LookupThread)
    (keeps : (c : Completion) (t : LookupThread)
      → IsConsistent t
      → IsConsistent (meanwhile c t)) where
  pub retry-IsGood :
      (s : Run) (h : ℕ) (r : Resolver)
      → IsGood s
      → Map.find h s.thread.resolvers_map ≡ some r
      → r.is_queued ≡ false
      → IsGood (retry_with_a u stack meanwhile s r)
  unfolding retry_with_a
  retry-IsGood s h r v found sent =
      change-IsConsistent s.thread r _ v (ground (arith, v.owner h r)) refl refl refl _
        λ i. ground (arith, count-push_back i r.hnr s.thread.send_list, v.sends i, v.owner h r)

  pub finish_reply-Keeps :
      (s : Run) (h : ℕ) (r : Resolver) (res : ParseResult)
      → IsGood s
      → Map.find h s.thread.resolvers_map ≡ some r
      → r.is_queued ≡ false
      → Keeps IsGood (finish_reply u stack meanwhile s r res)
  unfolding finish_reply
  finish_reply-Keeps s h r res v found sent =
      elim (Bool-cases (is_not_found res.result && r.record_type == dns_record_aaaa)) [
        | inl again ↦ rw again (retry-IsGood s h r v found sent)
        | inr done ↦ rw done (
            complete-Keeps u stack meanwhile keeps s r.hnr res.result res.host r v
              (ground (arith, v.owner h r)))
      ]

  pub match_reply-Keeps :
      (s : Run) (h : ℕ) (r : Resolver) (buf : Bytes) (size : ℕ)
      → IsGood s
      → Map.find h s.thread.resolvers_map ≡ some r
      → r.is_queued ≡ false
      → Keeps IsGood (match_reply u stack meanwhile s r buf size)
  unfolding match_reply
  match_reply-Keeps s h r buf size v found sent =
      elim (Bool-cases (bytes_eq (parse_host_name_from_dns_packet (drop 12 buf)).0 r.host_name)) [
        | inr other ↦ rw other v
        | inl same ↦
            rw same
              (elim (Option-cases
                (parse_reply_from_dns u r.host_name r.record_type (take size buf))) [
                  | inl over ↦ rw (over, match_reply) tt
                  | inr (res, e) ↦ rw (e, match_reply) (finish_reply-Keeps s h r res v found sent)
                ])
      ]

  -- The datagram is for no request that is still to be sent.
  abbrev pub IsTimely : Run → Bytes → Type 0
  IsTimely s buf =
      (h : ℕ) (r : Resolver)
      → Map.find (reply_id u stack meanwhile buf) s.thread.id_map ≡ some h
      → Map.find h s.thread.resolvers_map ≡ some r
      → r.is_queued ≡ false

  pub handle_datagram-Keeps :
      (s : Run) (buf : Bytes) (size : ℕ)
      → IsGood s
      → IsTimely s buf
      → Keeps IsGood (handle_datagram u stack meanwhile s buf size)
  unfolding handle_datagram
  handle_datagram-Keeps s buf size v timely = elim (Bool-cases (ltb size 13)) [
    | inl short ↦ rw short v
    | inr long ↦
        rw long (elim (Option-cases (Map.find (reply_id u stack meanwhile buf) s.thread.id_map)) [
          | inl none_such ↦ rw (none_such, handle_datagram) v
          | inr (h, e) ↦
              let (r, found, same) = v.id_used _ h e in
              rw (e, handle_datagram)
                (deref-Keeps IsGood h s.thread r _ found
                  (match_reply-Keeps s h r buf size v found (timely h r e found)))
        ])
  ]
