-- ===== src/Dns/Reply/Correct.antt =====
-- The parser returns what the message stands for.
use setka.Prelude.{
  ℕ, ◌/◌, ◌%◌, ◌≤◌, ◌<◌, ◌≡◌, ◌≢◌, refl, ap, ◌∙◌, inl, inr, not, ◌&&◌, ◌||◌, some, List, [], ◌∷◌,
  ◌++◌, append_assoc, arith, tests, ltb, ◌==◌, if◌then◌else◌, length, drop, length-append, All-drop,
  length-drop, drop-drop, drop-append, bytes_eq, All, Bool-cases,
}
use setka.Prelude.Bits.{bit_and_fifteen, bit_and_sign}
use setka.Utki.{Utki, Bytes, IsByte}
use setka.Dns.Name.RoundTrip.{dotted, parse-write_host_name}
use setka.Dns.Query.{put16, dns_record_a, dns_record_aaaa}
use setka.Dns.Result.{failure, not_found, dns_error}
use setka.Dns.Reply.{
  next, return, ◌>>=◌, skip_domain_name, skip_owner, check_flags, answered, read16, read32,
  answer_host, answer_head, parse_answers, check_question, check_header, parse_reply_from_dns,
}
use setka.Dns.Reply.Answers.{
  Owner, reference, name, owner_bytes, IsOwner, Answer, IsAnswer, Message, IsMessage, answer_bytes,
  answers_bytes, question_bytes, message_bytes, number32, payload_result, first_match,
  lookup_result,
}

skip_name : (s rest : Bytes) → All (λ c. c ≢ 0) s → skip_domain_name (s ++ 0 ∷ rest) ≡ next rest
unfolding skip_domain_name
skip_name [] rest h = refl
skip_name (c ∷ s) rest h = ground (arith, skip_name s rest h.1)

skip_owner_bytes :
    (o : Owner) (rest : Bytes) → IsOwner o → skip_owner (owner_bytes o ++ rest) ≡ next rest
unfolding skip_owner
skip_owner_bytes (reference c d) rest h = ground arith
skip_owner_bytes (name []) rest h = unfold skip_domain_name in refl
skip_owner_bytes (name (c ∷ s)) rest h =
    rw (append_assoc s (0 ∷ []) rest) (ground (arith, skip_name (c ∷ s) rest h.1))

module _ (u : Utki) where
  deserialize16be-serialize16be :
      (v : ℕ) → v < 65536 → u.deserialize16be ((u.serialize16be v).0) ((u.serialize16be v).1) ≡ v
  deserialize16be-serialize16be v h =
      rw (u.serialize16be_lem v h)
        (u.deserialize16be_lem (v / 256) (v % 256) (omega arith) (omega arith) ∙ omega arith)

  read16-put16 : (v : ℕ) (rest : Bytes) → v < 65536 → read16 u (put16 u v ++ rest) ≡ next (v, rest)
  read16-put16 v rest h = ap (λ (n : ℕ). next (n, rest)) (deserialize16be-serialize16be v h)

  read32-number32 :
      (s rest : Bytes)
      → All IsByte s
      → 4 ≤ length s
      → read32 u (s ++ rest) ≡ next (number32 s, drop 4 s ++ rest)
  read32-number32 [] rest h k = absurd (omega arith)
  read32-number32 (a ∷ []) rest h k = absurd (omega arith)
  read32-number32 (a ∷ b ∷ []) rest h k = absurd (omega arith)
  read32-number32 (a ∷ b ∷ c ∷ []) rest h k = absurd (omega arith)
  read32-number32 (a ∷ b ∷ c ∷ d ∷ s) rest h k =
      ap (λ (n : ℕ). next (n, s ++ rest))
        (u.deserialize32be_lem a b c d h.0 h.1.0 h.1.1.0 h.1.1.1.0)

  -- An answer behind its owner.
  answer_head-behind :
      (p : Bytes) (t1 t2 c1 c2 : ℕ) (ttl : Bytes) (l1 l2 : ℕ) (s rest : Bytes)
      → skip_owner p ≡ next (t1 ∷ t2 ∷ c1 ∷ c2 ∷ (ttl ++ (l1 ∷ l2 ∷ (s ++ rest))))
      → length ttl ≡ 4
      → u.deserialize16be l1 l2 ≡ length s
      → answer_head u p ≡ next (u.deserialize16be t1 t2, length s, s ++ rest)
  unfolding answer_head
  answer_head-behind p t1 t2 c1 c2 [] l1 l2 s rest e f g = absurd (omega arith)
  answer_head-behind p t1 t2 c1 c2 (a ∷ []) l1 l2 s rest e f g = absurd (omega arith)
  answer_head-behind p t1 t2 c1 c2 (a ∷ b ∷ []) l1 l2 s rest e f g = absurd (omega arith)
  answer_head-behind p t1 t2 c1 c2 (a ∷ b ∷ c ∷ []) l1 l2 s rest e f g = absurd (omega arith)
  answer_head-behind p t1 t2 c1 c2 (a ∷ b ∷ c ∷ d ∷ []) l1 l2 s rest e f g =
      rw e (ground (arith, length-append s rest))
  answer_head-behind p t1 t2 c1 c2 (a ∷ b ∷ c ∷ d ∷ x ∷ t) l1 l2 s rest e f g = absurd (omega arith)

  answer_head-bytes :
      (a : Answer) (rest : Bytes)
      → IsAnswer a
      → answer_head u (answer_bytes u a ++ rest)
        ≡ next (a.type, length a.payload, a.payload ++ rest)
  answer_head-bytes a rest h =
      let o = owner_bytes a.owner in
      let tail : Bytes = put16 u (length a.payload) ++ (a.payload ++ rest) in
      let joined : answer_bytes u a ++ rest
          ≡ o ++ (put16 u a.type ++ (put16 u a.cls ++ (a.ttl ++ tail))) =
        simp append_assoc in
      rw joined (
        answer_head-behind _ _ _ _ _ a.ttl _ _ a.payload rest
          (skip_owner_bytes a.owner _ h.owner_ok) h.ttl_len
          (deserialize16be-serialize16be (length a.payload) h.payload_lt)
        ∙ ap (λ (n : ℕ). next (n, length a.payload, a.payload ++ rest))
            (deserialize16be-serialize16be a.type h.type_lt))

  answer_host-payload :
      (rt : ℕ) (s rest : Bytes)
      → All IsByte s
      → (answer_host u rt (length s) (s ++ rest) >>= answered) ≡ return (payload_result rt s)
  unfolding answer_host payload_result
  answer_host-payload rt s rest h = elim (Bool-cases (rt == dns_record_a)) [
    | inl a ↦ rw a (elim (Bool-cases (ltb (length s) 4)) [
      | inl short ↦ rw short refl
      | inr long ↦ rw long (rw (read32-number32 s rest h (omega (tests, long))) refl)
    ])
    | inr other ↦ rw other (elim (Bool-cases (rt == dns_record_aaaa)) [
      | inl aaaa ↦ rw aaaa (elim (Bool-cases (ltb (length s) 16)) [
        | inl short ↦ rw short refl
        | inr long ↦
            let fits : 16 ≤ length s = omega (tests, long) in
            let second =
              read32-number32 (drop 4 s) rest (All-drop IsByte 4 s h)
                (omega (arith, length-drop 4 s)) in
            let third =
              read32-number32 (drop 8 s) rest (All-drop IsByte 8 s h)
                (omega (arith, length-drop 8 s)) in
            let fourth =
              read32-number32 (drop 12 s) rest (All-drop IsByte 12 s h)
                (omega (arith, length-drop 12 s)) in
            rw long (
              rw
                (
                  read32-number32 s rest h (omega arith),
                  second,
                  drop-drop 4 4 s,
                  third,
                  drop-drop 4 8 s,
                  fourth,
                )
                refl)
      ])
      | inr unknown ↦ rw unknown refl
    ])
  ]

  parse_answers-bytes :
      (rt : ℕ) (as' : List Answer) (rest : Bytes)
      → All IsAnswer as'
      → parse_answers u rt (length as') (answers_bytes u as' rest) ≡ return (first_match rt as')
  unfolding parse_answers first_match
  parse_answers-bytes rt [] rest h = refl
  parse_answers-bytes rt (a ∷ as') rest h =
      rw (answer_head-bytes a (answers_bytes u as' rest) h.0) (elim (Bool-cases (a.type == rt)) [
        | inl hit ↦
            rw hit (answer_host-payload a.type a.payload (answers_bytes u as' rest) h.0.payload_ok)
        | inr miss ↦ rw miss (rw drop-append (parse_answers-bytes rt as' rest h.1))
      ])

  check_flags_value :
      (flags : ℕ)
      → flags < 65536
      → check_flags flags ≡ (
          if flags / 32768 == 0
          then return (failure dns_error)
          else if flags % 16 == 3
          then return (failure not_found)
          else if not (flags % 16 == 0)
          then return (failure dns_error)
          else next tt)
  unfolding check_flags
  check_flags_value flags h = ground (arith, bit_and_fifteen flags, bit_and_sign flags)

  check_header_value :
      (m : Message)
      → IsMessage m
      → check_header u (message_bytes u m) ≡ (
          if m.flags / 32768 == 0
          then return (failure dns_error)
          else if m.flags % 16 == 3
          then return (failure not_found)
          else if not (m.flags % 16 == 0) || not (m.num_questions == 1)
          then return (failure dns_error)
          else if length m.answers == 0
          then return (failure not_found)
          else next (length m.answers, question_bytes u m (answers_bytes u m.answers m.trailer)))
  unfolding check_header message_bytes
  check_header_value m h = ground (
    arith,
    deserialize16be-serialize16be m.flags h.flags_lt,
    deserialize16be-serialize16be m.num_questions h.num_questions_lt,
    deserialize16be-serialize16be (length m.answers) h.answers_lt,
    check_flags_value m.flags h.flags_lt,
  )

  check_question_value :
      (host : Bytes) (rt : ℕ) (m : Message) (rest : Bytes)
      → IsMessage m
      → check_question u host rt (question_bytes u m rest) ≡ (
          if not (bytes_eq host (dotted m.labels) && m.question_type == rt && m.question_cls == 1)
          then return (failure dns_error)
          else next rest)
  unfolding check_question
  check_question_value host rt m rest h = rw (parse-write_host_name m.labels _ h.labels_ok) (
      ground (
        arith,
        deserialize16be-serialize16be m.question_type h.question_type_lt,
        deserialize16be-serialize16be m.question_cls h.question_cls_lt,
      ))

  -- On the bytes of a message in which the owner of each answer is a pointer alone or a name without one, of
  -- bytes that are not zero, and with any bytes behind the answers, the parser returns what the message
  -- stands for; so it also reads nothing outside of the packet.
  pub parse_reply-message :
      (host : Bytes) (rt : ℕ) (m : Message)
      → IsMessage m
      → parse_reply_from_dns u host rt (message_bytes u m) ≡ some (lookup_result host rt m)
  unfolding parse_reply_from_dns lookup_result
  parse_reply-message host rt m h =
      let rest = answers_bytes u m.answers m.trailer in
      ground (
        arith,
        check_header_value m h,
        check_question_value host rt m rest h,
        parse_answers-bytes rt m.answers m.trailer h.answers_ok,
      )
