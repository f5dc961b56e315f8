-- ===== src/Dns/Reply/Reads.antt =====
-- Which reads of a reply can leave the packet.
use setka.Prelude.{
  ℕ, zero, suc, ◌≤◌, ◌<◌, ◌≡◌, ◌≢◌, tests, ltb→le, refl, sym, ◌⊎◌, inl, inr, not, none, [], ◌∷◌,
  arith, ltb, ◌==◌, ==_refl, length, drop, length-drop, drop-drop, bytes_eq, bytes_eq_sound,
  bytes_eq_refl, Bool-cases,
}
use setka.Utki.{Utki, Bytes}
use setka.Dns.Query.{dns_record_a, dns_record_aaaa}
use setka.Dns.Name.{parse_host_name_from_dns_packet}
use setka.Dns.Result.{ParseResult, failure, dns_error, not_found}
use setka.Dns.Reply.{
  Outcome, next, return, overread, skip_owner, check_flags, read16, answer_host, answer_head,
  parse_answers, check_question, check_header, parse_reply, parse_reply_from_dns, returned,
}
use setka.Dns.Reply.Stays.{
  Stays, Any, >>=-Stays, return_if-Stays, need-Stays, skip_owner-Stays, check_flags-Stays,
  read16-Stays, read32-Stays,
}

returned-Stays : (o : Outcome ParseResult) → Stays Any o → returned o ≢ none
returned-Stays (next r) h e = cc
returned-Stays (return r) h e = cc
returned-Stays overread h e = h

module _ (u : Utki) where
  -- The head of an answer is read within the packet, and its data lies in it.
  answer_head-Stays : (p : Bytes) → Stays (λ r. r.1 ≤ length r.2) (answer_head u p)
  unfolding answer_head
  answer_head-Stays p = >>=-Stays Any _ (skip_owner p) _ (skip_owner-Stays p) λ p1 _.
      need-Stays _ 2 p1 _ λ h1. read16-Stays u _ p1 _ h1 λ type. need-Stays _ 2 (drop 2 p1) _ λ _.
        need-Stays _ 4 (drop 2 (drop 2 p1)) _ λ _.
          let p2 = drop 4 (drop 2 (drop 2 p1)) in
          need-Stays _ 2 p2 _
            λ h2. read16-Stays u _ p2 _ h2 λ data_len. need-Stays _ data_len (drop 2 p2) _ λ h3. h3

  -- An answer's data is long enough for the address that is read from it.
  answer_host-Stays : (t d : ℕ) (p : Bytes) → d ≤ length p → Stays Any (answer_host u t d p)
  unfolding answer_host
  answer_host-Stays t d p h = elim (Bool-cases (t == dns_record_a)) [
    | inl a ↦ rw a (
        return_if-Stays Any (ltb d 4) (failure dns_error) _
          λ e. read32-Stays u Any p _ (omega (tests, h, e)) λ _. tt)
    | inr other ↦ rw other (elim (Bool-cases (t == dns_record_aaaa)) [
      | inl aaaa ↦ rw aaaa (
          return_if-Stays Any (ltb d 16) (failure dns_error) _ λ e.
            let long : 16 ≤ length p = omega (tests, h, e) in
            let p4 = drop 4 p in
            let p8 = drop 4 p4 in
            let p12 = drop 4 p8 in
            read32-Stays u Any p _ (omega arith) λ _.
              read32-Stays u Any p4 _ (omega (arith, length-drop 4 p)) λ _.
                read32-Stays u Any p8 _ (omega (arith, length-drop 4 p, length-drop 4 p4)) λ _.
                  read32-Stays u Any p12 _
                    (omega (arith, length-drop 4 p, length-drop 4 p4, length-drop 4 p8)) λ _. tt)
      | inr unknown ↦ rw unknown tt
    ])
  ]

  parse_answers-Stays : (rt n : ℕ) (p : Bytes) → Stays Any (parse_answers u rt n p)
  unfolding parse_answers
  parse_answers-Stays rt zero p = tt
  parse_answers-Stays rt (suc n) p =
      >>=-Stays (λ r. r.1 ≤ length r.2) _ (answer_head u p) _ (answer_head-Stays p)
        λ r h. elim (Bool-cases (r.0 == rt)) [
          | inl hit ↦ rw hit (
              >>=-Stays Any _ (answer_host u r.0 r.1 r.2) _ (answer_host-Stays r.0 r.1 r.2 h)
                λ _ _. tt)
          | inr miss ↦ rw miss (parse_answers-Stays rt n (drop r.1 r.2))
        ]

  check_header-Stays :
      (buf : Bytes) → Stays (λ r. (12 ≤ length buf) × (r.1 ≡ drop 12 buf)) (check_header u buf)
  unfolding check_header
  check_header-Stays buf = return_if-Stays _ (ltb (length buf) 12) (failure dns_error) _ λ e.
      let long : 12 ≤ length buf = ltb→le (length buf) 12 e in
      let p2 = drop 2 buf in
      let p4 = drop 2 p2 in
      let p6 = drop 2 p4 in
      let p8 = drop 2 p6 in
      read16-Stays u _ p2 _ (omega (arith, length-drop 2 buf)) λ flags.
        >>=-Stays Any _ (check_flags flags) _ (check_flags-Stays flags) λ _ _.
          read16-Stays u _ p4 _ (omega (arith, length-drop 2 buf, length-drop 2 p2)) λ questions.
            return_if-Stays _ (not (questions == 1)) (failure dns_error) _ λ _.
              read16-Stays u _ p6 _
                (omega (arith, length-drop 2 buf, length-drop 2 p2, length-drop 2 p4))
                λ answers.
                  return_if-Stays _ (answers == 0) (failure not_found) _ λ _. (long, simp drop-drop)

  check_question-Stays :
      (host : Bytes) (rt : ℕ) (p : Bytes)
      → ((parse_host_name_from_dns_packet p).0 ≡ host
          → 4 ≤ length (parse_host_name_from_dns_packet p).1)
      → Stays Any (check_question u host rt p)
  unfolding check_question
  check_question-Stays host rt p h =
      let (name, q) = parse_host_name_from_dns_packet p in
      return_if-Stays _ (not (bytes_eq host name)) (failure dns_error) _ λ e.
        let long = h (sym (bytes_eq_sound host name (ground arith))) in
        read16-Stays u _ q _ (omega arith) λ type.
          return_if-Stays _ (not (type == rt)) (failure dns_error) _ λ _.
            read16-Stays u _ (drop 2 q) _ (omega (arith, length-drop 2 q))
              λ cls. return_if-Stays _ (not (cls == 1)) (failure dns_error) _ λ _. tt

  parse_reply-Stays :
      (host : Bytes) (rt : ℕ) (buf : Bytes)
      → ((parse_host_name_from_dns_packet (drop 12 buf)).0 ≡ host
          → 4 ≤ length (parse_host_name_from_dns_packet (drop 12 buf)).1)
      → Stays Any (parse_reply u host rt buf)
  unfolding parse_reply
  parse_reply-Stays host rt buf h =
      >>=-Stays _ _ (check_header u buf) _ (check_header-Stays buf) λ r k.
        >>=-Stays Any _ (check_question u host rt r.1) _
          (check_question-Stays host rt r.1 (rw k.1 h)) λ p _. parse_answers-Stays rt r.0 p

  -- The only reads that can leave the packet are those of the question's type and class: they stay
  -- in it if four bytes follow the host name, where that is the name that was asked for.
  pub parse_reply-reads :
      (host : Bytes) (rt : ℕ) (buf : Bytes)
      → ((parse_host_name_from_dns_packet (drop 12 buf)).0 ≡ host
          → 4 ≤ length (parse_host_name_from_dns_packet (drop 12 buf)).1)
      → parse_reply_from_dns u host rt buf ≢ none
  unfolding parse_reply_from_dns
  parse_reply-reads host rt buf h =
      returned-Stays (parse_reply u host rt buf) (parse_reply-Stays host rt buf h)

  read16_short : (p : Bytes) → length p < 2 → read16 u p ≡ overread
  read16_short [] h = refl
  read16_short (a ∷ []) h = refl
  read16_short (a ∷ b ∷ p) h = absurd (omega arith)

  -- The question ends too early: in its type, or behind a type that is the one asked for.
  abbrev pub IsCut : ℕ → Bytes → Type 0
  IsCut rt q =
      (length q < 2)
      ⊎ ((a b : ℕ) × (c : Bytes) × (q ≡ a ∷ b ∷ c) × (u.deserialize16be a b ≡ rt) × (length c < 2))

  -- And they do leave it: a reply with an accepted header that has the right host name, and ends in
  -- the type or the class behind it, makes the function read outside of the packet.
  pub parse_reply_overread :
      (host : Bytes) (rt : ℕ) (buf : Bytes) (n : ℕ) (p q : Bytes)
      → check_header u buf ≡ next (n, p)
      → parse_host_name_from_dns_packet p ≡ (host, q)
      → IsCut rt q
      → parse_reply_from_dns u host rt buf ≡ none
  unfolding parse_reply_from_dns check_question
  parse_reply_overread host rt buf n p q header name (inl cut) =
      rw (header, name) (rw (bytes_eq_refl host, read16_short q cut) refl)
  parse_reply_overread host rt buf n p q header name (inr (a, b, c, e, type, cut)) =
      rw (header, name, e) (rw (bytes_eq_refl host, type, ==_refl rt, read16_short c cut) refl)
