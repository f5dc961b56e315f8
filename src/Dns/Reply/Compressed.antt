-- ===== src/Dns/Reply/Compressed.antt =====
-- Answers whose owner is labels that end in a pointer (RFC 1035 4.1.4).
use setka.Prelude.{ℕ, suc, ◌*◌, ◌+◌, ◌<◌, ◌≡◌, ◌≢◌, refl, [], ◌∷◌, ◌++◌, All, length, arith}
use setka.Utki.{Utki, Bytes, IsByte}
use setka.Dns.Result.{failure, dns_error}
use setka.Dns.Reply.{next, return, skip_domain_name, skip_owner, answer_head, parse_answers}

skip_labels :
    (s : Bytes) (c d : ℕ) (rest : Bytes)
    → All (λ b. b ≢ 0) s
    → c ≢ 0
    → d ≢ 0
    → skip_domain_name (s ++ (c ∷ d ∷ 0 ∷ rest)) ≡ next rest
unfolding skip_domain_name
skip_labels [] c d rest h no_c no_d = ground arith
skip_labels (b ∷ s) c d rest h no_c no_d = ground (arith, skip_labels s c d rest h.1 no_c no_d)

skip_compressed :
    (a : ℕ) (s : Bytes) (c d : ℕ) (rest : Bytes)
    → a < 64
    → a ≢ 0
    → All (λ b. b ≢ 0) s
    → c ≢ 0
    → d ≢ 0
    → skip_owner (a ∷ s ++ (c ∷ d ∷ 0 ∷ rest)) ≡ next rest
unfolding skip_owner
skip_compressed a s c d rest low no_a h no_c no_d =
    ground (arith, skip_labels (a ∷ s) c d rest (no_a, h) no_c no_d)

module _ (u : Utki) where
  -- The length is read from the last byte of the length and the first byte of the data.
  head_fails :
      (p : Bytes) (type t0 t1 t2 t3 len b : ℕ) (rest : Bytes)
      → skip_owner p ≡ next (type ∷ 0 ∷ 1 ∷ t0 ∷ t1 ∷ t2 ∷ t3 ∷ 0 ∷ len ∷ b ∷ rest)
      → u.deserialize16be len b ≡ len * 256 + b
      → length rest < len * 256 + b
      → answer_head u p ≡ return (failure dns_error)
  unfolding answer_head
  head_fails p type t0 t1 t2 t3 len b rest skipped wrong short =
      rw skipped (ground (arith, wrong, short))

  -- When the next answer has an owner of labels that end in a pointer, all of bytes that are not zero, and
  -- a type below 256, the class 1 and from 1 to 255 bytes of data, then the parser returns dns_error,
  -- whatever record is asked for, unless as many bytes follow the first one of the data as 256 times the
  -- length of the data and this byte.
  pub parse_answers-compressed :
      (record_type n a : ℕ) (s : Bytes) (c d type t0 t1 t2 t3 len b : ℕ) (rest : Bytes)
      → a < 64
      → a ≢ 0
      → All (λ b. b ≢ 0) s
      → c ≢ 0
      → d ≢ 0
      → IsByte len
      → IsByte b
      → length rest < len * 256 + b
      → parse_answers u record_type
          (suc n)
          (a ∷ s ++ (c ∷ d ∷ 0 ∷ type ∷ 0 ∷ 1 ∷ t0 ∷ t1 ∷ t2 ∷ t3 ∷ 0 ∷ len ∷ b ∷ rest))
        ≡ return (failure dns_error)
  unfolding parse_answers
  parse_answers-compressed record_type n a s c d type t0 t1 t2 t3 len b rest low no_a h no_c no_d
        len_lt b_lt short =
      rw
        (head_fails (a ∷ s ++ (c ∷ d ∷ 0 ∷ type ∷ 0 ∷ 1 ∷ t0 ∷ t1 ∷ t2 ∷ t3 ∷ 0 ∷ len ∷ b ∷ rest))
          type t0 t1 t2 t3 len b rest
          (skip_compressed a s c d (type ∷ 0 ∷ 1 ∷ t0 ∷ t1 ∷ t2 ∷ t3 ∷ 0 ∷ len ∷ b ∷ rest) low no_a
            h no_c no_d)
          (u.deserialize16be_lem len b len_lt b_lt) short)
        refl
