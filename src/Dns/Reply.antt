-- ===== src/Dns/Reply.antt =====
-- src/setka/dns_resolver.cpp, `LookupThread::ParseReplyFromDNS`. A pointer into the packet is the
-- list of the bytes from it to the end. One that was moved past the end has no bytes left either:
-- all that the code asks of it is whether `end - p` is below some number of bytes.
pub mod Stays
pub mod Reads
pub mod Compressed
pub mod Answers
pub mod Correct
use setka.Prelude.{
  ℕ, zero, suc, ◌/◌, Bool, not, Option, none, some, List, [], ◌∷◌, bit_and, ltb, ◌==◌,
  if◌then◌else◌, length, drop, bytes_eq,
}
use setka.Utki.{Utki, Bytes}
use setka.Address.{Ip, of_v4, of_quads}
use setka.Dns.Name.{parse_host_name_from_dns_packet}
use setka.Dns.Query.{dns_record_a, dns_record_aaaa}
use setka.Dns.Result.{ParseResult, failure, no_host, ok, not_found, dns_error}

-- A part of the function goes on with a value, returns from the function, or reads a byte that is
-- not in the packet.
pub data Outcome {ℓ} (A : Type ℓ) : Type ℓ where
  next : A → Outcome A
  return : ParseResult → Outcome A
  overread : Outcome A

infixl 5 ◌>>=◌ ◌>>◌
abbrev pub ◌>>=◌ {ℓ κ} : {A : Type ℓ} {B : Type κ} → Outcome A → (A → Outcome B) → Outcome B
next a >>= f = f a
return r >>= f = return r
overread >>= f = overread

abbrev pub ◌>>◌ {ℓ} : {B : Type ℓ} → Outcome (Unit {0}) → Outcome B → Outcome B
m >> k = m >>= λ _. k

-- `if(test) return ParseResult(result);`
abbrev pub return_if : Bool → ParseResult → Outcome (Unit {0})
return_if test r = if test then return r else next tt

-- `if(buf.end() - p < n) return ParseResult(dns_error);`
abbrev pub need : ℕ → Bytes → Outcome (Unit {0})
need n p = return_if (ltb (length p) n) (failure dns_error)

-- The loop over a name that stands in an answer: up to its zero byte, and past it.
pub skip_domain_name : Bytes → Outcome Bytes
skip_domain_name [] = return (failure dns_error)
skip_domain_name (c ∷ p) = if c == 0 then next p else skip_domain_name p

-- `(*p) >> 6 == 0` says that a name stands there; else a reference of two bytes does.
pub skip_owner : Bytes → Outcome Bytes
unfolding skip_domain_name
skip_owner [] = return (failure dns_error)
skip_owner (c ∷ p) = if c / 64 == 0 then skip_domain_name (c ∷ p) else next (drop 2 (c ∷ p))

-- The two high tests of the flags.
unfoldable pub check_flags : ℕ → Outcome (Unit {0})
check_flags flags =
    if bit_and flags 0x8000 == 0
    then return (failure dns_error)
    else if not (bit_and flags 0xf == 0)
    then (if bit_and flags 0xf == 3 then return (failure not_found) else return (failure dns_error))
    else next tt

-- `return ParseResult(ok, h);`
abbrev pub answered : Ip → Outcome ParseResult
answered h = return (record { result = ok; host = h })

module _ (u : Utki) where
  -- `utki::deserialize16be(p)`, and `p += 2`
  abbrev pub read16 : Bytes → Outcome (ℕ × Bytes)
  read16 [] = overread
  read16 (a ∷ []) = overread
  read16 (a ∷ b ∷ p) = next (u.deserialize16be a b, p)

  -- `utki::deserialize32be(p)`, and `p += 4`
  abbrev pub read32 : Bytes → Outcome (ℕ × Bytes)
  read32 (a ∷ b ∷ c ∷ d ∷ p) = next (u.deserialize32be a b c d, p)
  read32 _ = overread

  -- The `switch` over the type of an answer that is asked for.
  pub answer_host : ℕ → ℕ → Bytes → Outcome Ip
  answer_host type data_len p =
      if type == dns_record_a
      then (do return_if (ltb data_len 4) (failure dns_error); (h, _) ← read32 p; next (of_v4 h))
      else if type == dns_record_aaaa
      then (do
        return_if (ltb data_len 16) (failure dns_error)
        (q0, p4) ← read32 p
        (q1, p8) ← read32 p4
        (q2, p12) ← read32 p8
        (q3, _) ← read32 p12
        next (of_quads q0 q1 q2 q3))
      else next no_host

  -- An answer up to its data: its type, the length of its data, and the pointer to the data.
  pub answer_head : Bytes → Outcome (ℕ × ℕ × Bytes)
  unfolding skip_owner
  answer_head p = do
    p ← skip_owner p
    need 2 p
    (type, p) ← read16 p
    need 2 p
    let p = drop 2 p
    need 4 p
    let p = drop 4 p
    need 2 p
    (data_len, p) ← read16 p
    need data_len p
    next (type, data_len, p)

  -- The loop through the answers.
  pub parse_answers : ℕ → ℕ → Bytes → Outcome ParseResult
  parse_answers record_type zero p = return (failure dns_error)
  parse_answers record_type (suc n) p = do
    (type, data_len, p) ← answer_head p
    let later = parse_answers record_type n (drop data_len p)
    if type == record_type then (do h ← answer_host type data_len p; answered h) else later

  -- The question section: host name, type and class are those of the request.
  pub check_question : Bytes → ℕ → Bytes → Outcome Bytes
  check_question host_name record_type p = do
    let (host, p) = parse_host_name_from_dns_packet p
    return_if (not (bytes_eq host_name host)) (failure dns_error)
    (type, p) ← read16 p
    return_if (not (type == record_type)) (failure dns_error)
    (cls, p) ← read16 p
    return_if (not (cls == 1)) (failure dns_error)
    next p

  -- The header: the number of answers, and the pointer to the question.
  unfoldable pub check_header : Bytes → Outcome (ℕ × Bytes)
  check_header buf = do
    return_if (ltb (length buf) 12) (failure dns_error)
    let p = drop 2 buf
    (flags, p) ← read16 p
    check_flags flags
    (num_questions, p) ← read16 p
    return_if (not (num_questions == 1)) (failure dns_error)
    (num_answers, p) ← read16 p
    return_if (num_answers == 0) (failure not_found)
    next (num_answers, drop 2 (drop 2 p))

  pub parse_reply : Bytes → ℕ → Bytes → Outcome ParseResult
  parse_reply host_name record_type buf = do
    (num_answers, p) ← check_header buf
    p ← check_question host_name record_type p
    parse_answers record_type num_answers p

-- What the function returns; `none` if it read outside of the packet.
abbrev pub returned : Outcome ParseResult → Option ParseResult
returned (next r) = some r
returned (return r) = some r
returned overread = none

unfoldable pub parse_reply_from_dns : Utki → Bytes → ℕ → Bytes → Option ParseResult
unfolding parse_reply
parse_reply_from_dns u host_name record_type buf =
    returned (parse_reply u host_name record_type buf)
