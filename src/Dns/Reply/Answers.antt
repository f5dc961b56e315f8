-- ===== src/Dns/Reply/Answers.antt =====
-- DNS messages as values, the bytes that stand for them (RFC 1035), and what a lookup should make of
-- one. Nothing here follows the code's order of reading.
use setka.Prelude.{
  ℕ, ◌+◌, ◌*◌, ◌/◌, ◌%◌, ◌≤◌, ◌<◌, ◌≡◌, ◌≢◌, not, ◌&&◌, ◌||◌, List, [], ◌∷◌, ◌++◌, ltb, ◌==◌,
  if◌then◌else◌, length, drop, bytes_eq, All,
}
use setka.Utki.{Utki, Bytes, IsByte}
use setka.Address.{of_v4, of_quads}
use setka.Dns.Name.{write_host_name}
use setka.Dns.Name.RoundTrip.{IsLabel, dotted}
use setka.Dns.Query.{dns_record_a, dns_record_aaaa, put16}
use setka.Dns.Result.{ParseResult, failure, no_host, ok, not_found, dns_error}

-- The owner of a record: a reference to a name (its first byte has a high bit), or a name, whose
-- bytes before the final zero are not zero, and whose first label is short.
pub data Owner : Type 0 where
  reference : ℕ → ℕ → Owner
  name : Bytes → Owner

abbrev pub owner_bytes : Owner → Bytes
owner_bytes (reference c d) = c ∷ d ∷ []
owner_bytes (name s) = s ++ 0 ∷ []

abbrev pub BelowAtHead : Bytes → Type 0
BelowAtHead [] = Unit {0}
BelowAtHead (c ∷ s) = c < 64

abbrev pub IsOwner : Owner → Type 0
IsOwner (reference c d) = 64 ≤ c
IsOwner (name s) = BelowAtHead s × All (λ c. c ≢ 0) s

pub record Answer : Type 0 where
  pub owner : Owner
  pub type : ℕ
  pub cls : ℕ
  pub ttl : Bytes
  pub payload : Bytes

pub record IsAnswer (a : Answer) : Type 0 where
  pub owner_ok : IsOwner a.owner
  pub type_lt : a.type < 65536
  pub ttl_len : length a.ttl ≡ 4
  pub payload_lt : length a.payload < 65536
  pub payload_ok : All IsByte a.payload

pub record Message : Type 0 where
  pub id : ℕ
  pub flags : ℕ
  pub num_questions : ℕ
  pub authorities : ℕ
  pub additionals : ℕ
  pub labels : List Bytes
  pub question_type : ℕ
  pub question_cls : ℕ
  pub answers : List Answer
  pub trailer : Bytes

pub record IsMessage (m : Message) : Type 0 where
  pub flags_lt : m.flags < 65536
  pub num_questions_lt : m.num_questions < 65536
  pub labels_ok : All IsLabel m.labels
  pub question_type_lt : m.question_type < 65536
  pub question_cls_lt : m.question_cls < 65536
  pub answers_lt : length m.answers < 65536
  pub answers_ok : All IsAnswer m.answers

module _ (u : Utki) where
  abbrev pub answer_bytes : Answer → Bytes
  answer_bytes a =
      owner_bytes a.owner
      ++ (put16 u a.type ++ (put16 u a.cls ++ (a.ttl ++ (put16 u (length a.payload) ++ a.payload))))

  abbrev pub answers_bytes : List Answer → Bytes → Bytes
  answers_bytes [] rest = rest
  answers_bytes (a ∷ as') rest = answer_bytes a ++ answers_bytes as' rest

  abbrev pub question_bytes : Message → Bytes → Bytes
  question_bytes m rest =
      write_host_name (dotted m.labels)
      ++ (put16 u m.question_type ++ (put16 u m.question_cls ++ rest))

  unfoldable pub message_bytes : Message → Bytes
  message_bytes m =
      put16 u m.id
      ++ (put16 u m.flags
          ++ (put16 u m.num_questions
              ++ (put16 u (length m.answers)
                  ++ (put16 u m.authorities
                      ++ (put16 u m.additionals
                          ++ question_bytes m (answers_bytes m.answers m.trailer))))))

-- A 32-bit number, its highest byte first.
abbrev pub number32 : Bytes → ℕ
number32 (a ∷ b ∷ c ∷ d ∷ s) = ((a * 256 + b) * 256 + c) * 256 + d
number32 _ = 0

-- The result that the data of a record stands for.
unfoldable pub payload_result : ℕ → Bytes → ParseResult
payload_result type s =
    if type == dns_record_a
    then (if ltb (length s) 4
        then failure dns_error
        else record { result = ok; host = of_v4 (number32 s) })
    else if type == dns_record_aaaa
    then (if ltb (length s) 16 then failure dns_error else record {
      result = ok;
      host =
          of_quads (number32 s) (number32 (drop 4 s)) (number32 (drop 8 s)) (number32 (drop 12 s));
    })
    else record { result = ok; host = no_host }

-- The first record of the type that is asked for decides.
unfoldable pub first_match : ℕ → List Answer → ParseResult
first_match type [] = failure dns_error
first_match type (a ∷ as') =
    if a.type == type then payload_result a.type a.payload else first_match type as'

-- The response code is the number of the lowest four bits of the flags, and the highest bit says
-- that the message is a response.
unfoldable pub lookup_result : Bytes → ℕ → Message → ParseResult
lookup_result host type m =
    if m.flags / 32768 == 0
    then failure dns_error
    else if m.flags % 16 == 3
    then failure not_found
    else if not (m.flags % 16 == 0) || not (m.num_questions == 1)
    then failure dns_error
    else if length m.answers == 0
    then failure not_found
    else if not (bytes_eq host (dotted m.labels) && m.question_type == type && m.question_cls == 1)
    then failure dns_error
    else first_match type m.answers
