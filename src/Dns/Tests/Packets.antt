-- ===== src/Dns/Tests/Packets.antt =====
-- Packets: names, requests and replies.
use setka.Prelude.{
  ℕ, ◌≡◌, ◌≢◌, refl, inl, none, some, List, [], ◌∷◌, ◌++◌, arith, length, drop, replicate, ◌<◌,
}
use setka.Utki.{Bytes, sample}
use setka.Address.{of_v4}
use setka.Std.Map.{Map, find}
use setka.Dns.Ids.{find_free_id}
use setka.Dns.Ids.Free.{find_free_id_lem}
use setka.Dns.Name.{parse_host_name_from_dns_packet, write_host_name}
use setka.Dns.Name.RoundTrip.{IsLabel, dotted, parse-write_host_name}
use setka.Dns.Name.Size.{ends_at_dot}
use setka.Dns.Query.{request_bytes, packet_size, request_datagram}
use setka.Dns.Query.Datagram.{request_datagram_exact, request_datagram_leak}
use setka.Dns.Result.{ok, failure, dns_error}
use setka.Dns.Reply.{return, parse_answers, check_flags, check_header, parse_reply_from_dns}
use setka.Dns.Reply.Compressed.{parse_answers-compressed}
use setka.Dns.Reply.Reads.{parse_reply-reads, parse_reply_overread}
use setka.Dns.Reply.Answers.{
  Answer, reference, Message, IsMessage, message_bytes, lookup_result, first_match, payload_result,
}
use setka.Dns.Reply.Correct.{parse_reply-message}

abbrev zeros : Bytes
zeros = replicate 40 0

-- "ya.ru"
abbrev labels : List Bytes
labels = (b'y' ∷ b'a' ∷ []) ∷ (b'r' ∷ b'u' ∷ []) ∷ []

abbrev ya_ru : Bytes
ya_ru = b'y' ∷ b'a' ∷ b'.' ∷ b'r' ∷ b'u' ∷ []

abbrev other_answer : Answer
other_answer = record {
  owner = reference 0xc0 12;
  type = 5;
  cls = 1;
  ttl = 0 ∷ 0 ∷ 0 ∷ 9 ∷ [];
  payload = 7 ∷ [];
}

abbrev address_answer : Answer
address_answer = record {
  owner = reference 0xc0 12;
  type = 1;
  cls = 1;
  ttl = 0 ∷ 0 ∷ 0 ∷ 9 ∷ [];
  payload = 10 ∷ 0 ∷ 0 ∷ 7 ∷ [];
}

abbrev message : Message
message = record {
  id = 3;
  flags = 0x8180;
  num_questions = 1;
  authorities = 0;
  additionals = 0;
  labels = labels;
  question_type = 1;
  question_cls = 1;
  answers = other_answer ∷ address_answer ∷ [];
  trailer = [];
}

pair-IsLabel : (a b : ℕ) → a ≢ b'.' → b ≢ b'.' → IsLabel (a ∷ b ∷ [])
pair-IsLabel a b h k = record {
  nonempty = λ e. ground arith;
  short = omega arith;
  no_dot = (h, (k, tt));
}

message-IsMessage : IsMessage message
message-IsMessage = record {
  flags_lt = omega arith;
  num_questions_lt = omega arith;
  labels_ok = (
    pair-IsLabel b'y' b'a' (omega arith) (omega arith),
    (pair-IsLabel b'r' b'u' (omega arith) (omega arith), tt),
  );
  question_type_lt = omega arith;
  question_cls_lt = omega arith;
  answers_lt = omega arith;
  answers_ok = omega arith;
}

resolved : lookup_result ya_ru 1 message ≡ record { result = ok; host = of_v4 0x0a000007 }
unfolding lookup_result first_match payload_result
resolved = refl

parse_reply-message_example :
    parse_reply_from_dns sample ya_ru 1 (message_bytes sample message)
    ≡ some (lookup_result ya_ru 1 message)
parse_reply-message_example = parse_reply-message sample ya_ru 1 message message-IsMessage

parse-write_host_name_example :
    parse_host_name_from_dns_packet (write_host_name (dotted labels) ++ 0 ∷ 28 ∷ [])
    ≡ (dotted labels, 0 ∷ 28 ∷ [])
parse-write_host_name_example =
    parse-write_host_name labels (0 ∷ 28 ∷ []) message-IsMessage.labels_ok

abbrev ids : Map ℕ
ids = (0, 9) ∷ (65535, 8) ∷ []

find_free_id_lem_example :
    ((i : ℕ) → find_free_id ids ≡ some i → (i < 65536) × (find i ids ≡ none))
    × (find_free_id ids ≡ none → (i : ℕ) → i < 65536 → find i ids ≢ none)
find_free_id_lem_example = find_free_id_lem ids (omega arith) (omega arith)

one_is_free : find_free_id ids ≡ some 1
unfolding find_free_id
one_is_free = refl

-- A reply that ends behind its host name.
abbrev cut_reply : Bytes
cut_reply =
    0 ∷ 3 ∷ 0x81 ∷ 0x80 ∷ 0 ∷ 1 ∷ 0 ∷ 1 ∷ 0 ∷ 0 ∷ 0 ∷ 0 ∷ 2 ∷ b'y' ∷ b'a' ∷ 2 ∷ b'r' ∷ b'u' ∷ 0 ∷ []

parse_reply_overread_example : parse_reply_from_dns sample ya_ru 28 cut_reply ≡ none
unfolding check_header check_flags parse_host_name_from_dns_packet
parse_reply_overread_example =
    parse_reply_overread sample ya_ru 28 cut_reply 1 (drop 12 cut_reply) [] refl refl
      (inl (omega arith))

parse_reply-reads_example :
    parse_reply_from_dns sample ya_ru 28 (cut_reply ++ 0 ∷ 28 ∷ 0 ∷ 1 ∷ []) ≢ none
parse_reply-reads_example =
    parse_reply-reads sample ya_ru 28 (cut_reply ++ 0 ∷ 28 ∷ 0 ∷ 1 ∷ [])
      (unfold parse_host_name_from_dns_packet in λ e. omega arith)

request_datagram_exact_example :
    (request_datagram sample (9 ∷ 9 ∷ []) 3 ya_ru 28 ≡ request_bytes sample 3 ya_ru 28)
    × (length (request_bytes sample 3 ya_ru 28) ≡ packet_size ya_ru)
unfolding ends_at_dot
request_datagram_exact_example = request_datagram_exact sample (9 ∷ 9 ∷ []) 3 ya_ru 28 refl

request_datagram_leak_example :
    request_datagram sample zeros 3 (ya_ru ++ b'.' ∷ []) 28
    ≡ request_bytes sample 3 (ya_ru ++ b'.' ∷ []) 28 ++ 0 ∷ []
unfolding ends_at_dot
request_datagram_leak_example = request_datagram_leak sample zeros 3 (ya_ru ++ b'.' ∷ []) 28 refl

-- The owner is "www" and a pointer to "ya.ru"; the type is A, and the address 10.0.0.7.
abbrev behind_pointer : Bytes
behind_pointer = 0 ∷ 1 ∷ 0 ∷ 1 ∷ 0 ∷ 0 ∷ 0 ∷ 9 ∷ 0 ∷ 4 ∷ 10 ∷ 0 ∷ 0 ∷ 7 ∷ []

parse_answers-compressed_example :
    parse_answers sample 1 1 (3 ∷ b'w' ∷ b'w' ∷ b'w' ∷ 0xc0 ∷ 12 ∷ behind_pointer)
    ≡ return (failure dns_error)
parse_answers-compressed_example =
    parse_answers-compressed sample 1 0 3 (b'w' ∷ b'w' ∷ b'w' ∷ []) 0xc0 12 1 0 0 0 9 4 10
      (0 ∷ 0 ∷ 7 ∷ []) (omega arith) (omega arith) (omega arith) (omega arith) (omega arith)
      (omega arith) (omega arith) (omega arith)
