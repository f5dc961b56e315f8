-- ===== src/Socket/Interrupts.antt =====
-- Sending and receiving where signals interrupt the system calls.
use setka.Prelude.{
  ℕ, zero, suc, ◌<◌, ◌^◌, length, subst, sym, ◌≡◌, ◌≢◌, refl, ap, ◌∙◌, false, Option, none, some,
  [], arith, ◌==◌, ==_refl, ==_of_ne, if◌then◌else◌,
}
use setka.Utki.{Bytes}
use setka.Address.{Address}
use setka.Socket.Method.{
  logic_error, system_error, Result, ok, throws, out_of_fuel, Io, ◌>>=◌, ◌>>◌,
}
use setka.Socket.Posix.{Sockaddr, Answer, returns, fails, Kernel}
use setka.Socket.{World, Socket, with_sock, set_flags, retry, size_of_int, size_of_int_lem}
use setka.Socket.Inet.{to_sockaddr, make_ip_address}
use setka.Socket.Tcp
use setka.Socket.Tcp.{Tcp, length_or_zero, bytes_or_none}
use setka.Socket.Udp
use setka.Socket.Udp.{Udp, bytes_and_sender}

module _ (k : Kernel) where
  -- Not an interruption
  abbrev pub IsFinal : {A : Type 0} → Answer A → Type 0
  IsFinal (returns a) = Unit {0}
  IsFinal (fails e) = e ≢ k.error_interrupted

  -- After so many interruptions, the call ends with an answer, and leaves a state.
  abbrev pub EndsAfter :
      {A : Type 0} → ℕ → (k.State → Answer A × k.State) → k.State → Answer A → k.State → Type 0
  EndsAfter zero m s r s' = ((m s).0 ≡ r) × ((m s).1 ≡ s') × IsFinal r
  EndsAfter (suc n) m s r s' = ((m s).0 ≡ fails k.error_interrupted) × EndsAfter n m (m s).1 r s'

  -- What a method makes of the answer: a value, another value for `error_again`, or a throw.
  abbrev pub outcome : {A B : Type 0} → (A → B) → B → Answer A → Result B
  outcome f b (returns a) = ok (f a)
  outcome f b (fails e) = if e == k.error_again then ok b else throws (system_error e)

  ended :
      {E A : Type 0} (o : Socket E) {r : Result A} {s s' : k.State}
      → s ≡ s'
      → ◌≡◌ {A = Result A × World E k.State}
          (r, record { object = o; kernel = s })
          (r, record { object = o; kernel = s' })
  ended o {r} e = ap (λ (s : k.State). (r, record { object = o; kernel = s })) e

  retry-EndsAfter :
      {E A : Type 0} (n fuel : ℕ) (m : k.State → Answer A × k.State) (w : World E k.State)
      (r : Answer A) (s' : k.State)
      → EndsAfter n m w.kernel r s'
      → n < fuel
      → retry k fuel m w ≡ (ok r, record w { kernel = s' })
  unfolding retry
  retry-EndsAfter n zero m w r s' e h = absurd (omega arith)
  retry-EndsAfter zero (suc fuel) m w (returns a) s' (e, left, final) h =
      rw (e, retry) (ended w.object left)
  retry-EndsAfter zero (suc fuel) m w (fails x) s' (e, left, final) h =
      rw (e, retry) (rw (==_of_ne x k.error_interrupted final) (ended w.object left))
  retry-EndsAfter (suc n) (suc fuel) m w r s' (e, later) h =
      rw (e, retry)
        (rw (==_refl k.error_interrupted) (
          retry-EndsAfter n fuel m (record w { kernel = (m w.kernel).1 }) r s' later (omega arith)))

  with_sock_open :
      {E A : Type 0} (f : ℕ → Io (World E k.State) A) (w : World E k.State) (d : ℕ)
      → w.object.sock ≡ some d
      → with_sock f w ≡ f d w
  with_sock_open {E} {A} f w d e =
      ap
        (λ (o : Option ℕ). elim o as (λ _. Result A × World E k.State) [
          | none ↦ (throws logic_error, w)
          | some c ↦ f c w
        ])
        e

  -- An object and a state of the system in which a flag is cleared
  abbrev pub sent_from : {E : Type 0} → Socket E → k.State → World E k.State
  sent_from o s' = record {
    object = record o { readiness_flags = record o.readiness_flags { write = false } };
    kernel = s';
  }

  abbrev pub received_from : {E : Type 0} → Socket E → k.State → World E k.State
  received_from o s' = record {
    object = record o { readiness_flags = record o.readiness_flags { read = false } };
    kernel = s';
  }

  -- What follows the loop goes on with the answer.
  retry-bind :
      {E A B : Type 0} (n fuel : ℕ) (m : k.State → Answer A × k.State) (o : Socket E) (s : k.State)
      (r : Answer A) (s' : k.State) (f : Answer A → Io (World E k.State) B)
      → EndsAfter n m s r s'
      → n < fuel
      → (retry k fuel m >>= f) (record { object = o; kernel = s })
        ≡ f r (record { object = o; kernel = s' })
  retry-bind {E} {A} {B} n fuel m o s r s' f e h =
      ap
        (λ (x : Result (Answer A) × World E k.State).
          elim x.0 as (λ _. Result B × World E k.State) [
            | ok a ↦ f a x.1
            | throws c ↦ (throws c, x.1)
            | out_of_fuel ↦ (out_of_fuel, x.1)
          ])
        (retry-EndsAfter n fuel m (record { object = o; kernel = s }) r s' e h)

  -- The ends of the four methods
  length_or_zero-outcome :
      (r : Answer ℕ) (w : Tcp k.State) → length_or_zero k r w ≡ (outcome (λ c. c) 0 r, w)
  length_or_zero-outcome (returns c) w = refl
  length_or_zero-outcome (fails e) w = ground arith

  length_or_zero_udp-outcome :
      (r : Answer ℕ) (w : Udp k.State) → Udp.length_or_zero k r w ≡ (outcome (λ c. c) 0 r, w)
  length_or_zero_udp-outcome (returns c) w = refl
  length_or_zero_udp-outcome (fails e) w = ground arith

  bytes_or_none-outcome :
      (r : Answer Bytes) (w : Tcp k.State) → bytes_or_none k r w ≡ (outcome (λ b. b) [] r, w)
  bytes_or_none-outcome (returns b) w = refl
  bytes_or_none-outcome (fails e) w = ground arith

  -- What a UDP socket gives for a datagram
  abbrev pub from_sender : Bytes × Sockaddr → Bytes × Option Address
  from_sender (b, a) = (b, some (make_ip_address k a))

  bytes_and_sender-outcome :
      (r : Answer (Bytes × Sockaddr)) (w : Udp k.State)
      → bytes_and_sender k r w ≡ (outcome from_sender ([], none) r, w)
  bytes_and_sender-outcome (returns (b, a)) w = refl
  bytes_and_sender-outcome (fails e) w = ground arith

  -- Sending fewer than 2^31 bytes on an open TCP socket, where the system ends a call with these bytes and
  -- their number after some interruptions, fewer than the fuel: the method returns the number of bytes that were sent, or 0 if the socket was not ready, or
  -- throws the error; the write flag is cleared, and nothing else of the socket is changed.
  pub send_tcp_lem :
      (n fuel d : ℕ) (buf : Bytes) (w : Tcp k.State) (r : Answer ℕ) (s' : k.State)
      → w.object.sock ≡ some d
      → length buf < 2 ^ 31
      → EndsAfter n (k.send d buf (length buf)) w.kernel r s'
      → n < fuel
      → Tcp.send k fuel buf w ≡ (outcome (λ c. c) 0 r, sent_from w.object s')
  unfolding Tcp.send
  send_tcp_lem n fuel d buf w r s' there fits e h =
      with_sock_open
        (λ d.
          set_flags (λ f. record f { write = false })
          >> (retry k fuel (k.send d buf (size_of_int (length buf))) >>= length_or_zero k))
        w d there
      ∙ retry-bind n fuel (k.send d buf (size_of_int (length buf))) _ w.kernel r s'
          (length_or_zero k)
          (subst (λ len. EndsAfter n (k.send d buf len) w.kernel r s')
            (sym (size_of_int_lem (length buf) fits)) e)
          h
      ∙ length_or_zero-outcome r _

  -- Receiving on an open TCP socket, likewise: the bytes that were received, or none if there were none
  -- to be had, or the error; the read flag is cleared.
  pub recieve_tcp_lem :
      (n fuel d size : ℕ) (w : Tcp k.State) (r : Answer Bytes) (s' : k.State)
      → w.object.sock ≡ some d
      → size < 2 ^ 31
      → EndsAfter n (k.recv d size) w.kernel r s'
      → n < fuel
      → Tcp.recieve k fuel size w ≡ (outcome (λ b. b) [] r, received_from w.object s')
  unfolding Tcp.recieve
  recieve_tcp_lem n fuel d size w r s' there fits e h =
      with_sock_open (λ d. retry k fuel (k.recv d (size_of_int size)) >>= bytes_or_none k)
        (received_from w.object w.kernel) d there
      ∙ retry-bind n fuel (k.recv d (size_of_int size)) _ w.kernel r s' (bytes_or_none k)
          (subst (λ len. EndsAfter n (k.recv d len) w.kernel r s')
            (sym (size_of_int_lem (size) fits)) e)
          h
      ∙ bytes_or_none-outcome r _

  -- Sending a datagram on an open UDP socket, likewise.
  pub send_udp_lem :
      (n fuel d : ℕ) (buf : Bytes) (a : Address) (w : Udp k.State) (r : Answer ℕ) (s' : k.State)
      → w.object.sock ≡ some d
      → length buf < 2 ^ 31
      → EndsAfter n (k.sendto d buf (length buf) (to_sockaddr k a)) w.kernel r s'
      → n < fuel
      → Udp.send k fuel buf a w ≡ (outcome (λ c. c) 0 r, sent_from w.object s')
  unfolding Udp.send
  send_udp_lem n fuel d buf a w r s' there fits e h =
      with_sock_open
        (λ d.
          set_flags (λ f. record f { write = false })
          >> (retry k fuel (k.sendto d buf (size_of_int (length buf)) (to_sockaddr k a))
              >>= Udp.length_or_zero k))
        w d there
      ∙ retry-bind n fuel (k.sendto d buf (size_of_int (length buf)) (to_sockaddr k a)) _ w.kernel r
          s' (Udp.length_or_zero k)
          (subst (λ len. EndsAfter n (k.sendto d buf len (to_sockaddr k a)) w.kernel r s')
            (sym (size_of_int_lem (length buf) fits)) e)
          h
      ∙ length_or_zero_udp-outcome r _

  -- Receiving a datagram on an open UDP socket into a buffer of fewer than 2^31 bytes, likewise: its bytes and the address of its sender.
  pub recieve_udp_lem :
      (n fuel d size : ℕ) (w : Udp k.State) (r : Answer (Bytes × Sockaddr)) (s' : k.State)
      → w.object.sock ≡ some d
      → size < 2 ^ 31
      → EndsAfter n (k.recvfrom d size) w.kernel r s'
      → n < fuel
      → Udp.recieve k fuel size w ≡ (outcome from_sender ([], none) r, received_from w.object s')
  unfolding Udp.recieve
  recieve_udp_lem n fuel d size w r s' there fits e h =
      with_sock_open
        (λ d.
          set_flags (λ f. record f { read = false })
          >> (retry k fuel (k.recvfrom d (size_of_int size)) >>= bytes_and_sender k))
        w d there
      ∙ retry-bind n fuel (k.recvfrom d (size_of_int size)) _ w.kernel r s' (bytes_and_sender k)
          (subst (λ len. EndsAfter n (k.recvfrom d len) w.kernel r s')
            (sym (size_of_int_lem (size) fits)) e)
          h
      ∙ bytes_and_sender-outcome r _
