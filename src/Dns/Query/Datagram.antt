-- ===== src/Dns/Query/Datagram.antt =====
-- The packet has the size that was computed for it, or has a byte that nothing wrote.
use mathlib.Core.Path.{ap₂}
use setka.Prelude.{
  ℕ, zero, suc, ◌+◌, ◌-◌, ◌≤◌, ◌≡◌, ap, ◌∙◌, true, false, [], ◌∷◌, ◌++◌, append-nil, arith,
  if◌then◌else◌, length, take, drop, length-append,
}
use setka.Utki.{Utki, Bytes}
use setka.Dns.Name.{write_host_name}
use setka.Dns.Name.Size.{ends_at_dot, length-write_host_name}
use setka.Dns.Query.{put16, request_bytes, packet_size, request_datagram}

length-request_bytes :
    (u : Utki) (id : ℕ) (host : Bytes) (rt : ℕ)
    → length (request_bytes u id host rt) ≡ length (write_host_name host) + 16
unfolding request_bytes
length-request_bytes u id host rt =
    omega (arith, length-append (write_host_name host) (put16 u rt ++ put16 u 1))

take_past : (n : ℕ) (s t : Bytes) → length s ≤ n → take n (s ++ t) ≡ s ++ take (n - length s) t
take_past n [] t h = ap (λ (k : ℕ). take k t) (omega arith)
take_past zero (c ∷ s) t h = absurd (omega arith)
take_past (suc n) (c ∷ s) t h =
    ap (◌∷◌ c) (take_past n s t (omega arith) ∙ ap (λ (k : ℕ). s ++ take k t) (omega arith))

packet_size_lem :
    (u : Utki) (id : ℕ) (host : Bytes) (rt : ℕ)
    → (packet_size host ≡ length host + 18)
      × (length (request_bytes u id host rt)
          ≡ (if ends_at_dot host then length host + 17 else length host + 18))
unfolding packet_size
packet_size_lem u id host rt =
    (omega arith, ground (arith, length-request_bytes u id host rt, length-write_host_name host))

-- The packet of a name that is not empty and does not end with a dot is what was written: its size
-- is `packetSize`, nothing of it is left out, and nothing else is sent.
pub request_datagram_exact :
    (u : Utki) (buf : Bytes) (id : ℕ) (host : Bytes) (rt : ℕ)
    → ends_at_dot host ≡ false
    → (request_datagram u buf id host rt ≡ request_bytes u id host rt)
      × (length (request_bytes u id host rt) ≡ packet_size host)
unfolding request_datagram
request_datagram_exact u buf id host rt h =
    let written = request_bytes u id host rt in
    let old = drop (length written) buf in
    let exact = packet_size_lem u id host rt in
    (
      take_past (packet_size host) written old (ground arith)
          ∙ ap (λ (k : ℕ). written ++ take k old) {y = 0} (ground arith)
          ∙ append-nil written,
      ground arith,
    )

-- For an empty name, and for one that ends with a dot, `packetSize` is one too many: the last byte
-- of the packet is one that was in the buffer before.
pub request_datagram_leak :
    (u : Utki) (buf : Bytes) (id : ℕ) (host : Bytes) (rt : ℕ)
    → ends_at_dot host ≡ true
    → request_datagram u buf id host rt
      ≡ request_bytes u id host rt ++ take 1 (drop (length host + 17) buf)
unfolding request_datagram
request_datagram_leak u buf id host rt h =
    let written = request_bytes u id host rt in
    let old = drop (length written) buf in
    let short = packet_size_lem u id host rt in
    take_past (packet_size host) written old (ground arith)
    ∙ ap₂ (λ (k n : ℕ). written ++ take k (drop n buf)) {y = 1} (ground arith) (ground arith)
