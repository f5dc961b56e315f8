-- ===== src/Dns/Query.antt =====
-- src/setka/dns_resolver.cpp, `LookupThread::SendRequestToDNS`: the packet of a request.
pub mod Datagram
use setka.Prelude.{ℕ, ◌+◌, List, [], ◌∷◌, ◌++◌, length, take, drop}
use setka.Utki.{Utki, Bytes}
use setka.Dns.Name.{write_host_name}

-- `D_DNSRecordA` and `D_DNSRecordAAAA`
abbrev pub dns_record_a : ℕ
dns_record_a = 1

abbrev pub dns_record_aaaa : ℕ
dns_record_aaaa = 28

-- `std::array<uint8_t, 512> buf`
abbrev pub buf_size : ℕ
buf_size = 512

module _ (u : Utki) where
  -- `utki::serialize16be(v, p); p += 2;`
  abbrev pub put16 : ℕ → Bytes
  put16 v = let (hi, lo) = u.serialize16be v in hi ∷ lo ∷ []

  -- The bytes that are written from the start of the buffer on.
  unfoldable pub request_bytes : ℕ → Bytes → ℕ → Bytes
  request_bytes id host_name record_type =
      put16 id
      ++ (put16 0x100
          ++ (put16 1
              ++ (put16 0
                  ++ (put16 0
                      ++ (put16 0
                          ++ (write_host_name host_name ++ (put16 record_type ++ put16 1)))))))

-- `packetSize`
pub packet_size : Bytes → ℕ
packet_size host_name = 2 + 2 + 2 + 2 + 2 + 2 + (length host_name + 2) + 2 + 2

-- The bytes from the start of the buffer that are sent: what was written, over what the
-- uninitialised buffer held before.
pub request_datagram : Utki → Bytes → ℕ → Bytes → ℕ → Bytes
unfolding packet_size
request_datagram u buf id host_name record_type =
    let written = request_bytes u id host_name record_type in
    take (packet_size host_name) (written ++ drop (length written) buf)
