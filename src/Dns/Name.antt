-- ===== src/Dns/Name.antt =====
-- src/setka/dns_resolver.cpp: host names in DNS packets. `ParseHostNameFromDNSPacket` reads one, and
-- the loop in `SendRequestToDNS` writes one. A pointer into a packet is the list of the bytes from
-- it to the end, so that `p == end` is `[]`, and `end - p` the length.
pub mod Loops
pub mod RoundTrip
pub mod Size
use setka.Prelude.{
  ℕ, zero, suc, ◌+◌, ◌%◌, ◌≡◌, refl, Bool, true, List, [], ◌∷◌, ◌++◌, ltb, ◌==◌, if◌then◌else◌,
  length, take, drop,
}
use setka.Utki.{Bytes}

-- `if(host.size() != 0) host += '.'`
abbrev pub with_dot : Bytes → Bytes
with_dot [] = []
with_dot (c ∷ host) = (c ∷ host) ++ b'.' ∷ []

-- The loop of `ParseHostNameFromDNSPacket`: the host so far, and the pointer. The result is the
-- returned host and the pointer that the caller has afterwards. Each round takes a byte, so as much
-- fuel as there are bytes is enough.
pub read_labels : ℕ → Bytes → Bytes → Bytes × Bytes
read_labels fuel host [] = ([], [])
read_labels zero host (len ∷ p) = ([], len ∷ p)
read_labels (suc fuel) host (len ∷ p) =
    let rest = read_labels fuel (with_dot host ++ take len p) (drop len p) in
    if len == 0 then (host, p) else if ltb (length p) len then ([], p) else rest

unfoldable pub parse_host_name_from_dns_packet : Bytes → Bytes × Bytes
unfolding read_labels
parse_host_name_from_dns_packet p = read_labels (length p) [] p

-- `hostName.find('.', dotPos)`: what stands before the first dot, or all.
pub until_dot : Bytes → Bytes
until_dot [] = []
until_dot (c ∷ s) = if c == b'.' then [] else c ∷ until_dot s

-- What stands behind the first dot, or nothing.
pub after_dot : Bytes → Bytes
after_dot [] = []
after_dot (c ∷ s) = if c == b'.' then s else after_dot s

-- The loop of `SendRequestToDNS` over the labels. The name from `dotPos` on is the argument; each
-- round takes a byte, so as much fuel as there are bytes is enough.
pub write_labels : ℕ → Bytes → Bytes
write_labels fuel [] = []
write_labels zero (c ∷ s) = []
write_labels (suc fuel) (c ∷ s) =
    (length (until_dot (c ∷ s)) % 256) ∷ until_dot (c ∷ s) ++ write_labels fuel (after_dot (c ∷ s))

-- The labels, and the zero that ends them.
pub write_host_name : Bytes → Bytes
write_host_name s = write_labels (length s) s ++ 0 ∷ []
