-- ===== src/Dns/Init.antt =====
-- src/setka/dns_resolver.cpp, `LookupThread::InitDNS`: the default server from /etc/resolv.conf. That
-- file is a parameter: its first 4095 bytes, or `none` if it cannot be loaded.
pub mod Lines
pub mod Registry
use setka.Prelude.{
  ℕ, zero, suc, Bool, ◌&&◌, ◌||◌, Option, none, some, List, [], ◌∷◌, leb, ◌==◌, if◌then◌else◌,
  length, drop, take, bytes_eq,
}
use setka.Utki.{Bytes}
use setka.Address.{Ip, Address, of_v4}
use setka.Address.Parse.{Inet, parse}

-- The inner loop: a line, and what stands behind its end.
pub next_line : Bytes → Bytes × Bytes
next_line [] = ([], [])
next_line (c ∷ p) =
    let (line, rest) = next_line p in if c == b'\n' then ([], p) else (c ∷ line, rest)

-- `std::string ns("nameserver ")`
abbrev pub ns : Bytes
ns = b'n' ∷ b'a' ∷ b'm' ∷ b'e' ∷ b's' ∷ b'e' ∷ b'r' ∷ b'v' ∷ b'e' ∷ b'r' ∷ b' ' ∷ []

-- A character of ":.0123456789"
abbrev pub is_ip_char : ℕ → Bool
is_ip_char c = c == b':' || c == b'.' || leb b'0' c && leb c b'9'

-- `line.substr(ipStart, ipEnd - ipStart)`, from `ipStart` on
pub ip_text : Bytes → Bytes
ip_text [] = []
ip_text (c ∷ s) = if is_ip_char c then c ∷ ip_text s else []

-- The address of a line, or `none` if the loop goes on with the next line.
pub line_address : Inet → Bytes → Option Ip
unfolding ip_text
line_address n line =
    if bytes_eq (take (length ns) line) ns then parse n (ip_text (drop (length ns) line)) else none

-- `return`, or the next round
abbrev pub or_else : Option Ip → Option Ip → Option Ip
or_else none o = o
or_else (some h) o = some h

-- The loop over the lines. Each takes a byte, so as much fuel as there are bytes is enough.
pub read_servers : Inet → ℕ → Bytes → Option Ip
unfolding next_line line_address
read_servers n fuel [] = none
read_servers n zero (c ∷ p) = none
read_servers n (suc fuel) (c ∷ p) =
    let (line, rest) = next_line (c ∷ p) in or_else (line_address n line) (read_servers n fuel rest)

-- The address that `dns` is set to.
abbrev pub server : Option Ip → Address
server none = record { host = of_v4 0; port = 0 }
server (some h) = record { host = h; port = 53 }

pub init_dns : Inet → Option Bytes → Address
unfolding read_servers
init_dns n none = server none
init_dns n (some buf) = server (read_servers n (length buf) buf)
