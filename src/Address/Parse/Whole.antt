-- ===== src/Address/Parse/Whole.antt =====
-- Whole addresses in strings: a host, and a port or none.
use setka.Prelude.{ℕ, ◌≡◌, ◌≢◌, ◌≤◌, true, Option, none, some, length, All}
use setka.Utki.{Utki, Bytes}
use setka.Address.{Ip, Address}
use setka.Address.Parse.{is_ip_v4_string}

-- A host as it stands in front of a port: IPv4, with a dot and at most 15 characters, none of them a
-- colon.
pub record IsHost4 (h : Bytes) : Type 0 where
  pub dotted : is_ip_v4_string h ≡ true
  pub no_colon : All (λ c. c ≢ b':') h
  pub no_bracket : All (λ c. c ≢ b'[') h
  pub short : length h ≤ 15

-- IPv6, at most 45 characters.
pub record IsHost6 (h : Bytes) : Type 0 where
  pub no_bracket : All (λ c. c ≢ b']') h
  pub short : length h ≤ 45

-- A host with a port.
abbrev pub at_port : Option Ip → ℕ → Option Address
at_port none port = none
at_port (some i) port = some (record { host = i; port = port })
