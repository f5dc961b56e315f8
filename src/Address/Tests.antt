-- ===== src/Address/Tests.antt =====
-- Addresses in strings, with an `inet_pton` that knows one string of each kind.
use setka.Prelude.{
  ℕ, ◌≡◌, ◌<◌, ◌^◌, none, some, [], ◌∷◌, arith, if◌then◌else◌, bytes_eq, length, All,
}
use setka.Utki.{Bytes, IsByte}
use setka.Address.{Ip, IsIp, of_quads, is_v4, get_v4}
use setka.Address.Print.{to_string}
use setka.Address.Print.Read.{fields, bytes, words, fields-to_string}
use setka.Address.Parse.{Inet}

-- "10.0.0.7" and "::1"
abbrev pub host4 : Bytes
host4 = b'1' ∷ b'0' ∷ b'.' ∷ b'0' ∷ b'.' ∷ b'0' ∷ b'.' ∷ b'7' ∷ []

abbrev host6 : Bytes
host6 = b':' ∷ b':' ∷ b'1' ∷ []

abbrev bytes6 : Bytes
bytes6 = 0 ∷ 0 ∷ 0 ∷ 0 ∷ 0 ∷ 0 ∷ 0 ∷ 0 ∷ 0 ∷ 0 ∷ 0 ∷ 0 ∷ 0 ∷ 0 ∷ 0 ∷ 1 ∷ []

pub pton4_lt :
    (s : Bytes) (h : ℕ) → (if bytes_eq s host4 then some 0x0a000007 else none) ≡ some h → h < 2 ^ 32
pton4_lt s h e = ground arith

pub pton6_bytes :
    (s bs : Bytes)
    → (if bytes_eq s host6 then some bytes6 else none) ≡ some bs
    → (length bs ≡ 16) × All IsByte bs
pton6_bytes s bs e = ground arith

abbrev pub inet : Inet
inet = record {
  pton4 = λ s. if bytes_eq s host4 then some 0x0a000007 else none;
  pton6 = λ s. if bytes_eq s host6 then some bytes6 else none;
  pton4_lt = pton4_lt;
  pton6_bytes = pton6_bytes;
}

-- "80", with "/index" behind it
abbrev digits : Bytes
digits = b'8' ∷ b'0' ∷ []

abbrev behind : Bytes
behind = b'/' ∷ b'i' ∷ []

-- "2001:db8::1", which is printed as "0:1:0:0:0:0:2001:db8"
abbrev ip6 : Ip
ip6 = of_quads 0x20010db8 0 0 1

ip6-IsIp : IsIp ip6
ip6-IsIp = record {
  quad0_lt = omega arith;
  quad1_lt = omega arith;
  quad2_lt = omega arith;
  quad3_lt = omega arith;
}

fields-to_string_example :
    fields (is_v4 ip6) (to_string ip6)
    ≡ (if is_v4 ip6 then bytes (get_v4 ip6) else words (1 ∷ 0 ∷ 0 ∷ 0x20010db8 ∷ []))
fields-to_string_example = fields-to_string ip6 ip6-IsIp
