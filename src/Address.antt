-- ===== src/Address.antt =====
-- src/setka/address.hpp: `address::ip` and `address`, with their constructors and tests.
pub mod Parse
pub mod Print
pub mod Tests
use setka.Prelude.{ℕ, ◌*◌, ◌%◌, ◌^◌, ◌<◌, Bool, not, ◌&&◌, ◌||◌, bit_or, ◌==◌, if◌then◌else◌}

-- `std::array<uint32_t, 4> quad`
pub record Ip : Type 0 where
  pub quad0 : ℕ
  pub quad1 : ℕ
  pub quad2 : ℕ
  pub quad3 : ℕ

pub record Address : Type 0 where
  pub host : Ip
  pub port : ℕ

-- `ip(q0, q1, q2, q3)`
abbrev pub of_quads : ℕ → ℕ → ℕ → ℕ → Ip
of_quads q0 q1 q2 q3 = record { quad0 = q0; quad1 = q1; quad2 = q2; quad3 = q3 }

-- `ip(h)`: an IPv4 address, mapped to IPv6
abbrev pub of_v4 : ℕ → Ip
of_v4 h = of_quads 0 0 0xffff h

-- `(uint32_t(a) << k) | b`
abbrev pub join32 : ℕ → ℕ → ℕ → ℕ
join32 k a b = bit_or (a * 2 ^ k % 2 ^ 32) b

-- `ip(a0, ..., a7)` of 16-bit numbers
pub of_words : ℕ → ℕ → ℕ → ℕ → ℕ → ℕ → ℕ → ℕ → Ip
of_words a0 a1 a2 a3 a4 a5 a6 a7 =
    of_quads (join32 16 a0 a1) (join32 16 a2 a3) (join32 16 a4 a5) (join32 16 a6 a7)

-- `(uint16_t(a) << 8) | uint16_t(b)`; the shift is one of `int`, which a byte shifted by 8 fits,
-- and the result is converted to `uint16_t`.
abbrev pub join16 : ℕ → ℕ → ℕ
join16 a b = bit_or (a * 2 ^ 8) b % 2 ^ 16

-- `ip(a0, ..., a15)` of bytes
pub of_bytes : ℕ → ℕ → ℕ → ℕ → ℕ → ℕ → ℕ → ℕ → ℕ → ℕ → ℕ → ℕ → ℕ → ℕ → ℕ → ℕ → Ip
unfolding of_words
of_bytes a0 a1 a2 a3 a4 a5 a6 a7 a8 a9 a10 a11 a12 a13 a14 a15 =
    of_words (join16 a0 a1) (join16 a2 a3) (join16 a4 a5) (join16 a6 a7) (join16 a8 a9)
      (join16 a10 a11) (join16 a12 a13) (join16 a14 a15)

-- `address(h1, h2, h3, h4, p)`
pub of_v4_bytes : ℕ → ℕ → ℕ → ℕ → ℕ → Address
of_v4_bytes h1 h2 h3 h4 p = record {
  host =
      of_v4
        (bit_or (bit_or (bit_or (h1 * 2 ^ 24 % 2 ^ 32) (h2 * 2 ^ 16 % 2 ^ 32)) (h3 * 2 ^ 8)) h4);
  port = p;
}

abbrev pub is_v4 : Ip → Bool
is_v4 i = i.quad2 == 0xffff && i.quad1 == 0 && i.quad0 == 0

abbrev pub get_v4 : Ip → ℕ
get_v4 i = i.quad3

pub is_valid : Ip → Bool
is_valid i =
    if is_v4 i
    then not (get_v4 i == 0)
    else (not (i.quad3 == 0) || not (i.quad2 == 0) || not (i.quad1 == 0) || not (i.quad0 == 0))

-- `ip::operator==`
abbrev pub ip_eq : Ip → Ip → Bool
ip_eq a b = a.quad0 == b.quad0 && a.quad1 == b.quad1 && a.quad2 == b.quad2 && a.quad3 == b.quad3

-- `address::operator==`
abbrev pub address_eq : Address → Address → Bool
address_eq a b = ip_eq a.host b.host && a.port == b.port

-- Quads that `uint32_t` can hold.
pub record IsIp (i : Ip) : Type 0 where
  pub quad0_lt : i.quad0 < 2 ^ 32
  pub quad1_lt : i.quad1 < 2 ^ 32
  pub quad2_lt : i.quad2 < 2 ^ 32
  pub quad3_lt : i.quad3 < 2 ^ 32
