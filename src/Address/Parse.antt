-- ===== src/Address/Parse.antt =====
-- src/setka/address.cpp: addresses from strings. A string is the list of its characters before the
-- final zero, none of which is zero, and a pointer into it the list from there on.
pub mod Port
pub mod Whole
pub mod Bounds
use setka.Prelude.{
  ℕ, zero, suc, ◌+◌, ◌-◌, ◌*◌, ◌%◌, ◌^◌, ◌≡◌, ◌<◌, Bool, true, false, not, ◌&&◌, ◌||◌, Option, none,
  some, List, [], ◌∷◌, ◌++◌, reverse, leb, ltb, ◌==◌, if◌then◌else◌, length, All,
}
use setka.Utki.{Utki, Bytes, IsByte}
use setka.Address.{Ip, Address, of_v4, of_bytes}

-- `inet_pton` of the operating system: for `AF_INET` the number that `ntohl` makes of the result, for
-- `AF_INET6` the 16 bytes of the result; `none` if it does not return 1.
pub record Inet : Type 0 where
  pub pton4 : Bytes → Option ℕ
  pub pton6 : Bytes → Option Bytes
  pub pton4_lt : (s : Bytes) (h : ℕ) → pton4 s ≡ some h → h < 2 ^ 32
  pub pton6_bytes : (s bs : Bytes) → pton6 s ≡ some bs → (length bs ≡ 16) × All IsByte bs

unfoldable pub is_ip_v4_string : Bytes → Bool
is_ip_v4_string [] = false
is_ip_v4_string (c ∷ s) = if c == b'.' then true else if c == b':' then false else is_ip_v4_string s

-- A digit
abbrev pub is_digit : ℕ → Bool
is_digit c = leb b'0' c && leb c b'9'

abbrev pub starts_with_digit : Bytes → Bool
starts_with_digit [] = false
starts_with_digit (c ∷ s) = is_digit c

-- The first loop over the port: at most so many digits, and what follows them.
pub take_digits : ℕ → Bytes → Bytes × Bytes
take_digits zero s = ([], s)
take_digits (suc n) [] = ([], [])
take_digits (suc n) (c ∷ s) =
    let (digits, rest) = take_digits n s in if is_digit c then (c ∷ digits, rest) else ([], c ∷ s)

-- `pow` after `i` rounds, a `uint32_t`
pub power : ℕ → ℕ
power zero = 1
power (suc i) = power i * 10 % 2 ^ 32

-- The second loop, from the last digit to the first.
pub add_digits : ℕ → ℕ → Bytes → ℕ
unfolding power
add_digits i port [] = port
add_digits i port (c ∷ s) = add_digits (suc i) ((port + (c - b'0') * power i % 2 ^ 32) % 2 ^ 32) s

-- The part from the separator of the port on; `none` is the exception.
pub parse_port : Bytes → Option ℕ
unfolding add_digits take_digits
parse_port [] = some 0
parse_port (c ∷ s) =
    let (digits, rest) = take_digits 5 s in
    let port = add_digits 0 0 (reverse digits) in
    if not (c == b':')
    then none
    else if starts_with_digit rest
    then none
    else if ltb 0xffff port
    then none
    else some port

-- `a.s6_addr[0], ..., a.s6_addr[15]`
abbrev pub of_s6_addr : Bytes → Option Ip
of_s6_addr
      (a0 ∷ a1 ∷ a2 ∷ a3 ∷ a4 ∷ a5 ∷ a6 ∷ a7 ∷ a8 ∷ a9 ∷ a10 ∷ a11 ∷ a12 ∷ a13 ∷ a14 ∷ a15 ∷ s) =
    some (of_bytes a0 a1 a2 a3 a4 a5 a6 a7 a8 a9 a10 a11 a12 a13 a14 a15)
of_s6_addr _ = none

module _ (n : Inet) where
  abbrev pub parse_v4 : Bytes → Option Ip
  parse_v4 s = elim (n.pton4 s) [ none ↦ none | some h ↦ some (of_v4 h) ]

  abbrev pub parse_v6 : Bytes → Option Ip
  parse_v6 s = elim (n.pton6 s) [ none ↦ none | some bs ↦ of_s6_addr bs ]

  -- `ip::parse`
  pub parse : Bytes → Option Ip
  parse s = if is_ip_v4_string s then parse_v4 s else parse_v6 s

  -- `address(host_str, p)`; `none` is the exception of `ip::parse`.
  pub of_host : Bytes → ℕ → Option Address
  unfolding parse
  of_host s p = elim (parse s) [ none ↦ none | some h ↦ some (record { host = h; port = p }) ]

abbrev pub prepend : ℕ → Option (Bytes × Bytes) → Option (Bytes × Bytes)
prepend c none = none
prepend c (some (s, rest)) = some (c ∷ s, rest)

module _ (u : Utki) where
  -- The loop that copies what stands in brackets into a buffer of 46 characters, from an index on. What
  -- was copied, and the pointer behind the bracket.
  pub copy_v6 : ℕ → Bytes → Option (Bytes × Bytes)
  copy_v6 i [] = none
  copy_v6 i (c ∷ s) =
      let rest = copy_v6 (suc i) s in
      if c == b']'
      then some ([], s)
      else if not (u.overlaps (4 * 6 + 6 + (3 * 4 + 3) + 1) (i + 1))
      then none
      else prepend c rest

  -- The loop that copies an IPv4 address into a buffer of 16 characters.
  pub copy_v4 : ℕ → Bytes → Option (Bytes × Bytes)
  copy_v4 i [] = some ([], [])
  copy_v4 i (c ∷ s) =
      let rest = copy_v4 (suc i) s in
      if c == b':'
      then some ([], c ∷ s)
      else if not (u.overlaps (3 * 4 + 3 + 1) (i + 1))
      then none
      else prepend c rest

  -- The end of the constructor: a host, and the string from the port's separator on.
  abbrev pub with_port : Option Ip → Bytes → Option Address
  with_port none rest = none
  with_port (some h) rest = elim (parse_port rest) [
    | none ↦ none
    | some p ↦ some (record { host = h; port = p })
  ]

  -- `address(str)`; `none` is the exception.
  pub of_string : Inet → Bytes → Option Address
  unfolding copy_v6 copy_v4 parse_port is_ip_v4_string
  of_string n [] = none
  of_string n (c ∷ s) =
      if c == b'['
      then (elim (copy_v6 0 s) [
        | none ↦ none
        | some (copied, rest) ↦ with_port (parse_v6 n copied) rest
      ])
      else if is_ip_v4_string (c ∷ s)
      then (elim (copy_v4 0 (c ∷ s)) [
        | none ↦ none
        | some (copied, rest) ↦ with_port (parse_v4 n copied) rest
      ])
      else (elim (parse_v6 n (c ∷ s)) [
        | none ↦ none
        | some h ↦ some (record { host = h; port = 0 })
      ])
