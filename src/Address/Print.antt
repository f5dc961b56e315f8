-- ===== src/Address/Print.antt =====
-- src/setka/address.cpp, `ip::to_string`: what a `std::stringstream` makes of numbers and characters.
pub mod Read
use setka.Prelude.{
  ℕ, zero, suc, ◌+◌, ◌-◌, ◌*◌, ◌/◌, ◌%◌, ◌^◌, Bool, true, false, List, [], ◌∷◌, ◌++◌, ltb, ◌==◌,
  if◌then◌else◌,
}
use setka.Utki.{Bytes}
use setka.Address.{Ip, is_v4, get_v4}

abbrev pub digit : ℕ → ℕ
digit d = if ltb d 10 then d + b'0' else d - 10 + b'a'

-- `ss << n` of an unsigned number, in a base, with so many digits at most
pub put : ℕ → ℕ → ℕ → Bytes
put base zero n = []
put base (suc k) n =
    let front = put base k (n / base) in
    if ltb n base then digit n ∷ [] else front ++ digit (n % base) ∷ []

-- `this->quad[i]`
abbrev pub quad : Ip → ℕ → ℕ
quad a zero = a.quad0
quad a (suc zero) = a.quad1
quad a (suc (suc zero)) = a.quad2
quad a (suc (suc (suc i))) = a.quad3

-- The loops, from an index that is still to be counted down.
pub put_v4 : ℕ → ℕ → Bytes
unfolding put
put_v4 zero h = []
put_v4 (suc i) h =
    let rest = put_v4 i h in
    put 10 3 (h / 2 ^ (8 * i) % 256) ++ (if i == 0 then [] else b'.' ∷ rest)

pub put_v6 : ℕ → Ip → Bytes
unfolding put
put_v6 zero a = []
put_v6 (suc i) a =
    let rest = put_v6 i a in
    put 16 4 (quad a (i * 2 / 4) / 2 ^ (16 * (i % 2)) % 65536)
    ++ (if i == 0 then [] else b':' ∷ rest)

pub to_string : Ip → Bytes
unfolding put_v4 put_v6
to_string a = if is_v4 a then put_v4 4 (get_v4 a) else put_v6 8 a
