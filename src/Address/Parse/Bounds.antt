-- ===== src/Address/Parse/Bounds.antt =====
-- What is read from a string is in the range of its type.
use setka.Prelude.{
  ℕ, subst, ◌*◌, ◌%◌, ◌^◌, ◌<◌, ◌≡◌, refl, inl, inr, Option, none, some, [], ◌∷◌, arith, Bool-cases,
  ◌==◌,
}
use setka.Prelude.Bits.{bit_or-shift}
use setka.Utki.{Utki, Bytes}
use setka.Address.{Ip, Address, IsIp, of_v4, of_words, of_bytes, join16, join32}
use setka.Address.Parse.{
  Inet, of_s6_addr, parse_v4, parse_v6, parse_port, is_ip_v4_string, copy_v4, copy_v6, with_port,
  of_string,
}

-- An address that its types can hold.
pub record IsAddress (a : Address) : Type 0 where
  pub host : IsIp a.host
  pub port_lt : a.port < 2 ^ 16

-- What is there, if anything is, meets a condition.
abbrev pub Any : {A : Type 0} → (A → Type 0) → Option A → Type 0
Any P none = Unit {0}
Any P (some a) = P a

Any-elim :
    {A B : Type 0} (Q : B → Type 0) (o : Option A) (f : A → Option B)
    → ((a : A) → o ≡ some a → Any Q (f a))
    → Any Q (elim o as (λ _. Option B) [ none ↦ none | some a ↦ f a ])
Any-elim Q none f h = tt
Any-elim Q (some a) f h = h a refl

Any-at : {A : Type 0} (P : A → Type 0) (o : Option A) (a : A) → Any P o → o ≡ some a → P a
Any-at P o a h e = subst (Any P) e h

join32_lt : (a b : ℕ) → a < 2 ^ 16 → b < 2 ^ 16 → join32 16 a b < 2 ^ 32
join32_lt a b ha hb =
    let high : a * 2 ^ 16 % 2 ^ 32 ≡ a * 2 ^ 16 = omega arith in
    rw (high, bit_or-shift 16 a b hb) (omega arith)

join16_lt : (a b : ℕ) → join16 a b < 2 ^ 16
join16_lt a b = omega arith

quad_lt : (a b c d : ℕ) → join32 16 (join16 a b) (join16 c d) < 2 ^ 32
quad_lt a b c d = join32_lt (join16 a b) (join16 c d) (join16_lt a b) (join16_lt c d)

-- Whatever the bytes are, their shifts make up numbers of 32 bits.
of_bytes-IsIp :
    (a0 a1 a2 a3 a4 a5 a6 a7 a8 a9 a10 a11 a12 a13 a14 a15 : ℕ)
    → IsIp (of_bytes a0 a1 a2 a3 a4 a5 a6 a7 a8 a9 a10 a11 a12 a13 a14 a15)
unfolding of_bytes of_words
of_bytes-IsIp a0 a1 a2 a3 a4 a5 a6 a7 a8 a9 a10 a11 a12 a13 a14 a15 = record {
  quad0_lt = quad_lt a0 a1 a2 a3;
  quad1_lt = quad_lt a4 a5 a6 a7;
  quad2_lt = quad_lt a8 a9 a10 a11;
  quad3_lt = quad_lt a12 a13 a14 a15;
}

of_v4-IsIp : (h : ℕ) → h < 2 ^ 32 → IsIp (of_v4 h)
of_v4-IsIp h lt = record {
  quad0_lt = omega arith;
  quad1_lt = omega arith;
  quad2_lt = omega arith;
  quad3_lt = lt;
}

of_s6_addr-IsIp : (bs : Bytes) → Any IsIp (of_s6_addr bs)
of_s6_addr-IsIp
      (a0 ∷ a1 ∷ a2 ∷ a3 ∷ a4 ∷ a5 ∷ a6 ∷ a7 ∷ a8 ∷ a9 ∷ a10 ∷ a11 ∷ a12 ∷ a13 ∷ a14 ∷ a15 ∷ s) =
    of_bytes-IsIp a0 a1 a2 a3 a4 a5 a6 a7 a8 a9 a10 a11 a12 a13 a14 a15
of_s6_addr-IsIp _ = tt

module _ (n : Inet) where
  parse_v4-IsIp : (s : Bytes) → Any IsIp (parse_v4 n s)
  parse_v4-IsIp s =
      Any-elim IsIp (n.pton4 s) (λ h. some (of_v4 h)) λ h e. of_v4-IsIp h (n.pton4_lt s h e)

  parse_v6-IsIp : (s : Bytes) → Any IsIp (parse_v6 n s)
  parse_v6-IsIp s = Any-elim IsIp (n.pton6 s) of_s6_addr λ bs e. of_s6_addr-IsIp bs

parse_port-bounded : (s : Bytes) → Any (λ p. p < 2 ^ 16) (parse_port s)
unfolding parse_port
parse_port-bounded [] = omega arith
parse_port-bounded (c ∷ s) = ground arith

module _ (u : Utki) (n : Inet) where
  with_port-IsAddress :
      (o : Option Ip) (rest : Bytes) → Any IsIp o → Any IsAddress (with_port u o rest)
  with_port-IsAddress none rest h = tt
  with_port-IsAddress (some i) rest h =
      Any-elim IsAddress (parse_port rest) (λ p. some (record { host = i; port = p }))
        λ p e. record {
          host = h;
          port_lt = Any-at _ (parse_port rest) p (parse_port-bounded rest) e;
        }

  -- Every address that is read from a string has quads of 32 bits and a port of 16 bits, whatever the
  -- string is.
  pub of_string-IsAddress : (s : Bytes) → Any IsAddress (of_string u n s)
  unfolding of_string
  of_string-IsAddress [] = tt
  of_string-IsAddress (c ∷ s) = elim (Bool-cases (c == b'[')) [
    | inl bracket ↦ rw bracket (
        Any-elim IsAddress (copy_v6 u 0 s) (λ x. with_port u (parse_v6 n x.0) x.1)
          λ x e. with_port-IsAddress (parse_v6 n x.0) x.1 (parse_v6-IsIp n x.0))
    | inr plain ↦ rw plain (elim (Bool-cases (is_ip_v4_string (c ∷ s))) [
      | inl v4 ↦ rw v4 (
          Any-elim IsAddress (copy_v4 u 0 (c ∷ s)) (λ x. with_port u (parse_v4 n x.0) x.1)
            λ x e. with_port-IsAddress (parse_v4 n x.0) x.1 (parse_v4-IsIp n x.0))
      | inr v6 ↦ rw v6 (
          Any-elim IsAddress (parse_v6 n (c ∷ s)) (λ h. some (record { host = h; port = 0 }))
            λ h e. record {
              host = Any-at IsIp (parse_v6 n (c ∷ s)) h (parse_v6-IsIp n (c ∷ s)) e;
              port_lt = omega arith;
            })
    ])
  ]
