-- ===== src/Dns/Reply/Stays.antt =====
-- The steps of a parse that do not leave the packet, and how they compose.
use setka.Prelude.{
  ℕ, ◌≤◌, ◌≡◌, ltb→le, ◌/◌, refl, inl, inr, Bool, true, false, [], ◌∷◌, arith, ltb, ◌==◌, length,
  drop, Bool-cases,
}
use setka.Utki.{Utki, Bytes}
use setka.Dns.Result.{ParseResult, failure, dns_error}
use setka.Dns.Reply.{
  ◌>>=◌, return_if, need, Outcome, next, return, overread, skip_domain_name, skip_owner,
  check_flags, read16, read32,
}

-- A part that reads within the packet; what it hands on meets a condition.
abbrev pub Stays {ℓ} : {A : Type ℓ} → (A → Type 0) → Outcome A → Type 0
Stays P (next a) = P a
Stays P (return r) = Unit
Stays P overread = ⊥

pub >>=-Stays {ℓ κ} :
    {A : Type ℓ} {B : Type κ} (P : A → Type 0) (Q : B → Type 0) (m : Outcome A) (f : A → Outcome B)
    → Stays P m
    → ((a : A) → P a → Stays Q (f a))
    → Stays Q (m >>= f)
>>=-Stays P Q (next a) f h k = k a h
>>=-Stays P Q (return r) f h k = tt
>>=-Stays P Q overread f h k = h

abbrev pub Any {ℓ} : {A : Type ℓ} → A → Type 0
Any a = Unit {0}

module _ {ℓ} {B : Type ℓ} (Q : B → Type 0) where
  pub return_if-Stays :
      (test : Bool) (r : ParseResult) (k : Unit {0} → Outcome B)
      → (test ≡ false → Stays Q (k tt))
      → Stays Q (return_if test r >>= k)
  return_if-Stays true r k h = tt
  return_if-Stays false r k h = h refl

  pub need-Stays :
      (n : ℕ) (p : Bytes) (k : Unit {0} → Outcome B)
      → (n ≤ length p → Stays Q (k tt))
      → Stays Q (need n p >>= k)
  need-Stays n p k h =
      return_if-Stays (ltb (length p) n) (failure dns_error) k λ e. h (ltb→le (length p) n e)

pub skip_domain_name-Stays : (p : Bytes) → Stays Any (skip_domain_name p)
unfolding skip_domain_name
skip_domain_name-Stays [] = tt
skip_domain_name-Stays (c ∷ p) = elim (Bool-cases (c == 0)) [
  | inl zero_byte ↦ rw zero_byte tt
  | inr other ↦ rw other (skip_domain_name-Stays p)
]

pub skip_owner-Stays : (p : Bytes) → Stays Any (skip_owner p)
unfolding skip_owner
skip_owner-Stays [] = tt
skip_owner-Stays (c ∷ p) = elim (Bool-cases (c / 64 == 0)) [
  | inl name ↦ rw name (skip_domain_name-Stays (c ∷ p))
  | inr reference ↦ rw reference tt
]

pub check_flags-Stays : (flags : ℕ) → Stays Any (check_flags flags)
unfolding check_flags
check_flags-Stays flags = ground arith

module _ {ℓ} (u : Utki) {B : Type ℓ} (Q : B → Type 0) where
  pub read16-Stays :
      (p : Bytes) (k : ℕ × Bytes → Outcome B)
      → 2 ≤ length p
      → ((v : ℕ) → Stays Q (k (v, drop 2 p)))
      → Stays Q (read16 u p >>= k)
  read16-Stays [] k h q = absurd (omega arith)
  read16-Stays (a ∷ []) k h q = absurd (omega arith)
  read16-Stays (a ∷ b ∷ p) k h q = q (u.deserialize16be a b)

  pub read32-Stays :
      (p : Bytes) (k : ℕ × Bytes → Outcome B)
      → 4 ≤ length p
      → ((v : ℕ) → Stays Q (k (v, drop 4 p)))
      → Stays Q (read32 u p >>= k)
  read32-Stays [] k h q = absurd (omega arith)
  read32-Stays (a ∷ []) k h q = absurd (omega arith)
  read32-Stays (a ∷ b ∷ []) k h q = absurd (omega arith)
  read32-Stays (a ∷ b ∷ c ∷ []) k h q = absurd (omega arith)
  read32-Stays (a ∷ b ∷ c ∷ d ∷ p) k h q = q (u.deserialize32be a b c d)
