-- ===== src/Socket/Method.antt =====
-- Methods that change a state and may throw. What was written before a throw stays written.
use setka.Prelude.{ℕ, Bool, true, false}

pub data Error : Type 0 where
  logic_error : Error
  system_error : (error_code : ℕ) → Error

-- A method returns, throws, or is still in a loop when the fuel has run out.
pub data Result {ℓ} (A : Type ℓ) : Type ℓ where
  ok : A → Result A
  throws : Error → Result A
  out_of_fuel : Result A

abbrev pub Io : Type 0 → Type 0 → Type 0
Io S A = S → Result A × S

module _ {S A : Type 0} where
  abbrev pub pure : A → Io S A
  pure a s = (ok a, s)

  abbrev pub throw : Error → Io S A
  throw e s = (throws e, s)

  abbrev pub gets : (S → A) → Io S A
  gets f s = (ok (f s), s)

  -- `if(test) throw ...;`, and what follows
  abbrev pub throw_if : Bool → Error → Io S A → Io S A
  throw_if true e m = throw e
  throw_if false e m = m

infixl 5 ◌>>=◌ ◌>>◌
abbrev pub ◌>>=◌ : {S A B : Type 0} → Io S A → (A → Io S B) → Io S B
◌>>=◌ m f s =
    let (r, s') = m s in
    elim r [ ok a ↦ f a s' | throws e ↦ (throws e, s') | out_of_fuel ↦ (out_of_fuel, s') ]

abbrev pub ◌>>◌ : {S B : Type 0} → Io S (Unit {0}) → Io S B → Io S B
m >> k = m >>= λ _. k

abbrev pub modify : {S : Type 0} → (S → S) → Io S (Unit {0})
modify f s = (ok tt, f s)

-- `if(test){ ... }`
abbrev pub when : {S : Type 0} → Bool → Io S (Unit {0}) → Io S (Unit {0})
when true m = m
when false m = pure tt
