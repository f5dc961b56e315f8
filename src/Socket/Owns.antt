-- ===== src/Socket/Owns.antt =====
-- Which descriptors a socket owns, and how methods keep account of them.
pub mod Rules
pub mod Opening
use setka.Prelude.{
  ℕ, zero, suc, ◌≡◌, refl, sym, subst, inl, inr, Bool, true, false, ◌||◌, ◌&&◌, Option, none, some,
  arith, ◌==◌, if◌then◌else◌, Bool-cases,
}
use setka.Socket.Method.{
  Error, logic_error, Result, ok, throws, out_of_fuel, Io, pure, throw, gets, ◌>>=◌, when,
}
use setka.Socket.Posix.{
  Family, Kind, Answer, returns, fails, Answer-cases, Kernel, IsQuiet, Opens, Descriptors,
}
use setka.Socket.{
  Flags, World, set_sock, set_flags, set_members, call, with_sock, if_closed, or_throw, close_sock,
  close, retry,
}

-- Whether a socket with this handle owns a descriptor.
abbrev pub holds : Option ℕ → ℕ → Bool
holds none c = false
holds (some d) c = c == d

module _ (k : Kernel) (os : Descriptors k) (others : ℕ → Bool) where
  -- The descriptors that are open are those of the others and that of the socket, which is none of
  -- theirs.
  pub record Holds {E : Type 0} (o : Option ℕ) (w : World E k.State) : Type 0 where
    pub handle : w.object.sock ≡ o
    pub opened : (c : ℕ) → os.is_open w.kernel c ≡ (others c || holds o c)
    pub apart : (c : ℕ) → (others c && holds o c) ≡ false

  abbrev pub Owns : {E : Type 0} → World E k.State → Type 0
  Owns w = Holds w.object.sock w

  pub Holds-Owns : {E : Type 0} (o : Option ℕ) (w : World E k.State) → Holds o w → Owns w
  Holds-Owns o w h = subst (λ p. Holds p w) (sym h.handle) h

  -- The socket is open.
  abbrev pub IsOpened : {E : Type 0} → World E k.State → Type 0
  IsOpened w = (d : ℕ) × Holds (some d) w

  -- A condition on the end of a method that returns; one that does not, owns its descriptor.
  abbrev pub After :
      {E A : Type 0} → (A → World E k.State → Type 0) → Result A × World E k.State → Type 0
  After Q (ok a, w) = Q a w
  After Q (throws e, w) = Owns w
  After Q (out_of_fuel, w) = Owns w

  pub record Ensures {E A : Type 0} (P : World E k.State → Type 0) (m : Io (World E k.State) A)
      (Q : A → World E k.State → Type 0) : Type 0 where
    pub at : (w : World E k.State) → P w → After Q (m w)
