-- ===== src/Socket/Owns/Rules.antt =====
-- Rules for methods that keep account of descriptors.
use setka.Prelude.{
  ℕ, zero, suc, ◌≡◌, refl, inl, inr, Bool, true, false, Option, none, some, arith, ◌==◌, ==_refl,
  if◌then◌else◌, Bool-cases,
}
use setka.Socket.Method.{Error, Result, ok, throws, out_of_fuel, Io, pure, throw, gets, ◌>>=◌, when}
use setka.Socket.Posix.{Answer, returns, fails, Answer-cases, Kernel, IsQuiet, Descriptors}
use setka.Socket.{Flags, World, set_flags, set_members, call, or_throw, close_sock, close, retry}
use setka.Socket.Owns.{holds, Holds, Holds-Owns, After, Ensures}

module _ (k : Kernel) (os : Descriptors k) (others : ℕ → Bool) where
  opened-close_sock :
      (o : Option ℕ) (c : ℕ) (s : k.State)
      → ((d : ℕ) → holds o d ≡ true → os.is_open s d ≡ true)
      → os.is_open (close_sock k o s) c ≡ (if holds o c then false else os.is_open s c)
  opened-close_sock none c s there = refl
  opened-close_sock (some d) c s there = os.open-close d c s (there d (==_refl d))

  module _ {E : Type 0} where
    pub Ensures-bind :
        {A B : Type 0} (P : World E k.State → Type 0) (m : Io (World E k.State) A)
        (f : A → Io (World E k.State) B) (Q : A → World E k.State → Type 0)
        (R : B → World E k.State → Type 0)
        → Ensures k os others P m Q
        → ((a : A) → Ensures k os others (Q a) (f a) R)
        → Ensures k os others P (m >>= f) R
    Ensures-bind {A} {B} P m f Q R e g = record { at = λ w p. go (m w) (e.at w p) }
      where
        go :
            (r : Result A × World E k.State)
            → After k os others Q r
            → After k os others R (elim r.0 [
              | ok a ↦ f a r.1
              | throws x ↦ (throws x, r.1)
              | out_of_fuel ↦ (out_of_fuel, r.1)
            ])
        go (ok a, w) h = (g a).at w h
        go (throws x, w) h = h
        go (out_of_fuel, w) h = h

    pub Ensures-pure :
        {A : Type 0} (a : A) (P : World E k.State → Type 0)
        → Ensures k os others P (pure a) (λ _. P)
    Ensures-pure a P = record { at = λ w p. p }

    pub Ensures-gets :
        {A : Type 0} (f : World E k.State → A) (P : World E k.State → Type 0)
        → Ensures k os others P (gets f) (λ _. P)
    Ensures-gets f P = record { at = λ w p. p }

    pub Ensures-throw :
        {A : Type 0} (e : Error) (o : Option ℕ) (Q : A → World E k.State → Type 0)
        → Ensures k os others (Holds k os others o) (throw e) Q
    Ensures-throw e o Q = record { at = Holds-Owns k os others o }

    -- From a stronger to a weaker condition, before and after
    pub Ensures-weaken :
        {A : Type 0} (m : Io (World E k.State) A) (P P' : World E k.State → Type 0)
        (Q Q' : A → World E k.State → Type 0)
        → ((w : World E k.State) → P' w → P w)
        → ((a : A) (w : World E k.State) → Q a w → Q' a w)
        → Ensures k os others P m Q
        → Ensures k os others P' m Q'
    Ensures-weaken {A} m P P' Q Q' before after e = record {
      at = λ w p. go (m w) (e.at w (before w p));
    }
      where
        go : (r : Result A × World E k.State) → After k os others Q r → After k os others Q' r
        go (ok a, w) h = after a w h
        go (throws x, w) h = h
        go (out_of_fuel, w) h = h

    module _ (o : Option ℕ) where
      pub Ensures-call :
          {A : Type 0} (m : k.State → A × k.State)
          → IsQuiet os.is_open m
          → Ensures k os others {E = E} (Holds k os others o) (call m) (λ _. Holds k os others o)
      Ensures-call m quiet = record {
        at = λ w h. record {
          handle = h.handle;
          opened = λ c. ground (arith, quiet w.kernel c, h.opened c);
          apart = h.apart;
        };
      }

      pub Ensures-set_flags :
          (f : Flags → Flags)
          → Ensures k os others {E = E}
              (Holds k os others o)
              (set_flags f)
              (λ _. Holds k os others o)
      Ensures-set_flags f = record {
        at = λ w h. record { handle = h.handle; opened = h.opened; apart = h.apart };
      }

      pub Ensures-set_members :
          (e : E)
          → Ensures k os others {E = E}
              (Holds k os others o)
              (set_members e)
              (λ _. Holds k os others o)
      Ensures-set_members e = record {
        at = λ w h. record { handle = h.handle; opened = h.opened; apart = h.apart };
      }

      pub Ensures-or_throw :
          {A : Type 0} (r : Answer A)
          → Ensures k os others {E = E}
              (Holds k os others o)
              (or_throw r)
              (λ _. Holds k os others o)
      Ensures-or_throw (returns a) = Ensures-pure a (Holds k os others o)
      Ensures-or_throw (fails e) = Ensures-throw _ o (λ _. Holds k os others o)

      pub Ensures-when :
          (test : Bool) (m : Io (World E k.State) (Unit {0}))
          → Ensures k os others (Holds k os others o) m (λ _. Holds k os others o)
          → Ensures k os others (Holds k os others o) (when test m) (λ _. Holds k os others o)
      Ensures-when true m e = e
      Ensures-when false m e = Ensures-pure tt (Holds k os others o)

      pub Ensures-close :
          Ensures k os others {E = E} (Holds k os others o) (close k) (λ _. Holds k os others none)
      unfolding close
      Ensures-close = record {
        at = λ w h. record {
          handle = refl;
          opened = λ c. ground (
            arith,
            h.opened c,
            h.apart c,
            h.handle,
            opened-close_sock w.object.sock c w.kernel
                (λ d e. ground (arith, h.opened d, h.handle)),
          );
          apart = λ c. ground arith;
        };
      }

      pub Ensures-retry :
          {A : Type 0} (fuel : ℕ) (m : k.State → Answer A × k.State)
          → IsQuiet os.is_open m
          → Ensures k os others {E = E}
              (Holds k os others o)
              (retry k fuel m)
              (λ _. Holds k os others o)
      unfolding retry
      Ensures-retry zero m quiet = record { at = λ w h. Holds-Owns k os others o w h }
      Ensures-retry (suc fuel) m quiet = record {
        at = λ w h.
            let after = (Ensures-call m quiet).at w h in
            elim (Answer-cases (m w.kernel).0) [
              | inl (a, e) ↦ rw (e, retry) after
              | inr (x, e) ↦
                  rw (e, retry)
                    (elim (Bool-cases (x == k.error_interrupted)) [
                      | inl again ↦ rw again ((Ensures-retry fuel m quiet).at _ after)
                      | inr failed ↦ rw failed after
                    ])
            ];
      }
