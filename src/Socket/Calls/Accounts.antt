-- ===== src/Socket/Calls/Accounts.antt =====
-- Whatever is called on a socket, it keeps account of its descriptor.
use setka.Prelude.{
  ℕ, inl, inr, Bool, Option, none, some, List, [], ◌∷◌, ◌==◌, if◌then◌else◌, Bool-cases,
}
use setka.Socket.Method.{system_error, Result, ok, throws, out_of_fuel, Io, pure, throw}
use setka.Socket.Posix.{Kernel, Descriptors}
use setka.Socket.{Flags, World, set_flags, close, get_local_port, port_of}
use setka.Socket.Owns.{Holds-Owns, Owns, After, Ensures}
use setka.Socket.Owns.Rules.{
  Ensures-bind, Ensures-pure, Ensures-throw, Ensures-weaken, Ensures-set_flags, Ensures-close,
}
use setka.Socket.Owns.Opening.{Ensures-with_sock}
use setka.Socket.Owned.{H, then_call, then_or_throw}
use setka.Socket.Calls.{ignore, after_calls}

module _ (k : Kernel) (os : Descriptors k) (others : ℕ → Bool) where
  -- A method that keeps account
  abbrev pub Accounts : {E A : Type 0} → Io (World E k.State) A → Type 0
  Accounts m = Ensures k os others (Owns k os others) m (λ _. Owns k os others)

  -- From a handle that is known
  module _ {E : Type 0} where
    pub owns :
        {A : Type 0} (o : Option ℕ) (m : Io (World E k.State) A)
        → Ensures k os others (H k os others o) m (λ _. H k os others o)
        → Ensures k os others (H k os others o) m (λ _. Owns k os others)
    owns o m e =
        Ensures-weaken k os others m _ _ _ _ (λ w h. h) (λ a w h. Holds-Owns k os others o w h) e

    pub Accounts-ignore :
        {A : Type 0} (m : Io (World E k.State) A) → Accounts m → Accounts (ignore m)
    Accounts-ignore m e = Ensures-bind k os others _ _ _ _ _ e λ _. Ensures-pure k os others tt _

    pub Accounts-close : Accounts {E = E} (close k)
    unfolding close
    Accounts-close = record {
      at = λ w h. Holds-Owns k os others none _ ((Ensures-close k os others w.object.sock).at w h);
    }

    pub Accounts-flags : (f : Flags → Flags) → Accounts {E = E} (set_flags f)
    Accounts-flags f = record { at = λ w h. (Ensures-set_flags k os others w.object.sock f).at w h }

    pub Accounts-get_local_port : Accounts {E = E} (get_local_port k)
    unfolding get_local_port
    Accounts-get_local_port = Ensures-with_sock k os others _ _ λ d. owns (some d) _ (
        then_call k os others _ _ (k.getsockname d) _ (os.quiet-getsockname d)
          λ got. then_or_throw k os others _ _ got _ λ a. Ensures-pure k os others (port_of k a) _)

  -- The end of a method that returns a value or throws
  module _ {E A : Type 0} where
    pub Accounts-value :
        (d : ℕ) (a : A)
        → Ensures k os others {E = E} (H k os others (some d)) (pure a) (λ _. Owns k os others)
    Accounts-value d a = owns (some d) _ (Ensures-pure k os others a _)

    pub Accounts-again :
        (d e : ℕ) (a : A)
        → Ensures k os others {E = E}
            (H k os others (some d))
            (if e == k.error_again then pure a else throw (system_error e))
            (λ _. Owns k os others)
    Accounts-again d e a = elim (Bool-cases (e == k.error_again)) [
      | inl again ↦ rw again (Accounts-value d a)
      | inr failed ↦ rw failed (Ensures-throw k os others _ (some d) _)
    ]

  pub after_calls-Owns :
      {E C : Type 0} (f : C → Io (World E k.State) (Unit {0}))
      → ((c : C) → Accounts (f c))
      → (cs : List C) (w : World E k.State) → Owns k os others w
      → Owns k os others (after_calls f cs w)
  unfolding after_calls
  after_calls-Owns f e [] w h = h
  after_calls-Owns {E} f e (c ∷ cs) w h =
      after_calls-Owns f e cs (f c w).1 (end_of (f c w) ((e c).at w h))
    where
      end_of :
          (r : Result (Unit {0}) × World E k.State)
          → After k os others (λ _. Owns k os others) r
          → Owns k os others r.1
      end_of (ok u, w) h = h
      end_of (throws x, w) h = h
      end_of (out_of_fuel, w) h = h
