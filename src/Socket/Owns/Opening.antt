-- ===== src/Socket/Owns/Opening.antt =====
-- Rules for methods that open a socket, or need an open or a closed one.
use setka.Prelude.{ℕ, ◌≡◌, refl, Bool, false, ◌||◌, ◌&&◌, Option, none, some, arith, ◌==◌}
use setka.Socket.Method.{logic_error, Result, throws, Io}
use setka.Socket.Posix.{Family, Kind, Answer, returns, fails, Kernel, Opens, Descriptors}
use setka.Socket.{World, set_sock, call, with_sock, if_closed, or_throw}
use setka.Socket.Owns.Rules.{Ensures-throw}
use setka.Socket.Owns.{Holds, Owns, Holds-Owns, After, Ensures}

module _ (k : Kernel) (os : Descriptors k) (others : ℕ → Bool) where
  module _ {E : Type 0} where
    -- A descriptor that was created and is not yet the socket's
    abbrev pub Created : Answer ℕ → World E k.State → Type 0
    Created (fails e) w = Holds k os others none w
    Created (returns d) w =
        (w.object.sock ≡ none)
        × ((c : ℕ) → os.is_open w.kernel c ≡ (others c || c == d))
        × ((c : ℕ) → (others c && c == d) ≡ false)

    Opens-Created :
        (r : Answer ℕ) (s : k.State) (w : World E k.State)
        → Holds k os others none w
        → Opens os.is_open r w.kernel s
        → Created r (record w { kernel = s })
    Opens-Created (fails e) s w h opens = record {
      handle = h.handle;
      opened = λ c. ground (arith, opens c, h.opened c);
      apart = h.apart;
    }
    Opens-Created (returns d) s w h (fresh, opens) =
        (h.handle, λ c. ground (arith, opens c, h.opened c), λ c. ground (arith, h.opened c))

    pub Ensures-socket :
        (f : Family) (t : Kind)
        → Ensures k os others {E = E} (Holds k os others none) (call (k.socket f t)) Created
    Ensures-socket f t = record { at = λ w h. Opens-Created _ _ w h (os.opens-socket f t w.kernel) }

    pub Ensures-or_throw-Created :
        (r : Answer ℕ)
        → Ensures k os others {E = E} (Created r) (or_throw r) (λ d. Created (returns d))
    Ensures-or_throw-Created (returns d) = record { at = λ w p. p }
    Ensures-or_throw-Created (fails e) = Ensures-throw k os others _ none (λ d. Created (returns d))

    pub Ensures-set_sock :
        (d : ℕ)
        → Ensures k os others {E = E}
            (Created (returns d))
            (set_sock (some d))
            (λ _. Holds k os others (some d))
    Ensures-set_sock d = record {
      at = λ w (handle, opened, apart). record { handle = refl; opened = opened; apart = apart };
    }

    pub Ensures-with_sock :
        {A : Type 0} (f : ℕ → Io (World E k.State) A) (Q : A → World E k.State → Type 0)
        → ((d : ℕ) → Ensures k os others (Holds k os others (some d)) (f d) Q)
        → Ensures k os others (Owns k os others) (with_sock f) Q
    Ensures-with_sock {A} f Q e = record { at = λ w h. go w w.object.sock h }
      where
        go :
            (w : World E k.State) (o : Option ℕ)
            → Holds k os others o w
            → After k os others Q (elim o as (λ _. Result A × World E k.State) [
              | none ↦ (throws logic_error, w)
              | some d ↦ f d w
            ])
        go w none h = Holds-Owns k os others none w h
        go w (some d) h = (e d).at w h

    pub Ensures-if_closed :
        {A : Type 0} (m : Io (World E k.State) A) (Q : A → World E k.State → Type 0)
        → Ensures k os others (Holds k os others none) m Q
        → Ensures k os others (Owns k os others) (if_closed m) Q
    Ensures-if_closed {A} m Q e = record { at = λ w h. go w w.object.sock h }
      where
        go :
            (w : World E k.State) (o : Option ℕ)
            → Holds k os others o w
            → After k os others Q (elim o as (λ _. Result A × World E k.State) [
              | none ↦ m w
              | some d ↦ (throws logic_error, w)
            ])
        go w none h = e.at w h
        go w (some d) h = Holds-Owns k os others (some d) w h

    -- On a socket that is known to be open
    pub Ensures-with_handle :
        {A : Type 0} (d : ℕ) (f : ℕ → Io (World E k.State) A) (Q : A → World E k.State → Type 0)
        → Ensures k os others (Holds k os others (some d)) (f d) Q
        → Ensures k os others (Holds k os others (some d)) (with_sock f) Q
    Ensures-with_handle {A} d f Q e = record { at = λ w h. go w w.object.sock h.handle h }
      where
        go :
            (w : World E k.State) (o : Option ℕ)
            → o ≡ some d
            → Holds k os others (some d) w
            → After k os others Q (elim o as (λ _. Result A × World E k.State) [
              | none ↦ (throws logic_error, w)
              | some c ↦ f c w
            ])
        go w none q h = absurd (ground arith)
        go w (some c) q h = let same : c ≡ d = ground arith in rw same (e.at w h)
