-- ===== src/Socket/Calls/Accepts.antt =====
-- `accept`: the new socket owns the descriptor of the connection, and the server keeps its own.
use setka.Prelude.{ℕ, ◌≡◌, ◌≢◌, refl, Bool, false, ◌||◌, ◌&&◌, Option, none, some, arith}
use setka.Socket.Method.{logic_error, Result, ok, throws, out_of_fuel, ◌>>=◌, ◌>>◌}
use setka.Socket.Posix.{Answer, returns, fails, Kernel, Opens, Descriptors}
use setka.Socket.{Socket, new_socket, set_flags, call, close, disable_naggle, set_nonblocking_mode}
use setka.Socket.Tcp.{Tcp}
use setka.Socket.Server.{Server, prepare, return_local, accepted, accept}
use setka.Socket.Owns.{Holds, Holds-Owns, Owns, holds, After, Ensures}
use setka.Socket.Owns.Rules.{Ensures-close, Ensures-when}
use setka.Socket.Owned.{H, then_do, Ensures-set_nonblocking, Ensures-disable_naggle}

module _ (k : Kernel) (os : Descriptors k) (others : ℕ → Bool) where
  -- The descriptors that a socket that was accepted by one with this handle finds taken
  abbrev pub with_server : Option ℕ → ℕ → Bool
  with_server o c = others c || holds o c

  -- What `accept` may end with: a socket that is closed or has a descriptor of its own, beside that of
  -- the server; or nothing, and no new descriptor.
  abbrev pub IsAcceptEnd : Option ℕ → Result (Socket (Unit {0})) × Server k.State → Type 0
  IsAcceptEnd o (ok s, w) =
      Owns k os (with_server o) (record { object = s; kernel = w.kernel }) × (w.object.sock ≡ o)
  IsAcceptEnd o (throws e, w) = Owns k os others w × (w.object.sock ≡ o)
  IsAcceptEnd o (out_of_fuel, w) = ⊥

  module _ (o : Option ℕ) where
    abbrev local : (s : Socket (Unit {0})) → k.State → Tcp k.State
    local s n = record { object = s; kernel = n }

    -- With no socket beside it, the server owns its descriptor.
    alone :
        (w : Server k.State) (l : Tcp k.State)
        → w.object.sock ≡ o
        → ((c : ℕ) → (others c && holds o c) ≡ false)
        → Holds k os (with_server o) none l
        → w.kernel ≡ l.kernel
        → Owns k os others w
    alone w l handle apart h same =
        Holds-Owns k os others o w
          (record { handle = handle; opened = λ c. ground (arith, h.opened c); apart = apart })

    Ensures-prepare :
        (d : ℕ) (no_delay : Bool)
        → Ensures k os
            (with_server o)
            (H k os (with_server o) (some d))
            (prepare k no_delay)
            (λ _. H k os (with_server o) (some d))
    Ensures-prepare d no_delay =
        then_do k os (with_server o) _ _ _ _ (Ensures-set_nonblocking k os (with_server o) d) (
          Ensures-when k os (with_server o) _ no_delay _
            (Ensures-disable_naggle k os (with_server o) d))

    prepare-ends : (no_delay : Bool) (l : Tcp k.State) → (prepare k no_delay l).0 ≢ out_of_fuel
    unfolding set_nonblocking_mode disable_naggle
    prepare-ends no_delay l e = ground arith

    return_local-end :
        (w : Server k.State) (d : ℕ) (r : Result (Unit {0}) × Tcp k.State)
        → w.object.sock ≡ o
        → ((c : ℕ) → (others c && holds o c) ≡ false)
        → r.0 ≢ out_of_fuel
        → After k os (with_server o) (λ _. H k os (with_server o) (some d)) r
        → IsAcceptEnd o (return_local k r w)
    unfolding close
    return_local-end w d (ok u, s) handle apart ends h =
        (Holds-Owns k os (with_server o) (some d) _ h, handle)
    return_local-end w d (throws e, s) handle apart ends h = (
      alone _ (close k s).1 handle apart ((Ensures-close k os (with_server o) s.object.sock).at s h)
          refl,
      handle,
    )
    return_local-end w d (out_of_fuel, s) handle apart ends h = absurd (ends refl)

    accepted-end :
        (r : Answer ℕ) (w : Server k.State) (s : k.State)
        → Holds k os others o w
        → Opens os.is_open r w.kernel s
        → IsAcceptEnd o (accepted k r (record w { kernel = s }))
    accepted-end (fails e) w s h opens = (
      record {
        handle = refl;
        opened = λ c. ground (arith, opens c, h.opened c);
        apart = λ c. ground arith;
      },
      h.handle,
    )
    accepted-end (returns d) w s h (fresh, opens) =
        let l : Tcp k.State = local (record (new_socket tt) { sock = some d }) s in
        return_local-end (record w { kernel = s }) d (prepare k w.object.members l) h.handle h.apart
          (prepare-ends w.object.members l)
          ((Ensures-prepare d w.object.members).at l (record {
            handle = refl;
            opened = λ c. ground (arith, opens c, h.opened c);
            apart = λ c. ground (arith, h.opened c);
          }))

  accept_from :
      (w : Server k.State) (o : Option ℕ)
      → Holds k os others o w
      → IsAcceptEnd o (elim o as (λ _. Result (Socket (Unit {0})) × Server k.State) [
        | none ↦ (throws logic_error, w)
        | some d ↦
            (set_flags (λ f. record f { read = false }) >> (call (k.accept d) >>= accepted k)) w
      ])
  accept_from w none h = (Holds-Owns k os others none w h, h.handle)
  accept_from w (some d) h =
      accepted-end (some d) _ _ _ (record { handle = h.handle; opened = h.opened; apart = h.apart })
        (os.opens-accept d w.kernel)

  -- `accept` on a server socket ends with a socket that is closed, or has a descriptor that is neither
  -- the server's nor one of the others' and that it alone opened; or it throws, and has opened none. The
  -- server keeps its descriptor. This if the descriptors that were open before are those of the others
  -- and that of the server, and if no other thread opens or closes any.
  pub accept-Owns :
      (w : Server k.State) → Owns k os others w → IsAcceptEnd w.object.sock (accept k w)
  unfolding accept
  accept-Owns w h = accept_from w w.object.sock h
