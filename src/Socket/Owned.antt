-- ===== src/Socket/Owned.antt =====
-- The methods of the sockets keep account of their descriptors.
use setka.Prelude.{ℕ, Bool, true, false, Option, none, some}
use setka.Socket.Method.{Io, pure, ◌>>=◌, ◌>>◌}
use setka.Socket.Posix.{
  pf_inet, pf_inet6, Kind, tcp_nodelay, ipv6_v6only, Answer, returns, fails, Kernel, IsQuiet,
  Descriptors,
}
use setka.Socket.{World, set_sock, call, or_throw, disable_naggle, set_nonblocking_mode, retry}
use setka.Socket.Create.{create_v4, dual_stack, created_v6, create, or_close}
use setka.Socket.Owns.{Holds, Ensures}
use setka.Socket.Owns.Rules.{
  Ensures-bind, Ensures-pure, Ensures-throw, Ensures-call, Ensures-or_throw, Ensures-close,
  Ensures-retry,
}
use setka.Socket.Owns.Opening.{
  Created, Ensures-socket, Ensures-or_throw-Created, Ensures-set_sock, Ensures-with_handle,
}

module _ (k : Kernel) (os : Descriptors k) (others : ℕ → Bool) {E : Type 0} where
  abbrev pub H : Option ℕ → World E k.State → Type 0
  H o = Holds k os others o

  -- The steps of a method that leave the handle as it is, and what follows them
  module _ {B : Type 0} (o : Option ℕ) (R : B → World E k.State → Type 0) where
    pub then_call :
        {A : Type 0} (m : k.State → A × k.State) (f : A → Io (World E k.State) B)
        → IsQuiet os.is_open m
        → ((a : A) → Ensures k os others (H o) (f a) R)
        → Ensures k os others (H o) (call m >>= f) R
    then_call m f quiet e =
        Ensures-bind k os others _ _ _ _ _ (Ensures-call k os others o m quiet) e

    pub then_or_throw :
        {A : Type 0} (r : Answer A) (f : A → Io (World E k.State) B)
        → ((a : A) → Ensures k os others (H o) (f a) R)
        → Ensures k os others (H o) (or_throw r >>= f) R
    then_or_throw r f e = Ensures-bind k os others _ _ _ _ _ (Ensures-or_throw k os others o r) e

    pub then_retry :
        {A : Type 0} (fuel : ℕ) (m : k.State → Answer A × k.State)
        (f : Answer A → Io (World E k.State) B)
        → IsQuiet os.is_open m
        → ((a : Answer A) → Ensures k os others (H o) (f a) R)
        → Ensures k os others (H o) (retry k fuel m >>= f) R
    then_retry fuel m f quiet e =
        Ensures-bind k os others _ _ _ _ _ (Ensures-retry k os others o fuel m quiet) e

    pub then_do :
        (m : Io (World E k.State) (Unit {0})) (n : Io (World E k.State) B)
        → Ensures k os others (H o) m (λ _. H o)
        → Ensures k os others (H o) n R
        → Ensures k os others (H o) (m >> n) R
    then_do m n e f = Ensures-bind k os others _ _ _ _ _ e λ _. f

  pub Ensures-set_nonblocking :
      (d : ℕ) → Ensures k os others (H (some d)) (set_nonblocking_mode k) (λ _. H (some d))
  unfolding set_nonblocking_mode
  Ensures-set_nonblocking d = Ensures-with_handle k os others d _ _ (
      then_call _ _ (k.get_flags d) _ (os.quiet-get_flags d) λ got. then_or_throw _ _ got _ λ flags.
        then_call _ _ (k.set_flags d (k.nonblocking flags)) _ (os.quiet-set_flags d _)
          λ set. Ensures-or_throw k os others _ set)

  pub Ensures-disable_naggle :
      (d : ℕ) → Ensures k os others (H (some d)) (disable_naggle k) (λ _. H (some d))
  unfolding disable_naggle
  Ensures-disable_naggle d = Ensures-with_handle k os others d _ _ (
      then_call _ _ (k.setsockopt d tcp_nodelay 1) _ (os.quiet-setsockopt d tcp_nodelay 1)
        λ _. Ensures-pure k os others tt _)

  pub Ensures-or_close :
      (d : ℕ) (r : Answer (Unit {0}))
      → Ensures k os others (H (some d)) (or_close k r) (λ _. H (some d))
  Ensures-or_close d (returns u) = Ensures-pure k os others tt _
  Ensures-or_close d (fails e) =
      Ensures-bind k os others _ _ _ _ _ (Ensures-close k os others (some d))
        λ _. Ensures-throw k os others _ none _

  -- The condition that a new socket's descriptor is the handle
  abbrev pub IsHandle : ℕ × Bool → World E k.State → Type 0
  IsHandle r = H (some r.0)

  return-IsHandle : (d : ℕ) (b : Bool) → Ensures k os others (H (some d)) (pure (d, b)) IsHandle
  return-IsHandle d b = record { at = λ w h. h }

  pub then_set_sock :
      {B : Type 0} (d : ℕ) (n : Io (World E k.State) B) (R : B → World E k.State → Type 0)
      → Ensures k os others (H (some d)) n R
      → Ensures k os others (Created k os others (returns d)) (set_sock (some d) >> n) R
  then_set_sock d n R e = Ensures-bind k os others _ _ _ _ _ (Ensures-set_sock k os others d) λ _. e

  Ensures-create_v4 : (kind : Kind) → Ensures k os others (H none) (create_v4 k kind) IsHandle
  Ensures-create_v4 kind =
      Ensures-bind k os others _ _ _ _ _ (Ensures-socket k os others pf_inet kind) λ created.
        Ensures-bind k os others _ _ _ _ _ (Ensures-or_throw-Created k os others created)
          λ d. then_set_sock d _ _ (return-IsHandle d true)

  Ensures-dual_stack :
      (kind : Kind) (d : ℕ) (r : Answer (Unit {0}))
      → Ensures k os others (H (some d)) (dual_stack k kind d r) IsHandle
  Ensures-dual_stack kind d (returns u) = return-IsHandle d false
  Ensures-dual_stack kind d (fails e) =
      Ensures-bind k os others _ _ _ _ _ (Ensures-close k os others (some d))
        λ _. Ensures-create_v4 kind

  Ensures-created_v6 :
      (kind : Kind) (r : Answer ℕ)
      → Ensures k os others (Created k os others r) (created_v6 k kind r) IsHandle
  Ensures-created_v6 kind (fails e) = Ensures-create_v4 kind
  Ensures-created_v6 kind (returns d) = then_set_sock d _ _ (
      then_call _ _ (k.setsockopt d ipv6_v6only 0) _ (os.quiet-setsockopt d ipv6_v6only 0)
        λ r. Ensures-dual_stack kind d r)

  pub Ensures-create : (kind : Kind) → Ensures k os others (H none) (create k kind) IsHandle
  unfolding create
  Ensures-create kind =
      Ensures-bind k os others _ _ _ _ _ (Ensures-socket k os others pf_inet6 kind)
        λ created. Ensures-created_v6 kind created
