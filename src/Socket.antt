-- ===== src/Socket.antt =====
-- src/setka/socket.hpp and socket.cpp: the base class of the sockets.
pub mod Method
pub mod Posix
pub mod Inet
pub mod Tcp
pub mod Create
pub mod Server
pub mod Udp
pub mod Moves
pub mod Owns
pub mod Owned
pub mod Calls
pub mod Interrupts
pub mod Windows
mod Tests
use setka.Prelude.{
  ℕ, zero, suc, Bool, true, false, not, Option, none, some, ◌==◌, if◌then◌else◌, ltb, ◌<◌, ◌+◌, ◌-◌,
  ◌%◌, ◌^◌, ◌≡◌, arith,
}
use setka.Socket.Method.{
  Error, logic_error, system_error, Result, ok, throws, out_of_fuel, Io, pure, throw, gets,
  throw_if, ◌>>=◌, ◌>>◌, modify, when,
}
use setka.Socket.Posix.{Sockaddr, in4, in6, SockOption, tcp_nodelay, Answer, returns, fails, Kernel}

-- `opros::waitable::readiness_flags`
pub record Flags : Type 0 where
  pub read : Bool
  pub write : Bool
  pub error : Bool

abbrev pub no_flags : Flags
no_flags = record { read = false; write = false; error = false }

-- A socket: the base class, with the members `E` of the derived one. `none` is `invalid_socket`.
pub record Socket (E : Type 0) : Type 0 where
  pub sock : Option ℕ
  pub readiness_flags : Flags
  pub members : E

-- `socket()`
abbrev pub new_socket : {E : Type 0} → E → Socket E
new_socket e = record { sock = none; readiness_flags = no_flags; members = e }

-- `is_open()`
abbrev pub is_open : {E : Type 0} → Socket E → Bool
is_open s = elim s.sock [ none ↦ false | some d ↦ true ]

-- `get_handle()`, but on Windows
abbrev pub get_handle : {E : Type 0} → Socket E → Option ℕ
get_handle s = s.sock

-- The object of a method, and the operating system.
pub record World (E S : Type 0) : Type 0 where
  pub object : Socket E
  pub kernel : S

-- The method's own changes of the object.
module _ {E S : Type 0} where
  abbrev pub set_sock : Option ℕ → Io (World E S) (Unit {0})
  set_sock o = modify (λ w. record w { object = record w.object { sock = o } })

  abbrev pub set_flags : (Flags → Flags) → Io (World E S) (Unit {0})
  set_flags f =
      modify (λ w. record w {
        object = record w.object { readiness_flags = f w.object.readiness_flags };
      })

  abbrev pub set_members : E → Io (World E S) (Unit {0})
  set_members e = modify (λ w. record w { object = record w.object { members = e } })

  -- A system call
  abbrev pub call : {A : Type 0} → (S → A × S) → Io (World E S) A
  call m w = let (a, s) = m w.kernel in (ok a, record w { kernel = s })

  -- `if(!this->is_open()) throw std::logic_error(...)`; a system call on `this->sock` follows.
  abbrev pub with_sock : {A : Type 0} → (ℕ → Io (World E S) A) → Io (World E S) A
  with_sock f w = elim w.object.sock [ none ↦ (throws logic_error, w) | some d ↦ f d w ]

  -- `if(this->is_open()) throw std::logic_error(...)`
  abbrev pub if_closed : {A : Type 0} → Io (World E S) A → Io (World E S) A
  if_closed m w = elim w.object.sock [ none ↦ m w | some d ↦ (throws logic_error, w) ]

-- `if(call == -1) throw std::system_error(errno, ...)`
abbrev pub or_throw : {S A : Type 0} → Answer A → Io S A
or_throw (returns a) = pure a
or_throw (fails e) = throw (system_error e)

module _ (k : Kernel) where
  -- The closing of a descriptor, if there is one.
  abbrev pub close_sock : Option ℕ → k.State → k.State
  close_sock none s = s
  close_sock (some d) s = k.close d s

  -- The port of `sin_port` or `sin6_port`
  abbrev pub port_of : Sockaddr → ℕ
  port_of (in4 a p) = k.ntohs p
  port_of (in6 a b c d p) = k.ntohs p

-- `int(size)` for a `size_t`, as a parameter of type `size_t` takes it: the lower 32 bits, with their sign.
pub size_of_int : ℕ → ℕ
size_of_int n = let m = n % 2 ^ 32 in if ltb m (2 ^ 31) then m else m + (2 ^ 64 - 2 ^ 32)

pub size_of_int_lem : (n : ℕ) → n < 2 ^ 31 → size_of_int n ≡ n
unfolding size_of_int
size_of_int_lem n h = ground arith

module _ (k : Kernel) {E : Type 0} where
  unfoldable pub close : Io (World E k.State) (Unit {0})
  close w = (
    ok tt,
    record {
      object = record w.object { sock = none; readiness_flags = no_flags };
      kernel = close_sock k w.object.sock w.kernel;
    },
  )

  unfoldable pub disable_naggle : Io (World E k.State) (Unit {0})
  disable_naggle = with_sock λ d. (do _ ← call (k.setsockopt d tcp_nodelay 1); pure tt)

  unfoldable pub set_nonblocking_mode : Io (World E k.State) (Unit {0})
  set_nonblocking_mode = with_sock λ d. (do
    got ← call (k.get_flags d)
    flags ← or_throw got
    set ← call (k.set_flags d (k.nonblocking flags))
    or_throw set)

  unfoldable pub get_local_port : Io (World E k.State) ℕ
  get_local_port =
      with_sock λ d. (do got ← call (k.getsockname d); addr ← or_throw got; pure (port_of k addr))

  -- The loops over a system call that starts again when it was interrupted.
  unfoldable pub retry :
      {A : Type 0} → ℕ → (k.State → Answer A × k.State) → Io (World E k.State) (Answer A)
  retry zero m w = (out_of_fuel, w)
  retry (suc fuel) m w =
      let (r, s) = m w.kernel in
      elim r [
        | returns a ↦ (ok (returns a), record w { kernel = s })
        | fails e ↦ elim (e == k.error_interrupted) [
          | true ↦ retry fuel m (record w { kernel = s })
          | false ↦ (ok (fails e), record w { kernel = s })
        ]
      ]
