-- ===== src/Socket/Moves.antt =====
-- src/setka/socket.cpp, socket.hpp: move assignment and destruction of sockets.
use setka.Prelude.{
  true, ==_refl, ℕ, ◌≡◌, refl, Bool, false, ◌||◌, ◌&&◌, Option, none, some, arith, if◌then◌else◌,
}
use setka.Socket.Posix.{Kernel, Descriptors}
use setka.Socket.{Flags, no_flags, Socket, close_sock}
use setka.Socket.Owns.{holds}

-- Two objects and the system. (For an object and itself, the operator does nothing.)
pub record Pair (E S : Type 0) : Type 0 where
  pub target : Socket E
  pub source : Socket E
  pub kernel : S

-- What `opros::waitable::operator=` makes of the flags of its source, given those of both, is a
-- parameter; those that it gives the target are cleared by `close`.
module _ (k : Kernel) (moved : Flags → Flags → Flags) {E : Type 0} where
  -- `target = std::move(source)` of two objects, where `waitable::operator=` succeeds: it throws, and
  -- nothing else is done, if one of them is in a wait set.
  unfoldable pub move : Pair E k.State → Pair E k.State
  move p = record {
    target = record p.target { sock = p.source.sock; readiness_flags = no_flags };
    source = record p.source {
      sock = none;
      readiness_flags = moved p.target.readiness_flags p.source.readiness_flags;
    };
    kernel = close_sock k p.target.sock p.kernel;
  }

module _ (k : Kernel) (os : Descriptors k) where
  closed_only :
      (o : Option ℕ) (c : ℕ) (s : k.State)
      → ((d : ℕ) → holds o d ≡ true → os.is_open s d ≡ true)
      → os.is_open (close_sock k o s) c ≡ (if holds o c then false else os.is_open s c)
  closed_only none c s there = refl
  closed_only (some d) c s there = os.open-close d c s (there d (==_refl d))

module _ (k : Kernel) (os : Descriptors k) (others : ℕ → Bool) {E : Type 0} where
  -- The descriptors that are open are those of the others and of the two sockets, no two of which share
  -- one.
  pub record OwnBoth (p : Pair E k.State) : Type 0 where
    pub opened :
        (c : ℕ)
        → os.is_open p.kernel c ≡ (others c || holds p.target.sock c || holds p.source.sock c)
    pub apart_target : (c : ℕ) → (others c && holds p.target.sock c) ≡ false
    pub apart_source : (c : ℕ) → (others c && holds p.source.sock c) ≡ false
    pub apart_both : (c : ℕ) → (holds p.target.sock c && holds p.source.sock c) ≡ false

  -- Move assignment of one socket to another closes the descriptor that the target had, and no other;
  -- the target then has the source's, and the source none; the two share none. This if the descriptors
  -- that were open before are those of the others and of the two sockets, no two of which share one.
  pub move-OwnBoth :
      (moved : Flags → Flags → Flags) (p : Pair E k.State)
      → OwnBoth p
      → let q = move k moved p in
        OwnBoth q
        × (q.target.sock ≡ p.source.sock)
        × (q.source.sock ≡ none)
        × ((c : ℕ)
            → os.is_open q.kernel c
              ≡ (if holds p.target.sock c then false else os.is_open p.kernel c))
  unfolding move
  move-OwnBoth moved p h = (
    record {
      opened = λ c. ground (
        arith,
        closed_only k os p.target.sock c p.kernel (λ d e. ground (arith, h.opened d)),
        h.opened c,
        h.apart_target c,
        h.apart_both c,
      );
      apart_target = h.apart_source;
      apart_source = λ c. ground arith;
      apart_both = λ c. ground arith;
    },
    refl,
    refl,
    λ c. closed_only k os p.target.sock c p.kernel (λ d e. ground (arith, h.opened d)),
  )
