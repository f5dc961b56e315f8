-- ===== src/Dns/Run/State.antt =====
-- The state of the loop of `LookupThread::run`, and what the calls in it can do.
use setka.Prelude.{ℕ, Bool, true, false, Option, none, some, List, [], ◌∷◌, ◌==◌, if◌then◌else◌}
use setka.Utki.{Bytes}
use setka.Address.{Ip, Address}
use setka.Std.Map
use setka.Dns.Result.{DnsResult, not_found}
use setka.Dns.Thread.{Resolver, LookupThread}

-- A call of `on_completed`.
pub record Completion : Type 0 where
  pub hnr : ℕ
  pub result : DnsResult
  pub host : Ip

-- The thread, whether its wait set waits for writing too, the calls of `on_completed` and the
-- datagrams that were sent, in order.
pub record Run : Type 0 where
  pub thread : LookupThread
  pub waits_for_write : Bool
  pub completed : List Completion
  pub sent : List (Address × Bytes)

-- A part of the loop goes on with a value, uses a null or dangling pointer, reads what a map's `end()`
-- points to, or reads outside of a packet. The loops over the tables take fuel.
pub data Step {ℓ} (A : Type ℓ) : Type ℓ where
  ran : A → Step A
  null_pointer past_the_end overread out_of_fuel : Step A

infixl 5 ◌>>=◌
abbrev pub ◌>>=◌ {ℓ κ} : {A : Type ℓ} {B : Type κ} → Step A → (A → Step B) → Step B
ran a >>= f = f a
null_pointer >>= f = null_pointer
past_the_end >>= f = past_the_end
overread >>= f = overread
out_of_fuel >>= f = out_of_fuel

-- `i->second` of a pointer to a `Resolver`
abbrev pub deref : ℕ → LookupThread → Step Resolver
deref h t = elim (Map.find h t.resolvers_map) [ none ↦ null_pointer | some r ↦ ran r ]

-- A request that was changed in place.
abbrev pub set_resolver : Resolver → LookupThread → LookupThread
set_resolver r t = record t { resolvers_map = Map.insert r.hnr r (Map.erase r.hnr t.resolvers_map) }

abbrev pub is_not_found : DnsResult → Bool
is_not_found not_found = true
is_not_found _ = false

-- What `socket.recieve` does: it throws, or it fills the buffer and returns a size.
pub data Received : Type 0 where
  receive_throws : Received
  datagram : Bytes → ℕ → Received

-- What `socket.send` does: it throws, or it returns the number of the bytes sent.
pub data Sent : Type 0 where
  send_throws : Sent
  accepted : ℕ → Sent

-- What `SendRequestToDNS` of a datagram of some size comes to: it throws, it returns false, or it
-- returns true and leaves the later calls.
pub data Attempt : Type 0 where
  attempt_throws not_sent : Attempt
  all_sent : List Sent → Attempt

abbrev pub attempt : ℕ → List Sent → Attempt
attempt size [] = not_sent
attempt size (send_throws ∷ results) = attempt_throws
attempt size (accepted n ∷ results) = if n == size then all_sent results else not_sent

abbrev pub after_attempt : Attempt → Run → (List Sent → Step (Run × Bool)) → Step (Run × Bool)
after_attempt attempt_throws s go_on = ran (s, true)
after_attempt not_sent s go_on = ran (s, false)
after_attempt (all_sent results) s go_on = go_on results

-- What a round of the loop meets: the flags of the socket, and what the calls of it and of the clock
-- give. A call of `send` behind the last one listed finds the socket not ready.
pub record Event : Type 0 where
  pub has_error : Bool
  pub received : Option Received
  pub can_write : Bool
  pub sends : List Sent
  pub cur_time : ℕ
