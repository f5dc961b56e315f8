-- ===== src/Dns/Run/Loop.antt =====
-- src/setka/dns_resolver.cpp, `LookupThread::run` as a whole, but for the join of the previous thread and
-- the mutexes: `InitDNS`, the opening of the socket, and the loop over rounds, waits and messages.
pub mod Refines
pub mod Answered
pub mod Late
use setka.Prelude.{
  ℕ, suc, ◌+◌, Bool, true, false, ◌&&◌, Option, none, some, List, [], ◌∷◌, if◌then◌else◌, length,
}
use setka.Utki.{Utki, Bytes}
use setka.Address.Parse.{Inet}
use setka.Dns.Init.{init_dns}
use setka.Dns.Thread.{LookupThread}
use setka.Dns.Client.Calls.{Call}
use setka.Dns.Run.{Completion, Run, Step, ran, ◌>>=◌, Event, round, handle_messages}
use setka.Dns.Run.Sending.{rounds}
use setka.Dns.Run.System.{meanwhile, start_run}
use setka.Dns.Run.WithCalls.{calls_on}

-- What a passage of the loop meets: the event of its round, the calls of other threads until the wait is
-- over, whether the wait ends before its timeout, and whether the queue can be read then.
pub record Turn : Type 0 where
  pub event : Event
  pub calls : List Call
  pub is_triggered : Bool
  pub can_pop : Bool

-- How the loop is left, if it is: it is not entered, it is broken, it sees `quitFlag`; or it goes on.
pub data Ending : Type 0 where
  unopened breaks quits goes_on : Ending

-- Enough fuel for a round, where callbacks add no requests.
abbrev pub round_fuel : LookupThread → ℕ
round_fuel t = let n = length t.resolvers_map in suc (n + rounds n)

-- The wait, and the messages.
pub wait : Turn → Run → Run
wait turn s =
    let s = record s { thread = calls_on turn.calls s.thread } in
    if turn.is_triggered && turn.can_pop then handle_messages s else s

module _ (u : Utki) (stack : Bytes) (callbacks : Completion → List Call) where
  -- The loop, for so many passages at most.
  pub run_loop : List Turn → Run → Step (Run × Ending)
  unfolding round wait
  run_loop [] s = ran (s, if s.thread.quit_flag then quits else goes_on)
  run_loop (turn ∷ turns) s =
      if s.thread.quit_flag
      then ran (s, quits)
      else (round u stack (meanwhile u stack callbacks) (round_fuel s.thread) turn.event s >>= λ r.
          elim r.1 [ none ↦ ran (r.0, breaks) | some timeout ↦ run_loop turns (wait turn r.0) ])

  -- `run`, with what resolv.conf has if it can be read, and whether the socket can be opened
  pub run : Inet → Option Bytes → Bool → List Turn → LookupThread → Step (Run × Ending)
  unfolding run_loop start_run
  run n file opens turns t =
      start_run u stack (meanwhile u stack callbacks) (round_fuel t) (init_dns n file) opens t
      >>= λ r. if r.1 then run_loop turns r.0 else ran (r.0, unopened)
