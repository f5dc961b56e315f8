-- ===== src/InitGuard/Tests.antt =====
-- The library in a process that ignores SIGPIPE.
use setka.Dns.Thread.{LookupThread, new_thread}
use setka.Prelude.{arith, true, some, Bool, ◌&&◌, not, length, ◌==◌, ◌≡◌, ◌≢◌, refl, none, []}
use setka.InitGuard.{
  Handler, default, ignored, Signals, Process, construct, destroy, handled, destroy-construct,
}

abbrev signals : Signals
signals = record {
  State = Handler;
  signal = λ h s. (s, h);
  handler = λ s. s;
  signal_lem = λ h s. (refl, refl);
}

-- A lookup thread that has no requests.
abbrev process : Process signals
process = record { signals = ignored; threads = record { thread = some new_thread; previous = [] } }

abbrev idle : Process signals → Process signals
idle p = p

-- A thread ends if it is told to quit and has a message.
abbrev joins : LookupThread → Bool
joins t = t.quit_flag && not (length t.queue == 0)

joins_lem : (t : LookupThread) → t.quit_flag ≡ true → t.queue ≢ [] → joins t ≡ true
joins_lem t told woken = ground arith

destroy-construct_example :
    (handled signals (construct signals process) ≢ default)
    × (q : Process signals) × (destroy signals joins (idle (construct signals process)) ≡ some q)
    × (handled signals q ≡ default)
    × (q.threads.thread ≡ none)
destroy-construct_example = destroy-construct signals joins process idle joins_lem λ q. refl
