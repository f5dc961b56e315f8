-- ===== src/Dns/Tests/Loops.antt =====
-- Runs of the loop of the lookup thread.
use setka.Prelude.{List, ◌≡◌, ◌≢◌, ◌+◌, refl, true, false, none, [], ◌∷◌}
use setka.Utki.{sample}
use setka.Address.Tests.{inet}
use setka.Std.Map
use setka.Dns.Client.Calls.{Call, resolves}
use setka.Dns.Run.{accepted}
use setka.Dns.Run.Ends.{Ends}
use setka.Dns.Run.Answers.{told, filed}
use setka.Dns.Run.Loop.{Turn, quits, goes_on, run}
use setka.Dns.Run.Loop.Answered.{run_lem, no_calls}
use setka.Dns.Tests.Calls.{request}
use setka.Dns.Tests.Rounds.{busy, busy-IsGood}

-- The request is sent, and then nothing comes until its time is over; another thread calls meanwhile.
abbrev writes : List Call → Turn
writes cs = record {
  event = record {
    has_error = false;
    received = none;
    can_write = true;
    sends = accepted 23 ∷ [];
    cur_time = 200;
  };
  calls = cs;
  is_triggered = true;
  can_pop = true;
}

abbrev is_late : Turn
is_late = record {
  event = record {
    has_error = false;
    received = none;
    can_write = false;
    sends = [];
    cur_time = 40000;
  };
  calls = [];
  is_triggered = false;
  can_pop = false;
}

-- Another thread calls for resolver 8.
run_lem_example :
    Ends
      (λ r.
        (r.1 ≡ quits → r.0.thread.quit_flag ≡ true)
        × (r.1 ≢ quits
            → r.1 ≢ goes_on
            → (r.0.thread.resolvers_map ≡ []) × (r.0.thread.is_exiting ≡ true))
        × (told 7 r.0.completed + filed (Map.find 7 r.0.thread.resolvers_map)
            ≡ filed (Map.find 7 busy.thread.resolvers_map)))
      (run sample [] no_calls inet none true
        (writes (resolves (request 8) ∷ []) ∷ is_late ∷ [])
        busy.thread)
run_lem_example =
    run_lem sample [] 7 inet none true (writes (resolves (request 8) ∷ []) ∷ is_late ∷ [])
      busy.thread busy-IsGood ((refl, tt), (tt, tt)) (tt, λ s' ticks e. (tt, λ s' ticks e. tt))
