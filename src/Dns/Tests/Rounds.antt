-- ===== src/Dns/Tests/Rounds.antt =====
-- Rounds of the loop.
use setka.Prelude.{List, ◌≡◌, ◌^◌, ◌-◌, refl, true, false, none, some, [], ◌∷◌, arith, replicate}
use setka.Utki.{sample}
use setka.Std.Map
use setka.Std.Multimap
use setka.Dns.Ids.{find_free_id}
use setka.Dns.Result.{not_found, failure}
use setka.Dns.Thread.{LookupThread, entries, new_thread, remove_resolver}
use setka.Dns.Thread.Consistent.{IsConsistent}
use setka.Dns.Thread.Remove.{remove_resolver_lem}
use setka.Dns.Client.{
  place, register, choose, resolve, Request, resolver_of, add_resolver, start, ok,
}
use setka.Dns.Client.Calls.{Call, resolves, cancels, call, calls, no_threads, calls-IsValid}
use setka.Dns.Run.{
  Completion, Run, ran, Event, datagram, accepted, expire, round, finish_reply, handle_messages,
}
use setka.Dns.Run.Keeps.{Keeps, IsGood, IsGoodEnd}
use setka.Dns.Run.Stops.{Stops}
use setka.Dns.Run.Reports.{Reported, expire_lem}
use setka.Dns.Run.WithCalls.{calls_on}
use setka.Dns.Run.System.{begun, start_run, here, next, takes_messages, run-IsSafe}
use setka.Dns.Run.Ends.{Ends}
use setka.Dns.Run.Ends.Whole.{round-Ends}
use setka.Dns.Run.Loop.{Turn}
use setka.Dns.Run.Faults.{finish_reply-early}
use setka.Dns.Tests.Calls.{request}

-- A request whose time wraps around.
abbrev late_request : Request
late_request = record (request 7) { cur_time = 2 ^ 32 - 10 }

abbrev run_of : Request → Run
run_of q = record {
  thread = start q (add_resolver new_thread q 0);
  waits_for_write = false;
  completed = [];
  sent = [];
}

abbrev pub busy : Run
busy = run_of (request 7)

pub busy-IsGood : IsGood busy
unfolding call calls resolve choose register find_free_id place add_resolver Map.insert
busy-IsGood = calls-IsValid no_threads (resolves (request 7) ∷ []) tt

abbrev ignore : Completion → LookupThread → LookupThread
ignore c t = t

-- Another thread cancels while a callback runs.
abbrev cancel_other : Completion → LookupThread → LookupThread
cancel_other c t = (remove_resolver t 9).0

cancel_other-IsConsistent :
    (c : Completion) (t : LookupThread) → IsConsistent t → IsConsistent (cancel_other c t)
cancel_other-IsConsistent c t v = (remove_resolver_lem t 9 v).0

-- The request is sent, and a datagram with another id is received.
abbrev event : Event
event = record {
  has_error = false;
  received = some (datagram (replicate 512 1) 20);
  can_write = true;
  sends = accepted 23 ∷ [];
  cur_time = 200;
}

round-Ends_example : Ends IsGoodEnd (round sample [] ignore 3 event busy)
unfolding add_resolver Map.insert Map.find
round-Ends_example =
    round-Ends sample [] ignore (λ c t v. v) (λ c t. omega arith) 1 3 event busy
      (busy-IsGood, omega arith) (omega arith) λ h r e. absurd (ground arith)

expire_lem_example :
    Stops
      (Reported 30000 (entries busy.thread.time_map1 busy.thread) busy)
      (expire sample [] ignore 2 (some 30000) busy)
unfolding add_resolver Map.insert Multimap.insert
expire_lem_example =
    expire_lem sample [] ignore (λ c t. refl) 2 30000 busy busy-IsGood (omega arith)

-- The queue cannot be read yet, and no packet comes.
abbrev nothing_comes : Turn
nothing_comes = record {
  event = record {
    has_error = false;
    received = none;
    can_write = false;
    sends = [];
    cur_time = 2 ^ 32 - 9;
  };
  calls = [];
  is_triggered = true;
  can_pop = true;
}

finish_reply-early_example :
    (s' : Run) × (finish_reply sample [] ignore busy
        (resolver_of (request 7) 0 new_thread)
        (failure not_found)
      ≡ ran s')
    × ¬ IsGood s'
unfolding add_resolver Map.insert Map.find resolver_of
finish_reply-early_example =
    finish_reply-early sample [] ignore busy 7 (resolver_of (request 7) 0 new_thread)
      (failure not_found) busy-IsGood refl refl refl refl

-- Each callback cancels a request, and starts another one for its own resolver.
abbrev pub restart : Completion → List Call
restart c = cancels 9 ∷ resolves (request c.hnr) ∷ []

-- The thread of the first request, when its socket is open, and after its first message.
abbrev opened : Run
opened = begun (request 7).dns_ip busy.thread

first_resolved :
    resolve no_threads (request 7) ≡ ok (record { thread = some busy.thread; previous = [] })
unfolding resolve choose register find_free_id place
first_resolved = refl

run-IsSafe_example :
    IsGood (handle_messages opened)
    × Keeps IsGoodEnd (round sample [] (λ c. calls_on (restart c)) 9 event (handle_messages opened))
unfolding start_run handle_messages add_resolver Map.insert Map.find
run-IsSafe_example =
    run-IsSafe sample [] restart no_threads (record { thread = some busy.thread; previous = [] })
      (request 7) busy.thread 9 9 (request 7).dns_ip true opened (handle_messages opened) event true
      tt first_resolved refl refl (next _ _ _ (takes_messages opened) (here _))
      λ h r e. absurd (ground arith)
