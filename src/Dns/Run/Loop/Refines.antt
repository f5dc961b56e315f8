-- ===== src/Dns/Run/Loop/Refines.antt =====
-- src/setka/dns_resolver.cpp, `LookupThread::run`: the loop and the steps of Run.System.
use setka.Prelude.{ℕ, ◌≡◌, ◌∙◌, ap, inl, inr, ◌&&◌, some, List, [], ◌∷◌, Bool-cases, Option-cases}
use setka.Utki.{Utki, Bytes}
use setka.Dns.Client.Calls.{Call}
use setka.Dns.Run.{Completion, Run, ran, round}
use setka.Dns.Run.System.{
  meanwhile, IsInTime, Reaches-IsGood, runs_round, takes_messages, is_called, Reaches, here, next,
}
use setka.Dns.Run.WithCalls.{calls_on}
use setka.Dns.Run.Keeps.{Keeps, >>=-Keeps, Keeps-equal, Keeps-map, Keeps-if, IsGood, IsGoodEnd}
use setka.Dns.Run.WithCalls.{round_with_calls-IsConsistent}
use setka.Dns.Run.Loop.{Turn, round_fuel, wait, run_loop}

module _ (u : Utki) (stack : Bytes) (callbacks : Completion → List Call) where
  -- No passage of the loop receives a reply to a request that is still to be sent.
  abbrev pub AllInTime : List Turn → Run → Type 0
  AllInTime [] s = Unit
  AllInTime (turn ∷ turns) s =
      IsInTime u stack callbacks s turn.event.received
      × ((s' : Run) (timeout : ℕ)
          → round u stack (meanwhile u stack callbacks) (round_fuel s.thread) turn.event s
            ≡ ran (s', some timeout)
          → AllInTime turns (wait turn s'))

  Reaches-append :
      (s s' s'' : Run)
      → Reaches u stack callbacks s s'
      → Reaches u stack callbacks s' s''
      → Reaches u stack callbacks s s''
  Reaches-append _ _ s'' (here s) r = r
  Reaches-append _ _ s'' (next s s1 s2 g q) r = next s s1 s'' g (Reaches-append s1 s2 s'' q r)

  wait-Reaches : (turn : Turn) (s : Run) → Reaches u stack callbacks s (wait turn s)
  unfolding wait
  wait-Reaches turn s =
      let s1 = record s { thread = calls_on turn.calls s.thread } in
      next s s1 _ (is_called turn.calls s) (elim (Bool-cases (turn.is_triggered && turn.can_pop)) [
        | inl reads ↦ rw reads (next s1 _ _ (takes_messages s1) (here _))
        | inr waits ↦ rw waits (here s1)
      ])

  -- The loop of `LookupThread::run` goes from one state to the next as the steps of the lookup thread
  -- and of the calls do for which `run-IsSafe` holds, and uses no null or dangling pointer: this from
  -- consistent tables, with any callbacks and calls of other threads, for any number of passages that
  -- receive no reply to a request that is still to be sent.
  pub run_loop-Reaches :
      (turns : List Turn) (s : Run)
      → IsGood s
      → AllInTime turns s
      → Keeps
          (λ r. IsGood r.0 × Reaches u stack callbacks s r.0)
          (run_loop u stack callbacks turns s)
  unfolding run_loop
  run_loop-Reaches [] s v in_time = (v, here s)
  run_loop-Reaches (turn ∷ turns) s v (in_time, later) =
      Keeps-if _ s.thread.quit_flag _ _ (λ quit. (v, here s))
        λ stays.
          >>=-Keeps _ _
            (round u stack (meanwhile u stack callbacks) (round_fuel s.thread) turn.event s) _
            (Keeps-equal IsGoodEnd _ (
              round_with_calls-IsConsistent u stack callbacks (round_fuel s.thread) turn.event s v
                in_time))
            λ (s', o) (v', ends).
              let first = runs_round (round_fuel s.thread) turn.event s s' o stays in_time ends in
              elim (Option-cases o) [
                | inl left ↦ rw left (v', next s s' s' first (here s'))
                | inr (timeout, again) ↦
                    let waited = wait-Reaches turn s' in
                    rw again (
                      Keeps-map _ _ (run_loop u stack callbacks turns (wait turn s'))
                        (λ r (w, reached). (
                          w,
                          next s s' r.0 first (Reaches-append s' (wait turn s') r.0 waited reached),
                        ))
                        (run_loop-Reaches turns (wait turn s')
                          (Reaches-IsGood u stack callbacks s' (wait turn s') waited v')
                          (later s' timeout (ends ∙ ap (λ o. ran (s', o)) again))))
              ]
