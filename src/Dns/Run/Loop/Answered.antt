-- ===== src/Dns/Run/Loop/Answered.antt =====
-- src/setka/dns_resolver.cpp, `LookupThread::run`: the account of one resolver, from the start of the thread.
use setka.Prelude.{
  ◌≢◌, ℕ, ◌+◌, ◌≡◌, ◌∙◌, ap, refl, inl, inr, Bool, true, false, ◌&&◌, Option, none, some, List, [],
  ◌∷◌, Bool-cases, if◌then◌else◌, arith, All, length,
}
use setka.Utki.{Utki, Bytes}
use setka.Std.Map
use setka.Address.{Address}
use setka.Address.Parse.{Inet}
use setka.Dns.Init.{init_dns}
use setka.Dns.Thread.{LookupThread}
use setka.Dns.Thread.Consistent.{IsConsistent, flags-IsConsistent, dns-IsConsistent}
use setka.Dns.Client.Calls.{Call, calls}
use setka.Dns.Run.{
  Completion, Run, Step, ran, null_pointer, past_the_end, overread, out_of_fuel, fail, round,
  handle_messages,
}
use setka.Dns.Run.System.{begun, start_run, meanwhile}
use setka.Dns.Run.WithCalls.{calls_on, calls_on-IsConsistent}
use setka.Dns.Run.Keeps.{Keeps, IsGood, IsGoodEnd}
use setka.Dns.Run.Ends.{Ends, >>=-Ends, Stops-Ends}
use setka.Dns.Run.Stops.{remove_all_resolvers-Stops}
use setka.Dns.Run.Ends.Whole.{round-Ends}
use setka.Dns.Run.Answers.{told, filed, HasLeft, Passed, fail-HasLeft}
use setka.Dns.Run.Answers.Rounds.{round-Passed}
use setka.Dns.Run.Loop.{
  Turn, Ending, unopened, quits, breaks, goes_on, round_fuel, wait, run_loop, run,
}
use setka.Dns.Run.Untouched.{names, find-calls_on}
use setka.Dns.Run.Loop.Refines.{AllInTime}

-- A step that ends, and of which more is known if it gives a value.
both :
    {A : Type 0} (P Q : A → Type 0) (m : Step A)
    → Ends P m
    → Keeps Q m
    → Ends (λ a. Q a × (m ≡ ran a)) m
both P Q (ran a) h q = (q, refl)
both P Q null_pointer h q = h
both P Q past_the_end h q = tt
both P Q overread h q = tt
both P Q out_of_fuel h q = h

Ends-map :
    {A : Type 0} (P Q : A → Type 0) (m : Step A) → ((a : A) → P a → Q a) → Ends P m → Ends Q m
Ends-map P Q (ran a) f h = f a h
Ends-map P Q null_pointer f h = h
Ends-map P Q past_the_end f h = tt
Ends-map P Q overread f h = tt
Ends-map P Q out_of_fuel f h = h

Ends-if :
    {A : Type 0} (P : A → Type 0) (b : Bool) (m n : Step A)
    → (b ≡ true → Ends P m)
    → (b ≡ false → Ends P n)
    → Ends P (if b then m else n)
Ends-if P true m n f g = f refl
Ends-if P false m n f g = g refl

calls_on-none : (t : LookupThread) → calls_on [] t ≡ t
unfolding calls
calls_on-none t = refl

abbrev pub no_calls : Completion → List Call
no_calls c = []

-- What is known of one resolver: its calls back and its requests come to a number.
abbrev Account : ℕ → ℕ → Run → Type 0
Account h c s = IsGood s × (told h s.completed + filed (Map.find h s.thread.resolvers_map) ≡ c)

wait-Account :
    (h c : ℕ) (turn : Turn) (s : Run)
    → All (λ call. names h call ≡ false) turn.calls
    → Account h c s
    → Account h c (wait turn s)
unfolding wait handle_messages
wait-Account h c turn s others (v, count) =
    let t = calls_on turn.calls s.thread in
    let w : IsConsistent t = calls_on-IsConsistent turn.calls s.thread v in
    let same : told h s.completed + filed (Map.find h t.resolvers_map) ≡ c =
      rw (find-calls_on h s.thread turn.calls v others) count in
    elim (Bool-cases (turn.is_triggered && turn.can_pop)) [
      | inl reads ↦
          rw reads
            (flags-IsConsistent t t.quit_flag t.is_exiting t.last_ticks_in_first_half [] w, same)
      | inr waits ↦ rw waits (w, same)
    ]

-- How the loop is left: broken only when nothing is left to report, and by itself not.
abbrev Answered : ℕ → ℕ → Run × Ending → Type 0
Answered h c (s, breaks) =
    Account h c s × (s.thread.resolvers_map ≡ []) × (s.thread.is_exiting ≡ true)
Answered h c (s, quits) = Account h c s × (s.thread.quit_flag ≡ true)
Answered h c (s, goes_on) = Account h c s
Answered h c (s, unopened) = ⊥

at_end :
    (h c : ℕ) (s : Run)
    → Account h c s
    → (quit : Bool) → s.thread.quit_flag ≡ quit
    → Answered h c (s, if quit then quits else goes_on)
at_end h c s a true e = (a, e)
at_end h c s a false e = a

-- The sums for all resolvers
abbrev sums : Run → ℕ → ℕ
sums s h = told h s.completed + filed (Map.find h s.thread.resolvers_map)

module _ (u : Utki) (stack : Bytes) where
  after_round :
      (h c : ℕ) (k : ℕ → ℕ) (b : Bool) (s : Run) (turn : Turn) (turns : List Turn) (o : Option ℕ)
      → k h ≡ c
      → Passed u stack (meanwhile u stack no_calls) (λ c t. calls_on-none t) k b (s, o)
      → ((ticks : ℕ)
          → o ≡ some ticks
          → Account h c s
          → Ends (Answered h c) (run_loop u stack no_calls turns (wait turn s)))
      → Ends (Answered h c) (elim o [
        | none ↦ ran (s, breaks)
        | some ticks ↦ run_loop u stack no_calls turns (wait turn s)
      ])
  after_round h c k b s turn turns none e (a, empty) go = ((a.good, a.count h ∙ e), empty, a.exits)
  after_round h c k b s turn turns (some ticks) e a go = go ticks refl (a.good, a.count h ∙ e)

  run_loop-Answered :
      (h c : ℕ) (turns : List Turn) (s : Run)
      → All (λ turn. All (λ call. names h call ≡ false) turn.calls) turns
      → Account h c s
      → AllInTime u stack no_calls turns s
      → Ends (Answered h c) (run_loop u stack no_calls turns s)
  unfolding run_loop
  run_loop-Answered h c [] s others a in_time = at_end h c s a s.thread.quit_flag refl
  run_loop-Answered h c (turn ∷ turns) s (own, others) (v, count) (in_time, later) =
      Ends-if _ s.thread.quit_flag _ _ (λ quit. ((v, count), quit))
        λ stays.
          >>=-Ends _ _
            (round u stack (meanwhile u stack no_calls) (round_fuel s.thread) turn.event s) _
            (both IsGoodEnd _ _
              (round-Ends u stack (meanwhile u stack no_calls) (λ c t. calls_on-IsConsistent [] t)
                (λ c t. omega (arith, ap (λ u. length u.resolvers_map) (calls_on-none t)))
                (length s.thread.resolvers_map) (round_fuel s.thread) turn.event s (v, omega arith)
                (omega arith) in_time)
              (round-Passed u stack (meanwhile u stack no_calls) (λ c t. calls_on-IsConsistent [] t)
                (λ c t. calls_on-none t) (sums s) s.thread.is_exiting (round_fuel s.thread)
                turn.event s (record { good = v; count = λ h. refl; exits = refl }) in_time))
            λ (s', o) (p, ends).
              after_round h c (sums s) s.thread.is_exiting s' turn turns o count p λ ticks again w.
                run_loop-Answered h c turns (wait turn s') others (wait-Account h c turn s' own w)
                  (later s' ticks (ends ∙ ap (λ o. ran (s', o)) again))

  summary :
      (h c : ℕ) (s : Run) (e : Ending)
      → Answered h c (s, e)
      → (e ≢ unopened)
        × (e ≡ quits → s.thread.quit_flag ≡ true)
        × (e ≡ breaks → (s.thread.resolvers_map ≡ []) × (s.thread.is_exiting ≡ true))
        × (told h s.completed + filed (Map.find h s.thread.resolvers_map) ≡ c)
  summary h c s breaks ((v, count), empty, exits) =
      (λ e. absurd (ground arith), λ e. absurd (ground arith), λ e. (empty, exits), count)
  summary h c s quits ((v, count), quit) =
      (λ e. absurd (ground arith), λ e. quit, λ e. absurd (ground arith), count)
  summary h c s goes_on (v, count) =
      (λ e. absurd (ground arith), λ e. absurd (ground arith), λ e. absurd (ground arith), count)
  summary h c s unopened a = absurd a

  only_breaks : (e : Ending) → e ≢ unopened → e ≢ quits → e ≢ goes_on → e ≡ breaks
  only_breaks e a b c = ground arith

  -- What a thread comes to that fails from its start.
  abbrev Shut : LookupThread → Run → Type 0
  Shut t s =
      (s.thread.resolvers_map ≡ [])
      × (s.thread.is_exiting ≡ true)
      × ((h : ℕ)
          → told h s.completed + filed (Map.find h s.thread.resolvers_map)
            ≡ filed (Map.find h t.resolvers_map))

  -- The failure to open the socket
  unopened-Ends :
      (dns : Address) (t : LookupThread)
      → IsConsistent t
      → Ends (Shut t) (fail u stack (meanwhile u stack no_calls) (round_fuel t) (begun dns t))
  unfolding fail told
  unopened-Ends dns t v =
      let good : IsGood (begun dns t) = dns-IsConsistent t dns v in
      let exiting =
        flags-IsConsistent (begun dns t).thread t.quit_flag true t.last_ticks_in_first_half t.queue
          good in
      let k : ℕ → ℕ = λ h. filed (Map.find h t.resolvers_map) in
      let m = fail u stack (meanwhile u stack no_calls) (round_fuel t) (begun dns t) in
      Ends-map (λ s. HasLeft k s × (m ≡ ran s)) _ m (λ s (l, e). (l.1, l.0.exits, l.0.count))
        (both (λ s. Unit {0}) (HasLeft k) m
          (Stops-Ends _ _ _ (λ s e. tt)
            (remove_all_resolvers-Stops u stack (meanwhile u stack no_calls)
              (λ c t. calls_on-IsConsistent [] t)
              (λ c t. omega (arith, ap (λ u. length u.resolvers_map) (calls_on-none t)))
              (length t.resolvers_map) (round_fuel t) _ (exiting, omega arith) (omega arith)))
          (fail-HasLeft u stack (meanwhile u stack no_calls) (λ c t. calls_on-none t) k t.is_exiting
            (round_fuel t) (begun dns t)
            (record { good = good; count = λ h. omega arith; exits = refl })))

  -- Where callbacks make no calls, a lookup thread calls back a resolver once if it had a request, and
  -- else not, as long as no other thread calls `resolve` or `cancel` for it, whatever calls are made for
  -- other resolvers between the rounds: at each time its calls back and its requests add up to those
  -- that it had when the thread started. When the socket cannot be opened, or the loop is broken, no
  -- request is left and the thread counts as exiting; the loop ends in no other way but for `quitFlag`. This
  -- from consistent tables, for any number of passages, whatever the socket, the clock and resolv.conf give,
  -- if no reply is received to a request that is still to be sent; unless a passage reads outside of a packet
  -- or past the end of a map. No null or dangling pointer is used, and each round ends.
  pub run_lem :
      (h : ℕ) (n : Inet) (file : Option Bytes) (opens : Bool) (turns : List Turn) (t : LookupThread)
      → IsConsistent t
      → All (λ turn. All (λ call. names h call ≡ false) turn.calls) turns
      → AllInTime u stack no_calls turns (begun (init_dns n file) t)
      → Ends
          (λ r.
            (r.1 ≡ quits → r.0.thread.quit_flag ≡ true)
            × (r.1 ≢ quits
                → r.1 ≢ goes_on
                → (r.0.thread.resolvers_map ≡ []) × (r.0.thread.is_exiting ≡ true))
            × (told h r.0.completed + filed (Map.find h r.0.thread.resolvers_map)
                ≡ filed (Map.find h t.resolvers_map)))
          (run u stack no_calls n file opens turns t)
  unfolding run start_run told
  run_lem h n file true turns t v others in_time =
      let s = begun (init_dns n file) t in
      let c = filed (Map.find h t.resolvers_map) in
      Ends-map (Answered h c) _ (run_loop u stack no_calls turns s)
        (λ r a.
          let (opened, quitting, broken, count) = summary h c r.0 r.1 a in
          (quitting, λ stays ends. broken (only_breaks r.1 opened stays ends), count))
        (run_loop-Answered h c turns s others (dns-IsConsistent t (init_dns n file) v, omega arith)
          in_time)
  run_lem h n file false turns t v others in_time =
      >>=-Ends (λ r. Shut t r.0 × (r.1 ≡ false)) _ _ _
        (>>=-Ends (Shut t) (λ r. Shut t r.0 × (r.1 ≡ false)) _ _
          (unopened-Ends (init_dns n file) t v) λ s shut. (shut, refl))
        λ (s, b) ((empty, exits, count), e).
          rw e (λ quitting. absurd (ground arith), λ stays ends. (empty, exits), count h)
