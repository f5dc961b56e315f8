-- ===== src/Dns/Locks/Invariant/Callers.antt =====
-- src/setka/dns_resolver.cpp: steps of calls, and the invariant of the mutexes.
use setka.Prelude.{
  ℕ, zero, suc, subst, ◌⊎◌, inl, inr, Bool-cases, ◌≡◌, ◌≢◌, Bool, true, false, Option, none, arith,
  ◌==◌, ==_iff, if◌then◌else◌,
}
use setka.Dns.Locks.{Shared, Pc, Acts, Look, update}
use setka.Dns.Locks.Invariant.{
  is, has_dns, has_mutex, has_completed, look_dns, look_mutex, look_completed, who, in_callback,
  is_waiting, has_waited, Inv,
}
use setka.Dns.Locks.Invariant.Calls.{
  Acts-dns, Acts-mutex, Acts-completed, only_one, Acts-quiet, Acts-active, Acts-waiting,
  Acts-waited,
}

-- Where a call waits, or has waited, it has locked the mutexes.
pub has_waited-has_dns : (h : ℕ) (p : Pc) → has_waited h p ≡ true → has_dns p ≡ true
has_waited-has_dns h p w = ground arith

pub is_waiting-has_dns : (h : ℕ) (p : Pc) → is_waiting h p ≡ true → has_dns p ≡ true
is_waiting-has_dns h p w = ground arith

-- Callers do not both have `dns::mutex`.
pub others_away :
    {m : Shared} {l : Look} {f : ℕ → Pc}
    → Inv m l f
    → (i j : ℕ) → j ≢ i
    → has_dns (f j) ≡ true
    → has_dns (f i) ≡ false
others_away {m} inv i j differ e =
    ground (arith, inv.dns (suc i), inv.dns (suc j), only_one m.dns_mutex (suc i) (suc j))

-- While a caller has `mutex` and nobody `completedMutex`, no callback runs.
calm :
    {m : Shared} {l : Look} {f : ℕ → Pc}
    → Inv m l f
    → (i h : ℕ) → m.completed_mutex ≡ none
    → has_mutex (f i) ≡ true
    → in_callback h l ≡ false
calm {m} {l} inv i h free e =
    ground (arith, inv.completed 0, inv.mutex 0, inv.mutex (suc i), only_one m.mutex 0 (suc i))

who-update :
    (g : Pc → Bool) (b : Bool) (f : ℕ → Pc) (i : ℕ) (p' : Pc) (o o' : Option ℕ)
    → ((t : ℕ) → is t o' ≡ (if t == suc i then g p' else is t o))
    → ((t : ℕ) → is t o ≡ who b (λ j. g (f j)) t)
    → (t : ℕ) → is t o' ≡ who b (λ j. g (update f i p' j)) t
who-update g b f i p' o o' new old zero = ground (arith, new 0, old 0)
who-update g b f i p' o o' new old (suc j) = ground (arith, new (suc j), old (suc j))

-- A condition on where a caller stands, before and after a step of one.
update_cases :
    (P : Pc → Type 0) (f : ℕ → Pc) (i j : ℕ) (p' : Pc)
    → P (update f i p' j)
    → ((j ≡ i) × P p') ⊎ ((j ≢ i) × P (f j))
update_cases P f i j p' h = elim (Bool-cases (j == i)) [
  | inl same ↦ inl ((==_iff j i).0 same, subst (λ b. P (if b then p' else f j)) same h)
  | inr differ ↦ inr (λ e. ground arith, subst (λ b. P (if b then p' else f j)) differ h)
]

pub Acts-Inv :
    {m m' : Shared} {l : Look} {f : ℕ → Pc} {p' : Pc} (i : ℕ)
    → Inv m l f
    → Acts (suc i) m (f i) m' p'
    → Inv m' l (update f i p')
Acts-Inv {m} {m'} {l} {f} {p'} i inv a = record {
  dns =
      who-update has_dns (look_dns l) f i p' m.dns_mutex m'.dns_mutex (Acts-dns a (inv.dns (suc i)))
        inv.dns;
  mutex =
      who-update has_mutex (look_mutex l) f i p' m.mutex m'.mutex (Acts-mutex a (inv.mutex (suc i)))
        inv.mutex;
  completed =
      who-update has_completed (look_completed l) f i p' m.completed_mutex m'.completed_mutex
        (Acts-completed a (inv.completed (suc i))) inv.completed;
  quiet = Acts-quiet l a inv.quiet (inv.waited i);
  waiting = λ j h w. elim (update_cases (λ p. is_waiting h p ≡ true) f i j p' w) [
    | inl (same, own) ↦ Acts-waiting a h own
    | inr (differ, there) ↦
        Acts-active a (others_away inv i j differ (is_waiting-has_dns h (f j) there)) h
          (inv.waiting j h there)
  ];
  waited = λ j h w. elim (update_cases (λ p. has_waited h p ≡ true) f i j p' w) [
    | inl (same, own) ↦ Acts-waited l h a (inv.waited i h) (inv.waiting i h) (calm inv i h) own
    | inr (differ, there) ↦
        let (idle_there, silent) = inv.waited j h there in
        (
          Acts-active a (others_away inv i j differ (has_waited-has_dns h (f j) there)) h
              idle_there,
          silent,
        )
  ];
  no_nested = inv.no_nested;
}
