-- ===== src/Dns/Locks/Invariant/Thread.antt =====
-- src/setka/dns_resolver.cpp: steps of the lookup thread, and the invariant of the mutexes.
use setka.Prelude.{ℕ, zero, suc, ◌≡◌, Bool, true, false, none, arith, ==_refl}
use setka.Dns.Locks.{Shared, cancels, Pc, Acts, Look, calling, Looks}
use setka.Dns.Locks.Invariant.{
  is, has_dns, has_mutex, has_completed, look_dns, look_mutex, look_completed, who, has_waited,
  nested, IsDone, Inv,
}
use setka.Dns.Locks.Invariant.Calls.{Acts-dns, Acts-mutex, only_one, Acts-quiet, Acts-active}
use setka.Dns.Locks.Invariant.Callers.{has_waited-has_dns, is_waiting-has_dns}

-- What a step of the lookup thread needs
abbrev Need : {m m' : Shared} {l l' : Look} → Looks m l m' l' → Type 0
Need {m} (Looks.locks_to_open _) = m.dns_mutex ≡ none
Need {m} (Looks.wakes _) = m.mutex ≡ none
Need {m} (Looks.takes {h = h} _) = m.active h ≡ true
Need {m} (Looks.locks_before_call _) = m.completed_mutex ≡ none
Need {m} (Looks.resumes _) = m.mutex ≡ none
Need _ = Unit

need : {m m' : Shared} {l l' : Look} (a : Looks m l m' l') → Need a
need (Looks.locks_to_open g) = g
need (Looks.wakes g) = g
need (Looks.takes g) = g
need (Looks.locks_before_call g) = g
need (Looks.resumes g) = g
need _ = tt

Looks-dns :
    {m m' : Shared} {l l' : Look} (f : ℕ → Bool)
    → Looks m l m' l'
    → ((t : ℕ) → is t m.dns_mutex ≡ who (look_dns l) f t)
    → (t : ℕ) → is t m'.dns_mutex ≡ who (look_dns l') f t
Looks-dns f (Looks.calls a) own zero = ground (arith, Acts-dns a (own 0) 0)
Looks-dns f (Looks.calls a) own (suc j) = ground (arith, Acts-dns a (own 0) (suc j), own (suc j))
Looks-dns f a own zero = ground (arith, need a, own 0)
Looks-dns f a own (suc j) = ground (arith, need a, own 0, own (suc j))

Looks-mutex :
    {m m' : Shared} {l l' : Look} (f : ℕ → Bool)
    → Looks m l m' l'
    → ((t : ℕ) → is t m.mutex ≡ who (look_mutex l) f t)
    → (t : ℕ) → is t m'.mutex ≡ who (look_mutex l') f t
Looks-mutex f (Looks.calls a) own zero = ground (arith, Acts-mutex a (own 0) 0)
Looks-mutex f (Looks.calls a) own (suc j) =
    ground (arith, Acts-mutex a (own 0) (suc j), own (suc j))
Looks-mutex f a own zero = ground (arith, need a, own 0)
Looks-mutex f a own (suc j) = ground (arith, need a, own 0, own (suc j))

-- A callback locks `completedMutex` no more, and so waits for no callback.
nested-completed :
    {m m' : Shared} {p p' : Pc}
    → Acts 0 m p m' p'
    → is 0 m.completed_mutex ≡ true
    → ((h : ℕ) → has_waited h p ≡ false)
    → (m'.completed_mutex ≡ m.completed_mutex) × ((h : ℕ) → has_waited h p' ≡ false)
nested-completed (Acts.locks_completed g) own never = absurd (ground arith)
nested-completed (Acts.unlocks_completed {h = h}) own never =
    absurd (ground (arith, never h, ==_refl h))
nested-completed (Acts.unlocks {c = cancels k} {r = false}) own never =
    absurd (ground (arith, never k, ==_refl k))
nested-completed a own never = (ground arith, λ h. ground arith)

Looks-completed :
    {m m' : Shared} {l l' : Look} (f : ℕ → Bool)
    → Looks m l m' l'
    → ((h : ℕ) → has_waited h (nested l) ≡ false)
    → ((t : ℕ) → is t m.completed_mutex ≡ who (look_completed l) f t)
    → (t : ℕ) → is t m'.completed_mutex ≡ who (look_completed l') f t
Looks-completed f (Looks.calls a) never own zero =
    ground (arith, nested-completed a (own 0) never, own 0)
Looks-completed f (Looks.calls a) never own (suc j) =
    ground (arith, nested-completed a (own 0) never, own (suc j))
Looks-completed f a never own zero = ground (arith, need a, own 0)
Looks-completed f a never own (suc j) = ground (arith, need a, own 0, own (suc j))

Looks-quiet :
    {m m' : Shared} {l l' : Look}
    → Looks m l m' l'
    → ((h : ℕ) → has_waited h (nested l) ≡ false)
    → ((h : ℕ) → m.quiet h ≡ true → IsDone m l h)
    → (h : ℕ) → m'.quiet h ≡ true
    → IsDone m' l' h
Looks-quiet (Looks.calls {h = k} {p = p} a) never quiet h q =
    Acts-quiet (calling k p) a quiet (λ h w. absurd (ground (arith, never h))) h q
Looks-quiet a never quiet h q = ground (arith, need a, quiet h)

-- The lookup thread adds no request while a caller has `dns::mutex`, nor calls back where there is none.
Looks-active :
    {m m' : Shared} {l l' : Look}
    → Looks m l m' l'
    → look_dns l ≡ false
    → (h : ℕ) → m.active h ≡ false
    → m'.active h ≡ false
Looks-active (Looks.calls a) away h e = Acts-active a away h e
Looks-active a away h e = ground (arith, need a)

Looks-IsDone :
    {m m' : Shared} {l l' : Look}
    → Looks m l m' l'
    → look_dns l ≡ false
    → (h : ℕ) → IsDone m l h
    → IsDone m' l' h
Looks-IsDone (Looks.calls a) away h (e, silent) = (Acts-active a away h e, silent)
Looks-IsDone a away h (e, silent) = ground (arith, need a)

Looks-nested :
    {m m' : Shared} {l l' : Look}
    → Looks m l m' l'
    → is 0 m.completed_mutex ≡ look_completed l
    → ((h : ℕ) → has_waited h (nested l) ≡ false)
    → (h : ℕ) → has_waited h (nested l') ≡ false
Looks-nested (Looks.calls a) own never h = (nested-completed a own never).1 h
Looks-nested a own never h = ground (arith, never h)

look_away :
    {m : Shared} {l : Look} {f : ℕ → Pc}
    → Inv m l f
    → (j : ℕ) → has_dns (f j) ≡ true
    → look_dns l ≡ false
look_away {m} {l} inv j e =
    ground (arith, inv.dns 0, inv.dns (suc j), only_one m.dns_mutex 0 (suc j))

pub Looks-Inv :
    {m m' : Shared} {l l' : Look} {f : ℕ → Pc} → Inv m l f → Looks m l m' l' → Inv m' l' f
Looks-Inv {m} {m'} {l} {l'} {f} inv a = record {
  dns = Looks-dns (λ i. has_dns (f i)) a inv.dns;
  mutex = Looks-mutex (λ i. has_mutex (f i)) a inv.mutex;
  completed = Looks-completed (λ i. has_completed (f i)) a inv.no_nested inv.completed;
  quiet = Looks-quiet a inv.no_nested inv.quiet;
  waiting = λ j h w.
      Looks-active a (look_away inv j (is_waiting-has_dns h (f j) w)) h (inv.waiting j h w);
  waited =
      λ j h w. Looks-IsDone a (look_away inv j (has_waited-has_dns h (f j) w)) h (inv.waited j h w);
  no_nested = Looks-nested a (inv.completed 0) inv.no_nested;
}
