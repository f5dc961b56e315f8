-- ===== src/Dns/Locks/Invariant/Calls.antt =====
-- src/setka/dns_resolver.cpp: what a step of a call does to the mutexes and to the requests.
use setka.Prelude.{ℕ, ◌≡◌, refl, true, false, Option, none, arith, ◌==◌, if◌then◌else◌}
use setka.Dns.Locks.{Shared, cancels, Pc, Acts, Look}
use setka.Dns.Locks.Invariant.{
  is, has_dns, has_mutex, has_completed, in_callback, is_waiting, has_waited, IsDone,
}

-- What a step of a call needs
abbrev pub Guard : {t : ℕ} {m m' : Shared} {p p' : Pc} → Acts t m p m' p' → Type 0
Guard {t} {m} (Acts.locks_dns _) = m.dns_mutex ≡ none
Guard {t} {m} (Acts.locks_to_cancel _) = m.mutex ≡ none
Guard {t} {m} (Acts.removes {h} _) = m.active h ≡ true
Guard {t} {m} (Acts.finds_none {h} _) = m.active h ≡ false
Guard {t} {m} (Acts.locks_completed _) = m.completed_mutex ≡ none
Guard {t} {m} (Acts.locks_to_check _) = m.mutex ≡ none
Guard {t} {m} (Acts.locks_to_add _) = m.mutex ≡ none
Guard {t} {m} (Acts.unlocks_checked {h} _ _) = (m.active h ≡ false) × (m.exiting ≡ false)
Guard {t} {m} (Acts.replaces {h} _ _) = (m.active h ≡ false) × (m.exiting ≡ true)
Guard {t} {m} (Acts.joins _) = m.ended ≡ true
Guard _ = Unit

pub guard : {t : ℕ} {m m' : Shared} {p p' : Pc} (a : Acts t m p m' p') → Guard a
guard (Acts.locks_dns g) = g
guard (Acts.locks_to_cancel g) = g
guard (Acts.removes g) = g
guard (Acts.finds_none g) = g
guard (Acts.locks_completed g) = g
guard (Acts.locks_to_check g) = g
guard (Acts.locks_to_add g) = g
guard (Acts.unlocks_checked g e) = (g, e)
guard (Acts.replaces g e) = (g, e)
guard (Acts.joins g) = g
guard _ = tt

-- A step of a call locks and unlocks for its own thread only.
pub Acts-dns :
    {t : ℕ} {m m' : Shared} {p p' : Pc}
    → Acts t m p m' p'
    → is t m.dns_mutex ≡ has_dns p
    → (u : ℕ) → is u m'.dns_mutex ≡ (if u == t then has_dns p' else is u m.dns_mutex)
Acts-dns (Acts.locks_dns g) own u = ground arith
Acts-dns a own u = ground (arith, guard a)

pub Acts-mutex :
    {t : ℕ} {m m' : Shared} {p p' : Pc}
    → Acts t m p m' p'
    → is t m.mutex ≡ has_mutex p
    → (u : ℕ) → is u m'.mutex ≡ (if u == t then has_mutex p' else is u m.mutex)
Acts-mutex (Acts.locks_to_add g) own u = ground arith
Acts-mutex a own u = ground (arith, guard a)

pub Acts-completed :
    {t : ℕ} {m m' : Shared} {p p' : Pc}
    → Acts t m p m' p'
    → is t m.completed_mutex ≡ has_completed p
    → (u : ℕ)
    → is u m'.completed_mutex ≡ (if u == t then has_completed p' else is u m.completed_mutex)
Acts-completed (Acts.locks_completed g) own u = ground arith
Acts-completed a own u = ground (arith, guard a)

pub Acts-exiting : {t : ℕ} {m m' : Shared} {p p' : Pc} → Acts t m p m' p' → m'.exiting ≡ m.exiting
Acts-exiting (Acts.joins g) = refl
Acts-exiting a = refl

pub Acts-ended : {t : ℕ} {m m' : Shared} {p p' : Pc} → Acts t m p m' p' → m'.ended ≡ m.ended
Acts-ended (Acts.joins g) = refl
Acts-ended a = refl

-- The holder of a mutex is one.
pub only_one : (o : Option ℕ) (t u : ℕ) → is t o ≡ true → is u o ≡ true → t ≡ u
only_one o t u e d = ground arith

-- What the last calls left is kept by a step.
pub Acts-quiet :
    {t : ℕ} {m m' : Shared} {p p' : Pc} (l : Look)
    → Acts t m p m' p'
    → ((h : ℕ) → m.quiet h ≡ true → IsDone m l h)
    → ((h : ℕ) → has_waited h p ≡ true → IsDone m l h)
    → (h : ℕ) → m'.quiet h ≡ true
    → IsDone m' l h
Acts-quiet l (Acts.adds {h = k}) quiet waited h q = ground (arith, quiet h)
Acts-quiet l (Acts.returns {c = cancels k} {r = false}) quiet waited h q =
    ground (arith, quiet h, waited h)
Acts-quiet l a quiet waited h q = ground (arith, guard a, quiet h)

-- A thread that has not locked `dns::mutex` adds no request.
pub Acts-active :
    {t : ℕ} {m m' : Shared} {p p' : Pc}
    → Acts t m p m' p'
    → has_dns p ≡ false
    → (h : ℕ) → m.active h ≡ false
    → m'.active h ≡ false
Acts-active (Acts.begins c) away h e = e
Acts-active a away h e = ground (arith, guard a)

pub Acts-waiting :
    {t : ℕ} {m m' : Shared} {p p' : Pc}
    → Acts t m p m' p'
    → (h : ℕ) → is_waiting h p' ≡ true
    → m'.active h ≡ false
Acts-waiting (Acts.finds_none g) h w = ground arith
Acts-waiting a h w = ground (arith, guard a)

pub Acts-waited :
    {t : ℕ} {m m' : Shared} {p p' : Pc} (l : Look) (h : ℕ)
    → Acts t m p m' p'
    → (has_waited h p ≡ true → IsDone m l h)
    → (is_waiting h p ≡ true → m.active h ≡ false)
    → (m.completed_mutex ≡ none → has_mutex p ≡ true → in_callback h l ≡ false)
    → has_waited h p' ≡ true
    → IsDone m' l h
Acts-waited l h (Acts.locks_completed g) waited waiting calm w = (waiting w, calm g refl)
Acts-waited l h a waited waiting calm w = ground (arith, guard a)
