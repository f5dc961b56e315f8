-- ===== src/Dns/Locks/Stuck.antt =====
-- src/setka/dns_resolver.cpp: calls and callbacks that wait for one another for ever.
use setka.Prelude.{
  subst, sym, inl, inr, Bool-cases, ℕ, suc, ◌≡◌, ◌≢◌, refl, Bool, true, false, none, arith, ◌==◌,
  ==_iff,
}
use setka.Dns.Locks.{
  Shared, cleans_up, Pc, begun, in_dns, awaiting, Acts, Look, starting, calling, gone, Looks,
  System, Goes, looks, acts, Reaches, here, next, started,
}
use setka.Dns.Locks.Invariant.{is, look_completed}
use setka.Dns.Locks.Invariant.Calls.{guard, Acts-ended}
use setka.Dns.Locks.Invariant.Kept.{SystemInv, started-Inv, Reaches-Inv, Reaches-append}

-- The lookup thread is still to lock `dns::mutex`, which a call has locked that waits for the lookup
-- thread: for its callback, or for its end.
abbrev pub is_stuck : Look → Pc → Bool
is_stuck (calling h (begun c)) (awaiting k) = true
is_stuck (calling h (begun c)) (in_dns cleans_up) = true
is_stuck starting (in_dns cleans_up) = true
is_stuck _ _ = false

-- The lookup thread makes a call in a callback that waits for the callbacks to end.
abbrev pub waits_for_itself : Look → Bool
waits_for_itself (calling h (awaiting k)) = true
waits_for_itself _ = false

abbrev is_gone : Look → Bool
is_gone gone = true
is_gone _ = false

Looks-ended :
    {m m' : Shared} {l l' : Look} → Looks m l m' l' → m.ended ≡ is_gone l → m'.ended ≡ is_gone l'
Looks-ended (Looks.calls a) e = ground (arith, Acts-ended a)
Looks-ended a e = ground arith

Goes-ended :
    {s t : System} → Goes s t → s.shared.ended ≡ is_gone s.look → t.shared.ended ≡ is_gone t.look
Goes-ended (looks a) e = Looks-ended a e
Goes-ended {s} (acts i a) e = ground (arith, Acts-ended a)

Reaches-ended :
    {s t : System} → Reaches s t → s.shared.ended ≡ is_gone s.look → t.shared.ended ≡ is_gone t.look
Reaches-ended here e = e
Reaches-ended (next r g) e = Goes-ended g (Reaches-ended r e)

look_cannot :
    {m m' : Shared} {l l' : Look} (p : Pc)
    → Looks m l m' l'
    → m.dns_mutex ≢ none
    → is_stuck l p ≡ true
    → ⊥
look_cannot p (Looks.locks_to_open g) taken e = taken g
look_cannot p (Looks.calls (Acts.locks_dns g)) taken e = taken g
look_cannot p (Looks.calls a) taken e = ground (arith, guard a)
look_cannot p a taken e = ground arith

call_cannot :
    {t : ℕ} {m m' : Shared} {p p' : Pc} (l : Look)
    → Acts t m p m' p'
    → is 0 m.completed_mutex ≡ look_completed l
    → m.ended ≡ is_gone l
    → is_stuck l p ≡ true
    → ⊥
call_cannot l (Acts.joins g) own e stuck = ground arith
call_cannot l a own e stuck = ground (arith, guard a)

itself_cannot :
    {m m' : Shared} {l l' : Look}
    → Looks m l m' l'
    → is 0 m.completed_mutex ≡ look_completed l
    → waits_for_itself l ≡ true
    → ⊥
itself_cannot (Looks.calls (Acts.locks_completed g)) own e = ground arith
itself_cannot (Looks.calls a) own e = ground (arith, guard a)
itself_cannot a own e = ground arith

calls_held :
    {s : System}
    → SystemInv s
    → (i : ℕ) → is_stuck s.look (s.callers i) ≡ true
    → s.shared.dns_mutex ≢ none
calls_held {s} inv i e free = ground (arith, inv.dns (suc i))

-- One step leaves both threads where they are
Goes-stays :
    {s t : System} (l : Look) (p : Pc) (i : ℕ)
    → SystemInv s
    → s.shared.ended ≡ is_gone s.look
    → is_stuck l p ≡ true
    → Goes s t
    → (s.look ≡ l) × (s.callers i ≡ p)
    → (t.look ≡ l) × (t.callers i ≡ p)
Goes-stays {s} l p i inv e stuck (looks a) (at, there) =
    let still =
      subst (λ q. is_stuck s.look q ≡ true) (sym there)
        (subst (λ k. is_stuck k p ≡ true) (sym at) stuck) in
    absurd (look_cannot (s.callers i) a (calls_held inv i still) still)
Goes-stays {s} l p i inv e stuck (acts j {p = q} a) (at, there) = elim (Bool-cases (i == j)) [
  | inl same ↦
      let still =
        subst (λ q'. is_stuck s.look q' ≡ true) (sym there)
          (subst (λ k. is_stuck k p ≡ true) (sym at) stuck) in
      absurd (
        call_cannot s.look a (inv.completed 0) e
          (subst (λ k. is_stuck s.look (s.callers k) ≡ true) ((==_iff i j).0 same) still))
  | inr differ ↦ (at, ground arith)
]

-- When the lookup thread is still to lock `dns::mutex`, in a callback or before it opens its socket, and a
-- call that has locked it waits for the callback, as a `cancel` that found no request, or for the end of the
-- thread, as `clean_up`, then no thread that goes on brings either of the two any further; this in every
-- state that can be reached from the start of the lookup thread.
pub Reaches-stays :
    {requests : ℕ → Bool} {s t : System} (i : ℕ)
    → Reaches (started requests) s
    → is_stuck s.look (s.callers i) ≡ true
    → Reaches s t
    → (t.look ≡ s.look) × (t.callers i ≡ s.callers i)
Reaches-stays i before stuck here = (refl, refl)
Reaches-stays {requests} {s} i before stuck (next {t = u} r g) =
    let past = Reaches-append before r in
    Goes-stays s.look (s.callers i) i (Reaches-Inv past (started-Inv requests))
      (Reaches-ended past refl) stuck g (Reaches-stays i before stuck r)

-- When a callback has called `cancel` and there is no request of the resolver that it names, the lookup
-- thread waits for the mutex that it has locked itself around the callback, and goes no further; this in
-- every state that can be reached from the start of the lookup thread while no `resolve` has replaced it.
pub Reaches-waits :
    {requests : ℕ → Bool} {s t : System}
    → Reaches (started requests) s
    → waits_for_itself s.look ≡ true
    → Reaches s t
    → t.look ≡ s.look
Reaches-waits before waits here = refl
Reaches-waits {requests} {s} before waits (next {t = u} r (acts i a)) = Reaches-waits before waits r
Reaches-waits {requests} {s} before waits (next {t = u} r (looks a)) =
    let past = Reaches-append before r in
    let inv = Reaches-Inv past (started-Inv requests) in
    let same = Reaches-waits before waits r in
    absurd
      (itself_cannot a (inv.completed 0) (subst (λ l. waits_for_itself l ≡ true) (sym same) waits))
