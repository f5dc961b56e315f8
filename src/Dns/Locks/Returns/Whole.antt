-- ===== src/Dns/Locks/Returns/Whole.antt =====
-- src/setka/dns_resolver.cpp: how any caller goes on.
use setka.Prelude.{
  ◌≢◌, ◌⊎◌, ℕ, zero, suc, ◌≡◌, refl, sym, subst, ◌∙◌, ap, inl, inr, Bool, true, false, Option, none,
  some, arith, ◌==◌, ==_iff, ==_refl, Bool-cases,
}
use setka.Dns.Locks.{
  failing, Shared, Call, Pc, idle, begun, in_dns, cancelling, awaiting, awaited, checking, checked,
  adding, joined, leaving, left, Acts, System, update, Goes, acts, Reaches, here, next, started,
  replacing,
}
use setka.Dns.Locks.Invariant.{is, has_dns, look_dns, nested}
use setka.Dns.Locks.Invariant.Callers.{others_away}
use setka.Dns.Locks.Invariant.Kept.{SystemInv, started-Inv, Goes-Inv, Reaches-Inv, Reaches-append}
use setka.Dns.Locks.Returns.{is_calm, is_unfollowed, unlocked, rest}
use setka.Dns.Locks.Returns.Calls.{Returned, has_dns-Returned}

-- A state in which the call of caller `i` has returned
abbrev Returns : ℕ → System → Type 0
Returns i s = (t : System) × Reaches s t × (t.callers i ≡ idle)

after : (i : ℕ) (s t : System) → Reaches s t → Returns i t → Returns i s
after i s t r (u, q, e) = (u, Reaches-append r q, e)

idle_or_begun : (p : Pc) → has_dns p ≡ false → (p ≡ idle) ⊎ ((c : Call) × (p ≡ begun c))
idle_or_begun idle e = inl refl
idle_or_begun (begun c) e = inr (c, refl)
idle_or_begun (in_dns c) e = absurd (ground arith)
idle_or_begun (cancelling h) e = absurd (ground arith)
idle_or_begun (awaiting h) e = absurd (ground arith)
idle_or_begun (awaited h) e = absurd (ground arith)
idle_or_begun (checking h) e = absurd (ground arith)
idle_or_begun (checked h) e = absurd (ground arith)
idle_or_begun (adding h) e = absurd (ground arith)
idle_or_begun replacing e = absurd (ground arith)
idle_or_begun joined e = absurd (ground arith)
idle_or_begun (leaving c r) e = absurd (ground arith)
idle_or_begun (left c r) e = absurd (ground arith)

same_cleaning : (c : Call) → is_unfollowed (begun c) ≡ is_unfollowed (in_dns c)
same_cleaning c = ground arith

-- With `dns::mutex` free, a call that begins goes on until it has returned.
from_begun :
    (i : ℕ) (s : System) (c : Call)
    → SystemInv s
    → is_calm s ≡ true
    → s.shared.dns_mutex ≡ none
    → s.callers i ≡ begun c
    → is_unfollowed (begun c) ≡ false
    → Returns i s
from_begun i s c inv rests unlocked at fine =
    let m : Shared = record s.shared { dns_mutex = some (suc i) } in
    let g : Goes s (record s { shared = m; callers = update s.callers i (in_dns c) }) =
      acts i
        (subst (λ q. Acts (suc i) s.shared q m (in_dns c)) (sym at) (Acts.locks_dns unlocked)) in
    let r =
      has_dns-Returned i (record s { shared = m; callers = update s.callers i (in_dns c) })
        (in_dns c) (Goes-Inv g inv, rests, rw (==_refl i) refl) refl
        (sym (same_cleaning c) ∙ fine) in
    (r.state, Reaches-append (next here g) r.reached, r.returned)

-- Once a call has returned that had `dns::mutex`, the mutex is free.
dns_unlocked :
    (j : ℕ) (s : System)
    → SystemInv s
    → is_calm s ≡ true
    → has_dns (s.callers j) ≡ true
    → (r : Returned j s) → r.state.shared.dns_mutex ≡ none
dns_unlocked j s inv rests d r =
    unlocked r.state.shared.dns_mutex (look_dns r.state.look) (λ k. has_dns (r.state.callers k))
      (Reaches-Inv r.reached inv).dns (ap look_dns r.same_look ∙ ground arith)
      λ k. elim (Bool-cases (k == j)) [
        | inl same ↦
            subst (λ p. has_dns (r.state.callers p) ≡ false) (sym ((==_iff k j).0 same))
              (ap has_dns r.returned)
        | inr differ ↦
            let apart : k ≢ j = λ e. ground (arith, ==_refl k) in
            ap has_dns (r.others k apart) ∙ others_away inv k j (λ e. apart (sym e)) d
      ]

-- A call that is to begin waits for the one that has `dns::mutex`.
begun-Returns :
    (i : ℕ) (s : System) (c : Call)
    → SystemInv s
    → is_calm s ≡ true
    → ((k : ℕ) → is_unfollowed (s.callers k) ≡ false)
    → s.callers i ≡ begun c
    → (o : Option ℕ) → s.shared.dns_mutex ≡ o
    → Returns i s
begun-Returns i s c inv rests fine at none e =
    from_begun i s c inv rests e at (ap is_unfollowed (sym at) ∙ fine i)
begun-Returns i s c inv rests fine at (some zero) e = absurd (ground (arith, inv.dns 0))
begun-Returns i s c inv rests fine at (some (suc j)) e =
    let d : has_dns (s.callers j) ≡ true =
      sym (inv.dns (suc j)) ∙ ap (is (suc j)) e ∙ ==_refl (suc j) in
    let r = has_dns-Returned j s (s.callers j) (inv, rests, refl) d (fine j) in
    let apart : i ≢ j = λ same. ground (arith, ap (λ k. has_dns (s.callers k)) same) in
    after i s r.state r.reached (
      from_begun i r.state c (Reaches-Inv r.reached inv) (rw (r.same_look, r.same_exiting) rests)
        (dns_unlocked j s inv rests d r) (r.others i apart ∙ at)
        (ap is_unfollowed (sym at) ∙ fine i))

rested-Returns :
    (i : ℕ) (s : System)
    → SystemInv s
    → is_calm s ≡ true
    → ((k : ℕ) → is_unfollowed (s.callers k) ≡ false)
    → Returns i s
rested-Returns i s inv rests fine = elim (Bool-cases (has_dns (s.callers i))) [
  | inl has ↦
      let r = has_dns-Returned i s (s.callers i) (inv, rests, refl) has (fine i) in
      (r.state, r.reached, r.returned)
  | inr has_not ↦ elim (idle_or_begun (s.callers i) has_not) [
    | inl e ↦ (s, here, e)
    | inr (c, e) ↦ begun-Returns i s c inv rests fine e s.shared.dns_mutex refl
  ]
]

-- As long as the lookup thread does not count as exiting and has not failed to open its socket, the
-- callback that may be running is in no call and no caller is in `clean_up` or has replaced the thread,
-- each call of `resolve` and `cancel` can still return, whatever locks are held and wherever the other
-- threads stand: from every such state that can be reached from the start of the lookup thread, threads that
-- go on can bring that caller to the end of its call.
pub calls_can_return :
    {requests : ℕ → Bool} {s : System} (i : ℕ)
    → Reaches (started requests) s
    → nested s.look ≡ idle
    → s.look ≢ failing
    → s.shared.exiting ≡ false
    → ((k : ℕ) → is_unfollowed (s.callers k) ≡ false)
    → (t : System) × Reaches s t × (t.callers i ≡ idle)
calls_can_return {requests} {s} i before quiet opens runs fine =
    let inv = Reaches-Inv before (started-Inv requests) in
    let r = rest s.shared s.look s.callers inv quiet opens in
    after i s r.state r.reached (
      rested-Returns i r.state (Reaches-Inv r.reached inv)
        (ground (arith, r.resting, r.same_exiting))
        λ k. ap (λ (f : ℕ → Pc). is_unfollowed (f k)) r.same ∙ fine k)
