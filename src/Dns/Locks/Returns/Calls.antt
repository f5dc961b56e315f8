-- ===== src/Dns/Locks/Returns/Calls.antt =====
-- src/setka/dns_resolver.cpp: how a caller goes on that has `dns::mutex`.
use setka.Prelude.{
  ◌≢◌, ℕ, suc, ◌≡◌, refl, sym, subst, ◌∙◌, ap, inl, inr, Bool, true, false, Option, none, arith,
  ◌==◌, ==_iff, ==_refl, Bool-cases,
}
use setka.Dns.Locks.{
  Shared, Call, resolves, cancels, cleans_up, Pc, idle, begun, in_dns, cancelling, awaiting,
  awaited, checking, checked, adding, joined, leaving, left, Acts, System, update, acts, Reaches,
  here, next, replacing,
}
use setka.Dns.Locks.Invariant.{
  is, has_dns, has_mutex, has_completed, look_mutex, look_completed, who,
}
use setka.Dns.Locks.Invariant.Callers.{others_away}
use setka.Dns.Locks.Invariant.Kept.{SystemInv, Goes-Inv, Reaches-append}
use setka.Dns.Locks.Invariant.Calls.{Acts-exiting}
use setka.Dns.Locks.Returns.{is_calm, is_unfollowed, unlocked}

-- A state in which the call of caller `j` has returned; the lookup thread and the other callers stand as
-- before.
pub record Returned (j : ℕ) (s : System) : Type 0 where
  pub state : System
  pub reached : Reaches s state
  pub returned : state.callers j ≡ idle
  pub same_exiting : state.shared.exiting ≡ s.shared.exiting
  pub same_look : state.look ≡ s.look
  pub others : (i : ℕ) → i ≢ j → state.callers i ≡ s.callers i

other_caller : (f : ℕ → Pc) (j i : ℕ) (p : Pc) → i ≢ j → update f j p i ≡ f i
other_caller f j i p differ = elim (Bool-cases (i == j)) [
  | inl same ↦ absurd (differ ((==_iff i j).0 same))
  | inr fine ↦ rw fine refl
]

own_caller : (f : ℕ → Pc) (j : ℕ) (p : Pc) → update f j p j ≡ p
own_caller f j p = rw (==_refl j) refl

-- The state after a step of caller `j`
abbrev stepped : System → ℕ → Shared → Pc → System
stepped s j m p = record s { shared = m; callers = update s.callers j p }

-- Every caller can take its next step; what follows starts from the state after it.
does :
    (s : System) (j : ℕ) (p : Pc) {m' : Shared} {p' : Pc}
    → SystemInv s
    → s.callers j ≡ p
    → Acts (suc j) s.shared p m' p'
    → (SystemInv (stepped s j m' p')
        → (stepped s j m' p').callers j ≡ p'
        → Returned j (stepped s j m' p'))
    → Returned j s
does s j p {m'} {p'} inv at a go =
    let g = acts j (subst (λ q. Acts (suc j) s.shared q m' p') (sym at) a) in
    let r = go (Goes-Inv g inv) (own_caller s.callers j p') in
    record {
      state = r.state;
      reached = Reaches-append (next here g) r.reached;
      returned = r.returned;
      same_exiting = r.same_exiting ∙ Acts-exiting a;
      same_look = r.same_look;
      others = λ i differ. r.others i differ ∙ other_caller s.callers j i p' differ;
    }

-- A mutex that only callers with `dns::mutex` lock is free if the one that has it has not locked it.
free :
    (g : Pc → Bool) (b : Bool) (o : Option ℕ) (s : System) (j : ℕ)
    → SystemInv s
    → ((p : Pc) → g p ≡ true → has_dns p ≡ true)
    → ((t : ℕ) → is t o ≡ who b (λ i. g (s.callers i)) t)
    → b ≡ false
    → has_dns (s.callers j) ≡ true
    → g (s.callers j) ≡ false
    → o ≡ none
free g b o s j inv needs owns e d h =
    unlocked o b (λ i. g (s.callers i)) owns e
      λ i. elim (Bool-cases (i == j)) [
        | inl same ↦ subst (λ k. g (s.callers k) ≡ false) (sym ((==_iff i j).0 same)) h
        | inr differ ↦ elim (Bool-cases (g (s.callers i))) [
          | inl has ↦ absurd (
              ground (
                arith,
                needs (s.callers i) has,
                others_away inv i j (λ e. ground (arith, ==_refl i)),
              ))
          | inr fine ↦ fine
        ]
      ]

has_mutex-has_dns : (p : Pc) → has_mutex p ≡ true → has_dns p ≡ true
has_mutex-has_dns p h = ground arith

runs : (s : System) → is_calm s ≡ true → s.shared.exiting ≡ false
runs s rests = ground arith

has_completed-has_dns : (p : Pc) → has_completed p ≡ true → has_dns p ≡ true
has_completed-has_dns p h = ground arith

module _ (j : ℕ) where
  -- The state of a caller, with the lookup thread at rest
  abbrev At : Pc → System → Type 0
  At p s = SystemInv s × (is_calm s ≡ true) × (s.callers j ≡ p)

  mutex_free :
      (s : System) (p : Pc)
      → At p s
      → has_dns p ≡ true
      → has_mutex p ≡ false
      → s.shared.mutex ≡ none
  mutex_free s p (inv, rests, at) d h =
      free has_mutex (look_mutex s.look) s.shared.mutex s j inv has_mutex-has_dns inv.mutex
        (ground arith) (ap has_dns at ∙ d) (ap has_mutex at ∙ h)

  completed_free :
      (s : System) (p : Pc)
      → At p s
      → has_dns p ≡ true
      → has_completed p ≡ false
      → s.shared.completed_mutex ≡ none
  completed_free s p (inv, rests, at) d h =
      free has_completed (look_completed s.look) s.shared.completed_mutex s j inv
        has_completed-has_dns inv.completed (ground arith) (ap has_dns at ∙ d)
        (ap has_completed at ∙ h)

  left-Returned : (s : System) (c : Call) (r : Bool) → At (left c r) s → Returned j s
  left-Returned s c r (inv, rests, at) = does s j (left c r) inv at Acts.returns λ inv e. record {
    state = _;
    reached = here;
    returned = e;
    same_exiting = refl;
    same_look = refl;
    others = λ i differ. refl;
  }

  leaving-Returned : (s : System) (c : Call) (r : Bool) → At (leaving c r) s → Returned j s
  leaving-Returned s c r (inv, rests, at) =
      does s j (leaving c r) inv at Acts.unlocks λ inv e. left-Returned _ c r (inv, rests, e)

  awaited-Returned : (s : System) (h : ℕ) → At (awaited h) s → Returned j s
  awaited-Returned s h (inv, rests, at) =
      does s j (awaited h) inv at Acts.unlocks_completed
        λ inv e. leaving-Returned _ (cancels h) false (inv, rests, e)

  awaiting-Returned : (s : System) (h : ℕ) → At (awaiting h) s → Returned j s
  awaiting-Returned s h (inv, rests, at) =
      does s j (awaiting h) inv at
        (Acts.locks_completed (completed_free s (awaiting h) (inv, rests, at) refl refl))
        λ inv e. awaited-Returned _ h (inv, rests, e)

  cancelling-Returned : (s : System) (h : ℕ) → At (cancelling h) s → Returned j s
  cancelling-Returned s h (inv, rests, at) = elim (Bool-cases (s.shared.active h)) [
    | inl there ↦
        does s j (cancelling h) inv at (Acts.removes there)
          λ inv e. leaving-Returned _ (cancels h) true (inv, rests, e)
    | inr away ↦
        does s j (cancelling h) inv at (Acts.finds_none away)
          λ inv e. awaiting-Returned _ h (inv, rests, e)
  ]

  adding-Returned : (s : System) (h : ℕ) → At (adding h) s → Returned j s
  adding-Returned s h (inv, rests, at) =
      does s j (adding h) inv at Acts.adds
        λ inv e. leaving-Returned _ (resolves h) true (inv, rests, e)

  checked-Returned : (s : System) (h : ℕ) → At (checked h) s → Returned j s
  checked-Returned s h (inv, rests, at) =
      does s j (checked h) inv at
        (Acts.locks_to_add (mutex_free s (checked h) (inv, rests, at) refl refl))
        λ inv e. adding-Returned _ h (inv, rests, e)

  checking-Returned : (s : System) (h : ℕ) → At (checking h) s → Returned j s
  checking-Returned s h (inv, rests, at) = elim (Bool-cases (s.shared.active h)) [
    | inl there ↦
        does s j (checking h) inv at (Acts.is_busy there)
          λ inv e. leaving-Returned _ (resolves h) false (inv, rests, e)
    | inr away ↦
        does s j (checking h) inv at (Acts.unlocks_checked away (runs s rests))
          λ inv e. checked-Returned _ h (inv, rests, e)
  ]

  in_dns-Returned :
      (s : System) (c : Call) → At (in_dns c) s → is_unfollowed (in_dns c) ≡ false → Returned j s
  in_dns-Returned s (resolves h) (inv, rests, at) fine =
      does s j (in_dns (resolves h)) inv at
        (Acts.locks_to_check (mutex_free s (in_dns (resolves h)) (inv, rests, at) refl refl))
        λ inv e. checking-Returned _ h (inv, rests, e)
  in_dns-Returned s (cancels h) (inv, rests, at) fine =
      does s j (in_dns (cancels h)) inv at
        (Acts.locks_to_cancel (mutex_free s (in_dns (cancels h)) (inv, rests, at) refl refl))
        λ inv e. cancelling-Returned _ h (inv, rests, e)
  in_dns-Returned s cleans_up a fine = absurd (ground arith)

  -- Wherever the call stands that has `dns::mutex`
  pub has_dns-Returned :
      (s : System) (p : Pc) → At p s → has_dns p ≡ true → is_unfollowed p ≡ false → Returned j s
  has_dns-Returned s idle a d fine = absurd (ground arith)
  has_dns-Returned s (begun c) a d fine = absurd (ground arith)
  has_dns-Returned s (in_dns c) a d fine = in_dns-Returned s c a fine
  has_dns-Returned s (cancelling h) a d fine = cancelling-Returned s h a
  has_dns-Returned s (awaiting h) a d fine = awaiting-Returned s h a
  has_dns-Returned s (awaited h) a d fine = awaited-Returned s h a
  has_dns-Returned s (checking h) a d fine = checking-Returned s h a
  has_dns-Returned s (checked h) a d fine = checked-Returned s h a
  has_dns-Returned s (adding h) a d fine = adding-Returned s h a
  has_dns-Returned s replacing a d fine = absurd (ground arith)
  has_dns-Returned s joined a d fine = absurd (ground arith)
  has_dns-Returned s (leaving c r) a d fine = leaving-Returned s c r a
  has_dns-Returned s (left c r) a d fine = left-Returned s c r a
