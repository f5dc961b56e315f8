-- ===== src/Dns/Locks/Returns.antt =====
-- src/setka/dns_resolver.cpp: how calls of `resolve` and `cancel` come to their end.
pub mod Calls
pub mod Whole
use setka.Prelude.{
  ◌∙◌, ◌≢◌, ◌&&◌, not, ℕ, zero, suc, ◌≡◌, refl, sym, subst, ap, inl, inr, Bool, true, false, ◌||◌,
  Option, none, some, arith, ◌==◌, ==_iff, ==_refl, if◌then◌else◌, Bool-cases, Option-cases,
}
use setka.Dns.Locks.{
  Shared, Call, resolves, cancels, cleans_up, Pc, idle, begun, in_dns, cancelling, awaiting,
  awaited, checking, checked, adding, joined, leaving, left, set, after_call, Acts, Look, starting,
  opening, sleeping, working, announcing, releasing, calling, resuming, gone, Looks, System, update,
  Goes, looks, acts, Reaches, here, next, started, replacing, failing,
}
use setka.Dns.Locks.Invariant.{
  is, has_dns, has_mutex, has_completed, look_dns, look_mutex, look_completed, who, nested, Inv,
}
use setka.Dns.Locks.Invariant.Calls.{only_one}
use setka.Dns.Locks.Invariant.Callers.{others_away}
use setka.Dns.Locks.Invariant.Kept.{SystemInv, started-Inv, Goes-Inv, Reaches-Inv, Reaches-append}

-- The lookup thread has locked nothing, and its callback is not running.
abbrev pub is_resting : Look → Bool
is_resting starting = true
is_resting sleeping = true
is_resting resuming = true
is_resting gone = true
is_resting _ = false

-- Besides, the thread does not count as exiting.
abbrev pub is_calm : System → Bool
is_calm s = is_resting s.look && not s.shared.exiting

-- A call of `clean_up`, or one that has replaced the thread
abbrev pub is_unfollowed : Pc → Bool
is_unfollowed (begun cleans_up) = true
is_unfollowed (in_dns cleans_up) = true
is_unfollowed (leaving cleans_up r) = true
is_unfollowed (left cleans_up r) = true
is_unfollowed joined = true
is_unfollowed replacing = true
is_unfollowed _ = false

pub nobody : (o : Option ℕ) → ((t : ℕ) → is t o ≡ false) → o ≡ none
nobody none h = refl
nobody (some t) h = absurd (ground (arith, h t, ==_refl t))

-- A mutex that neither the lookup thread has nor any caller is free.
pub unlocked :
    (o : Option ℕ) (b : Bool) (f : ℕ → Bool)
    → ((t : ℕ) → is t o ≡ who b f t)
    → b ≡ false
    → ((i : ℕ) → f i ≡ false)
    → o ≡ none
unlocked o b f owns e h = nobody o (elim [ zero ↦ owns 0 ∙ e | suc i ↦ owns (suc i) ∙ h i ])

-- A state in which a thread rests, with the same callers.
pub record Rested (s : System) : Type 0 where
  pub state : System
  pub reached : Reaches s state
  pub resting : is_resting state.look ≡ true
  pub same : state.callers ≡ s.callers
  pub same_exiting : state.shared.exiting ≡ s.shared.exiting

-- The lookup thread goes on by itself until it rests.
goes_on :
    (s : System) {m : Shared} {l : Look}
    → Looks s.shared s.look m l
    → m.exiting ≡ s.shared.exiting
    → Rested (record s { shared = m; look = l })
    → Rested s
goes_on s a kept r = record {
  state = r.state;
  reached = Reaches-append (next here (looks a)) r.reached;
  resting = r.resting;
  same = r.same;
  same_exiting = r.same_exiting ∙ kept;
}

rested : (s : System) → is_resting s.look ≡ true → Rested s
rested s e = record { state = s; reached = here; resting = e; same = refl; same_exiting = refl }

-- While the lookup thread has `mutex` and is in no callback, nobody has `completedMutex`.
completed_unlocked :
    (s : System)
    → SystemInv s
    → look_mutex s.look ≡ true
    → look_completed s.look ≡ false
    → s.shared.completed_mutex ≡ none
completed_unlocked s inv e c =
    unlocked s.shared.completed_mutex (look_completed s.look) (λ i. has_completed (s.callers i))
      inv.completed c
      λ i. ground (arith, inv.mutex 0, inv.mutex (suc i), only_one s.shared.mutex 0 (suc i))

pub rest :
    (m : Shared) (l : Look) (f : ℕ → Pc)
    → SystemInv (record { shared = m; look = l; callers = f })
    → nested l ≡ idle
    → l ≢ failing
    → Rested (record { shared = m; look = l; callers = f })
rest m failing f inv e n = absurd (n refl)
rest m opening f inv e n = goes_on _ Looks.opened refl (rested _ refl)
rest m working f inv e n = goes_on _ Looks.sleeps refl (rested _ refl)
rest m (announcing h) f inv e n =
    goes_on _ (Looks.locks_before_call (completed_unlocked _ inv refl refl)) refl
      (goes_on _ Looks.unlocks_to_call refl (goes_on _ Looks.called refl (rested _ refl)))
rest m (releasing h) f inv e n =
    goes_on _ Looks.unlocks_to_call refl (goes_on _ Looks.called refl (rested _ refl))
rest m (calling h idle) f inv e n = goes_on _ Looks.called refl (rested _ refl)
rest m (calling h p) f inv e n = absurd (ground arith)
rest m l f inv e n = rested _ refl
