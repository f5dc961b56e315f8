-- ===== src/Dns/Locks/Tests.antt =====
-- Runs of the lookup thread and of two callers.
use setka.Prelude.{arith, ℕ, ◌≡◌, refl, Bool, true, false, none, some, ◌==◌}
use setka.Dns.Locks.{
  resolves, cancels, Pc, idle, begun, in_dns, cancelling, awaiting, awaited, leaving, left, set,
  Acts, calling, resuming, Looks, System, update, looks, acts, Reaches, here, next, started,
}
use setka.Dns.Locks.Invariant.{in_callback}
use setka.Dns.Locks.Invariant.Kept.{cancel-IsDone}
use setka.Dns.Locks.Returns.Whole.{calls_can_return}
use setka.Dns.Locks.Stuck.{Reaches-stays, Reaches-waits}

abbrev only_0 : ℕ → Bool
only_0 h = h == 0

abbrev no_callers : ℕ → Pc
no_callers i = idle

-- The callback of resolver 0 runs.
abbrev in_the_callback : System
in_the_callback = record {
  shared = record {
    dns_mutex = none;
    mutex = none;
    completed_mutex = some 0;
    active = set only_0 0 false;
    ended = false;
    exiting = false;
    quiet = λ h. false;
  };
  look = calling 0 idle;
  callers = no_callers;
}

calls_back : Reaches (started only_0) in_the_callback
calls_back =
    next
      (next
        (next
          (next (next (next here (looks (Looks.locks_to_open refl))) (looks Looks.opened))
            (looks (Looks.wakes refl)))
          (looks (Looks.takes {h = 0} refl)))
        (looks (Looks.locks_before_call refl)))
      (looks Looks.unlocks_to_call)

-- Meanwhile caller 0 calls `cancel` of the same resolver, and waits.
abbrev cancel_waits : System
cancel_waits = record {
  shared = record in_the_callback.shared { dns_mutex = some 1; mutex = some 1 };
  look = calling 0 idle;
  callers =
      update
        (update (update (update no_callers 0 (begun (cancels 0))) 0 (in_dns (cancels 0))) 0
          (cancelling 0))
        0 (awaiting 0);
}

cancels_meanwhile : Reaches (started only_0) cancel_waits
cancels_meanwhile =
    next
      (next
        (next (next calls_back (acts 0 (Acts.begins (cancels 0)))) (acts 0 (Acts.locks_dns refl)))
        (acts 0 (Acts.locks_to_cancel refl)))
      (acts 0 (Acts.finds_none refl))

abbrev cancel_returned : System
cancel_returned = record {
  shared = record in_the_callback.shared {
    completed_mutex = none;
    quiet = set (λ h. false) 0 true;
  };
  look = resuming;
  callers =
      update
        (update (update (update cancel_waits.callers 0 (awaited 0)) 0 (leaving (cancels 0) false)) 0
          (left (cancels 0) false))
        0 idle;
}

cancel_returns : Reaches (started only_0) cancel_returned
cancel_returns =
    next
      (next
        (next
          (next (next cancels_meanwhile (looks Looks.called)) (acts 0 (Acts.locks_completed refl)))
          (acts 0 Acts.unlocks_completed))
        (acts 0 Acts.unlocks))
      (acts 0 Acts.returns)

cancel-IsDone_example :
    (cancel_returned.shared.active 0 ≡ false) × (in_callback 0 cancel_returned.look ≡ false)
cancel-IsDone_example = cancel-IsDone cancel_returns 0 refl

-- While `cancel` waits, the callback calls `resolve`; then caller 1 begins a call.
abbrev both_wait : System
both_wait = record cancel_waits { look = calling 0 (begun (resolves 1)) }

abbrev and_another : System
and_another = record both_wait { callers = update both_wait.callers 1 (begun (cancels 2)) }

Reaches-stays_example :
    (and_another.look ≡ both_wait.look) × (and_another.callers 0 ≡ both_wait.callers 0)
Reaches-stays_example =
    Reaches-stays 0 (next cancels_meanwhile (looks (Looks.calls (Acts.begins (resolves 1))))) refl
      (next here (acts 1 (Acts.begins (cancels 2))))

-- The callback calls `cancel` of its own resolver; then caller 1 begins a call.
abbrev cancels_itself : System
cancels_itself = record {
  shared = record in_the_callback.shared { dns_mutex = some 0; mutex = some 0 };
  look = calling 0 (awaiting 0);
  callers = no_callers;
}

abbrev and_a_caller : System
and_a_caller = record cancels_itself { callers = update no_callers 1 (begun (cancels 2)) }

Reaches-waits_example : and_a_caller.look ≡ cancels_itself.look
Reaches-waits_example =
    Reaches-waits
      (next
        (next
          (next (next calls_back (looks (Looks.calls (Acts.begins (cancels 0)))))
            (looks (Looks.calls (Acts.locks_dns refl))))
          (looks (Looks.calls (Acts.locks_to_cancel refl))))
        (looks (Looks.calls (Acts.finds_none refl))))
      refl (next here (acts 1 (Acts.begins (cancels 2))))

-- While the callback runs and `cancel` waits for it
calls_can_return_example : (t : System) × Reaches cancel_waits t × (t.callers 0 ≡ idle)
calls_can_return_example =
    calls_can_return 0 cancels_meanwhile refl (λ e. absurd (ground arith)) refl λ k. ground arith
