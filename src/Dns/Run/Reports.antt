-- ===== src/Dns/Run/Reports.antt =====
-- Each timeout that is due is reported.
use setka.Prelude.{
  ℕ, zero, suc, ◌<◌, ◌≡◌, refl, sym, ap, subst, ◌∙◌, inl, inr, true, false, not, ◌&&◌, Option, none,
  some, List, [], ◌∷◌, ◌++◌, arith, tests, ltb, if◌then◌else◌, List-cases, Bool-cases, Option-cases,
  length, append-nil, append_assoc,
}
use setka.Utki.{Utki, Bytes}
use setka.Address.{of_v4}
use setka.Std.Map
use setka.Std.Multimap
use setka.Std.Multimap.{Multimap, From}
use setka.Dns.Result.{timeout}
use setka.Dns.Thread.{TimeMap, Resolver, LookupThread, entries}
use setka.Dns.Thread.Consistent.{IsConsistent, same_map}
use setka.Dns.Thread.Remove.{without, remove_resolver_lem, remove-flags, entries-remove}
use setka.Dns.Run.{Completion, Run, call_callback, complete, expire}
use setka.Dns.Run.Keeps.{IsGood, first_timed}
use setka.Dns.Run.Stops.{Stops, >>=-Stops, Stops-map}

-- The reports for all the entries up to a time, in their order.
unfoldable pub timeouts : ℕ → Multimap → List Completion
timeouts time [] = []
timeouts time ((key, h) ∷ m) =
    if ltb time key
    then timeouts time m
    else record { hnr = h; result = timeout; host = of_v4 0 } ∷ timeouts time m

-- What is left of a request: nothing, if it is in that time map and ends up to that time.
abbrev pub remaining : TimeMap → ℕ → Option Resolver → Option Resolver
remaining side time none = none
remaining side time (some r) =
    if same_map side r.time_map && not (ltb time r.time_key) then none else some r

count-From : (k v j : ℕ) (m : Multimap) → From j m → k < j → Multimap.count k v m ≡ 0
unfolding Multimap.count
count-From k v j [] f h = refl
count-From k v j ((i, w) ∷ m) (le, f) h = ground (arith, count-From k v i m f (omega arith))

timeouts-From : (time j : ℕ) (m : Multimap) → From j m → time < j → timeouts time m ≡ []
unfolding timeouts
timeouts-From time j [] f h = refl
timeouts-From time j ((i, w) ∷ m) (le, f) h = ground (arith, timeouts-From time i m f (omega arith))

-- An entry of a time map belongs to the request that it leads to.
first-entry :
    (t : LookupThread) (side : TimeMap) (key h : ℕ) (m : Multimap) (r : Resolver)
    → IsConsistent t
    → entries side t ≡ (key, h) ∷ m
    → Map.find h t.resolvers_map ≡ some r
    → (same_map side r.time_map ≡ true) × (r.time_key ≡ key)
unfolding Multimap.count
first-entry t side key h m r v e found = ground (arith, v.times side key h)

-- What the loop comes to, from a state
abbrev pub Reported : ℕ → Multimap → Run → Run → Type 0
Reported time m s s' =
    IsGood s'
    × (s'.thread.time_map1 ≡ s.thread.time_map1)
    × (s'.completed ≡ s.completed ++ timeouts time m)
    × ((h : ℕ)
        → Map.find h s'.thread.resolvers_map
          ≡ remaining s.thread.time_map1 time (Map.find h s.thread.resolvers_map))

module _ (u : Utki) (stack : Bytes) (meanwhile : Completion → LookupThread → LookupThread)
    (makes_no_calls : (c : Completion) (t : LookupThread) → meanwhile c t ≡ t) where
  late-find :
      (time : ℕ) (s : Run) (h : ℕ) (r : Resolver)
      → IsGood s
      → From (suc time) (entries s.thread.time_map1 s.thread)
      → Map.find h s.thread.resolvers_map ≡ some r
      → same_map s.thread.time_map1 r.time_map ≡ true
      → ltb time r.time_key ≡ true
  late-find time s h r v later found same = elim (Bool-cases (ltb time r.time_key)) [
    | inl is_late ↦ is_late
    | inr due ↦ absurd (
        ground (
          arith,
          v.times s.thread.time_map1 r.time_key h,
          count-From r.time_key h (suc time) (entries s.thread.time_map1 s.thread) later
              (omega (tests, due)),
        ))
  ]

  -- Nothing is due.
  Reported-late :
      (time : ℕ) (s : Run)
      → IsGood s
      → From (suc time) (entries s.thread.time_map1 s.thread)
      → Reported time (entries s.thread.time_map1 s.thread) s s
  Reported-late time s v later = (
    v,
    refl,
    rw (timeouts-From time (suc time) (entries s.thread.time_map1 s.thread) later (omega arith))
        (sym (append-nil s.completed)),
    λ h. elim (Option-cases (Map.find h s.thread.resolvers_map)) [
      | inl missing ↦ rw missing refl
      | inr (r, found) ↦ ground (arith, late-find time s h r v later found)
    ],
  )

  complete-first :
      (key h : ℕ) (m : Multimap) (s : Run) (r : Resolver)
      → IsGood s
      → entries s.thread.time_map1 s.thread ≡ (key, h) ∷ m
      → Map.find h s.thread.resolvers_map ≡ some r
      → Stops
          (λ s'.
            IsGood s'
            × (s'.thread.time_map1 ≡ s.thread.time_map1)
            × (s'.completed
                ≡ s.completed ++ record { hnr = h; result = timeout; host = of_v4 0 } ∷ [])
            × ((k : ℕ)
                → Map.find k s'.thread.resolvers_map
                  ≡ without h k (Map.find k s.thread.resolvers_map))
            × (entries s'.thread.time_map1 s'.thread ≡ m))
          (complete u stack meanwhile s h timeout (of_v4 0))
  unfolding complete call_callback
  complete-first key h m s r v e found =
      let (consistent, returned, left) = remove_resolver_lem s.thread h v in
      let same_side = (remove-flags s.thread h).2 in
      let (same, at) = first-entry s.thread s.thread.time_map1 key h m r v e found in
      rw (returned ∙ found, complete, makes_no_calls)
        (
          consistent,
          same_side,
          rw (v.owner h r found) refl,
          left,
          rw same_side (entries-remove s.thread s.thread.time_map1 key h m r e found same at),
        )

  -- A request of the time map that is due, and then those that are due of the rest
  Reported-step :
      (time key h : ℕ) (m : Multimap) (s s' s'' : Run) (r : Resolver)
      → ltb time key ≡ false
      → Map.find h s.thread.resolvers_map ≡ some r
      → same_map s.thread.time_map1 r.time_map ≡ true
      → r.time_key ≡ key
      → s'.thread.time_map1 ≡ s.thread.time_map1
      → s'.completed ≡ s.completed ++ record { hnr = h; result = timeout; host = of_v4 0 } ∷ []
      → ((k : ℕ)
          → Map.find k s'.thread.resolvers_map ≡ without h k (Map.find k s.thread.resolvers_map))
      → Reported time m s' s''
      → Reported time ((key, h) ∷ m) s s''
  unfolding timeouts
  Reported-step time key h m s s' s'' r due found same at side told left (v, sides, reports, rest) =
      (
        v,
        sides ∙ side,
        rw due (
            reports
            ∙ ap (λ (cs : List Completion). cs ++ timeouts time m) told
            ∙ append_assoc s.completed (record { hnr = h; result = timeout; host = of_v4 0 } ∷ [])
                (timeouts time m)),
        λ k. ground (arith, rest k, left k),
      )

  times_sorted : (s : Run) → IsGood s → From 0 (entries s.thread.time_map1 s.thread)
  times_sorted s v = ground (arith, v.times1_sorted, v.times2_sorted)

  late_entries :
      (time key k : ℕ) (m : Multimap)
      → ltb time key ≡ true
      → From 0 ((key, k) ∷ m)
      → From (suc time) ((key, k) ∷ m)
  late_entries time key k m later f = (omega (tests, later), f.1)

  -- Where callbacks make no calls, the loop over the timeouts reports each request of the first time
  -- map that ends up to the time, once and as a timeout, in the order of their times, and removes it;
  -- all other requests stay as they are: this from consistent tables, with more fuel than the time map
  -- has entries.
  pub expire_lem :
      (fuel time : ℕ) (s : Run)
      → IsGood s
      → length (entries s.thread.time_map1 s.thread) < fuel
      → Stops
          (Reported time (entries s.thread.time_map1 s.thread) s)
          (expire u stack meanwhile fuel (some time) s)
  unfolding expire
  expire_lem zero time s v few = absurd (omega arith)
  expire_lem (suc fuel) time s v few = elim (List-cases (entries s.thread.time_map1 s.thread)) [
    | inl empty ↦
        rw (empty, expire)
          (subst (λ m. Reported time m s s) empty (Reported-late time s v (rw empty tt)))
    | inr ((key, h), m, e) ↦
        let (r, found) = first_timed s.thread s.thread.time_map1 key h m v e in
        let (same, at) = first-entry s.thread s.thread.time_map1 key h m r v e found in
        rw (e, expire)
          (elim (Bool-cases (ltb time key)) [
            | inl later ↦ rw later (
                subst (λ m. Reported time m s s) e
                  (Reported-late time s v
                    (rw e (late_entries time key h m later (subst (From 0) e (times_sorted s v))))))
            | inr due ↦ rw due (
                >>=-Stops _ _ (complete u stack meanwhile s h timeout (of_v4 0)) _
                  (complete-first key h m s r v e found)
                  λ s' (v', side, told, left, behind).
                    Stops-map _ _ (expire u stack meanwhile fuel (some time) s')
                      (λ s'' reports.
                        Reported-step time key h m s s' s'' r due found same at side told left
                          (subst (λ m. Reported time m s' s'') behind reports))
                      (expire_lem fuel time s' v' (omega (arith, ap length behind, ap length e))))
          ])
  ]
