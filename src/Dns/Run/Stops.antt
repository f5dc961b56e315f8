-- ===== src/Dns/Run/Stops.antt =====
-- The loops over the tables end, if callbacks do not add requests to the thread.
use setka.Prelude.{
  ℕ, zero, suc, subst, ◌≤◌, ◌<◌, ◌≡◌, refl, sym, ap, ◌∙◌, inl, inr, true, some, List, [], ◌∷◌, ◌++◌,
  arith, tests, ltb, List-cases, Bool-cases, length, append-nil, append_assoc,
}
use setka.Utki.{Utki, Bytes}
use setka.Address.{Ip, of_v4}
use setka.Std.Map
use setka.Std.Map.Laws.{length-find}
use setka.Std.Multimap.{From}
use setka.Dns.Result.{DnsResult, no_host, error, timeout}
use setka.Dns.Thread.{Resolver, LookupThread, entries, remove_resolver}
use setka.Dns.Thread.Consistent.{IsConsistent, flags-IsConsistent}
use setka.Dns.Thread.Remove.{
  remove_resolver_lem, remove-flags, resolvers-remove_first, length-remove_resolver,
}
use setka.Dns.Run.{
  Completion, Run, Step, ran, null_pointer, past_the_end, overread, out_of_fuel, ◌>>=◌,
  call_callback, complete, remove_all_resolvers, fail, expire,
}
use setka.Dns.Run.Keeps.{IsGood, first_timed}

-- A step that goes on with a value, which meets a condition.
abbrev pub Stops {ℓ} : {A : Type ℓ} → (A → Type 0) → Step A → Type 0
Stops P (ran a) = P a
Stops P _ = ⊥

pub >>=-Stops {ℓ κ} :
    {A : Type ℓ} {B : Type κ} (P : A → Type 0) (Q : B → Type 0) (m : Step A) (f : A → Step B)
    → Stops P m
    → ((a : A) → P a → Stops Q (f a))
    → Stops Q (m >>= f)
>>=-Stops P Q (ran a) f h k = k a h
>>=-Stops P Q null_pointer f h k = h
>>=-Stops P Q past_the_end f h k = h
>>=-Stops P Q overread f h k = h
>>=-Stops P Q out_of_fuel f h k = h

pub Stops-map {ℓ} :
    {A : Type ℓ} (P Q : A → Type 0) (m : Step A) → ((a : A) → P a → Q a) → Stops P m → Stops Q m
Stops-map P Q (ran a) f h = f a h
Stops-map P Q null_pointer f h = h
Stops-map P Q past_the_end f h = h
Stops-map P Q overread f h = h
Stops-map P Q out_of_fuel f h = h

-- Consistent tables with so many requests at most.
abbrev pub IsBounded : ℕ → Run → Type 0
IsBounded n s = IsGood s × (length s.thread.resolvers_map ≤ n)

-- All entries of the first time map are later than a time.
abbrev pub IsLate : ℕ → Run → Type 0
IsLate time s = From (suc time) (entries s.thread.time_map1 s.thread)

pub predecessor : (n : ℕ) → 1 ≤ n → (m : ℕ) × (n ≡ suc m)
predecessor zero h = absurd (omega arith)
predecessor (suc m) h = (m, refl)

module _ (u : Utki) (stack : Bytes) (meanwhile : Completion → LookupThread → LookupThread)
    (keeps : (c : Completion) (t : LookupThread) → IsConsistent t → IsConsistent (meanwhile c t))
    (adds_none : (c : Completion) (t : LookupThread)
      → length (meanwhile c t).resolvers_map ≤ length t.resolvers_map) where
  pub complete-Stops :
      (n : ℕ) (s : Run) (h : ℕ) (result : DnsResult) (host : Ip) (r : Resolver)
      → IsBounded (suc n) s
      → Map.find h s.thread.resolvers_map ≡ some r
      → Stops (IsBounded n) (complete u stack meanwhile s h result host)
  unfolding complete call_callback
  complete-Stops n s h result host r (v, few) found =
      let (consistent, returned, _) = remove_resolver_lem s.thread h v in
      let less = length-remove_resolver s.thread h n r found few in
      let c : Completion = record { hnr = r.hnr; result = result; host = host } in
      let fewer = adds_none c (remove_resolver s.thread h).0 in
      rw (returned ∙ found, complete) (keeps c _ consistent, omega arith)

  pub remove_all_resolvers-Stops :
      (n fuel : ℕ) (s : Run)
      → IsBounded n s
      → n < fuel
      → Stops (λ s. s.thread.resolvers_map ≡ []) (remove_all_resolvers u stack meanwhile fuel s)
  unfolding remove_all_resolvers Map.find
  remove_all_resolvers-Stops n zero s b h = absurd (omega arith)
  remove_all_resolvers-Stops zero (suc fuel) s b h = elim (List-cases s.thread.resolvers_map) [
    | inl empty ↦ rw (empty, remove_all_resolvers) empty
    | inr (k, m, e) ↦ absurd (ground (arith, b.1))
  ]
  remove_all_resolvers-Stops (suc n) (suc fuel) s b h = elim (List-cases s.thread.resolvers_map) [
    | inl empty ↦ rw (empty, remove_all_resolvers) empty
    | inr ((k, r), m, e) ↦
        rw (e, remove_all_resolvers)
          (>>=-Stops (IsBounded n) _ (complete u stack meanwhile s k error no_host) _
            (complete-Stops n s k error no_host r b (ground arith))
            λ s' b'. remove_all_resolvers-Stops n fuel s' b' (omega arith))
  ]

  times_sorted : (s : Run) → IsGood s → From 0 (entries s.thread.time_map1 s.thread)
  times_sorted s v = ground (arith, v.times1_sorted, v.times2_sorted)

  late :
      (time key k : ℕ) (m : List (ℕ × ℕ))
      → ltb time key ≡ true
      → From 0 ((key, k) ∷ m)
      → From (suc time) ((key, k) ∷ m)
  late time key k m later f = (omega (tests, later), f.1)

  -- The loop over the timeouts ends, with more fuel than there are requests, in consistent tables whose
  -- first time map has only later times left: this from consistent tables, if what other threads do
  -- during a callback keeps them so and adds no requests.
  pub expire-Stops :
      (n fuel time : ℕ) (s : Run)
      → IsBounded n s
      → n < fuel
      → Stops (λ s. IsGood s × IsLate time s) (expire u stack meanwhile fuel (some time) s)
  unfolding expire
  expire-Stops n zero time s b h = absurd (omega arith)
  expire-Stops n (suc fuel) time s b h = elim (List-cases (entries s.thread.time_map1 s.thread)) [
    | inl empty ↦ rw (empty, expire) (b.0, rw empty tt)
    | inr ((key, k), m, e) ↦
        rw (e, expire)
          (elim (Bool-cases (ltb time key)) [
            | inl later ↦
                rw later
                  (b.0, rw e (late time key k m later (subst (From 0) e (times_sorted s b.0))))
            | inr due ↦
                let (r, found) = first_timed s.thread s.thread.time_map1 key k m b.0 e in
                let (n', fits) = predecessor n (omega (arith, length-find k r _ found, b.1)) in
                rw due (
                  >>=-Stops (IsBounded n') _ (complete u stack meanwhile s k timeout (of_v4 0)) _
                    (complete-Stops n' s k timeout (of_v4 0) r (b.0, omega (arith, b.1)) found)
                    λ s' b'. expire-Stops n' fuel time s' b' (omega arith))
          ])
  ]

-- What `RemoveAllResolvers` reports.
abbrev pub failures : Map.Map Resolver → List Completion
failures [] = []
failures ((h, r) ∷ m) = record { hnr = r.hnr; result = error; host = no_host } ∷ failures m

module _ (u : Utki) (stack : Bytes) (meanwhile : Completion → LookupThread → LookupThread)
    (makes_no_calls : (c : Completion) (t : LookupThread) → meanwhile c t ≡ t) where
  complete-first :
      (s : Run) (h : ℕ) (r : Resolver) (m : Map.Map Resolver)
      → IsGood s
      → s.thread.resolvers_map ≡ (h, r) ∷ m
      → Stops
          (λ s'.
            IsGood s'
            × (s'.thread.resolvers_map ≡ m)
            × (s'.completed ≡ s.completed ++ failures ((h, r) ∷ []))
            × (s'.thread.is_exiting ≡ s.thread.is_exiting))
          (complete u stack meanwhile s h error no_host)
  unfolding complete call_callback Map.find
  complete-first s h r m v e =
      let (consistent, returned, _) = remove_resolver_lem s.thread h v in
      let found : Map.find h s.thread.resolvers_map ≡ some r = rw e (ground arith) in
      rw (returned ∙ found, complete, makes_no_calls)
        (consistent, resolvers-remove_first s.thread h r m e, refl, (remove-flags s.thread h).1)

  fail_all :
      (fuel : ℕ) (s : Run) (m : Map.Map Resolver)
      → IsGood s
      → s.thread.resolvers_map ≡ m
      → length m < fuel
      → Stops
          (λ s'.
            (s'.thread.resolvers_map ≡ [])
            × (s'.completed ≡ s.completed ++ failures m)
            × (s'.thread.is_exiting ≡ s.thread.is_exiting))
          (remove_all_resolvers u stack meanwhile fuel s)
  unfolding remove_all_resolvers
  fail_all zero s m v e h = absurd (omega arith)
  fail_all (suc fuel) s [] v e h =
      rw (e, remove_all_resolvers) (e, sym (append-nil s.completed), refl)
  fail_all (suc fuel) s ((k, r) ∷ m) v e h =
      rw (e, remove_all_resolvers)
        (>>=-Stops _ _ (complete u stack meanwhile s k error no_host) _ (complete-first s k r m v e)
          λ s' (v', left, done, exits).
            Stops-map _ _ (remove_all_resolvers u stack meanwhile fuel s')
              (λ s'' (empty, told, keeps_flag). (
                empty,
                told
                    ∙ ap (λ (cs : List Completion). cs ++ failures m) done
                    ∙ append_assoc s.completed (failures ((k, r) ∷ [])) (failures m),
                keeps_flag ∙ exits,
              ))
              (fail_all fuel s' m v' left (omega arith)))

  -- Where the loop fails, and callbacks make no calls, the thread counts as exiting, each active request
  -- is reported once, as an error, in the order of the resolvers, and none is left: this from consistent
  -- tables, with more fuel than there are requests.
  pub fail_lem :
      (fuel : ℕ) (s : Run)
      → IsGood s
      → length s.thread.resolvers_map < fuel
      → Stops
          (λ s'.
            (s'.thread.resolvers_map ≡ [])
            × (s'.completed ≡ s.completed ++ failures s.thread.resolvers_map)
            × (s'.thread.is_exiting ≡ true))
          (fail u stack meanwhile fuel s)
  unfolding fail
  fail_lem fuel s v h =
      fail_all fuel (record s { thread = record s.thread { is_exiting = true } }) _
        (flags-IsConsistent s.thread s.thread.quit_flag true s.thread.last_ticks_in_first_half
          s.thread.queue v)
        refl h
