-- ===== src/Dns/Run/Ends/Times.antt =====
-- The part of a round that keeps the time ends.
use setka.Prelude.{
  ℕ, zero, suc, ◌-◌, ◌/◌, ◌^◌, ◌≤◌, ◌<◌, inl, inr, Bool, true, not, ◌&&◌, Option, none, some, arith,
  ◌==◌, List-cases, Bool-cases, Option-cases, length, ltb,
}
use setka.Utki.{Utki, Bytes}
use setka.Address.{of_v4}
use setka.Std.Map.Laws.{length-find}
use setka.Dns.Result.{timeout}
use setka.Dns.Thread.{other, LookupThread, entries}
use setka.Dns.Thread.Consistent.{IsConsistent, flags-IsConsistent, swap-IsConsistent}
use setka.Dns.Run.{
  Completion, Run, ◌>>=◌, complete, expire, swap_if_wrapped, swap_time_maps, next_wait, keep_time,
}
use setka.Dns.Run.Keeps.{IsGood, IsGoodEnd, first_timed}
use setka.Dns.Run.Stops.{Stops, >>=-Stops, IsBounded, complete-Stops, predecessor}
use setka.Dns.Run.Ends.{Ends, Stops-Ends, >>=-Ends}

module _ (u : Utki) (stack : Bytes) (meanwhile : Completion → LookupThread → LookupThread)
    (keeps : (c : Completion) (t : LookupThread) → IsConsistent t → IsConsistent (meanwhile c t))
    (adds_none : (c : Completion) (t : LookupThread)
      → length (meanwhile c t).resolvers_map ≤ length t.resolvers_map) where
  -- The loop over the timeouts, up to a time or without one
  expire-IsBounded :
      (n m fuel : ℕ) (limit : Option ℕ) (s : Run)
      → IsBounded n s
      → n ≤ m
      → n < fuel
      → Stops (IsBounded m) (expire u stack meanwhile fuel limit s)
  unfolding expire
  expire-IsBounded n m zero limit s b le few = absurd (omega arith)
  expire-IsBounded n m (suc fuel) limit s b le few =
      elim (List-cases (entries s.thread.time_map1 s.thread)) [
        | inl empty ↦ rw (empty, expire) (b.0, omega (arith, b.1))
        | inr ((key, h), l, e) ↦
            let (r, found) = first_timed s.thread s.thread.time_map1 key h l b.0 e in
            let (n', fits) = predecessor n (omega (arith, length-find h r _ found, b.1)) in
            let goes_on : (o : Option ℕ)
                → Stops (IsBounded m) (
                    complete u stack meanwhile s h timeout (of_v4 0)
                    >>= expire u stack meanwhile fuel o) =
              λ o.
                >>=-Stops (IsBounded n') (IsBounded m) _ _
                  (complete-Stops u stack meanwhile keeps adds_none n' s h timeout (of_v4 0) r
                    (b.0, omega (arith, b.1, fits)) found)
                  λ s' b'.
                    expire-IsBounded n' m fuel o s' b' (omega (arith, fits))
                      (omega (arith, fits)) in
            rw (e, expire)
              (elim (Option-cases limit) [
                | inl all ↦ rw all (goes_on none)
                | inr (time, some_time) ↦ rw some_time (elim (Bool-cases (ltb time key)) [
                  | inl later ↦ rw later (b.0, omega (arith, b.1))
                  | inr due ↦ rw due (goes_on (some time))
                ])
              ])
      ]

  swap_if_wrapped-Stops :
      (n fuel : ℕ) (first_half : Bool) (s : Run)
      → IsBounded n s
      → n < fuel
      → Stops (IsBounded n) (swap_if_wrapped u stack meanwhile fuel first_half s)
  unfolding swap_if_wrapped
  swap_if_wrapped-Stops n fuel first_half s b few =
      elim (Bool-cases (first_half && not s.thread.last_ticks_in_first_half)) [
        | inl wraps ↦ rw wraps (
            >>=-Stops (IsBounded n) (IsBounded n) (expire u stack meanwhile fuel none s) _
              (expire-IsBounded n n fuel none s b (omega arith) few)
              λ s b. (swap-IsConsistent s.thread (other s.thread.time_map1) b.0, b.1))
        | inr goes_on ↦ rw goes_on b
      ]

  swap_time_maps-Stops :
      (n fuel cur_time : ℕ) (s : Run)
      → IsBounded n s
      → n < fuel
      → Stops (IsBounded n) (swap_time_maps u stack meanwhile fuel cur_time s)
  unfolding swap_time_maps
  swap_time_maps-Stops n fuel cur_time s b few =
      let first_half = ltb cur_time ((2 ^ 32 - 1) / 2) in
      >>=-Stops (IsBounded n) (IsBounded n) (swap_if_wrapped u stack meanwhile fuel first_half s) _
        (swap_if_wrapped-Stops n fuel first_half s b few)
        λ s b. (
          flags-IsConsistent s.thread s.thread.quit_flag s.thread.is_exiting first_half
              s.thread.queue b.0,
          b.1,
        )

  next_wait-Ends :
      (cur_time : ℕ) (s : Run) → IsGood s → Ends IsGoodEnd (next_wait u stack meanwhile cur_time s)
  unfolding next_wait
  next_wait-Ends cur_time s v = elim (Bool-cases (length s.thread.resolvers_map == 0)) [
    | inl idle ↦ rw idle (
        flags-IsConsistent s.thread s.thread.quit_flag true s.thread.last_ticks_in_first_half
          s.thread.queue v)
    | inr busy ↦ rw busy (elim (List-cases (entries s.thread.time_map1 s.thread)) [
      | inl empty ↦ rw (empty, next_wait) tt
      | inr (k, m, e) ↦ rw (e, next_wait) v
    ])
  ]

  pub keep_time-Ends :
      (n fuel cur_time : ℕ) (s : Run)
      → IsBounded n s
      → n < fuel
      → Ends IsGoodEnd (keep_time u stack meanwhile fuel cur_time s)
  unfolding keep_time
  keep_time-Ends n fuel cur_time s b few =
      >>=-Ends (IsBounded n) IsGoodEnd _ _
        (Stops-Ends (IsBounded n) (IsBounded n) _ (λ s b. b)
          (>>=-Stops (IsBounded n) (IsBounded n) _ _ (swap_time_maps-Stops n fuel cur_time s b few)
            λ s b. expire-IsBounded n n fuel (some cur_time) s b (omega arith) few))
        λ s b. next_wait-Ends cur_time s b.0
