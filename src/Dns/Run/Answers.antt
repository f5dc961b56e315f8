-- ===== src/Dns/Run/Answers.antt =====
-- src/setka/dns_resolver.cpp, `LookupThread::run`: an account of what the parts of a round have reported and
-- of the requests that are left.
pub mod Rounds
use setka.Prelude.{
  ℕ, zero, suc, ◌+◌, ◌≡◌, ◌∙◌, refl, inl, inr, Bool, true, false, not, ◌&&◌, Option, none, some,
  List, [], ◌∷◌, ◌++◌, arith, ◌==◌, if◌then◌else◌, List-cases, Bool-cases, Option-cases, ltb,
  length, ◌^◌, ◌-◌, ◌/◌,
}
use setka.Utki.{Utki, Bytes}
use setka.Address.{Ip, of_v4}
use setka.Std.Map
use setka.Dns.Result.{DnsResult, no_host, error, timeout}
use setka.Dns.Thread.{Resolver, LookupThread, other, entries}
use setka.Dns.Thread.Consistent.{IsConsistent, flags-IsConsistent, swap-IsConsistent}
use setka.Dns.Thread.Remove.{remove_resolver_lem, remove-flags, without}
use setka.Dns.Run.{
  Completion, Run, Step, ran, ◌>>=◌, call_callback, complete, remove_all_resolvers, fail, failed,
  expire, swap_if_wrapped, swap_time_maps, next_wait, keep_time,
}
use setka.Dns.Run.Keeps.{Keeps, >>=-Keeps, Keeps-if, IsGood, first_timed}

-- How many times a resolver was called back.
unfoldable pub told : ℕ → List Completion → ℕ
told h [] = 0
told h (c ∷ cs) = let n = told h cs in if h == c.hnr then suc n else n

-- How many requests it has.
abbrev pub filed : Option Resolver → ℕ
filed none = 0
filed (some r) = 1

-- Consistent tables, where each resolver has so many reports and requests; and `isExiting`.
pub record Accounts (k : ℕ → ℕ) (b : Bool) (s : Run) : Type 0 where
  pub good : IsGood s
  pub count : (h : ℕ) → told h s.completed + filed (Map.find h s.thread.resolvers_map) ≡ k h
  pub exits : s.thread.is_exiting ≡ b

-- The thread counts as exiting, and nobody waits for a report.
abbrev pub HasLeft : (ℕ → ℕ) → Run → Type 0
HasLeft k s = Accounts k true s × (s.thread.resolvers_map ≡ [])

told-append :
    (h : ℕ) (cs : List Completion) (c : Completion)
    → told h (cs ++ c ∷ []) ≡ told h cs + (if h == c.hnr then 1 else 0)
unfolding told
told-append h [] c = ground arith
told-append h (d ∷ cs) c = ground (arith, told-append h cs c)

module _ (u : Utki) (stack : Bytes) (meanwhile : Completion → LookupThread → LookupThread)
    (makes_no_calls : (c : Completion) (t : LookupThread) → meanwhile c t ≡ t) (k : ℕ → ℕ) where
  pub complete-Accounts :
      (b : Bool) (s : Run) (h : ℕ) (result : DnsResult) (host : Ip) (r : Resolver)
      → Accounts k b s
      → Map.find h s.thread.resolvers_map ≡ some r
      → Keeps (Accounts k b) (complete u stack meanwhile s h result host)
  unfolding complete call_callback
  complete-Accounts b s h result host r a found =
      let (consistent, returned, left) = remove_resolver_lem s.thread h a.good in
      let c : Completion = record { hnr = r.hnr; result = result; host = host } in
      rw (returned ∙ found, complete, makes_no_calls)
        (record {
          good = consistent;
          count = λ i.
              ground
                (arith, left i, a.count i, a.good.owner h r found, told-append i s.completed c);
          exits = (remove-flags s.thread h).1 ∙ a.exits;
        })

  pub remove_all-HasLeft :
      (fuel : ℕ) (s : Run)
      → Accounts k true s
      → Keeps (HasLeft k) (remove_all_resolvers u stack meanwhile fuel s)
  unfolding remove_all_resolvers Map.find
  remove_all-HasLeft zero s a = tt
  remove_all-HasLeft (suc fuel) s a = elim (List-cases s.thread.resolvers_map) [
    | inl empty ↦ rw (empty, remove_all_resolvers) (a, empty)
    | inr ((h, r), m, e) ↦
        rw (e, remove_all_resolvers)
          (>>=-Keeps (Accounts k true) (HasLeft k) (complete u stack meanwhile s h error no_host) _
            (complete-Accounts true s h error no_host r a (ground arith)) (remove_all-HasLeft fuel))
  ]

  pub fail-HasLeft :
      (b : Bool) (fuel : ℕ) (s : Run)
      → Accounts k b s
      → Keeps (HasLeft k) (fail u stack meanwhile fuel s)
  unfolding fail
  fail-HasLeft b fuel s a = remove_all-HasLeft fuel _ (record {
    good =
        flags-IsConsistent s.thread s.thread.quit_flag true s.thread.last_ticks_in_first_half
          s.thread.queue a.good;
    count = a.count;
    exits = refl;
  })

  pub expire-Accounts :
      (b : Bool) (fuel : ℕ) (limit : Option ℕ) (s : Run)
      → Accounts k b s
      → Keeps (Accounts k b) (expire u stack meanwhile fuel limit s)
  unfolding expire
  expire-Accounts b zero limit s a = tt
  expire-Accounts b (suc fuel) limit s a = elim (List-cases (entries s.thread.time_map1 s.thread)) [
    | inl empty ↦ rw (empty, expire) a
    | inr ((key, h), m, e) ↦
        let (r, found) = first_timed s.thread s.thread.time_map1 key h m a.good e in
        let goes_on : (o : Option ℕ)
            → Keeps (Accounts k b) (
                complete u stack meanwhile s h timeout (of_v4 0)
                >>= expire u stack meanwhile fuel o) =
          λ o.
            >>=-Keeps _ _ _ _ (complete-Accounts b s h timeout (of_v4 0) r a found)
              (expire-Accounts b fuel o) in
        rw (e, expire)
          (elim (Option-cases limit) [
            | inl all ↦ rw all (goes_on none)
            | inr (time, some_time) ↦
                rw some_time (Keeps-if _ (ltb time key) _ _ (λ later. a) λ due. goes_on (some time))
          ])
  ]

  -- The flags of the time are no part of it.
  Accounts-time :
      (b : Bool) (s : Run) (t : LookupThread)
      → IsConsistent t
      → (t.resolvers_map ≡ s.thread.resolvers_map)
      → (t.is_exiting ≡ s.thread.is_exiting)
      → Accounts k b s
      → Accounts k b (record s { thread = t })
  Accounts-time b s t v same exits a = record {
    good = v;
    count = λ h. rw same (a.count h);
    exits = exits ∙ a.exits;
  }

  -- The end of a round: the thread has left, or goes on.
  abbrev pub Passed : Bool → Run × Option ℕ → Type 0
  Passed b (s, none) = HasLeft k s
  Passed b (s, some ticks) = Accounts k b s

  next_wait-Passed :
      (b : Bool) (cur_time : ℕ) (s : Run)
      → Accounts k b s
      → Keeps (Passed b) (next_wait u stack meanwhile cur_time s)
  unfolding next_wait
  next_wait-Passed b cur_time s a =
      Keeps-if _ (length s.thread.resolvers_map == 0) _ _
        (λ idle. (
          record {
            good =
                flags-IsConsistent s.thread s.thread.quit_flag true
                  s.thread.last_ticks_in_first_half s.thread.queue a.good;
            count = a.count;
            exits = refl;
          },
          ground arith,
        ))
        λ busy. elim (List-cases (entries s.thread.time_map1 s.thread)) [
          | inl empty ↦ rw (empty, next_wait) tt
          | inr (first, m, e) ↦ rw (e, next_wait) a
        ]

  pub keep_time-Passed :
      (b : Bool) (fuel cur_time : ℕ) (s : Run)
      → Accounts k b s
      → Keeps (Passed b) (keep_time u stack meanwhile fuel cur_time s)
  unfolding keep_time swap_time_maps swap_if_wrapped
  keep_time-Passed b fuel cur_time s a =
      let first_half = ltb cur_time ((2 ^ 32 - 1) / 2) in
      >>=-Keeps (Accounts k b) (Passed b) _ _
        (>>=-Keeps (Accounts k b) (Accounts k b) _ _
          (>>=-Keeps (Accounts k b) (Accounts k b)
            (swap_if_wrapped u stack meanwhile fuel first_half s) _
            (Keeps-if _ (first_half && not s.thread.last_ticks_in_first_half) _ _
              (λ wraps.
                >>=-Keeps (Accounts k b) _ (expire u stack meanwhile fuel none s) _
                  (expire-Accounts b fuel none s a)
                  λ s a.
                    Accounts-time b s _
                      (swap-IsConsistent s.thread (other s.thread.time_map1) a.good) refl refl a)
              λ goes_on. a)
            λ s a.
              Accounts-time b s _
                (flags-IsConsistent s.thread s.thread.quit_flag s.thread.is_exiting first_half
                  s.thread.queue a.good)
                refl refl a)
          (expire-Accounts b fuel (some cur_time)))
        (next_wait-Passed b cur_time)

  pub failed-Passed :
      (b : Bool) (fuel : ℕ) (s : Run)
      → Accounts k b s
      → Keeps (Passed b) (failed u stack meanwhile fuel s)
  failed-Passed b fuel s a = >>=-Keeps (HasLeft k) (Passed b) _ _ (fail-HasLeft b fuel s a) λ s l. l
