-- ===== src/Dns/Run/Keeps.antt =====
-- Steps that use no null or dangling pointer, and the parts of a round that keep the maps of the
-- thread consistent: the callbacks, the failure and the time.
use setka.Prelude.{
  if◌then◌else◌, refl, false, ℕ, zero, suc, ◌^◌, ◌-◌, ◌/◌, ◌≡◌, ◌∙◌, inl, inr, Bool, true, ◌&&◌,
  not, Option, none, some, List, ◌∷◌, arith, ◌==◌, ltb, Option-cases, List-cases, Bool-cases,
  length,
}
use setka.Utki.{Utki, Bytes}
use setka.Address.{Ip, of_v4}
use setka.Std.Map
use setka.Std.Multimap
use setka.Std.Sequence
use setka.Dns.Result.{DnsResult, no_host, error, timeout}
use setka.Dns.Thread.{TimeMap, other, Resolver, LookupThread, entries}
use setka.Dns.Thread.Consistent.{IsConsistent, flags-IsConsistent, swap-IsConsistent}
use setka.Dns.Thread.Remove.{remove_resolver_lem}
use setka.Dns.Run.{
  Completion, Run, Step, ran, null_pointer, past_the_end, overread, out_of_fuel, ◌>>=◌, deref,
  call_callback, complete, remove_all_resolvers, fail, expire, swap_if_wrapped, swap_time_maps,
  next_wait, keep_time, failed,
}

-- A step that uses no null pointer; what it hands on meets a condition.
abbrev pub Keeps {ℓ} : {A : Type ℓ} → (A → Type 0) → Step A → Type 0
Keeps P (ran a) = P a
Keeps P null_pointer = ⊥
Keeps P past_the_end = Unit
Keeps P overread = Unit
Keeps P out_of_fuel = Unit

pub >>=-Keeps {ℓ κ} :
    {A : Type ℓ} {B : Type κ} (P : A → Type 0) (Q : B → Type 0) (m : Step A) (f : A → Step B)
    → Keeps P m
    → ((a : A) → P a → Keeps Q (f a))
    → Keeps Q (m >>= f)
>>=-Keeps P Q (ran a) f h k = k a h
>>=-Keeps P Q null_pointer f h k = h
>>=-Keeps P Q past_the_end f h k = tt
>>=-Keeps P Q overread f h k = tt
>>=-Keeps P Q out_of_fuel f h k = tt

-- What is handed on is what the step gives.
pub Keeps-equal :
    {A : Type 0} (P : A → Type 0) (m : Step A) → Keeps P m → Keeps (λ a. P a × (m ≡ ran a)) m
Keeps-equal P (ran a) h = (h, refl)
Keeps-equal P null_pointer h = h
Keeps-equal P past_the_end h = tt
Keeps-equal P overread h = tt
Keeps-equal P out_of_fuel h = tt

pub Keeps-map :
    {A : Type 0} (P Q : A → Type 0) (m : Step A) → ((a : A) → P a → Q a) → Keeps P m → Keeps Q m
Keeps-map P Q (ran a) f h = f a h
Keeps-map P Q null_pointer f h = h
Keeps-map P Q past_the_end f h = tt
Keeps-map P Q overread f h = tt
Keeps-map P Q out_of_fuel f h = tt

pub Keeps-if :
    {A : Type 0} (P : A → Type 0) (b : Bool) (m n : Step A)
    → (b ≡ true → Keeps P m)
    → (b ≡ false → Keeps P n)
    → Keeps P (if b then m else n)
Keeps-if P true m n f g = f refl
Keeps-if P false m n f g = g refl

pub deref-Keeps {κ} :
    {B : Type κ} (Q : B → Type 0) (h : ℕ) (t : LookupThread) (r : Resolver) (f : Resolver → Step B)
    → Map.find h t.resolvers_map ≡ some r
    → Keeps Q (f r)
    → Keeps Q (deref h t >>= f)
deref-Keeps Q h t r f e k = rw (e, deref, ◌>>=◌, Keeps) k

abbrev pub IsGood : Run → Type 0
IsGood s = IsConsistent s.thread

abbrev pub IsGoodEnd : Run × Option ℕ → Type 0
IsGoodEnd r = IsGood r.0

abbrev pub IsGoodSend : Run × Bool → Type 0
IsGoodSend r = IsGood r.0

-- The first of a time map is an active request.
pub first_timed :
    (t : LookupThread) (side : TimeMap) (key h : ℕ) (m : List (ℕ × ℕ))
    → IsConsistent t
    → entries side t ≡ (key, h) ∷ m
    → (r : Resolver) × (Map.find h t.resolvers_map ≡ some r)
unfolding Multimap.count
first_timed t side key h m v e = elim (Option-cases (Map.find h t.resolvers_map)) [
  | inl missing ↦ absurd (ground (arith, v.times side key h))
  | inr found ↦ found
]

pub first_queued :
    (t : LookupThread) (h : ℕ) (l : List ℕ)
    → IsConsistent t
    → t.send_list ≡ h ∷ l
    → (r : Resolver) × (Map.find h t.resolvers_map ≡ some r) × (r.is_queued ≡ true)
unfolding Sequence.count
first_queued t h l v e = elim (Option-cases (Map.find h t.resolvers_map)) [
  | inl missing ↦ absurd (ground (arith, v.sends h))
  | inr (r, found) ↦ (r, found, ground (arith, v.sends h))
]

module _ (u : Utki) (stack : Bytes) (meanwhile : Completion → LookupThread → LookupThread)
    (keeps : (c : Completion) (t : LookupThread)
      → IsConsistent t
      → IsConsistent (meanwhile c t)) where
  pub complete-Keeps :
      (s : Run) (h : ℕ) (result : DnsResult) (host : Ip) (r : Resolver)
      → IsGood s
      → Map.find h s.thread.resolvers_map ≡ some r
      → Keeps IsGood (complete u stack meanwhile s h result host)
  unfolding complete call_callback
  complete-Keeps s h result host r v found =
      let (consistent, returned, _) = remove_resolver_lem s.thread h v in
      rw (returned ∙ found, complete) (keeps _ _ consistent)

  pub remove_all_resolvers-Keeps :
      (fuel : ℕ) (s : Run) → IsGood s → Keeps IsGood (remove_all_resolvers u stack meanwhile fuel s)
  unfolding remove_all_resolvers Map.find
  remove_all_resolvers-Keeps zero s v = tt
  remove_all_resolvers-Keeps (suc fuel) s v = elim (List-cases s.thread.resolvers_map) [
    | inl empty ↦ rw (empty, remove_all_resolvers) v
    | inr ((h, r), m, e) ↦
        rw (e, remove_all_resolvers)
          (>>=-Keeps IsGood IsGood (complete u stack meanwhile s h error no_host) _
            (complete-Keeps s h error no_host r v (ground arith)) (remove_all_resolvers-Keeps fuel))
  ]

  pub fail-Keeps : (fuel : ℕ) (s : Run) → IsGood s → Keeps IsGood (fail u stack meanwhile fuel s)
  unfolding fail
  fail-Keeps fuel s v = remove_all_resolvers-Keeps fuel _ (
      flags-IsConsistent s.thread s.thread.quit_flag true s.thread.last_ticks_in_first_half
        s.thread.queue v)

  pub expire-Keeps :
      (fuel : ℕ) (limit : Option ℕ) (s : Run)
      → IsGood s
      → Keeps IsGood (expire u stack meanwhile fuel limit s)
  unfolding expire
  expire-Keeps zero limit s v = tt
  expire-Keeps (suc fuel) limit s v = elim (List-cases (entries s.thread.time_map1 s.thread)) [
    | inl empty ↦ rw (empty, expire) v
    | inr ((key, h), m, e) ↦
        let (r, found) = first_timed s.thread s.thread.time_map1 key h m v e in
        let goes_on : (o : Option ℕ)
            → Keeps IsGood (
                complete u stack meanwhile s h timeout (of_v4 0)
                >>= expire u stack meanwhile fuel o) =
          λ o.
            >>=-Keeps IsGood IsGood _ _ (complete-Keeps s h timeout (of_v4 0) r v found)
              (expire-Keeps fuel o) in
        rw (e, expire)
          (elim (Option-cases limit) [
            | inl all ↦ rw all (goes_on none)
            | inr (time, some_time) ↦ rw some_time (elim (Bool-cases (ltb time key)) [
              | inl later ↦ rw later v
              | inr due ↦ rw due (goes_on (some time))
            ])
          ])
  ]

  pub swap_if_wrapped-Keeps :
      (fuel : ℕ) (first_half : Bool) (s : Run)
      → IsGood s
      → Keeps IsGood (swap_if_wrapped u stack meanwhile fuel first_half s)
  unfolding swap_if_wrapped
  swap_if_wrapped-Keeps fuel first_half s v =
      elim (Bool-cases (first_half && not s.thread.last_ticks_in_first_half)) [
        | inl wraps ↦ rw wraps (
            >>=-Keeps IsGood IsGood (expire u stack meanwhile fuel none s) _
              (expire-Keeps fuel none s v)
              λ s v. swap-IsConsistent s.thread (other s.thread.time_map1) v)
        | inr goes_on ↦ rw goes_on v
      ]

  pub swap_time_maps-Keeps :
      (fuel cur_time : ℕ) (s : Run)
      → IsGood s
      → Keeps IsGood (swap_time_maps u stack meanwhile fuel cur_time s)
  unfolding swap_time_maps
  swap_time_maps-Keeps fuel cur_time s v =
      let first_half = ltb cur_time ((2 ^ 32 - 1) / 2) in
      >>=-Keeps IsGood IsGood (swap_if_wrapped u stack meanwhile fuel first_half s) _
        (swap_if_wrapped-Keeps fuel first_half s v)
        λ s v.
          flags-IsConsistent s.thread s.thread.quit_flag s.thread.is_exiting first_half
            s.thread.queue v

  pub next_wait-Keeps :
      (cur_time : ℕ) (s : Run) → IsGood s → Keeps IsGoodEnd (next_wait u stack meanwhile cur_time s)
  unfolding next_wait
  next_wait-Keeps cur_time s v = elim (Bool-cases (length s.thread.resolvers_map == 0)) [
    | inl idle ↦ rw idle (
        flags-IsConsistent s.thread s.thread.quit_flag true s.thread.last_ticks_in_first_half
          s.thread.queue v)
    | inr busy ↦ rw busy (elim (List-cases (entries s.thread.time_map1 s.thread)) [
      | inl empty ↦ rw (empty, next_wait) tt
      | inr (k, m, e) ↦ rw (e, next_wait) v
    ])
  ]

  pub keep_time-Keeps :
      (fuel cur_time : ℕ) (s : Run)
      → IsGood s
      → Keeps IsGoodEnd (keep_time u stack meanwhile fuel cur_time s)
  unfolding keep_time
  keep_time-Keeps fuel cur_time s v =
      >>=-Keeps IsGood IsGoodEnd _ _
        (>>=-Keeps IsGood IsGood _ _ (swap_time_maps-Keeps fuel cur_time s v)
          (expire-Keeps fuel (some cur_time)))
        (next_wait-Keeps cur_time)

  pub failed-Keeps :
      (fuel : ℕ) (s : Run) → IsGood s → Keeps IsGoodEnd (failed u stack meanwhile fuel s)
  failed-Keeps fuel s v = >>=-Keeps IsGood IsGoodEnd _ _ (fail-Keeps fuel s v) λ s v. v
