-- ===== src/Dns/Ids/Free.antt =====
-- The id that is chosen is free, and one is found whenever there is one.
use setka.Prelude.{ℕ, ◌<◌, ◌≤◌, ◌≡◌, ◌≢◌, refl, none, some, [], ◌∷◌, arith}
use setka.Std.Map.{Map, find, insert, erase, Above, IsSorted}
use setka.Std.Map.Laws.{find_below}
use setka.Dns.Ids.{last_key, scan_gap, find_free_id}

module _ {ℓ} {V : Type ℓ} where
  -- Keys that `uint16_t` can hold.
  abbrev pub Within : Map V → Type 0
  Within [] = Unit {0}
  Within ((j, v) ∷ m) = (j < 65536) × Within m

  pub erase-Within : (k : ℕ) (m : Map V) → Within m → Within (erase k m)
  unfolding erase
  erase-Within k [] w = tt
  erase-Within k ((j, v) ∷ m) w = ground (arith, erase-Within k m w.1)

  pub insert-Within : (k : ℕ) (v : V) (m : Map V) → k < 65536 → Within m → Within (insert k v m)
  unfolding insert
  insert-Within k v [] h w = (h, tt)
  insert-Within k v ((j, x) ∷ m) h w = ground (arith, insert-Within k v m h w.1)

  le-last_key : (k : ℕ) (m : Map V) → Above k m → k ≤ last_key k m
  unfolding last_key
  le-last_key k [] a = omega arith
  le-last_key k ((j, v) ∷ m) a = omega (arith, le-last_key j m a.1)

  last_key-lt : (k : ℕ) (m : Map V) → k < 65536 → Within m → last_key k m < 65536
  unfolding last_key
  last_key-lt k [] h w = h
  last_key-lt k ((j, v) ∷ m) h w = last_key-lt j m w.0 w.1

  find_past_last : (i k : ℕ) (m : Map V) → Above k m → last_key k m < i → find i m ≡ none
  unfolding last_key find
  find_past_last i k [] a h = refl
  find_past_last i k ((j, v) ∷ m) a h =
      ground (arith, le-last_key j m a.1, find_past_last i j m a.1 h)

  scan_gap_free :
      (k i : ℕ) (m : Map V)
      → Above k m
      → scan_gap k m ≡ some i
      → (k < i) × (i ≤ last_key k m) × (find i m ≡ none)
  unfolding scan_gap last_key find
  scan_gap_free k i [] a h = ground arith
  scan_gap_free k i ((j, v) ∷ m) a h =
      ground (arith, le-last_key j m a.1, scan_gap_free j i m a.1, find_below i j m)

  scan_gap_full :
      (k i : ℕ) (m : Map V)
      → Above k m
      → scan_gap k m ≡ none
      → k < i
      → i ≤ last_key k m
      → find i m ≢ none
  unfolding scan_gap last_key find
  scan_gap_full k i [] a h p q = absurd (omega arith)
  scan_gap_full k i ((j, v) ∷ m) a h p q = ground (arith, scan_gap_full j i m a.1)

module _ {V : Type 0} where
  -- In a sorted map of 16-bit ids, an id that `find_free_id` returns is a 16-bit number that the
  -- map does not hold; and it refuses only if the map holds every 16-bit number.
  pub find_free_id_lem :
      (m : Map V)
      → IsSorted m
      → Within m
      → ((i : ℕ) → find_free_id m ≡ some i → (i < 65536) × (find i m ≡ none))
        × (find_free_id m ≡ none → (i : ℕ) → i < 65536 → find i m ≢ none)
  unfolding find_free_id find
  find_free_id_lem [] s w = (λ i h. ground arith, λ h i q. ground arith)
  find_free_id_lem ((k, v) ∷ m) s w = (
    λ i h. ground (
      arith,
      le-last_key k m s,
      last_key-lt k m,
      find_past_last i k m s,
      scan_gap_free k i m s,
      find_below i k m,
    ),
    λ h i q. ground (arith, scan_gap_full k i m s),
  )
