-- ===== src/Std/Map/Laws.antt =====
-- The laws of sorted maps.
use setka.Prelude.{
  ℕ, zero, suc, ◌≤◌, length, ◌<◌, ◌≤◌, ◌≡◌, refl, none, some, [], ◌∷◌, arith, ◌==◌, if◌then◌else◌,
}
use setka.Std.Map.{Map, find, insert, erase, Above, IsSorted}

module _ {ℓ} {V : Type ℓ} where
  pub Above-mono : (i k : ℕ) (m : Map V) → i ≤ k → Above k m → Above i m
  Above-mono i k [] h a = tt
  Above-mono i k ((j, v) ∷ m) h a = (omega arith, a.1)

  pub Above-IsSorted : (k : ℕ) (m : Map V) → Above k m → IsSorted m
  Above-IsSorted k [] a = tt
  Above-IsSorted k ((j, v) ∷ m) a = a.1

  -- What is not above the bound is not in the map.
  pub find_below : (i k : ℕ) (m : Map V) → i ≤ k → Above k m → find i m ≡ none
  unfolding find
  find_below i k [] h a = refl
  find_below i k ((j, v) ∷ m) h a = ground (arith, find_below i j m (omega arith) a.1)

  pub insert-Above : (i k : ℕ) (v : V) (m : Map V) → i < k → Above i m → Above i (insert k v m)
  unfolding insert
  insert-Above i k v [] h a = (h, tt)
  insert-Above i k v ((j, w) ∷ m) h a = ground (arith, insert-Above j k v m)

  pub insert-IsSorted : (k : ℕ) (v : V) (m : Map V) → IsSorted m → IsSorted (insert k v m)
  unfolding insert
  insert-IsSorted k v [] s = tt
  insert-IsSorted k v ((j, w) ∷ m) s = ground (arith, insert-Above j k v m)

  pub erase-Above : (i k : ℕ) (m : Map V) → Above i m → Above i (erase k m)
  unfolding erase
  erase-Above i k [] a = tt
  erase-Above i k ((j, w) ∷ m) a =
      ground (arith, erase-Above j k m a.1, Above-mono i j m (omega arith))

  pub erase-IsSorted : (k : ℕ) (m : Map V) → IsSorted m → IsSorted (erase k m)
  unfolding erase
  erase-IsSorted k [] s = tt
  erase-IsSorted k ((j, w) ∷ m) s = ground (arith, erase-Above j k m s, Above-IsSorted j m s)

  -- An entry that is there is kept; all other keys read as before.
  pub find-insert :
      (i k : ℕ) (v : V) (m : Map V)
      → IsSorted m
      → find k m ≡ none
      → find i (insert k v m) ≡ (if i == k then some v else find i m)
  unfolding find insert
  find-insert i k v [] s h = refl
  find-insert i k v ((j, w) ∷ m) s h =
      ground (arith, find-insert i k v m (Above-IsSorted j m s), find_below i j m)

  pub find-erase :
      (i k : ℕ) (m : Map V) → IsSorted m → find i (erase k m) ≡ (if i == k then none else find i m)
  unfolding find erase
  find-erase i k [] s = ground arith
  find-erase i k ((j, w) ∷ m) s =
      ground (arith, find-erase i k m (Above-IsSorted j m s), find_below i j m)

pub length-erase {ℓ} :
    {V : Type ℓ} (k n : ℕ) (v : V) (m : Map V)
    → find k m ≡ some v
    → length m ≤ suc n
    → length (erase k m) ≤ n
unfolding find erase
length-erase k n v [] e h = absurd (ground arith)
length-erase k zero v ((j, w) ∷ []) e h = ground arith
length-erase k zero v ((j, w) ∷ x ∷ m) e h = absurd (omega arith)
length-erase k (suc n) v ((j, w) ∷ m) e h = ground (arith, length-erase k n v m)

pub length-find {ℓ} : {V : Type ℓ} (k : ℕ) (v : V) (m : Map V) → find k m ≡ some v → 1 ≤ length m
unfolding find
length-find k v [] e = absurd (ground arith)
length-find k v (x ∷ m) e = omega arith

pub length-insert {ℓ} :
    {V : Type ℓ} (k : ℕ) (v : V) (m : Map V) → length (insert k v m) ≤ suc (length m)
unfolding insert
length-insert k v [] = omega arith
length-insert k v ((j, w) ∷ m) = ground (arith, length-insert k v m)
