-- ===== src/Dns/Name/Loops.antt =====
-- Fuel: both loops over a name stop by themselves.
use setka.Prelude.{
  ℕ, zero, suc, ◌≤◌, ◌≡◌, refl, [], ◌∷◌, ◌++◌, arith, ltb, ◌==◌, if◌then◌else◌, length, take, drop,
  length-drop,
}
use setka.Utki.{Bytes}
use setka.Dns.Name.{with_dot, read_labels, after_dot, write_labels}

pub read_labels_fuel :
    (n m : ℕ) (host p : Bytes)
    → length p ≤ n
    → length p ≤ m
    → read_labels n host p ≡ read_labels m host p
unfolding read_labels
read_labels_fuel n m host [] h k = refl
read_labels_fuel zero m host (len ∷ p) h k = absurd (omega arith)
read_labels_fuel (suc n) zero host (len ∷ p) h k = absurd (omega arith)
read_labels_fuel (suc n) (suc m) host (len ∷ p) h k =
    ground
      (arith, read_labels_fuel n m (with_dot host ++ take len p) (drop len p), length-drop len p)

-- The loop as it is written, with no fuel: with enough fuel it is a fixed point of one round.
pub read_labels_round :
    (n : ℕ) (host : Bytes) (len : ℕ) (p : Bytes)
    → suc (length p) ≤ n
    → read_labels n host (len ∷ p) ≡ (
        if len == 0
        then (host, p)
        else if ltb (length p) len
        then ([], p)
        else read_labels n (with_dot host ++ take len p) (drop len p))
unfolding read_labels
read_labels_round zero host len p h = absurd (omega arith)
read_labels_round (suc n) host len p h = ground (
  arith,
  read_labels_fuel n (suc n) (with_dot host ++ take len p) (drop len p),
  length-drop len p,
)

length-after_dot : (s : Bytes) → length (after_dot s) ≤ length s
unfolding after_dot
length-after_dot [] = omega arith
length-after_dot (c ∷ s) = ground (arith, length-after_dot s)

pub length-after_dot_cons : (c : ℕ) (s : Bytes) → length (after_dot (c ∷ s)) ≤ length s
unfolding after_dot
length-after_dot_cons c s = ground (arith, length-after_dot s)

pub write_labels_fuel :
    (n m : ℕ) (s : Bytes) → length s ≤ n → length s ≤ m → write_labels n s ≡ write_labels m s
unfolding write_labels
write_labels_fuel n m [] h k = refl
write_labels_fuel zero m (c ∷ s) h k = absurd (omega arith)
write_labels_fuel (suc n) zero (c ∷ s) h k = absurd (omega arith)
write_labels_fuel (suc n) (suc m) (c ∷ s) h k =
    ground (arith, write_labels_fuel n m (after_dot (c ∷ s)), length-after_dot_cons c s)
