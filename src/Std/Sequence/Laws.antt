-- ===== src/Std/Sequence/Laws.antt =====
-- The laws of sequences.
use setka.Prelude.{
  ℕ, suc, ◌+◌, ◌-◌, ◌≤◌, ◌≡◌, refl, List, [], ◌∷◌, arith, length, ◌==◌, ==_refl, if◌then◌else◌,
}
use setka.Std.Sequence.{push_back, erase, count}

pub count-push_back :
    (w v : ℕ) (l : List ℕ) → count w (push_back l v) ≡ (if w == v then 1 else 0) + count w l
unfolding count push_back
count-push_back w v [] = refl
count-push_back w v (x ∷ l) = ground (arith, count-push_back w v l)

pub count-erase :
    (w v : ℕ) (l : List ℕ) → count w (erase v l) ≡ count w l - (if w == v then 1 else 0)
unfolding count erase
count-erase w v [] = ground arith
count-erase w v (x ∷ l) = ground (arith, count-erase w v l)

pub length-erase : (v : ℕ) (l : List ℕ) → length l ≤ suc (length (erase v l))
unfolding erase
length-erase v [] = omega arith
length-erase v (w ∷ l) = ground (arith, length-erase v l)

pub nothing_counted : (l : List ℕ) → ((v : ℕ) → count v l ≡ 0) → length l ≡ 0
unfolding count
nothing_counted [] h = refl
nothing_counted (w ∷ l) h = absurd (ground (arith, h w, ==_refl w))
