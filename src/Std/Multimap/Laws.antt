-- ===== src/Std/Multimap/Laws.antt =====
-- The laws of multimaps.
use setka.Prelude.{ℕ, ◌+◌, ◌-◌, ◌≤◌, ◌≡◌, refl, ◌&&◌, [], ◌∷◌, arith, ◌==◌, if◌then◌else◌}
use setka.Std.Multimap.{Multimap, insert, erase, count, From}

pub count-insert :
    (i w k v : ℕ) (m : Multimap)
    → count i w (insert k v m) ≡ (if i == k && w == v then 1 else 0) + count i w m
unfolding count insert
count-insert i w k v [] = refl
count-insert i w k v ((j, x) ∷ m) = ground (arith, count-insert i w k v m)

pub count-erase :
    (i w k v : ℕ) (m : Multimap)
    → count i w (erase k v m) ≡ count i w m - (if i == k && w == v then 1 else 0)
unfolding count erase
count-erase i w k v [] = ground arith
count-erase i w k v ((j, x) ∷ m) = ground (arith, count-erase i w k v m)

From-mono : (i k : ℕ) (m : Multimap) → i ≤ k → From k m → From i m
From-mono i k [] h a = tt
From-mono i k ((j, w) ∷ m) h a = ground arith

pub insert-From : (i k v : ℕ) (m : Multimap) → i ≤ k → From i m → From i (insert k v m)
unfolding insert
insert-From i k v [] h a = ground arith
insert-From i k v ((j, w) ∷ m) h a = ground (arith, insert-From j k v m)

pub erase-From : (i k v : ℕ) (m : Multimap) → From i m → From i (erase k v m)
unfolding erase
erase-From i k v [] a = tt
erase-From i k v ((j, w) ∷ m) a = ground (arith, erase-From j k v m, From-mono i j m)
