-- ===== src/Std/Multimap.antt =====
-- `std::multimap` with integer keys and values: the entries in the order of iteration. An iterator to
-- an entry is its key and its value; the sources never enter a value twice.
pub mod Laws
use setka.Prelude.{ℕ, ◌+◌, ◌≤◌, Bool, ◌&&◌, List, [], ◌∷◌, ltb, ◌==◌, if◌then◌else◌}
use setka.Std.Map.{Map}

abbrev pub Multimap : Type 0
Multimap = Map ℕ

-- `insert`: behind all entries with keys up to that one.
unfoldable pub insert : ℕ → ℕ → Multimap → Multimap
insert k v [] = (k, v) ∷ []
insert k v ((j, w) ∷ m) = if ltb k j then (k, v) ∷ (j, w) ∷ m else (j, w) ∷ insert k v m

-- `erase` by iterator
unfoldable pub erase : ℕ → ℕ → Multimap → Multimap
erase k v [] = []
erase k v ((j, w) ∷ m) = if k == j && v == w then m else (j, w) ∷ erase k v m

-- How often an entry is there.
unfoldable pub count : ℕ → ℕ → Multimap → ℕ
count k v [] = 0
count k v ((j, w) ∷ m) = (if k == j && v == w then 1 else 0) + count k v m

-- Keys not below a bound, each not below the one before it.
abbrev pub From : ℕ → Multimap → Type 0
From k [] = Unit {0}
From k ((j, w) ∷ m) = (k ≤ j) × From j m
