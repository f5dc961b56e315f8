-- ===== src/Address/Parse/Port.antt =====
-- The port of an address in a string.
use setka.Prelude.{ℕ, ◌+◌, ◌-◌, ◌*◌, ◌≡◌, true, [], ◌∷◌}
use setka.Utki.{Bytes}
use setka.Address.Parse.{is_digit}

-- The number that digits stand for, the first the highest.
unfoldable pub decimal : ℕ → Bytes → ℕ
decimal v [] = v
decimal v (c ∷ s) = decimal (v * 10 + (c - b'0')) s

abbrev pub IsDigit : ℕ → Type 0
IsDigit c = is_digit c ≡ true
