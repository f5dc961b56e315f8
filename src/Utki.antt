-- ===== src/Utki.antt =====
-- What the sources use of the library utki: the big-endian conversions, and the bounds test of a
-- span. They are parameters of the model, with their documented behaviour.
use setka.Prelude.{ℕ, ◌+◌, ◌*◌, ◌/◌, ◌%◌, ◌<◌, ◌≡◌, refl, Bool, List, ltb}

abbrev pub Bytes : Type 0
Bytes = List ℕ

abbrev pub IsByte : ℕ → Type 0
IsByte b = b < 256

pub record Utki : Type 0 where
  -- the two bytes that `serialize16be(value, p)` writes at `p` and `p + 1`
  pub serialize16be : ℕ → ℕ × ℕ
  -- `deserialize16be(p)` and `deserialize32be(p)`, from the bytes that they read at `p`
  pub deserialize16be : ℕ → ℕ → ℕ
  pub deserialize32be : ℕ → ℕ → ℕ → ℕ → ℕ
  -- `make_span(buf).overlaps(&buf[i])`, for a buffer of a given size
  pub overlaps : ℕ → ℕ → Bool
  pub serialize16be_lem : (v : ℕ) → v < 65536 → serialize16be v ≡ (v / 256, v % 256)
  pub deserialize16be_lem : (a b : ℕ) → IsByte a → IsByte b → deserialize16be a b ≡ a * 256 + b
  pub deserialize32be_lem :
      (a b c d : ℕ)
      → IsByte a
      → IsByte b
      → IsByte c
      → IsByte d
      → deserialize32be a b c d ≡ ((a * 256 + b) * 256 + c) * 256 + d
  pub overlaps_lem : (size i : ℕ) → overlaps size i ≡ ltb i size

-- A value of the interface, for the tests.
abbrev pub sample : Utki
sample = record {
  serialize16be = λ v. (v / 256, v % 256);
  deserialize16be = λ a b. a * 256 + b;
  deserialize32be = λ a b c d. ((a * 256 + b) * 256 + c) * 256 + d;
  overlaps = λ size i. ltb i size;
  serialize16be_lem = λ v h. refl;
  deserialize16be_lem = λ a b h k. refl;
  deserialize32be_lem = λ a b c d h i j k. refl;
  overlaps_lem = λ size i. refl;
}
