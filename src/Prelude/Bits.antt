-- ===== src/Prelude/Bits.antt =====
-- Laws of `bit_and` and `bit_or` for the masks and shifts that the sources use. Both are recursions
-- on binary digits with a count; here the count is dropped, one digit at a time.
use Prim.Native.Nat.{
  ℕ, zero, suc, ◌+◌, ◌*◌, ◌/◌, ◌%◌, ◌^◌, ◌≤◌, ◌<◌, min, max, bit_and, bit_or, digits,
  bit_and-bitwise, bit_or-bitwise,
}
use mathlib.Core.Path.{◌≡◌, refl, sym, ◌∙◌}
use native.Mathlib.Nat.{pow-suc, mul_assoc}
use native.Mathlib.Omega.{arith}

module _ (rest : ℕ → ℕ) (digit : ℕ → ℕ → ℕ) where
  -- Any two counts that reach the first number's end agree.
  digits-count : (k l x y : ℕ) → x ≤ k → x ≤ l → digits rest digit k x y ≡ digits rest digit l x y
  digits-count zero zero x y hk hl = refl
  digits-count zero (suc l) (suc x) y hk hl = absurd (omega arith)
  digits-count (suc k) zero (suc x) y hk hl = absurd (omega arith)
  digits-count zero (suc l) zero y hk hl = refl
  digits-count (suc k) zero zero y hk hl = refl
  digits-count (suc k) (suc l) zero y hk hl = refl
  digits-count (suc k) (suc l) (suc x) y hk hl =
      let tail = digits-count k l (suc x / 2) (y / 2) (omega arith) (omega arith) in
      omega (arith, tail)

  digits-digit :
      (x y : ℕ)
      → digits rest digit (suc x) (suc x) y
        ≡ digits rest digit (suc x / 2) (suc x / 2) (y / 2) * 2 + digit (suc x % 2) (y % 2)
  digits-digit x y =
      let tail = digits-count x (suc x / 2) (suc x / 2) (y / 2) (omega arith) (omega arith) in
      omega (arith, tail)

and-digit : (x y : ℕ) → bit_and x y ≡ bit_and (x / 2) (y / 2) * 2 + min (x % 2) (y % 2)
and-digit zero y = omega (arith, bit_and-bitwise 0 y, bit_and-bitwise 0 (y / 2))
and-digit (suc x) y = omega (
  arith,
  bit_and-bitwise (suc x) y,
  bit_and-bitwise (suc x / 2) (y / 2),
  digits-digit (λ _. zero) min x y,
)

or-digit : (x y : ℕ) → bit_or x y ≡ bit_or (x / 2) (y / 2) * 2 + max (x % 2) (y % 2)
or-digit zero y = omega (arith, bit_or-bitwise 0 y, bit_or-bitwise 0 (y / 2))
or-digit (suc x) y = omega (
  arith,
  bit_or-bitwise (suc x) y,
  bit_or-bitwise (suc x / 2) (y / 2),
  digits-digit (λ d. d) max x y,
)

zero-bit_or : (y : ℕ) → bit_or 0 y ≡ y
zero-bit_or y = bit_or-bitwise 0 y

or-zero : (n x : ℕ) → x ≤ n → bit_or x 0 ≡ x
or-zero zero zero h = refl
or-zero zero (suc x) h = absurd (omega arith)
or-zero (suc n) zero h = refl
or-zero (suc n) (suc x) h = omega (arith, or-digit (suc x) 0, or-zero n (suc x / 2) (omega arith))

-- `(hi << k) | lo` is a sum, where `lo` has `k` bits.
pub bit_or-shift : (k hi lo : ℕ) → lo < 2 ^ k → bit_or (hi * 2 ^ k) lo ≡ hi * 2 ^ k + lo
bit_or-shift zero hi lo h =
    let empty : lo ≡ 0 = omega arith in
    rw empty (or-zero (hi * 2 ^ 0) (hi * 2 ^ 0) (omega arith) ∙ omega arith)
bit_or-shift (suc k) hi lo h =
    let full : hi * 2 ^ suc k ≡ hi * 2 ^ k * 2 = rw pow-suc (sym (mul_assoc hi (2 ^ k) 2)) in
    let half : hi * 2 ^ suc k / 2 ≡ hi * 2 ^ k = omega (arith, full) in
    let below = bit_or-shift k hi (lo / 2) (omega (arith, pow-suc 2 k)) in
    or-digit (hi * 2 ^ suc k) lo ∙ rw half (omega (arith, full, below))

and-zero : (n x : ℕ) → x ≤ n → bit_and x 0 ≡ 0
and-zero zero zero h = refl
and-zero zero (suc x) h = absurd (omega arith)
and-zero (suc n) zero h = refl
and-zero (suc n) (suc x) h =
    omega (arith, and-digit (suc x) 0, and-zero n (suc x / 2) (omega arith))

-- The lowest four bits.
pub bit_and_fifteen : (x : ℕ) → bit_and x 0xf ≡ x % 16
bit_and_fifteen x = omega (
  arith,
  and-digit x 15,
  and-digit (x / 2) 7,
  and-digit (x / 2 / 2) 3,
  and-digit (x / 2 / 2 / 2) 1,
  and-zero (x / 2 / 2 / 2 / 2) (x / 2 / 2 / 2 / 2),
)

and_even : (x y : ℕ) → bit_and x (2 * y) ≡ 2 * bit_and (x / 2) y
and_even x y =
    let even : 2 * y / 2 ≡ y = omega arith in omega (arith, rw even at (and-digit x (2 * y)))

and_sixteen : (x y : ℕ) → bit_and x (16 * y) ≡ 16 * bit_and (x / 16) y
and_sixteen x y =
    let mask : 16 * y ≡ 2 * (2 * (2 * (2 * y))) = omega arith in
    let halves : x / 16 ≡ x / 2 / 2 / 2 / 2 = omega arith in
    rw (mask, halves)
      (omega (
        arith,
        and_even x (2 * (2 * (2 * y))),
        and_even (x / 2) (2 * (2 * y)),
        and_even (x / 2 / 2) (2 * y),
        and_even (x / 2 / 2 / 2) y,
      ))

-- The highest of sixteen bits.
pub bit_and_sign : (x : ℕ) → bit_and x 0x8000 ≡ x / 32768 % 2 * 32768
bit_and_sign x = omega (
  arith,
  and_sixteen x 2048,
  and_sixteen (x / 16) 128,
  and_sixteen (x / 16 / 16) 8,
  and_even (x / 16 / 16 / 16) 4,
  and_even (x / 16 / 16 / 16 / 2) 2,
  and_even (x / 16 / 16 / 16 / 2 / 2) 1,
  and-digit (x / 16 / 16 / 16 / 2 / 2 / 2) 1,
  and-zero (x / 16 / 16 / 16 / 2 / 2 / 2 / 2) (x / 16 / 16 / 16 / 2 / 2 / 2 / 2),
)
