-- ===== src/Address/Print/Read.antt =====
-- Reading what was printed.
use setka.Prelude.{
  ℕ, zero, suc, ◌+◌, ◌-◌, ◌*◌, ◌/◌, ◌%◌, ◌^◌, ◌<◌, ◌≤◌, ◌≡◌, refl, ◌∙◌, inl, inr, Bool, true, false,
  List, [], ◌∷◌, ◌++◌, ltb, ◌==◌, if◌then◌else◌, arith, ==_refl, tests, ap, ltb→lt, append_assoc,
  ◌⊎◌, Bool-cases,
}
use setka.Utki.{Bytes}
use setka.Address.{Ip, IsIp, is_v4, get_v4}
use setka.Address.Print.{digit, put, quad, put_v4, put_v6, to_string}

-- The value of a digit, in any base up to 36
abbrev pub value : ℕ → ℕ
value c = if ltb c b'a' then c - b'0' else c - b'a' + 10

-- The numbers that stand between separators, from one that was begun on
unfoldable pub numbers : ℕ → ℕ → ℕ → Bytes → List ℕ
numbers base separator n [] = n ∷ []
numbers base separator n (c ∷ s) =
    if c == separator
    then n ∷ numbers base separator 0 s
    else numbers base separator (n * base + value c) s

-- A separator that is no digit, in a base of at most 16
pub record IsSeparator (base separator : ℕ) : Type 0 where
  pub no_digit : (d : ℕ) → d < base → digit d == separator ≡ false
  pub small : base ≤ 16
  pub div_mod : (n : ℕ) → n / base * base + n % base ≡ n
  pub mod_lt : (n : ℕ) → n % base < base

-- So many digits are enough for a number.
abbrev Fits : ℕ → ℕ → ℕ → Type 0
Fits base zero n = ⊥
Fits base (suc k) n = (n < base) ⊎ Fits base k (n / base)

value-digit : (d : ℕ) → d < 16 → value (digit d) ≡ d
value-digit d h = ground arith

module _ (base separator : ℕ) (v : IsSeparator base separator) where
  numbers-digit :
      (n d : ℕ) (s : Bytes)
      → d < base
      → numbers base separator n (digit d ∷ s) ≡ numbers base separator (n * base + d) s
  unfolding numbers
  numbers-digit n d s h =
      rw (v.no_digit d h, numbers) (rw (value-digit d (omega (arith, v.small)), numbers) refl)

  numbers-put :
      (k n : ℕ) (s : Bytes)
      → Fits base k n
      → numbers base separator 0 (put base k n ++ s) ≡ numbers base separator n s
  unfolding put
  numbers-put zero n s h = absurd h
  numbers-put (suc k) n s h = elim (Bool-cases (ltb n base)) [
    | inl one ↦
        rw (one, put)
          (numbers-digit 0 n s (ltb→lt n base one)
            ∙ ap (λ m. numbers base separator m s) (omega arith))
    | inr more ↦
        rw (more, put)
          (ap (numbers base separator 0)
              (append_assoc (put base k (n / base)) (digit (n % base) ∷ []) s)
            ∙ numbers-put k (n / base) (digit (n % base) ∷ s)
                (elim h [ inl small ↦ absurd (omega (tests, small, more)) | inr fits ↦ fits ])
            ∙ numbers-digit (n / base) (n % base) s (v.mod_lt n)
            ∙ ap (λ m. numbers base separator m s) (v.div_mod n))
  ]

  numbers-put_front :
      (k n : ℕ) (s : Bytes)
      → Fits base k n
      → numbers base separator 0 (put base k n ++ separator ∷ s) ≡ n ∷ numbers base separator 0 s
  unfolding numbers
  numbers-put_front k n s h =
      numbers-put k n (separator ∷ s) h ∙ rw (==_refl separator, numbers) refl

  numbers-put_last :
      (k n : ℕ) → Fits base k n → numbers base separator 0 (put base k n ++ []) ≡ n ∷ []
  unfolding numbers
  numbers-put_last k n h = numbers-put k n [] h

dot : IsSeparator 10 b'.'
dot = record {
  no_digit = λ d h. ground arith;
  small = omega arith;
  div_mod = λ n. omega arith;
  mod_lt = λ n. omega arith;
}

colon : IsSeparator 16 b':'
colon = record {
  no_digit = λ d h. ground arith;
  small = omega arith;
  div_mod = λ n. omega arith;
  mod_lt = λ n. omega arith;
}

byte-Fits : (n : ℕ) → Fits 10 3 (n % 256)
byte-Fits n = inr (inr (inl (omega arith)))

word-Fits : (n : ℕ) → Fits 16 4 (n % 65536)
word-Fits n = inr (inr (inr (inl (omega arith))))

-- The lowest bytes of a number, and the first words of an address in the order of the loop
bytes_down : ℕ → ℕ → List ℕ
bytes_down zero h = []
bytes_down (suc i) h = (h / 2 ^ (8 * i) % 256) ∷ bytes_down i h

words_down : ℕ → Ip → List ℕ
words_down zero a = []
words_down (suc i) a = (quad a (i * 2 / 4) / 2 ^ (16 * (i % 2)) % 65536) ∷ words_down i a

suc_no_zero : (i : ℕ) → suc i == 0 ≡ false
suc_no_zero i = ground arith

numbers-put_v4 : (i h : ℕ) → numbers 10 b'.' 0 (put_v4 (suc i) h) ≡ bytes_down (suc i) h
unfolding put_v4 bytes_down
numbers-put_v4 zero h = numbers-put_last 10 b'.' dot 3 _ (byte-Fits _)
numbers-put_v4 (suc i) h =
    ap
      (λ (b : Bool).
        numbers 10 b'.' 0
          (put 10 3 (h / 2 ^ (8 * suc i) % 256) ++ (if b then [] else b'.' ∷ put_v4 (suc i) h)))
      (suc_no_zero i)
    ∙ numbers-put_front 10 b'.' dot 3 _ (put_v4 (suc i) h) (byte-Fits (h / 2 ^ (8 * suc i)))
    ∙ ap (λ l. (h / 2 ^ (8 * suc i) % 256) ∷ l) (numbers-put_v4 i h)

numbers-put_v6 : (i : ℕ) (a : Ip) → numbers 16 b':' 0 (put_v6 (suc i) a) ≡ words_down (suc i) a
unfolding put_v6 words_down
numbers-put_v6 zero a = numbers-put_last 16 b':' colon 4 _ (word-Fits _)
numbers-put_v6 (suc i) a =
    let word = quad a (suc i * 2 / 4) / 2 ^ (16 * (suc i % 2)) in
    ap
      (λ (b : Bool).
        numbers 16 b':' 0 (put 16 4 (word % 65536) ++ (if b then [] else b':' ∷ put_v6 (suc i) a)))
      (suc_no_zero i)
    ∙ numbers-put_front 16 b':' colon 4 _ (put_v6 (suc i) a) (word-Fits word)
    ∙ ap (λ l. (word % 65536) ∷ l) (numbers-put_v6 i a)

-- The bytes of a number, the highest first.
abbrev pub bytes : ℕ → List ℕ
bytes q = (q / 2 ^ 24 % 256) ∷ (q / 2 ^ 16 % 256) ∷ (q / 2 ^ 8 % 256) ∷ (q % 256) ∷ []

-- The words of quads, the higher one first.
abbrev pub words : List ℕ → List ℕ
words [] = []
words (q ∷ qs) = (q / 2 ^ 16) ∷ (q % 2 ^ 16) ∷ words qs

bytes_down_lem : (q : ℕ) → bytes_down 4 q ≡ bytes q
unfolding bytes_down
bytes_down_lem q =
    let low : q / 1 % 256 ≡ q % 256 = omega arith in
    ap (λ n. (q / 2 ^ 24 % 256) ∷ (q / 2 ^ 16 % 256) ∷ (q / 2 ^ 8 % 256) ∷ n ∷ []) low

words_of : (q : ℕ) → q < 2 ^ 32 → (q / 65536 % 65536 ≡ q / 65536) × (q / 1 % 65536 ≡ q % 65536)
words_of q h = (omega arith, omega arith)

words_down_lem :
    (a : Ip) → IsIp a → words_down 8 a ≡ words (a.quad3 ∷ a.quad2 ∷ a.quad1 ∷ a.quad0 ∷ [])
unfolding words_down
words_down_lem a v = ground (
  arith,
  words_of a.quad0 v.quad0_lt,
  words_of a.quad1 v.quad1_lt,
  words_of a.quad2 v.quad2_lt,
  words_of a.quad3 v.quad3_lt,
)

-- What stands between the separators of an address in text
abbrev pub fields : Bool → Bytes → List ℕ
fields v4 s = if v4 then numbers 10 b'.' 0 s else numbers 16 b':' 0 s

-- The text of an IPv4 address has its four bytes in decimal, the highest first. That of any other
-- address has its eight words in hexadecimal, but those of the last quad first, which is not the order
-- in which they are read. The quads are numbers of 32 bits.
pub fields-to_string :
    (a : Ip)
    → IsIp a
    → fields (is_v4 a) (to_string a)
      ≡ (if is_v4 a then bytes (get_v4 a) else words (a.quad3 ∷ a.quad2 ∷ a.quad1 ∷ a.quad0 ∷ []))
unfolding to_string
fields-to_string a v = go (is_v4 a)
  where
    go :
        (b : Bool)
        → fields b (if b then put_v4 4 a.quad3 else put_v6 8 a)
          ≡ (if b then bytes a.quad3 else words (a.quad3 ∷ a.quad2 ∷ a.quad1 ∷ a.quad0 ∷ []))
    go true = numbers-put_v4 3 a.quad3 ∙ bytes_down_lem a.quad3
    go false = numbers-put_v6 7 a ∙ words_down_lem a v
