-- ===== src/Dns/Init/Lines.antt =====
-- What `InitDNS` makes of the lines of a file.
use setka.Prelude.{
  ℕ, zero, suc, ◌≤◌, ◌≡◌, ◌≢◌, if◌then◌else◌, refl, Option, none, some, List, [], ◌∷◌, ◌++◌, length,
  All, arith, length-append, ap, ◌∙◌, ◌⊎◌, inl, inr, true, Bool-cases, Option-cases, sym, subst,
  take, drop, bytes_eq, bytes_eq_sound, append-take-drop,
}
use setka.Utki.{Bytes}
use setka.Address.{Ip, of_v4}
use setka.Address.Parse.{Inet, parse}
use setka.Dns.Init.{
  ns, is_ip_char, ip_text, next_line, line_address, or_else, read_servers, server, init_dns,
}

-- The text of lines, each of them ended.
abbrev pub unlines : List Bytes → Bytes
unlines [] = []
unlines (l ∷ ls) = l ++ (b'\n' ∷ unlines ls)

abbrev pub IsLine : Bytes → Type 0
IsLine l = All (λ c. c ≢ b'\n') l

-- The text in front of a server
abbrev pub nameserver : Bytes
nameserver = b'n' ∷ b'a' ∷ b'm' ∷ b'e' ∷ b's' ∷ b'e' ∷ b'r' ∷ b'v' ∷ b'e' ∷ b'r' ∷ b' ' ∷ []

abbrev pub IsIpChar : ℕ → Type 0
IsIpChar c = (c ≡ b':') ⊎ (c ≡ b'.') ⊎ ((b'0' ≤ c) × (c ≤ b'9'))

abbrev pub StartsOther : Bytes → Type 0
StartsOther [] = Unit {0}
StartsOther (c ∷ s) = ¬ IsIpChar c

-- A line that names a server, with anything behind its address.
abbrev pub Gives : Inet → Bytes → Ip → Type 0
Gives n line h =
    (text : Bytes) × (tail : Bytes) × (line ≡ nameserver ++ (text ++ tail))
    × All IsIpChar text
    × StartsOther tail
    × (parse n text ≡ some h)

abbrev pub GivesNone : Inet → Bytes → Type 0
GivesNone n line = (h : Ip) → ¬ Gives n line h

-- The first line that names a server gives this address.
abbrev pub IsFirst : Inet → List Bytes → Ip → Type 0
IsFirst n ls h =
    (before : List Bytes) × (line : Bytes) × (after : List Bytes) × (ls ≡ before ++ (line ∷ after))
    × All (GivesNone n) before
    × Gives n line h

next_line-append : (l rest : Bytes) → IsLine l → next_line (l ++ (b'\n' ∷ rest)) ≡ (l, rest)
unfolding next_line
next_line-append [] rest a = refl
next_line-append (c ∷ l) rest a = ground (arith, next_line-append l rest a.1)

-- One round of the loop, on a text that is not empty.
read_servers_round :
    (n : Inet) (fuel : ℕ) (p : Bytes)
    → 1 ≤ length p
    → read_servers n (suc fuel) p
      ≡ or_else (line_address n (next_line p).0) (read_servers n fuel (next_line p).1)
unfolding read_servers
read_servers_round n fuel [] h = absurd (omega arith)
read_servers_round n fuel (c ∷ p) h = refl

is_ip_char-IsIpChar : (c : ℕ) → is_ip_char c ≡ true → IsIpChar c
is_ip_char-IsIpChar c h = ground arith

IsIpChar-is_ip_char : (c : ℕ) → IsIpChar c → is_ip_char c ≡ true
IsIpChar-is_ip_char c h = ground arith

ip_text-append :
    (text tail : Bytes) → All IsIpChar text → StartsOther tail → ip_text (text ++ tail) ≡ text
unfolding ip_text
ip_text-append [] [] a other = refl
ip_text-append [] (c ∷ tail) a other = elim (Bool-cases (is_ip_char c)) [
  | inl holds ↦ absurd (other (is_ip_char-IsIpChar c holds))
  | inr fails ↦ rw fails refl
]
ip_text-append (c ∷ text) tail a other =
    rw (IsIpChar-is_ip_char c a.0) (ap (λ s. c ∷ s) (ip_text-append text tail a.1 other))

ip_text-split :
    (s : Bytes)
    → (tail : Bytes) × (s ≡ ip_text s ++ tail) × All IsIpChar (ip_text s) × StartsOther tail
unfolding ip_text
ip_text-split [] = ([], refl, tt, tt)
ip_text-split (c ∷ s) = elim (Bool-cases (is_ip_char c)) [
  | inl holds ↦
      let (tail, split, all, other) = ip_text-split s in
      rw holds (tail, ap (λ s. c ∷ s) split, (is_ip_char-IsIpChar c holds, all), other)
  | inr fails ↦ rw fails (c ∷ s, refl, tt, λ h. ground (arith, IsIpChar-is_ip_char c h, fails))
]

line_address-Gives : (n : Inet) (l : Bytes) (h : Ip) → Gives n l h → line_address n l ≡ some h
unfolding line_address
line_address-Gives n l h (text, tail, split, all, other, reads) =
    rw split (ap (parse n) (ip_text-append text tail all other) ∙ reads)

Gives-line_address : (n : Inet) (l : Bytes) (h : Ip) → line_address n l ≡ some h → Gives n l h
unfolding line_address
Gives-line_address n l h e = elim (Bool-cases (bytes_eq (take (length ns) l) ns)) [
  | inl holds ↦
      let r = drop (length ns) l in
      let (tail, split, all, other) = ip_text-split r in
      (
        ip_text r,
        tail,
        sym (append-take-drop (length ns) l)
            ∙ ap (λ b. b ++ r) (bytes_eq_sound (take (length ns) l) ns holds)
            ∙ ap (λ b. ns ++ b) split,
        all,
        other,
        sym (ap (λ b. if b then parse n (ip_text r) else none) holds) ∙ e,
      )
  | inr fails ↦ absurd (ground (arith, fails))
]

-- What the loop finds in lines.
abbrev Finds : Inet → List Bytes → Option Ip → Type 0
Finds n ls (some h) = IsFirst n ls h
Finds n ls none = All (GivesNone n) ls

Finds-later :
    (n : Inet) (l : Bytes) (ls : List Bytes) (o : Option Ip)
    → GivesNone n l
    → Finds n ls o
    → Finds n (l ∷ ls) o
Finds-later n l ls none fails f = (fails, f)
Finds-later n l ls (some h) fails (before, line, after, split, all, gives) =
    (l ∷ before, line, after, ap (λ ls. l ∷ ls) split, (fails, all), gives)

Finds-line :
    (n : Inet) (l : Bytes) (ls : List Bytes) (o : Option Ip)
    → Finds n ls o
    → Finds n (l ∷ ls) (or_else (line_address n l) o)
Finds-line n l ls o f = elim (Option-cases (line_address n l)) [
  | inl fails ↦
      rw fails (Finds-later n l ls o (λ h g. ground (arith, line_address-Gives n l h g, fails)) f)
  | inr (h, e) ↦ rw e ([], l, ls, refl, tt, Gives-line_address n l h e)
]

read_servers-unlines :
    (n : Inet) (fuel : ℕ) (ls : List Bytes)
    → All IsLine ls
    → length (unlines ls) ≤ fuel
    → Finds n ls (read_servers n fuel (unlines ls))
unfolding read_servers
read_servers-unlines n fuel [] a h = tt
read_servers-unlines n zero (l ∷ ls) a h =
    absurd (omega (arith, length-append l (b'\n' ∷ unlines ls)))
read_servers-unlines n (suc fuel) (l ∷ ls) a h =
    let long = length-append l (b'\n' ∷ unlines ls) in
    let rest = read_servers-unlines n fuel ls a.1 (omega (arith, long)) in
    let round =
      read_servers_round n fuel (l ++ (b'\n' ∷ unlines ls)) (omega (arith, long))
      ∙ ap (λ (r : Bytes × Bytes). or_else (line_address n r.0) (read_servers n fuel r.1))
          (next_line-append l (unlines ls) a.0) in
    subst (Finds n (l ∷ ls)) (sym round) (Finds-line n l ls (read_servers n fuel (unlines ls)) rest)

-- On a file of ended lines, InitDNS either takes the address of the first line that is "nameserver ", an
-- address of digits, dots and colons that can be parsed, and nothing or another character behind it, with
-- port 53; or no line is so, and it takes an address of zero, with port 0.
pub init_dns-unlines :
    (n : Inet) (ls : List Bytes)
    → All IsLine ls
    → ((h : Ip) × IsFirst n ls h
        × (init_dns n (some (unlines ls)) ≡ record { host = h; port = 53 }))
      ⊎ (All (GivesNone n) ls
          × (init_dns n (some (unlines ls)) ≡ record { host = of_v4 0; port = 0 }))
unfolding init_dns
init_dns-unlines n ls a =
    let text = unlines ls in
    let found = read_servers-unlines n (length text) ls a (omega arith) in
    elim (Option-cases (read_servers n (length text) text)) [
      | inl fails ↦ inr (subst (Finds n ls) fails found, ap server fails)
      | inr (h, e) ↦ inl (h, subst (Finds n ls) e found, ap server e)
    ]
