-- ===== src/Dns/Name/RoundTrip.antt =====
-- A name that is written into a packet is read back.
use setka.Prelude.{
  ℕ, zero, suc, ◌+◌, ◌≤◌, ◌<◌, ◌≡◌, ◌≢◌, refl, ap, ◌∙◌, List, [], ◌∷◌, ◌++◌, append_assoc, arith,
  ==_of_ne, le→ltb, length, length-append, take-append, drop-append, All,
}
use setka.Utki.{Bytes}
use setka.Dns.Name.{
  with_dot, read_labels, parse_host_name_from_dns_packet, until_dot, after_dot, write_labels,
  write_host_name,
}
use setka.Dns.Name.Loops.{read_labels_fuel, read_labels_round}

-- A label has 1 to 255 bytes, and no dot.
pub record IsLabel (l : Bytes) : Type 0 where
  pub nonempty : l ≢ []
  pub short : length l < 256
  pub no_dot : All (λ c. c ≢ b'.') l

-- The text of a name: its labels, with dots between them.
abbrev pub dotted : List Bytes → Bytes
dotted [] = []
dotted (l ∷ []) = l
dotted (l ∷ k ∷ ls) = l ++ b'.' ∷ dotted (k ∷ ls)

-- The form of a name in a packet, without the zero that ends it.
abbrev pub wire : List Bytes → Bytes
wire [] = []
wire (l ∷ ls) = length l ∷ l ++ wire ls

module _ (s : Bytes) where
  until_dot-append : (l : Bytes) → All (λ c. c ≢ b'.') l → until_dot (l ++ b'.' ∷ s) ≡ l
  unfolding until_dot
  until_dot-append [] h = refl
  until_dot-append (c ∷ l) h = ground (arith, until_dot-append l h.1)

  after_dot-append : (l : Bytes) → All (λ c. c ≢ b'.') l → after_dot (l ++ b'.' ∷ s) ≡ s
  unfolding after_dot
  after_dot-append [] h = refl
  after_dot-append (c ∷ l) h = ground (arith, after_dot-append l h.1)

until_dot_whole : (l : Bytes) → All (λ c. c ≢ b'.') l → until_dot l ≡ l
unfolding until_dot
until_dot_whole [] h = refl
until_dot_whole (c ∷ l) h = ground (arith, until_dot_whole l h.1)

after_dot_whole : (l : Bytes) → All (λ c. c ≢ b'.') l → after_dot l ≡ []
unfolding after_dot
after_dot_whole [] h = refl
after_dot_whole (c ∷ l) h = ground (arith, after_dot_whole l h.1)

-- One round of the writing loop, with what it finds given.
write_round :
    (n : ℕ) (s l t : Bytes)
    → s ≢ []
    → until_dot s ≡ l
    → after_dot s ≡ t
    → length l < 256
    → write_labels (suc n) s ≡ length l ∷ l ++ write_labels n t
unfolding write_labels
write_round n [] l t h u a k = absurd (h refl)
write_round n (c ∷ s) l t h u a k = rw (u, a) (ground arith)

length-pos : (l : Bytes) → l ≢ [] → 0 < length l
length-pos [] h = absurd (h refl)
length-pos (c ∷ l) h = omega arith

append-ne-nil : (l s : Bytes) → l ≢ [] → l ++ s ≢ []
append-ne-nil [] s h = absurd (h refl)
append-ne-nil (c ∷ l) s h = cc

write_labels-dotted :
    (n : ℕ) (ls : List Bytes)
    → All IsLabel ls
    → length (dotted ls) ≤ n
    → write_labels n (dotted ls) ≡ wire ls
write_labels-dotted n [] h k = unfold write_labels in refl
write_labels-dotted zero (l ∷ []) h k = absurd (omega (arith, length-pos l h.0.nonempty))
write_labels-dotted zero (l ∷ m ∷ ls) h k =
    absurd (omega (arith, length-append l (b'.' ∷ dotted (m ∷ ls))))
write_labels-dotted (suc n) (l ∷ []) h k =
    write_round n l l [] h.0.nonempty (until_dot_whole l h.0.no_dot) (after_dot_whole l h.0.no_dot)
      h.0.short
    ∙ unfold write_labels in refl
write_labels-dotted (suc n) (l ∷ m ∷ ls) h k =
    let later = dotted (m ∷ ls) in
    let fits : length later ≤ n = omega (arith, length-append l (b'.' ∷ later)) in
    write_round n (l ++ b'.' ∷ later) l later (append-ne-nil l _ h.0.nonempty)
      (until_dot-append later l h.0.no_dot) (after_dot-append later l h.0.no_dot) h.0.short
    ∙ ap (λ (t : Bytes). length l ∷ l ++ t) (write_labels-dotted n (m ∷ ls) h.1 fits)

-- One round of the reading loop, at a label.
read_round :
    (n : ℕ) (host l p : Bytes)
    → IsLabel l
    → length l + length p < n
    → read_labels n host (length l ∷ l ++ p) ≡ read_labels n (with_dot host ++ l) p
read_round n host l p h k =
    let bytes = length-append l p in
    rw
      (
        read_labels_round n host (length l) (l ++ p) (omega (arith, bytes)),
        ==_of_ne (length l) 0 (omega (arith, length-pos l h.nonempty)),
        le→ltb (length (l ++ p)) (length l) (omega (arith, bytes)),
        take-append l p,
        drop-append l p,
      )
      refl

abbrev glue : Bytes → List Bytes → Bytes
glue host [] = host
glue host (l ∷ ls) = glue (with_dot host ++ l) ls

glue_behind :
    (c : ℕ) (host l : Bytes) (ls : List Bytes)
    → glue (with_dot (c ∷ host) ++ l) ls ≡ (c ∷ host) ++ b'.' ∷ dotted (l ∷ ls)
glue_behind c host l [] = append_assoc (c ∷ host) (b'.' ∷ []) l
glue_behind c host l (m ∷ ls) =
    ap (λ (t : Bytes). glue (with_dot (c ∷ t) ++ m) ls) (append_assoc host (b'.' ∷ []) l)
    ∙ glue_behind c (host ++ b'.' ∷ l) m ls
    ∙ append_assoc (c ∷ host) (b'.' ∷ l) (b'.' ∷ dotted (m ∷ ls))

glue-dotted : (ls : List Bytes) → All IsLabel ls → glue [] ls ≡ dotted ls
glue-dotted [] h = refl
glue-dotted (l ∷ []) h = refl
glue-dotted ([] ∷ m ∷ ls) h = absurd (h.0.nonempty refl)
glue-dotted ((c ∷ l) ∷ m ∷ ls) h = glue_behind c l m ls

read_labels-wire :
    (n : ℕ) (host : Bytes) (ls : List Bytes) (rest : Bytes)
    → All IsLabel ls
    → length (wire ls) + length rest < n
    → read_labels n host (wire ls ++ 0 ∷ rest) ≡ (glue host ls, rest)
read_labels-wire n host [] rest h k = read_labels_round n host 0 rest (omega arith)
read_labels-wire n host (l ∷ ls) rest h k =
    let p = wire ls ++ 0 ∷ rest in
    let here = length-append l (wire ls) in
    let below = length-append (wire ls) (0 ∷ rest) in
    rw (append_assoc l (wire ls) (0 ∷ rest)) (
      read_round n host l p h.0 (omega (arith, here, below))
      ∙ read_labels-wire n (with_dot host ++ l) ls rest h.1 (omega (arith, here)))

-- What `SendRequestToDNS` writes for a name of valid labels is read back by
-- `ParseHostNameFromDNSPacket`, which stops at the byte behind it.
pub parse-write_host_name :
    (ls : List Bytes) (rest : Bytes)
    → All IsLabel ls
    → parse_host_name_from_dns_packet (write_host_name (dotted ls) ++ rest) ≡ (dotted ls, rest)
unfolding parse_host_name_from_dns_packet write_host_name
parse-write_host_name ls rest h =
    let p = wire ls ++ 0 ∷ rest in
    let fits = length-append (wire ls) (0 ∷ rest) in
    rw (write_labels-dotted (length (dotted ls)) ls h (omega arith), append_assoc (wire ls))
      (read_labels_fuel (length p) (suc (length p)) [] p (omega arith) (omega arith)
        ∙ read_labels-wire (suc (length p)) [] ls rest h (omega (arith, fits))
        ∙ ap (λ (t : Bytes). (t, rest)) (glue-dotted ls h))
