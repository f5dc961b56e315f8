-- ===== src/Dns/Name/Size.antt =====
-- How many bytes a name takes in a request.
use setka.Prelude.{
  ℕ, zero, suc, ◌+◌, ◌≤◌, ◌≡◌, refl, Bool, true, false, [], ◌∷◌, arith, ◌==◌, if◌then◌else◌, length,
  length-append,
}
use setka.Utki.{Bytes}
use setka.Dns.Name.{until_dot, after_dot, write_labels, write_host_name}
use setka.Dns.Name.Loops.{length-after_dot_cons}

-- The name is empty, or its last byte is a dot.
unfoldable pub ends_at_dot : Bytes → Bool
ends_at_dot [] = true
ends_at_dot (c ∷ []) = c == b'.'
ends_at_dot (c ∷ d ∷ s) = ends_at_dot (d ∷ s)

has_dot : Bytes → Bool
has_dot [] = false
has_dot (c ∷ s) = if c == b'.' then true else has_dot s

length_split :
    (s : Bytes)
    → length s ≡ length (until_dot s) + (if has_dot s then suc (length (after_dot s)) else 0)
unfolding until_dot after_dot has_dot
length_split [] = omega arith
length_split (c ∷ s) = ground (arith, length_split s)

-- Behind a dot the name goes on as before.
ends_after_dot : (s : Bytes) → has_dot s ≡ true → ends_at_dot s ≡ ends_at_dot (after_dot s)
unfolding after_dot has_dot ends_at_dot
ends_after_dot [] h = ground arith
ends_after_dot (c ∷ []) h = ground arith
ends_after_dot (c ∷ d ∷ s) h = ground (arith, ends_after_dot (d ∷ s))

ends_without_dot : (c : ℕ) (s : Bytes) → has_dot (c ∷ s) ≡ false → ends_at_dot (c ∷ s) ≡ false
unfolding has_dot ends_at_dot
ends_without_dot c [] h = ground arith
ends_without_dot c (d ∷ s) h = ground (arith, ends_without_dot d s)

after_without_dot : (s : Bytes) → has_dot s ≡ false → after_dot s ≡ []
unfolding has_dot after_dot
after_without_dot [] h = refl
after_without_dot (c ∷ s) h = ground (arith, after_without_dot s)

length-write_labels :
    (n : ℕ) (s : Bytes)
    → length s ≤ n
    → length (write_labels n s) ≡ (if ends_at_dot s then length s else suc (length s))
unfolding write_labels
length-write_labels n [] h = unfold ends_at_dot in refl
length-write_labels zero (c ∷ s) h = absurd (omega arith)
length-write_labels (suc n) (c ∷ s) h = ground (
  arith,
  length_split (c ∷ s),
  ends_after_dot (c ∷ s),
  ends_without_dot c s,
  after_without_dot (c ∷ s),
  length-after_dot_cons c s,
  length-write_labels n (after_dot (c ∷ s)),
  length-append (until_dot (c ∷ s)) (write_labels n (after_dot (c ∷ s))),
)

-- A name takes two bytes more than its text, but one more if it is empty or ends at a dot.
pub length-write_host_name :
    (s : Bytes)
    → length (write_host_name s) ≡ (if ends_at_dot s then length s + 1 else length s + 2)
unfolding write_host_name
length-write_host_name s =
    ground
      (arith, length-write_labels (length s) s, length-append (write_labels (length s) s) (0 ∷ []))
