-- ===== src/Socket/Tests.antt =====
-- A small system, on which the methods of the sockets run.
mod Calls
mod Windows
use setka.Prelude.{
  ℕ, zero, suc, ◌+◌, ◌*◌, ◌/◌, ◌%◌, ◌^◌, ◌<◌, ltb, ◌≡◌, refl, Bool, true, false, ◌||◌, ◌&&◌, Option,
  none, some, List, [], ◌∷◌, length, arith, ◌==◌, if◌then◌else◌, take,
}
use setka.Utki.{Bytes}
use setka.Socket.Posix.{
  Family, Kind, Sockaddr, in4, in6, SockOption, Answer, returns, fails, Kernel, Descriptors,
  ByteOrder,
}

-- The next descriptor, those that are open, and how often the next call is interrupted.
pub record System : Type 0 where
  pub next : ℕ
  pub opened : ℕ → Bool
  pub interruptions : ℕ

abbrev pub system_open : System → ℕ → Bool
system_open s c = ltb c s.next && s.opened c

abbrev opening : System → Answer ℕ × System
opening s = (
  returns s.next,
  record s { next = suc s.next; opened = λ c. if c == s.next then true else s.opened c },
)

-- A call that can be interrupted
abbrev waiting : {A : Type 0} → A → System → Answer A × System
waiting a s = elim s.interruptions [
  | zero ↦ (returns a, s)
  | suc n ↦ (fails 4, record s { interruptions = n })
]

abbrev swap16 : ℕ → ℕ
swap16 x = x % 256 * 256 + x / 256 % 256

abbrev swap32 : ℕ → ℕ
swap32 x = swap16 (x % 65536) * 65536 + swap16 (x / 65536 % 65536)

-- The system: nothing but `connect`, which is in progress, and the interruptions fails.
abbrev pub kernel : Kernel
kernel = record {
  State = System;
  socket = λ f t. opening;
  close = λ d s. record s { opened = λ c. if c == d then false else s.opened c };
  setsockopt = λ d o v s. (returns tt, s);
  get_flags = λ d s. (returns 2, s);
  set_flags = λ d v s. (returns tt, s);
  nonblocking = λ v. v + 2048;
  bind = λ d a s. (returns tt, s);
  listen = λ d n s. (returns tt, s);
  accept = λ d. opening;
  connect = λ d a s. (fails 115, s);
  send = λ d b len. waiting len;
  sendto = λ d b len a. waiting len;
  recv = λ d n. waiting (take n (1 ∷ 2 ∷ 3 ∷ []));
  recvfrom = λ d n. waiting (take n (1 ∷ 2 ∷ 3 ∷ []), in4 16777343 13568);
  getsockname = λ d s. (returns (in4 16777343 20480), s);
  getpeername = λ d s. (returns (in4 16777343 20480), s);
  errno = λ s. 0;
  error_interrupted = 4;
  error_again = 11;
  error_in_progress = 115;
  htonl = swap32;
  ntohl = swap32;
  htons = swap16;
  ntohs = swap16;
}

pub opening-system_open :
    (s : System) (c : ℕ)
    → system_open (opening s).1 c ≡ (if c == s.next then true else system_open s c)
opening-system_open s c = ground arith

pub next-system_open : (s : System) → system_open s s.next ≡ false
next-system_open s = ground arith

pub close-system_open :
    (d c : ℕ) (s : System)
    → system_open (kernel.close d s) c ≡ (if c == d then false else system_open s c)
close-system_open d c s = ground arith

pub waiting-system_open :
    {A : Type 0} (a : A) (s : System) (c : ℕ) → system_open (waiting a s).1 c ≡ system_open s c
waiting-system_open a s c = ground arith

abbrev pub descriptors : Descriptors kernel
descriptors = record {
  is_open = system_open;
  opens-socket = λ f t s. (next-system_open s, opening-system_open s);
  opens-accept = λ d s. (next-system_open s, opening-system_open s);
  open-close = λ d c s there. close-system_open d c s;
  quiet-setsockopt = λ d o v s c. refl;
  quiet-get_flags = λ d s c. refl;
  quiet-set_flags = λ d v s c. refl;
  quiet-bind = λ d a s c. refl;
  quiet-listen = λ d n s c. refl;
  quiet-connect = λ d a s c. refl;
  quiet-send = λ d b len. waiting-system_open len;
  quiet-sendto = λ d b len a. waiting-system_open len;
  quiet-recv = λ d n. waiting-system_open _;
  quiet-recvfrom = λ d n. waiting-system_open _;
  quiet-getsockname = λ d s c. refl;
  quiet-getpeername = λ d s c. refl;
}

pub swap16_lem : (x : ℕ) → x < 2 ^ 16 → swap16 (swap16 x) ≡ x
swap16_lem x h = omega arith

pub swap32_lem : (x : ℕ) → x < 2 ^ 32 → swap32 (swap32 x) ≡ x
swap32_lem x h = omega arith

abbrev pub byte_order : ByteOrder kernel
byte_order = record { ntohl-htonl = swap32_lem; ntohs-htons = swap16_lem }
