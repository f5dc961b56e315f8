-- ===== src/Socket/Posix.antt =====
-- What the sources use of the operating system: system calls on an unknown state, as a parameter, with
-- what POSIX says of the descriptors that they open and close.
use setka.Prelude.{ℕ, refl, ◌⊎◌, inl, inr, ◌≡◌, ◌<◌, ◌^◌, Bool, true, false, ◌==◌, if◌then◌else◌}
use setka.Utki.{Bytes}

pub data Family : Type 0 where
  pf_inet pf_inet6 : Family

pub data Kind : Type 0 where
  sock_stream sock_dgram : Kind

-- `sockaddr_in` and `sockaddr_in6`, with their numbers in network byte order
pub data Sockaddr : Type 0 where
  in4 : (sin_addr sin_port : ℕ) → Sockaddr
  in6 : (addr32_0 addr32_1 addr32_2 addr32_3 sin6_port : ℕ) → Sockaddr

-- `setsockopt` of one of these options
pub data SockOption : Type 0 where
  ipv6_v6only so_reuseaddr so_broadcast tcp_nodelay : SockOption

-- What a system call returns, or `errno` where it returns -1.
pub data Answer (A : Type 0) : Type 0 where
  returns : A → Answer A
  fails : ℕ → Answer A

pub Answer-cases :
    {A : Type 0} (r : Answer A) → ((a : A) × (r ≡ returns a)) ⊎ ((e : ℕ) × (r ≡ fails e))
Answer-cases (returns a) = inl (a, refl)
Answer-cases (fails e) = inr (e, refl)

pub record Kernel : Type 1 where
  pub State : Type 0
  pub socket : Family → Kind → State → Answer ℕ × State
  pub close : ℕ → State → State
  pub setsockopt : ℕ → SockOption → ℕ → State → Answer (Unit {0}) × State
  -- `fcntl` with `F_GETFL` and `F_SETFL`, and `flags | O_NONBLOCK`
  pub get_flags : ℕ → State → Answer ℕ × State
  pub set_flags : ℕ → ℕ → State → Answer (Unit {0}) × State
  pub nonblocking : ℕ → ℕ
  pub bind : ℕ → Sockaddr → State → Answer (Unit {0}) × State
  pub listen : ℕ → ℕ → State → Answer (Unit {0}) × State
  pub accept : ℕ → State → Answer ℕ × State
  pub connect : ℕ → Sockaddr → State → Answer (Unit {0}) × State
  -- with the bytes of the buffer, and its length as the call is told it
  pub send : ℕ → Bytes → ℕ → State → Answer ℕ × State
  pub sendto : ℕ → Bytes → ℕ → Sockaddr → State → Answer ℕ × State
  -- with the size of the buffer as the call is told it; the bytes that were received
  pub recv : ℕ → ℕ → State → Answer Bytes × State
  pub recvfrom : ℕ → ℕ → State → Answer (Bytes × Sockaddr) × State
  pub getsockname : ℕ → State → Answer Sockaddr × State
  pub getpeername : ℕ → State → Answer Sockaddr × State
  -- `errno` after a call that leaves it as it was, or not, such as `close`
  pub errno : State → ℕ
  -- `EINTR`, `EAGAIN`, `EINPROGRESS`
  pub error_interrupted : ℕ
  pub error_again : ℕ
  pub error_in_progress : ℕ
  pub htonl : ℕ → ℕ
  pub ntohl : ℕ → ℕ
  pub htons : ℕ → ℕ
  pub ntohs : ℕ → ℕ

-- A call that opens and closes no descriptor.
abbrev pub IsQuiet : {S A : Type 0} → (S → ℕ → Bool) → (S → A × S) → Type 0
IsQuiet {S} is_open m = (s : S) (d : ℕ) → is_open (m s).1 d ≡ is_open s d

-- A call that opens at most the descriptor that it returns, which was not open.
abbrev pub Opens : {S : Type 0} → (S → ℕ → Bool) → Answer ℕ → S → S → Type 0
Opens is_open (returns d) s s' =
    (is_open s d ≡ false) × ((c : ℕ) → is_open s' c ≡ (if c == d then true else is_open s c))
Opens is_open (fails e) s s' = (c : ℕ) → is_open s' c ≡ is_open s c

-- The descriptors that are open, for a process with no other thread that opens or closes any.
pub record Descriptors (k : Kernel) : Type 0 where
  pub is_open : k.State → ℕ → Bool
  pub opens-socket :
      (f : Family) (t : Kind) (s : k.State) → let (r, s') = k.socket f t s in Opens is_open r s s'
  pub opens-accept : (d : ℕ) (s : k.State) → let (r, s') = k.accept d s in Opens is_open r s s'
  -- Of the closing of a descriptor that is not open, nothing is known.
  pub open-close :
      (d c : ℕ) (s : k.State)
      → is_open s d ≡ true
      → is_open (k.close d s) c ≡ (if c == d then false else is_open s c)
  pub quiet-setsockopt : (d : ℕ) (o : SockOption) (v : ℕ) → IsQuiet is_open (k.setsockopt d o v)
  pub quiet-get_flags : (d : ℕ) → IsQuiet is_open (k.get_flags d)
  pub quiet-set_flags : (d v : ℕ) → IsQuiet is_open (k.set_flags d v)
  pub quiet-bind : (d : ℕ) (a : Sockaddr) → IsQuiet is_open (k.bind d a)
  pub quiet-listen : (d n : ℕ) → IsQuiet is_open (k.listen d n)
  pub quiet-connect : (d : ℕ) (a : Sockaddr) → IsQuiet is_open (k.connect d a)
  pub quiet-send : (d : ℕ) (b : Bytes) (len : ℕ) → IsQuiet is_open (k.send d b len)
  pub quiet-sendto :
      (d : ℕ) (b : Bytes) (len : ℕ) (a : Sockaddr) → IsQuiet is_open (k.sendto d b len a)
  pub quiet-recv : (d n : ℕ) → IsQuiet is_open (k.recv d n)
  pub quiet-recvfrom : (d n : ℕ) → IsQuiet is_open (k.recvfrom d n)
  pub quiet-getsockname : (d : ℕ) → IsQuiet is_open (k.getsockname d)
  pub quiet-getpeername : (d : ℕ) → IsQuiet is_open (k.getpeername d)

-- The conversions of byte order are inverse to each other on the numbers of their width.
pub record ByteOrder (k : Kernel) : Type 0 where
  pub ntohl-htonl : (x : ℕ) → x < 2 ^ 32 → k.ntohl (k.htonl x) ≡ x
  pub ntohs-htons : (x : ℕ) → x < 2 ^ 16 → k.ntohs (k.htons x) ≡ x
