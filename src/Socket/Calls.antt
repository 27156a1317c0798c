-- ===== src/Socket/Calls.antt =====
-- The system calls that include/UdpSocket.hpp makes, and computations that make them and may throw.
use mini_hft.Base.{ℕ, ◌≡◌, ap, Option, List}

-- What a call that returns an int returns.
pub data Reply : Type 0 where
  returned : ℕ → Reply
  failed : ℕ → Reply

-- A control message of a datagram.
pub data Control : Type 0 where
  timestamp : ℕ → ℕ → Control
  other_control : Control

pub data Received : Type 0 where
  got : List ℕ → List Control → Received
  no_message : ℕ → Received

pub data SocketOption : Type 0 where
  reuse_address : SocketOption
  receive_buffer : ℕ → SocketOption
  timestamps : SocketOption
  add_membership : ℕ → ℕ → SocketOption
  multicast_if : ℕ → SocketOption
  multicast_ttl : ℕ → SocketOption
  multicast_loop : ℕ → SocketOption

-- The constants of errno.h and fcntl.h on Linux.
abbrev pub eintr : ℕ
eintr = 4

abbrev pub eagain : ℕ
eagain = 11

abbrev pub invalid_argument : ℕ
invalid_argument = 22

abbrev pub nonblock : ℕ
nonblock = 2048

-- The system calls, on what they read and change. `inet_pton` gives the address of a text, if it is one.

pub record Kernel (W : Type 0) : Type 0 where
  pub socket : W → Reply × W
  pub setsockopt : ℕ → SocketOption → W → Reply × W
  pub bind : ℕ → ℕ → ℕ → W → Reply × W
  pub fcntl_get : ℕ → W → Reply × W
  pub fcntl_set : ℕ → ℕ → W → Reply × W
  pub close : ℕ → W → W
  pub recvmsg : ℕ → ℕ → W → Received × W
  pub sendto : ℕ → List ℕ → ℕ → ℕ → W → Reply × W
  pub inet_pton : List ℕ → Option ℕ

pub data Outcome (A : Type 0) : Type 0 where
  value : A → Outcome A
  thrown : ℕ → Outcome A

abbrev pub Io : Type 0 → Type 0 → Type 0
Io W A = W → Outcome A × W

module _ {W : Type 0} where
  infixl 5 ◌>>=◌ ◌>>◌
  abbrev pub ◌>>=◌ : {A B : Type 0} → Io W A → (A → Io W B) → Io W B
  ◌>>=◌ m f w = let (o, w') = m w in elim o [ value a ↦ f a w' | thrown e ↦ (thrown e, w') ]

  abbrev pub ◌>>◌ : {A B : Type 0} → Io W A → Io W B → Io W B
  m >> n = m >>= λ _. n

  abbrev pub pure : {A : Type 0} → A → Io W A
  pure a w = (value a, w)

  abbrev pub throw : {A : Type 0} → ℕ → Io W A
  throw e w = (thrown e, w)

  -- A bind whose first part returns.
  pub bind-value :
      {A B : Type 0} (m : Io W A) (f : A → Io W B) (w w' : W) (a : A)
      → m w ≡ (value a, w')
      → (m >>= f) w ≡ f a w'
  bind-value {B = B} m f w w' a e =
      ap (λ q. elim q.0 as (λ x. Outcome B × W) [ value b ↦ f b q.1 | thrown c ↦ (thrown c, q.1) ])
        e
