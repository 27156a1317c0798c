-- ===== src/Socket/Ownership.antt =====
-- The descriptors that the functions of include/UdpSocket.hpp open and close.
use Prim.Native.Nat.{bit_or}
use mini_hft.Base.{
  ℕ, ◌+◌, ◌-◌, ◌≡◌, refl, sym, ap, subst, ◌∙◌, Bool, Option, none, some, List, ◌==◌, if◌then◌else◌,
  arith,
}
use mini_hft.Socket.{
  UdpSocket, check, open_socket, address, close, unwind, checked, checked_value, make_non_blocking,
  set_up_sender, sender, set_up_receiver, receiver,
}
use mini_hft.Base.Words.{u8}
use mini_hft.Socket.Calls.{
  nonblock, Kernel, Reply, returned, failed, SocketOption, multicast_if, multicast_ttl,
  multicast_loop, reuse_address, receive_buffer, timestamps, add_membership, Outcome, value, thrown,
  Io, ◌>>=◌, pure,
}

abbrev pub one_if : Bool → ℕ
one_if b = if b then 1 else 0

-- `open w x` counts the open descriptors numbered x: socket opens one, close closes one, and the
-- other calls neither.
pub record HasDescriptors {W : Type 0} (k : Kernel W) (open_count : W → ℕ → ℕ) : Type 0 where
  pub socket_opens :
      (w : W) (fd x : ℕ)
      → (k.socket w).0 ≡ returned fd
      → open_count (k.socket w).1 x ≡ open_count w x + one_if (fd == x)
  pub socket_fails :
      (w : W) (e x : ℕ) → (k.socket w).0 ≡ failed e → open_count (k.socket w).1 x ≡ open_count w x
  pub setsockopt_keeps :
      (fd : ℕ) (o : SocketOption) (w : W) (x : ℕ)
      → open_count (k.setsockopt fd o w).1 x ≡ open_count w x
  pub bind_keeps :
      (fd ip port : ℕ) (w : W) (x : ℕ) → open_count (k.bind fd ip port w).1 x ≡ open_count w x
  pub fcntl_get_keeps :
      (fd : ℕ) (w : W) (x : ℕ) → open_count (k.fcntl_get fd w).1 x ≡ open_count w x
  pub fcntl_set_keeps :
      (fd flags : ℕ) (w : W) (x : ℕ) → open_count (k.fcntl_set fd flags w).1 x ≡ open_count w x
  pub close_closes :
      (fd : ℕ) (w : W) (x : ℕ) → open_count (k.close fd w) x ≡ open_count w x - one_if (fd == x)

-- How many descriptors numbered x a socket owns.
abbrev pub owns_fd : Option ℕ → ℕ → ℕ
owns_fd none x = 0
owns_fd (some fd) x = one_if (fd == x)

abbrev pub owns : UdpSocket → ℕ → ℕ
owns s x = owns_fd s.fd x

-- What the caller of a function that returns a socket owns.
abbrev pub result_owns : Outcome UdpSocket → ℕ → ℕ
result_owns (value s) x = owns s x
result_owns (thrown e) x = 0

abbrev fd_of : Outcome UdpSocket → Option ℕ
fd_of (value s) = s.fd
fd_of (thrown e) = none

module _ {W : Type 0} (k : Kernel W) (open_count : W → ℕ → ℕ)
    (laws : HasDescriptors k open_count) where
  record Keeps {A : Type 0} (m : Io W A) : Type 0 where
    keeps : (w : W) (x : ℕ) → open_count (m w).1 x ≡ open_count w x

  -- A computation that keeps the descriptors and returns the socket that owns fd.
  record Sets (fd : ℕ) (m : Io W UdpSocket) : Type 0 where
    keeps : (w : W) (x : ℕ) → open_count (m w).1 x ≡ open_count w x
    sets : (w : W) (s : UdpSocket) → (m w).0 ≡ value s → s.fd ≡ some fd

  bind-Sets :
      {A : Type 0} {fd : ℕ} {m : Io W A} {f : A → Io W UdpSocket}
      → Keeps m
      → ((a : A) → Sets fd (f a))
      → Sets fd (m >>= f)
  bind-Sets {fd = fd} {m = m} {f = f} h g = record {
    keeps = λ w x.
        elim (m w).0 as (λ o. (m w).0 ≡ o → open_count ((m >>= f) w).1 x ≡ open_count w x) [
          | value a ↦ λ e. rw (e, ◌>>=◌) ((g a).keeps (m w).1 x ∙ h.keeps w x)
          | thrown c ↦ λ e. rw (e, ◌>>=◌) (h.keeps w x)
        ]
          refl;
    sets = λ w s.
        elim (m w).0 as (λ o. (m w).0 ≡ o → ((m >>= f) w).0 ≡ value s → s.fd ≡ some fd) [
          | value a ↦ λ e. rw (e, ◌>>=◌) ((g a).sets (m w).1 s)
          | thrown c ↦ λ e. rw (e, ◌>>=◌) λ n. absurd (cc)
        ]
          refl;
  }

  checked-Keeps :
      (call : W → Reply × W)
      → ((w : W) (x : ℕ) → open_count (call w).1 x ≡ open_count w x)
      → Keeps (checked k call)
  unfolding checked check
  checked-Keeps call h = record {
    keeps = λ w x. elim (call w).0 as (λ o. open_count (check o (call w).1).1 x ≡ open_count w x) [
      | returned n ↦ h w x
      | failed e ↦ h w x
    ];
  }

  address-Keeps : (ip : List ℕ) (port : ℕ) → Keeps (address k ip port)
  unfolding address
  address-Keeps ip port = record {
    keeps = λ w x.
        elim (k.inet_pton ip)
            as (λ o. k.inet_pton ip ≡ o → open_count (address k ip port w).1 x ≡ open_count w x) [
              | none ↦ λ e. rw (e, address) refl
              | some a ↦ λ e. rw (e, address) refl
            ]
          refl;
  }

  pure-Sets : (fd : ℕ) → Sets fd (pure (record { fd = some fd }))
  pure-Sets fd = record { keeps = λ w x. refl; sets = λ w s e. ap (fd_of) (sym e) }

  checked_value-Keeps :
      (call : W → Reply × W)
      → ((w : W) (x : ℕ) → open_count (call w).1 x ≡ open_count w x)
      → Keeps (checked_value k call)
  unfolding checked_value
  checked_value-Keeps call h = record {
    keeps = λ w x.
        elim (call w).0
            as (λ o. (call w).0 ≡ o → open_count (checked_value k call w).1 x ≡ open_count w x) [
              | returned n ↦ λ e. rw (e, checked_value) (h w x)
              | failed c ↦ λ e. rw (e, checked_value) (h w x)
            ]
          refl;
  }

  bind-Keeps :
      {A B : Type 0} {m : Io W A} {f : A → Io W B}
      → Keeps m
      → ((a : A) → Keeps (f a))
      → Keeps (m >>= f)
  bind-Keeps {m = m} {f = f} h g = record {
    keeps = λ w x.
        elim (m w).0 as (λ o. (m w).0 ≡ o → open_count ((m >>= f) w).1 x ≡ open_count w x) [
          | value a ↦ λ e. rw (e, ◌>>=◌) ((g a).keeps (m w).1 x ∙ h.keeps w x)
          | thrown c ↦ λ e. rw (e, ◌>>=◌) (h.keeps w x)
        ]
          refl;
  }

  make_non_blocking-Keeps : (fd : ℕ) → Keeps (make_non_blocking k fd)
  unfolding make_non_blocking
  make_non_blocking-Keeps fd =
      bind-Keeps (checked_value-Keeps (k.fcntl_get fd) (laws.fcntl_get_keeps fd)) (λ flags.
        checked-Keeps (k.fcntl_set fd (bit_or flags nonblock))
          (laws.fcntl_set_keeps fd (bit_or flags nonblock)))

  option-Keeps : (fd : ℕ) (o : SocketOption) → Keeps (checked k (k.setsockopt fd o))
  option-Keeps fd o = checked-Keeps (k.setsockopt fd o) (laws.setsockopt_keeps fd o)

  set_up_sender-Sets :
      (fd : ℕ) (ip : List ℕ) (ttl : ℕ) (loopback : Bool)
      → Sets fd (set_up_sender k fd ip ttl loopback)
  unfolding set_up_sender
  set_up_sender-Sets fd ip ttl loopback = bind-Sets (address-Keeps ip 0) λ iface.
      bind-Sets (option-Keeps fd (multicast_if iface.ip)) λ _.
        bind-Sets (option-Keeps fd (multicast_ttl (u8 ttl))) λ _.
          bind-Sets (option-Keeps fd (multicast_loop (if loopback then 1 else 0))) λ _. pure-Sets fd

  set_up_receiver-Sets :
      (fd : ℕ) (group : List ℕ) (port : ℕ) (ip : List ℕ) (bytes : ℕ)
      → Sets fd (set_up_receiver k fd group port ip bytes)
  unfolding set_up_receiver
  set_up_receiver-Sets fd group port ip bytes = bind-Sets (option-Keeps fd reuse_address) λ _.
      bind-Sets (option-Keeps fd (receive_buffer bytes)) λ _.
        bind-Sets (option-Keeps fd timestamps) λ _. bind-Sets (address-Keeps group port) λ addr.
          bind-Sets
            (checked-Keeps (k.bind fd addr.ip addr.port) (laws.bind_keeps fd addr.ip addr.port))
            λ _. bind-Sets (address-Keeps ip 0) λ iface.
              bind-Sets (option-Keeps fd (add_membership addr.ip iface.ip))
                λ _. bind-Sets (make_non_blocking-Keeps fd) λ _. pure-Sets fd

  set_up-acquires :
      (fd x : ℕ) (w w' : W) (m : Io W UdpSocket)
      → Sets fd m
      → open_count w' x ≡ open_count w x + one_if (fd == x)
      → let r = unwind k (record { fd = some fd }) m w' in
        open_count r.1 x ≡ open_count w x + result_owns r.0 x
  unfolding unwind close
  set_up-acquires fd x w w' m h e =
      elim (m w').0
          as (λ o.
            (m w').0 ≡ o
            → let r = unwind k (record { fd = some fd }) m w' in
              open_count r.1 x ≡ open_count w x + result_owns r.0 x) [
                | value s ↦ λ o.
                    rw (o, unwind)
                      (h.keeps w' x
                        ∙ e
                        ∙ ap (◌+◌ (open_count w x)) (
                            sym (
                              ap (λ r. result_owns r x) o ∙ ap (λ f. owns_fd f x) (h.sets w' s o))))
                | thrown c ↦ λ o.
                    rw (o, unwind) (omega (arith, laws.close_closes fd (m w').1 x, h.keeps w' x, e))
              ]
        refl

  opened :
      (w : W) (fd : ℕ) → (k.socket w).0 ≡ returned fd → open_socket k w ≡ (value fd, (k.socket w).1)
  unfolding open_socket
  opened w fd e = rw (e, open_socket) refl

  refused :
      (w : W) (c : ℕ) → (k.socket w).0 ≡ failed c → open_socket k w ≡ (thrown c, (k.socket w).1)
  unfolding open_socket
  refused w c e = rw (e, open_socket) refl

  abbrev Acquired : W → ℕ → Outcome UdpSocket × W → Type 0
  Acquired w x r = open_count r.1 x ≡ open_count w x + result_owns r.0 x

  abbrev open_then : (ℕ → Io W UdpSocket) → Outcome ℕ × W → Outcome UdpSocket × W
  open_then body p = elim p.0 [
    | value fd ↦ unwind k (record { fd = some fd }) (body fd) p.1
    | thrown e ↦ (thrown e, p.1)
  ]

  -- What construction of a socket and a body that sets it up come to.
  acquire :
      (body : ℕ → Io W UdpSocket)
      → ((fd : ℕ) → Sets fd (body fd))
      → (w : W) (x : ℕ)
      → let r = (open_socket k >>= λ fd. unwind k (record { fd = some fd }) (body fd)) w in
        open_count r.1 x ≡ open_count w x + result_owns r.0 x
  acquire body h w x =
      elim (k.socket w).0
          as (λ o. (k.socket w).0 ≡ o → Acquired w x (open_then body (open_socket k w))) [
            | returned fd ↦ λ e.
                subst (λ p. Acquired w x (open_then body p)) (sym (opened w fd e))
                  (set_up-acquires fd x w (k.socket w).1 (body fd) (h fd)
                    (laws.socket_opens w fd x e))
            | failed c ↦ λ e.
                subst (λ p. Acquired w x (open_then body p)) (sym (refused w c e))
                  (omega (arith, laws.socket_fails w c x e))
          ]
        refl

  -- Over system calls of which socket opens one descriptor, close closes one and the others neither,
  -- `sender` and `receiver` leave exactly the descriptors open that were open before, with the one
  -- that the returned socket owns if they return; whichever call fails, the exception leaves none
  -- behind.
  pub sender-receiver :
      (w : W) (x : ℕ) (group : List ℕ) (port : ℕ) (ip : List ℕ) (ttl bytes : ℕ) (loopback : Bool)
      → (let r = sender k ip ttl loopback w in
          open_count r.1 x ≡ open_count w x + result_owns r.0 x)
        × (let r = receiver k group port ip bytes w in
            open_count r.1 x ≡ open_count w x + result_owns r.0 x)
  unfolding sender receiver
  sender-receiver w x group port ip ttl bytes loopback = (
    acquire (λ fd. set_up_sender k fd ip ttl loopback) (λ fd. set_up_sender-Sets fd ip ttl loopback)
        w x,
    acquire (λ fd. set_up_receiver k fd group port ip bytes)
        (λ fd. set_up_receiver-Sets fd group port ip bytes) w x,
  )
