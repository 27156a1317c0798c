-- ===== src/Socket.antt =====
-- `UdpSocket` of include/UdpSocket.hpp, on Linux. The system calls are a parameter; a call that
-- returns -1 is a `failed` with errno, and a thrown std::system_error is a `thrown` with its code.
mod Tests
pub mod Calls
pub mod Ownership
pub mod Lifetime
use Prim.Native.Nat.{bit_or}
use mini_hft.Base.{
  ℕ, ◌+◌, ◌*◌, ◌^◌, Bool, true, false, Option, none, some, List, [], ◌∷◌, length, ◌==◌, ◌||◌,
  if◌then◌else◌,
}
use mini_hft.Base.Words.{u8}
use mini_hft.Socket.Calls.{
  Kernel, Reply, returned, failed, Received, got, no_message, Control, timestamp, other_control,
  SocketOption, reuse_address, receive_buffer, timestamps, add_membership, multicast_if,
  multicast_ttl, multicast_loop, Outcome, value, thrown, Io, ◌>>=◌, ◌>>◌, pure, throw,
  invalid_argument, eagain, eintr, nonblock,
}

-- `UdpSocket`: `fd_`, with `none` for -1.
pub record UdpSocket : Type 0 where
  pub fd : Option ℕ

-- `UdpSocket::Datagram`; `none` is a `kernelNs` of -1.
pub record Datagram : Type 0 where
  pub bytes : ℕ
  pub kernel_ns : Option ℕ

-- `sockaddr_in`
pub record Address : Type 0 where
  pub ip : ℕ
  pub port : ℕ

abbrev closed : UdpSocket
closed = record { fd = none }

unfoldable pub check : {W : Type 0} → Reply → Io W Unit
check (returned n) = pure tt
check (failed e) = throw e

-- The loop over the control messages: the last timestamp, in ns.
unfoldable pub kernel_time : List Control → Option ℕ → Option ℕ
kernel_time [] last = last
kernel_time (timestamp sec nsec ∷ cs) last = kernel_time cs (some (sec * 1000000000 + nsec))
kernel_time (other_control ∷ cs) last = kernel_time cs last

-- The move constructor: the new socket and the one moved from.
unfoldable pub move_construct : UdpSocket → UdpSocket × UdpSocket
move_construct other = (record { fd = other.fd }, record other { fd = none })

module _ {W : Type 0} (k : Kernel W) where
  -- The private constructor.
  unfoldable pub open_socket : Io W ℕ
  open_socket w =
      let r = k.socket w in elim r.0 [ returned fd ↦ (value fd, r.1) | failed e ↦ (thrown e, r.1) ]

  unfoldable pub address : List ℕ → ℕ → Io W Address
  address ip port w = elim (k.inet_pton ip) [
    | none ↦ (thrown invalid_argument, w)
    | some a ↦ (value (record { ip = a; port = port }), w)
  ]

  -- `close`, also the destructor.
  unfoldable pub close : UdpSocket → W → UdpSocket × W
  close s w = elim s.fd [ none ↦ (closed, w) | some fd ↦ (closed, k.close fd w) ]

  -- A local socket is destroyed when an exception leaves its function.
  unfoldable pub unwind : {A : Type 0} → UdpSocket → Io W A → Io W A
  unfolding close
  unwind s body w =
      let r = body w in elim r.0 [ value a ↦ r | thrown e ↦ (thrown e, (close s r.1).1) ]

  -- A system call followed by `check`.
  unfoldable pub checked : (W → Reply × W) → Io W Unit
  unfolding check
  checked call w = let r = call w in check r.0 r.1

  -- `check` of a call of which the result is used.
  unfoldable pub checked_value : (W → Reply × W) → Io W ℕ
  checked_value call w =
      let r = call w in elim r.0 [ returned n ↦ (value n, r.1) | failed e ↦ (thrown e, r.1) ]

  unfoldable pub make_non_blocking : ℕ → Io W Unit
  unfolding checked checked_value
  make_non_blocking fd = do
    flags ← checked_value (k.fcntl_get fd)
    checked (k.fcntl_set fd (bit_or flags nonblock))

  -- The body of `sender` behind the constructor.
  unfoldable pub set_up_sender : ℕ → List ℕ → ℕ → Bool → Io W UdpSocket
  unfolding checked address
  set_up_sender fd interface_address ttl loopback = do
    iface ← address interface_address 0
    checked (k.setsockopt fd (multicast_if iface.ip))
    checked (k.setsockopt fd (multicast_ttl (u8 ttl)))
    checked (k.setsockopt fd (multicast_loop (if loopback then 1 else 0)))
    pure (record { fd = some fd })

  unfoldable pub sender : List ℕ → ℕ → Bool → Io W UdpSocket
  unfolding open_socket unwind set_up_sender
  sender interface_address ttl loopback = do
    fd ← open_socket
    unwind (record { fd = some fd }) (set_up_sender fd interface_address ttl loopback)

  -- The body of `receiver` behind the constructor.
  unfoldable pub set_up_receiver : ℕ → List ℕ → ℕ → List ℕ → ℕ → Io W UdpSocket
  unfolding checked address make_non_blocking
  set_up_receiver fd group port interface_address receive_buffer_bytes = do
    checked (k.setsockopt fd reuse_address)
    checked (k.setsockopt fd (receive_buffer receive_buffer_bytes))
    checked (k.setsockopt fd timestamps)
    addr ← address group port
    checked (k.bind fd addr.ip addr.port)
    iface ← address interface_address 0
    checked (k.setsockopt fd (add_membership addr.ip iface.ip))
    make_non_blocking fd
    pure (record { fd = some fd })

  unfoldable pub receiver : List ℕ → ℕ → List ℕ → ℕ → Io W UdpSocket
  unfolding open_socket unwind set_up_receiver
  receiver group port interface_address receive_buffer_bytes = do
    fd ← open_socket
    unwind (record { fd = some fd })
        (set_up_receiver fd group port interface_address receive_buffer_bytes)

  -- `receive`, with the bytes that it leaves in the buffer.
  unfoldable pub receive : ℕ → ℕ → Io W (Option (List ℕ × Datagram))
  unfolding kernel_time
  receive fd size w =
      let r = k.recvmsg fd size w in
      elim r.0 [
        | got bytes controls ↦ (
          value (
              some (bytes, record { bytes = length bytes; kernel_ns = kernel_time controls none })),
          r.1,
        )
        | no_message e ↦ if e == eagain || e == eintr then (value none, r.1) else (thrown e, r.1)
      ]

  unfoldable pub send_to : ℕ → List ℕ → List ℕ → ℕ → Io W Bool
  unfolding address
  send_to fd datagram group port = do
    addr ← address group port
    λ w.
        let r = k.sendto fd datagram addr.ip addr.port w in
        elim r.0 [
          | returned n ↦ (value (n == length datagram), r.1)
          | failed e ↦ (value false, r.1)
        ]

  -- The move assignment; the first argument says whether both are the same object.
  unfoldable pub move_assign : Bool → UdpSocket → UdpSocket → W → (UdpSocket × UdpSocket) × W
  unfolding close
  move_assign same this other w =
      let r = close this w in
      if same
      then ((this, other), w)
      else ((record r.0 { fd = other.fd }, record other { fd = none }), r.1)
