-- ===== src/Socket/Tests.antt =====
-- Sockets of include/UdpSocket.hpp on a small system: descriptors are numbered from 3 on, and joining
-- a group fails.
use mini_hft.Base.{
  ℕ, ◌+◌, ◌-◌, ◌≡◌, refl, ap, true, false, some, List, [], ◌∷◌, ◌==◌, if◌then◌else◌, arith,
}
use mini_hft.Socket.{
  check, open_socket, address, close, unwind, checked, checked_value, make_non_blocking,
  set_up_sender, sender, set_up_receiver, receiver, move_construct, move_assign,
}
use mini_hft.Socket.Calls.{
  Kernel, Reply, returned, failed, got, SocketOption, reuse_address, receive_buffer, timestamps,
  add_membership, multicast_if, multicast_ttl, multicast_loop, value, thrown,
}
use mini_hft.Socket.Ownership.{HasDescriptors, one_if, result_owns, sender-receiver}
use mini_hft.Socket.Lifetime.{
  Action, makes_sender, makes_receiver, moves_out, assigns, destroys, owned, perform_all,
  destroy_all, perform_all-destroy_all,
}

-- The open descriptors and the next number.
abbrev System : Type 0
System = List ℕ × ℕ

abbrev remove : ℕ → List ℕ → List ℕ
remove fd [] = []
remove fd (y ∷ ys) = if fd == y then ys else y ∷ remove fd ys

abbrev option_reply : SocketOption → Reply
option_reply reuse_address = returned 0
option_reply (receive_buffer n) = returned 0
option_reply timestamps = returned 0
option_reply (add_membership a b) = failed 19
option_reply (multicast_if a) = returned 0
option_reply (multicast_ttl n) = returned 0
option_reply (multicast_loop n) = returned 0

abbrev system : Kernel System
system = record {
  socket = λ w. (returned w.1, (w.1 ∷ w.0, w.1 + 1));
  setsockopt = λ fd o w. (option_reply o, w);
  bind = λ fd ip port w. (returned 0, w);
  fcntl_get = λ fd w. (returned 0, w);
  fcntl_set = λ fd flags w. (returned 0, w);
  close = λ fd w. (remove fd w.0, w.1);
  recvmsg = λ fd size w. (got [] [], w);
  sendto = λ fd datagram ip port w. (returned 0, w);
  inet_pton = λ text. some 0;
}

abbrev count : List ℕ → ℕ → ℕ
count [] x = 0
count (y ∷ ys) x = one_if (y == x) + count ys x

abbrev open_in : System → ℕ → ℕ
open_in w x = count w.0 x

count-remove :
    (fd : ℕ) (ys : List ℕ) (x : ℕ) → count (remove fd ys) x ≡ count ys x - one_if (fd == x)
count-remove fd [] x = ground arith
count-remove fd (y ∷ ys) x = let rest = count-remove fd ys x in ground (arith, rest)

abbrev number_of : Reply → ℕ
number_of (returned n) = n
number_of (failed e) = 0

opened_count :
    (w : System) (fd x : ℕ)
    → w.1 ≡ fd
    → open_in (w.1 ∷ w.0, w.1 + 1) x ≡ open_in w x + one_if (fd == x)
opened_count w fd x e = omega (arith, ap (λ n. one_if (n == x)) e)

system-HasDescriptors : HasDescriptors system open_in
system-HasDescriptors = record {
  socket_opens = λ w fd x e. opened_count w fd x (ap number_of e);
  socket_fails = λ w e x h. absurd (cc);
  setsockopt_keeps = λ fd o w x. refl;
  bind_keeps = λ fd ip port w x. refl;
  fcntl_get_keeps = λ fd w x. refl;
  fcntl_set_keeps = λ fd flags w x. refl;
  close_closes = λ fd w x. count-remove fd w.0 x;
}

sender-receiver_example :
    (let r = sender system [] 1 true (1 ∷ [], 3) in open_in r.1 3 ≡ 0 + result_owns r.0 3)
    × (let r = receiver system [] 26400 [] 8388608 (1 ∷ [], 3) in
        open_in r.1 3 ≡ 0 + result_owns r.0 3)
sender-receiver_example =
    sender-receiver system open_in system-HasDescriptors (1 ∷ [], 3) 3 [] 26400 [] 1 8388608 true

sender-run : sender system [] 1 true (1 ∷ [], 3) ≡ (value (record { fd = some 3 }), (3 ∷ 1 ∷ [], 4))
unfolding sender open_socket unwind set_up_sender checked address check
sender-run = refl

-- Joining the group fails, and the socket is closed again.
receiver-run : receiver system [] 26400 [] 8388608 (1 ∷ [], 3) ≡ (thrown 19, (1 ∷ [], 4))
unfolding receiver open_socket unwind set_up_receiver checked address check close make_non_blocking
    checked_value
receiver-run = refl

-- Two senders; one is moved out and assigned over the other, and a receiver is tried.
abbrev actions : List Action
actions =
    makes_sender [] 1 true
    ∷ makes_sender [] 1 false
    ∷ moves_out 1
    ∷ assigns 1 0
    ∷ assigns 1 1
    ∷ makes_receiver [] 1 [] 1
    ∷ destroys 0
    ∷ []

perform_all-destroy_all_example :
    let r = perform_all system actions [] (1 ∷ [], 3) in
    (open_in r.1 3 ≡ 0 + owned r.0 3) × (open_in (destroy_all system r.0 r.1) 3 ≡ 0)
perform_all-destroy_all_example =
    perform_all-destroy_all system open_in system-HasDescriptors actions (1 ∷ [], 3) 3

perform_all-run : (perform_all system actions [] (1 ∷ [], 3)).1.0 ≡ 3 ∷ 1 ∷ []
unfolding sender receiver open_socket unwind set_up_sender set_up_receiver checked address check
    close make_non_blocking checked_value move_construct move_assign
perform_all-run = refl
