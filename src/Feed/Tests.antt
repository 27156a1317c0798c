-- ===== src/Feed/Tests.antt =====
-- A wire between src/mold_send.cpp and src/mold_recv.cpp that keeps every datagram.
use mini_hft.Base.{ℕ, ◌≡◌, refl, true, false, some, List, [], ◌∷◌, ◌++◌, length, arith}
use mini_hft.Mold.Frame.{number_from}
use mini_hft.Socket.Calls.{Kernel, returned, got, value}
use mini_hft.Mold.Sequencer.{gap_open}
use mini_hft.Feed.Receive.{Receiver, fresh, receive_loop, clean, give_up_all}
use mini_hft.Feed.GapsClosed.{give_up_all-ends}
use mini_hft.Feed.Arrived.{one_by_one}
use mini_hft.Feed.Send.{Settings, start, run}
use mini_hft.Feed.Sent.{IsNetwork, OneFeed}
use mini_hft.Feed.EndToEnd.{run-receive_loop}

-- The state is the list of the datagrams.
abbrev wire : Kernel (List (List ℕ))
wire = record {
  socket = λ w. (returned 3, w);
  setsockopt = λ fd o w. (returned 0, w);
  bind = λ fd ip port w. (returned 0, w);
  fcntl_get = λ fd w. (returned 0, w);
  fcntl_set = λ fd flags w. (returned 0, w);
  close = λ fd w. w;
  recvmsg = λ fd size w. (got [] [], w);
  sendto = λ fd d ip port w. (returned (length d), w ++ d ∷ []);
  inet_pton = λ text. some 7;
}

abbrev sent_so_far : List (List ℕ) → List (List ℕ)
sent_so_far w = w

wire-IsNetwork : IsNetwork wire sent_so_far
wire-IsNetwork = record { logs = λ fd d ip port w. refl }

abbrev settings : Settings
settings = record {
  fd = 3;
  feed_a = record { group = 50 ∷ []; port = 26400 };
  feed_b = record { group = []; port = 26400 };
  drop_a = 0;
}

wire-OneFeed : OneFeed wire settings
wire-OneFeed = record { ip = 7; group_a = refl; group_b = refl; no_drop = refl }

-- Two passes; the packets have room for one message each.
abbrev two_passes : List (List (List ℕ))
two_passes = ((1 ∷ []) ∷ (2 ∷ 3 ∷ []) ∷ []) ∷ ((4 ∷ []) ∷ []) ∷ []

abbrev on_wire : List (List ℕ)
on_wire = (run wire settings two_passes (start 25 (77 ∷ []) [])).1.world

run-receive_loop_example :
    let r = receive_loop 1000 3000 (one_by_one on_wire (λ i. i)) (fresh 0) in
    ((code : ℕ) × ((run wire settings two_passes (start 25 (77 ∷ []) [])).0 ≡ value code))
    × (r.calls ≡ number_from 1 ((1 ∷ []) ∷ (2 ∷ 3 ∷ []) ∷ (4 ∷ []) ∷ []))
    × (clean r 0 0 0 ≡ true)
run-receive_loop_example =
    run-receive_loop wire settings sent_so_far wire-IsNetwork wire-OneFeed (77 ∷ []) 25 two_passes
      [] 1000 3000 0 (λ i. i) (omega arith, tt) (omega arith)
      (
        (
          ((omega arith, omega arith), (omega arith, tt), omega arith),
          (((omega arith, omega arith), (omega arith, (omega arith, tt)), omega arith), tt),
        ),
        ((((omega arith, omega arith), (omega arith, tt), omega arith), tt), tt),
      )
      (omega arith) refl

-- A packet that waits for a gap to fill when the loop ends.
abbrev stopped : Receiver
stopped =
    let r = fresh 0 in
    let s = r.sequencer in
    record r {
      sequencer = record s {
        known = 6;
        held = record { sequence = 5; count = 0; blocks = [] } ∷ [];
      };
    }

give_up_all-ends_example : gap_open (give_up_all 2 stopped).sequencer ≡ false
give_up_all-ends_example = give_up_all-ends stopped
