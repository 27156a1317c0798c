-- ===== src/Mold/Tests.antt =====
-- Datagrams and packets for include/MoldUdp64.hpp.
use mini_hft.Base.{
  ℕ, ◌+◌, ◌<◌, ◌≡◌, ◌↔◌, refl, ◌^◌, some, List, [], ◌∷◌, ◌++◌, length, replicate, All, arith,
}
use mini_hft.Itch.Bytes.{be16, be64}
use mini_hft.Mold.Packet.{
  Packet, ok, err, decode, check_blocks, messages_in, parse_header, calls_from, for_each_message,
  block_overrun,
}
use mini_hft.Mold.Frame.{number_from}
use mini_hft.Mold.Decode.{IsDatagram, decode_iff}
use mini_hft.Mold.Sequencer.{
  Sequencer, new, on_packet, give_up_gap, accept_packet, announce, sequence_packet, take_packet,
  hold, insert_held, skip_gap, gap_target, drain_held, drain_from, deliver_new, deliver_calls,
  finish_if_ended, gap_open, same_bytes,
}
use mini_hft.Mold.Sequencer.Order.{Runs, Ascends}
use mini_hft.Mold.Sequencer.Ledger.{Steps}
use mini_hft.Mold.Sequencer.Drain.{Inv}
use mini_hft.Mold.Sequencer.Events.{IsPacket, on_packet-Steps, on_packet-Runs}
use mini_hft.Mold.Sequencer.Run.{IsEvent, Event, receive, give_up, run, run-new}

abbrev session : List ℕ
session = replicate 10 b'A'

-- Sequence number 7, the messages 1 2 and 3.
abbrev datagram : List ℕ
datagram = session ++ (0 ∷ 0 ∷ 0 ∷ 0 ∷ 0 ∷ 0 ∷ 0 ∷ 7 ∷ 0 ∷ 2 ∷ 0 ∷ 2 ∷ 1 ∷ 2 ∷ 0 ∷ 1 ∷ 3 ∷ [])

abbrev seven : Packet
seven = record {
  session = session;
  sequence = 7;
  count = 2;
  blocks = 0 ∷ 2 ∷ 1 ∷ 2 ∷ 0 ∷ 1 ∷ 3 ∷ [];
}

decode_runs : decode datagram ≡ ok seven
unfolding decode check_blocks messages_in be16 be64
decode_runs = refl

decode_cut :
    decode (session ++ (0 ∷ 0 ∷ 0 ∷ 0 ∷ 0 ∷ 0 ∷ 0 ∷ 7 ∷ 0 ∷ 1 ∷ 0 ∷ 9 ∷ 1 ∷ [])) ≡ err block_overrun
unfolding decode check_blocks messages_in be16 be64
decode_cut = refl

calls_run : for_each_message seven ≡ (7, 1 ∷ 2 ∷ []) ∷ (8, 3 ∷ []) ∷ []
unfolding calls_from messages_in be16
calls_run = refl

-- One message, numbered n.
abbrev single : ℕ → Packet
single n = record { session = session; sequence = n; count = 1; blocks = 0 ∷ 1 ∷ 9 ∷ [] }

abbrev events : List Event
events =
    receive (single 1) ∷ receive (single 3) ∷ receive (single 1) ∷ give_up ∷ receive (single 4) ∷ []

events-run : (run events (new 1 4)).1 ≡ (1, 9 ∷ []) ∷ (3, 9 ∷ []) ∷ (4, 9 ∷ []) ∷ []
unfolding run on_packet accept_packet announce sequence_packet take_packet hold insert_held
    give_up_gap skip_gap gap_target drain_held drain_from deliver_new deliver_calls finish_if_ended
    gap_open same_bytes calls_from messages_in be16
events-run = refl

decode_iff_example : (decode datagram ≡ ok seven) ↔ (
    (ms : List (List ℕ)) × IsDatagram datagram ms
    × (seven ≡ parse_header datagram)
    × (for_each_message seven ≡ number_from 7 ms))
decode_iff_example = decode_iff datagram seven (omega arith) (omega arith)

-- Message 3 waits for 2.
abbrev waiting : Sequencer
waiting = record (new 2 4) {
  known = 4;
  held = record { sequence = 3; count = 1; blocks = 0 ∷ 1 ∷ 9 ∷ [] } ∷ [];
  session = some session;
}

waiting-Inv : Inv waiting
unfolding messages_in
waiting-Inv = omega arith

single-IsPacket : (n : ℕ) → n < 2 ^ 63 → IsPacket (single n)
unfolding messages_in
single-IsPacket n h = omega arith

on_packet-Steps_example :
    (gap : ℕ) × Steps waiting (on_packet (single 2) waiting) gap
    × (length waiting.held < waiting.max_held → gap ≡ 0)
on_packet-Steps_example =
    on_packet-Steps (single 2) waiting waiting-Inv (single-IsPacket 2 (omega arith))

on_packet-Runs_example :
    let (s', out) = on_packet (single 2) waiting in Runs 2 out s'.next × (s'.stats.lost ≡ 0)
on_packet-Runs_example =
    on_packet-Runs (single 2) waiting waiting-Inv (single-IsPacket 2 (omega arith)) (omega arith)

events-IsEvent : All IsEvent events
unfolding messages_in
events-IsEvent = omega arith

run-new_example :
    let (s, out) = run events (new 1 4) in
    Ascends 1 out s.next
    × (s.stats.delivered ≡ length out)
    × (s.next ≡ 1 + s.stats.delivered + s.stats.lost)
run-new_example = run-new events 1 4 (omega arith) events-IsEvent
