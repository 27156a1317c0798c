-- ===== src/Mold/Sequencer/Run.antt =====
-- Any sequence of packets and `giveUpGap` calls to the `Sequencer` of include/MoldUdp64.hpp.
use mini_hft.Base.{ℕ, ◌+◌, ◌-◌, ◌^◌, ◌<◌, ◌≡◌, List, [], ◌∷◌, ◌++◌, length, All, arith}
use mini_hft.Mold.Packet.{Packet, Call}
use mini_hft.Mold.Sequencer.{Sequencer, new, gap_target, give_up_gap, on_packet}
use mini_hft.Mold.Sequencer.Events.{IsPacket, Steps-trans, on_packet-Steps}
use mini_hft.Mold.Sequencer.Order.{Ascends}
use mini_hft.Mold.Sequencer.Drain.{Inv, Account-refl}
use mini_hft.Mold.Sequencer.Ledger.{Steps, give_up_gap-Steps}

-- What a receiver does with the sequencer.
pub data Event : Type 0 where
  receive : Packet → Event
  give_up : Event

abbrev pub IsEvent : Event → Type 0
IsEvent (receive p) = IsPacket p
IsEvent give_up = Unit

abbrev pub handle_event : Event → Sequencer → Sequencer × List Call
handle_event (receive p) s = on_packet p s
handle_event give_up s = give_up_gap s

unfoldable pub run : List Event → Sequencer → Sequencer × List Call
run [] s = (s, [])
run (e ∷ es) s =
    let (s', out) = handle_event e s in let (s'', more) = run es s' in (s'', out ++ more)

handle_event-Steps :
    (e : Event) (s : Sequencer) → Inv s → IsEvent e → (gap : ℕ) × Steps s (handle_event e s) gap
handle_event-Steps (receive p) s v h = let (gap, st, room) = on_packet-Steps p s v h in (gap, st)
handle_event-Steps give_up s v h = (gap_target s - s.next, give_up_gap-Steps s v)

run-Steps :
    (es : List Event) (s : Sequencer) → Inv s → All IsEvent es → (gap : ℕ) × Steps s (run es s) gap
unfolding run
run-Steps [] s v h = (0, record { inv = v; account = Account-refl s v.words })
run-Steps (e ∷ es) s v h =
    let (g, a) = handle_event-Steps e s v h.0 in
    let (k, b) = run-Steps es (handle_event e s).0 a.inv h.1 in
    (g + k, Steps-trans (handle_event e s).1 (run es (handle_event e s).0) a b)

new-Inv : (first max_held : ℕ) → first < 2 ^ 64 → Inv (new first max_held)
new-Inv first max_held h = record {
  words = omega arith;
  known_word = omega arith;
  held_ok = tt;
  sorted = tt;
}

-- After any sequence of packets whose numbers do not wrap and of `giveUpGap` calls, the messages
-- delivered so far have rising sequence numbers, from the first one on and below the next expected
-- one, so each number is delivered at most once and in order; and the next expected number is the
-- first one plus the count of delivered messages plus the count of lost ones.
pub run-new :
    (es : List Event) (first max_held : ℕ)
    → first < 2 ^ 64
    → All IsEvent es
    → let (s, out) = run es (new first max_held) in
      Ascends first out s.next
      × (s.stats.delivered ≡ length out)
      × (s.next ≡ first + s.stats.delivered + s.stats.lost)
run-new es first max_held h all =
    let (gap, st) = run-Steps es (new first max_held) (new-Inv first max_held h) all in
    (st.account.ascends, omega (arith, st.account), omega (arith, st.account))
