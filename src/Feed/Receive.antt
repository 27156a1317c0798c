-- ===== src/Feed/Receive.antt =====
-- The main loop of src/mold_recv.cpp. What `receive` returned in a round of the loop, and the time
-- that the round read, are given; times are numbers of one unit. The calls of
-- `toBooks` are collected, and `to_books` makes them. The two latency histograms are left out.
use mini_hft.Base.{
  ℕ, zero, suc, ◌+◌, ◌-◌, Bool, true, false, Option, none, some, List, [], ◌∷◌, ◌++◌, replicate,
  get_or, set, ltb, ◌==◌, ◌&&◌, not, if◌then◌else◌,
}
use mini_hft.Base.Words.{u64}
use mini_hft.Itch.Dispatch.{Handler, dispatch}
use mini_hft.Mold.Packet.{
  PacketError, too_short, block_overrun, count_mismatch, empty_message, sequence_overflow, ok, err,
  Decoded, decode, Call,
}
use mini_hft.Mold.Sequencer.{Sequencer, new, on_packet, give_up_gap, gap_open}

-- The variables of `main` that the loop changes. `malformed` is `byError`, and `calls` is what
-- `toBooks` has been called with.
pub record Receiver : Type 0 where
  pub sequencer : Sequencer
  pub calls : List Call
  pub malformed : List ℕ
  pub datagrams : ℕ
  pub first_arrival : Option ℕ
  pub last_arrival : ℕ
  pub gap_since : Option ℕ

abbrev pub fresh : ℕ → Receiver
fresh now = record {
  sequencer = new 1 4096;
  calls = [];
  malformed = replicate 6 0;
  datagrams = 0;
  first_arrival = none;
  last_arrival = now;
  gap_since = none;
}

-- The value of the enumeration.
unfoldable pub error_index : PacketError → ℕ
error_index too_short = 1
error_index block_overrun = 2
error_index count_mismatch = 3
error_index empty_message = 4
error_index sequence_overflow = 5

-- `Malformed::total`
unfoldable pub total : List ℕ → ℕ
total [] = 0
total (n ∷ ns) = u64 (n + total ns)

unfoldable pub take_in : Sequencer × List Call → Receiver → Receiver
take_in (s, out) r = record r { sequencer = s; calls = r.calls ++ out }

-- The calls of `toBooks` on a builder: how many messages ITCH refused, and the builder.
unfoldable pub to_books : {B : Type 0} → Handler B → List Call → ℕ × B → ℕ × B
unfolding dispatch
to_books h [] r = r
to_books h ((seq, message) ∷ calls) r =
    let d = dispatch h message r.1 in to_books h calls ((if d.0 then r.0 else u64 (r.0 + 1)), d.1)

-- What the loop does with a datagram.
unfoldable pub on_decoded : Decoded → Receiver → Receiver
unfolding take_in error_index
on_decoded (ok p) r = take_in (on_packet p r.sequencer) r
on_decoded (err e) r = record r {
  malformed = set r.malformed (error_index e) (u64 (get_or r.malformed (error_index e) 0 + 1));
}

unfoldable pub on_datagram : List ℕ → Receiver → Receiver
unfolding on_decoded
on_datagram d r = on_decoded (decode d) (record r { datagrams = u64 (r.datagrams + 1) })

-- The inner loop over the sockets: whether anything came, and the receiver.
unfoldable pub poll_all : List (Option (List ℕ)) → Receiver → Bool × Receiver
unfolding on_datagram
poll_all [] r = (false, r)
poll_all (none ∷ ds) r = poll_all ds r
poll_all (some d ∷ ds) r = (true, (poll_all ds (on_datagram d r)).1)

-- The timer of an open gap.
unfoldable pub watch_gap : ℕ → Bool → ℕ → Receiver → Receiver
unfolding take_in
watch_gap gap_wait got now r =
    if not (gap_open r.sequencer) then record r { gap_since = none } else elim r.gap_since [
      | none ↦ record r { gap_since = some now }
      | some since ↦
          let given_up = take_in (give_up_gap r.sequencer) (record r { gap_since = none }) in
          if not got && ltb gap_wait (now - since) then given_up else r
    ]

-- The arrival times, and whether the loop is left because nothing comes any more.
unfoldable pub watch_idle : ℕ → Bool → ℕ → Receiver → Bool × Receiver
watch_idle idle got now r = elim r.first_arrival [
  | none ↦ (false, if got then record r { last_arrival = now; first_arrival = some now } else r)
  | some t ↦
      if got then (false, record r { last_arrival = now }) else (ltb idle (now - r.last_arrival), r)
]

-- One round of the loop.
unfoldable pub round : ℕ → ℕ → List (Option (List ℕ)) → ℕ → Receiver → Bool × Receiver
unfolding poll_all watch_gap watch_idle
round gap_wait idle arrivals now r =
    let (got, r1) = poll_all arrivals r in watch_idle idle got now (watch_gap gap_wait got now r1)

-- The loop, over the arrivals and the time of each round.
unfoldable pub receive_loop : ℕ → ℕ → List (List (Option (List ℕ)) × ℕ) → Receiver → Receiver
unfolding round
receive_loop gap_wait idle [] r = r
receive_loop gap_wait idle ((arrivals, now) ∷ rounds) r =
    let next = round gap_wait idle arrivals now r in
    let rest = receive_loop gap_wait idle rounds next.1 in
    if r.sequencer.ended then r else if next.0 then next.1 else rest

-- The loop after it that gives up what gaps are open, on fuel.
unfoldable pub give_up_all : ℕ → Receiver → Receiver
unfolding take_in
give_up_all zero r = r
give_up_all (suc fuel) r =
    let rest = give_up_all fuel (take_in (give_up_gap r.sequencer) r) in
    if gap_open r.sequencer then rest else r

-- `clean`, from the receiver and the counts of messages that ITCH refused, of unknown references and
-- of over-executions.
unfoldable pub clean : Receiver → ℕ → ℕ → ℕ → Bool
unfolding total
clean r undispatched unknown_refs over_executions =
    r.sequencer.ended
    && r.sequencer.stats.lost == 0
    && total r.malformed == 0
    && undispatched == 0
    && unknown_refs == 0
    && over_executions == 0
