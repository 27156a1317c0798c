-- ===== src/Mold/Sequencer.antt =====
-- `mold::Sequencer` of include/MoldUdp64.hpp. A member function returns the new state with the calls
-- of `deliver` that it made, in order.
pub mod Order
pub mod Drain
pub mod Ledger
pub mod Hold
pub mod Events
pub mod Run
use mini_hft.Base.{
  ℕ, ◌+◌, Bool, true, false, Option, none, some, List, [], ◌∷◌, ◌++◌, length, replicate, ltb, leb,
  ◌==◌, ◌&&◌, not, if◌then◌else◌,
}
use mini_hft.Base.Words.{u64, sub64}
use mini_hft.Mold.Packet.{
  Packet, Call, session_bytes, messages, messages_in, heartbeat, end_of_session, for_each_message,
}

-- `Sequencer::Stats`
pub record Stats : Type 0 where
  pub packets : ℕ
  pub heartbeats : ℕ
  pub delivered : ℕ
  pub duplicates : ℕ
  pub held_packets : ℕ
  pub gaps : ℕ
  pub lost : ℕ
  pub other_session : ℕ

-- `Sequencer::Held`
pub record Held : Type 0 where
  pub sequence : ℕ
  pub count : ℕ
  pub blocks : List ℕ

-- The flag `haveSession_` and `session_` are one option.
pub record Sequencer : Type 0 where
  pub next : ℕ
  pub known : ℕ
  pub max_held : ℕ
  pub held : List Held
  pub session : Option (List ℕ)
  pub end_seen : Bool
  pub ended : Bool
  pub stats : Stats

abbrev pub no_stats : Stats
no_stats = record {
  packets = 0;
  heartbeats = 0;
  delivered = 0;
  duplicates = 0;
  held_packets = 0;
  gaps = 0;
  lost = 0;
  other_session = 0;
}

abbrev pub new : ℕ → ℕ → Sequencer
new first_sequence max_held = record {
  next = first_sequence;
  known = 0;
  max_held = max_held;
  held = [];
  session = none;
  end_seen = false;
  ended = false;
  stats = no_stats;
}

-- The order and equality of byte strings: `p.session != session_`.
unfoldable pub same_bytes : List ℕ → List ℕ → Bool
same_bytes [] [] = true
same_bytes [] (y ∷ ys) = false
same_bytes (x ∷ xs) [] = false
same_bytes (x ∷ xs) (y ∷ ys) = x == y && same_bytes xs ys

unfoldable pub gap_open : Sequencer → Bool
gap_open s = ltb s.next s.known

abbrev pub count_duplicates : ℕ → Sequencer → Sequencer
count_duplicates n s =
    let t = s.stats in record s { stats = record t { duplicates = u64 (t.duplicates + n) } }

abbrev pub count_delivered : Sequencer → Sequencer
count_delivered s =
    let t = s.stats in
    record s { next = u64 (s.next + 1); stats = record t { delivered = u64 (t.delivered + 1) } }

-- The body of the callback in `deliverNew`, over the calls of `forEachMessage`.
unfoldable pub deliver_calls : List Call → Sequencer → Sequencer × List Call
deliver_calls [] s = (s, [])
deliver_calls ((seq, message) ∷ calls) s =
    let dropped = deliver_calls calls (count_duplicates 1 s) in
    let (s', out) = deliver_calls calls (count_delivered s) in
    if ltb seq s.next then dropped else (s', (seq, message) ∷ out)

unfoldable pub deliver_new : ℕ → List ℕ → ℕ → Sequencer → Sequencer × List Call
deliver_new sequence blocks count s =
    deliver_calls
      (for_each_message (record {
        session = replicate session_bytes 0;
        sequence = sequence;
        count = count;
        blocks = blocks;
      }))
      s

-- The search and insertion of `hold`; `none` when the packet is held already.
unfoldable pub insert_held : Held → List Held → Option (List Held)
insert_held h [] = some (h ∷ [])
insert_held h (x ∷ xs) =
    let deeper = insert_held h xs in
    if ltb x.sequence h.sequence
    then elim deeper [ none ↦ none | some ys ↦ some (x ∷ ys) ]
    else if x.sequence == h.sequence && leb h.count x.count
    then none
    else some (h ∷ x ∷ xs)

unfoldable pub hold : Packet → Sequencer → Sequencer
hold p s =
    let t = s.stats in
    let counted = record s { stats = record t { held_packets = u64 (t.held_packets + 1) } } in
    let h : Held = record { sequence = p.sequence; count = p.count; blocks = p.blocks } in
    elim (insert_held h s.held) [
      | none ↦ count_duplicates p.count counted
      | some held ↦ record counted { held = held }
    ]

-- The loop of `drainHeld`; the list is what `held_` holds when the test is made.
unfoldable pub drain_from : List Held → Sequencer → Sequencer × List Call
drain_from [] s = (s, [])
drain_from (h ∷ rest) s =
    let (s', out) = deliver_new h.sequence h.blocks h.count (record s { held = rest }) in
    let (s'', more) = drain_from rest s' in
    if leb h.sequence s.next then (s'', out ++ more) else (s, [])

unfoldable pub drain_held : Sequencer → Sequencer × List Call
drain_held s = drain_from s.held s

unfoldable pub finish_if_ended : Sequencer → Sequencer
finish_if_ended s = if s.end_seen && not (gap_open s) then record s { ended = true } else s

-- The number that `giveUpGap` skips to.
unfoldable pub gap_target : Sequencer → ℕ
gap_target s = elim s.held [ [] ↦ s.known | h ∷ _ ↦ h.sequence ]

unfoldable pub skip_gap : Sequencer → Sequencer
skip_gap s =
    let t = s.stats in
    if ltb s.next (gap_target s)
    then record s {
      next = gap_target s;
      stats = record t {
        gaps = u64 (t.gaps + 1);
        lost = u64 (t.lost + sub64 (gap_target s) s.next);
      };
    }
    else s

unfoldable pub give_up_gap : Sequencer → Sequencer × List Call
give_up_gap s = let (s', out) = drain_held (skip_gap s) in (finish_if_ended s', out)

-- `onPacket` after the session test: the packet is counted and announces its end.
unfoldable pub announce : Packet → Sequencer → Sequencer
announce p s =
    let t = s.stats in
    let end = u64 (p.sequence + messages p) in
    record s {
      known = if ltb s.known end then end else s.known;
      end_seen = if end_of_session p then true else s.end_seen;
      stats = record t {
        packets = u64 (t.packets + 1);
        heartbeats = if heartbeat p then u64 (t.heartbeats + 1) else t.heartbeats;
      };
    }

-- A packet that starts no later than the next expected number: delivered, then what it frees.
unfoldable pub take_packet : Packet → Sequencer → Sequencer × List Call
take_packet p s =
    let (s', out) = deliver_new p.sequence p.blocks (messages p) s in
    let (s'', more) = drain_held s' in (finish_if_ended s'', out ++ more)

-- A packet with messages: held if it is beyond a gap, with the oldest gap given up first when too
-- many are held.
unfoldable pub sequence_packet : Packet → Sequencer → Sequencer × List Call
sequence_packet p s =
    let (made, out) =
      if ltb s.next p.sequence && leb s.max_held (length s.held) then give_up_gap s else (s, []) in
    let (s', more) = take_packet p made in
    if ltb made.next p.sequence then (hold p made, out) else (s', out ++ more)

unfoldable pub accept_packet : Packet → Sequencer → Sequencer × List Call
accept_packet p s =
    if messages p == 0
    then (finish_if_ended (announce p s), [])
    else sequence_packet p (announce p s)

unfoldable pub on_packet : Packet → Sequencer → Sequencer × List Call
on_packet p s =
    let t = s.stats in
    elim s.session [
      | none ↦ accept_packet p (record s { session = some p.session })
      | some session ↦
          if same_bytes p.session session
          then accept_packet p s
          else (record s { stats = record t { other_session = u64 (t.other_session + 1) } }, [])
    ]
