-- ===== src/Feed/Deliver.antt =====
-- What the Sequencer of include/MoldUdp64.hpp does with packets that come in order.
use mini_hft.Base.{
  ℕ, zero, suc, ◌+◌, ◌^◌, ◌≤◌, ◌<◌, ◌≡◌, refl, sym, ap, ◌∙◌, inl, inr, ◌⊎◌, true, false, none, some,
  List, [], ◌∷◌, length, append-nil, replicate, ltb, ◌==◌, le→ltb, arith,
}
use mini_hft.Base.Words.{u64}
use mini_hft.Mold.Packet.{
  Packet, Call, messages, messages_in, for_each_message, end_of_session_count,
}
use mini_hft.Mold.Frame.{number_from}
use mini_hft.Mold.Sequencer.{
  Sequencer, same_bytes, gap_open, count_delivered, deliver_calls, deliver_new, drain_held,
  drain_from, finish_if_ended, announce, take_packet, sequence_packet, accept_packet, on_packet,
}

abbrev count_all : ℕ → Sequencer → Sequencer
count_all zero s = s
count_all (suc n) s = count_all n (count_delivered s)

-- What no delivery changes, and the next number.
record Counted (n : ℕ) (s s' : Sequencer) : Type 0 where
  next : s'.next ≡ s.next + n
  held : s'.held ≡ s.held
  known : s'.known ≡ s.known
  session : s'.session ≡ s.session
  end_seen : s'.end_seen ≡ s.end_seen
  ended : s'.ended ≡ s.ended
  lost : s'.stats.lost ≡ s.stats.lost

count_all-Counted : (n : ℕ) (s : Sequencer) → s.next + n < 2 ^ 64 → Counted n s (count_all n s)
count_all-Counted zero s h = record {
  next = omega arith;
  held = refl;
  known = refl;
  session = refl;
  end_seen = refl;
  ended = refl;
  lost = refl;
}
count_all-Counted (suc n) s h =
    let c = count_all-Counted n (count_delivered s) (omega arith) in
    record {
      next = omega (arith, c.next);
      held = c.held;
      known = c.known;
      session = c.session;
      end_seen = c.end_seen;
      ended = c.ended;
      lost = c.lost;
    }

deliver_calls-number_from :
    (ms : List (List ℕ)) (n : ℕ) (s : Sequencer)
    → s.next ≡ n
    → n + length ms < 2 ^ 64
    → deliver_calls (number_from n ms) s ≡ (count_all (length ms) s, number_from n ms)
unfolding deliver_calls
deliver_calls-number_from [] n s e h = refl
deliver_calls-number_from (m ∷ ms) n s e h =
    let rest =
      deliver_calls-number_from ms (n + 1) (count_delivered s) (omega arith) (omega arith) in
    rw (le→ltb (u64 n) s.next (omega arith), rest) refl

-- The state of a sequencer that has nothing to wait for: n is the next number.
pub record InOrder (name : List ℕ) (n : ℕ) (s : Sequencer) : Type 0 where
  pub next : s.next ≡ n
  pub held : s.held ≡ []
  pub known : s.known ≤ n
  pub session : (s.session ≡ none) ⊎ (s.session ≡ some name)
  pub end_seen : s.end_seen ≡ false
  pub ended : s.ended ≡ false
  pub lost : s.stats.lost ≡ 0

take_packet-number_from :
    (p : Packet) (ms : List (List ℕ)) (n : ℕ) (s : Sequencer)
    → deliver_new p.sequence p.blocks (messages p) s ≡ (count_all (length ms) s, number_from n ms)
    → s.next + length ms < 2 ^ 64
    → s.held ≡ []
    → s.end_seen ≡ false
    → take_packet p s ≡ (count_all (length ms) s, number_from n ms)
unfolding take_packet drain_held finish_if_ended drain_from
take_packet-number_from p ms n s d h e f =
    let c = count_all-Counted (length ms) s h in
    rw (d, c.held ∙ e, c.end_seen ∙ f, append-nil (number_from n ms)) refl

-- A packet of messages numbered from n on.
pub record Carries (name : List ℕ) (n : ℕ) (ms : List (List ℕ)) (p : Packet) : Type 0 where
  pub same_session : p.session ≡ name
  pub first : p.sequence ≡ n
  pub count : p.count ≡ length ms
  pub some_messages : 0 < length ms
  pub few : length ms < 0xffff
  pub fits : n + length ms < 2 ^ 64
  pub calls :
      for_each_message
        (record { session = replicate 10 0; sequence = n; count = length ms; blocks = p.blocks })
      ≡ number_from n ms

pub record Delivered (name : List ℕ) (n : ℕ) (ms : List (List ℕ)) (r : Sequencer × List Call)
    : Type 0 where
  pub out : r.1 ≡ number_from n ms
  pub state : InOrder name (n + length ms) r.0

deliver_new-number_from :
    (name : List ℕ) (n : ℕ) (ms : List (List ℕ)) (p : Packet) (s : Sequencer)
    → Carries name n ms p
    → messages p ≡ length ms
    → s.next ≡ n
    → deliver_new p.sequence p.blocks (messages p) s ≡ (count_all (length ms) s, number_from n ms)
unfolding deliver_new
deliver_new-number_from name n ms p s c number e =
    rw (number, c.first, c.calls) (deliver_calls-number_from ms n s e c.fits)

sequence_packet-take_packet :
    (p : Packet) (s : Sequencer)
    → ltb s.next p.sequence ≡ false
    → sequence_packet p s ≡ take_packet p s
unfolding sequence_packet
sequence_packet-take_packet p s h = rw (h, h) refl

accept_packet-Delivered :
    (name : List ℕ) (n : ℕ) (ms : List (List ℕ)) (p : Packet) (s : Sequencer)
    → Carries name n ms p
    → InOrder name n s
    → s.session ≡ some name
    → Delivered name n ms (accept_packet p s)
unfolding accept_packet deliver_new messages_in announce
accept_packet-Delivered name n ms p s c v e =
    let a = announce p s in
    let not_end : a.end_seen ≡ false = ground (arith, c.count, c.few, v.end_seen) in
    let number : messages p ≡ length ms = ground (arith, c.count, c.few) in
    let not_empty : (messages p == 0) ≡ false = ground (arith, number, c.some_messages) in
    let known : a.known ≡ n + length ms = ground (arith, number, c.first, c.fits, v.known) in
    let here : deliver_new p.sequence p.blocks (messages p) a
        ≡ (count_all (length ms) a, number_from n ms) =
      deliver_new-number_from name n ms p a c number v.next in
    let took =
      take_packet-number_from p ms n a here (omega (arith, v.next, c.fits)) v.held not_end in
    let in_time : ltb a.next p.sequence ≡ false =
      le→ltb a.next p.sequence (omega (arith, v.next, c.first)) in
    let after = count_all-Counted (length ms) a (omega (arith, v.next, c.fits)) in
    rw (not_empty, sequence_packet-take_packet p a in_time, took)
      (record {
        out = refl;
        state = record {
          next = after.next ∙ ap (λ x. x + length ms) v.next;
          held = after.held ∙ v.held;
          known = omega (arith, after.known, known);
          session = inr (after.session ∙ e);
          end_seen = after.end_seen ∙ not_end;
          ended = after.ended ∙ v.ended;
          lost = after.lost ∙ v.lost;
        };
      })

same_bytes_refl : (xs : List ℕ) → same_bytes xs xs ≡ true
unfolding same_bytes
same_bytes_refl [] = refl
same_bytes_refl (x ∷ xs) = let rest = same_bytes_refl xs in ground (arith, rest)

-- The first packet sets the session.
joined :
    (name : List ℕ) (n : ℕ) (p : Packet) (s : Sequencer)
    → InOrder name n s
    → p.session ≡ name
    → InOrder name n (record s { session = some p.session })
joined name n p s v e = record {
  next = v.next;
  held = v.held;
  known = v.known;
  session = inr (ap some e);
  end_seen = v.end_seen;
  ended = v.ended;
  lost = v.lost;
}

-- A packet that comes in order is delivered at once, and nothing is lost.
pub on_packet-Delivered :
    (name : List ℕ) (n : ℕ) (ms : List (List ℕ)) (p : Packet) (s : Sequencer)
    → Carries name n ms p
    → InOrder name n s
    → Delivered name n ms (on_packet p s)
unfolding on_packet
on_packet-Delivered name n ms p s c v = elim v.session [
  | inl none_yet ↦
      rw (none_yet, on_packet)
        (accept_packet-Delivered name n ms p (record s { session = some p.session }) c
          (joined name n p s v c.same_session) (ap some c.same_session))
  | inr known ↦
      let same = ap (same_bytes p.session) (sym c.same_session) ∙ same_bytes_refl p.session in
      rw (known, on_packet, same) (accept_packet-Delivered name n ms p s c v known)
]

-- An end-of-session packet that comes when all messages before it have come.
pub record Ends (name : List ℕ) (n : ℕ) (p : Packet) : Type 0 where
  pub same_session : p.session ≡ name
  pub at_end : p.sequence ≡ n
  pub count : p.count ≡ end_of_session_count

pub record Ended (r : Sequencer × List Call) : Type 0 where
  pub out : r.1 ≡ []
  pub ended : r.0.ended ≡ true
  pub lost : r.0.stats.lost ≡ 0

accept_packet-Ended :
    (name : List ℕ) (n : ℕ) (p : Packet) (s : Sequencer)
    → Ends name n p
    → InOrder name n s
    → n < 2 ^ 64
    → Ended (accept_packet p s)
unfolding accept_packet announce finish_if_ended gap_open messages_in
accept_packet-Ended name n p s c v h =
    let a = announce p s in
    let last : (p.count == end_of_session_count) ≡ true = ground (arith, c.count) in
    let no_messages : messages p ≡ 0 = ground (arith, c.count) in
    let seen : a.end_seen ≡ true = ground (arith, last) in
    let no_gap : gap_open a ≡ false = ground (arith, v.known, v.next, c.at_end, h, no_messages) in
    let none : (messages p == 0) ≡ true = ground (arith, no_messages) in
    let fin : accept_packet p s ≡ (record a { ended = true }, []) = rw (none, seen, no_gap) refl in
    rw fin (record { out = refl; ended = refl; lost = v.lost })

pub on_packet-Ended :
    (name : List ℕ) (n : ℕ) (p : Packet) (s : Sequencer)
    → Ends name n p
    → InOrder name n s
    → n < 2 ^ 64
    → Ended (on_packet p s)
unfolding on_packet
on_packet-Ended name n p s c v h = elim v.session [
  | inl none_yet ↦
      rw (none_yet, on_packet)
        (accept_packet-Ended name n p (record s { session = some p.session }) c
          (joined name n p s v c.same_session) h)
  | inr known ↦
      let same = ap (same_bytes p.session) (sym c.same_session) ∙ same_bytes_refl p.session in
      rw (known, on_packet, same) (accept_packet-Ended name n p s c v h)
]
