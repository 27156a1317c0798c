-- ===== src/Mold/Sequencer/Events.antt =====
-- `onPacket` of include/MoldUdp64.hpp.
use mini_hft.Base.{
  ℕ, ◌+◌, ◌-◌, ◌^◌, ◌≤◌, ◌<◌, ◌≡◌, refl, subst, Bool, Option, none, some, List, [], ◌++◌, length,
  max, arith, append-nil, ltb, leb, ltb→lt, ltb→le, Bool-cases, inl, inr, if◌then◌else◌, ◌&&◌, ◌==◌,
}
use mini_hft.Base.Words.{u64}
use mini_hft.Mold.Packet.{Packet, Call, messages}
use mini_hft.Mold.Sequencer.{
  Sequencer, Stats, hold, gap_target, give_up_gap, take_packet, announce, sequence_packet,
  accept_packet, on_packet, same_bytes,
}
use mini_hft.Mold.Sequencer.Order.{Runs, Ascends-Runs, Account, Account-trans}
use mini_hft.Mold.Sequencer.Drain.{Inv, HeldOk-mono, Account-refl}
use mini_hft.Mold.Sequencer.Ledger.{Steps, finish-Steps, give_up_gap-Steps, take_packet-Steps}
use mini_hft.Mold.Sequencer.Hold.{hold-Steps}

-- What `decode` guarantees of a packet: its numbers do not wrap.
abbrev pub IsPacket : Packet → Type 0
IsPacket p = p.sequence + messages p < 2 ^ 64

announce-known :
    (p : Packet) (s : Sequencer)
    → IsPacket p
    → (announce p s).known ≡ max s.known (p.sequence + messages p)
unfolding announce
announce-known p s h = ground arith

announce-Steps : (p : Packet) (s : Sequencer) → Inv s → IsPacket p → Steps s (announce p s, []) 0
unfolding announce
announce-Steps p s v h =
    let up : s.known ≤ (announce p s).known = omega (arith, announce-known p s h) in
    record {
      inv = record {
        words = omega arith;
        known_word = omega (arith, announce-known p s h, v.known_word);
        held_ok = HeldOk-mono s.known (announce p s).known s.held up v.held_ok;
        sorted = v.sorted;
      };
      account = omega (arith, up);
    }

pub Steps-trans :
    {s t : Sequencer} (xs : List Call) (r : Sequencer × List Call) {g h : ℕ}
    → Steps s (t, xs) g
    → Steps t r h
    → Steps s (r.0, xs ++ r.1) (g + h)
Steps-trans xs r a b = record { inv = b.inv; account = Account-trans xs r.1 a.account b.account }

-- The packet is too far ahead and too many are held: the oldest gap is given up.
abbrev pub crowded : Packet → Sequencer → Bool
crowded p s = ltb s.next p.sequence && leb s.max_held (length s.held)

-- How many numbers a packet makes the sequencer give up.
abbrev pub given_up : Packet → Sequencer → ℕ
given_up p s = if crowded p s then gap_target s - s.next else 0

-- The end of `onPacket`, from the state after the first test.
place :
    (p : Packet) (s made : Sequencer) (out : List Call) {gap : ℕ}
    → Steps s (made, out) gap
    → IsPacket p
    → p.sequence + messages p ≤ made.known
    → Steps s
        (if ltb made.next p.sequence
          then (hold p made, out)
          else ((take_packet p made).0, out ++ (take_packet p made).1))
        gap
place p s made out {gap} a h le =
    let none_lost : gap + 0 ≡ gap = omega arith in
    elim (Bool-cases (ltb made.next p.sequence)) [
      | inl beyond ↦ rw beyond (
          subst (Steps s (hold p made, out)) none_lost (
            rw append-nil at (
              Steps-trans out (hold p made, []) a
                (hold-Steps p made a.inv h le (ltb→lt made.next p.sequence beyond)))))
      | inr due ↦ rw due (
          subst (Steps s ((take_packet p made).0, out ++ (take_packet p made).1)) none_lost (
            Steps-trans out (take_packet p made) a
              (take_packet-Steps p made a.inv h (ltb→le made.next p.sequence due)).0))
    ]

sequence_packet-Steps :
    (p : Packet) (s : Sequencer)
    → Inv s
    → IsPacket p
    → p.sequence + messages p ≤ s.known
    → Steps s (sequence_packet p s) (given_up p s)
unfolding sequence_packet
sequence_packet-Steps p s v h le = elim (Bool-cases (crowded p s)) [
  | inl full ↦ rw full (
      place p s (give_up_gap s).0 (give_up_gap s).1 (give_up_gap-Steps s v) h
        (omega (arith, (give_up_gap-Steps s v).account.known)))
  | inr room ↦ rw room (place p s s [] (record { inv = v; account = Account-refl s v.words }) h le)
]

-- A change that is not accounted, before accounted steps.
Steps-from :
    {s t : Sequencer} {r : Sequencer × List Call} {gap : ℕ}
    → Account s t [] 0
    → Steps t r gap
    → Steps s r gap
Steps-from {s} {t} {r} {gap} a b =
    let same : 0 + gap ≡ gap = omega arith in
    record {
      inv = b.inv;
      account = subst (Account s r.0 r.1) same (Account-trans [] r.1 a b.account);
    }

accept_packet-Steps :
    (p : Packet) (s : Sequencer)
    → Inv s
    → IsPacket p
    → (gap : ℕ) × Steps s (accept_packet p s) gap × (length s.held < s.max_held → gap ≡ 0)
unfolding accept_packet announce
accept_packet-Steps p s v h =
    let a = announce-Steps p s v h in
    elim (Bool-cases (messages p == 0)) [
      | inl empty ↦ rw empty (0, finish-Steps (announce p s, []) a, λ _. refl)
      | inr some_messages ↦ rw some_messages (
        given_up p (announce p s),
        Steps-from a.account
            (sequence_packet-Steps p (announce p s) a.inv h (omega (arith, announce-known p s h))),
        λ room. ground arith,
      )
    ]

-- A packet whose numbers do not wrap takes a state that satisfies the invariant to another, and the
-- counters account for the numbers passed: those delivered and those given up. When fewer packets
-- are held than the maximum, none is given up.
pub on_packet-Steps :
    (p : Packet) (s : Sequencer)
    → Inv s
    → IsPacket p
    → (gap : ℕ) × Steps s (on_packet p s) gap × (length s.held < s.max_held → gap ≡ 0)
unfolding on_packet
on_packet-Steps p s v h = go s.session refl
  where
    first : Sequencer
    first = record s { session = some p.session }

    t : Stats
    t = s.stats

    other : Sequencer
    other = record s { stats = record t { other_session = u64 (t.other_session + 1) } }

    first-Inv : Inv first
    first-Inv = record {
      words = omega arith;
      known_word = v.known_word;
      held_ok = v.held_ok;
      sorted = v.sorted;
    }

    other-Inv : Inv other
    other-Inv = record {
      words = omega arith;
      known_word = v.known_word;
      held_ok = v.held_ok;
      sorted = v.sorted;
    }

    go :
        (o : Option (List ℕ))
        → s.session ≡ o
        → (gap : ℕ) × Steps s
            (elim o [
              | none ↦ accept_packet p first
              | some session ↦
                  if same_bytes p.session session then accept_packet p s else (other, [])
            ])
            gap
          × (length s.held < s.max_held → gap ≡ 0)
    go none e =
        let (gap, st, room) = accept_packet-Steps p first first-Inv h in
        (gap, Steps-from (omega arith) st, room)
    go (some session) e = elim (Bool-cases (same_bytes p.session session)) [
      | inl same ↦ rw same (accept_packet-Steps p s v h)
      | inr differs ↦ rw differs (0, record { inv = other-Inv; account = omega arith }, λ _. refl)
    ]

-- A packet that comes while fewer packets are held than the maximum loses nothing: the messages it
-- makes the sequencer deliver are numbered consecutively from the next expected number.
pub on_packet-Runs :
    (p : Packet) (s : Sequencer)
    → Inv s
    → IsPacket p
    → length s.held < s.max_held
    → let (s', out) = on_packet p s in Runs s.next out s'.next × (s'.stats.lost ≡ s.stats.lost)
on_packet-Runs p s v h room =
    let (gap, st, none_lost) = on_packet-Steps p s v h in
    let none : gap ≡ 0 = none_lost room in
    (
      Ascends-Runs s.next (on_packet p s).1 (on_packet p s).0.next st.account.ascends
          (omega (arith, st.account, none)),
      omega (arith, st.account, none, v.words),
    )
