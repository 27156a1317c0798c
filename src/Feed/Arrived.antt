-- ===== src/Feed/Arrived.antt =====
-- What the main loop of src/mold_recv.cpp makes of a whole session that arrives in order.
use mini_hft.Base.{
  ℕ, suc, ◌+◌, ◌^◌, ◌<◌, ◌≡◌, refl, sym, ap, ◌∙◌, subst, inl, inr, Bool, true, false, Option, none,
  some, List, [], ◌∷◌, ◌++◌, length, append_assoc, not, if◌then◌else◌, Bool-cases, arith,
}
use mini_hft.Base.Words.{u64}
use mini_hft.Mold.Packet.{Packet, ok, decode}
use mini_hft.Mold.Frame.{number_from}
use mini_hft.Mold.Sequencer.{on_packet, gap_open}
use mini_hft.Feed.Receive.{
  Receiver, take_in, on_decoded, on_datagram, poll_all, watch_gap, watch_idle, round, receive_loop,
}
use mini_hft.Feed.Deliver.{Carries, Ends, InOrder, on_packet-Delivered, on_packet-Ended}

-- The datagrams of a session from the number n on: those that carry the messages, and the first
-- end-of-session packet. What comes behind it does not matter.
pub data Stream (name : List ℕ) : ℕ → List (List ℕ) → List (List ℕ) → Type 0 where
  carries :
      {n : ℕ} {ms rest ds : List (List ℕ)} {d : List ℕ} {p : Packet}
      → decode d ≡ ok p
      → Carries name n ms p
      → Stream name (n + length ms) rest ds
      → Stream name n (ms ++ rest) (d ∷ ds)
  ends :
      {n : ℕ} {ds : List (List ℕ)} {d : List ℕ} {p : Packet}
      → decode d ≡ ok p
      → Ends name n p
      → n < 2 ^ 64
      → Stream name n [] (d ∷ ds)

-- Datagrams that come one in each round, at the times that `clock` gives.
abbrev pub one_by_one : List (List ℕ) → (ℕ → ℕ) → List (List (Option (List ℕ)) × ℕ)
one_by_one [] clock = []
one_by_one (d ∷ ds) clock = (some d ∷ [], clock 0) ∷ one_by_one ds (λ i. clock (suc i))

-- The parts of a receiver that its timers leave alone.
record Same (r r' : Receiver) : Type 0 where
  sequencer : r'.sequencer ≡ r.sequencer
  calls : r'.calls ≡ r.calls
  malformed : r'.malformed ≡ r.malformed

watch_gap-Same : (gap_wait now : ℕ) (r : Receiver) → Same r (watch_gap gap_wait true now r)
unfolding watch_gap
watch_gap-Same gap_wait now r = elim (Bool-cases (not (gap_open r.sequencer))) [
  | inl y ↦ rw y (record { sequencer = refl; calls = refl; malformed = refl })
  | inr n ↦ rw n (
      elim r.gap_since
          as (λ g.
            r.gap_since ≡ g
            → Same r (elim g [ none ↦ record r { gap_since = some now } | some since ↦ r ])) [
              | none ↦ λ e. record { sequencer = refl; calls = refl; malformed = refl }
              | some since ↦ λ e. record { sequencer = refl; calls = refl; malformed = refl }
            ]
        refl)
]

watch_idle-Same :
    (idle now : ℕ) (r : Receiver)
    → Same r (watch_idle idle true now r).1 × ((watch_idle idle true now r).0 ≡ false)
unfolding watch_idle
watch_idle-Same idle now r =
    elim r.first_arrival
      as (λ g.
        Same r
          (elim g as (λ h. Bool × Receiver) [
            | none ↦ (false, record r { last_arrival = now; first_arrival = some now })
            | some t ↦ (false, record r { last_arrival = now })
          ]).1
        × ((elim g as (λ h. Bool × Receiver) [
          | none ↦ (false, record r { last_arrival = now; first_arrival = some now })
          | some t ↦ (false, record r { last_arrival = now })
        ]).0
            ≡ false)) [
              | none ↦ (record { sequencer = refl; calls = refl; malformed = refl }, refl)
              | some t ↦ (record { sequencer = refl; calls = refl; malformed = refl }, refl)
            ]

abbrev arrived : Packet → Receiver → Receiver
arrived p r = record r {
  sequencer = (on_packet p r.sequencer).0;
  calls = r.calls ++ (on_packet p r.sequencer).1;
  datagrams = u64 (r.datagrams + 1);
}

poll_all-arrived :
    (d : List ℕ) (p : Packet) (r : Receiver)
    → decode d ≡ ok p
    → poll_all (some d ∷ []) r ≡ (true, arrived p r)
unfolding poll_all on_datagram on_decoded take_in
poll_all-arrived d p r e =
    ap (λ x. (true, on_decoded x (record r { datagrams = u64 (r.datagrams + 1) }))) e

-- A round with one datagram.
round-Same :
    (gap_wait idle now : ℕ) (d : List ℕ) (p : Packet) (r : Receiver)
    → decode d ≡ ok p
    → let next = round gap_wait idle (some d ∷ []) now r in
      (next.0 ≡ false)
      × (next.1.sequencer ≡ (on_packet p r.sequencer).0)
      × (next.1.calls ≡ r.calls ++ (on_packet p r.sequencer).1)
      × (next.1.malformed ≡ r.malformed)
unfolding round
round-Same gap_wait idle now d p r e =
    let g = watch_gap-Same gap_wait now (arrived p r) in
    let i = watch_idle-Same idle now (watch_gap gap_wait true now (arrived p r)) in
    let here =
      ap (λ q. watch_idle idle q.0 now (watch_gap gap_wait q.0 now q.1))
        (poll_all-arrived d p r e) in
    (
      ap (λ q. q.0) here ∙ i.1,
      ap (λ q. q.1.sequencer) here ∙ i.0.sequencer ∙ g.sequencer,
      ap (λ q. q.1.calls) here ∙ i.0.calls ∙ g.calls,
      ap (λ q. q.1.malformed) here ∙ i.0.malformed ∙ g.malformed,
    )

-- What is left of a loop that starts at the number n with the messages ms to come.
pub record Complete (n : ℕ) (ms : List (List ℕ)) (r r' : Receiver) : Type 0 where
  pub calls : r'.calls ≡ r.calls ++ number_from n ms
  pub ended : r'.sequencer.ended ≡ true
  pub lost : r'.sequencer.stats.lost ≡ 0
  pub malformed : r'.malformed ≡ r.malformed

number_from-append :
    (n : ℕ) (ms rest : List (List ℕ))
    → number_from n (ms ++ rest) ≡ number_from n ms ++ number_from (n + length ms) rest
number_from-append n [] rest = ap (λ k. number_from k rest) {x = n} (omega arith)
number_from-append n (m ∷ ms) rest = ap (◌∷◌ (u64 n, m)) (
    number_from-append (n + 1) ms rest
    ∙ ap (λ k. number_from (n + 1) ms ++ number_from k rest) {x = n + 1 + length ms} (omega arith))

-- The loop when its round has not ended it.
loop-ended :
    (gap_wait idle : ℕ) (rounds : List (List (Option (List ℕ)) × ℕ)) (r : Receiver)
    → r.sequencer.ended ≡ true
    → receive_loop gap_wait idle rounds r ≡ r
unfolding receive_loop
loop-ended gap_wait idle [] r e = refl
loop-ended gap_wait idle ((ds, now) ∷ rounds) r e =
    let next = round gap_wait idle ds now r in
    let rest : Receiver = receive_loop gap_wait idle rounds next.1 in
    ap (λ b. if b then r else if next.0 then next.1 else rest) e

loop-round :
    (gap_wait idle now : ℕ) (ds : List (Option (List ℕ)))
    (rounds : List (List (Option (List ℕ)) × ℕ)) (r : Receiver)
    → r.sequencer.ended ≡ false
    → (round gap_wait idle ds now r).0 ≡ false
    → receive_loop gap_wait idle ((ds, now) ∷ rounds) r
      ≡ receive_loop gap_wait idle rounds (round gap_wait idle ds now r).1
unfolding receive_loop
loop-round gap_wait idle now ds rounds r e f =
    let next = round gap_wait idle ds now r in
    let rest : Receiver = receive_loop gap_wait idle rounds next.1 in
    ap (λ b. if b then r else if next.0 then next.1 else rest) e
    ∙ ap (λ b. if b then next.1 else rest) f

-- A receiver in whose state the session's next number is n, and to which the datagrams of the rest
-- of the session come in order, whatever the times and the waits are.
pub receive_loop-Complete :
    {name : List ℕ} {n : ℕ} {ms ds : List (List ℕ)} (gap_wait idle : ℕ) (clock : ℕ → ℕ)
    (r : Receiver)
    → Stream name n ms ds
    → InOrder name n r.sequencer
    → Complete n ms r (receive_loop gap_wait idle (one_by_one ds clock) r)
receive_loop-Complete {name} {n} gap_wait idle clock r
      (carries {ms = ms} {rest = rest} {ds = ds} {d = d} {p = p} e c st) v =
    let s = round-Same gap_wait idle (clock 0) d p r e in
    let got = on_packet-Delivered name n ms p r.sequencer c v in
    let r1 = (round gap_wait idle (some d ∷ []) (clock 0) r).1 in
    let later =
      receive_loop-Complete gap_wait idle (λ i. clock (suc i)) r1 st
        (subst (InOrder name (n + length ms)) (sym s.1) got.state) in
    rw
      (loop-round gap_wait idle (clock 0) (some d ∷ []) (one_by_one ds (λ i. clock (suc i))) r
        v.ended s.0)
      (record {
        calls =
            later.calls
            ∙ ap (λ cs. cs ++ number_from (n + length ms) rest) (s.2 ∙ ap (◌++◌ r.calls) got.out)
            ∙ append_assoc r.calls (number_from n ms) (number_from (n + length ms) rest)
            ∙ ap (◌++◌ r.calls) (sym (number_from-append n ms rest));
        ended = later.ended;
        lost = later.lost;
        malformed = later.malformed ∙ s.3;
      })
receive_loop-Complete {name} {n} gap_wait idle clock r (ends {ds = ds} {d = d} {p = p} e c h) v =
    let s = round-Same gap_wait idle (clock 0) d p r e in
    let got = on_packet-Ended name n p r.sequencer c v h in
    let r1 = (round gap_wait idle (some d ∷ []) (clock 0) r).1 in
    let over : r1.sequencer.ended ≡ true = ap (λ q. q.ended) s.1 ∙ got.ended in
    rw
      (
        loop-round gap_wait idle (clock 0) (some d ∷ []) (one_by_one ds (λ i. clock (suc i))) r
            v.ended s.0,
        loop-ended gap_wait idle (one_by_one ds (λ i. clock (suc i))) r1 over,
      )
      (record {
        calls = s.2 ∙ ap (◌++◌ r.calls) got.out;
        ended = over;
        lost = ap (λ q. q.stats.lost) s.1 ∙ got.lost;
        malformed = s.3;
      })
