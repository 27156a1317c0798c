-- ===== src/Mold/Sequencer/Order.antt =====
-- What one delivery of include/MoldUdp64.hpp does: which numbers go out, and what is counted.
use mini_hft.Base.{
  ℕ, zero, suc, ◌+◌, ◌^◌, ◌≤◌, ◌<◌, ◌≡◌, refl, ◌∙◌, List, [], ◌∷◌, ◌++◌, length, max, arith,
  length-append, ltb, ltb→lt, ltb→le, replicate, Bool-cases, inl, inr,
}
use mini_hft.Base.Words.{u64}
use mini_hft.Itch.Bytes.{be16}
use mini_hft.Mold.Packet.{Packet, Call, messages_in, for_each_message, calls_from}
use mini_hft.Mold.Sequencer.{
  Sequencer, deliver_calls, deliver_new, count_duplicates, count_delivered,
}

-- The calls are numbered n, n + 1, and so on up to m - 1.
abbrev pub Runs : ℕ → List Call → ℕ → Type 0
Runs n [] m = n ≡ m
Runs n ((seq, message) ∷ calls) m = (seq ≡ n) × Runs (suc n) calls m

-- The numbers of the calls rise, from n at least, and stay below m.
abbrev pub Ascends : ℕ → List Call → ℕ → Type 0
Ascends n [] m = n ≤ m
Ascends n ((seq, message) ∷ calls) m = (n ≤ seq) × Ascends (suc seq) calls m

pub Ascends-lower :
    (a b : ℕ) (calls : List Call) (m : ℕ) → a ≤ b → Ascends b calls m → Ascends a calls m
Ascends-lower a b [] m h r = omega arith
Ascends-lower a b ((seq, message) ∷ calls) m h r = (omega arith, r.1)

pub Ascends-append :
    (n : ℕ) (xs : List Call) (k : ℕ) (ys : List Call) (m : ℕ)
    → Ascends n xs k
    → Ascends k ys m
    → Ascends n (xs ++ ys) m
Ascends-append n [] k ys m h r = Ascends-lower n k ys m h r
Ascends-append n ((seq, message) ∷ xs) k ys m h r = (h.0, Ascends-append (suc seq) xs k ys m h.1 r)

-- Rising calls take up at least their number, and with nothing to spare they run.
pub Ascends-length : (n : ℕ) (calls : List Call) (m : ℕ) → Ascends n calls m → n + length calls ≤ m
Ascends-length n [] m h = omega arith
Ascends-length n ((seq, message) ∷ calls) m h = omega (arith, Ascends-length (suc seq) calls m h.1)

pub Ascends-Runs :
    (n : ℕ) (calls : List Call) (m : ℕ) → Ascends n calls m → m ≡ n + length calls → Runs n calls m
Ascends-Runs n [] m h e = omega arith
Ascends-Runs n ((seq, message) ∷ calls) m h e =
    let same : seq ≡ n = omega (arith, Ascends-length (suc seq) calls m h.1) in
    (same, Ascends-Runs (suc n) calls m (rw (← same) h.1) (omega arith))

-- From s to s' the calls `out` were made and `gap` numbers were given up: the numbers rise between
-- the two states' next expected numbers, and the counters account for all of that range.
pub record Account (s s' : Sequencer) (out : List Call) (gap : ℕ) : Type 0 where
  pub ascends : Ascends s.next out s'.next
  pub total : s'.next ≡ s.next + (length out + gap)
  pub fits : s'.next < 2 ^ 64
  pub delivered : s'.stats.delivered ≡ u64 (s.stats.delivered + length out)
  pub lost : s'.stats.lost ≡ u64 (s.stats.lost + gap)
  pub known : s.known ≤ s'.known
  pub max_held : s'.max_held ≡ s.max_held

-- The counters of a state are 64-bit words.
pub record HasWords (s : Sequencer) : Type 0 where
  pub next_word : s.next < 2 ^ 64
  pub delivered_word : s.stats.delivered < 2 ^ 64
  pub lost_word : s.stats.lost < 2 ^ 64

pub Account-HasWords :
    {s s' : Sequencer} {out : List Call} {gap : ℕ} → Account s s' out gap → HasWords s'
Account-HasWords a = omega arith

pub Account-trans :
    {s t u : Sequencer} (xs ys : List Call) {g h : ℕ}
    → Account s t xs g
    → Account t u ys h
    → Account s u (xs ++ ys) (g + h)
Account-trans {s} {t} {u} xs ys a b = record {
  ascends = Ascends-append s.next xs t.next ys u.next a.ascends b.ascends;
  total = omega (arith, a.total, b.total, length-append xs ys);
  fits = b.fits;
  delivered = omega (arith, a.delivered, b.delivered, length-append xs ys);
  lost = omega (arith, a.lost, b.lost);
  known = omega (arith, a.known, b.known);
  max_held = b.max_held ∙ a.max_held;
}

-- `forEachMessage` numbers its calls from the packet's sequence number, without wrapping.
calls_from-Runs :
    (rounds i offset : ℕ) (p : Packet)
    → p.sequence + i + rounds < 2 ^ 64
    → Runs (p.sequence + i) (calls_from rounds i offset p) (p.sequence + i + rounds)
unfolding calls_from
calls_from-Runs zero i offset p h = omega arith
calls_from-Runs (suc rounds) i offset p h =
    let at : p.sequence + (i + 1) ≡ suc (p.sequence + i) = omega arith in
    let end : p.sequence + (i + 1) + rounds ≡ p.sequence + i + suc rounds = omega arith in
    (
      omega arith,
      rw (← at, ← end)
          (calls_from-Runs rounds (i + 1) (offset + (2 + be16 p.blocks offset)) p (omega arith)),
    )

-- Calls numbered up to `end` were delivered to s: those from `next` on went out.
pub record Delivery (s : Sequencer) (end : ℕ) (r : Sequencer × List Call) : Type 0 where
  pub account : Account s r.0 r.1 0
  pub reached : r.0.next ≡ max s.next end
  pub waiting : r.0.held ≡ s.held
  pub same_known : r.0.known ≡ s.known

Delivery-drop :
    {s : Sequencer} {end : ℕ} {r : Sequencer × List Call}
    → Delivery (count_duplicates 1 s) end r
    → Delivery s end r
Delivery-drop v =
    let a = v.account in
    record {
      account = record {
        ascends = a.ascends;
        total = a.total;
        fits = a.fits;
        delivered = a.delivered;
        lost = a.lost;
        known = a.known;
        max_held = a.max_held;
      };
      reached = v.reached;
      waiting = v.waiting;
      same_known = v.same_known;
    }

Account-one :
    (s : Sequencer) (message : List ℕ)
    → s.next + 1 < 2 ^ 64
    → HasWords s
    → Account s (count_delivered s) ((s.next, message) ∷ []) 0
Account-one s message h w = omega arith

Delivery-one :
    {s : Sequencer} {end : ℕ} {r : Sequencer × List Call} (message : List ℕ)
    → s.next < end
    → end < 2 ^ 64
    → HasWords s
    → Delivery (count_delivered s) end r
    → Delivery s end (r.0, (s.next, message) ∷ r.1)
Delivery-one {s} {end} {r} message h fits w v = record {
  account =
      Account-trans ((s.next, message) ∷ []) r.1 (Account-one s message (omega arith) w) v.account;
  reached = omega (arith, v.reached);
  waiting = v.waiting;
  same_known = v.same_known;
}

Runs-le : (n : ℕ) (calls : List Call) (m : ℕ) → Runs n calls m → n ≤ m
Runs-le n [] m h = omega arith
Runs-le n ((seq, message) ∷ calls) m h = omega (arith, Runs-le (suc n) calls m h.1)

deliver_calls-Delivery :
    (calls : List Call) (first end : ℕ) (s : Sequencer)
    → Runs first calls end
    → end < 2 ^ 64
    → first ≤ s.next
    → HasWords s
    → Delivery s end (deliver_calls calls s)
unfolding deliver_calls
deliver_calls-Delivery [] first end s r h le w = record {
  account = omega arith;
  reached = omega arith;
  waiting = refl;
  same_known = refl;
}
deliver_calls-Delivery ((seq, message) ∷ calls) first end s r h le w =
    elim (Bool-cases (ltb seq s.next)) [
      | inl old ↦ rw old (
          Delivery-drop (
            deliver_calls-Delivery calls (suc first) end (count_duplicates 1 s) r.1 h
              (omega (arith, ltb→lt seq s.next old)) w'))
      | inr new ↦
          let at : seq ≡ s.next = omega (arith, ltb→le seq s.next new) in
          let more : s.next < end = omega (arith, Runs-le (suc first) calls end r.1) in
          rw (new, at)
            (Delivery-one message more h w (
              deliver_calls-Delivery calls (suc first) end (count_delivered s) r.1 h (omega arith)
                (omega arith)))
    ]
  where
    w' : HasWords (count_duplicates 1 s)
    w' = omega arith

-- A packet that starts no later than the next expected number, and whose numbers do not wrap.
pub deliver_new-Delivery :
    (sequence : ℕ) (blocks : List ℕ) (count : ℕ) (s : Sequencer)
    → sequence + messages_in count < 2 ^ 64
    → sequence ≤ s.next
    → HasWords s
    → Delivery s (sequence + messages_in count) (deliver_new sequence blocks count s)
unfolding deliver_new
deliver_new-Delivery sequence blocks count s h le w =
    let p : Packet = record {
      session = replicate 10 0;
      sequence = sequence;
      count = count;
      blocks = blocks;
    } in
    let first : sequence + 0 ≡ sequence = omega arith in
    let runs : Runs sequence (for_each_message p) (sequence + messages_in count) =
      rw first at (calls_from-Runs (messages_in count) 0 0 p (omega arith)) in
    deliver_calls-Delivery (for_each_message p) sequence (sequence + messages_in count) s runs h le
      w
