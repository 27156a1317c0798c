-- ===== src/Mold/Sequencer/Hold.antt =====
-- `hold` of include/MoldUdp64.hpp: a packet beyond a gap is kept in its place.
use mini_hft.Base.{
  ℕ, suc, ◌+◌, ◌^◌, ◌≤◌, ◌<◌, Option, none, some, List, [], ◌∷◌, All, arith, ltb, leb, ltb→lt,
  ltb→le, Bool-cases, inl, inr, ◌&&◌, ◌==◌,
}
use mini_hft.Base.Words.{u64}
use mini_hft.Mold.Packet.{Packet, messages}
use mini_hft.Mold.Sequencer.{Sequencer, Stats, Held, insert_held, hold, count_duplicates}
use mini_hft.Mold.Sequencer.Drain.{HeldOk, Sorted, Inv}
use mini_hft.Mold.Sequencer.Ledger.{Steps}

-- What `hold` inserts into, if it inserts.
abbrev Holds : (List Held → Type 0) → Option (List Held) → Type 0
Holds Q none = Unit
Holds Q (some out) = Q out

Holds-cons :
    (Q R : List Held → Type 0) (x : Held) (o : Option (List Held))
    → ((out : List Held) → Q out → R (x ∷ out))
    → Holds Q o
    → Holds R (elim o [ none ↦ none | some ys ↦ some (x ∷ ys) ])
Holds-cons Q R x none f v = tt
Holds-cons Q R x (some out) f v = f out v

pub insert_held-All :
    (P : Held → Type 0) (h : Held) (hs : List Held)
    → P h
    → All P hs
    → Holds (All P) (insert_held h hs)
unfolding insert_held
insert_held-All P h [] ph ok = (ph, tt)
insert_held-All P h (x ∷ hs) ph ok = elim (Bool-cases (ltb x.sequence h.sequence)) [
  | inl later ↦ rw later (
      Holds-cons (All P) (All P) x (insert_held h hs) (λ out v. (ok.0, v))
        (insert_held-All P h hs ph ok.1))
  | inr here ↦ rw here (elim (Bool-cases (x.sequence == h.sequence && leb h.count x.count)) [
    | inl old ↦ rw old tt
    | inr new ↦ rw new (ph, ok)
  ])
]

pub insert_held-Sorted :
    (m : ℕ) (h : Held) (hs : List Held)
    → m ≤ h.sequence
    → Sorted m hs
    → Holds (Sorted m) (insert_held h hs)
unfolding insert_held
insert_held-Sorted m h [] le v = (le, tt)
insert_held-Sorted m h (x ∷ hs) le v = elim (Bool-cases (ltb x.sequence h.sequence)) [
  | inl later ↦ rw later (
      Holds-cons (Sorted x.sequence) (Sorted m) x (insert_held h hs) (λ out w. (v.0, w))
        (insert_held-Sorted x.sequence h hs (omega (arith, ltb→lt x.sequence h.sequence later))
          v.1))
  | inr here ↦ rw here (elim (Bool-cases (x.sequence == h.sequence && leb h.count x.count)) [
    | inl old ↦ rw old tt
    | inr new ↦ rw new (le, (ltb→le x.sequence h.sequence here, v.1))
  ])
]

hold_result :
    (count : ℕ) (s : Sequencer) (o : Option (List Held))
    → Inv s
    → Holds (All (HeldOk s.known)) o
    → Holds (Sorted (suc s.next)) o
    → Steps s
        ((elim o [ none ↦ count_duplicates count s | some held ↦ record s { held = held } ]), [])
        0
hold_result count s none v ok sorted = record {
  inv = record {
    words = omega arith;
    known_word = v.known_word;
    held_ok = v.held_ok;
    sorted = v.sorted;
  };
  account = omega arith;
}
hold_result count s (some held) v ok sorted = record {
  inv = record { words = omega arith; known_word = v.known_word; held_ok = ok; sorted = sorted };
  account = omega arith;
}

-- `hold` keeps a packet beyond the next expected number in its place, and delivers nothing.
pub hold-Steps :
    (p : Packet) (s : Sequencer)
    → Inv s
    → p.sequence + messages p < 2 ^ 64
    → p.sequence + messages p ≤ s.known
    → s.next < p.sequence
    → Steps s (hold p s, []) 0
unfolding hold
hold-Steps p s v h le beyond =
    let t : Stats = s.stats in
    let counted : Sequencer = record s {
      stats = record t { held_packets = u64 (t.held_packets + 1) };
    } in
    let x : Held = record { sequence = p.sequence; count = p.count; blocks = p.blocks } in
    let w : Inv counted = record {
      words = omega arith;
      known_word = v.known_word;
      held_ok = v.held_ok;
      sorted = v.sorted;
    } in
    let r : Steps counted (hold p s, []) 0 =
      hold_result p.count counted (insert_held x s.held) w
        (insert_held-All (HeldOk s.known) x s.held (h, le) v.held_ok)
        (insert_held-Sorted (suc s.next) x s.held beyond v.sorted) in
    record { inv = r.inv; account = omega (arith, r.account) }
