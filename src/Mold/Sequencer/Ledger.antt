-- ===== src/Mold/Sequencer/Ledger.antt =====
-- The parts of `Sequencer` in include/MoldUdp64.hpp keep its invariant and account for the numbers.
use mini_hft.Base.{
  ℕ, suc, ◌+◌, ◌-◌, ◌^◌, ◌≤◌, ◌<◌, ◌≡◌, refl, subst, true, List, [], ◌∷◌, ◌++◌, All, arith, ltb,
  ltb→lt, ltb→le, Bool-cases, inl, inr, ◌⊎◌, not, ◌&&◌,
}
use mini_hft.Mold.Packet.{Packet, Call, messages, messages_in}
use mini_hft.Mold.Sequencer.{
  Sequencer, Held, deliver_new, drain_held, finish_if_ended, gap_open, gap_target, skip_gap,
  give_up_gap, take_packet,
}
use mini_hft.Mold.Sequencer.Drain.{
  HeldOk, Inv, Sorted-lower, Drained, Drained-Inv, drain_held-Drained,
}
use mini_hft.Mold.Sequencer.Order.{
  Account, Account-trans, Account-HasWords, Delivery, deliver_new-Delivery,
}

-- `finishIfEnded` changes the flag only.
finish_cases :
    (P : Sequencer → Type 0) (s : Sequencer)
    → P (record s { ended = true })
    → P s
    → P (finish_if_ended s)
unfolding finish_if_ended
finish_cases P s a b = elim (Bool-cases (s.end_seen && not (gap_open s))) [
  | inl e ↦ rw e a
  | inr e ↦ rw e b
]

finish-Inv : (s : Sequencer) → Inv s → Inv (finish_if_ended s)
finish-Inv s v =
    finish_cases Inv s
      (record {
        words = omega arith;
        known_word = v.known_word;
        held_ok = v.held_ok;
        sorted = v.sorted;
      })
      v

finish-Account :
    {s : Sequencer} (t : Sequencer) {out : List Call} {gap : ℕ}
    → Account s t out gap
    → Account s (finish_if_ended t) out gap
finish-Account {s} t {out} {gap} a =
    finish_cases (λ u. Account s u out gap) t
      (record {
        ascends = a.ascends;
        total = a.total;
        fits = a.fits;
        delivered = a.delivered;
        lost = a.lost;
        known = a.known;
        max_held = a.max_held;
      })
      a

-- What a step leaves: a good state, and an account of the numbers in between.
pub record Steps (s : Sequencer) (r : Sequencer × List Call) (gap : ℕ) : Type 0 where
  pub inv : Inv r.0
  pub account : Account s r.0 r.1 gap

pub finish-Steps :
    {s : Sequencer} (r : Sequencer × List Call) {gap : ℕ}
    → Steps s r gap
    → Steps s (finish_if_ended r.0, r.1) gap
finish-Steps r v = record { inv = finish-Inv r.0 v.inv; account = finish-Account r.0 v.account }

next-finish : (s : Sequencer) → (finish_if_ended s).next ≡ s.next
next-finish s = finish_cases (λ t. t.next ≡ s.next) s refl refl

gap_target-fits : (s : Sequencer) → Inv s → gap_target s < 2 ^ 64
unfolding gap_target
gap_target-fits s v = go s.held v.held_ok
  where
    go :
        (hs : List Held)
        → All (HeldOk s.known) hs
        → elim hs [ [] ↦ s.known | h ∷ _ ↦ h.sequence ] < 2 ^ 64
    go [] ok = v.known_word
    go (h ∷ hs) ok = omega (arith, ok.0.0)

-- Skipping a gap loses exactly the numbers up to its end.
skip_gap-Account : (s : Sequencer) → Inv s → Account s (skip_gap s) [] (gap_target s - s.next)
unfolding skip_gap
skip_gap-Account s v = elim (Bool-cases (ltb s.next (gap_target s))) [
  | inl up ↦ rw up (omega (arith, ltb→lt s.next (gap_target s) up, gap_target-fits s v))
  | inr level ↦ rw level (omega (arith, ltb→le s.next (gap_target s) level))
]

skip_gap-held : (s : Sequencer) → ((skip_gap s).held ≡ s.held) × ((skip_gap s).known ≡ s.known)
unfolding skip_gap
skip_gap-held s = ground arith

Drained-Steps :
    {s : Sequencer} (t : Sequencer) (r : Sequencer × List Call) {gap : ℕ} (out : List Call)
    → t.known < 2 ^ 64
    → Account s t out gap
    → Drained t r
    → Steps s (finish_if_ended r.0, out ++ r.1) gap
Drained-Steps {s} t r {gap} out h a d =
    let same : gap + 0 ≡ gap = omega arith in
    finish-Steps (r.0, out ++ r.1)
      (record {
        inv = Drained-Inv h d;
        account = subst (Account s r.0 (out ++ r.1)) same (Account-trans out r.1 a d.account);
      })

-- `giveUpGap` keeps the invariant and accounts for what it skips.
pub give_up_gap-Steps : (s : Sequencer) → Inv s → Steps s (give_up_gap s) (gap_target s - s.next)
unfolding give_up_gap
give_up_gap-Steps s v =
    let sk = skip_gap s in
    let (same_held, same_known) = skip_gap-held s in
    let a : Account s (skip_gap s) [] (gap_target s - s.next) = skip_gap-Account s v in
    Drained-Steps (skip_gap s) (drain_held (skip_gap s)) [] (rw same_known v.known_word) a (
      drain_held-Drained (skip_gap s) (Account-HasWords a) (rw (same_held, same_known) v.held_ok)
        (rw same_held (Sorted-lower (suc s.next) 0 s.held (omega arith) v.sorted)))

-- A list of held packets in which one starts at n.
abbrev pub Starts : ℕ → List Held → Type 0
Starts n [] = ⊥
Starts n (h ∷ hs) = (h.sequence ≡ n) ⊎ Starts n hs

-- Where the oldest gap ends: no held packet starts before it, and it is the start of one, or, when none
-- is held, the end of what has been announced.
abbrev pub IsGapEnd : ℕ → Sequencer → Type 0
IsGapEnd end s =
    All (λ h. end ≤ h.sequence) s.held × (((s.held ≡ []) × (end ≡ s.known)) ⊎ Starts end s.held)

messages_in_idem : (count : ℕ) → messages_in (messages_in count) ≡ messages_in count
unfolding messages_in
messages_in_idem count = ground arith

-- `deliverNew`, `drainHeld` and `finishIfEnded` for a packet that is not beyond a gap.
pub take_packet-Steps :
    (p : Packet) (s : Sequencer)
    → Inv s
    → p.sequence + messages p < 2 ^ 64
    → p.sequence ≤ s.next
    → Steps s (take_packet p s) 0 × (p.sequence + messages p ≤ (take_packet p s).0.next)
unfolding take_packet
take_packet-Steps p s v h le =
    let r = deliver_new p.sequence p.blocks (messages p) s in
    let d : Delivery s (p.sequence + messages p) (deliver_new p.sequence p.blocks (messages p) s) =
      rw messages_in_idem at (
        deliver_new-Delivery p.sequence p.blocks (messages p) s (rw messages_in_idem h) le
          v.words) in
    let q : Drained (deliver_new p.sequence p.blocks (messages p) s).0
        (drain_held (deliver_new p.sequence p.blocks (messages p) s).0) =
      drain_held-Drained r.0 (Account-HasWords d.account) (rw (d.waiting, d.same_known) v.held_ok)
        (rw d.waiting (Sorted-lower (suc s.next) 0 s.held (omega arith) v.sorted)) in
    (
      Drained-Steps r.0 (drain_held r.0) r.1 (rw d.same_known v.known_word) d.account q,
      omega (arith, next-finish (drain_held r.0).0, q.account.total, d.reached),
    )
