-- ===== src/Feed/GapsClosed.antt =====
-- The loop of src/mold_recv.cpp that gives up the gaps left at the end.
use mini_hft.Base.{
  ℕ, zero, suc, ◌≤◌, ◌<◌, ◌≡◌, refl, ap, ◌∙◌, inl, inr, ◌⊎◌, false, List, [], ◌∷◌, length, ltb, leb,
  ◌&&◌, not, if◌then◌else◌, Bool-cases, le→ltb, le→leb, arith,
}
use mini_hft.Mold.Packet.{Call}
use mini_hft.Mold.Sequencer.{
  Sequencer, Held, count_duplicates, count_delivered, deliver_calls, deliver_new, drain_from,
  drain_held, finish_if_ended, gap_open, gap_target, skip_gap, give_up_gap,
}
use mini_hft.Feed.Receive.{Receiver, take_in, give_up_all}

deliver_calls-held : (calls : List Call) (s : Sequencer) → (deliver_calls calls s).0.held ≡ s.held
unfolding deliver_calls
deliver_calls-held [] s = refl
deliver_calls-held ((seq, message) ∷ calls) s = elim (Bool-cases (ltb seq s.next)) [
  | inl y ↦ rw y (deliver_calls-held calls (count_duplicates 1 s))
  | inr n ↦ rw n (deliver_calls-held calls (count_delivered s))
]

drain_from-length :
    (hs : List Held) (s : Sequencer) → s.held ≡ hs → length (drain_from hs s).0.held ≤ length hs
unfolding drain_from deliver_new
drain_from-length [] s e = omega (arith, ap length e)
drain_from-length (h ∷ hs) s e =
    let s' : Sequencer = record s { held = hs } in
    let kept : (deliver_new h.sequence h.blocks h.count s').0.held ≡ hs = deliver_calls-held _ s' in
    let rest = drain_from-length hs (deliver_new h.sequence h.blocks h.count s').0 kept in
    elim (Bool-cases (leb h.sequence s.next)) [
      | inl y ↦ rw y (omega (arith, rest))
      | inr n ↦ rw n (omega (arith, ap length e))
    ]

-- A packet that is due is taken off.
drain_from-due :
    (h : Held) (hs : List Held) (s : Sequencer)
    → h.sequence ≤ s.next
    → length (drain_from (h ∷ hs) s).0.held ≤ length hs
unfolding drain_from deliver_new
drain_from-due h hs s due =
    let s' : Sequencer = record s { held = hs } in
    let kept : (deliver_new h.sequence h.blocks h.count s').0.held ≡ hs = deliver_calls-held _ s' in
    rw (le→leb h.sequence s.next due)
      (drain_from-length hs (deliver_new h.sequence h.blocks h.count s').0 kept)

finish-held : (s : Sequencer) → (finish_if_ended s).held ≡ s.held
unfolding finish_if_ended
finish-held s = elim (Bool-cases (s.end_seen && not (gap_open s))) [
  | inl y ↦ rw y refl
  | inr n ↦ rw n refl
]

finish-gap_open : (s : Sequencer) → gap_open (finish_if_ended s) ≡ gap_open s
unfolding finish_if_ended gap_open
finish-gap_open s = elim (Bool-cases (s.end_seen && not (gap_open s))) [
  | inl y ↦ rw y refl
  | inr n ↦ rw n refl
]

skip_gap-reached :
    (s : Sequencer)
    → (gap_target s ≤ (skip_gap s).next)
      × ((skip_gap s).held ≡ s.held)
      × ((skip_gap s).known ≡ s.known)
unfolding skip_gap
skip_gap-reached s = ground arith

-- What a call of `giveUpGap` leaves: fewer held packets, or no gap.
give_up_gap-smaller :
    (hs : List Held) (s : Sequencer)
    → s.held ≡ hs
    → (length (give_up_gap s).0.held < length hs) ⊎ (gap_open (give_up_gap s).0 ≡ false)
unfolding give_up_gap drain_held drain_from gap_target gap_open
give_up_gap-smaller [] s e =
    let (reached, held, known) = skip_gap-reached s in
    let t = skip_gap s in
    let target : gap_target s ≡ s.known =
      ap (λ l. elim l as (λ x. ℕ) [ [] ↦ s.known | h ∷ _ ↦ h.sequence ]) e in
    let drained : drain_held t ≡ (t, []) = ap (λ l. drain_from l t) (held ∙ e) in
    inr (
      finish-gap_open (drain_held t).0
      ∙ ap (λ r. gap_open r.0) drained
      ∙ le→ltb t.next t.known (omega (arith, reached, known, target)))
give_up_gap-smaller (h ∷ hs) s e =
    let (reached, held, known) = skip_gap-reached s in
    let t = skip_gap s in
    let target : gap_target s ≡ h.sequence =
      ap (λ l. elim l as (λ x. ℕ) [ [] ↦ s.known | x ∷ _ ↦ x.sequence ]) e in
    let drained : drain_held t ≡ drain_from (h ∷ hs) t = ap (λ l. drain_from l t) (held ∙ e) in
    inl (
      omega (
        arith,
        ap length (finish-held (drain_held t).0),
        ap (λ r. length r.0.held) drained,
        drain_from-due h hs t (omega (arith, reached, target)),
      ))

give_up_all-closed :
    (fuel : ℕ) (r : Receiver)
    → (length r.sequencer.held < fuel) ⊎ (gap_open r.sequencer ≡ false)
    → gap_open (give_up_all fuel r).sequencer ≡ false
unfolding give_up_all take_in
give_up_all-closed zero r (inl h) = absurd (omega arith)
give_up_all-closed zero r (inr h) = h
give_up_all-closed (suc fuel) r h = elim (Bool-cases (gap_open r.sequencer)) [
  | inr none_open ↦
      ap
        (λ b.
          gap_open
            (if b then give_up_all fuel (take_in (give_up_gap r.sequencer) r) else r).sequencer)
        none_open
      ∙ none_open
  | inl one_open ↦
      let more =
        elim (give_up_gap-smaller r.sequencer.held r.sequencer refl)
          as (λ x.
            (length (give_up_gap r.sequencer).0.held < fuel)
            ⊎ (gap_open (give_up_gap r.sequencer).0 ≡ false)) [
              | inl fewer ↦ inl (elim h [ inl l ↦ omega (arith, fewer, l) | inr c ↦ absurd (cc) ])
              | inr closed ↦ inr closed
            ] in
      ap
        (λ b.
          gap_open
            (if b then give_up_all fuel (take_in (give_up_gap r.sequencer) r) else r).sequencer)
        one_open
      ∙ give_up_all-closed fuel (take_in (give_up_gap r.sequencer) r) more
]

-- However the loop that receives has ended, one round more than there are held packets is enough for
-- the loop behind it: then no gap is open, so that it ends.
pub give_up_all-ends :
    (r : Receiver) → gap_open (give_up_all (suc (length r.sequencer.held)) r).sequencer ≡ false
give_up_all-ends r = give_up_all-closed (suc (length r.sequencer.held)) r (inl (omega arith))
