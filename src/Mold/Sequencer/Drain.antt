-- ===== src/Mold/Sequencer/Drain.antt =====
-- The invariant of `Sequencer` in include/MoldUdp64.hpp, and `drainHeld`.
use mini_hft.Base.{
  ℕ, suc, ◌+◌, ◌^◌, ◌≤◌, ◌<◌, ◌≡◌, refl, sym, ◌∙◌, subst, List, [], ◌∷◌, ◌++◌, All, arith, leb,
  leb→le, leb→lt, Bool-cases, inl, inr,
}
use mini_hft.Mold.Packet.{Call, messages_in}
use mini_hft.Mold.Sequencer.{Sequencer, Held, deliver_new, drain_from, drain_held}
use mini_hft.Mold.Sequencer.Order.{
  Account, HasWords, Account-trans, Account-HasWords, Delivery, deliver_new-Delivery,
}

-- A held packet's numbers do not wrap, and have been announced.
abbrev pub HeldOk : ℕ → Held → Type 0
HeldOk known h =
    (h.sequence + messages_in h.count < 2 ^ 64) × (h.sequence + messages_in h.count ≤ known)

-- The sequence numbers of held packets rise, from m at least.
abbrev pub Sorted : ℕ → List Held → Type 0
Sorted m [] = Unit
Sorted m (h ∷ hs) = (m ≤ h.sequence) × Sorted h.sequence hs

-- Every held packet starts beyond the next expected number, and they are in order.
pub record Inv (s : Sequencer) : Type 0 where
  pub words : HasWords s
  pub known_word : s.known < 2 ^ 64
  pub held_ok : All (HeldOk s.known) s.held
  pub sorted : Sorted (suc s.next) s.held

pub Sorted-lower : (m n : ℕ) (hs : List Held) → n ≤ m → Sorted m hs → Sorted n hs
Sorted-lower m n [] h v = tt
Sorted-lower m n (x ∷ hs) h v = (omega arith, v.1)

pub HeldOk-mono : (k l : ℕ) (hs : List Held) → k ≤ l → All (HeldOk k) hs → All (HeldOk l) hs
HeldOk-mono k l [] h v = tt
HeldOk-mono k l (x ∷ hs) h v = ((v.0.0, omega arith), HeldOk-mono k l hs h v.1)

pub Account-refl : (s : Sequencer) → HasWords s → Account s s [] 0
Account-refl s w = omega arith

-- The state after draining: nothing held can be delivered.
pub record Drained (s : Sequencer) (r : Sequencer × List Call) : Type 0 where
  pub account : Account s r.0 r.1 0
  pub same_known : r.0.known ≡ s.known
  pub held_ok : All (HeldOk s.known) r.0.held
  pub sorted : Sorted (suc r.0.next) r.0.held

pub Drained-Inv :
    {s : Sequencer} {r : Sequencer × List Call} → s.known < 2 ^ 64 → Drained s r → Inv r.0
Drained-Inv {s} {r} h d = record {
  words = Account-HasWords d.account;
  known_word = omega (arith, d.same_known);
  held_ok = rw d.same_known d.held_ok;
  sorted = d.sorted;
}

-- One packet delivered, then the rest drained.
pub Drained-trans :
    {s t : Sequencer} {r : Sequencer × List Call} (out : List Call)
    → Account s t out 0
    → t.known ≡ s.known
    → Drained t r
    → Drained s (r.0, out ++ r.1)
Drained-trans {s} {t} {r} out a k d = record {
  account = Account-trans out r.1 a d.account;
  same_known = d.same_known ∙ k;
  held_ok = subst (λ n. All (HeldOk n) r.0.held) k d.held_ok;
  sorted = d.sorted;
}

-- Taking the first held packet off the list changes no counter.
pub Account-unheld :
    {s t : Sequencer} {rest : List Held} {out : List Call} {gap : ℕ}
    → Account (record s { held = rest }) t out gap
    → Account s t out gap
Account-unheld a = record {
  ascends = a.ascends;
  total = a.total;
  fits = a.fits;
  delivered = a.delivered;
  lost = a.lost;
  known = a.known;
  max_held = a.max_held;
}

drain_from-Drained :
    (hs : List Held) (s : Sequencer)
    → s.held ≡ hs
    → HasWords s
    → All (HeldOk s.known) hs
    → Sorted 0 hs
    → Drained s (drain_from hs s)
unfolding drain_from
drain_from-Drained [] s e w ok v = record {
  account = Account-refl s w;
  same_known = refl;
  held_ok = rw e tt;
  sorted = rw e tt;
}
drain_from-Drained (h ∷ rest) s e w ok v = elim (Bool-cases (leb h.sequence s.next)) [
  | inl due ↦
      let s' : Sequencer = record s { held = rest } in
      let w' : HasWords s' = omega arith in
      let d : Delivery s' (h.sequence + messages_in h.count)
          (deliver_new h.sequence h.blocks h.count s') =
        deliver_new-Delivery h.sequence h.blocks h.count s' ok.0.0 (leb→le h.sequence s.next due)
          w' in
      rw due (
        Drained-trans (deliver_new h.sequence h.blocks h.count s').1 (Account-unheld d.account)
          d.same_known
          (drain_from-Drained rest (deliver_new h.sequence h.blocks h.count s').0 d.waiting
            (Account-HasWords d.account) (subst (λ n. All (HeldOk n) rest) (sym d.same_known) ok.1)
            (Sorted-lower h.sequence 0 rest (omega arith) v.1)))
  | inr beyond ↦ rw beyond (record {
    account = Account-refl s w;
    same_known = refl;
    held_ok = rw e ok;
    sorted = rw e (leb→lt h.sequence s.next beyond, v.1);
  })
]

pub drain_held-Drained :
    (s : Sequencer)
    → HasWords s
    → All (HeldOk s.known) s.held
    → Sorted 0 s.held
    → Drained s (drain_held s)
unfolding drain_held
drain_held-Drained s w ok v = drain_from-Drained s.held s refl w ok v
