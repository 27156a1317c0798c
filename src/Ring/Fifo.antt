-- ===== src/Ring/Fifo.antt =====
-- What a client of include/RingBuffer.hpp may rely on, whatever the interleaving.
use mini_hft.Base.{
  ℕ, ◌+◌, ◌-◌, ◌≤◌, ◌<◌, ◌≡◌, ◌≢◌, sym, ◌↔◌, none, some, List, [], ◌∷◌, ◌++◌, length, get_or, arith,
  append_assoc, ◌∙◌,
}
use mini_hft.Base.Mask.{pow2, pow2_pos, mod-ne}
use mini_hft.Ring.{claim, peek}
use mini_hft.Ring.Protocol.{Link, Reach}
use mini_hft.Ring.Window.{window, length-window, Split-consume}
use mini_hft.Ring.Inv.{Reach-Good, claim_cases, peek_cases}
use native.Mathlib.Nat.{mod-lt}

-- Under any interleaving of the two threads on a queue of 2^k slots, k at most 63, the values
-- consumed so far are an initial part of the values published, in order, and at most 2^k values
-- are waiting.
pub Reach-fifo :
    {A : Type 0} {k : ℕ} {d : A} {s : Link A}
    → k ≤ 63
    → Reach k d s
    → (waiting : List A) × (s.published ≡ s.consumed ++ waiting) × (length waiting ≤ pow2 k)
Reach-fifo {k = k} {d = d} {s = s} h r =
    let (ct, ch, v) = Reach-Good h r in
    let t = length s.consumed in
    let n = length s.published - t in
    (
      window (pow2 k) d s.ring.buffer t n,
      v.fifo,
      omega (arith, length-window (pow2 k) d s.ring.buffer t n, v.bounded, v.tail_seen),
    )

-- In a reachable state `claim` returns nullptr exactly when 2^k published values have not been
-- consumed, and `peek` returns nullptr exactly when all have been.
pub Reach-full_empty :
    {A : Type 0} {k : ℕ} {d : A} {s : Link A}
    → k ≤ 63
    → Reach k d s
    → (((claim k s.ring).0 ≡ none) ↔ (length s.published ≡ length s.consumed + pow2 k))
      × (((peek k s.ring).0 ≡ none) ↔ (length s.published ≡ length s.consumed))
Reach-full_empty h r =
    let (ct, ch, v) = Reach-Good h r in
    ground (arith, v.tail_seen, v.tail_le, v.head_seen, claim_cases v, peek_cases v)

-- In a reachable state the slot that the producer holds lies in the buffer, the slot that the
-- consumer holds lies in the buffer, and they are never the same slot.
pub Reach-exclusion :
    {A : Type 0} {k : ℕ} {d : A} {s : Link A} {i j : ℕ}
    → k ≤ 63
    → Reach k d s
    → s.claimed ≡ some i
    → s.peeked ≡ some j
    → (i < length s.ring.buffer) × (j < length s.ring.buffer) × (i ≢ j)
Reach-exclusion {k = k} {s = s} {i = i} {j = j} h r p q =
    let (ct, ch, v) = Reach-Good h r in
    let (at, room) = v.claim_fits i p in
    let (from, left) = v.peek_fits j q in
    let hs = length s.published in
    let ts = length s.consumed in
    (
      omega (arith, at, v.storage, mod-lt hs {m = pow2 k} (pow2_pos k)),
      omega (arith, from, v.storage, mod-lt ts {m = pow2 k} (pow2_pos k)),
      λ e.
          mod-ne (pow2 k) ts hs (omega (arith, left, v.head_seen))
            (omega (arith, room, v.tail_seen)) (sym from ∙ (sym e ∙ at)),
    )

-- In a reachable state the slot that the consumer holds contains the oldest value not yet
-- consumed, at every moment until it calls `consume`.
pub Reach-oldest :
    {A : Type 0} {k : ℕ} {d : A} {s : Link A} {i : ℕ}
    → k ≤ 63
    → Reach k d s
    → s.peeked ≡ some i
    → (rest : List A) × (s.published ≡ s.consumed ++ (get_or s.ring.buffer i d ∷ rest))
Reach-oldest {k = k} {d = d} {s = s} {i = i} h r p =
    let (ct, ch, v) = Reach-Good h r in
    let (from, left) = v.peek_fits i p in
    let got = get_or s.ring.buffer i d in
    let outs = s.consumed ++ got ∷ [] in
    let rest = window (pow2 k) d s.ring.buffer (length outs) (length s.published - length outs) in
    let split : s.published ≡ (s.consumed ++ got ∷ []) ++ rest = rw from (
      Split-consume (pow2 k) d s.ring.buffer s.published s.consumed
        (omega (arith, left, v.head_seen)) v.fifo) in
    (rest, split ∙ append_assoc s.consumed (got ∷ []) rest)
