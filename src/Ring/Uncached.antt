-- ===== src/Ring/Uncached.antt =====
-- The queues of bench/RingVariants.hpp without cached indices against the one of include/RingBuffer.hpp.
use mini_hft.Base.{ℕ, ◌≤◌, ◌≡◌, refl, inl, inr, length, arith}
use mini_hft.Base.Mask.{pow2_le_63, bit_and-u64}
use mini_hft.Ring.{Ring, claim, publish, peek, consume}
use mini_hft.Ring.Protocol.{Link, Reach}
use mini_hft.Ring.Inv.{Inv, Reach-Good, claim_cases, peek_cases, sub64-u64, u64_injective}
use mini_hft.Ring.FetchAdd
use mini_hft.Ring.StoreOnly

-- The shared members of a queue.
abbrev pub fetch_add_of : {A : Type 0} → Ring A → FetchAdd.RingV0FetchAdd A
fetch_add_of r = record { head = r.head; tail = r.tail; buffer = r.buffer }

abbrev pub store_of : {A : Type 0} → Ring A → StoreOnly.RingV1Store A
store_of r = record { head = r.head; tail = r.tail; buffer = r.buffer }

module _ {A : Type 0} {k : ℕ} {d : A} {s : Link A} {ct ch : ℕ} (v : Inv k d s ct ch) where
  claim-claim : FetchAdd.claim k (fetch_add_of s.ring) ≡ (claim k s.ring).0
  unfolding FetchAdd.claim
  claim-claim = ground (
    arith,
    sub64-u64 (length s.published) (length s.consumed) (omega (arith, v.tail_le, v.head_seen))
        (omega (arith, v.bounded, v.tail_seen, pow2_le_63 k v.small)),
    bit_and-u64 k (length s.published) (omega (arith, v.small)),
    claim_cases v,
    v.head_counts,
    v.tail_counts,
  )

  peek-peek : FetchAdd.peek k (fetch_add_of s.ring) ≡ (peek k s.ring).0
  unfolding FetchAdd.peek
  peek-peek = ground (
    arith,
    u64_injective (length s.published) (length s.consumed) (omega (arith, v.tail_le, v.head_seen))
        (omega (arith, v.bounded, v.tail_seen, pow2_le_63 k v.small)),
    bit_and-u64 k (length s.consumed) (omega (arith, v.small)),
    peek_cases v,
    v.head_counts,
    v.tail_counts,
  )

  shared-claim :
      (fetch_add_of (claim k s.ring).1 ≡ fetch_add_of s.ring)
      × (store_of (claim k s.ring).1 ≡ store_of s.ring)
  shared-claim = elim (claim_cases v) [
    | inl (e, room) ↦ rw e (refl, refl)
    | inr (inl (e, room)) ↦ rw e (refl, refl)
    | inr (inr (e, room)) ↦ rw e (refl, refl)
  ]

  shared-peek :
      (fetch_add_of (peek k s.ring).1 ≡ fetch_add_of s.ring)
      × (store_of (peek k s.ring).1 ≡ store_of s.ring)
  shared-peek = elim (peek_cases v) [
    | inl (e, room) ↦ rw e (refl, refl)
    | inr (inl (e, room)) ↦ rw e (refl, refl)
    | inr (inr (e, room)) ↦ rw e (refl, refl)
  ]

-- In any reachable state of the queue, `claim` and `peek` of RingV0FetchAdd and of RingV1Store on the
-- same shared members return the slot that the cached queue returns, or nullptr if it does; the
-- cached queue's `claim` and `peek` leave these members as they are, and `publish` and `consume`
-- change them in the three queues alike.
pub Reach-uncached :
    {A : Type 0} {k : ℕ} {d : A} {s : Link A}
    → k ≤ 63
    → Reach k d s
    → let r : Ring A = s.ring in
      (FetchAdd.claim k (fetch_add_of r) ≡ (claim k r).0)
      × (FetchAdd.peek k (fetch_add_of r) ≡ (peek k r).0)
      × (StoreOnly.claim k (store_of r) ≡ (claim k r).0)
      × (StoreOnly.peek k (store_of r) ≡ (peek k r).0)
      × (fetch_add_of (claim k r).1 ≡ fetch_add_of r)
      × (fetch_add_of (peek k r).1 ≡ fetch_add_of r)
      × (store_of (claim k r).1 ≡ store_of r)
      × (store_of (peek k r).1 ≡ store_of r)
      × (FetchAdd.publish (fetch_add_of r) ≡ fetch_add_of (publish r))
      × (FetchAdd.consume (fetch_add_of r) ≡ fetch_add_of (consume r))
      × (StoreOnly.publish (store_of r) ≡ store_of (publish r))
      × (StoreOnly.consume (store_of r) ≡ store_of (consume r))
unfolding FetchAdd.claim FetchAdd.peek StoreOnly.claim StoreOnly.peek FetchAdd.publish
    FetchAdd.consume StoreOnly.publish StoreOnly.consume publish consume
Reach-uncached {s = s} h r =
    let (ct, ch, v) = Reach-Good h r in
    let (c0, c1) = shared-claim v in
    let (p0, p1) = shared-peek v in
    (claim-claim v, peek-peek v, claim-claim v, peek-peek v, c0, p0, c1, p1, refl, refl, refl, refl)
