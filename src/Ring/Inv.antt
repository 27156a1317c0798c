-- ===== src/Ring/Inv.antt =====
-- The invariant of include/RingBuffer.hpp. The indices are the numbers of values published and
-- consumed, modulo 2^64, and each thread's copy of the other's index is an earlier value of it.
use mini_hft.Base.{
  ℕ, ◌+◌, ◌-◌, ◌%◌, ◌^◌, ◌≤◌, ◌<◌, ◌≡◌, ◌⊎◌, refl, none, some, [], ◌∷◌, ◌++◌, inl, inr, length,
  get_or, arith, length-set, length-replicate, length-append,
}
use mini_hft.Base.Words.{u64, sub64}
use mini_hft.Base.Mask.{pow2, pow2_le_63, bit_and-u64}
use mini_hft.Ring.Window.{window-set, Split, Split-publish, Split-consume}
use mini_hft.Ring.{claim, publish, peek, consume, write}
use mini_hft.Ring.Protocol.{
  Link, start, Step, Reach, here, next, claims, writes, publishes, peeks, consumes,
}

-- `seen_tail` and `seen_head` are the unbounded counts behind the two cached indices.
pub record Inv {A : Type 0} (k : ℕ) (d : A) (s : Link A) (seen_tail seen_head : ℕ) : Type 0 where
  pub small : k ≤ 63
  pub storage : length s.ring.buffer ≡ pow2 k
  pub head_counts : s.ring.head ≡ u64 (length s.published)
  pub tail_counts : s.ring.tail ≡ u64 (length s.consumed)
  pub cached_tail_counts : s.ring.cached_tail ≡ u64 seen_tail
  pub cached_head_counts : s.ring.cached_head ≡ u64 seen_head
  pub tail_seen : seen_tail ≤ length s.consumed
  pub tail_le : length s.consumed ≤ seen_head
  pub head_seen : seen_head ≤ length s.published
  pub bounded : length s.published ≤ seen_tail + pow2 k
  pub claim_fits :
      (i : ℕ)
      → s.claimed ≡ some i
      → (i ≡ length s.published % pow2 k) × (length s.published < seen_tail + pow2 k)
  pub peek_fits :
      (i : ℕ)
      → s.peeked ≡ some i
      → (i ≡ length s.consumed % pow2 k) × (length s.consumed < seen_head)
  pub fifo : Split (pow2 k) d s.ring.buffer s.published s.consumed

abbrev pub Good : {A : Type 0} → ℕ → A → Link A → Type 0
Good k d s = (seen_tail : ℕ) × (seen_head : ℕ) × Inv k d s seen_tail seen_head

pub sub64-u64 : (h t : ℕ) → t ≤ h → h ≤ t + 2 ^ 63 → sub64 (u64 h) (u64 t) ≡ h - t
sub64-u64 h t lo hi = omega arith

pub u64_injective : (h t : ℕ) → t ≤ h → h ≤ t + 2 ^ 63 → u64 t ≡ u64 h → t ≡ h
u64_injective h t lo hi e = omega arith

module _ {A : Type 0} {k : ℕ} {d : A} {s : Link A} {ct ch : ℕ} (v : Inv k d s ct ch) where
  open v use {
    small, storage, head_counts, tail_counts, cached_tail_counts, cached_head_counts, tail_seen,
    tail_le, head_seen, bounded, claim_fits, peek_fits, fifo,
  }

  abbrev head_count : ℕ
  head_count = length s.published

  abbrev tail_count : ℕ
  tail_count = length s.consumed

  -- The three ways through `claim`: the cached tail leaves room, the real one does, or neither.
  pub claim_cases :
      ((claim k s.ring ≡ (some (head_count % pow2 k), s.ring)) × (head_count < ct + pow2 k))
      ⊎ ((claim k s.ring
            ≡ (some (head_count % pow2 k), record s.ring { cached_tail = s.ring.tail }))
          × (head_count < tail_count + pow2 k))
      ⊎ ((claim k s.ring ≡ (none, record s.ring { cached_tail = s.ring.tail }))
          × (head_count ≡ tail_count + pow2 k))
  unfolding claim
  claim_cases = ground (
    arith,
    sub64-u64 head_count ct (omega arith) (omega (arith, pow2_le_63 k small)),
    sub64-u64 head_count tail_count (omega arith) (omega (arith, pow2_le_63 k small)),
    bit_and-u64 k head_count (omega arith),
  )

  claims-Good : Good k d (record s { ring = (claim k s.ring).1; claimed = (claim k s.ring).0 })
  claims-Good = elim claim_cases [
    | inl (e, room) ↦ rw e (ct, ch, ground arith)
    | inr (inl (e, room)) ↦ rw e (tail_count, ch, ground arith)
    | inr (inr (e, room)) ↦ rw e (tail_count, ch, ground arith)
  ]

  writes-Good :
      (i : ℕ) (x : A) → s.claimed ≡ some i → Good k d (record s { ring = write i x s.ring })
  unfolding write
  writes-Good i x e =
      let at : (i ≡ head_count % pow2 k) × (head_count < ct + pow2 k) = claim_fits i e in
      (
        ct,
        ch,
        ground (
          arith,
          at,
          length-set s.ring.buffer i x,
          window-set (pow2 k) d s.ring.buffer head_count x tail_count (head_count - tail_count)
              (omega arith) (omega arith),
        ),
      )

  publishes-Good :
      (i : ℕ)
      → s.claimed ≡ some i
      → Good k d (record s {
        ring = publish s.ring;
        claimed = none;
        published = s.published ++ get_or s.ring.buffer i d ∷ [];
      })
  unfolding publish
  publishes-Good i e =
      let at : (i ≡ head_count % pow2 k) × (head_count < ct + pow2 k) = claim_fits i e in
      let put : A = get_or s.ring.buffer i d in
      let split : Split (pow2 k) d s.ring.buffer (s.published ++ put ∷ []) s.consumed =
        rw at.0
          (Split-publish (pow2 k) d s.ring.buffer s.published s.consumed (omega arith) fifo) in
      (ct, ch, ground (arith, at, length-append s.published (put ∷ []), split))

  -- The three ways through `peek`.
  pub peek_cases :
      ((peek k s.ring ≡ (some (tail_count % pow2 k), s.ring)) × (tail_count < ch))
      ⊎ ((peek k s.ring ≡ (some (tail_count % pow2 k), record s.ring { cached_head = s.ring.head }))
          × (tail_count < head_count))
      ⊎ ((peek k s.ring ≡ (none, record s.ring { cached_head = s.ring.head }))
          × (tail_count ≡ head_count))
  unfolding peek
  peek_cases = ground (
    arith,
    pow2_le_63 k small,
    u64_injective head_count tail_count (omega arith) (omega (arith, pow2_le_63 k small)),
    u64_injective ch tail_count (omega arith) (omega (arith, pow2_le_63 k small)),
    bit_and-u64 k tail_count (omega arith),
  )

  peeks-Good : Good k d (record s { ring = (peek k s.ring).1; peeked = (peek k s.ring).0 })
  peeks-Good = elim peek_cases [
    | inl (e, some_left) ↦ rw e (ct, ch, ground arith)
    | inr (inl (e, some_left)) ↦ rw e (ct, head_count, ground arith)
    | inr (inr (e, empty)) ↦ rw e (ct, head_count, ground arith)
  ]

  consumes-Good :
      (i : ℕ)
      → s.peeked ≡ some i
      → Good k d (record s {
        ring = consume s.ring;
        peeked = none;
        consumed = s.consumed ++ get_or s.ring.buffer i d ∷ [];
      })
  unfolding consume
  consumes-Good i e =
      let at : (i ≡ tail_count % pow2 k) × (tail_count < ch) = peek_fits i e in
      let got : A = get_or s.ring.buffer i d in
      let split : Split (pow2 k) d s.ring.buffer s.published (s.consumed ++ got ∷ []) =
        rw at.0
          (Split-consume (pow2 k) d s.ring.buffer s.published s.consumed (omega arith) fifo) in
      (ct, ch, ground (arith, at, length-append s.consumed (got ∷ []), split))

-- Every step of either thread keeps the invariant.
pub Step-Good : {A : Type 0} {k : ℕ} {d : A} {s t : Link A} → Good k d s → Step k d s t → Good k d t
Step-Good (ct, ch, v) claims = claims-Good v
Step-Good (ct, ch, v) (writes i x e) = writes-Good v i x e
Step-Good (ct, ch, v) (publishes i e) = publishes-Good v i e
Step-Good (ct, ch, v) peeks = peeks-Good v
Step-Good (ct, ch, v) (consumes i e) = consumes-Good v i e

pub start-Good : {A : Type 0} (k : ℕ) (d : A) → k ≤ 63 → Good k d (start k d)
start-Good k d h = (
  0,
  0,
  record {
    small = h;
    storage = length-replicate (pow2 k) d;
    head_counts = omega arith;
    tail_counts = omega arith;
    cached_tail_counts = omega arith;
    cached_head_counts = omega arith;
    tail_seen = omega arith;
    tail_le = omega arith;
    head_seen = omega arith;
    bounded = omega arith;
    claim_fits = λ i e. cc;
    peek_fits = λ i e. cc;
    fifo = refl;
  },
)

pub Reach-Good : {A : Type 0} {k : ℕ} {d : A} {s : Link A} → k ≤ 63 → Reach k d s → Good k d s
Reach-Good {k = k} {d = d} h here = start-Good k d h
Reach-Good h (next r st) = Step-Good (Reach-Good h r) st
