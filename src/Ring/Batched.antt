-- ===== src/Ring/Batched.antt =====
-- `RingV2` of bench/RingVariants.hpp: cached indices, and one store of the head for a whole batch. Which
-- cache line a member is on has no effect on values.
use Prim.Native.Nat.{bit_and}
use mini_hft.Base.{ℕ, ◌+◌, ◌-◌, Option, none, some, List, ltb, leb, ◌==◌, ◌&&◌, if◌then◌else◌}
use mini_hft.Base.Words.{u64, sub64}
use mini_hft.Base.Mask.{pow2}

-- `ProducerSide`, `ConsumerSide` and the buffer.
pub record RingV2 {ℓ} (A : Type ℓ) : Type ℓ where
  pub head : ℕ
  pub write_idx : ℕ
  pub cached_tail : ℕ
  pub tail : ℕ
  pub cached_head : ℕ
  pub buffer : List A

module _ {ℓ} {A : Type ℓ} where
  unfoldable pub claim : ℕ → RingV2 A → Option ℕ × RingV2 A
  claim k r =
      let seen = record r { cached_tail = r.tail } in
      if leb (pow2 k) (sub64 r.write_idx r.cached_tail)
      then if leb (pow2 k) (sub64 r.write_idx r.tail)
        then (none, seen)
        else (some (bit_and r.write_idx (pow2 k - 1)), seen)
      else (some (bit_and r.write_idx (pow2 k - 1)), r)

  unfoldable pub publish : ℕ → RingV2 A → RingV2 A
  publish batch r =
      let w = u64 (r.write_idx + 1) in
      if ltb 1 batch && ltb (sub64 w r.head) batch
      then record r { write_idx = w }
      else record r { write_idx = w; head = w }

  unfoldable pub flush : RingV2 A → RingV2 A
  flush r = record r { head = r.write_idx }

  unfoldable pub peek : ℕ → RingV2 A → Option ℕ × RingV2 A
  peek k r =
      let seen = record r { cached_head = r.head } in
      if r.tail == r.cached_head
      then if r.tail == r.head then (none, seen) else (some (bit_and r.tail (pow2 k - 1)), seen)
      else (some (bit_and r.tail (pow2 k - 1)), r)

  unfoldable pub consume : RingV2 A → RingV2 A
  consume r = record r { tail = u64 (r.tail + 1) }
