-- ===== src/Ring.antt =====
-- The single-producer single-consumer queue of include/RingBuffer.hpp.
-- The capacity is 2^k. `size_t` indices wrap at 2^64. Each call is one step: it makes at most one
-- access to the index that the other thread writes.
mod Tests
pub mod Protocol
pub mod Window
pub mod Inv
pub mod Fifo
pub mod FetchAdd
pub mod StoreOnly
pub mod Batched
pub mod Uncached
pub mod Batching
use Prim.Native.Nat.{bit_and}
use mini_hft.Base.{
  ℕ, ◌+◌, ◌-◌, Bool, Option, none, some, List, leb, ◌==◌, if◌then◌else◌, replicate, set,
}
use mini_hft.Base.Words.{u64, sub64}
use mini_hft.Base.Mask.{pow2}

-- `ProducerSide`, `ConsumerSide` and the buffer.
pub record Ring {ℓ} (A : Type ℓ) : Type ℓ where
  pub head : ℕ
  pub cached_tail : ℕ
  pub tail : ℕ
  pub cached_head : ℕ
  pub buffer : List A

module _ {ℓ} {A : Type ℓ} where
  -- The default constructor: `d` is what a slot of `T buffer[Size]` starts with.
  abbrev pub new : ℕ → A → Ring A
  new k d = record {
    head = 0;
    cached_tail = 0;
    tail = 0;
    cached_head = 0;
    buffer = replicate (pow2 k) d;
  }

  -- The result is the claimed slot's index in the buffer, `none` for nullptr.
  pub claim : ℕ → Ring A → Option ℕ × Ring A
  claim k r =
      let seen = record r { cached_tail = r.tail } in
      if leb (pow2 k) (sub64 r.head r.cached_tail)
      then if leb (pow2 k) (sub64 r.head r.tail)
        then (none, seen)
        else (some (bit_and r.head (pow2 k - 1)), seen)
      else (some (bit_and r.head (pow2 k - 1)), r)

  pub publish : Ring A → Ring A
  publish r = record r { head = u64 (r.head + 1) }

  pub peek : ℕ → Ring A → Option ℕ × Ring A
  peek k r =
      let seen = record r { cached_head = r.head } in
      if r.tail == r.cached_head
      then if r.tail == r.head then (none, seen) else (some (bit_and r.tail (pow2 k - 1)), seen)
      else (some (bit_and r.tail (pow2 k - 1)), r)

  pub consume : Ring A → Ring A
  consume r = record r { tail = u64 (r.tail + 1) }

  -- What the producer does through the pointer that `claim` gave it.
  pub write : ℕ → A → Ring A → Ring A
  write i x r = record r { buffer = set r.buffer i x }
