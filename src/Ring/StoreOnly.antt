-- ===== src/Ring/StoreOnly.antt =====
-- `RingV1Store` of bench/RingVariants.hpp, the queue without cached indices, in which
-- each thread stores its own index.
use Prim.Native.Nat.{bit_and}
use mini_hft.Base.{ℕ, ◌+◌, ◌-◌, Option, none, some, List, leb, ◌==◌, if◌then◌else◌}
use mini_hft.Base.Words.{u64, sub64}
use mini_hft.Base.Mask.{pow2}

pub record RingV1Store {ℓ} (A : Type ℓ) : Type ℓ where
  pub head : ℕ
  pub tail : ℕ
  pub buffer : List A

module _ {ℓ} {A : Type ℓ} where
  unfoldable pub claim : ℕ → RingV1Store A → Option ℕ
  claim k r =
      if leb (pow2 k) (sub64 r.head r.tail) then none else some (bit_and r.head (pow2 k - 1))

  unfoldable pub publish : RingV1Store A → RingV1Store A
  publish r = record r { head = u64 (r.head + 1) }

  unfoldable pub peek : ℕ → RingV1Store A → Option ℕ
  peek k r = if r.tail == r.head then none else some (bit_and r.tail (pow2 k - 1))

  unfoldable pub consume : RingV1Store A → RingV1Store A
  consume r = record r { tail = u64 (r.tail + 1) }
