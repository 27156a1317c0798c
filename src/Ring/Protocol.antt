-- ===== src/Ring/Protocol.antt =====
-- The two threads of include/RingBuffer.hpp, interleaved in any order: the producer claims, writes
-- and publishes, the consumer peeks, reads and consumes.
use mini_hft.Base.{ℕ, ◌≡◌, Option, none, some, List, [], ◌∷◌, ◌++◌, get_or}
use mini_hft.Ring.{Ring, new, claim, publish, peek, consume, write}

-- `claimed` and `peeked` are the slots that the threads hold. `published` and `consumed` record
-- the values that have gone in and come out, oldest first.
pub record Link (A : Type 0) : Type 0 where
  pub ring : Ring A
  pub claimed : Option ℕ
  pub peeked : Option ℕ
  pub published : List A
  pub consumed : List A

abbrev pub start : {A : Type 0} → ℕ → A → Link A
start k d = record { ring = new k d; claimed = none; peeked = none; published = []; consumed = [] }

-- `d` stands for a read outside the buffer, which `Inv` rules out.
pub data Step {A : Type 0} (k : ℕ) (d : A) (s : Link A) : Link A → Type 0 where
  claims : Step k d s (record s { ring = (claim k s.ring).1; claimed = (claim k s.ring).0 })
  writes : (i : ℕ) (x : A) → s.claimed ≡ some i → Step k d s (record s { ring = write i x s.ring })
  publishes :
      (i : ℕ)
      → s.claimed ≡ some i
      → Step k d s (record s {
        ring = publish s.ring;
        claimed = none;
        published = s.published ++ get_or s.ring.buffer i d ∷ [];
      })
  peeks : Step k d s (record s { ring = (peek k s.ring).1; peeked = (peek k s.ring).0 })
  consumes :
      (i : ℕ)
      → s.peeked ≡ some i
      → Step k d s (record s {
        ring = consume s.ring;
        peeked = none;
        consumed = s.consumed ++ get_or s.ring.buffer i d ∷ [];
      })

pub data Reach {A : Type 0} (k : ℕ) (d : A) : Link A → Type 0 where
  here : Reach k d (start k d)
  next : {s t : Link A} → Reach k d s → Step k d s t → Reach k d t
