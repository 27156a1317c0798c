-- ===== src/Ring/Tests.antt =====
-- Runs of the queue of include/RingBuffer.hpp with two slots.
use mini_hft.Base.{
  ℕ, ◌+◌, ◌≤◌, ◌<◌, ◌≡◌, ◌≢◌, refl, ◌↔◌, none, some, List, [], ◌∷◌, ◌++◌, length, get_or, arith,
}
use mini_hft.Base.Mask.{pow2}
use mini_hft.Base.Words.{sub64}
use mini_hft.Ring.{new, claim, publish, peek, consume, write}
use mini_hft.Ring.Protocol.{Link, Reach, here, next}
use mini_hft.Ring.Protocol
use mini_hft.Ring.FetchAdd
use mini_hft.Ring.StoreOnly
use mini_hft.Ring.Batched
use mini_hft.Ring.Uncached.{fetch_add_of, store_of, Reach-uncached}
use mini_hft.Ring.Batching.{
  Call, claims, writes, publishes, peeks, consumes, batched_run, ring_run, new_batched, ring_of,
  run-ring_run, run-held_back,
}
use mini_hft.Ring.Fifo.{Reach-fifo, Reach-full_empty, Reach-exclusion, Reach-oldest}

-- 7 is published and peeked; the producer has claimed the other slot.
abbrev busy : Link ℕ
busy = record {
  ring = record { head = 1; cached_tail = 0; tail = 0; cached_head = 1; buffer = 7 ∷ 0 ∷ [] };
  claimed = some 1;
  peeked = some 0;
  published = 7 ∷ [];
  consumed = [];
}

busy-Reach : Reach 1 0 busy
unfolding claim publish peek write
busy-Reach =
    next
      (next
        (next (next (next here Protocol.claims) (Protocol.writes 0 7 refl))
          (Protocol.publishes 0 refl))
        Protocol.peeks)
      Protocol.claims

-- The consumer finishes with 7, and both slots are free but one.
abbrev after : Link ℕ
after = record {
  ring = record { head = 1; cached_tail = 0; tail = 1; cached_head = 1; buffer = 7 ∷ 0 ∷ [] };
  claimed = some 1;
  peeked = none;
  published = 7 ∷ [];
  consumed = 7 ∷ [];
}

after-Reach : Reach 1 0 after
unfolding consume
after-Reach = next busy-Reach (Protocol.consumes 0 refl)

Reach-fifo_example : (waiting : List ℕ) × (7 ∷ [] ≡ 7 ∷ waiting) × (length waiting ≤ pow2 1)
Reach-fifo_example = Reach-fifo (omega arith) after-Reach

Reach-full_empty_example :
    (((claim 1 after.ring).0 ≡ none) ↔ (length after.published ≡ length after.consumed + pow2 1))
    × (((peek 1 after.ring).0 ≡ none) ↔ (length after.published ≡ length after.consumed))
Reach-full_empty_example = Reach-full_empty (omega arith) after-Reach

Reach-exclusion_example :
    (1 < length busy.ring.buffer) × (0 < length busy.ring.buffer) × (◌≢◌ {A = ℕ} 1 0)
Reach-exclusion_example = Reach-exclusion (omega arith) busy-Reach refl refl

Reach-oldest_example :
    (rest : List ℕ) × (busy.published ≡ busy.consumed ++ (get_or busy.ring.buffer 0 0 ∷ rest))
Reach-oldest_example = Reach-oldest {i = 0} (omega arith) busy-Reach refl

Reach-uncached_example :
    let r = busy.ring in
    (FetchAdd.claim 1 (fetch_add_of r) ≡ (claim 1 r).0)
    × (FetchAdd.peek 1 (fetch_add_of r) ≡ (peek 1 r).0)
    × (StoreOnly.claim 1 (store_of r) ≡ (claim 1 r).0)
    × (StoreOnly.peek 1 (store_of r) ≡ (peek 1 r).0)
    × (fetch_add_of (claim 1 r).1 ≡ fetch_add_of r)
    × (fetch_add_of (peek 1 r).1 ≡ fetch_add_of r)
    × (store_of (claim 1 r).1 ≡ store_of r)
    × (store_of (peek 1 r).1 ≡ store_of r)
    × (FetchAdd.publish (fetch_add_of r) ≡ fetch_add_of (publish r))
    × (FetchAdd.consume (fetch_add_of r) ≡ fetch_add_of (consume r))
    × (StoreOnly.publish (store_of r) ≡ store_of (publish r))
    × (StoreOnly.consume (store_of r) ≡ store_of (consume r))
Reach-uncached_example = Reach-uncached (omega arith) busy-Reach

-- Three values, of which a batch of two is published and one is held back.
abbrev three_values : List (Call ℕ)
three_values =
    claims
    ∷ writes 0 5
    ∷ publishes
    ∷ claims
    ∷ writes 1 6
    ∷ publishes
    ∷ peeks
    ∷ consumes
    ∷ claims
    ∷ writes 0 7
    ∷ publishes
    ∷ []

run-ring_run_example :
    ((batched_run 1 1 three_values (new_batched 1 0)).0 ≡ (ring_run 1 three_values (new 1 0)).0)
    × (ring_of (batched_run 1 1 three_values (new_batched 1 0)).1
        ≡ (ring_run 1 three_values (new 1 0)).1)
run-ring_run_example = run-ring_run 1 0 three_values

run-held_back_example :
    let r = (batched_run 2 1 three_values (new_batched 1 0)).1 in
    (r.write_idx ≡ 3) × (sub64 r.write_idx r.head < 2) × ((Batched.flush r).head ≡ 3)
run-held_back_example = run-held_back 2 1 0 three_values (omega arith) (omega arith)

run-slots :
    (batched_run 2 1 three_values (new_batched 1 0)).0
    ≡ some 0 ∷ none ∷ none ∷ some 1 ∷ none ∷ none ∷ some 0 ∷ none ∷ some 0 ∷ none ∷ none ∷ []
unfolding Batched.claim Batched.publish Batched.peek Batched.consume
run-slots = refl
