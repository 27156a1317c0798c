-- ===== src/Ring/Batching.antt =====
-- What the knob Batch of bench/RingVariants.hpp changes in the queue of include/RingBuffer.hpp.
use mini_hft.Base.{
  ℕ, ◌+◌, ◌^◌, ◌≤◌, ◌<◌, ◌≡◌, refl, Option, none, List, [], ◌∷◌, set, ltb, ◌&&◌, Bool-cases,
  replicate, arith, inl, inr,
}
use mini_hft.Base.Words.{u64, sub64}
use mini_hft.Base.Mask.{pow2}
use mini_hft.Ring.{Ring, claim, publish, peek, consume, write, new}
use mini_hft.Ring.Batched
use mini_hft.Ring.Batched.{RingV2}

-- A call of either side, or what the producer does through the pointer it holds.
pub data Call (A : Type 0) : Type 0 where
  claims : Call A
  writes : ℕ → A → Call A
  publishes : Call A
  flushes : Call A
  peeks : Call A
  consumes : Call A

module _ {A : Type 0} where
  abbrev pub new_batched : ℕ → A → RingV2 A
  new_batched k d = record {
    head = 0;
    write_idx = 0;
    cached_tail = 0;
    tail = 0;
    cached_head = 0;
    buffer = replicate (pow2 k) d;
  }

  -- One call: the slot that it returns, and the queue after it.
  abbrev pub batched_call : ℕ → ℕ → Call A → RingV2 A → Option ℕ × RingV2 A
  batched_call batch k claims r = Batched.claim k r
  batched_call batch k (writes i x) r = (none, record r { buffer = set r.buffer i x })
  batched_call batch k publishes r = (none, Batched.publish batch r)
  batched_call batch k flushes r = (none, Batched.flush r)
  batched_call batch k peeks r = Batched.peek k r
  batched_call batch k consumes r = (none, Batched.consume r)

  -- The same calls of RingBuffer, which has nothing to flush.
  abbrev pub ring_call : ℕ → Call A → Ring A → Option ℕ × Ring A
  ring_call k claims r = claim k r
  ring_call k (writes i x) r = (none, write i x r)
  ring_call k publishes r = (none, publish r)
  ring_call k flushes r = (none, r)
  ring_call k peeks r = peek k r
  ring_call k consumes r = (none, consume r)

  abbrev pub batched_run : ℕ → ℕ → List (Call A) → RingV2 A → List (Option ℕ) × RingV2 A
  batched_run batch k [] r = ([], r)
  batched_run batch k (c ∷ cs) r =
      let got = batched_call batch k c r in
      let rest = batched_run batch k cs got.1 in (got.0 ∷ rest.0, rest.1)

  abbrev pub ring_run : ℕ → List (Call A) → Ring A → List (Option ℕ) × Ring A
  ring_run k [] r = ([], r)
  ring_run k (c ∷ cs) r =
      let got = ring_call k c r in let rest = ring_run k cs got.1 in (got.0 ∷ rest.0, rest.1)

  -- The members that RingBuffer has too.
  abbrev pub ring_of : RingV2 A → Ring A
  ring_of r = record {
    head = r.head;
    cached_tail = r.cached_tail;
    tail = r.tail;
    cached_head = r.cached_head;
    buffer = r.buffer;
  }

  -- The queue with nothing held back.
  abbrev batched_of : Ring A → RingV2 A
  batched_of r = record {
    head = r.head;
    write_idx = r.head;
    cached_tail = r.cached_tail;
    tail = r.tail;
    cached_head = r.cached_head;
    buffer = r.buffer;
  }

  call_unbatched :
      (k : ℕ) (c : Call A) (r : Ring A)
      → batched_call 1 k c (batched_of r) ≡ ((ring_call k c r).0, batched_of (ring_call k c r).1)
  unfolding Batched.claim Batched.publish Batched.flush Batched.peek Batched.consume claim publish
      peek consume write
  call_unbatched k claims r = ground arith
  call_unbatched k (writes i x) r = refl
  call_unbatched k publishes r = refl
  call_unbatched k flushes r = refl
  call_unbatched k peeks r = ground arith
  call_unbatched k consumes r = refl

  run_unbatched :
      (k : ℕ) (cs : List (Call A)) (r : Ring A)
      → batched_run 1 k cs (batched_of r) ≡ ((ring_run k cs r).0, batched_of (ring_run k cs r).1)
  run_unbatched k [] r = refl
  run_unbatched k (c ∷ cs) r =
      rw (call_unbatched k c r, run_unbatched k cs (ring_call k c r).1) refl

  -- With a batch of one, RingV2 is RingBuffer: any sequence of calls on a new queue returns the same
  -- slots, and the members that both have end up the same.
  pub run-ring_run :
      (k : ℕ) (d : A) (cs : List (Call A))
      → ((batched_run 1 k cs (new_batched k d)).0 ≡ (ring_run k cs (new k d)).0)
        × (ring_of (batched_run 1 k cs (new_batched k d)).1 ≡ (ring_run k cs (new k d)).1)
  run-ring_run k d cs = rw (run_unbatched k cs (new k d)) (refl, refl)

  abbrev published_by : Call A → ℕ
  published_by publishes = 1
  published_by claims = 0
  published_by (writes i x) = 0
  published_by flushes = 0
  published_by peeks = 0
  published_by consumes = 0

  -- How many calls of `publish` there are.
  abbrev pub publications : List (Call A) → ℕ
  publications [] = 0
  publications (c ∷ cs) = published_by c + publications cs

  -- `n` values are published or held back, and fewer than a batch are held back.
  record Batch (batch n : ℕ) (r : RingV2 A) : Type 0 where
    pub written : r.write_idx ≡ u64 n
    pub word : r.head < 2 ^ 64
    pub held_back : sub64 r.write_idx r.head < batch

  kept_numbers :
      (batch n : ℕ) (r r' : RingV2 A)
      → r'.write_idx ≡ r.write_idx
      → r'.head ≡ r.head
      → Batch batch n r
      → Batch batch (n + 0) r'
  kept_numbers batch n r r' e f v = record {
    written = omega (arith, v.written);
    word = omega (arith, v.word);
    held_back = omega (arith, v.held_back);
  }

  call-Batch :
      (batch k n : ℕ) (c : Call A) (r : RingV2 A)
      → 1 ≤ batch
      → batch < 2 ^ 64
      → Batch batch n r
      → Batch batch (n + published_by c) (batched_call batch k c r).1
  unfolding Batched.claim Batched.publish Batched.flush Batched.peek Batched.consume
  call-Batch batch k n claims r h b v =
      kept_numbers batch n r (Batched.claim k r).1 (ground arith) (ground arith) v
  call-Batch batch k n (writes i x) r h b v =
      kept_numbers batch n r (record r { buffer = set r.buffer i x }) refl refl v
  call-Batch batch k n publishes r h b v =
      elim (Bool-cases (ltb 1 batch && ltb (sub64 (u64 (r.write_idx + 1)) r.head) batch)) [
        | inl y ↦
            rw y (record {
              written = omega (arith, v.written);
              word = v.word;
              held_back = ground arith;
            })
        | inr n' ↦ rw n' (record {
          written = omega (arith, v.written);
          word = omega arith;
          held_back = omega arith;
        })
      ]
  call-Batch batch k n flushes r h b v = record {
    written = omega (arith, v.written);
    word = omega (arith, v.written);
    held_back = omega (arith, v.written);
  }
  call-Batch batch k n peeks r h b v =
      kept_numbers batch n r (Batched.peek k r).1 (ground arith) (ground arith) v
  call-Batch batch k n consumes r h b v = kept_numbers batch n r (Batched.consume r) refl refl v

  run-Batch :
      (batch k n : ℕ) (cs : List (Call A)) (r : RingV2 A)
      → 1 ≤ batch
      → batch < 2 ^ 64
      → Batch batch n r
      → Batch batch (n + publications cs) (batched_run batch k cs r).1
  run-Batch batch k n [] r h b v = kept_numbers batch n r r refl refl v
  run-Batch batch k n (c ∷ cs) r h b v =
      let rest =
        run-Batch batch k (n + published_by c) cs (batched_call batch k c r).1 h b
          (call-Batch batch k n c r h b v) in
      record { written = omega (arith, rest.written); word = rest.word; held_back = rest.held_back }

  -- After any sequence of calls on a new queue of batches of `batch`, the producer's own index is the
  -- number of calls of `publish`, modulo 2 ^ 64, and of the values that these calls have published
  -- fewer than a batch are held back from the consumer; a call of `flush` then leaves none.
  pub run-held_back :
      (batch k : ℕ) (d : A) (cs : List (Call A))
      → 1 ≤ batch
      → batch < 2 ^ 64
      → let r = (batched_run batch k cs (new_batched k d)).1 in
        (r.write_idx ≡ u64 (publications cs))
        × (sub64 r.write_idx r.head < batch)
        × ((Batched.flush r).head ≡ u64 (publications cs))
  unfolding Batched.flush
  run-held_back batch k d cs h b =
      let v =
        run-Batch batch k 0 cs (new_batched k d) h b
          (record { written = refl; word = omega arith; held_back = omega arith }) in
      (omega (arith, v.written), v.held_back, omega (arith, v.written))
