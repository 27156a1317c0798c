-- ===== src/Histogram/Counts.antt =====
-- What `record` of include/LatencyHistogram.hpp keeps.
use mini_hft.Base.{
  ℕ, zero, suc, ◌+◌, ◌-◌, ◌^◌, ◌≤◌, ◌<◌, ◌≡◌, ◌≢◌, ◌↔◌, refl, All, ◌==◌, if◌then◌else◌, List, [],
  ◌∷◌, length, get_or, replicate, length-set, length-replicate, get_or-set_self, get_or-set_ne,
  ==_refl, false, ◌∙◌, arith,
}
use native.Mathlib.Decide.{ℕ_discrete}
use mini_hft.Base.Words.{u64}
use mini_hft.Histogram.{Histogram, cleared, record_value, index_of, bucket_count}
use mini_hft.Histogram.Buckets.{index_of_bounds}

-- The number of values in a list that fall into bucket i.
unfoldable pub falling : ℕ → List ℕ → ℕ
falling i [] = 0
falling i (v ∷ vs) = (if index_of v == i then 1 else 0) + falling i vs

-- The histogram after recording the values, the newest first.
unfoldable pub record_all : List ℕ → Histogram
record_all [] = cleared
record_all (v ∷ vs) = record_value v (record_all vs)

-- The histogram holds the values vs.
pub record Summary (vs : List ℕ) (h : Histogram) : Type 0 where
  pub size : length h.counts ≡ bucket_count
  pub buckets : (i : ℕ) → i < bucket_count → get_or h.counts i 0 ≡ u64 (falling i vs)
  pub number : h.count ≡ u64 (length vs)
  pub least : (b : ℕ) → b ≤ 2 ^ 64 - 1 → (b ≤ h.smallest) ↔ All (λ v. b ≤ v) vs
  pub greatest : (b : ℕ) → (h.largest ≤ b) ↔ All (λ v. v ≤ b) vs

ne→== : (a b : ℕ) → a ≢ b → (a == b) ≡ false
ne→== a b h = ground arith

get_or-replicate : (n i : ℕ) → get_or {A = ℕ} (replicate n 0) i 0 ≡ 0
get_or-replicate zero i = refl
get_or-replicate (suc n) zero = refl
get_or-replicate (suc n) (suc i) = get_or-replicate n i

record_value-Summary :
    (v : ℕ) (vs : List ℕ) (h : Histogram)
    → v < 2 ^ 64
    → Summary vs h
    → Summary (v ∷ vs) (record_value v h)
unfolding record_value falling
record_value-Summary v vs h hv s =
    let (inside, _, _, _, _) = index_of_bounds v hv in
    record {
      size = length-set h.counts (index_of v) (u64 (get_or h.counts (index_of v) 0 + 1)) ∙ s.size;
      buckets = λ i hi. elim (ℕ_discrete (index_of v) i) [
        | yes same ↦
            rw
              (
                same,
                ==_refl i,
                get_or-set_self h.counts i (u64 (get_or h.counts i 0 + 1)) 0
                    (omega (arith, s.size)),
              )
              (omega (arith, s.buckets i hi))
        | no other ↦
            rw
              (
                get_or-set_ne h.counts (index_of v) i (u64 (get_or h.counts (index_of v) 0 + 1)) 0
                    other,
                ne→== (index_of v) i other,
              )
              (omega (arith, s.buckets i hi))
      ];
      number = omega (arith, s.number);
      least = λ b hb. (
        λ q. (omega arith, (s.least b hb).0 (omega arith)),
        λ q. omega (arith, q.0, (s.least b hb).1 q.1),
      );
      greatest = λ b. (
        λ q. (omega arith, (s.greatest b).0 (omega arith)),
        λ q. omega (arith, q.0, (s.greatest b).1 q.1),
      );
    }

cleared-Summary : Summary [] cleared
unfolding falling
cleared-Summary = record {
  size = length-replicate {A = ℕ} bucket_count 0;
  buckets = λ i hi. get_or-replicate bucket_count i;
  number = refl;
  least = λ b hb. (λ _. tt, λ _. hb);
  greatest = λ b. (λ _. tt, λ _. omega arith);
}

-- After any 64-bit values have been recorded, each bucket's count is the number of those values that
-- fall into it and the count is the number of values (both modulo 2^64), the minimum is their
-- greatest lower bound up to 2^64 - 1, and the maximum is their least upper bound.
pub record_all-Summary : (vs : List ℕ) → All (λ v. v < 2 ^ 64) vs → Summary vs (record_all vs)
unfolding record_all
record_all-Summary [] a = cleared-Summary
record_all-Summary (v ∷ vs) a =
    record_value-Summary v vs (record_all vs) a.0 (record_all-Summary vs a.1)
