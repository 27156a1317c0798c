-- ===== src/Histogram/Buckets.antt =====
-- The buckets of include/LatencyHistogram.hpp: each value lies in its bucket, and buckets are narrow.
use mini_hft.Base.{
  ℕ, zero, suc, ◌+◌, ◌-◌, ◌*◌, ◌/◌, ◌%◌, ◌^◌, ◌≤◌, ◌<◌, ◌≡◌, ◌≢◌, subst, refl, max, false, inl, inr,
  Bool-cases, ltb, ltb→lt, ltb→le, ◌==◌, ==→eq, arith,
}
use mini_hft.Base.Mask.{pow2, pow2_pos, pow2_le}
use mini_hft.Histogram.{
  width_of, shift_of, index_of, lowest_equivalent, highest_equivalent, sub_bucket_half,
  sub_bucket_count, bucket_count,
}
use native.Mathlib.Decide.{dec_lt}
use native.Mathlib.Nat.{div-add-mod, mod-lt, div-lt_iff_lt-mul, le-div_iff_mul-le, mul-le-mul_right}

-- The width is the number of binary digits.
width_of_bounds :
    (fuel v : ℕ)
    → v < pow2 fuel
    → (v < pow2 (width_of fuel v))
      × (pow2 (width_of fuel v) ≤ max 1 (2 * v))
      × (width_of fuel v ≤ fuel)
unfolding width_of
width_of_bounds zero v h = omega arith
width_of_bounds (suc fuel) v h = elim (Bool-cases (v == 0)) [
  | inl none_left ↦ rw none_left (omega (arith, ==→eq v 0 none_left))
  | inr more ↦ rw more (omega (arith, width_of_bounds fuel (v / 2) (omega arith), pos v more))
]
  where
    pos : (v : ℕ) → (v == 0) ≡ false → 0 < v
    pos v e = ground arith

pow2-seven : (n : ℕ) → pow2 (suc (suc (suc (suc (suc (suc (suc n))))))) ≡ 128 * pow2 n
pow2-seven n = omega arith

pow2_of_width : (w : ℕ) → 7 ≤ w → pow2 w ≡ 128 * pow2 (w - 7)
pow2_of_width w h =
    let e : suc (suc (suc (suc (suc (suc (suc (w - 7))))))) ≡ w = omega arith in
    subst (λ k. pow2 k ≡ 128 * pow2 (w - 7)) e (pow2-seven (w - 7))

-- The value without its low bits: below 64 only where no bit is dropped.
shift_of_bounds :
    (v : ℕ)
    → v < 2 ^ 64
    → (shift_of v ≤ 57)
      × (v < 128 * pow2 (shift_of v))
      × (shift_of v ≢ 0 → 64 * pow2 (shift_of v) ≤ v)
unfolding shift_of
shift_of_bounds v h = elim (Bool-cases (ltb 7 (width_of 64 v))) [
  | inl wide ↦ rw wide (
      omega (
        arith,
        width_of_bounds 64 v h,
        pow2_of_width (width_of 64 v) (omega (arith, ltb→lt 7 (width_of 64 v) wide)),
        ltb→lt 7 (width_of 64 v) wide,
      ))
  | inr narrow ↦ rw narrow (
      omega (
        arith,
        width_of_bounds 64 v h,
        pow2_le (width_of 64 v) 7 (ltb→le 7 (width_of 64 v) narrow),
      ))
]

-- What the shift splits a value into: the kept digits and the dropped ones.
record Parts (v s m r : ℕ) : Type 0 where
  whole : pow2 s * m + r ≡ v
  dropped : r < pow2 s
  kept : m < 128
  leading : s ≢ 0 → 64 ≤ m
  few : s ≤ 57

shift_of-Parts :
    (v : ℕ) → v < 2 ^ 64 → Parts v (shift_of v) (v / pow2 (shift_of v)) (v % pow2 (shift_of v))
shift_of-Parts v h =
    let s = shift_of v in
    let (few, below, above) = shift_of_bounds v h in
    let pos = pow2_pos s in
    record {
      whole = div-add-mod v (pow2 s);
      dropped = mod-lt v {m = pow2 s} pos;
      kept = (div-lt_iff_lt-mul {k = pow2 s} {x = v} {y = 128} pos).1 below;
      leading = λ ne. (le-div_iff_mul-le {k = pow2 s} {x = 64} {y = v} pos).1 (above ne);
      few = few;
    }

-- The bucket with the shift `s` and the kept digits `m`.
module _ {v s m r : ℕ} (p : Parts v s m r) (h : v < 2 ^ 64) where
  -- Above 128 the index gives back the shift and the digits.
  split_index : 128 ≤ s * 64 + m → ((s * 64 + m) / 64 - 1 ≡ s) × (s * 64 + m - s * 64 ≡ m)
  split_index big = elim (dec_lt 0 s) [
    | yes some_shift ↦ omega (arith, p.leading (omega arith), p.kept)
    | no none_shift ↦ absurd (omega (arith, p.kept))
  ]

  exact_index : s * 64 + m < 128 → (s ≡ 0) × (pow2 s ≡ 1)
  exact_index small = elim (dec_lt 0 s) [
    | yes some_shift ↦ absurd (omega (arith, p.leading (omega arith)))
    | no none_shift ↦ let e : s ≡ 0 = omega arith in (e, rw e refl)
  ]

  top_fits : m * pow2 s + (pow2 s - 1) < 2 ^ 64
  top_fits = omega (
    arith,
    pow2_pos s,
    pow2_le s 57 p.few,
    mul-le-mul_right {m = m + 1} {n = 128} (pow2 s) (omega (arith, p.kept)),
  )

  bucket_low : lowest_equivalent (s * sub_bucket_half + m) ≡ m * pow2 s
  unfolding lowest_equivalent
  bucket_low = elim (Bool-cases (ltb (s * sub_bucket_half + m) sub_bucket_count)) [
    | inl small ↦
        let (none_shift, one) = exact_index (ltb→lt (s * 64 + m) 128 small) in
        rw (small, one) (omega (arith, none_shift))
    | inr big ↦
        let (same, rest) = split_index (ltb→le (s * 64 + m) 128 big) in
        rw (big, same, rest) (omega (arith, top_fits))
  ]

  bucket_high : highest_equivalent (s * sub_bucket_half + m) ≡ m * pow2 s + (pow2 s - 1)
  unfolding highest_equivalent
  bucket_high = elim (Bool-cases (ltb (s * sub_bucket_half + m) sub_bucket_count)) [
    | inl small ↦
        let (none_shift, one) = exact_index (ltb→lt (s * 64 + m) 128 small) in
        rw (small, one) (omega (arith, none_shift))
    | inr big ↦
        let (same, rest) = split_index (ltb→le (s * 64 + m) 128 big) in
        rw (big, same, bucket_low) (omega (arith, top_fits))
  ]

  -- Where bits are dropped the kept digits outweigh them.
  narrow : (64 * (pow2 s - 1 - r) ≤ v) × (v < 128 → pow2 s ≡ 1)
  narrow = elim (dec_lt 0 s) [
    | yes some_shift ↦ omega (
      arith,
      p.whole,
      p.dropped,
      pow2_le 1 s some_shift,
      mul-le-mul_right {m = 64} {n = m} (pow2 s) (p.leading (omega arith)),
    )
    | no none_shift ↦
        let e : s ≡ 0 = omega arith in let one : pow2 s ≡ 1 = rw e refl in omega (arith, one)
  ]

-- Every 64-bit value has a bucket of the table, lies between the bucket's two ends, and is less than
-- one part in 64 below the upper end; a value below 128 is the only one of its bucket.
pub index_of_bounds :
    (v : ℕ)
    → v < 2 ^ 64
    → (index_of v < bucket_count)
      × (lowest_equivalent (index_of v) ≤ v)
      × (v ≤ highest_equivalent (index_of v))
      × (64 * (highest_equivalent (index_of v) - v) ≤ v)
      × (v < 128 → (lowest_equivalent (index_of v) ≡ v) × (highest_equivalent (index_of v) ≡ v))
unfolding index_of
index_of_bounds v h =
    let p = shift_of-Parts v h in
    let s = shift_of v in
    let m = v / pow2 s in
    let (close, single) = narrow p h in
    rw (bucket_low p h, bucket_high p h)
      (
        omega (arith, p.few, p.kept),
        omega (arith, p.whole),
        omega (arith, p.whole, p.dropped),
        omega (arith, p.whole, p.dropped, close),
        λ small. omega (arith, p.whole, p.dropped, single small),
      )
