-- ===== src/Histogram.antt =====
-- The log-linear histogram of include/LatencyHistogram.hpp. `double` results are not modelled:
-- `valueAtPercentile` is modelled from the rank that it computes.
mod Tests
pub mod Buckets
pub mod Counts
use mini_hft.Base.{
  ℕ, zero, suc, ◌+◌, ◌-◌, ◌*◌, ◌/◌, ◌^◌, Option, none, some, List, [], ◌∷◌, min, max, replicate,
  get_or, set, ltb, leb, ◌==◌, if◌then◌else◌,
}
use mini_hft.Base.Words.{u64}
use mini_hft.Base.Mask.{pow2}

abbrev pub sub_bucket_bits : ℕ
sub_bucket_bits = 7

abbrev pub sub_bucket_count : ℕ
sub_bucket_count = 128

abbrev pub sub_bucket_half : ℕ
sub_bucket_half = sub_bucket_count / 2

abbrev pub bucket_count : ℕ
bucket_count = (64 - sub_bucket_bits + 2) * sub_bucket_half

-- std::bit_width, on fuel; 64 rounds are enough for 64 bits.
unfoldable pub width_of : ℕ → ℕ → ℕ
width_of zero v = 0
width_of (suc fuel) v = let rest = width_of fuel (v / 2) in if v == 0 then 0 else suc rest

-- The number of low bits that are dropped.
unfoldable pub shift_of : ℕ → ℕ
unfolding width_of
shift_of value =
    let width = width_of 64 value in
    if ltb sub_bucket_bits width then width - sub_bucket_bits else 0

unfoldable pub index_of : ℕ → ℕ
index_of value = shift_of value * sub_bucket_half + value / pow2 (shift_of value)

unfoldable pub lowest_equivalent : ℕ → ℕ
lowest_equivalent index =
    let shift = index / sub_bucket_half - 1 in
    if ltb index sub_bucket_count
    then index
    else u64 ((index - shift * sub_bucket_half) * pow2 shift)

unfoldable pub highest_equivalent : ℕ → ℕ
highest_equivalent index =
    let shift = index / sub_bucket_half - 1 in
    if ltb index sub_bucket_count then index else u64 (lowest_equivalent index + (pow2 shift - 1))

pub record Histogram : Type 0 where
  pub counts : List ℕ
  pub count : ℕ
  pub sum : ℕ
  pub smallest : ℕ
  pub largest : ℕ

-- `reset`, and the state of a new histogram.
abbrev pub cleared : Histogram
cleared = record {
  counts = replicate bucket_count 0;
  count = 0;
  sum = 0;
  smallest = 2 ^ 64 - 1;
  largest = 0;
}

unfoldable pub record_value : ℕ → Histogram → Histogram
record_value value h = record {
  counts = set h.counts (index_of value) (u64 (get_or h.counts (index_of value) 0 + 1));
  count = u64 (h.count + 1);
  sum = u64 (h.sum + value);
  smallest = min h.smallest value;
  largest = max h.largest value;
}

unfoldable pub minimum : Histogram → ℕ
minimum h = if h.count == 0 then 0 else h.smallest

-- The loop of `valueAtPercentile`: buckets from number i on.
unfoldable pub scan : ℕ → ℕ → ℕ → List ℕ → ℕ → ℕ
scan rank seen i [] largest = largest
scan rank seen i (c ∷ counts) largest =
    let rest = scan rank (u64 (seen + c)) (i + 1) counts largest in
    if leb rank (u64 (seen + c)) then min (highest_equivalent i) largest else rest

-- `valueAtPercentile` for the rank that the percentile stands for; `none` for a percentile that
-- is not above 0.
unfoldable pub value_at_rank : Option ℕ → Histogram → ℕ
value_at_rank rank h =
    if h.count == 0
    then 0
    else elim rank [ none ↦ h.smallest | some r ↦ scan (max 1 r) 0 0 h.counts h.largest ]
