-- ===== src/Base/Mask.antt =====
-- Masks: `x & (2^k - 1)` is `x % 2^k`; and indices that go round a power of two.
use Prim.Native.Nat.{
  ℕ, zero, suc, ◌+◌, ◌-◌, ◌*◌, ◌/◌, ◌%◌, ◌^◌, ◌≤◌, ◌<◌, ◌∣◌, min, bit_and, digits, bit_and-bitwise,
}
use mathlib.Core.Path.{◌≡◌, ◌∙◌, sym, ap}
use mathlib.Core.Logic.{◌≢◌}
use native.Mathlib.Nat.{
  mod-lt, mod-eq_of_lt, div-add-mod, mod-mod_of_dvd, dvd_refl, dvd-mul_left_of_dvd,
  mul-add-mod_self_left, mul-le-mul_left,
}
use mini_hft.Base.Words.{u64}
use native.Mathlib.Decide.{dec_lt}
use native.Mathlib.Omega.{arith}

-- 2 ^ k, by doubling.
abbrev pub pow2 : ℕ → ℕ
pow2 zero = 1
pow2 (suc k) = 2 * pow2 k

pub pow2_pos : (k : ℕ) → 1 ≤ pow2 k
pow2_pos zero = omega arith
pow2_pos (suc k) = omega (arith, pow2_pos k)

pub pow2-dvd : (k j : ℕ) → pow2 k ∣ pow2 (j + k)
pow2-dvd k zero = let e : 0 + k ≡ k = omega arith in rw e (dvd_refl (pow2 k))
pow2-dvd k (suc j) =
    let e : suc j + k ≡ suc (j + k) = omega arith in
    rw e (dvd-mul_left_of_dvd (pow2 k) (pow2-dvd k j) 2)

mod_unique : (m q r : ℕ) → r < m → (m * q + r) % m ≡ r
mod_unique m q r h = mul-add-mod_self_left m q r ∙ mod-eq_of_lt h

-- The remainder by twice a number, digit by digit.
mod-double : (a p : ℕ) → 1 ≤ p → a / 2 % p * 2 + a % 2 ≡ a % (2 * p)
mod-double a p h =
    sym (ap (λ t. t % (2 * p)) split ∙ mod_unique (2 * p) (a / 2 / p) (a / 2 % p * 2 + a % 2) small)
  where
    split : a ≡ 2 * p * (a / 2 / p) + (a / 2 % p * 2 + a % 2)
    split = omega (arith, ap (λ (t : ℕ). 2 * t) (div-add-mod (a / 2) p), div-add-mod a 2)

    small : a / 2 % p * 2 + a % 2 < 2 * p
    small = omega (arith, mod-lt (a / 2) {m = p} h)

-- The digits of a conjunction with `k` ones, on any fuel that covers the number.
mask_digits : (fuel k n : ℕ) → n ≤ fuel → digits (λ _. zero) min fuel n (pow2 k - 1) ≡ n % pow2 k
mask_digits zero k zero h = omega (arith, mod-lt 0 {m = pow2 k} (pow2_pos k))
mask_digits zero k (suc n) h = absurd (omega arith)
mask_digits (suc fuel) k zero h = omega (arith, mod-lt 0 {m = pow2 k} (pow2_pos k))
mask_digits (suc fuel) zero (suc n) h =
    omega (arith, mask_digits fuel zero (suc n / 2) (omega arith))
mask_digits (suc fuel) (suc k) (suc n) h =
    let half : (2 * pow2 k - 1) / 2 ≡ pow2 k - 1 = omega (arith, pow2_pos k) in
    rw half (
      omega (
        arith,
        mask_digits fuel k (suc n / 2) (omega arith),
        mod-double (suc n) (pow2 k) (pow2_pos k),
        pow2_pos k,
      ))

-- A mask of `k` ones.
pub bit_and-mask : (k n : ℕ) → bit_and n (pow2 k - 1) ≡ n % pow2 k
bit_and-mask k n = bit_and-bitwise n (pow2 k - 1) ∙ mask_digits n k n (omega arith)

-- Fewer than `m` steps round a ring of `m` places do not come back to the start.
pub mod-ne : (m i j : ℕ) → i < j → j < i + m → i % m ≢ j % m
mod-ne m i j lo hi e = elim (dec_lt (i / m) (j / m)) [
  | yes up ↦ omega (
    arith,
    div-add-mod i m,
    div-add-mod j m,
    mul-le-mul_left {m = i / m + 1} {n = j / m} m (omega arith),
  )
  | no down ↦ omega (
    arith,
    div-add-mod i m,
    div-add-mod j m,
    mul-le-mul_left {m = j / m} {n = i / m} m (omega arith),
  )
]

-- An index kept in a 64-bit word and masked is the unbounded index modulo the size.
pub bit_and-u64 : (k n : ℕ) → k ≤ 64 → bit_and (u64 n) (pow2 k - 1) ≡ n % pow2 k
bit_and-u64 k n h = bit_and-mask k (u64 n) ∙ mod-mod_of_dvd (pow2 k) n divides
  where
    divides : pow2 k ∣ 2 ^ 64
    divides = let e : 64 - k + k ≡ 64 = omega arith in rw e at (pow2-dvd k (64 - k))

pub pow2_mono : (k j : ℕ) → pow2 k ≤ pow2 (j + k)
pow2_mono k zero = let e : 0 + k ≡ k = omega arith in rw e (omega arith)
pow2_mono k (suc j) =
    let e : suc j + k ≡ suc (j + k) = omega arith in rw e (omega (arith, pow2_mono k j))

pub pow2_le : (k j : ℕ) → k ≤ j → pow2 k ≤ pow2 j
pow2_le k j h = let e : j - k + k ≡ j = omega arith in rw e at (pow2_mono k (j - k))

pub pow2_le_63 : (k : ℕ) → k ≤ 63 → pow2 k ≤ 2 ^ 63
pow2_le_63 k h = pow2_le k 63 h
