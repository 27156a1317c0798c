-- ===== src/Matrix.antt =====
-- `Matrix` of include/Matrix.hpp, over the element type's operations. The allocation of the cells is taken
-- to succeed.
mod Tests
pub mod Loops
pub mod Cells
pub mod Products
pub mod Sums
use mini_hft.Base.{
  ℕ, zero, suc, ◌+◌, ◌-◌, ◌*◌, ◌/◌, ◌^◌, Bool, List, length, replicate, get_or, set, ltb, leb, ◌==◌,
  ◌&&◌, ◌||◌, not, if◌then◌else◌,
}
use mini_hft.Base.Words.{u64}

pub data MatrixError : Type 0 where
  length_error out_of_range invalid_argument : MatrixError

pub data Result (A : Type 0) : Type 0 where
  ok : A → Result A
  err : MatrixError → Result A

infixl 5 ◌>>=◌ ◌>>◌
abbrev pub ◌>>=◌ : {A B : Type 0} → Result A → (A → Result B) → Result B
ok a >>= f = f a
err e >>= f = err e

abbrev pub ◌>>◌ : {A B : Type 0} → Result A → Result B → Result B
m >> n = m >>= λ _. n

-- `for (i = from; i < from + count; ++i)`, over what the body changes.
abbrev pub for_from : {S : Type 0} → ℕ → ℕ → (ℕ → S → Result S) → S → Result S
for_from zero from body s = ok s
for_from (suc count) from body s = do s' ← body from s; for_from count (from + 1) body s'

-- The operations of `T`, and `T{}`.
pub record Elements (A : Type 0) : Type 0 where
  pub none_yet : A
  pub plus : A → A → A
  pub minus : A → A → A
  pub times : A → A → A

pub record Matrix (A : Type 0) : Type 0 where
  pub cells : List A
  pub rows : ℕ
  pub cols : ℕ

unfoldable pub element_count : ℕ → ℕ → Result ℕ
element_count r c =
    if not (c == 0) && ltb ((2 ^ 64 - 1) / c) r then err length_error else ok (u64 (r * c))

unfoldable pub new : {A : Type 0} → ℕ → ℕ → A → Result (Matrix A)
unfolding element_count
new r c initial_value = do
  n ← element_count r c
  ok (record { cells = replicate n initial_value; rows = r; cols = c })

module _ {A : Type 0} (t : Elements A) where
  -- The accessor that reads.
  unfoldable pub at : Matrix A → ℕ → ℕ → Result A
  at m r c =
      if leb m.rows r || leb m.cols c
      then err out_of_range
      else ok (get_or m.cells (r * m.cols + c) t.none_yet)

  -- An assignment through the accessor.
  unfoldable pub assign : ℕ → ℕ → A → Matrix A → Result (Matrix A)
  assign r c v m =
      if leb m.rows r || leb m.cols c
      then err out_of_range
      else ok (record m { cells = set m.cells (r * m.cols + c) v })

  -- The loop of `operator+` and `operator-`.
  unfoldable pub combine : (A → A → A) → Matrix A → Matrix A → Matrix A → Result (Matrix A)
  combine f a b result =
      for_from (length a.cells) 0
        (λ i r. ok (record r {
          cells = set r.cells i (f (get_or a.cells i t.none_yet) (get_or b.cells i t.none_yet));
        }))
        result

  unfoldable pub same_size : Matrix A → Matrix A → Bool
  same_size a b = a.rows == b.rows && a.cols == b.cols

  unfoldable pub add : Matrix A → Matrix A → Result (Matrix A)
  unfolding new combine same_size
  add a b =
      if not (same_size a b)
      then err invalid_argument
      else do result ← new a.rows a.cols t.none_yet; combine t.plus a b result

  unfoldable pub subtract : Matrix A → Matrix A → Result (Matrix A)
  unfolding new combine same_size
  subtract a b =
      if not (same_size a b)
      then err invalid_argument
      else do result ← new a.rows a.cols t.none_yet; combine t.minus a b result

  -- The sum of products for one cell.
  unfoldable pub dot : Matrix A → Matrix A → ℕ → ℕ → Result A
  unfolding at
  dot a b i j =
      for_from a.cols 0 (λ k sum. do x ← at a i k; y ← at b k j; ok (t.plus sum (t.times x y)))
        t.none_yet

  unfoldable pub multiply : Matrix A → Matrix A → Result (Matrix A)
  unfolding new dot assign
  multiply a b = if not (a.cols == b.rows) then err invalid_argument else do
    result ← new a.rows b.cols t.none_yet
    for_from a.rows 0 (λ i. for_from b.cols 0 λ j r. do sum ← dot a b i j; assign i j sum r) result

  unfoldable pub transpose : Matrix A → Result (Matrix A)
  unfolding new at assign
  transpose a = do
    result ← new a.cols a.rows t.none_yet
    for_from a.rows 0 (λ i. for_from a.cols 0 λ j r. do x ← at a i j; assign j i x r) result
