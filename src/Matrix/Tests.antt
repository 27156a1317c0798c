-- ===== src/Matrix/Tests.antt =====
-- Small matrices of include/Matrix.hpp over natural numbers.
use mini_hft.Base.{ℕ, ◌+◌, ◌-◌, ◌*◌, ◌^◌, ◌≡◌, refl, [], ◌∷◌, arith}
use mini_hft.Matrix.{
  Elements, Matrix, ok, err, length_error, new, element_count, at, assign, dot, add, subtract,
  multiply, transpose,
}
use mini_hft.Matrix.Cells.{cell}
use mini_hft.Matrix.Products.{Cells, sum_of, multiply-Cells, transpose-Cells}
use mini_hft.Matrix.Sums.{add-subtract}

abbrev numbers : Elements ℕ
numbers = record { none_yet = 0; plus = ◌+◌; minus = ◌-◌; times = ◌*◌ }

abbrev wide : Matrix ℕ
wide = record { cells = 1 ∷ 2 ∷ 3 ∷ 4 ∷ 5 ∷ 6 ∷ []; rows = 2; cols = 3 }

abbrev tall : Matrix ℕ
tall = record { cells = 1 ∷ 0 ∷ 0 ∷ 1 ∷ 2 ∷ 2 ∷ []; rows = 3; cols = 2 }

multiply-Cells_example :
    Cells numbers 2 2 (λ i j. sum_of numbers wide tall i j 3) (multiply numbers wide tall)
multiply-Cells_example = multiply-Cells numbers wide tall refl (omega arith)

transpose-Cells_example : Cells numbers 3 2 (λ j i. cell numbers wide i j) (transpose numbers wide)
transpose-Cells_example = transpose-Cells numbers wide (omega arith)

add-subtract_example :
    Cells numbers 2 3 (λ i j. cell numbers wide i j + cell numbers wide i j) (add numbers wide wide)
    × Cells numbers 2 3
        (λ i j. cell numbers wide i j - cell numbers wide i j)
        (subtract numbers wide wide)
add-subtract_example = add-subtract numbers wide wide refl refl refl (omega arith)

multiply-run :
    multiply numbers wide tall ≡ ok (record { cells = 7 ∷ 8 ∷ 16 ∷ 17 ∷ []; rows = 2; cols = 2 })
unfolding multiply new element_count dot at assign
multiply-run = refl

new_run : new {A = ℕ} (2 ^ 63) 2 0 ≡ err length_error
unfolding new element_count
new_run = refl
