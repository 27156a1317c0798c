-- ===== src/Report/Numbers.antt =====
-- The fuel of the list of numbers in bench/BenchCommon.hpp.
use mini_hft.Base.{
  ℕ, zero, suc, ◌≤◌, ◌≡◌, refl, ap, inl, inr, List, [], ◌∷◌, drop, length, length-drop, ◌==◌,
  Bool-cases, arith,
}
use mini_hft.Report.{after_comma, numbers}

length-after_comma : (text : List ℕ) → length (after_comma text) ≤ length text
unfolding after_comma
length-after_comma [] = omega arith
length-after_comma (c ∷ text) = elim (Bool-cases (c == 44)) [
  | inl e ↦ rw e (omega arith)
  | inr n ↦ rw n (omega arith)
]

-- Each number takes a byte at least, so that a round for each byte is enough.
numbers-enough :
    {I : Type 0} (strtoll : List ℕ → I × ℕ) (m n : ℕ) (text : List ℕ)
    → length text ≤ m
    → length text ≤ n
    → numbers m strtoll text ≡ numbers n strtoll text
unfolding numbers
numbers-enough strtoll zero zero text h k = refl
numbers-enough strtoll zero (suc n) [] h k = refl
numbers-enough strtoll (suc m) zero [] h k = refl
numbers-enough strtoll (suc m) (suc n) [] h k = refl
numbers-enough strtoll zero (suc n) (c ∷ text) h k = absurd (omega arith)
numbers-enough strtoll (suc m) zero (c ∷ text) h k = absurd (omega arith)
numbers-enough strtoll (suc m) (suc n) (c ∷ text) h k =
    let taken = (strtoll (c ∷ text)).1 in
    let rest = drop taken (c ∷ text) in
    elim (Bool-cases (taken == 0)) [
      | inl e ↦ rw e refl
      | inr some_taken ↦
          let positive : 1 ≤ taken = ground arith in
          let shorter : length (after_comma rest) ≤ length text =
            omega (arith, length-after_comma rest, length-drop taken (c ∷ text), positive) in
          rw some_taken (
            ap (λ more. (strtoll (c ∷ text)).0 ∷ more)
              (numbers-enough strtoll m n (after_comma rest) (omega (arith, shorter))
                (omega (arith, shorter))))
    ]
