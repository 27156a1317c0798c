-- ===== src/Matrix/Loops.antt =====
-- The loops of include/Matrix.hpp, by an invariant of what they change.
use mini_hft.Base.{ℕ, zero, suc, ◌+◌, ◌≤◌, ◌<◌, ◌≡◌, refl, ap, ◌∙◌, subst, arith}
use mini_hft.Matrix.{Result, ok, ◌>>=◌, for_from}

-- What holds before round i holds after it for i + 1; then the loop ends with it.
pub for_from_invariant :
    {S : Type 0} (P : ℕ → S → Type 0) (count from : ℕ) (body : ℕ → S → Result S) (s : S)
    → ((i : ℕ) (x : S)
        → from ≤ i
        → i < from + count
        → P i x
        → (y : S) × (body i x ≡ ok y) × P (i + 1) y)
    → P from s
    → (y : S) × (for_from count from body s ≡ ok y) × P (from + count) y
for_from_invariant P zero from body s step p =
    (s, refl, subst (λ n. P n s) {x = from} (omega arith) p)
for_from_invariant P (suc count) from body s step p =
    let (x, e, q) = step from s (omega arith) (omega arith) p in
    let (y, f, last) =
      for_from_invariant P count (from + 1) body x (λ i z l h. step i z (omega arith) (omega arith))
        q in
    (
      y,
      ap (λ o. o >>= for_from count (from + 1) body) e ∙ f,
      subst (λ n. P n y) {x = from + 1 + count} (omega arith) last,
    )
