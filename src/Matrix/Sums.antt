-- ===== src/Matrix/Sums.antt =====
-- `operator+` and `operator-` of include/Matrix.hpp, cell by cell.
use mini_hft.Base.{
  ℕ, ◌+◌, ◌*◌, ◌^◌, ◌<◌, ◌≡◌, ◌≢◌, refl, sym, ap, ◌∙◌, true, length, get_or, set, ◌==◌, ◌&&◌,
  length-set, get_or-set_self, get_or-set_ne, arith,
}
use native.Mathlib.Decide.{ℕ_discrete}
use mini_hft.Matrix.{Elements, Matrix, ok, ◌>>=◌, new, combine, same_size, add, subtract}
use mini_hft.Matrix.Loops.{for_from_invariant}
use mini_hft.Matrix.Cells.{IsFull, cell, at-cell, inside}
use mini_hft.Matrix.Products.{Cells, new-IsFull}

module _ {A : Type 0} (t : Elements A) where
  -- The first k cells are combined.
  record Combined (f : A → A → A) (a b start : Matrix A) (k : ℕ) (m : Matrix A) : Type 0 where
    rows : m.rows ≡ start.rows
    cols : m.cols ≡ start.cols
    size : length m.cells ≡ length start.cells
    first :
        (p : ℕ)
        → p < k
        → get_or m.cells p t.none_yet
          ≡ f (get_or a.cells p t.none_yet) (get_or b.cells p t.none_yet)

  combine-Combined :
      (f : A → A → A) (a b start : Matrix A)
      → length start.cells ≡ length a.cells
      → (y : Matrix A) × (combine t f a b start ≡ ok y)
        × Combined f a b start (0 + length a.cells) y
  unfolding combine
  combine-Combined f a b start e =
      let v : ℕ → A = λ i. f (get_or a.cells i t.none_yet) (get_or b.cells i t.none_yet) in
      for_from_invariant (Combined f a b start) (length a.cells) 0
        (λ i r. ok (record r { cells = set r.cells i (v i) })) start
        (λ i x _ l w.
          let here : i < length x.cells = omega (arith, w.size, e) in
          (
            record x { cells = set x.cells i (v i) },
            refl,
            record {
              rows = w.rows;
              cols = w.cols;
              size = length-set x.cells i (v i) ∙ w.size;
              first = λ p h. elim (ℕ_discrete i p) [
                | yes q ↦
                    ap (λ z. get_or (set x.cells i (v i)) z t.none_yet) (sym q)
                    ∙ get_or-set_self x.cells i (v i) t.none_yet here
                    ∙ ap v q
                | no d ↦ get_or-set_ne x.cells i p (v i) t.none_yet d ∙ w.first p (earlier i p h d)
              ];
            },
          ))
        (record { rows = refl; cols = refl; size = refl; first = λ p h. absurd (omega arith) })
    where
      earlier : (i p : ℕ) → p < i + 1 → i ≢ p → p < i
      earlier i p h d = omega arith

  combined-Cells :
      (f : A → A → A) (a b : Matrix A)
      → IsFull a
      → a.rows ≡ b.rows
      → a.cols ≡ b.cols
      → a.rows * a.cols < 2 ^ 64
      → Cells t a.rows a.cols
          (λ i j. f (cell t a i j) (cell t b i j))
          (new a.rows a.cols t.none_yet >>= combine t f a b)
  combined-Cells f a b full r c h =
      let (m, p, mr, mc, size) = new-IsFull t a.rows a.cols t.none_yet h in
      let (y, q, w) = combine-Combined f a b m (size ∙ sym full) in
      record {
        matrix = y;
        returned = ap (λ o. o >>= combine t f a b) p ∙ q;
        same_rows = w.rows ∙ mr;
        same_cols = w.cols ∙ mc;
        full = w.size ∙ size ∙ (λ k. sym (w.rows ∙ mr) k * sym (w.cols ∙ mc) k);
        every = λ i j hi hj.
            let place : i * a.cols + j < a.rows * a.cols = inside i j a.rows a.cols hi hj in
            at-cell t y i j (omega (arith, w.rows, mr)) (omega (arith, w.cols, mc))
            ∙ ap (λ k. ok (get_or y.cells (i * k + j) t.none_yet)) (w.cols ∙ mc)
            ∙ ap ok (
                w.first (i * a.cols + j) (omega (arith, full))
                ∙ ap (λ k. f (cell t a i j) (get_or b.cells (i * k + j) t.none_yet)) c);
      }

  -- The sum and the difference of two full matrices of the same size, with fewer than 2 ^ 64 cells, are
  -- returned: full matrices of that size, in which the accessor gives the sums and the differences.
  pub add-subtract :
      (a b : Matrix A)
      → IsFull a
      → a.rows ≡ b.rows
      → a.cols ≡ b.cols
      → a.rows * a.cols < 2 ^ 64
      → Cells t a.rows a.cols (λ i j. t.plus (cell t a i j) (cell t b i j)) (add t a b)
        × Cells t a.rows a.cols (λ i j. t.minus (cell t a i j) (cell t b i j)) (subtract t a b)
  unfolding add subtract same_size
  add-subtract a b full r c h =
      let same : (a.rows == b.rows && a.cols == b.cols) ≡ true = ground arith in
      rw same (combined-Cells t.plus a b full r c h, combined-Cells t.minus a b full r c h)
