-- ===== src/Matrix/Products.antt =====
-- The products and transposes of include/Matrix.hpp, cell by cell.
use mini_hft.Base.{
  ℕ, zero, suc, ◌+◌, ◌-◌, ◌*◌, ◌/◌, ◌^◌, ◌<◌, ◌≡◌, refl, sym, ap, ◌∙◌, subst, inl, inr, ◌⊎◌, Bool,
  true, false, length, replicate, ltb, ◌==◌, ◌&&◌, not, if◌then◌else◌, Bool-cases, length-replicate,
  ltb→le, ltb→lt, le→ltb, arith,
}
use mini_hft.Base.Words.{u64}
use native.Mathlib.Nat.{le-div_iff_mul-le}
use mini_hft.Matrix.{
  Elements, Matrix, Result, ok, err, invalid_argument, length_error, ◌>>=◌, for_from, element_count,
  new, at, assign, dot, multiply, transpose,
}
use mini_hft.Matrix.Loops.{for_from_invariant}
use mini_hft.Matrix.Cells.{IsFull, cell, at-cell, Filled, assign-Filled}

-- The cells before column j of row i, in the order of the loops, and the same transposed.
abbrev Before : ℕ → ℕ → ℕ → ℕ → Type 0
Before i j r c = (r < i) ⊎ ((r ≡ i) × (c < j))

Before-more : (i j r c : ℕ) → Before i (j + 1) r c → Before i j r c ⊎ ((r ≡ i) × (c ≡ j))
Before-more i j r c (inl h) = inl (inl h)
Before-more i j r c (inr (e, l)) = elim (Bool-cases (ltb c j)) [
  | inl y ↦ inl (inr (e, ltb→lt c j y))
  | inr n ↦ inr (e, omega (arith, ltb→le c j n))
]

Before-next : (i k r c : ℕ) → c < k → Before (i + 1) 0 r c → Before i k r c
Before-next i k r c l (inl h) = elim (Bool-cases (ltb r i)) [
  | inl y ↦ inl (ltb→lt r i y)
  | inr n ↦ inr (omega (arith, ltb→le r i n), l)
]
Before-next i k r c l (inr (e, h)) = absurd (omega arith)

Before-none : {B : Type 0} (r c : ℕ) → Before 0 0 r c → B
Before-none r c (inl h) = absurd (omega arith)
Before-none r c (inr (e, h)) = absurd (omega arith)

-- The test of `elementCount` is whether the product fits.
pub no_overflow : (r c : ℕ) → r * c < 2 ^ 64 → (not (c == 0) && ltb ((2 ^ 64 - 1) / c) r) ≡ false
no_overflow r zero h = refl
no_overflow r (suc c) h =
    let fits =
      (le-div_iff_mul-le {k = suc c} {x = r} {y = 2 ^ 64 - 1} (omega arith)).1 (omega (arith, h)) in
    let some_columns : (suc c == 0) ≡ false = ground arith in
    rw some_columns (le→ltb ((2 ^ 64 - 1) / suc c) r fits)

module _ {A : Type 0} (t : Elements A) where
  -- `new` allocates a full matrix, if the number of cells is a size_t.
  pub new-IsFull :
      (r c : ℕ) (v : A)
      → r * c < 2 ^ 64
      → (m : Matrix A) × (new r c v ≡ ok m) × (m.rows ≡ r) × (m.cols ≡ c) × (length m.cells ≡ r * c)
  unfolding new element_count
  new-IsFull r c v h =
      let fits : (not (c == 0) && ltb ((2 ^ 64 - 1) / c) r) ≡ false = no_overflow r c h in
      let size : u64 (r * c) ≡ r * c = omega arith in
      (
        record { cells = replicate (u64 (r * c)) v; rows = r; cols = c },
        ap
            (λ b. (if b then err length_error else ok (u64 (r * c))) >>= λ n.
              ok (record { cells = replicate n v; rows = r; cols = c }))
            fits,
        refl,
        refl,
        length-replicate (u64 (r * c)) v ∙ size,
      )

  module _ (pos : ℕ → ℕ → ℕ × ℕ) (seen : ℕ → ℕ → ℕ → ℕ → Type 0) (g : ℕ → ℕ → A) (rows cols n k : ℕ)
      (within : (i j : ℕ) → i < n → j < k → ((pos i j).0 < rows) × ((pos i j).1 < cols))
      (more : (i j r c : ℕ)
        → seen i (j + 1) r c
        → seen i j r c ⊎ ((r ≡ (pos i j).0) × (c ≡ (pos i j).1)))
      (next : (i r c : ℕ) → r < rows → c < cols → seen (i + 1) 0 r c → seen i k r c) where
    -- Two nested loops, of which the body assigns the cell of the two indices.
    fill_all :
        (body : ℕ → ℕ → Matrix A → Result (Matrix A)) (m : Matrix A)
        → ((i j : ℕ) (x : Matrix A)
            → i < n
            → j < k
            → body i j x ≡ assign t (pos i j).0 (pos i j).1 (g (pos i j).0 (pos i j).1) x)
        → Filled t (seen 0 0) g rows cols m
        → (y : Matrix A) × (for_from n 0 (λ i. for_from k 0 (body i)) m ≡ ok y)
          × Filled t (seen (0 + n) 0) g rows cols y
    fill_all body m b v =
        for_from_invariant (λ i x. Filled t (seen i 0) g rows cols x) n 0
          (λ i. for_from k 0 (body i)) m
          (λ i x _ l w.
            let (y, e, f) =
              for_from_invariant (λ j z. Filled t (seen i j) g rows cols z) k 0 (body i) x
                (λ j z _ l' u.
                  let li : i < n = omega arith in
                  let lj : j < k = omega arith in
                  let (a, p, q) =
                    assign-Filled t (seen i j) (seen i (j + 1)) g rows cols (pos i j).0 (pos i j).1
                      z (within i j li lj).0 (within i j li lj).1 (more i j) u in
                  (a, b i j z li lj ∙ p, q))
                w in
            (
              y,
              e,
              record {
                same_rows = f.same_rows;
                same_cols = f.same_cols;
                storage = f.storage;
                filled = λ r c h h' s.
                    f.filled r c h h'
                      (subst (λ q. seen i q r c) {x = k} (omega arith) (next i r c h h' s));
              },
            ))
          v

  -- The sum of the first n products for a cell, from the left.
  abbrev pub sum_of : Matrix A → Matrix A → ℕ → ℕ → ℕ → A
  sum_of a b i j zero = t.none_yet
  sum_of a b i j (suc n) = t.plus (sum_of a b i j n) (t.times (cell t a i n) (cell t b n j))

  dot-sum_of :
      (a b : Matrix A) (i j : ℕ)
      → i < a.rows
      → j < b.cols
      → a.cols ≡ b.rows
      → dot t a b i j ≡ ok (sum_of a b i j a.cols)
  unfolding dot
  dot-sum_of a b i j h l e =
      let body : ℕ → A → Result A =
        λ k sum. at t a i k >>= λ x. at t b k j >>= λ y. ok (t.plus sum (t.times x y)) in
      let (y, p, q) =
        for_from_invariant (λ k sum. sum ≡ sum_of a b i j k) a.cols 0 body t.none_yet
          (λ k sum _ bound r.
            let xa = at-cell t a i k h (omega arith) in
            let yb = at-cell t b k j (omega (arith, e)) l in
            (
              t.plus sum (t.times (cell t a i k) (cell t b k j)),
              rw (xa, yb) refl,
              ap (λ z. t.plus z (t.times (cell t a i k) (cell t b k j))) r
                  ∙ ap (sum_of a b i j) {x = suc k} (omega arith),
            ))
          refl in
      p ∙ ap ok (q ∙ ap (sum_of a b i j) {x = 0 + a.cols} (omega arith))

  -- What an operation returns: a full matrix of the size, with the cells of `g`.
  pub record Cells (rows cols : ℕ) (g : ℕ → ℕ → A) (result : Result (Matrix A)) : Type 0 where
    pub matrix : Matrix A
    pub returned : result ≡ ok matrix
    pub same_rows : matrix.rows ≡ rows
    pub same_cols : matrix.cols ≡ cols
    pub full : IsFull matrix
    pub every : (i j : ℕ) → i < rows → j < cols → at t matrix i j ≡ ok (g i j)

  Filled-Cells :
      (seen : ℕ → ℕ → Type 0) (g : ℕ → ℕ → A) (rows cols : ℕ) (result : Result (Matrix A))
      (m : Matrix A)
      → result ≡ ok m
      → Filled t seen g rows cols m
      → ((i j : ℕ) → i < rows → j < cols → seen i j)
      → Cells rows cols g result
  Filled-Cells seen g rows cols result m e f all = record {
    matrix = m;
    returned = e;
    same_rows = f.same_rows;
    same_cols = f.same_cols;
    full = f.storage ∙ (λ k. sym f.same_rows k * sym f.same_cols k);
    every = λ i j h l.
        at-cell t m i j (omega (arith, f.same_rows)) (omega (arith, f.same_cols))
        ∙ ap ok (f.filled i j h l (all i j h l));
  }

  -- The product of two matrices whose sizes agree, and whose product has fewer than 2 ^ 64 cells, is
  -- returned: a full matrix, in which the accessor gives, for each cell, the sum of the products along
  -- the row and the column, added from the left to T{}.
  pub multiply-Cells :
      (a b : Matrix A)
      → a.cols ≡ b.rows
      → a.rows * b.cols < 2 ^ 64
      → Cells a.rows b.cols (λ i j. sum_of a b i j a.cols) (multiply t a b)
  unfolding multiply
  multiply-Cells a b e h =
      let g : ℕ → ℕ → A = λ i j. sum_of a b i j a.cols in
      let (m, p, r, c, full) = new-IsFull a.rows b.cols t.none_yet h in
      let body : ℕ → ℕ → Matrix A → Result (Matrix A) =
        λ i j x. dot t a b i j >>= λ sum. assign t i j sum x in
      let loops : Matrix A → Result (Matrix A) =
        for_from a.rows 0 (λ i. for_from b.cols 0 (body i)) in
      let test : Bool → Result (Matrix A) =
        λ x. if not x then err invalid_argument else new a.rows b.cols t.none_yet >>= loops in
      let fit : (a.cols == b.rows) ≡ true = ground (arith, e) in
      let (y, q, f) =
        fill_all (λ i j. (i, j)) Before g a.rows b.cols a.rows b.cols (λ i j hi hj. (hi, hj))
          Before-more (λ i r' c' hr hc. Before-next i b.cols r' c' hc) body m
          (λ i j x hi hj. rw (dot-sum_of a b i j hi hj e) refl)
          (record {
            same_rows = r;
            same_cols = c;
            storage = full;
            filled = λ r' c' hr hc s. Before-none r' c' s;
          }) in
      Filled-Cells (Before (0 + a.rows) 0) g a.rows b.cols (multiply t a b) y
        (ap test fit ∙ ap (λ o. o >>= loops) p ∙ q) f (λ i j hi hj. inl (omega arith))

  -- `transpose` of a matrix with fewer than 2 ^ 64 cells returns a full matrix of the transposed size, in
  -- which the accessor gives at (j, i) what it gives in the matrix at (i, j).
  pub transpose-Cells :
      (a : Matrix A)
      → a.cols * a.rows < 2 ^ 64
      → Cells a.cols a.rows (λ j i. cell t a i j) (transpose t a)
  unfolding transpose
  transpose-Cells a h =
      let g : ℕ → ℕ → A = λ j i. cell t a i j in
      let (m, p, r, c, full) = new-IsFull a.cols a.rows t.none_yet h in
      let body : ℕ → ℕ → Matrix A → Result (Matrix A) =
        λ i j x. at t a i j >>= λ v. assign t j i v x in
      let loops : Matrix A → Result (Matrix A) =
        for_from a.rows 0 (λ i. for_from a.cols 0 (body i)) in
      let (y, q, f) =
        fill_all (λ i j. (j, i)) (λ i j r' c'. Before i j c' r') g a.cols a.rows a.rows a.cols
          (λ i j hi hj. (hj, hi))
          (λ i j r' c' s. elim (Before-more i j c' r' s) [
            | inl x ↦ inl x
            | inr (u, v) ↦ inr (v, u)
          ])
          (λ i r' c' hr hc. Before-next i a.cols c' r' hr) body m
          (λ i j x hi hj. rw (at-cell t a i j hi hj) refl)
          (record {
            same_rows = r;
            same_cols = c;
            storage = full;
            filled = λ r' c' hr hc s. Before-none c' r' s;
          }) in
      Filled-Cells (λ r' c'. Before (0 + a.rows) 0 c' r') g a.cols a.rows (transpose t a) y
        (ap (λ o. o >>= loops) p ∙ q) f (λ j i hj hi. inl (omega arith))
