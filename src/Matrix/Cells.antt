-- ===== src/Matrix/Cells.antt =====
-- The cells of include/Matrix.hpp: where they lie, and what the accessor and an assignment do in bounds.
use mini_hft.Base.{
  ℕ, suc, ◌+◌, ◌*◌, ◌≤◌, ◌<◌, ◌≡◌, sym, ap, ◌∙◌, inl, inr, ◌⊎◌, length, get_or, set, ltb,
  Bool-cases, ltb→lt, ltb→le, length-set, get_or-set_self, get_or-set_ne, arith,
}
use native.Mathlib.Decide.{ℕ_discrete}
use native.Mathlib.Nat.{mul-le-mul_right, suc-mul}
use mini_hft.Matrix.{Elements, Matrix, ok, at, assign}

-- A matrix stores one element for each cell.
abbrev pub IsFull : {A : Type 0} → Matrix A → Type 0
IsFull m = length m.cells ≡ m.rows * m.cols

next_row : (r r' n : ℕ) → r < r' → r * n + n ≤ r' * n
next_row r r' n h = omega (arith, mul-le-mul_right {m = suc r} {n = r'} n h, suc-mul r n)

pub inside : (r c rows cols : ℕ) → r < rows → c < cols → r * cols + c < rows * cols
inside r c rows cols h l = omega (arith, next_row r rows cols h)

-- Different cells lie at different places.
apart :
    (r c r' c' cols : ℕ)
    → c < cols
    → c' < cols
    → r * cols + c ≡ r' * cols + c'
    → (r ≡ r') × (c ≡ c')
apart r c r' c' cols h h' e = elim (Bool-cases (ltb r r')) [
  | inl y ↦ absurd (omega (arith, next_row r r' cols (ltb→lt r r' y)))
  | inr n ↦ elim (Bool-cases (ltb r' r)) [
    | inl y ↦ absurd (omega (arith, next_row r' r cols (ltb→lt r' r y)))
    | inr n' ↦
        let same : r ≡ r' = omega (arith, ltb→le r r' n, ltb→le r' r n') in
        (same, omega (arith, ap (λ k. k * cols) same))
  ]
]

module _ {A : Type 0} (t : Elements A) where
  -- The element in a cell.
  abbrev pub cell : Matrix A → ℕ → ℕ → A
  cell m r c = get_or m.cells (r * m.cols + c) t.none_yet

  pub at-cell : (m : Matrix A) (r c : ℕ) → r < m.rows → c < m.cols → at t m r c ≡ ok (cell m r c)
  unfolding at
  at-cell m r c h l = ground arith

  -- The cells that are `seen` have been given the values of `g`.
  pub record Filled (seen : ℕ → ℕ → Type 0) (g : ℕ → ℕ → A) (rows cols : ℕ) (m : Matrix A)
      : Type 0 where
    pub same_rows : m.rows ≡ rows
    pub same_cols : m.cols ≡ cols
    pub storage : length m.cells ≡ rows * cols
    pub filled : (r c : ℕ) → r < rows → c < cols → seen r c → cell m r c ≡ g r c

  set-Filled :
      (seen : ℕ → ℕ → Type 0) (g : ℕ → ℕ → A) (rows cols r c r' c' : ℕ) (m : Matrix A)
      → r < rows
      → c < cols
      → r' < rows
      → c' < cols
      → r * m.cols + c < length m.cells
      → seen r' c' ⊎ ((r' ≡ r) × (c' ≡ c))
      → Filled seen g rows cols m
      → get_or (set m.cells (r * m.cols + c) (g r c)) (r' * m.cols + c') t.none_yet ≡ g r' c'
  set-Filled seen g rows cols r c r' c' m h l h' l' place more v =
      let i : ℕ = r * m.cols + c in
      let j : ℕ = r' * m.cols + c' in
      elim (ℕ_discrete i j) [
        | yes e ↦
            let (p, q) =
              apart r c r' c' m.cols (omega (arith, v.same_cols)) (omega (arith, v.same_cols)) e in
            ap (λ x. get_or (set m.cells i (g r c)) x t.none_yet) (sym e)
            ∙ get_or-set_self m.cells i (g r c) t.none_yet place
            ∙ (λ k. g (p k) (q k))
        | no d ↦ get_or-set_ne m.cells i j (g r c) t.none_yet d ∙ elim more [
          | inl s ↦ v.filled r' c' h' l' s
          | inr (p, q) ↦ absurd (d (λ k. sym p k * m.cols + sym q k))
        ]
      ]

  -- One cell more.
  pub assign-Filled :
      (seen seen' : ℕ → ℕ → Type 0) (g : ℕ → ℕ → A) (rows cols r c : ℕ) (m : Matrix A)
      → r < rows
      → c < cols
      → ((r' c' : ℕ) → seen' r' c' → seen r' c' ⊎ ((r' ≡ r) × (c' ≡ c)))
      → Filled seen g rows cols m
      → (y : Matrix A) × (assign t r c (g r c) m ≡ ok y) × Filled seen' g rows cols y
  unfolding assign
  assign-Filled seen seen' g rows cols r c m h l more v =
      let place : r * m.cols + c < length m.cells =
        omega (arith, ap (λ k. r * k + c) v.same_cols, inside r c rows cols h l, v.storage) in
      (
        record m { cells = set m.cells (r * m.cols + c) (g r c) },
        ground (arith, v.same_rows, v.same_cols),
        record {
          same_rows = v.same_rows;
          same_cols = v.same_cols;
          storage = length-set m.cells (r * m.cols + c) (g r c) ∙ v.storage;
          filled = λ r' c' h' l' s.
              set-Filled seen g rows cols r c r' c' m h l h' l' place (more r' c' s) v;
        },
      )
