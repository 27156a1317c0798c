-- ===== src/Index/Stays.antt =====
-- The test by which `erase` of include/OrderIndex.hpp moves an entry back.
use mini_hft.Base.{ℕ, ◌+◌, ◌-◌, ◌%◌, ◌≤◌, ◌<◌, ◌≡◌, ap, ◌∙◌, ◌*◌, ltb, not, arith}
use native.Mathlib.Nat.{mod-eq_of_lt, mul-add-mod_self_left}
use native.Mathlib.Decide.{dec_lt}
use mini_hft.Index.{stays}

-- The number of steps from slot h on to slot x round a table of n slots.
abbrev pub steps_to : ℕ → ℕ → ℕ → ℕ
steps_to n h x = (x + n - h) % n

steps_to-ahead : (n h x : ℕ) → h ≤ x → x < n → steps_to n h x ≡ x - h
steps_to-ahead n h x le lt =
    let e : x + n - h ≡ n * 1 + (x - h) = omega arith in
    ap (λ y. y % n) e ∙ mul-add-mod_self_left n 1 (x - h) ∙ mod-eq_of_lt (omega arith)

steps_to-behind : (n h x : ℕ) → x < h → h < n → steps_to n h x ≡ x + n - h
steps_to-behind n h x lt in_table = mod-eq_of_lt (omega arith)

-- In a table of n slots, the test keeps the entry at slot j, whose home is h, exactly when a probe
-- from h does not meet the hole before j.
pub stays-steps_to :
    (n hole h j : ℕ)
    → hole < n
    → h < n
    → j < n
    → stays hole h j ≡ not (ltb (steps_to n h hole) (steps_to n h j))
unfolding stays
stays-steps_to n hole h j a b c = elim (dec_lt hole h) [
  | yes p ↦ elim (dec_lt j h) [
    | yes q ↦ rw (steps_to-behind n h hole p b, steps_to-behind n h j q b) (ground arith)
    | no q ↦ rw (steps_to-behind n h hole p b, steps_to-ahead n h j (omega arith) c) (ground arith)
  ]
  | no p ↦ elim (dec_lt j h) [
    | yes q ↦ rw (steps_to-ahead n h hole (omega arith) a, steps_to-behind n h j q b) (ground arith)
    | no q ↦
        rw (steps_to-ahead n h hole (omega arith) a, steps_to-ahead n h j (omega arith) c)
          (ground arith)
  ]
]
