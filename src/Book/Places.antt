-- ===== src/Book/Places.antt =====
-- The writes of include/L3OrderBook.hpp at the index that `lowerBound` finds, as writes by price.
use mini_hft.Base.{
  ℕ, suc, ◌+◌, ◌≡◌, refl, sym, ap, ◌∙◌, true, false, Option, none, some, List, [], ◌∷◌, length, set,
  ◌==◌, ◌||◌, not, if◌then◌else◌, Bool-cases, inl, inr, arith,
}
use mathlib.Core.Option.{none-ne-some}
use mini_hft.Book.{
  BookSide, PriceLevel, before, lower_bound, insert_at, erase_at, open_level, new_level, level_at,
}
use mini_hft.Book.Levels.{
  Ordered, find_level, better, upsert, discard, before_ne, before_flip, before_total, Above-trans,
  find_level-Above, better-Above, before_same, Above-same,
}

-- The level at a price, or the given one where there is none.
abbrev pub level_or : PriceLevel → Option PriceLevel → PriceLevel
level_or d none = d
level_or d (some l) = l

==_suc : (a b : ℕ) → (suc a == suc b) ≡ (a == b)
==_suc a b = ground arith

pub open_level-later :
    (side : BookSide) (price : ℕ) (l : PriceLevel) (ls : List PriceLevel)
    → before side l.price price ≡ true
    → open_level side price (l ∷ ls) ≡ l ∷ open_level side price ls
unfolding open_level lower_bound insert_at
open_level-later side price l ls h =
    rw (h, ==_suc (lower_bound side price ls) (length ls))
      (elim (Bool-cases (
        lower_bound side price ls == length ls
        || not ((level_at ls (lower_bound side price ls)).price == price))) [
          | inl y ↦ rw y refl
          | inr n ↦ rw n refl
        ])

pub lower_bound-later :
    (side : BookSide) (price : ℕ) (l : PriceLevel) (ls : List PriceLevel)
    → before side l.price price ≡ true
    → lower_bound side price (l ∷ ls) ≡ suc (lower_bound side price ls)
unfolding lower_bound
lower_bound-later side price l ls h = rw h refl

pub lower_bound-here :
    (side : BookSide) (price : ℕ) (l : PriceLevel) (ls : List PriceLevel)
    → before side l.price price ≡ false
    → lower_bound side price (l ∷ ls) ≡ 0
unfolding lower_bound
lower_bound-here side price l ls h = rw h refl

zero_ne-suc : (n : ℕ) → (0 == suc n) ≡ false
zero_ne-suc n = ground arith

pub open_level-here :
    (side : BookSide) (price : ℕ) (l : PriceLevel) (ls : List PriceLevel)
    → before side l.price price ≡ false
    → open_level side price (l ∷ ls)
      ≡ (if l.price == price then l ∷ ls else new_level price ∷ l ∷ ls)
unfolding open_level insert_at
open_level-here side price l ls h =
    rw (lower_bound-here side price l ls h, zero_ne-suc (length ls))
      (elim (Bool-cases (l.price == price)) [ inl y ↦ rw y refl | inr n ↦ rw n refl ])

set-open_level_nil :
    (side : BookSide) (price : ℕ) (x : PriceLevel)
    → set (open_level side price []) (lower_bound side price []) x ≡ x ∷ []
unfolding open_level lower_bound insert_at
set-open_level_nil side price x = refl

level_at-open_level_nil :
    (side : BookSide) (price : ℕ)
    → level_at (open_level side price []) (lower_bound side price []) ≡ new_level price
unfolding open_level lower_bound insert_at
level_at-open_level_nil side price = refl

depth-open_level_nil :
    (side : BookSide) (price : ℕ)
    → length (open_level side price []) ≡ suc (lower_bound side price [] + 0)
unfolding open_level lower_bound insert_at
depth-open_level_nil side price = refl

-- Opening a level and writing to it puts the level in the place of its price.
pub set-open_level :
    (side : BookSide) (price : ℕ) (x : PriceLevel) (ls : List PriceLevel)
    → set (open_level side price ls) (lower_bound side price ls) x ≡ upsert side price x ls
unfolding upsert
set-open_level side price x [] = set-open_level_nil side price x
set-open_level side price x (l ∷ ls) = elim (Bool-cases (before side l.price price)) [
  | inl h ↦
      rw (open_level-later side price l ls h, lower_bound-later side price l ls h, h)
        (ap (◌∷◌ l) (set-open_level side price x ls))
  | inr h ↦
      rw (open_level-here side price l ls h, lower_bound-here side price l ls h, h)
        (elim (Bool-cases (l.price == price)) [ inl k ↦ rw k refl | inr k ↦ rw k refl ])
]

-- The level that `add` writes to is the one at the price, or a new one.
pub level_at-open_level :
    (side : BookSide) (price : ℕ) (ls : List PriceLevel)
    → Ordered side ls
    → level_at (open_level side price ls) (lower_bound side price ls)
      ≡ level_or (new_level price) (find_level price ls)
unfolding find_level
level_at-open_level side price [] v = level_at-open_level_nil side price
level_at-open_level side price (l ∷ ls) v = elim (Bool-cases (before side l.price price)) [
  | inl h ↦
      rw
        (
          open_level-later side price l ls h,
          lower_bound-later side price l ls h,
          before_ne side l.price price h,
        )
        (level_at-open_level side price ls v.1)
  | inr h ↦ elim (Bool-cases (l.price == price)) [
    | inl k ↦ rw (open_level-here side price l ls h, lower_bound-here side price l ls h, k) refl
    | inr k ↦
        rw
          (
            open_level-here side price l ls h,
            lower_bound-here side price l ls h,
            k,
            find_level-Above side price ls
                (Above-trans side price l.price ls (before_total side l.price price h k) v.0),
          )
          refl
  ]
]

-- The depth that `add` returns is the number of better levels.
pub depth-open_level :
    (side : BookSide) (price : ℕ) (ls : List PriceLevel)
    → Ordered side ls
    → length (open_level side price ls) ≡ suc (lower_bound side price ls + better side price ls)
unfolding better
depth-open_level side price [] v = depth-open_level_nil side price
depth-open_level side price (l ∷ ls) v = elim (Bool-cases (before side l.price price)) [
  | inl h ↦
      rw
        (
          open_level-later side price l ls h,
          lower_bound-later side price l ls h,
          before_flip side l.price price h,
        )
        (omega (arith, depth-open_level side price ls v.1))
  | inr h ↦ elim (Bool-cases (l.price == price)) [
    | inl k ↦
        rw
          (
            open_level-here side price l ls h,
            lower_bound-here side price l ls h,
            k,
            before_same side l.price price k,
            better-Above side price ls (Above-same side l.price price ls k v.0),
          )
          (omega arith)
    | inr k ↦
        rw
          (
            open_level-here side price l ls h,
            lower_bound-here side price l ls h,
            k,
            before_total side l.price price h k,
            better-Above side price ls
                (Above-trans side price l.price ls (before_total side l.price price h k) v.0),
          )
          (omega arith)
  ]
]

pub find_level-later :
    (side : BookSide) (price : ℕ) (l : PriceLevel) (ls : List PriceLevel)
    → before side l.price price ≡ true
    → find_level price (l ∷ ls) ≡ find_level price ls
unfolding find_level
find_level-later side price l ls h = rw (before_ne side l.price price h) refl

pub find_level-other :
    (price : ℕ) (l : PriceLevel) (ls : List PriceLevel)
    → (l.price == price) ≡ false
    → find_level price (l ∷ ls) ≡ find_level price ls
unfolding find_level
find_level-other price l ls k = rw k refl

pub find_level-first :
    (price : ℕ) (l : PriceLevel) (ls : List PriceLevel)
    → (l.price == price) ≡ true
    → find_level price (l ∷ ls) ≡ some l
unfolding find_level
find_level-first price l ls k = rw k refl

-- Where the price has a level, `lowerBound` finds it, and a write there puts it in its place.
pub present :
    (side : BookSide) (price : ℕ) (x : PriceLevel) (ls : List PriceLevel)
    → Ordered side ls
    → find_level price ls ≡ some x
    → (level_at ls (lower_bound side price ls) ≡ x)
      × (open_level side price ls ≡ ls)
      × (erase_at (lower_bound side price ls) ls ≡ discard side price ls)
unfolding find_level discard erase_at
present side price x [] v f = absurd (none-ne-some x f)
present side price x (l ∷ ls) v f = elim (Bool-cases (before side l.price price)) [
  | inl h ↦
      let (a, b, c) = present side price x ls v.1 (sym (find_level-later side price l ls h) ∙ f) in
      rw (open_level-later side price l ls h, lower_bound-later side price l ls h, h, b)
        (a, refl, ap (◌∷◌ l) c)
  | inr h ↦ elim (Bool-cases (l.price == price)) [
    | inl k ↦
        rw (open_level-here side price l ls h, lower_bound-here side price l ls h, h, k)
          (ap (level_or x) (sym (find_level-first price l ls k) ∙ f), refl, refl)
    | inr k ↦ absurd (
        none-ne-some x (
          sym (
            find_level-Above side price (l ∷ ls) (
              before_total side l.price price h k,
              Above-trans side price l.price ls (before_total side l.price price h k) v.0,
            ))
          ∙ f))
  ]
]
