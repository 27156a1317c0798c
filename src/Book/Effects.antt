-- ===== src/Book/Effects.antt =====
-- What `add`, `reduce` and `remove` of include/L3OrderBook.hpp do to the levels of a book.
use mini_hft.Base.{
  ℕ, ◌≡◌, ◌≢◌, refl, sym, ap, ◌∙◌, true, false, Option, none, some, List, [], ◌∷◌, ◌==◌,
  if◌then◌else◌, Bool-cases, inl, inr, ==→eq, ==_refl, arith,
}
use mathlib.Core.Option.{none-ne-some}
use mini_hft.Book.{Book, BookSide, bid, ask, PriceLevel, before, levels, set_levels}
use mini_hft.Book.Levels.{
  Above, Ordered, find_level, better, upsert, discard, before_ne, before_total, Above-same,
  Above-trans, find_level-Above,
}
use mini_hft.Book.Places.{level_or, find_level-later, find_level-first, find_level-other}

Above-upsert :
    (side : BookSide) (p price : ℕ) (x : PriceLevel) (ls : List PriceLevel)
    → before side p x.price ≡ true
    → Above side p ls
    → Above side p (upsert side price x ls)
unfolding upsert
Above-upsert side p price x [] h v = (h, tt)
Above-upsert side p price x (l ∷ ls) h v = elim (Bool-cases (before side l.price price)) [
  | inl b ↦ rw b (v.0, Above-upsert side p price x ls h v.1)
  | inr b ↦
      rw b (elim (Bool-cases (l.price == price)) [ inl k ↦ rw k (h, v.1) | inr k ↦ rw k (h, v) ])
]

Above-discard :
    (side : BookSide) (p price : ℕ) (ls : List PriceLevel)
    → Above side p ls
    → Above side p (discard side price ls)
unfolding discard
Above-discard side p price [] v = tt
Above-discard side p price (l ∷ ls) v = elim (Bool-cases (before side l.price price)) [
  | inl b ↦ rw b (v.0, Above-discard side p price ls v.1)
  | inr b ↦ rw b v.1
]

pub upsert-Ordered :
    (side : BookSide) (x : PriceLevel) (ls : List PriceLevel)
    → Ordered side ls
    → Ordered side (upsert side x.price x ls)
unfolding upsert
upsert-Ordered side x [] v = (tt, tt)
upsert-Ordered side x (l ∷ ls) v = elim (Bool-cases (before side l.price x.price)) [
  | inl b ↦ rw b (Above-upsert side l.price x.price x ls b v.0, upsert-Ordered side x ls v.1)
  | inr b ↦ rw b (elim (Bool-cases (l.price == x.price)) [
    | inl k ↦ rw k (Above-same side l.price x.price ls k v.0, v.1)
    | inr k ↦
        let c = before_total side l.price x.price b k in
        rw k ((c, Above-trans side x.price l.price ls c v.0), v)
  ])
]

pub discard-Ordered :
    (side : BookSide) (price : ℕ) (ls : List PriceLevel)
    → Ordered side ls
    → Ordered side (discard side price ls)
unfolding discard
discard-Ordered side price [] v = tt
discard-Ordered side price (l ∷ ls) v = elim (Bool-cases (before side l.price price)) [
  | inl b ↦ rw b (Above-discard side l.price price ls v.0, discard-Ordered side price ls v.1)
  | inr b ↦ rw b v.1
]

apart : (a b q : ℕ) → (a == b) ≡ false → (a == q) ≡ true → (b == q) ≡ false
apart a b q h k = ground arith

joined : (a b q : ℕ) → (a == b) ≡ true → (b == q) ≡ false → (a == q) ≡ false
joined a b q h k = ground arith

unequal : (a b : ℕ) → a ≢ b → (b == a) ≡ false
unequal a b h = ground arith

pub find_level-upsert :
    (side : BookSide) (q : ℕ) (x : PriceLevel) (ls : List PriceLevel)
    → find_level q (upsert side x.price x ls) ≡ (if x.price == q then some x else find_level q ls)
unfolding upsert find_level
find_level-upsert side q x [] = refl
find_level-upsert side q x (l ∷ ls) = elim (Bool-cases (before side l.price x.price)) [
  | inl b ↦
      rw (b, find_level-upsert side q x ls)
        (elim (Bool-cases (l.price == q)) [
          | inl k ↦ rw (k, apart l.price x.price q (before_ne side l.price x.price b) k) refl
          | inr k ↦ rw k refl
        ])
  | inr b ↦ rw b (elim (Bool-cases (l.price == x.price)) [
    | inl k ↦ rw k (elim (Bool-cases (x.price == q)) [
      | inl j ↦ rw j refl
      | inr j ↦ rw (j, joined l.price x.price q k j) refl
    ])
    | inr k ↦ rw k refl
  ])
]

pub find_level-discard :
    (side : BookSide) (price q : ℕ) (x : PriceLevel) (ls : List PriceLevel)
    → Ordered side ls
    → find_level price ls ≡ some x
    → find_level q (discard side price ls) ≡ (if price == q then none else find_level q ls)
unfolding discard find_level
find_level-discard side price q x [] v f = absurd (none-ne-some x f)
find_level-discard side price q x (l ∷ ls) v f = elim (Bool-cases (before side l.price price)) [
  | inl b ↦
      rw
        (b, find_level-discard side price q x ls v.1 (sym (find_level-later side price l ls b) ∙ f))
        (elim (Bool-cases (l.price == q)) [
          | inl k ↦ rw (k, apart l.price price q (before_ne side l.price price b) k) refl
          | inr k ↦ rw k refl
        ])
  | inr b ↦ elim (Bool-cases (l.price == price)) [
    | inl k ↦ rw b (elim (Bool-cases (price == q)) [
      | inl j ↦ rw j (
          find_level-Above side q ls
            (Above-same side price q ls j (Above-same side l.price price ls k v.0)))
      | inr j ↦ rw (j, joined l.price price q k j) refl
    ])
    | inr k ↦ absurd (
        none-ne-some x (
          sym (
            find_level-Above side price (l ∷ ls) (
              before_total side l.price price b k,
              Above-trans side price l.price ls (before_total side l.price price b k) v.0,
            ))
          ∙ f))
  ]
]

-- The level found at a price has that price.
pub find_level_price :
    (q : ℕ) (x : PriceLevel) (ls : List PriceLevel) → find_level q ls ≡ some x → x.price ≡ q
unfolding find_level
find_level_price q x [] f = absurd (none-ne-some x f)
find_level_price q x (l ∷ ls) f = elim (Bool-cases (l.price == q)) [
  | inl k ↦
      let e : l ≡ x = ap (level_or x) (sym (find_level-first q l ls k) ∙ f) in
      sym (ap (λ y. y.price) e) ∙ ==→eq l.price q k
  | inr k ↦ find_level_price q x ls (sym (find_level-other q l ls k) ∙ f)
]

-- The book b' and the depth after an operation at one price of one side, which leaves x there.
pub record Changed (side : BookSide) (price : ℕ) (x : Option PriceLevel) (b b' : Book) (depth : ℕ)
    : Type 0 where
  pub ordered : (s : BookSide) → Ordered s (levels s b')
  pub here : find_level price (levels side b') ≡ x
  pub elsewhere : (q : ℕ) → q ≢ price → find_level q (levels side b') ≡ find_level q (levels side b)
  pub opposite : (s : BookSide) → s ≢ side → levels s b' ≡ levels s b
  pub distance : depth ≡ better side price (levels side b)

both_sides : (P : BookSide → Type 0) → P bid → P ask → (s : BookSide) → P s
both_sides P x y bid = x
both_sides P x y ask = y

-- A side replaced by ordered levels that differ from it at one price.
pub set_levels-Changed :
    (side : BookSide) (price : ℕ) (x : Option PriceLevel) (b : Book) (ls : List PriceLevel)
    (depth : ℕ)
    → ((s : BookSide) → Ordered s (levels s b))
    → Ordered side ls
    → ((q : ℕ) → find_level q ls ≡ (if price == q then x else find_level q (levels side b)))
    → depth ≡ better side price (levels side b)
    → Changed side price x b (set_levels side ls b) depth
set_levels-Changed bid price x b ls depth v w f d = record {
  ordered = both_sides (λ s. Ordered s (levels s (set_levels bid ls b))) (w) (v ask);
  here = f price ∙ rw (==_refl price) refl;
  elsewhere = λ q h. f q ∙ rw (unequal q price h) refl;
  opposite =
      both_sides (λ s. s ≢ bid → levels s (set_levels bid ls b) ≡ levels s b) (λ h. absurd (h refl))
        (λ h. refl);
  distance = d;
}
set_levels-Changed ask price x b ls depth v w f d = record {
  ordered = both_sides (λ s. Ordered s (levels s (set_levels ask ls b))) (v bid) (w);
  here = f price ∙ rw (==_refl price) refl;
  elsewhere = λ q h. f q ∙ rw (unequal q price h) refl;
  opposite =
      both_sides (λ s. s ≢ ask → levels s (set_levels ask ls b) ≡ levels s b) (λ h. refl)
        (λ h. absurd (h refl));
  distance = d;
}
