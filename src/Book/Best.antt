-- ===== src/Book/Best.antt =====
-- `bestBid`, `bestAsk` and `crossed` of include/L3OrderBook.hpp, which look at the last levels only.
use mini_hft.Base.{
  ℕ, ◌≤◌, ◌≡◌, ◌↔◌, refl, sym, ap, subst, ◌∙◌, Bool, true, false, Option, none, some, List, [], ◌∷◌,
  All, leb, ◌==◌, leb→le, le→leb, Bool-cases, Option-cases, inl, inr, arith,
}
use mathlib.Core.Option.{none-ne-some}
use mini_hft.Book.{Book, BookSide, bid, ask, PriceLevel, before, back, best_bid, best_ask, crossed}
use mini_hft.Book.Levels.{Above, Ordered, find_level, before_ne, before_flip}
use mini_hft.Book.Places.{level_or, find_level-first, find_level-other}

back-All :
    (P : PriceLevel → Type 0) (m : PriceLevel) (ls : List PriceLevel)
    → All P (m ∷ ls)
    → (k : PriceLevel) × (back (m ∷ ls) ≡ some k) × P k
unfolding back
back-All P m [] v = (m, refl, v.0)
back-All P m (l ∷ ls) v = back-All P l ls v.1

before_irrefl : (side : BookSide) (a : ℕ) → before side a a ≡ false
unfolding before
before_irrefl bid a = ground arith
before_irrefl ask a = ground arith

flip_All :
    (side : BookSide) (q : ℕ) (ls : List PriceLevel)
    → Above side q ls
    → All (λ l. before side l.price q ≡ false) ls
flip_All side q [] v = tt
flip_All side q (l ∷ ls) v = (before_flip side q l.price v.0, flip_All side q ls v.1)

same_level : (x y : PriceLevel) → some x ≡ some y → x ≡ y
same_level x y e = ap (level_or x) e

-- The last level is found at its price.
pub back_find :
    (side : BookSide) (k : PriceLevel) (ls : List PriceLevel)
    → Ordered side ls
    → back ls ≡ some k
    → find_level k.price ls ≡ some k
unfolding back
back_find side k [] v e = absurd (none-ne-some k e)
back_find side k (l ∷ []) v e =
    let same : l ≡ k = same_level l k e in
    subst (λ m. find_level m.price (l ∷ []) ≡ some m) same
      (find_level-first l.price l [] (ground arith))
back_find side k (l ∷ m ∷ ls) v e =
    let (j, f, h) = back-All (λ n. before side l.price n.price ≡ true) m ls v.0 in
    let same : j ≡ k = same_level j k (sym f ∙ e) in
    find_level-other k.price l (m ∷ ls)
      (before_ne side l.price k.price (subst (λ n. before side l.price n.price ≡ true) same h))
    ∙ back_find side k (m ∷ ls) v.1 e

-- A side with a level has a last one, and no level is better than it.
pub back_best :
    (side : BookSide) (q : ℕ) (x : PriceLevel) (ls : List PriceLevel)
    → Ordered side ls
    → find_level q ls ≡ some x
    → (k : PriceLevel) × (back ls ≡ some k) × (before side k.price x.price ≡ false)
unfolding back find_level
back_best side q x [] v f = absurd (none-ne-some x f)
back_best side q x (l ∷ []) v f = elim (Bool-cases (l.price == q)) [
  | inl k ↦ (
    l,
    refl,
    subst (λ y. before side l.price y.price ≡ false)
        (same_level l x (sym (find_level-first q l [] k) ∙ f)) (before_irrefl side l.price),
  )
  | inr k ↦ absurd (none-ne-some x (sym (find_level-other q l [] k) ∙ f))
]
back_best side q x (l ∷ m ∷ ls) v f = elim (Bool-cases (l.price == q)) [
  | inl k ↦
      subst
        (λ y. (k : PriceLevel) × (back (m ∷ ls) ≡ some k) × (before side k.price y.price ≡ false))
        (same_level l x (sym (find_level-first q l (m ∷ ls) k) ∙ f))
        (back-All (λ n. before side n.price l.price ≡ false) m ls
          (flip_All side l.price (m ∷ ls) v.0))
  | inr k ↦ back_best side q x (m ∷ ls) v.1 (sym (find_level-other q l (m ∷ ls) k) ∙ f)
]

-- A bid and an ask of the book that could trade with each other.
pub record Crossing (b : Book) : Type 0 where
  pub bid_level : PriceLevel
  pub ask_level : PriceLevel
  pub bid_found : find_level bid_level.price b.bids ≡ some bid_level
  pub ask_found : find_level ask_level.price b.asks ≡ some ask_level
  pub overlap : ask_level.price ≤ bid_level.price

bids_le : (k x : ℕ) → before bid k x ≡ false → x ≤ k
unfolding before
bids_le k x h = ground arith

asks_le : (k x : ℕ) → before ask k x ≡ false → k ≤ x
unfolding before
asks_le k x h = ground arith

-- What `crossed` looks at.
abbrev overlaps : Option PriceLevel → Option PriceLevel → Bool
overlaps none y = false
overlaps (some x) none = false
overlaps (some x) (some y) = leb y.price x.price

overlaps_cases :
    (x y : Option PriceLevel)
    → (elim x [ none ↦ false | some k ↦ elim y [ none ↦ false | some l ↦ leb l.price k.price ] ])
      ≡ overlaps x y
overlaps_cases none y = refl
overlaps_cases (some k) none = refl
overlaps_cases (some k) (some l) = refl

crossed-overlaps : (b : Book) → crossed b ≡ overlaps (back b.bids) (back b.asks)
unfolding crossed best_bid best_ask
crossed-overlaps b = overlaps_cases (back b.bids) (back b.asks)

true-ne-false : false ≡ true → (A : Type 0) → A
true-ne-false e A = absurd (ground arith)

crossed_sound : (b : Book) → Ordered bid b.bids → Ordered ask b.asks → crossed b ≡ true → Crossing b
crossed_sound b v w h = elim (Option-cases (back b.bids)) [
  | inl n ↦
      true-ne-false (sym (crossed-overlaps b ∙ ap (λ o. overlaps o (back b.asks)) n) ∙ h)
        (Crossing b)
  | inr (x, e) ↦ elim (Option-cases (back b.asks)) [
    | inl n ↦
        true-ne-false
          (sym
              (crossed-overlaps b ∙ ap (λ o. overlaps o (back b.asks)) e ∙ ap (overlaps (some x)) n)
            ∙ h)
          (Crossing b)
    | inr (y, f) ↦ record {
      bid_level = x;
      ask_level = y;
      bid_found = back_find bid x b.bids v e;
      ask_found = back_find ask y b.asks w f;
      overlap = leb→le y.price x.price (
          sym (crossed-overlaps b ∙ ap (λ o. overlaps o (back b.asks)) e ∙ ap (overlaps (some x)) f)
          ∙ h);
    }
  ]
]

crossed_complete :
    (b : Book) → Ordered bid b.bids → Ordered ask b.asks → Crossing b → crossed b ≡ true
crossed_complete b v w c =
    let (x, e, h) = back_best bid c.bid_level.price c.bid_level b.bids v c.bid_found in
    let (y, f, k) = back_best ask c.ask_level.price c.ask_level b.asks w c.ask_found in
    let le : y.price ≤ x.price = omega (
      arith,
      bids_le x.price c.bid_level.price h,
      asks_le y.price c.ask_level.price k,
      c.overlap,
    ) in
    crossed-overlaps b
    ∙ ap (λ o. overlaps o (back b.asks)) e
    ∙ ap (overlaps (some x)) f
    ∙ le→leb y.price x.price le

-- When both sides of a book are sorted, `crossed` is true exactly when some bid level's price is
-- at least some ask level's price.
pub crossed_iff :
    (b : Book) → Ordered bid b.bids → Ordered ask b.asks → (crossed b ≡ true) ↔ Crossing b
crossed_iff b v w = (crossed_sound b v w, crossed_complete b v w)
