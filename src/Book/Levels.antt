-- ===== src/Book/Levels.antt =====
-- The sorted levels of one side of include/L3OrderBook.hpp, read as a map from prices: what a write
-- at the place that `lowerBound` finds does to it.
use mini_hft.Base.{
  ℕ, suc, ◌≡◌, refl, subst, ap, true, false, Option, none, some, List, [], ◌∷◌, All, length, ◌==◌,
  if◌then◌else◌, ==→eq, arith,
}
use mini_hft.Book.{BookSide, bid, ask, PriceLevel, before}

-- Every level is better than the price p, and each is better than those before it.
abbrev pub Above : BookSide → ℕ → List PriceLevel → Type 0
Above side p ls = All (λ l. before side p l.price ≡ true) ls

abbrev pub Ordered : BookSide → List PriceLevel → Type 0
Ordered side [] = Unit
Ordered side (l ∷ ls) = Above side l.price ls × Ordered side ls

-- The level at a price, and the number of levels that are better than it.
unfoldable pub find_level : ℕ → List PriceLevel → Option PriceLevel
find_level q [] = none
find_level q (l ∷ ls) = let rest = find_level q ls in if l.price == q then some l else rest

unfoldable pub better : BookSide → ℕ → List PriceLevel → ℕ
better side p [] = 0
better side p (l ∷ ls) =
    let rest = better side p ls in if before side p l.price then suc rest else rest

-- The level put in the place of its price.
unfoldable pub upsert : BookSide → ℕ → PriceLevel → List PriceLevel → List PriceLevel
upsert side price x [] = x ∷ []
upsert side price x (l ∷ ls) =
    let rest = upsert side price x ls in
    if before side l.price price then l ∷ rest else if l.price == price then x ∷ ls else x ∷ l ∷ ls

-- The level at a price, taken away.
unfoldable pub discard : BookSide → ℕ → List PriceLevel → List PriceLevel
discard side price [] = []
discard side price (l ∷ ls) =
    let rest = discard side price ls in if before side l.price price then l ∷ rest else ls

pub before_trans :
    (side : BookSide) (a b c : ℕ)
    → before side a b ≡ true
    → before side b c ≡ true
    → before side a c ≡ true
unfolding before
before_trans bid a b c h k = ground arith
before_trans ask a b c h k = ground arith

pub before_ne : (side : BookSide) (a b : ℕ) → before side a b ≡ true → (a == b) ≡ false
unfolding before
before_ne bid a b h = ground arith
before_ne ask a b h = ground arith

pub before_flip : (side : BookSide) (a b : ℕ) → before side a b ≡ true → before side b a ≡ false
unfolding before
before_flip bid a b h = ground arith
before_flip ask a b h = ground arith

pub before_total :
    (side : BookSide) (a b : ℕ)
    → before side a b ≡ false
    → (a == b) ≡ false
    → before side b a ≡ true
unfolding before
before_total bid a b h k = ground arith
before_total ask a b h k = ground arith

pub Above-trans :
    (side : BookSide) (a b : ℕ) (ls : List PriceLevel)
    → before side a b ≡ true
    → Above side b ls
    → Above side a ls
Above-trans side a b [] h v = tt
Above-trans side a b (l ∷ ls) h v =
    (before_trans side a b l.price h v.0, Above-trans side a b ls h v.1)

==_flip : (a b : ℕ) → (a == b) ≡ false → (b == a) ≡ false
==_flip a b h = ground arith

pub find_level-Above :
    (side : BookSide) (q : ℕ) (ls : List PriceLevel) → Above side q ls → find_level q ls ≡ none
unfolding find_level
find_level-Above side q [] v = refl
find_level-Above side q (l ∷ ls) v =
    rw (==_flip q l.price (before_ne side q l.price v.0)) (find_level-Above side q ls v.1)

pub better-Above :
    (side : BookSide) (q : ℕ) (ls : List PriceLevel)
    → Above side q ls
    → better side q ls ≡ length ls
unfolding better
better-Above side q [] v = refl
better-Above side q (l ∷ ls) v = rw v.0 (ap suc (better-Above side q ls v.1))

pub before_same : (side : BookSide) (a b : ℕ) → (a == b) ≡ true → before side b a ≡ false
unfolding before
before_same bid a b h = ground arith
before_same ask a b h = ground arith

pub Above-same :
    (side : BookSide) (a b : ℕ) (ls : List PriceLevel)
    → (a == b) ≡ true
    → Above side a ls
    → Above side b ls
Above-same side a b ls h v = subst (λ c. Above side c ls) (==→eq a b h) v
