-- ===== src/Book/Tests.antt =====
-- A small book of include/L3OrderBook.hpp.
use mini_hft.Base.{ℕ, ◌≡◌, ◌↔◌, refl, true, Option, none, some, [], ◌∷◌, ◌==◌, if◌then◌else◌, arith}
use mini_hft.Book.{
  Book, BookOrder, Store, BookSide, bid, ask, PriceLevel, before, levels, add, reduce, remove,
  crossed, best_bid, back, lower_bound, open_level, insert_at,
}
use mini_hft.Book.Levels.{Ordered, find_level}
use mini_hft.Book.Effects.{Changed}
use mini_hft.Book.Queue.{IsQueue, Relinked}
use mini_hft.Book.Orders.{OrdersAt, add-OrdersAt}
use mini_hft.Book.Removed.{remove-OrdersAt}
use mini_hft.Book.Reduced.{less, reduce-OrdersAt}
use mini_hft.Book.Best.{Crossing, crossed_iff}

abbrev order_of : BookSide → ℕ → ℕ → BookOrder
order_of side price shares = record {
  ref = 7;
  price = price;
  shares = shares;
  locate = 1;
  side = side;
  prev = none;
  next = none;
}

abbrev level_of : ℕ → ℕ → ℕ → PriceLevel
level_of price shares p = record {
  price = price;
  order_count = 1;
  shares = shares;
  head = some p;
  tail = some p;
}

-- Pointers 0 to 2 are the orders of the book; 4 is one more at a price, and all others are a bid between
-- two levels.
abbrev orders : Store
orders p =
    if p == 0
    then order_of bid 90 10
    else if p == 1
    then order_of bid 100 20
    else if p == 2
    then order_of ask 105 30
    else if p == 4
    then order_of bid 100 5
    else order_of bid 95 40

abbrev two_sides : Book
two_sides = record {
  bids = level_of 90 10 0 ∷ level_of 100 20 1 ∷ [];
  asks = level_of 105 30 2 ∷ [];
}

two_sides-Ordered : (s : BookSide) → Ordered s (levels s two_sides)
unfolding before
two_sides-Ordered bid = ((refl, tt), (tt, tt))
two_sides-Ordered ask = (tt, tt)

found_100 : find_level 100 two_sides.bids ≡ some (level_of 100 20 1)
unfolding find_level
found_100 = refl

IsQueue-100 : IsQueue orders (level_of 100 20 1) (1 ∷ [])
IsQueue-100 = record {
  distinct = (refl, tt);
  head = refl;
  tail = refl;
  links = (refl, refl, tt);
  count = refl;
  shares = refl;
}

best_bid-run : best_bid two_sides ≡ some (level_of 100 20 1)
unfolding best_bid back
best_bid-run = refl

-- A new level between the two: its depth is 1.
add-run : (add 3 orders two_sides).2 ≡ 1
unfolding add open_level lower_bound before insert_at
add-run = refl

-- Order 4 goes behind order 1.
add-OrdersAt_example :
    (o : Option PriceLevel) × Changed bid 100 o two_sides
      (add 4 orders two_sides).1
      (add 4 orders two_sides).2
    × OrdersAt (add 4 orders two_sides).0 o (1 ∷ 4 ∷ [])
    × Relinked (1 ∷ 4 ∷ []) orders (add 4 orders two_sides).0
add-OrdersAt_example =
    add-OrdersAt 4 orders two_sides (1 ∷ []) two_sides-Ordered
      (rw found_100 (IsQueue-100, omega arith)) refl

-- A level of three orders.
abbrev chain : Store
chain p =
    let o = order_of bid 100 20 in
    if p == 1
    then record o { next = some 4 }
    else if p == 4
    then record o { prev = some 1; next = some 5 }
    else record o { prev = some 4 }

abbrev level_100 : PriceLevel
level_100 = record { price = 100; order_count = 3; shares = 60; head = some 1; tail = some 5 }

abbrev one_level : Book
one_level = record { bids = level_100 ∷ []; asks = [] }

one_level-Ordered : (s : BookSide) → Ordered s (levels s one_level)
one_level-Ordered bid = (tt, tt)
one_level-Ordered ask = tt

chain-OrdersAt : OrdersAt chain (find_level 100 one_level.bids) (1 ∷ 4 ∷ 5 ∷ [])
unfolding find_level
chain-OrdersAt = (
  record {
    distinct = (refl, (refl, (refl, tt)));
    head = refl;
    tail = refl;
    links = (refl, refl, (refl, refl, (refl, refl, tt)));
    count = refl;
    shares = refl;
  },
  omega arith,
)

reduce-OrdersAt_example :
    (o : Option PriceLevel) × Changed bid 100 o one_level
      (reduce 4 5 chain one_level).1
      (reduce 4 5 chain one_level).2
    × OrdersAt (reduce 4 5 chain one_level).0 o (1 ∷ 4 ∷ 5 ∷ [])
    × ((q : ℕ) → (reduce 4 5 chain one_level).0 q ≡ (if 4 == q then less 5 (chain 4) else chain q))
reduce-OrdersAt_example =
    reduce-OrdersAt 4 5 chain one_level (1 ∷ []) (5 ∷ []) one_level-Ordered chain-OrdersAt
      (omega arith) (omega arith)

remove-OrdersAt_example :
    (o : Option PriceLevel) × Changed bid 100 o one_level
      (remove 4 chain one_level).1
      (remove 4 chain one_level).2
    × OrdersAt (remove 4 chain one_level).0 o (1 ∷ 5 ∷ [])
    × Relinked (1 ∷ 4 ∷ 5 ∷ []) chain (remove 4 chain one_level).0
    × (((remove 4 chain one_level).0 4).prev ≡ none)
    × (((remove 4 chain one_level).0 4).next ≡ none)
remove-OrdersAt_example =
    remove-OrdersAt 4 chain one_level (1 ∷ []) (5 ∷ []) one_level-Ordered chain-OrdersAt
      (omega arith) (omega arith)

crossed_iff_example : (crossed two_sides ≡ true) ↔ Crossing two_sides
crossed_iff_example = crossed_iff two_sides (two_sides-Ordered bid) (two_sides-Ordered ask)
