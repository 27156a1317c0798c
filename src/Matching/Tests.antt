-- ===== src/Matching/Tests.antt =====
-- A small book of include/OrderBook.hpp whose prices are whole numbers.
use mini_hft.Base.{ℕ, ◌≡◌, refl, List, [], ◌∷◌, ltb, leb, arith}
use mini_hft.Matching.{Order, PriceTests, Side, buy, sell, insert_order, add_order, match_from}
use mini_hft.Matching.Volume.{Matched, match_from-Matched}

abbrev whole : PriceTests ℕ
whole = record { less = ltb; at_least = λ x y. leb y x }

abbrev order_of : ℕ → Side → ℕ → ℕ → Order ℕ
order_of id side price quantity = record {
  id = id;
  side = side;
  price = price;
  quantity = quantity;
  timestamp = 0;
}

abbrev bids : List (Order ℕ)
bids = order_of 1 buy 105 10 ∷ order_of 2 buy 100 5 ∷ []

abbrev asks : List (Order ℕ)
asks = order_of 3 sell 101 4 ∷ order_of 4 sell 104 8 ∷ []

-- A bid at the best price is put before the bid that has it already.
add_order-run :
    (add_order whole (order_of 5 buy 105 7) (record { bids = bids; asks = asks })).bids
    ≡ order_of 5 buy 105 7 ∷ bids
unfolding add_order insert_order
add_order-run = refl

match_from-Matched_example : Matched whole bids asks (match_from whole (λ n. n) 4 0 bids asks)
match_from-Matched_example = match_from-Matched whole (λ n. n) 4 0 bids asks (omega arith)
