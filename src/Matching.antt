-- ===== src/Matching.antt =====
-- The matching book of include/OrderBook.hpp with the orders of include/Order.hpp. Prices are
-- double, so their comparisons are a parameter, and so is the clock that stamps the trades.
mod Tests
pub mod Volume
use mini_hft.Base.{
  ℕ, zero, suc, ◌+◌, ◌-◌, Bool, true, false, List, [], ◌∷◌, min, ◌==◌, if◌then◌else◌,
}

pub data Side : Type 0 where
  buy sell : Side

pub record Order (P : Type 0) : Type 0 where
  pub id : ℕ
  pub side : Side
  pub price : P
  pub quantity : ℕ
  pub timestamp : ℕ

pub record Trade (P : Type 0) : Type 0 where
  pub price : P
  pub quantity : ℕ
  pub buy_order_id : ℕ
  pub sell_order_id : ℕ
  pub timestamp : ℕ

-- `<` and `>=` on prices.
pub record PriceTests (P : Type 0) : Type 0 where
  pub less : P → P → Bool
  pub at_least : P → P → Bool

pub record OrderBook (P : Type 0) : Type 0 where
  pub bids : List (Order P)
  pub asks : List (Order P)

module _ {P : Type 0} where
  -- std::lower_bound and insert: the order goes before the first that does not stand before it.
  unfoldable pub insert_order :
      (Order P → Order P → Bool) → Order P → List (Order P) → List (Order P)
  insert_order stands_before o [] = o ∷ []
  insert_order stands_before o (x ∷ xs) =
      let rest = insert_order stands_before o xs in
      if stands_before x o then x ∷ rest else o ∷ x ∷ xs

  unfoldable pub add_order : PriceTests P → Order P → OrderBook P → OrderBook P
  add_order tests o b = elim o.side [
    | buy ↦ record b { bids = insert_order (λ x y. tests.less y.price x.price) o b.bids }
    | sell ↦ record b { asks = insert_order (λ x y. tests.less x.price y.price) o b.asks }
  ]

  -- The front order after a trade: erased when nothing is left of it.
  unfoldable pub trade_front : ℕ → Order P → List (Order P) → List (Order P)
  trade_front q o os =
      if o.quantity - q == 0 then os else record o { quantity = o.quantity - q } ∷ os

  -- The loop of `match`, on fuel; n is the number of trades made before.
  unfoldable pub match_from :
      PriceTests P
      → (ℕ → ℕ)
      → ℕ
      → ℕ
      → List (Order P)
      → List (Order P)
      → List (Trade P) × OrderBook P
  match_from tests clock zero n bids asks = ([], record { bids = bids; asks = asks })
  match_from tests clock (suc fuel) n [] asks = ([], record { bids = []; asks = asks })
  match_from tests clock (suc fuel) n (b ∷ bids) [] = ([], record { bids = b ∷ bids; asks = [] })
  match_from tests clock (suc fuel) n (b ∷ bids) (a ∷ asks) =
      let q = min b.quantity a.quantity in
      let rest =
        match_from tests clock fuel (suc n) (trade_front q b bids) (trade_front q a asks) in
      let trade : Trade P = record {
        price = a.price;
        quantity = q;
        buy_order_id = b.id;
        sell_order_id = a.id;
        timestamp = clock n;
      } in
      if tests.at_least b.price a.price
      then (trade ∷ rest.0, rest.1)
      else ([], record { bids = b ∷ bids; asks = a ∷ asks })
