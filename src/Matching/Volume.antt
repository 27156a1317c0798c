-- ===== src/Matching/Volume.antt =====
-- That `match` of include/OrderBook.hpp ends, and what it does to the quantities.
use mini_hft.Base.{
  ℕ, zero, suc, ◌+◌, ◌-◌, ◌≤◌, ◌≡◌, refl, false, List, [], ◌∷◌, length, min, ◌==◌, Bool-cases, inl,
  inr, ==→eq, arith,
}
use mini_hft.Matching.{Order, Trade, OrderBook, PriceTests, trade_front, match_from}

module _ {P : Type 0} where
  abbrev pub volume : List (Order P) → ℕ
  volume [] = 0
  volume (o ∷ os) = o.quantity + volume os

  abbrev pub traded : List (Trade P) → ℕ
  traded [] = 0
  traded (t ∷ ts) = t.quantity + traded ts

  -- The front orders cannot trade.
  abbrev pub Settled : PriceTests P → List (Order P) → List (Order P) → Type 0
  Settled tests [] asks = Unit
  Settled tests (b ∷ bids) [] = Unit
  Settled tests (b ∷ bids) (a ∷ asks) = tests.at_least b.price a.price ≡ false

  -- What `match` leaves of the bids and the asks.
  pub record Matched (tests : PriceTests P) (bids asks : List (Order P))
      (r : List (Trade P) × OrderBook P) : Type 0 where
    pub settled : Settled tests r.1.bids r.1.asks
    pub bought : traded r.0 + volume r.1.bids ≡ volume bids
    pub sold : traded r.0 + volume r.1.asks ≡ volume asks

  volume-trade_front :
      (q : ℕ) (o : Order P) (os : List (Order P))
      → q ≤ o.quantity
      → q + volume (trade_front q o os) ≡ o.quantity + volume os
  unfolding trade_front
  volume-trade_front q o os h = elim (Bool-cases (o.quantity - q == 0)) [
    | inl y ↦ rw y (omega (arith, ==→eq (o.quantity - q) 0 y))
    | inr n ↦ rw n (omega arith)
  ]

  length-trade_front :
      (q : ℕ) (o : Order P) (os : List (Order P))
      → (length (trade_front q o os) ≤ suc (length os))
        × (o.quantity ≤ q → length (trade_front q o os) ≡ length os)
  unfolding trade_front
  length-trade_front q o os = elim (Bool-cases (o.quantity - q == 0)) [
    | inl y ↦ rw y (omega arith, λ h. refl)
    | inr n ↦ rw n (omega arith, λ h. absurd (ground arith))
  ]

  -- The loop of `match`, given as many rounds as there are orders, ends with front orders that cannot
  -- trade, and takes the quantity of the trades off the bids and off the asks.
  pub match_from-Matched :
      (tests : PriceTests P) (clock : ℕ → ℕ) (fuel n : ℕ) (bids asks : List (Order P))
      → length bids + length asks ≤ fuel
      → Matched tests bids asks (match_from tests clock fuel n bids asks)
  unfolding match_from
  match_from-Matched tests clock zero n [] asks h = record {
    settled = tt;
    bought = omega arith;
    sold = omega arith;
  }
  match_from-Matched tests clock zero n (b ∷ bids) asks h = absurd (omega arith)
  match_from-Matched tests clock (suc fuel) n [] asks h = record {
    settled = tt;
    bought = omega arith;
    sold = omega arith;
  }
  match_from-Matched tests clock (suc fuel) n (b ∷ bids) [] h = record {
    settled = tt;
    bought = omega arith;
    sold = omega arith;
  }
  match_from-Matched tests clock (suc fuel) n (b ∷ bids) (a ∷ asks) h =
      let q : ℕ = min b.quantity a.quantity in
      let (few_bids, no_bid) = length-trade_front q b bids in
      let (few_asks, no_ask) = length-trade_front q a asks in
      elim (Bool-cases (tests.at_least b.price a.price)) [
        | inl y ↦
            let fewer : length (trade_front q b bids) + length (trade_front q a asks) ≤ fuel =
              grind arith in
            let r =
              match_from-Matched tests clock fuel (suc n) (trade_front q b bids)
                (trade_front q a asks) fewer in
            rw y (record {
              settled = r.settled;
              bought = omega (arith, r.bought, volume-trade_front q b bids (omega arith));
              sold = omega (arith, r.sold, volume-trade_front q a asks (omega arith));
            })
        | inr n' ↦ rw n' (record { settled = n'; bought = omega arith; sold = omega arith })
      ]
