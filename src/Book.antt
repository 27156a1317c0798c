-- ===== src/Book.antt =====
-- The order book of one instrument, include/L3OrderBook.hpp. Orders live in a store and point to one
-- another; a pointer is its number in the store, and nullptr is `none`.
mod Tests
pub mod Links
pub mod Queue
pub mod Chains
pub mod Orders
pub mod Removed
pub mod Reduced
pub mod Levels
pub mod Places
pub mod Effects
pub mod Updates
pub mod Best
use mini_hft.Base.{
  ℕ, zero, suc, ◌+◌, ◌-◌, Bool, true, false, Option, none, some, List, [], ◌∷◌, length, set, get_or,
  ltb, leb, ◌==◌, ◌&&◌, ◌||◌, not, if◌then◌else◌,
}
use mini_hft.Base.Words.{u32, u64, sub64}

pub data BookSide : Type 0 where
  bid ask : BookSide

pub record BookOrder : Type 0 where
  pub ref : ℕ
  pub price : ℕ
  pub shares : ℕ
  pub locate : ℕ
  pub side : BookSide
  pub prev : Option ℕ
  pub next : Option ℕ

pub record PriceLevel : Type 0 where
  pub price : ℕ
  pub order_count : ℕ
  pub shares : ℕ
  pub head : Option ℕ
  pub tail : Option ℕ

-- What is behind each pointer.
abbrev pub Store : Type 0
Store = ℕ → BookOrder

unfoldable pub write_order : ℕ → BookOrder → Store → Store
write_order p o store q = if p == q then o else store q

-- Both sides have the best price last.
pub record Book : Type 0 where
  pub bids : List PriceLevel
  pub asks : List PriceLevel

abbrev pub empty_book : Book
empty_book = record { bids = []; asks = [] }

abbrev pub empty_level : PriceLevel
empty_level = record { price = 0; order_count = 0; shares = 0; head = none; tail = none }

abbrev pub new_level : ℕ → PriceLevel
new_level price = record { price = price; order_count = 0; shares = 0; head = none; tail = none }

abbrev pub levels : BookSide → Book → List PriceLevel
levels bid b = b.bids
levels ask b = b.asks

abbrev pub set_levels : BookSide → List PriceLevel → Book → Book
set_levels bid ls b = record b { bids = ls }
set_levels ask ls b = record b { asks = ls }

-- The comparison of `lowerBound`: a level that stands before a price.
unfoldable pub before : BookSide → ℕ → ℕ → Bool
before bid l p = ltb l p
before ask l p = ltb p l

-- std::lower_bound on a sorted range: the number of levels that stand before the price.
unfoldable pub lower_bound : BookSide → ℕ → List PriceLevel → ℕ
lower_bound side price [] = 0
lower_bound side price (l ∷ ls) =
    if before side l.price price then suc (lower_bound side price ls) else 0

-- vector::insert and vector::erase at an index.
unfoldable pub insert_at : ℕ → PriceLevel → List PriceLevel → List PriceLevel
insert_at zero x ls = x ∷ ls
insert_at (suc i) x [] = x ∷ []
insert_at (suc i) x (l ∷ ls) = l ∷ insert_at i x ls

unfoldable pub erase_at : ℕ → List PriceLevel → List PriceLevel
erase_at i [] = []
erase_at zero (l ∷ ls) = ls
erase_at (suc i) (l ∷ ls) = l ∷ erase_at i ls

abbrev pub level_at : List PriceLevel → ℕ → PriceLevel
level_at ls i = get_or ls i empty_level

-- `add` up to the level: the one at the price, inserted if there is none.
unfoldable pub open_level : BookSide → ℕ → List PriceLevel → List PriceLevel
open_level side price ls =
    let i = lower_bound side price ls in
    if i == length ls || not ((level_at ls i).price == price)
    then insert_at i (new_level price) ls
    else ls

-- The pointer writes of `add`: the order goes to the back of the level's queue.
unfoldable pub link_order : ℕ → PriceLevel → Store → Store
link_order p level store =
    let o = store p in
    let linked = write_order p (record o { prev = level.tail; next = none }) store in
    elim level.tail [
      | none ↦ linked
      | some t ↦ let last = linked t in write_order t (record last { next = some p }) linked
    ]

unfoldable pub push_level : ℕ → ℕ → PriceLevel → PriceLevel
push_level p shares level = record {
  price = level.price;
  order_count = u32 (level.order_count + 1);
  shares = u64 (level.shares + shares);
  head = elim level.tail [ none ↦ some p | some t ↦ level.head ];
  tail = some p;
}

-- The result is the store, the book and the level's distance from the top.
unfoldable pub add : ℕ → Store → Book → Store × Book × ℕ
add p store b =
    let o = store p in
    let ls = open_level o.side o.price (levels o.side b) in
    let i = lower_bound o.side o.price (levels o.side b) in
    let level = level_at ls i in
    (
      link_order p level store,
      set_levels o.side (set ls i (push_level p o.shares level)) b,
      length ls - 1 - i,
    )

-- `assert(shares <= order->shares)` is the caller's to keep.
unfoldable pub reduce : ℕ → ℕ → Store → Book → Store × Book × ℕ
reduce p shares store b =
    let o = store p in
    let ls = levels o.side b in
    let i = lower_bound o.side o.price ls in
    let level = level_at ls i in
    (
      write_order p (record o { shares = sub64 o.shares shares }) store,
      set_levels o.side (set ls i (record level { shares = sub64 level.shares shares })) b,
      length ls - 1 - i,
    )

-- The pointer writes of `remove`.
unfoldable pub unlink_order : ℕ → Store → Store
unlink_order p store =
    let o = store p in
    let left : Store = elim o.prev [
      | none ↦ store
      | some q ↦ let before = store q in write_order q (record before { next = o.next }) store
    ] in
    let right : Store = elim o.next [
      | none ↦ left
      | some q ↦ let after = left q in write_order q (record after { prev = o.prev }) left
    ] in
    let gone = right p in write_order p (record gone { prev = none; next = none }) right

unfoldable pub pop_level : BookOrder → PriceLevel → PriceLevel
pop_level o level = record {
  price = level.price;
  order_count = u32 (level.order_count + 0xffff_ffff);
  shares = sub64 level.shares o.shares;
  head = elim o.prev [ none ↦ o.next | some q ↦ level.head ];
  tail = elim o.next [ none ↦ o.prev | some q ↦ level.tail ];
}

unfoldable pub remove : ℕ → Store → Book → Store × Book × ℕ
remove p store b =
    let o = store p in
    let ls = levels o.side b in
    let i = lower_bound o.side o.price ls in
    let level = pop_level o (level_at ls i) in
    let kept = if level.order_count == 0 then erase_at i ls else set ls i level in
    (unlink_order p store, set_levels o.side kept b, length ls - 1 - i)

-- The last of a list: `back()`.
unfoldable pub back : List PriceLevel → Option PriceLevel
back [] = none
back (l ∷ []) = some l
back (l ∷ m ∷ ls) = back (m ∷ ls)

unfoldable pub best_bid : Book → Option PriceLevel
best_bid b = back b.bids

unfoldable pub best_ask : Book → Option PriceLevel
best_ask b = back b.asks

unfoldable pub crossed : Book → Bool
crossed b = elim (best_bid b) [
  | none ↦ false
  | some x ↦ elim (best_ask b) [ none ↦ false | some y ↦ leb y.price x.price ]
]
