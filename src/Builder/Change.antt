-- ===== src/Builder/Change.antt =====
-- The private members of `BasicItchBookBuilder` in include/ItchBook.hpp, which change a book.
use mini_hft.Base.{
  ℕ, ◌+◌, Bool, Option, none, some, [], ◌∷◌, ◌++◌, length, ltb, ◌==◌, ◌&&◌, ◌||◌, not,
  if◌then◌else◌,
}
use mini_hft.Base.Words.{u32, sub64}
use mini_hft.Book.{
  Book, BookOrder, BookSide, PriceLevel, write_order, best_bid, best_ask, crossed, empty_level,
}
use mini_hft.Book
use mini_hft.Builder.Stats.{TopOfBook, CrossedEvent, inc64, count_depth}
use mini_hft.Builder.State.{OrderPool, OrderMap, Builder, put_at}

-- The test of `changeBook`: the best bid or ask moved, in price or size.
unfoldable pub moved : TopOfBook → TopOfBook → Bool
moved x y =
    not (y.bid_price == x.bid_price)
    || not (y.bid_shares == x.bid_shares)
    || not (y.ask_price == x.ask_price)
    || not (y.ask_shares == x.ask_shares)

module _ {P I : Type 0} where
  unfoldable pub top_of : ℕ → ℕ → Builder P I → TopOfBook
  top_of locate ts s =
      let zero_level : PriceLevel = empty_level in
      let b : PriceLevel = elim (best_bid (s.books locate)) [ none ↦ zero_level | some l ↦ l ] in
      let a : PriceLevel = elim (best_ask (s.books locate)) [ none ↦ zero_level | some l ↦ l ] in
      record {
        locate = locate;
        timestamp = ts;
        bid_price = b.price;
        bid_shares = b.shares;
        ask_price = a.price;
        ask_shares = a.shares;
      }

  unfoldable pub change_book : ℕ → ℕ → (Builder P I → Builder P I) → Builder P I → Builder P I
  change_book locate ts change s =
      let s' = change s in
      let before = top_of locate ts s in
      let after = top_of locate ts s' in
      if s.notify && moved before after then record s' { heard = after ∷ s'.heard } else s'

  unfoldable pub record_depth : ℕ → Builder P I → Builder P I
  record_depth depth s = record s { stats = count_depth depth s.stats }

  -- `addOrder` after the order is in the book: the live count, and the check for a crossed book.
  unfoldable pub count_live : Builder P I → Builder P I
  count_live s =
      let t = s.stats in
      let live = inc64 t.live_orders in
      record s {
        stats = record t {
          live_orders = live;
          peak_live_orders = if ltb t.peak_live_orders live then live else t.peak_live_orders;
        };
      }

  unfoldable pub note_crossed : ℕ → ℕ → Builder P I → Builder P I
  note_crossed locate ts s =
      let t = s.stats in
      let trading = s.trading_state locate == b'T' in
      let event : CrossedEvent = record {
        locate = locate;
        timestamp = ts;
        last_trading_action = s.last_trading_action locate;
      } in
      if s.market_open && crossed (s.books locate)
      then record s {
        crossed_by_locate =
            put_at locate (u32 (s.crossed_by_locate locate + 1)) s.crossed_by_locate;
        crossed_events =
            if trading && ltb (length s.crossed_events) 100
            then s.crossed_events ++ event ∷ []
            else s.crossed_events;
        stats = record t {
          crossed_during_market = inc64 t.crossed_during_market;
          crossed_while_trading =
              if trading then inc64 t.crossed_while_trading else t.crossed_while_trading;
        };
      }
      else s

  -- The book's own operations, on the builder's store and the book of a locate.
  unfoldable pub book_add : ℕ → ℕ → Builder P I → Builder P I
  book_add locate p s =
      let (store, b, depth) = Book.add p s.store (s.books locate) in
      record_depth depth (record s { store = store; books = put_at locate b s.books })

  unfoldable pub book_reduce : ℕ → ℕ → Builder P I → Builder P I
  book_reduce p shares s =
      let locate = (s.store p).locate in
      let (store, b, depth) = Book.reduce p shares s.store (s.books locate) in
      record_depth depth (record s { store = store; books = put_at locate b s.books })

  unfoldable pub book_remove : ℕ → Builder P I → Builder P I
  book_remove p s =
      let locate = (s.store p).locate in
      let (store, b, depth) = Book.remove p s.store (s.books locate) in
      record_depth depth (record s { store = store; books = put_at locate b s.books })

  module _ (pools : OrderPool P) (maps : OrderMap I) where
    -- The order found, `none` for nullptr, and the state with the count of unknown references.
    unfoldable pub lookup : ℕ → Builder P I → Option ℕ × Builder P I
    lookup ref s =
        let t = s.stats in
        elim (maps.find ref s.index) [
          | none ↦ (none, record s { stats = record t { unknown_refs = inc64 t.unknown_refs } })
          | some p ↦ (some p, s)
        ]

    unfoldable pub add_order : ℕ → ℕ → ℕ → BookSide → ℕ → ℕ → Builder P I → Builder P I
    add_order locate ts ref side shares price s =
        let (p, pool) = pools.acquire s.pool in
        let o : BookOrder = record {
          ref = ref;
          price = price;
          shares = shares;
          locate = locate;
          side = side;
          prev = none;
          next = none;
        } in
        let t = s.stats in
        let (inserted, index) = maps.try_insert ref p s.index in
        let made = record s { pool = pool; store = write_order p o s.store; index = index } in
        if inserted
        then note_crossed locate ts (count_live (book_add locate p made))
        else record made {
          pool = pools.release p pool;
          stats = record t { duplicate_refs = inc64 t.duplicate_refs };
        }

    unfoldable pub remove_order : ℕ → Builder P I → Builder P I
    remove_order p s =
        let s' = book_remove p s in
        let t = s'.stats in
        record s' {
          index = maps.erase (s'.store p).ref s'.index;
          pool = pools.release p s'.pool;
          stats = record t { live_orders = sub64 t.live_orders 1 };
        }

    -- `take` with the shares already cut to what the order has left.
    unfoldable pub take_shares : ℕ → ℕ → Builder P I → Builder P I
    take_shares p shares s =
        if shares == (s.store p).shares then remove_order p s else book_reduce p shares s

    unfoldable pub take : ℕ → ℕ → Builder P I → Builder P I
    take p shares s =
        let t = s.stats in
        let left = (s.store p).shares in
        if ltb left shares
        then take_shares p left
            (record s { stats = record t { over_executions = inc64 t.over_executions } })
        else take_shares p shares s
