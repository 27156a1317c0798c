-- ===== src/Builder/Handlers.antt =====
-- The dispatch handlers and queries of `BasicItchBookBuilder` in include/ItchBook.hpp.
use mini_hft.Base.{
  ℕ, zero, suc, ◌+◌, Bool, true, false, Option, none, some, List, [], ◌∷◌, ◌==◌, ◌&&◌,
  if◌then◌else◌,
}
use mini_hft.Book.{bid, ask}
use mini_hft.Itch.Types.{
  AddOrder, OrderExecuted, OrderExecutedWithPrice, OrderCancel, OrderDelete, OrderReplace, Trade,
  StockDirectory, SystemEvent, TradingAction,
}
use mini_hft.Itch.Dispatch.{Handler}
use mini_hft.Builder.Stats.{inc64}
use mini_hft.Builder.State.{OrderPool, OrderMap, Builder, put_at}
use mini_hft.Builder.Change.{change_book, lookup, add_order, remove_order, take}

-- The stock name without its trailing blanks.
unfoldable pub trim_right : List ℕ → List ℕ
trim_right [] = []
trim_right (c ∷ cs) = elim (trim_right cs) [
  | [] ↦ if c == b' ' then [] else c ∷ []
  | d ∷ ds ↦ c ∷ d ∷ ds
]

-- `locateOf` from a locate on, with the number of locates left; `none` for -1.
unfoldable pub same_symbol : List ℕ → List ℕ → Bool
same_symbol [] [] = true
same_symbol [] (y ∷ ys) = false
same_symbol (x ∷ xs) [] = false
same_symbol (x ∷ xs) (y ∷ ys) = x == y && same_symbol xs ys

unfoldable pub locate_from : ℕ → ℕ → List ℕ → (ℕ → List ℕ) → Option ℕ
locate_from zero i symbol symbols = none
locate_from (suc left) i symbol symbols =
    let rest = locate_from left (i + 1) symbol symbols in
    if same_symbol (symbols i) symbol then some i else rest

abbrev pub max_locates : ℕ
max_locates = 65536

module _ {P I : Type 0} (pools : OrderPool P) (maps : OrderMap I) where
  -- What a handler does with the order it looks up.
  unfoldable pub with_order : ℕ → (ℕ → Builder P I → Builder P I) → Builder P I → Builder P I
  with_order ref act s =
      let (found, s') = lookup pools maps ref s in elim found [ none ↦ s' | some p ↦ act p s' ]

  -- `changeBook` for the book that holds the order.
  unfoldable pub change_order : ℕ → ℕ → (Builder P I → Builder P I) → Builder P I → Builder P I
  change_order p ts change s = change_book (s.store p).locate ts change s

  unfoldable pub on_add : ℕ → ℕ → AddOrder → Builder P I → Builder P I
  on_add locate ts m s =
      let t = s.stats in
      let side = if m.side == b'B' then bid else ask in
      change_book locate ts (add_order pools maps locate ts m.ref side m.shares m.price)
        (record s { stats = record t { adds = inc64 t.adds } })

  unfoldable pub on_executed : ℕ → ℕ → OrderExecuted → Builder P I → Builder P I
  on_executed locate ts m s =
      let t = s.stats in
      with_order m.ref
        (λ p s'.
          let o = s'.store p in
          change_order p ts (take pools maps p m.shares)
            (record s' { last_price = put_at o.locate o.price s'.last_price }))
        (record s { stats = record t { executions = inc64 t.executions } })

  unfoldable pub on_executed_with_price : ℕ → ℕ → OrderExecutedWithPrice → Builder P I → Builder P I
  on_executed_with_price locate ts m s =
      let t = s.stats in
      with_order m.ref
        (λ p s'. change_order p ts (take pools maps p m.shares) (
          if m.printable == b'Y'
          then record s' { last_price = put_at (s'.store p).locate m.price s'.last_price }
          else s'))
        (record s { stats = record t { executions = inc64 t.executions } })

  unfoldable pub on_cancel : ℕ → ℕ → OrderCancel → Builder P I → Builder P I
  on_cancel locate ts m s =
      let t = s.stats in
      with_order m.ref (λ p. change_order p ts (take pools maps p m.shares))
        (record s { stats = record t { cancels = inc64 t.cancels } })

  unfoldable pub on_delete : ℕ → ℕ → OrderDelete → Builder P I → Builder P I
  on_delete locate ts m s =
      let t = s.stats in
      with_order m.ref (λ p. change_order p ts (remove_order pools maps p))
        (record s { stats = record t { deletes = inc64 t.deletes } })

  unfoldable pub on_replace : ℕ → ℕ → OrderReplace → Builder P I → Builder P I
  on_replace locate ts m s =
      let t = s.stats in
      with_order m.old_ref
        (λ p s'.
          let o = s'.store p in
          change_book o.locate ts
            (λ r.
              add_order pools maps o.locate ts m.new_ref o.side m.shares m.price
                (remove_order pools maps p r))
            s')
        (record s { stats = record t { replaces = inc64 t.replaces } })

  unfoldable pub on_trade : ℕ → ℕ → Trade → Builder P I → Builder P I
  on_trade locate ts m s =
      let t = s.stats in
      record s {
        last_price = put_at locate m.price s.last_price;
        stats = record t { trades = inc64 t.trades };
      }

  unfoldable pub on_stock_directory : ℕ → ℕ → StockDirectory → Builder P I → Builder P I
  on_stock_directory locate ts m s = record s {
    symbols = put_at locate (trim_right m.stock) s.symbols;
  }

  unfoldable pub on_system_event : ℕ → ℕ → SystemEvent → Builder P I → Builder P I
  on_system_event locate ts m s =
      if m.code == b'Q'
      then record s { market_open = true }
      else if m.code == b'M'
      then record s { market_open = false }
      else s

  unfoldable pub on_trading_action : ℕ → ℕ → TradingAction → Builder P I → Builder P I
  on_trading_action locate ts m s =
      let t = s.stats in
      record s {
        trading_state = put_at locate m.state s.trading_state;
        last_trading_action = put_at locate ts s.last_trading_action;
        stats = record t { trading_actions = inc64 t.trading_actions };
      }

  -- The builder as the handler that `dispatch` is given.
  abbrev pub builder_handler : Handler (Builder P I)
  builder_handler = record {
    on_add = on_add;
    on_executed = on_executed;
    on_executed_with_price = on_executed_with_price;
    on_cancel = on_cancel;
    on_delete = on_delete;
    on_replace = on_replace;
    on_trade = on_trade;
    on_stock_directory = on_stock_directory;
    on_system_event = on_system_event;
    on_trading_action = on_trading_action;
  }

  unfoldable pub locate_of : List ℕ → Builder P I → Option ℕ
  locate_of symbol s = locate_from max_locates 0 symbol s.symbols
