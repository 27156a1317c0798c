-- ===== src/Itch/Dispatch.antt =====
-- The handler concept and `dispatch` of include/ItchMessages.hpp.
use mini_hft.Base.{ℕ, List, Bool, true, false, ◌||◌, not, ◌==◌, if◌then◌else◌, length}
use mini_hft.Itch.Bytes.{byte, be16, be48}
use mini_hft.Itch.Types.{
  AddOrder, OrderExecuted, OrderExecutedWithPrice, OrderCancel, OrderDelete, OrderReplace, Trade,
  StockDirectory, SystemEvent, TradingAction, message_length,
}
use mini_hft.Itch.Decode.{
  decode_add_order, decode_order_executed, decode_order_executed_with_price, decode_order_cancel,
  decode_order_delete, decode_order_replace, decode_trade, decode_stock_directory,
  decode_system_event, decode_trading_action,
}

-- `ItchHandler`: each method takes the stock locate, the timestamp, the message and the handler's
-- state.
pub record Handler (S : Type 0) : Type 0 where
  pub on_add : ℕ → ℕ → AddOrder → S → S
  pub on_executed : ℕ → ℕ → OrderExecuted → S → S
  pub on_executed_with_price : ℕ → ℕ → OrderExecutedWithPrice → S → S
  pub on_cancel : ℕ → ℕ → OrderCancel → S → S
  pub on_delete : ℕ → ℕ → OrderDelete → S → S
  pub on_replace : ℕ → ℕ → OrderReplace → S → S
  pub on_trade : ℕ → ℕ → Trade → S → S
  pub on_stock_directory : ℕ → ℕ → StockDirectory → S → S
  pub on_system_event : ℕ → ℕ → SystemEvent → S → S
  pub on_trading_action : ℕ → ℕ → TradingAction → S → S

module _ {S : Type 0} (h : Handler S) where
  -- The `switch` of `dispatch`.
  unfoldable pub route : ℕ → ℕ → ℕ → List ℕ → S → S
  route type locate ts m s =
      if type == b'A' || type == b'F'
      then h.on_add locate ts (decode_add_order m) s
      else if type == b'E'
      then h.on_executed locate ts (decode_order_executed m) s
      else if type == b'C'
      then h.on_executed_with_price locate ts (decode_order_executed_with_price m) s
      else if type == b'X'
      then h.on_cancel locate ts (decode_order_cancel m) s
      else if type == b'D'
      then h.on_delete locate ts (decode_order_delete m) s
      else if type == b'U'
      then h.on_replace locate ts (decode_order_replace m) s
      else if type == b'P'
      then h.on_trade locate ts (decode_trade m) s
      else if type == b'R'
      then h.on_stock_directory locate ts (decode_stock_directory m) s
      else if type == b'S'
      then h.on_system_event locate ts (decode_system_event m) s
      else if type == b'H'
      then h.on_trading_action locate ts (decode_trading_action m) s
      else s

  unfoldable pub dispatch : List ℕ → S → Bool × S
  unfolding route be16 be48 message_length
  dispatch m s =
      if length m == 0 || not (length m == message_length (byte m 0))
      then (false, s)
      else (true, route (byte m 0) (be16 m 1) (be48 m 5) m s)
