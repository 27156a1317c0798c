-- ===== src/Itch/Message.antt =====
-- The messages that include/ItchMessages.hpp can encode, and the handler method for each.
use mini_hft.Base.{ℕ, ◌^◌, ◌<◌, ◌≡◌, List, length, take}
use mini_hft.Itch.Types.{
  AddOrder, OrderExecuted, OrderExecutedWithPrice, OrderCancel, OrderDelete, OrderReplace, Trade,
  StockDirectory, SystemEvent, TradingAction,
}
use mini_hft.Itch.Encode.{
  encode_add_order, encode_order_executed, encode_order_executed_with_price, encode_order_cancel,
  encode_order_delete, encode_order_replace, encode_trade, encode_stock_directory,
  encode_system_event, encode_trading_action,
}
use mini_hft.Itch.Dispatch.{Handler}

-- The messages that have an encoder.
pub data Message : Type 0 where
  add : AddOrder → Message
  executed : OrderExecuted → Message
  executed_with_price : OrderExecutedWithPrice → Message
  cancel : OrderCancel → Message
  delete : OrderDelete → Message
  replace : OrderReplace → Message
  trade : Trade → Message
  directory : StockDirectory → Message
  system : SystemEvent → Message
  action : TradingAction → Message

abbrev pub encode : List ℕ → ℕ → ℕ → Message → List ℕ × ℕ
encode out locate ts (add m) = encode_add_order out locate ts m.ref m.side m.shares m.stock m.price
encode out locate ts (executed m) =
    encode_order_executed out locate ts m.ref m.shares m.match_number
encode out locate ts (executed_with_price m) =
    encode_order_executed_with_price out locate ts m.ref m.shares m.match_number m.printable m.price
encode out locate ts (cancel m) = encode_order_cancel out locate ts m.ref m.shares
encode out locate ts (delete m) = encode_order_delete out locate ts m.ref
encode out locate ts (replace m) =
    encode_order_replace out locate ts m.old_ref m.new_ref m.shares m.price
encode out locate ts (trade m) =
    encode_trade out locate ts m.ref m.side m.shares m.stock m.price m.match_number
encode out locate ts (directory m) = encode_stock_directory out locate ts m.stock
encode out locate ts (system m) = encode_system_event out ts m.code
encode out locate ts (action m) = encode_trading_action out locate ts m.stock m.state m.reason

-- The bytes that the encoder announces.
abbrev pub encoded : List ℕ → ℕ → ℕ → Message → List ℕ
encoded out locate ts m = let (buf, n) = encode out locate ts m in take n buf

-- The method that stands for the message. A system event is sent for locate 0.
abbrev pub handle : {S : Type 0} → Handler S → ℕ → ℕ → Message → S → S
handle h locate ts (add m) = h.on_add locate ts m
handle h locate ts (executed m) = h.on_executed locate ts m
handle h locate ts (executed_with_price m) = h.on_executed_with_price locate ts m
handle h locate ts (cancel m) = h.on_cancel locate ts m
handle h locate ts (delete m) = h.on_delete locate ts m
handle h locate ts (replace m) = h.on_replace locate ts m
handle h locate ts (trade m) = h.on_trade locate ts m
handle h locate ts (directory m) = h.on_stock_directory locate ts m
handle h locate ts (system m) = h.on_system_event 0 ts m
handle h locate ts (action m) = h.on_trading_action locate ts m

-- Every field fits its C++ type.
abbrev pub Fits : Message → Type 0
Fits (add m) =
    (m.ref < 2 ^ 64)
    × (m.side < 2 ^ 8)
    × (m.shares < 2 ^ 32)
    × (length m.stock ≡ 8)
    × (m.price < 2 ^ 32)
Fits (executed m) = (m.ref < 2 ^ 64) × (m.shares < 2 ^ 32) × (m.match_number < 2 ^ 64)
Fits (executed_with_price m) =
    (m.ref < 2 ^ 64)
    × (m.shares < 2 ^ 32)
    × (m.match_number < 2 ^ 64)
    × (m.printable < 2 ^ 8)
    × (m.price < 2 ^ 32)
Fits (cancel m) = (m.ref < 2 ^ 64) × (m.shares < 2 ^ 32)
Fits (delete m) = m.ref < 2 ^ 64
Fits (replace m) =
    (m.old_ref < 2 ^ 64) × (m.new_ref < 2 ^ 64) × (m.shares < 2 ^ 32) × (m.price < 2 ^ 32)
Fits (trade m) =
    (m.ref < 2 ^ 64)
    × (m.side < 2 ^ 8)
    × (m.shares < 2 ^ 32)
    × (length m.stock ≡ 8)
    × (m.price < 2 ^ 32)
    × (m.match_number < 2 ^ 64)
Fits (directory m) = length m.stock ≡ 8
Fits (system m) = m.code < 2 ^ 8
Fits (action m) = (length m.stock ≡ 8) × (m.state < 2 ^ 8) × (length m.reason ≡ 4)
