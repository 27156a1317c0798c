-- ===== src/Itch/Decode.antt =====
-- The decoders of include/ItchMessages.hpp: fixed offsets from the start of the message.
use mini_hft.Base.{ℕ, List}
use mini_hft.Itch.Bytes.{byte, be16, be32, be48, be64, bytes_at}
use mini_hft.Itch.Types.{
  Header, AddOrder, OrderExecuted, OrderExecutedWithPrice, OrderCancel, OrderDelete, OrderReplace,
  Trade, StockDirectory, SystemEvent, TradingAction,
}

unfoldable pub decode_header : List ℕ → Header
unfolding be16 be48
decode_header m = record {
  type = byte m 0;
  locate = be16 m 1;
  tracking = be16 m 3;
  timestamp = be48 m 5;
}

unfoldable pub decode_add_order : List ℕ → AddOrder
unfolding be32 be64
decode_add_order m = record {
  ref = be64 m 11;
  side = byte m 19;
  shares = be32 m 20;
  stock = bytes_at m 24 8;
  price = be32 m 32;
}

unfoldable pub decode_order_executed : List ℕ → OrderExecuted
unfolding be32 be64
decode_order_executed m = record { ref = be64 m 11; shares = be32 m 19; match_number = be64 m 23 }

unfoldable pub decode_order_executed_with_price : List ℕ → OrderExecutedWithPrice
unfolding be32 be64
decode_order_executed_with_price m = record {
  ref = be64 m 11;
  shares = be32 m 19;
  match_number = be64 m 23;
  printable = byte m 31;
  price = be32 m 32;
}

unfoldable pub decode_order_cancel : List ℕ → OrderCancel
unfolding be32 be64
decode_order_cancel m = record { ref = be64 m 11; shares = be32 m 19 }

unfoldable pub decode_order_delete : List ℕ → OrderDelete
unfolding be64
decode_order_delete m = record { ref = be64 m 11 }

unfoldable pub decode_order_replace : List ℕ → OrderReplace
unfolding be32 be64
decode_order_replace m = record {
  old_ref = be64 m 11;
  new_ref = be64 m 19;
  shares = be32 m 27;
  price = be32 m 31;
}

unfoldable pub decode_trade : List ℕ → Trade
unfolding be32 be64
decode_trade m = record {
  ref = be64 m 11;
  side = byte m 19;
  shares = be32 m 20;
  stock = bytes_at m 24 8;
  price = be32 m 32;
  match_number = be64 m 36;
}

unfoldable pub decode_stock_directory : List ℕ → StockDirectory
decode_stock_directory m = record { stock = bytes_at m 11 8 }

unfoldable pub decode_system_event : List ℕ → SystemEvent
decode_system_event m = record { code = byte m 11 }

unfoldable pub decode_trading_action : List ℕ → TradingAction
decode_trading_action m = record {
  stock = bytes_at m 11 8;
  state = byte m 19;
  reason = bytes_at m 21 4;
}
