-- ===== src/Itch/Tests.antt =====
-- Messages through the encoders and `dispatch` of include/ItchMessages.hpp.
use mini_hft.Base.{ℕ, ◌+◌, ◌^◌, ◌≡◌, true, List, [], ◌∷◌, replicate, arith}
use mini_hft.Itch.Types.{AddOrder}
use mini_hft.Itch.Message.{Message, add, encoded}
use mini_hft.Itch.Dispatch.{Handler, dispatch}
use mini_hft.Itch.Roundtrip.{dispatch-encode}

-- A handler that records the last message, with its locate and timestamp.
abbrev Seen : Type 0
Seen = List (ℕ × ℕ × Message)

abbrev recorder : Handler Seen
recorder = record {
  on_add = λ l t m s. (l, t, Message.add m) ∷ s;
  on_executed = λ l t m s. (l, t, Message.executed m) ∷ s;
  on_executed_with_price = λ l t m s. (l, t, Message.executed_with_price m) ∷ s;
  on_cancel = λ l t m s. (l, t, Message.cancel m) ∷ s;
  on_delete = λ l t m s. (l, t, Message.delete m) ∷ s;
  on_replace = λ l t m s. (l, t, Message.replace m) ∷ s;
  on_trade = λ l t m s. (l, t, Message.trade m) ∷ s;
  on_stock_directory = λ l t m s. (l, t, Message.directory m) ∷ s;
  on_system_event = λ l t m s. (l, t, Message.system m) ∷ s;
  on_trading_action = λ l t m s. (l, t, Message.action m) ∷ s;
}

abbrev buffer : List ℕ
buffer = replicate 64 0xff

abbrev order : AddOrder
order = record {
  ref = 2 ^ 40 + 5;
  side = b'B';
  shares = 300;
  stock = b'A' ∷ b'A' ∷ b'P' ∷ b'L' ∷ b' ' ∷ b' ' ∷ b' ' ∷ b' ' ∷ [];
  price = 1234500;
}

dispatch-encode_example :
    dispatch recorder (encoded buffer 17 34200000000000 (add order)) []
    ≡ (true, (17, 34200000000000, add order) ∷ [])
dispatch-encode_example =
    dispatch-encode recorder [] buffer 17 34200000000000 (add order) (omega arith) (omega arith)
      (omega arith) (omega arith)
