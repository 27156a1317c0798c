-- ===== src/Itch/Roundtrip.antt =====
-- `dispatch` after an encoder of include/ItchMessages.hpp.
use mini_hft.Base.{ℕ, ◌%◌, ◌^◌, ◌≤◌, ◌<◌, ◌≡◌, true, List, [], ◌∷◌, length, arith}
use mini_hft.Itch.Bytes.{zero_fill_lem, be16-put_be16, be32-put_be32, be48-put_be48, be64-put_be64}
use mini_hft.Itch.Types.{
  AddOrder, OrderExecuted, OrderExecutedWithPrice, OrderCancel, OrderDelete, OrderReplace, Trade,
  StockDirectory, SystemEvent, TradingAction,
}
use mini_hft.Itch.Decode.{
  decode_add_order, decode_order_executed, decode_order_executed_with_price, decode_order_cancel,
  decode_order_delete, decode_order_replace, decode_trade, decode_stock_directory,
  decode_system_event, decode_trading_action,
}
use mini_hft.Itch.Encode.{
  encode_add_order, encode_order_executed, encode_order_executed_with_price, encode_order_cancel,
  encode_order_delete, encode_order_replace, encode_trade, encode_stock_directory,
  encode_system_event, encode_trading_action,
}
use mini_hft.Itch.Message.{
  Message, add, executed, executed_with_price, cancel, delete, replace, trade, directory, system,
  action, encoded, handle, Fits,
}
use mini_hft.Itch.Dispatch.{Handler, dispatch}

char_fits : (c : ℕ) → c < 2 ^ 8 → c % 2 ^ 8 ≡ c
char_fits c h = omega arith

four_chars :
    (P : List ℕ → Type 0)
    → ((a b c d : ℕ) → P (a ∷ b ∷ c ∷ d ∷ []))
    → (l : List ℕ) → length l ≡ 4
    → P l
four_chars P f [] e = absurd (omega arith)
four_chars P f (a ∷ []) e = absurd (omega arith)
four_chars P f (a ∷ b ∷ []) e = absurd (omega arith)
four_chars P f (a ∷ b ∷ c ∷ []) e = absurd (omega arith)
four_chars P f (a ∷ b ∷ c ∷ d ∷ []) e = f a b c d
four_chars P f (a ∷ b ∷ c ∷ d ∷ x ∷ l) e = absurd (omega arith)

eight_chars :
    (P : List ℕ → Type 0)
    → ((a b c d e f g h : ℕ) → P (a ∷ b ∷ c ∷ d ∷ e ∷ f ∷ g ∷ h ∷ []))
    → (l : List ℕ) → length l ≡ 8
    → P l
eight_chars P k [] q = absurd (omega arith)
eight_chars P k (a ∷ []) q = absurd (omega arith)
eight_chars P k (a ∷ b ∷ []) q = absurd (omega arith)
eight_chars P k (a ∷ b ∷ c ∷ []) q = absurd (omega arith)
eight_chars P k (a ∷ b ∷ c ∷ d ∷ l) q =
    four_chars (λ r. P (a ∷ b ∷ c ∷ d ∷ r)) (k a b c d) l (omega arith)

module _ {S : Type 0} (h : Handler S) (s : S) (out : List ℕ) (locate ts : ℕ) where
  abbrev Delivers : Message → Type 0
  Delivers m = Fits m → dispatch h (encoded out locate ts m) s ≡ (true, handle h locate ts m s)

  module _ (room : 50 ≤ length out) (hl : locate < 2 ^ 16) (ht : ts < 2 ^ 48) where
    add-Delivers : (m : AddOrder) → Delivers (add m)
    unfolding dispatch encode_add_order decode_add_order
    add-Delivers m (h0, h1, h2, h3, h4) =
        eight_chars
          (λ kx.
            dispatch h (encoded out locate ts (add (record m { stock = kx }))) s
            ≡ (true, handle h locate ts (add (record m { stock = kx })) s))
          (λ a b c d e f g k. rw (zero_fill_lem 36 out (omega arith)) λ i. (
            true,
            h.on_add (be16-put_be16 locate hl i) (be48-put_be48 ts ht i)
                (record {
                  ref = be64-put_be64 m.ref h0 i;
                  side = char_fits m.side h1 i;
                  shares = be32-put_be32 m.shares h2 i;
                  stock = a ∷ b ∷ c ∷ d ∷ e ∷ f ∷ g ∷ k ∷ [];
                  price = be32-put_be32 m.price h4 i;
                })
                s,
          ))
          m.stock h3

    executed-Delivers : (m : OrderExecuted) → Delivers (executed m)
    unfolding dispatch encode_order_executed decode_order_executed
    executed-Delivers m (h0, h1, h2) = rw (zero_fill_lem 31 out (omega arith)) λ i. (
      true,
      h.on_executed (be16-put_be16 locate hl i) (be48-put_be48 ts ht i)
          (record {
            ref = be64-put_be64 m.ref h0 i;
            shares = be32-put_be32 m.shares h1 i;
            match_number = be64-put_be64 m.match_number h2 i;
          })
          s,
    )

    executed_with_price-Delivers : (m : OrderExecutedWithPrice) → Delivers (executed_with_price m)
    unfolding dispatch encode_order_executed_with_price decode_order_executed_with_price
    executed_with_price-Delivers m (h0, h1, h2, h3, h4) =
        rw (zero_fill_lem 36 out (omega arith)) λ i. (
          true,
          h.on_executed_with_price (be16-put_be16 locate hl i) (be48-put_be48 ts ht i)
              (record {
                ref = be64-put_be64 m.ref h0 i;
                shares = be32-put_be32 m.shares h1 i;
                match_number = be64-put_be64 m.match_number h2 i;
                printable = char_fits m.printable h3 i;
                price = be32-put_be32 m.price h4 i;
              })
              s,
        )

    cancel-Delivers : (m : OrderCancel) → Delivers (cancel m)
    unfolding dispatch encode_order_cancel decode_order_cancel
    cancel-Delivers m (h0, h1) = rw (zero_fill_lem 23 out (omega arith)) λ i. (
      true,
      h.on_cancel (be16-put_be16 locate hl i) (be48-put_be48 ts ht i)
          (record { ref = be64-put_be64 m.ref h0 i; shares = be32-put_be32 m.shares h1 i }) s,
    )

    delete-Delivers : (m : OrderDelete) → Delivers (delete m)
    unfolding dispatch encode_order_delete decode_order_delete
    delete-Delivers m h0 = rw (zero_fill_lem 19 out (omega arith)) λ i. (
      true,
      h.on_delete (be16-put_be16 locate hl i) (be48-put_be48 ts ht i)
          (record { ref = be64-put_be64 m.ref h0 i }) s,
    )

    replace-Delivers : (m : OrderReplace) → Delivers (replace m)
    unfolding dispatch encode_order_replace decode_order_replace
    replace-Delivers m (h0, h1, h2, h3) = rw (zero_fill_lem 35 out (omega arith)) λ i. (
      true,
      h.on_replace (be16-put_be16 locate hl i) (be48-put_be48 ts ht i)
          (record {
            old_ref = be64-put_be64 m.old_ref h0 i;
            new_ref = be64-put_be64 m.new_ref h1 i;
            shares = be32-put_be32 m.shares h2 i;
            price = be32-put_be32 m.price h3 i;
          })
          s,
    )

    trade-Delivers : (m : Trade) → Delivers (trade m)
    unfolding dispatch encode_trade decode_trade
    trade-Delivers m (h0, h1, h2, h3, h4, h5) =
        eight_chars
          (λ kx.
            dispatch h (encoded out locate ts (trade (record m { stock = kx }))) s
            ≡ (true, handle h locate ts (trade (record m { stock = kx })) s))
          (λ a b c d e f g k. rw (zero_fill_lem 44 out (omega arith)) λ i. (
            true,
            h.on_trade (be16-put_be16 locate hl i) (be48-put_be48 ts ht i)
                (record {
                  ref = be64-put_be64 m.ref h0 i;
                  side = char_fits m.side h1 i;
                  shares = be32-put_be32 m.shares h2 i;
                  stock = a ∷ b ∷ c ∷ d ∷ e ∷ f ∷ g ∷ k ∷ [];
                  price = be32-put_be32 m.price h4 i;
                  match_number = be64-put_be64 m.match_number h5 i;
                })
                s,
          ))
          m.stock h3

    directory-Delivers : (m : StockDirectory) → Delivers (directory m)
    unfolding dispatch encode_stock_directory decode_stock_directory
    directory-Delivers m h0 =
        eight_chars
          (λ kx.
            dispatch h (encoded out locate ts (directory (record m { stock = kx }))) s
            ≡ (true, handle h locate ts (directory (record m { stock = kx })) s))
          (λ a b c d e f g k. rw (zero_fill_lem 39 out (omega arith)) λ i. (
            true,
            h.on_stock_directory (be16-put_be16 locate hl i) (be48-put_be48 ts ht i)
                (record { stock = a ∷ b ∷ c ∷ d ∷ e ∷ f ∷ g ∷ k ∷ [] }) s,
          ))
          m.stock h0

    system-Delivers : (m : SystemEvent) → Delivers (system m)
    unfolding dispatch encode_system_event decode_system_event
    system-Delivers m h0 = rw (zero_fill_lem 12 out (omega arith)) λ i. (
      true,
      h.on_system_event 0 (be48-put_be48 ts ht i) (record { code = char_fits m.code h0 i }) s,
    )

    action-Delivers : (m : TradingAction) → Delivers (action m)
    unfolding dispatch encode_trading_action decode_trading_action
    action-Delivers m (h0, h1, h2) =
        eight_chars
          (λ kx.
            dispatch h (encoded out locate ts (action (record m { stock = kx }))) s
            ≡ (true, handle h locate ts (action (record m { stock = kx })) s))
          (λ a b c d e f g k.
            four_chars
              (λ kx.
                dispatch h
                  (encoded out locate ts
                    (action (record m { stock = a ∷ b ∷ c ∷ d ∷ e ∷ f ∷ g ∷ k ∷ []; reason = kx })))
                  s
                ≡ (
                  true,
                  handle h locate ts
                      (action
                        (record m { stock = a ∷ b ∷ c ∷ d ∷ e ∷ f ∷ g ∷ k ∷ []; reason = kx }))
                      s,
                ))
              (λ p q r t. rw (zero_fill_lem 25 out (omega arith)) λ i. (
                true,
                h.on_trading_action (be16-put_be16 locate hl i) (be48-put_be48 ts ht i)
                    (record {
                      stock = a ∷ b ∷ c ∷ d ∷ e ∷ f ∷ g ∷ k ∷ [];
                      state = char_fits m.state h1 i;
                      reason = p ∷ q ∷ r ∷ t ∷ [];
                    })
                    s,
              ))
              m.reason h2)
          m.stock h0

-- Every message whose fields fit their types, encoded into a buffer of at least 50 bytes with a
-- locate and a timestamp that fit, is accepted by `dispatch`, which calls the handler's method for
-- that kind of message once, with the same locate (0 for a system event), timestamp and fields.
pub dispatch-encode :
    {S : Type 0} (h : Handler S) (s : S) (out : List ℕ) (locate ts : ℕ) (m : Message)
    → 50 ≤ length out
    → locate < 2 ^ 16
    → ts < 2 ^ 48
    → Fits m
    → dispatch h (encoded out locate ts m) s ≡ (true, handle h locate ts m s)
dispatch-encode h s out locate ts (add m) room hl ht fits =
    add-Delivers h s out locate ts room hl ht m fits
dispatch-encode h s out locate ts (executed m) room hl ht fits =
    executed-Delivers h s out locate ts room hl ht m fits
dispatch-encode h s out locate ts (executed_with_price m) room hl ht fits =
    executed_with_price-Delivers h s out locate ts room hl ht m fits
dispatch-encode h s out locate ts (cancel m) room hl ht fits =
    cancel-Delivers h s out locate ts room hl ht m fits
dispatch-encode h s out locate ts (delete m) room hl ht fits =
    delete-Delivers h s out locate ts room hl ht m fits
dispatch-encode h s out locate ts (replace m) room hl ht fits =
    replace-Delivers h s out locate ts room hl ht m fits
dispatch-encode h s out locate ts (trade m) room hl ht fits =
    trade-Delivers h s out locate ts room hl ht m fits
dispatch-encode h s out locate ts (directory m) room hl ht fits =
    directory-Delivers h s out locate ts room hl ht m fits
dispatch-encode h s out locate ts (system m) room hl ht fits =
    system-Delivers h s out locate ts room hl ht m fits
dispatch-encode h s out locate ts (action m) room hl ht fits =
    action-Delivers h s out locate ts room hl ht m fits
