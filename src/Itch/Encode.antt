-- ===== src/Itch/Encode.antt =====
-- The encoders of include/ItchMessages.hpp. Each writes one message at the start of `out` and
-- returns the buffer and the message's length.
use mini_hft.Base.{ℕ, List, set}
use mini_hft.Base.Words.{u8}
use mini_hft.Itch.Bytes.{put_be16, put_be32, put_be48, put_be64, zero_fill, copy_at}
use mini_hft.Itch.Types.{message_length}

unfoldable pub encode_header : List ℕ → ℕ → ℕ → ℕ → ℕ → List ℕ × ℕ
unfolding put_be16 put_be48 message_length
encode_header out type locate timestamp tracking =
    let cleared = zero_fill (message_length type) out in
    let typed = set cleared 0 (u8 type) in
    let located = put_be16 typed 1 locate in
    let tracked = put_be16 located 3 tracking in (put_be48 tracked 5 timestamp, message_length type)

unfoldable pub encode_add_order : List ℕ → ℕ → ℕ → ℕ → ℕ → ℕ → List ℕ → ℕ → List ℕ × ℕ
unfolding encode_header put_be32 put_be64 copy_at
encode_add_order out locate ts ref side shares stock price =
    let (m, n) = encode_header out b'A' locate ts 0 in
    let m = put_be64 m 11 ref in
    let m = set m 19 (u8 side) in
    let m = put_be32 m 20 shares in let m = copy_at m 24 stock in (put_be32 m 32 price, n)

unfoldable pub encode_order_executed : List ℕ → ℕ → ℕ → ℕ → ℕ → ℕ → List ℕ × ℕ
unfolding encode_header put_be32 put_be64
encode_order_executed out locate ts ref shares match_number =
    let (m, n) = encode_header out b'E' locate ts 0 in
    let m = put_be64 m 11 ref in let m = put_be32 m 19 shares in (put_be64 m 23 match_number, n)

unfoldable pub encode_order_executed_with_price : List ℕ → ℕ → ℕ → ℕ → ℕ → ℕ → ℕ → ℕ → List ℕ × ℕ
unfolding encode_header put_be32 put_be64
encode_order_executed_with_price out locate ts ref shares match_number printable price =
    let (m, n) = encode_header out b'C' locate ts 0 in
    let m = put_be64 m 11 ref in
    let m = put_be32 m 19 shares in
    let m = put_be64 m 23 match_number in
    let m = set m 31 (u8 printable) in (put_be32 m 32 price, n)

unfoldable pub encode_order_cancel : List ℕ → ℕ → ℕ → ℕ → ℕ → List ℕ × ℕ
unfolding encode_header put_be32 put_be64
encode_order_cancel out locate ts ref shares =
    let (m, n) = encode_header out b'X' locate ts 0 in
    let m = put_be64 m 11 ref in (put_be32 m 19 shares, n)

unfoldable pub encode_order_delete : List ℕ → ℕ → ℕ → ℕ → List ℕ × ℕ
unfolding encode_header put_be64
encode_order_delete out locate ts ref =
    let (m, n) = encode_header out b'D' locate ts 0 in (put_be64 m 11 ref, n)

unfoldable pub encode_order_replace : List ℕ → ℕ → ℕ → ℕ → ℕ → ℕ → ℕ → List ℕ × ℕ
unfolding encode_header put_be32 put_be64
encode_order_replace out locate ts old_ref new_ref shares price =
    let (m, n) = encode_header out b'U' locate ts 0 in
    let m = put_be64 m 11 old_ref in
    let m = put_be64 m 19 new_ref in let m = put_be32 m 27 shares in (put_be32 m 31 price, n)

unfoldable pub encode_trade : List ℕ → ℕ → ℕ → ℕ → ℕ → ℕ → List ℕ → ℕ → ℕ → List ℕ × ℕ
unfolding encode_header put_be32 put_be64 copy_at
encode_trade out locate ts ref side shares stock price match_number =
    let (m, n) = encode_header out b'P' locate ts 0 in
    let m = put_be64 m 11 ref in
    let m = set m 19 (u8 side) in
    let m = put_be32 m 20 shares in
    let m = copy_at m 24 stock in let m = put_be32 m 32 price in (put_be64 m 36 match_number, n)

unfoldable pub encode_stock_directory : List ℕ → ℕ → ℕ → List ℕ → List ℕ × ℕ
unfolding encode_header copy_at
encode_stock_directory out locate ts stock =
    let (m, n) = encode_header out b'R' locate ts 0 in (copy_at m 11 stock, n)

unfoldable pub encode_system_event : List ℕ → ℕ → ℕ → List ℕ × ℕ
unfolding encode_header
encode_system_event out ts code =
    let (m, n) = encode_header out b'S' 0 ts 0 in (set m 11 (u8 code), n)

unfoldable pub encode_trading_action : List ℕ → ℕ → ℕ → List ℕ → ℕ → List ℕ → List ℕ × ℕ
unfolding encode_header copy_at
encode_trading_action out locate ts stock state reason =
    let (m, n) = encode_header out b'H' locate ts 0 in
    let m = copy_at m 11 stock in let m = set m 19 (u8 state) in (copy_at m 21 reason, n)
