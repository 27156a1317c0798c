-- ===== src/Mold/Packet.antt =====
-- `PacketError`, `Packet`, `decode` and `forEachMessage` of include/MoldUdp64.hpp. A datagram is its
-- list of bytes.
use mini_hft.Base.{
  ℕ, zero, suc, ◌+◌, ◌-◌, ◌^◌, Bool, List, [], ◌∷◌, length, take, drop, ltb, ◌==◌, not,
  if◌then◌else◌,
}
use mini_hft.Base.Words.{u64, sub64}
use mini_hft.Itch.Bytes.{be16, be64, bytes_at}

abbrev pub session_bytes : ℕ
session_bytes = 10

abbrev pub header_bytes : ℕ
header_bytes = session_bytes + 8 + 2

abbrev pub heartbeat_count : ℕ
heartbeat_count = 0

abbrev pub end_of_session_count : ℕ
end_of_session_count = 0xffff

-- `None` is the `ok` of `Decoded`.
pub data PacketError : Type 0 where
  too_short block_overrun count_mismatch empty_message sequence_overflow : PacketError

pub record Packet : Type 0 where
  pub session : List ℕ
  pub sequence : ℕ
  pub count : ℕ
  pub blocks : List ℕ

abbrev pub heartbeat : Packet → Bool
heartbeat p = p.count == heartbeat_count

abbrev pub end_of_session : Packet → Bool
end_of_session p = p.count == end_of_session_count

-- `Packet::messages`, of the count.
unfoldable pub messages_in : ℕ → ℕ
messages_in count = if count == end_of_session_count then 0 else count

abbrev pub messages : Packet → ℕ
messages p = messages_in p.count

pub data Decoded : Type 0 where
  ok : Packet → Decoded
  err : PacketError → Decoded

-- The loop of `decode` over the rounds left; `ok` carries the packet on, and the test after the loop
-- is its last round.
unfoldable pub check_blocks : ℕ → ℕ → Packet → Decoded
check_blocks zero offset p = if not (offset == length p.blocks) then err count_mismatch else ok p
check_blocks (suc rounds) offset p =
    let len = be16 p.blocks offset in
    let rest = check_blocks rounds (offset + (2 + len)) p in
    if ltb (sub64 (length p.blocks) offset) 2
    then err block_overrun
    else if len == 0
    then err empty_message
    else if ltb (sub64 (sub64 (length p.blocks) offset) 2) len
    then err block_overrun
    else rest

abbrev pub parse_header : List ℕ → Packet
parse_header datagram = record {
  session = take session_bytes datagram;
  sequence = be64 datagram session_bytes;
  count = be16 datagram (session_bytes + 8);
  blocks = drop header_bytes datagram;
}

unfoldable pub decode : List ℕ → Decoded
decode datagram =
    let p = parse_header datagram in
    let checked = check_blocks (messages p) 0 p in
    if ltb (length datagram) header_bytes
    then err too_short
    else if ltb (2 ^ 64 - 1 - messages p) p.sequence
    then err sequence_overflow
    else checked

-- The calls of `fn` that `forEachMessage` makes, in order.
abbrev pub Call : Type 0
Call = ℕ × List ℕ

unfoldable pub calls_from : ℕ → ℕ → ℕ → Packet → List Call
calls_from zero i offset p = []
calls_from (suc rounds) i offset p =
    let len = be16 p.blocks offset in
    (u64 (p.sequence + i), bytes_at p.blocks (offset + 2) len)
    ∷ calls_from rounds (i + 1) (offset + (2 + len)) p

abbrev pub for_each_message : Packet → List Call
for_each_message p = calls_from (messages p) 0 0 p
