-- ===== src/Mold/Decode.antt =====
-- `decode` of include/MoldUdp64.hpp accepts exactly the framed datagrams, and `forEachMessage`
-- delivers their messages.
use mini_hft.Base.{
  ℕ, zero, suc, ◌+◌, ◌-◌, ◌^◌, ◌≤◌, ◌<◌, ◌≡◌, refl, ap, ◌∙◌, ◌↔◌, List, [], ◌∷◌, ◌++◌, length, drop,
  All, arith, append-nil, length-take, length-drop, drop-length,
}
use mini_hft.Itch.Bytes.{be16, bytes_at}
use mini_hft.Mold.Frame.{
  block, frame, IsMessage, number_from, IsBytes, next_split, be16-next, bytes_at-next, length-next,
  length-pre-block, be16-lt, drop-IsBytes, drop-block,
}
use mini_hft.Mold.Packet.{
  parse_header, messages_in, header_bytes, Packet, ok, check_blocks, decode, calls_from,
  for_each_message, messages,
}

-- The loop of `decode` accepts framed messages.
check_blocks-frame :
    (pre : List ℕ) (ms : List (List ℕ)) (p : Packet)
    → p.blocks ≡ pre ++ frame ms
    → length p.blocks < 2 ^ 64
    → All IsMessage ms
    → check_blocks (length ms) (length pre) p ≡ ok p
unfolding check_blocks
check_blocks-frame pre [] p e h a = ground (arith, ap length e, append-nil pre)
check_blocks-frame pre (m ∷ ms) p e h a =
    let rest : check_blocks (length ms) (length pre + (2 + length m)) p ≡ ok p =
      rw (length-pre-block pre m []) at
        (check_blocks-frame (pre ++ block m) ms p (next_split p pre m ms e) h a.1) in
    ground (arith, rest, be16-next p pre m ms e a.0.1, length-next p pre m ms e)

-- `forEachMessage` delivers framed messages in order, numbered from the packet's sequence number.
calls_from-frame :
    (pre : List ℕ) (ms : List (List ℕ)) (p : Packet) (i : ℕ)
    → p.blocks ≡ pre ++ frame ms
    → All IsMessage ms
    → calls_from (length ms) i (length pre) p ≡ number_from (p.sequence + i) ms
unfolding calls_from
calls_from-frame pre [] p i e a = refl
calls_from-frame pre (m ∷ ms) p i e a =
    let shift : p.sequence + i + 1 ≡ p.sequence + (i + 1) = omega arith in
    let rest : calls_from (length ms) (i + 1) (length pre + (2 + length m)) p
        ≡ number_from (p.sequence + (i + 1)) ms =
      rw (length-pre-block pre m []) at
        (calls_from-frame (pre ++ block m) ms p (i + 1) (next_split p pre m ms e) a.1) in
    rw (be16-next p pre m ms e a.0.1, bytes_at-next p pre m ms e, shift, rest)

-- A round that goes on has seen a whole block.
check_blocks-round :
    (rounds offset : ℕ) (p q : Packet)
    → length p.blocks < 2 ^ 64
    → offset ≤ length p.blocks
    → check_blocks (suc rounds) offset p ≡ ok q
    → (offset + (2 + be16 p.blocks offset) ≤ length p.blocks)
      × (0 < be16 p.blocks offset)
      × (check_blocks rounds (offset + (2 + be16 p.blocks offset)) p ≡ ok q)
unfolding check_blocks
check_blocks-round rounds offset p q h le e = ground arith

-- What the loop accepts is framed.
check_blocks_sound :
    (rounds offset : ℕ) (p : Packet) {q : Packet}
    → length p.blocks < 2 ^ 64
    → IsBytes p.blocks
    → offset ≤ length p.blocks
    → check_blocks rounds offset p ≡ ok q
    → (ms : List (List ℕ)) × (drop offset p.blocks ≡ frame ms)
      × (length ms ≡ rounds)
      × All IsMessage ms
      × (q ≡ p)
unfolding check_blocks
check_blocks_sound zero offset p h a le e =
    ([], drop-length offset p.blocks (ground arith), refl, tt, ground arith)
check_blocks_sound (suc rounds) offset p {q} h a le e =
    let n = be16 p.blocks offset in
    let m = bytes_at p.blocks (offset + 2) n in
    let (inside, some_bytes, rest) = check_blocks-round rounds offset p q h le e in
    let (ms, framed, many, all, same) =
      check_blocks_sound rounds (offset + (2 + n)) p h a inside rest in
    let size : length m ≡ n = omega (
      arith,
      inside,
      length-take n (drop (offset + 2) p.blocks),
      length-drop (offset + 2) p.blocks,
    ) in
    (
      m ∷ ms,
      drop-block p.blocks offset a inside ∙ ap (◌++◌ (block m)) framed,
      ap suc many,
      (omega (arith, size, some_bytes, be16-lt p.blocks offset a), all),
      same,
    )

-- The datagram is a header whose count and sequence number fit the framed messages that follow.
pub record IsDatagram (d : List ℕ) (ms : List (List ℕ)) : Type 0 where
  pub has_header : header_bytes ≤ length d
  pub body : drop header_bytes d ≡ frame ms
  pub counted : length ms ≡ messages (parse_header d)
  pub each : All IsMessage ms
  pub no_wrap : (parse_header d).sequence + length ms < 2 ^ 64

messages_in-le : (count : ℕ) → messages_in count ≤ count
unfolding messages_in
messages_in-le count = ground arith

-- The tests of `decode` that come before its loop.
decode-tests :
    (d : List ℕ) {p : Packet}
    → decode d ≡ ok p
    → (header_bytes ≤ length d)
      × ((parse_header d).sequence ≤ 2 ^ 64 - 1 - messages (parse_header d))
      × (check_blocks (messages (parse_header d)) 0 (parse_header d) ≡ ok p)
unfolding decode
decode-tests d e = ground arith

module _ (d : List ℕ) (a : IsBytes d) (h : length d < 2 ^ 64) where
  count-lt : messages (parse_header d) < 2 ^ 16
  count-lt = omega (arith, messages_in-le (be16 d 18), be16-lt d 18 a)

  pub for_each-frame :
      (ms : List (List ℕ))
      → IsDatagram d ms
      → for_each_message (parse_header d) ≡ number_from (parse_header d).sequence ms
  for_each-frame ms v =
      let zero_eq : (parse_header d).sequence + 0 ≡ (parse_header d).sequence = omega arith in
      rw (← v.counted) (
        calls_from-frame [] ms (parse_header d) 0 v.body v.each
        ∙ ap (λ n. number_from n ms) zero_eq)

  pub decode-accepts : (ms : List (List ℕ)) → IsDatagram d ms → decode d ≡ ok (parse_header d)
  unfolding decode
  decode-accepts ms v =
      let loop : check_blocks (messages (parse_header d)) 0 (parse_header d) ≡ ok (parse_header d) =
        rw (← v.counted) (
          check_blocks-frame [] ms (parse_header d) v.body
            (omega (arith, length-drop header_bytes d)) v.each) in
      ground (arith, loop, v.has_header, v.counted, v.no_wrap)

  decode-frames :
      {p : Packet} → decode d ≡ ok p → (ms : List (List ℕ)) × IsDatagram d ms × (p ≡ parse_header d)
  decode-frames e =
      let (big, fits, loop) = decode-tests d e in
      let (ms, framed, many, all, same) =
        check_blocks_sound (messages (parse_header d)) 0 (parse_header d)
          (omega (arith, length-drop header_bytes d)) (drop-IsBytes header_bytes d a) (omega arith)
          loop in
      (
        ms,
        record {
          has_header = big;
          body = framed;
          counted = many;
          each = all;
          no_wrap = omega (arith, fits, many, count-lt);
        },
        same,
      )

-- Of a datagram of bytes, `decode` accepts exactly those that are a 20-byte header followed by as
-- many length-prefixed messages as the header counts, none of them empty, with nothing left over
-- and no sequence number past 64 bits. The packet then has the header's session, sequence number
-- and count and all of the bytes that follow, and `forEachMessage` delivers those messages in
-- order, numbered from the header's sequence number.
pub decode_iff :
    (d : List ℕ) (p : Packet)
    → IsBytes d
    → length d < 2 ^ 64
    → (decode d ≡ ok p) ↔ (
        (ms : List (List ℕ)) × IsDatagram d ms
        × (p ≡ parse_header d)
        × (for_each_message p ≡ number_from p.sequence ms))
decode_iff d p a h = (
  λ e.
      let (ms, v, same) = decode-frames d a h e in
      (ms, v, same, rw same (for_each-frame d a h ms v)),
  λ (ms, v, same, calls). rw same (decode-accepts d a h ms v),
)
