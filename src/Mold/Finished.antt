-- ===== src/Mold/Finished.antt =====
-- That `decode` of include/MoldUdp64.hpp reads back what `PacketWriter` has written.
use mini_hft.Base.{
  if◌then◌else◌, ltb, ◌-◌, false, ◌∙◌, ℕ, ◌+◌, ◌^◌, ◌≤◌, ◌<◌, ◌≡◌, refl, sym, ap, ◌∙◌, subst, List,
  [], ◌∷◌, ◌++◌, length, take, All, All-append, length-append, take-length-append, arith,
}
use mini_hft.Itch.Bytes.{put_be16, put_be64, put_be32}
use mini_hft.Mold.Packet.{
  check_blocks, Packet, parse_header, decode, ok, err, too_short, sequence_overflow,
  for_each_message, messages, messages_in,
}
use mini_hft.Mold.Frame.{IsBytes, frame, IsMessage, number_from}
use mini_hft.Mold.Decode.{IsDatagram, for_each-frame, decode-accepts}
use mini_hft.Mold.Writer.{PacketWriter, pad_session, new, begin, finish_with_count, finish}
use mini_hft.Mold.Written.{
  add_all, Wrote, header_read, add_all-Wrote, frame-IsBytes, length-frame, length-pad_session,
  pad_session-IsBytes,
}

-- The packet that a writer holding the messages ms describes.
abbrev pub packet_of : List ℕ → ℕ → List (List ℕ) → Packet
packet_of session sequence ms = record {
  session = session;
  sequence = sequence;
  count = length ms;
  blocks = frame ms;
}

-- The bytes of a finished packet.
abbrev pub finished : List ℕ → ℕ → ℕ → List ℕ → List ℕ
finished s sequence count tail =
    s
    ++ (put_be64 (0 ∷ 0 ∷ 0 ∷ 0 ∷ 0 ∷ 0 ∷ 0 ∷ 0 ∷ []) 0 sequence
        ++ (put_be16 (0 ∷ 0 ∷ []) 0 count ++ tail))

-- The packet that a control datagram describes, and any other.
abbrev pub described : List ℕ → ℕ → ℕ → List ℕ → Packet
described session sequence count blocks = record {
  session = session;
  sequence = sequence;
  count = count;
  blocks = blocks;
}

parse_header-finished :
    (s : List ℕ) (sequence count : ℕ) (tail : List ℕ)
    → length s ≡ 10
    → sequence < 2 ^ 64
    → count < 2 ^ 16
    → parse_header (finished s sequence count tail) ≡ described s sequence count tail
parse_header-finished s sequence n tail e h c =
    let (number, count, rest) = header_read s tail sequence n e h c in
    let name : take 10 (finished s sequence n tail) ≡ s =
      subst (λ k. take k (finished s sequence n tail) ≡ s) e (take-length-append s _) in
    λ j. record { session = name j; sequence = number j; count = count j; blocks = rest j }

finished-IsBytes :
    (s : List ℕ) (sequence count : ℕ) (tail : List ℕ)
    → IsBytes s
    → IsBytes tail
    → IsBytes (finished s sequence count tail)
unfolding put_be16 put_be32 put_be64
finished-IsBytes s sequence count tail b t =
    All-append (λ c. c < 2 ^ 8) s _ b
      (
        omega arith,
        (
          omega arith,
          (
            omega arith,
            (
              omega arith,
              (
                omega arith,
                (omega arith, (omega arith, (omega arith, (omega arith, (omega arith, t))))),
              ),
            ),
          ),
        ),
      )

pub length-finished :
    (s : List ℕ) (sequence count : ℕ) (tail : List ℕ)
    → length (finished s sequence count tail) ≡ length s + (10 + length tail)
unfolding put_be16 put_be32 put_be64
length-finished s sequence count tail = omega (
  arith,
  length-append s (
      put_be64 (0 ∷ 0 ∷ 0 ∷ 0 ∷ 0 ∷ 0 ∷ 0 ∷ 0 ∷ []) 0 sequence
      ++ (put_be16 (0 ∷ 0 ∷ []) 0 count ++ tail)),
)

messages_in_few : (n : ℕ) → n < 0xffff → messages_in n ≡ n
unfolding messages_in
messages_in_few n h = ground arith

-- The packet that a writer has finished, when its numbers do not wrap, is decoded to the session,
-- the first number and the messages that went in.
pub finished_decoded :
    (s : List ℕ) (sequence : ℕ) (ms : List (List ℕ))
    → length s ≡ 10
    → IsBytes s
    → All IsMessage ms
    → All IsBytes ms
    → length ms < 0xffff
    → sequence + 0xffff ≤ 2 ^ 64
    → (decode (finished s sequence (length ms) (frame ms)) ≡ ok (packet_of s sequence ms))
      × (for_each_message (packet_of s sequence ms) ≡ number_from sequence ms)
finished_decoded s sequence ms e b v w few h =
    let d : List ℕ = finished s sequence (length ms) (frame ms) in
    let same : parse_header d ≡ packet_of s sequence ms =
      parse_header-finished s sequence (length ms) (frame ms) e (omega arith) (omega arith) in
    let size : length d ≡ length s + (10 + length (frame ms)) =
      length-finished s sequence (length ms) (frame ms) in
    let bytes : IsBytes d =
      finished-IsBytes s sequence (length ms) (frame ms) b (frame-IsBytes ms v w) in
    let short : length d < 2 ^ 64 = omega (arith, length-frame ms v) in
    let datagram : IsDatagram d ms = record {
      has_header = omega arith;
      body = ap (λ p. p.blocks) same;
      counted = sym (ap (λ p. messages p) same ∙ messages_in_few (length ms) few);
      each = v;
      no_wrap = subst (λ p. p.sequence + length ms < 2 ^ 64) (sym same) (omega arith);
    } in
    (
      decode-accepts d bytes short ms datagram ∙ ap ok same,
      subst (λ p. for_each_message p ≡ number_from p.sequence ms) same
          (for_each-frame d bytes short ms datagram),
    )

-- A datagram without messages is decoded to its session, number and count.
pub control_decoded :
    (s : List ℕ) (sequence : ℕ)
    → length s ≡ 10
    → sequence < 2 ^ 64
    → decode (finished s sequence 0xffff []) ≡ ok (described s sequence 0xffff [])
unfolding decode check_blocks messages_in
control_decoded s sequence e h =
    let d : List ℕ = finished s sequence 0xffff [] in
    let p : Packet = described s sequence 0xffff [] in
    let same : parse_header d ≡ p = parse_header-finished s sequence 0xffff [] e h (omega arith) in
    let long : ltb (length (finished s sequence 0xffff [])) 20 ≡ false =
      ground (arith, length-finished s sequence 0xffff [], e) in
    let fits : ltb (2 ^ 64 - 1) sequence ≡ false = ground arith in
    ap
      (λ b.
        if b
        then err too_short
        else if ltb (2 ^ 64 - 1 - messages (parse_header d)) (parse_header d).sequence
        then err sequence_overflow
        else check_blocks (messages (parse_header d)) 0 (parse_header d))
      long
    ∙ ap
        (λ q.
          if ltb (2 ^ 64 - 1 - messages q) q.sequence
          then err sequence_overflow
          else check_blocks (messages q) 0 q)
        same
    ∙ ap (λ b. if b then err sequence_overflow else ok p) fits

pub begin-Wrote :
    (capacity sequence : ℕ) (name : List ℕ)
    → Wrote sequence (pad_session 10 name) [] (begin sequence (new capacity name))
unfolding begin new
begin-Wrote capacity sequence name = record {
  same_session = refl;
  same_sequence = refl;
  number = refl;
  framed = refl;
  each = tt;
  few = omega arith;
  bytes = tt;
}

pub finish-finished :
    (sequence : ℕ) (s : List ℕ) (ms : List (List ℕ)) (w : PacketWriter)
    → Wrote sequence s ms w
    → finish w ≡ finished s sequence (length ms) (frame ms)
unfolding finish finish_with_count
finish-finished sequence s ms w v =
    λ j. finished (v.same_session j) (v.same_sequence j) (v.number j) (v.framed j)

-- A packet is begun in a new writer whose session name is bytes, any messages of bytes are tried, in order, with
-- `add`, and the packet is finished. When its numbers cannot pass 64 bits, `decode` accepts it and reads back the
-- session name cut or filled with blanks to ten bytes, the number it was begun with, and the count of the messages for
-- which `add` returned true; and `forEachMessage` delivers those messages, in order, with their numbers.
pub decode-finish :
    (capacity sequence : ℕ) (name : List ℕ) (tries : List (List ℕ))
    → IsBytes name
    → All IsBytes tries
    → sequence + 0xffff ≤ 2 ^ 64
    → (decode (finish (add_all tries (begin sequence (new capacity name))).1)
        ≡ ok (
            packet_of
              (pad_session 10 name)
              sequence
              (add_all tries (begin sequence (new capacity name))).0))
      × (for_each_message (
            packet_of
              (pad_session 10 name)
              sequence
              (add_all tries (begin sequence (new capacity name))).0)
          ≡ number_from sequence (add_all tries (begin sequence (new capacity name))).0)
decode-finish capacity sequence name tries b t h =
    let s : List ℕ = pad_session 10 name in
    let r = add_all tries (begin sequence (new capacity name)) in
    let v : Wrote sequence s r.0 r.1 =
      add_all-Wrote sequence s [] tries (begin sequence (new capacity name)) t
        (begin-Wrote capacity sequence name) in
    rw (finish-finished sequence s r.0 r.1 v) (
      finished_decoded s sequence r.0 (length-pad_session 10 name) (pad_session-IsBytes 10 name b)
        v.each v.bytes v.few h)
