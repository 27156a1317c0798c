-- ===== src/Mold/Writer.antt =====
-- `PacketWriter` of include/MoldUdp64.hpp. The buffer is its capacity and the bytes that `add` has
-- written after the header; the header's own bytes are written by `finish`.
-- A buffer that cannot hold the header is outside the model.
use mini_hft.Base.{
  ℕ, zero, suc, ◌+◌, ◌-◌, Bool, true, false, List, [], ◌∷◌, ◌++◌, length, ltb, ◌==◌, ◌||◌,
  if◌then◌else◌,
}
use mini_hft.Base.Words.{u16, sub64}
use mini_hft.Itch.Bytes.{put_be16, put_be64}
use mini_hft.Mold.Packet.{session_bytes, header_bytes, end_of_session_count}

pub record PacketWriter : Type 0 where
  pub capacity : ℕ
  pub session : List ℕ
  pub sequence : ℕ
  pub count : ℕ
  pub body : List ℕ

-- A session name in ten bytes, with blanks at its end.
unfoldable pub pad_session : ℕ → List ℕ → List ℕ
pad_session zero name = []
pad_session (suc n) [] = b' ' ∷ pad_session n []
pad_session (suc n) (c ∷ cs) = c ∷ pad_session n cs

unfoldable pub new : ℕ → List ℕ → PacketWriter
new capacity name = record {
  capacity = capacity;
  session = pad_session session_bytes name;
  sequence = 1;
  count = 0;
  body = [];
}

unfoldable pub begin : ℕ → PacketWriter → PacketWriter
begin sequence w = record w { sequence = sequence; count = 0; body = [] }

-- `size_`
abbrev pub size_of : PacketWriter → ℕ
size_of w = header_bytes + length w.body

-- The length prefix that `add` writes.
abbrev pub prefix : ℕ → List ℕ
prefix n = put_be16 (0 ∷ 0 ∷ []) 0 (u16 n)

unfoldable pub add : List ℕ → PacketWriter → Bool × PacketWriter
add message w =
    let n = length message in
    if n == 0 || ltb 0xffff n || w.count == end_of_session_count - 1
    then (false, w)
    else if ltb (sub64 w.capacity (size_of w)) (2 + n)
    then (false, w)
    else (true, record w { body = w.body ++ (prefix n ++ message); count = u16 (w.count + 1) })

unfoldable pub finish_with_count : ℕ → PacketWriter → List ℕ
finish_with_count count w =
    w.session
    ++ (put_be64 (0 ∷ 0 ∷ 0 ∷ 0 ∷ 0 ∷ 0 ∷ 0 ∷ 0 ∷ []) 0 w.sequence
        ++ (put_be16 (0 ∷ 0 ∷ []) 0 count ++ w.body))

unfoldable pub finish : PacketWriter → List ℕ
finish w = finish_with_count w.count w

unfoldable pub control : ℕ → ℕ → PacketWriter → List ℕ
control next count w = finish_with_count count (begin next w)
