-- ===== src/Reader.antt =====
-- `ItchReader` of include/ItchParser.hpp. The file is a parameter: a state with what std::fread does
-- to it. The buffer is its capacity and its bytes before `end_`, which is their number.
mod Tests
pub mod Ensure
pub mod Framing
pub mod Kinds
pub mod Counters
pub mod Rounds
pub mod Refine
use mini_hft.Base.{
  ℕ, zero, suc, ◌+◌, ◌-◌, ◌≤◌, ◌≡◌, ◌≢◌, Bool, true, false, Option, none, some, List, [], ◌∷◌, ◌++◌,
  length, drop, get_or, ltb, leb, ◌==◌, ◌&&◌, not, if◌then◌else◌,
}
use mini_hft.Base.Words.{u64}
use mini_hft.Itch.Bytes.{be16, bytes_at}
use mini_hft.Itch.Types.{message_length}

pub record ItchReader (F : Type 0) : Type 0 where
  pub file : F
  pub capacity : ℕ
  pub buffer : List ℕ
  pub start : ℕ
  pub eof : Bool
  pub truncated : Bool
  pub messages : ℕ
  pub bytes : ℕ
  pub unknown_types : ℕ
  pub length_mismatches : ℕ

unfoldable pub new : {F : Type 0} → F → ℕ → ItchReader F
new file capacity = record {
  file = file;
  capacity = capacity;
  buffer = [];
  start = 0;
  eof = false;
  truncated = false;
  messages = 0;
  bytes = 0;
  unknown_types = 0;
  length_mismatches = 0;
}

-- What `next` does with a framed message.
pub data Verdict : Type 0 where
  good unknown mismatch : Verdict

unfoldable pub judge : List ℕ → Verdict
judge m =
    let expected = message_length (get_or m 0 0) in
    if length m == 0
    then mismatch
    else if expected == 0
    then unknown
    else if not (expected == length m)
    then mismatch
    else good

-- One round of the loop of `next`: the end of input, a message returned, or one skipped.
pub data Round (F : Type 0) : Type 0 where
  finished : ItchReader F → Round F
  returned : List ℕ → ItchReader F → Round F
  skipped : ItchReader F → Round F

module _ {F : Type 0} where
  -- The buffer after the `resize` and the `memmove` of `ensure`.
  unfoldable pub make_room : ℕ → ItchReader F → ItchReader F
  make_room need r = record r {
    capacity = if ltb r.capacity need then need else r.capacity;
    buffer = if ltb 0 r.start then drop r.start r.buffer else r.buffer;
    start = 0;
  }

  -- The bytes that are not read yet.
  abbrev pub pending : ItchReader F → ℕ
  pending r = length r.buffer - r.start

  -- The message that stands at `begin_`, taken off the buffer.
  unfoldable pub take_message : ℕ → ItchReader F → ItchReader F
  take_message len r = record r {
    start = r.start + (2 + len);
    messages = u64 (r.messages + 1);
    bytes = u64 (r.bytes + (2 + len));
  }

  unfoldable pub count_skipped : Verdict → ItchReader F → ItchReader F
  count_skipped good r = r
  count_skipped unknown r = record r { unknown_types = u64 (r.unknown_types + 1) }
  count_skipped mismatch r = record r { length_mismatches = u64 (r.length_mismatches + 1) }

  unfoldable pub judged : List ℕ → Verdict → ItchReader F → Round F
  judged m good r = returned m r
  judged m unknown r = skipped (count_skipped unknown r)
  judged m mismatch r = skipped (count_skipped mismatch r)

module _ {F : Type 0} (read : ℕ → F → List ℕ × F) where
  -- The loop of `ensure`, on fuel.
  unfoldable pub fill : ℕ → ℕ → ItchReader F → ItchReader F
  fill zero need r = r
  fill (suc fuel) need r =
      let got = read (r.capacity - length r.buffer) r.file in
      let rest = fill fuel need (record r {
        file = got.1;
        buffer = r.buffer ++ got.0;
        eof = if length got.0 == 0 then true else r.eof;
      }) in
      if ltb (length r.buffer) need && not r.eof then rest else r

  unfoldable pub ensure : ℕ → ItchReader F → Bool × ItchReader F
  ensure need r =
      let r' = fill (suc need) need (make_room need r) in
      if leb need (pending r) then (true, r) else (leb need (pending r'), r')

  unfoldable pub next_round : ItchReader F → Round F
  next_round r =
      let (some_prefix, r1) = ensure 2 r in
      let len = be16 r1.buffer r1.start in
      let (whole, r2) = ensure (2 + len) r1 in
      let m = bytes_at r2.buffer (r2.start + 2) len in
      if not some_prefix
      then finished (record r1 { truncated = ltb r1.start (length r1.buffer) })
      else if not whole
      then finished (record r2 { truncated = true })
      else judged m (judge m) (take_message len r2)

  -- The loop of `next`, on fuel; `none` for the empty span.
  unfoldable pub next : ℕ → ItchReader F → Option (List ℕ) × ItchReader F
  next zero r = (none, r)
  next (suc fuel) r = elim (next_round r) [
    | finished r' ↦ (none, r')
    | returned m r' ↦ (some m, r')
    | skipped r' ↦ next fuel r'
  ]
