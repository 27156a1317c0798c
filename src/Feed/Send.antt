-- ===== src/Feed/Send.antt =====
-- The main loop of src/mold_send.cpp over `UdpSocket::sendTo`. What a pass over the file reads is given as
-- the messages that ItchReader returns. The pacing of --pps is left out: it only waits.
use mini_hft.Base.{
  ℕ, zero, suc, ◌+◌, ◌%◌, Bool, true, false, List, [], ◌∷◌, length, ltb, ◌==◌, ◌&&◌, ◌||◌, not,
  if◌then◌else◌,
}
use mini_hft.Base.Words.{u64}
use mini_hft.Mold.Packet.{header_bytes, end_of_session_count}
use mini_hft.Mold.Writer.{PacketWriter, new, begin, add, finish, control}
use mini_hft.Socket.{send_to}
use mini_hft.Socket.Calls.{Kernel, value, thrown, Io, ◌>>=◌, ◌>>◌, pure}

pub record Feed : Type 0 where
  pub group : List ℕ
  pub port : ℕ

-- The socket and the options.
pub record Settings : Type 0 where
  pub fd : ℕ
  pub feed_a : Feed
  pub feed_b : Feed
  pub drop_a : ℕ

-- The variables of `main`, and the system behind the socket.
pub record Sender (W : Type 0) : Type 0 where
  pub world : W
  pub writer : PacketWriter
  pub packets : ℕ
  pub messages : ℕ
  pub dropped : ℕ
  pub refused : ℕ
  pub next_sequence : ℕ

-- The range that is accepted of --max-bytes.
unfoldable pub max_bytes_ok : ℕ → Bool
max_bytes_ok n = not (ltb n (header_bytes + 2 + 64) || ltb 65000 n)

unfoldable pub start : {W : Type 0} → ℕ → List ℕ → W → Sender W
unfolding begin new
start max_bytes session w = record {
  world = w;
  writer = begin 1 (new max_bytes session);
  packets = 0;
  messages = 0;
  dropped = 0;
  refused = 0;
  next_sequence = 1;
}

abbrev pub restart : {W : Type 0} → Sender W → Sender W → Sender W
restart before s =
    let n = u64 (s.next_sequence + before.writer.count) in
    record s { next_sequence = n; writer = begin n s.writer }

-- `add`, with the count of messages if it takes one.
abbrev pub try_add : {W : Type 0} → List ℕ → Sender W → Bool × Sender W
try_add m s =
    let r = add m s.writer in
    (r.0, if r.0 then record s { writer = r.1; messages = u64 (s.messages + 1) } else s)

module _ {W : Type 0} (k : Kernel W) (o : Settings) where
  -- `sendTo` on one feed, and the count of refused datagrams.
  unfoldable pub post : List ℕ → Feed → Io (Sender W) Unit
  unfolding send_to
  post datagram feed s =
      let r = send_to k o.fd datagram feed.group feed.port s.world in
      elim r.0 [
        | value taken ↦ (
          value tt,
          record s { world = r.1; refused = if taken then s.refused else u64 (s.refused + 1) },
        )
        | thrown e ↦ (thrown e, record s { world = r.1 })
      ]

  -- Feed A, on which packets are dropped on purpose.
  unfoldable pub post_a : List ℕ → Bool → Io (Sender W) Unit
  unfolding post
  post_a datagram may_drop s =
      if may_drop && ltb 0 o.drop_a && s.packets % o.drop_a == 0
      then (value tt, record s { dropped = u64 (s.dropped + 1) })
      else post datagram o.feed_a s

  unfoldable pub post_b : List ℕ → Io (Sender W) Unit
  unfolding post
  post_b datagram s = if length o.feed_b.group == 0 then (value tt, s) else post datagram o.feed_b s

  unfoldable pub send : List ℕ → Bool → Io (Sender W) Unit
  unfolding post_a post_b
  send datagram may_drop s =
      (post_a datagram may_drop >> post_b datagram) (record s { packets = u64 (s.packets + 1) })

  unfoldable pub flush : Io (Sender W) Unit
  unfolding send begin finish
  flush s =
      if s.writer.count == 0
      then (value tt, s)
      else (send (finish s.writer) true >> λ s'. (value tt, restart s s')) s

  -- The body of the loop over the messages; false when a message does not fit.
  unfoldable pub send_message : List ℕ → Io (Sender W) Bool
  unfolding flush
  send_message m s =
      let r = try_add m s in
      if r.0
      then (value true, r.1)
      else (flush >> λ s'. let r' = try_add m s' in (value r'.0, r'.1)) s

  -- One pass.
  unfoldable pub send_messages : List (List ℕ) → Io (Sender W) Bool
  unfolding send_message
  send_messages [] = pure true
  send_messages (m ∷ ms) = do fits ← send_message m; if fits then send_messages ms else pure false

  -- The end-of-session packets.
  unfoldable pub send_end : ℕ → Io (Sender W) Unit
  unfolding send control
  send_end zero = pure tt
  send_end (suc n) = do
    λ s.
        send (control s.next_sequence end_of_session_count s.writer) false
          (record s { writer = begin s.next_sequence s.writer })
    send_end n

  -- The passes, each with its messages, and the end; the result is the exit code.
  unfoldable pub run : List (List (List ℕ)) → Io (Sender W) ℕ
  unfolding flush send_messages send_end
  run [] = do flush; send_end 3; λ s. (value (if ltb 0 s.refused then 1 else 0), s)
  run (ms ∷ passes) = do fits ← send_messages ms; if fits then run passes else pure 1
