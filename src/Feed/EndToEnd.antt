-- ===== src/Feed/EndToEnd.antt =====
-- src/mold_recv.cpp behind src/mold_send.cpp.
use mini_hft.Base.{
  ℕ, ◌+◌, ◌^◌, ◌≤◌, ◌<◌, ◌≡◌, refl, sym, ap, ◌∙◌, subst, inl, true, List, [], ◌++◌, length, All,
  arith,
}
use mini_hft.Mold.Frame.{IsBytes, number_from}
use mini_hft.Mold.Writer.{pad_session}
use mini_hft.Mold.Written.{length-pad_session, pad_session-IsBytes}
use mini_hft.Mold.Finished.{begin-Wrote}
use mini_hft.Socket.Calls.{Kernel, value}
use mini_hft.Feed.Receive.{fresh, receive_loop, clean, total}
use mini_hft.Feed.Deliver.{InOrder}
use mini_hft.Feed.Arrived.{Stream, one_by_one, receive_loop-Complete}
use mini_hft.Feed.Packed.{Fits}
use mini_hft.Feed.Send.{Settings, start, run}
use mini_hft.Feed.Sent.{IsNetwork, OneFeed}
use mini_hft.Feed.Session.{all_messages, run-Ran}

fresh-InOrder : (name : List ℕ) (now : ℕ) → InOrder name 1 (fresh now).sequencer
fresh-InOrder name now = record {
  next = refl;
  held = refl;
  known = omega arith;
  session = inl refl;
  end_seen = refl;
  ended = refl;
  lost = refl;
}

module _ {W : Type 0} (k : Kernel W) (o : Settings) (log : W → List (List ℕ))
    (net : IsNetwork k log) (one : OneFeed k o) where
  -- mold_send runs with one feed, without --drop-a, on any passes whose messages each fit a packet by
  -- themselves, and with fewer messages than sequence numbers. Then it returns, and mold_recv, given the
  -- datagrams that were handed to sendto, in order, one in each round, at any times and with any waits,
  -- ends the session: it has called `toBooks` with exactly the messages of all passes, in order,
  -- numbered from 1, and finds nothing lost and nothing malformed.
  pub run-receive_loop :
      (name : List ℕ) (capacity : ℕ) (passes : List (List (List ℕ))) (w : W) (gap_wait idle now : ℕ)
      (clock : ℕ → ℕ)
      → IsBytes name
      → capacity < 2 ^ 64
      → All (All (Fits capacity)) passes
      → length (all_messages passes) + 2 ^ 16 ≤ 2 ^ 64
      → log w ≡ []
      → let sent = run k o passes (start capacity name w) in
        let r = receive_loop gap_wait idle (one_by_one (log sent.1.world) clock) (fresh now) in
        ((code : ℕ) × (sent.0 ≡ value code))
        × (r.calls ≡ number_from 1 (all_messages passes))
        × (clean r 0 0 0 ≡ true)
  unfolding start clean total
  run-receive_loop name capacity passes w gap_wait idle now clock b small f h empty =
      let s = start capacity name w in
      let ran =
        run-Ran k o log net one (pad_session 10 name) capacity (length-pad_session 10 name)
          (pad_session-IsBytes 10 name b) small [] passes s
          (record { wrote = begin-Wrote capacity 1 name; room = refl }) f (omega (arith, h)) in
      let st =
        subst (Stream (pad_session 10 name) 1 (all_messages passes))
          (sym (ran.logged ∙ ap (λ l. l ++ ran.ds) empty)) ran.stream in
      let got =
        receive_loop-Complete gap_wait idle clock (fresh now) st
          (fresh-InOrder (pad_session 10 name) now) in
      ((ran.code, ran.done), got.calls, rw (got.ended, got.lost, got.malformed) refl)
