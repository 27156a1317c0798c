-- ===== src/Feed/Session.antt =====
-- A whole run of src/mold_send.cpp.
use mini_hft.Base.{
  ℕ, zero, suc, ◌+◌, ◌^◌, ◌≤◌, ◌<◌, ◌≡◌, refl, sym, ap, ◌∙◌, subst, true, false, List, [], ◌∷◌,
  ◌++◌, length, All, append_assoc, append-nil, length-append, ltb, ◌==◌, if◌then◌else◌, arith,
}
use mini_hft.Mold.Frame.{IsBytes}
use mini_hft.Mold.Writer.{begin, finish, control}
use mini_hft.Socket.Calls.{Kernel, Outcome, value, Io, ◌>>◌, bind-value, pure}
use mini_hft.Feed.Arrived.{Stream}
use mini_hft.Feed.Packed.{Fits, control-Stream}
use mini_hft.Feed.Send.{Settings, Sender, send, flush, restart, send_messages, send_end, run}
use mini_hft.Feed.Sent.{IsNetwork, OneFeed, send-Sent}
use mini_hft.Feed.Filling.{Holds, Flushed, flush-Flushed, send_messages-Sending}

-- The messages of all passes.
abbrev pub all_messages : List (List (List ℕ)) → List (List ℕ)
all_messages [] = []
all_messages (ms ∷ passes) = ms ++ all_messages passes

module _ {W : Type 0} (k : Kernel W) (o : Settings) (log : W → List (List ℕ))
    (net : IsNetwork k log) (one : OneFeed k o) (name : List ℕ) (capacity : ℕ)
    (ten : length name ≡ 10) (name_bytes : IsBytes name) (small : capacity < 2 ^ 64) where
  -- Datagrams that are handed over without an exception, `front` and then others.
  record Handed (front : List (List ℕ)) (s : Sender W) (r : Outcome Unit × Sender W) : Type 0 where
    done : r.0 ≡ value tt
    ds : List (List ℕ)
    logged : log r.1.world ≡ log s.world ++ (front ++ ds)

  send_end-Handed_first :
      (n : ℕ) (s : Sender W)
      → ((s1 : Sender W) → Handed [] s1 (send_end k o n s1))
      → Handed (control s.next_sequence 0xffff s.writer ∷ []) s (send_end k o (suc n) s)
  unfolding send_end
  send_end-Handed_first n s rest =
      let d = control s.next_sequence 0xffff s.writer in
      let s0 : Sender W = record s { writer = begin s.next_sequence s.writer } in
      let a = send-Sent k o log net one d false s0 in
      let s1 = (send k o d false s0).1 in
      let b = rest s1 in
      let both : send_end k o (suc n) s ≡ send_end k o n s1 =
        bind-value
          (λ s'.
            send k o (control s'.next_sequence 0xffff s'.writer) false
              (record s' { writer = begin s'.next_sequence s'.writer }))
          (λ _. send_end k o n) s s1 tt (λ j. (a.done j, s1)) in
      subst (Handed (d ∷ []) s) (sym both) (record {
        done = b.done;
        ds = b.ds;
        logged = b.logged ∙ ap (λ l. l ++ b.ds) a.logged ∙ append_assoc (log s.world) (d ∷ []) b.ds;
      })

  send_end-Handed : (n : ℕ) (s : Sender W) → Handed [] s (send_end k o n s)
  unfolding send_end
  send_end-Handed zero s = record { done = refl; ds = []; logged = sym (append-nil (log s.world)) }
  send_end-Handed (suc n) s =
      let f = send_end-Handed_first n s (send_end-Handed n) in
      record {
        done = f.done;
        ds = control s.next_sequence 0xffff s.writer ∷ f.ds;
        logged = f.logged;
      }

  flush-Flushed_any :
      (pre : List (List ℕ)) (s : Sender W)
      → Holds k o log net one name capacity ten name_bytes small pre s
      → s.next_sequence + 0xffff ≤ 2 ^ 64
      → Flushed k o log net one name capacity ten name_bytes small s pre (flush k o s)
  unfolding flush
  flush-Flushed_any [] s v h =
      let empty : (s.writer.count == 0) ≡ true = ground (arith, v.wrote.number) in
      let same : flush k o s ≡ (value tt, s) =
        ap
          (λ b.
            if b
            then (value tt, s)
            else (send k o (finish s.writer) true >> λ s'. (value tt, restart s s')) s)
          empty in
      subst (Flushed k o log net one name capacity ten name_bytes small s []) (sym same) (record {
        done = refl;
        ds = [];
        logged = sym (append-nil (log s.world));
        holds = v;
        total = omega arith;
        joins = λ rest after st. st;
      })
  flush-Flushed_any (m ∷ pre) s v h =
      flush-Flushed k o log net one name capacity ten name_bytes small (m ∷ pre) s v (omega arith) h

  -- A run that returns, and what it has handed over.
  pub record Ran (s : Sender W) (msgs : List (List ℕ)) (r : Outcome ℕ × Sender W) : Type 0 where
    pub code : ℕ
    pub done : r.0 ≡ value code
    pub ds : List (List ℕ)
    pub logged : log r.1.world ≡ log s.world ++ ds
    pub stream : Stream name s.next_sequence msgs ds

  pub run-Ran :
      (pre : List (List ℕ)) (passes : List (List (List ℕ))) (s : Sender W)
      → Holds k o log net one name capacity ten name_bytes small pre s
      → All (All (Fits capacity)) passes
      → s.next_sequence + length pre + length (all_messages passes) + 0xffff ≤ 2 ^ 64
      → Ran s (pre ++ all_messages passes) (run k o passes s)
  unfolding run
  run-Ran pre [] s v f h =
      let a = flush-Flushed_any pre s v (omega (arith, h)) in
      let s1 = (flush k o s).1 in
      let e = send_end-Handed_first 2 s1 (send_end-Handed 2) in
      let s2 = (send_end k o 3 s1).1 in
      let code : ℕ = if ltb 0 s2.refused then 1 else 0 in
      let last : Io (Sender W) ℕ = λ s'. (value (if ltb 0 s'.refused then 1 else 0), s') in
      let both : run k o [] s ≡ (value code, s2) =
        bind-value (flush k o) (λ _. send_end k o 3 >> last) s s1 tt (λ j. (a.done j, s1))
        ∙ bind-value (send_end k o 3) (λ _. last) s1 s2 tt (λ j. (e.done j, s2)) in
      subst (Ran s (pre ++ [])) (sym both) (record {
        code = code;
        done = refl;
        ds = a.ds ++ (control s1.next_sequence 0xffff s1.writer ∷ e.ds);
        logged =
            e.logged
            ∙ ap (λ l. l ++ (control s1.next_sequence 0xffff s1.writer ∷ e.ds)) a.logged
            ∙ append_assoc (log s.world) a.ds (control s1.next_sequence 0xffff s1.writer ∷ e.ds);
        stream = a.joins [] (control s1.next_sequence 0xffff s1.writer ∷ e.ds) (
            control-Stream s1.next_sequence name e.ds s1.writer ten a.holds.wrote.same_session
              (omega (arith, a.total, h)));
      })
  run-Ran pre (ms ∷ passes) s v f h =
      let a =
        send_messages-Sending k o log net one name capacity ten name_bytes small pre ms s v f.0
          (omega (arith, h, length-append ms (all_messages passes))) in
      let s1 = (send_messages k o ms s).1 in
      let b =
        run-Ran a.left passes s1 a.holds f.1
          (omega (arith, h, a.total, length-append ms (all_messages passes))) in
      let both : run k o (ms ∷ passes) s ≡ run k o passes s1 =
        bind-value (send_messages k o ms) (λ fits. if fits then run k o passes else pure 1) s s1
          true (λ j. (a.done j, s1)) in
      subst (Ran s (pre ++ (ms ++ all_messages passes))) (sym both) (record {
        code = b.code;
        done = b.done;
        ds = a.ds ++ b.ds;
        logged = b.logged ∙ ap (λ l. l ++ b.ds) a.logged ∙ append_assoc (log s.world) a.ds b.ds;
        stream = a.joins (all_messages passes) b.ds b.stream;
      })
