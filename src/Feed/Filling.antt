-- ===== src/Feed/Filling.antt =====
-- How src/mold_send.cpp fills packets and flushes them.
use mini_hft.Base.{
  ℕ, ◌+◌, ◌^◌, ◌≤◌, ◌<◌, ◌≡◌, refl, sym, ap, ◌∙◌, subst, inl, inr, Bool, true, false, List, [], ◌∷◌,
  ◌++◌, length, All, append_assoc, append-nil, length-append, ◌==◌, if◌then◌else◌, Bool-cases,
  arith,
}
use mini_hft.Base.Words.{u64}
use mini_hft.Mold.Frame.{IsBytes}
use mini_hft.Mold.Writer.{begin, add, finish}
use mini_hft.Mold.Written.{Wrote}
use mini_hft.Socket.Calls.{Kernel, Outcome, value, Io, ◌>>◌, bind-value, pure}
use mini_hft.Feed.Arrived.{Stream}
use mini_hft.Feed.Packed.{
  Fits, add-capacity, refused-some, begin-Wrote, taken-Wrote, empty_taken, finish-Stream,
}
use mini_hft.Feed.Send.{
  Settings, Sender, send, flush, try_add, restart, send_message, send_messages,
}
use mini_hft.Feed.Sent.{IsNetwork, OneFeed, send-Sent}

module _ {W : Type 0} (k : Kernel W) (o : Settings) (log : W → List (List ℕ))
    (net : IsNetwork k log) (one : OneFeed k o) (name : List ℕ) (capacity : ℕ)
    (ten : length name ≡ 10) (name_bytes : IsBytes name) (small : capacity < 2 ^ 64) where
  -- The sender's packet holds `pre`.
  pub record Holds (pre : List (List ℕ)) (s : Sender W) : Type 0 where
    pub wrote : Wrote s.next_sequence name pre s.writer
    pub room : s.writer.capacity ≡ capacity

  -- What the sender did with the messages ms.
  pub record Sending (s : Sender W) (pre ms : List (List ℕ)) (r : Outcome Bool × Sender W)
      : Type 0 where
    pub done : r.0 ≡ value true
    pub ds : List (List ℕ)
    pub logged : log r.1.world ≡ log s.world ++ ds
    pub left : List (List ℕ)
    pub holds : Holds left r.1
    pub total : r.1.next_sequence + length left ≡ s.next_sequence + length pre + length ms
    pub joins :
        (rest after : List (List ℕ))
        → Stream name r.1.next_sequence (left ++ rest) after
        → Stream name s.next_sequence (pre ++ (ms ++ rest)) (ds ++ after)

  pub record Flushed (s : Sender W) (pre : List (List ℕ)) (r : Outcome Unit × Sender W)
      : Type 0 where
    pub done : r.0 ≡ value tt
    pub ds : List (List ℕ)
    pub logged : log r.1.world ≡ log s.world ++ ds
    pub holds : Holds [] r.1
    pub total : r.1.next_sequence ≡ s.next_sequence + length pre
    pub joins :
        (rest after : List (List ℕ))
        → Stream name r.1.next_sequence rest after
        → Stream name s.next_sequence (pre ++ rest) (ds ++ after)

  pub flush-Flushed :
      (pre : List (List ℕ)) (s : Sender W)
      → Holds pre s
      → 0 < length pre
      → s.next_sequence + 0xffff ≤ 2 ^ 64
      → Flushed s pre (flush k o s)
  unfolding flush begin
  flush-Flushed pre s v some_left h =
      let sent = send-Sent k o log net one (finish s.writer) true s in
      let s1 = (send k o (finish s.writer) true s).1 in
      let not_empty : (s.writer.count == 0) ≡ false = ground (arith, v.wrote.number, some_left) in
      let n : u64 (s1.next_sequence + s.writer.count) ≡ s.next_sequence + length pre =
        omega (arith, sent.next_sequence, v.wrote.number, v.wrote.few, h) in
      let both : flush k o s ≡ (value tt, restart s s1) =
        ap
          (λ b.
            if b
            then (value tt, s)
            else (send k o (finish s.writer) true >> λ s'. (value tt, restart s s')) s)
          not_empty
        ∙ bind-value (send k o (finish s.writer) true) (λ _ s'. (value tt, restart s s')) s s1 tt
            (λ j. (sent.done j, s1)) in
      subst (Flushed s pre) (sym both) (record {
        done = refl;
        ds = finish s.writer ∷ [];
        logged = sent.logged;
        holds = record {
          wrote =
              begin-Wrote (u64 (s1.next_sequence + s.writer.count)) name s1.writer
                (ap (λ w. w.session) sent.writer ∙ v.wrote.same_session);
          room = ap (λ w. w.capacity) sent.writer ∙ v.room;
        };
        total = n;
        joins = λ rest after st.
            finish-Stream s.next_sequence name pre rest after s.writer ten name_bytes v.wrote
              some_left h (subst (λ m. Stream name m rest after) n st);
      })

  -- A message that `add` takes.
  taken-Holds :
      (pre : List (List ℕ)) (m : List ℕ) (s : Sender W)
      → Holds pre s
      → IsBytes m
      → (add m s.writer).0 ≡ true
      → (try_add m s
          ≡ (true, record s { writer = (add m s.writer).1; messages = u64 (s.messages + 1) }))
        × Holds
            (pre ++ m ∷ [])
            (record s { writer = (add m s.writer).1; messages = u64 (s.messages + 1) })
  taken-Holds pre m s v b took = (
    rw took refl,
    record {
      wrote = taken-Wrote s.next_sequence name pre m s.writer b v.wrote took;
      room = add-capacity m s.writer ∙ v.room;
    },
  )

  send_message-Sending :
      (pre : List (List ℕ)) (m : List ℕ) (s : Sender W)
      → Holds pre s
      → Fits capacity m
      → s.next_sequence + length pre + 0xffff ≤ 2 ^ 64
      → Sending s pre (m ∷ []) (send_message k o m s)
  unfolding send_message
  send_message-Sending pre m s v f h = elim (Bool-cases (add m s.writer).0) [
    | inl took ↦
        let t = taken-Holds pre m s v f.1 took in
        rw took (record {
          done = refl;
          ds = [];
          logged = sym (append-nil (log s.world));
          left = pre ++ m ∷ [];
          holds = t.1;
          total = omega (arith, length-append pre (m ∷ []));
          joins = λ rest after st.
              subst (λ l. Stream name s.next_sequence l after) (append_assoc pre (m ∷ []) rest) st;
        })
    | inr full ↦
        let some_left =
          refused-some s.next_sequence name pre m s.writer v.wrote
            (f.0, f.1, omega (arith, f.2, v.room)) (omega (arith, v.room, small)) full in
        let fl = flush-Flushed pre s v some_left (omega (arith, h)) in
        let s1 = (flush k o s).1 in
        let took =
          empty_taken s1.next_sequence name m s1.writer fl.holds.wrote
            (f.0, f.1, omega (arith, f.2, fl.holds.room)) (omega (arith, fl.holds.room, small)) in
        let t = taken-Holds [] m s1 fl.holds f.1 took in
        let s2 : Sender W = record s1 {
          writer = (add m s1.writer).1;
          messages = u64 (s1.messages + 1);
        } in
        let again : Io (Sender W) Bool = λ s'. (value (try_add m s').0, (try_add m s').1) in
        let both : send_message k o m s ≡ (value true, s2) =
          ap (λ b. if b then (value true, (try_add m s).1) else (flush k o >> again) s) full
          ∙ bind-value (flush k o) (λ _. again) s s1 tt (λ j. (fl.done j, s1))
          ∙ ap (λ q. (value q.0, q.1)) t.0 in
        subst (Sending s pre (m ∷ [])) (sym both) (record {
          done = refl;
          ds = fl.ds;
          logged = fl.logged;
          left = m ∷ [];
          holds = t.1;
          total = omega (arith, fl.total);
          joins = λ rest after st. fl.joins (m ∷ rest) after st;
        })
  ]

  pub send_messages-Sending :
      (pre ms : List (List ℕ)) (s : Sender W)
      → Holds pre s
      → All (Fits capacity) ms
      → s.next_sequence + length pre + length ms + 0xffff ≤ 2 ^ 64
      → Sending s pre ms (send_messages k o ms s)
  unfolding send_messages
  send_messages-Sending pre [] s v f h = record {
    done = refl;
    ds = [];
    logged = sym (append-nil (log s.world));
    left = pre;
    holds = v;
    total = omega arith;
    joins = λ rest after st. st;
  }
  send_messages-Sending pre (m ∷ ms) s v f h =
      let a = send_message-Sending pre m s v f.0 (omega (arith, h)) in
      let s1 = (send_message k o m s).1 in
      let b = send_messages-Sending a.left ms s1 a.holds f.1 (omega (arith, h, a.total)) in
      let r = send_messages k o ms s1 in
      let both : send_messages k o (m ∷ ms) s ≡ r =
        bind-value (send_message k o m) (λ fits. if fits then send_messages k o ms else pure false)
          s s1 true (λ j. (a.done j, s1)) in
      subst (Sending s pre (m ∷ ms)) (sym both) (record {
        done = b.done;
        ds = a.ds ++ b.ds;
        logged = b.logged ∙ ap (λ l. l ++ b.ds) a.logged ∙ append_assoc (log s.world) a.ds b.ds;
        left = b.left;
        holds = b.holds;
        total = omega (arith, a.total, b.total);
        joins = λ rest after st.
            subst (Stream name s.next_sequence (pre ++ (m ∷ (ms ++ rest))))
              (sym (append_assoc a.ds b.ds after))
              (a.joins (ms ++ rest) (b.ds ++ after) (b.joins rest after st));
      })
