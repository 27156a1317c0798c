-- ===== src/Feed/Sent.antt =====
-- What src/mold_send.cpp hands to the system for a datagram, on one feed and with no --drop-a.
use mini_hft.Base.{
  ℕ, ◌+◌, ◌%◌, ◌≡◌, refl, sym, ap, ◌∙◌, subst, Bool, true, false, none, some, List, [], ◌∷◌, ◌++◌,
  length, ltb, ◌==◌, ◌&&◌, if◌then◌else◌, arith,
}
use mini_hft.Base.Words.{u64}
use mini_hft.Socket.{Address, address, send_to}
use mini_hft.Socket.Calls.{
  Kernel, Reply, returned, failed, Outcome, value, thrown, bind-value, invalid_argument,
}
use mini_hft.Feed.Send.{Settings, Sender, post, post_a, post_b, send}

-- The datagrams that the system has been handed are `log`; sendto adds one, whatever it returns.
pub record IsNetwork {W : Type 0} (k : Kernel W) (log : W → List (List ℕ)) : Type 0 where
  pub logs :
      (fd : ℕ) (d : List ℕ) (ip port : ℕ) (w : W)
      → log (k.sendto fd d ip port w).1 ≡ log w ++ d ∷ []

-- One feed, whose group is an address, and nothing dropped.
pub record OneFeed {W : Type 0} (k : Kernel W) (o : Settings) : Type 0 where
  pub ip : ℕ
  pub group_a : k.inet_pton o.feed_a.group ≡ some ip
  pub group_b : o.feed_b.group ≡ []
  pub no_drop : o.drop_a ≡ 0

never : (a b : Bool) (n : ℕ) → n ≡ 0 → (a && ltb 0 n && b) ≡ false
never true b n h = ground (arith, h)
never false b n h = refl

module _ {W : Type 0} (k : Kernel W) (o : Settings) (log : W → List (List ℕ))
    (net : IsNetwork k log) (one : OneFeed k o) where
  -- A datagram was handed over, and the rest of the sender is as before.
  pub record Sent (d : List ℕ) (s : Sender W) (r : Outcome Unit × Sender W) : Type 0 where
    pub done : r.0 ≡ value tt
    pub logged : log r.1.world ≡ log s.world ++ d ∷ []
    pub writer : r.1.writer ≡ s.writer
    pub next_sequence : r.1.next_sequence ≡ s.next_sequence

  abbrev handed : List ℕ → W → Reply × W
  handed d w = k.sendto o.fd d one.ip o.feed_a.port w

  address_a :
      (w : W)
      → address k o.feed_a.group o.feed_a.port w
        ≡ (value (record { ip = one.ip; port = o.feed_a.port }), w)
  unfolding address
  address_a w =
      ap
        (λ x. elim x as (λ y. Outcome Address × W) [
          | none ↦ (thrown invalid_argument, w)
          | some a ↦ (value (record { ip = a; port = o.feed_a.port }), w)
        ])
        one.group_a

  abbrev answer : List ℕ → Address → W → Outcome Bool × W
  answer d addr w =
      let r = k.sendto o.fd d addr.ip addr.port w in
      elim r.0 [ returned n ↦ (value (n == length d), r.1) | failed e ↦ (value false, r.1) ]

  send_to-answer :
      (d : List ℕ) (w : W)
      → send_to k o.fd d o.feed_a.group o.feed_a.port w
        ≡ answer d (record { ip = one.ip; port = o.feed_a.port }) w
  unfolding send_to
  send_to-answer d w =
      bind-value (address k o.feed_a.group o.feed_a.port) (answer d) w w
        (record { ip = one.ip; port = o.feed_a.port }) (address_a w)

  abbrev posted : Sender W → Outcome Bool × W → Outcome Unit × Sender W
  posted s q = elim q.0 [
    | value taken ↦ (
      value tt,
      record s { world = q.1; refused = if taken then s.refused else u64 (s.refused + 1) },
    )
    | thrown e ↦ (thrown e, record s { world = q.1 })
  ]

  posted-Sent :
      (d : List ℕ) (s : Sender W) (x : Reply)
      → let r = handed d s.world in
        Sent d s (
          posted s (elim x as (λ y. Outcome Bool × W) [
            | returned n ↦ (value (n == length d), r.1)
            | failed e ↦ (value false, r.1)
          ]))
  posted-Sent d s (returned n) = record {
    done = refl;
    logged = net.logs o.fd d one.ip o.feed_a.port s.world;
    writer = refl;
    next_sequence = refl;
  }
  posted-Sent d s (failed e) = record {
    done = refl;
    logged = net.logs o.fd d one.ip o.feed_a.port s.world;
    writer = refl;
    next_sequence = refl;
  }

  post-Sent : (d : List ℕ) (s : Sender W) → Sent d s (post k o d o.feed_a s)
  unfolding post
  post-Sent d s =
      subst (λ q. Sent d s (posted s q)) (sym (send_to-answer d s.world))
        (posted-Sent d s (handed d s.world).0)

  post_a-Sent : (d : List ℕ) (may_drop : Bool) (s : Sender W) → Sent d s (post_a k o d may_drop s)
  unfolding post_a
  post_a-Sent d may_drop s =
      subst
        (λ b. Sent d s (
          if b
          then (value tt, record s { dropped = u64 (s.dropped + 1) })
          else post k o d o.feed_a s))
        (sym (never may_drop (s.packets % o.drop_a == 0) o.drop_a one.no_drop)) (post-Sent d s)

  no_feed_b : (d : List ℕ) (s : Sender W) → post_b k o d s ≡ (value tt, s)
  unfolding post_b
  no_feed_b d s =
      ap (λ g. if length g == 0 then (value tt, s) else post k o d o.feed_b s) one.group_b

  -- One datagram is sent.
  pub send-Sent : (d : List ℕ) (may_drop : Bool) (s : Sender W) → Sent d s (send k o d may_drop s)
  unfolding send
  send-Sent d may_drop s =
      let s1 : Sender W = record s { packets = u64 (s.packets + 1) } in
      let a = post_a-Sent d may_drop s1 in
      let s2 = (post_a k o d may_drop s1).1 in
      let both : send k o d may_drop s ≡ (value tt, s2) =
        bind-value (post_a k o d may_drop) (λ _. post_b k o d) s1 s2 tt (λ j. (a.done j, s2))
        ∙ no_feed_b d s2 in
      subst (Sent d s) (sym both) (record {
        done = refl;
        logged = a.logged;
        writer = a.writer;
        next_sequence = a.next_sequence;
      })
