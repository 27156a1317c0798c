-- ===== src/Builder/Notify.antt =====
-- What the listener of include/ItchBook.hpp hears.
use mini_hft.Base.{
  ℕ, ◌≡◌, ◌≢◌, refl, sym, ap, subst, ◌∙◌, ◌⊎◌, Option, none, some, Option-cases, Bool, true, false,
  ==_refl, arith, Bool-cases, inl, inr, ltb, ◌&&◌, ◌==◌, if◌then◌else◌, ◌∷◌,
}
use mini_hft.Book.{BookSide, PriceLevel, best_bid, best_ask, crossed}
use mini_hft.Builder.Stats.{TopOfBook}
use mini_hft.Builder.State.{OrderPool, OrderMap, Builder, put_at}
use mini_hft.Builder.Change.{
  top_of, moved, change_book, record_depth, count_live, note_crossed, book_add, book_reduce,
  book_remove, add_order, remove_order, take_shares, take,
}
use mini_hft.Builder.Handlers.{
  on_executed, on_executed_with_price, on_cancel, on_delete, on_replace, change_order,
}
use mini_hft.Builder.Events.{
  OrderEvent, executed, executed_with_price, cancelled, deleted, replaced, event_ref, count_event,
  on_event, with_order-some,
}

-- The price and the shares of a best level, 0 where there is none.
abbrev pub touch : Option PriceLevel → ℕ × ℕ
touch none = (0, 0)
touch (some l) = (l.price, l.shares)

-- The test for a move is whether one of the four numbers differs.
abbrev sides : TopOfBook → (ℕ × ℕ) × (ℕ × ℕ)
sides x = ((x.bid_price, x.bid_shares), (x.ask_price, x.ask_shares))

moved_same : (x : TopOfBook) → moved x x ≡ false
unfolding moved
moved_same x =
    rw (==_refl x.bid_price, ==_refl x.bid_shares, ==_refl x.ask_price, ==_refl x.ask_shares) refl

same_sides : (x y : TopOfBook) → moved x y ≡ false → sides y ≡ sides x
unfolding moved
same_sides x y h =
    let a : y.bid_price ≡ x.bid_price = ground arith in
    let b : y.bid_shares ≡ x.bid_shares = ground arith in
    let c : y.ask_price ≡ x.ask_price = ground arith in
    let d : y.ask_shares ≡ x.ask_shares = ground arith in λ i. ((a i, b i), (c i, d i))

other_sides : (x y : TopOfBook) → moved x y ≡ true → sides y ≢ sides x
unfolding moved
other_sides x y h e =
    let a : y.bid_price ≡ x.bid_price = ap (λ q. q.0.0) e in
    let b : y.bid_shares ≡ x.bid_shares = ap (λ q. q.0.1) e in
    let c : y.ask_price ≡ x.ask_price = ap (λ q. q.1.0) e in
    let d : y.ask_shares ≡ x.ask_shares = ap (λ q. q.1.1) e in ground arith

and_cases :
    (a b : Bool)
    → (((a && b) ≡ true) × (a ≡ true) × (b ≡ true))
      ⊎ (((a && b) ≡ false) × ((a ≡ false) ⊎ (b ≡ false)))
and_cases true true = inl (refl, refl, refl)
and_cases true false = inr (refl, inr refl)
and_cases false b = inr (refl, inl refl)

module _ {P I : Type 0} where
  -- The best prices of the book of a locate, bid and ask, with the shares there.
  abbrev pub best : ℕ → Builder P I → (ℕ × ℕ) × (ℕ × ℕ)
  best locate s = (touch (best_bid (s.books locate)), touch (best_ask (s.books locate)))

  -- The listener hears nothing when it does not listen or the best bid and ask, in price and in shares, are
  -- as before, and else it hears the new ones, once.
  pub Told : ℕ → ℕ → Builder P I → Builder P I → Type 0
  Told locate ts s s' =
      (((s.notify ≡ false) ⊎ (best locate s' ≡ best locate s)) × (s'.heard ≡ s.heard))
      ⊎ ((s.notify ≡ true)
          × (best locate s' ≢ best locate s)
          × (s'.heard
              ≡ record {
                locate = locate;
                timestamp = ts;
                bid_price = (best locate s').0.0;
                bid_shares = (best locate s').0.1;
                ask_price = (best locate s').1.0;
                ask_shares = (best locate s').1.1;
              }
                ∷ s.heard))

  top_of-best :
      (locate ts : ℕ) (s : Builder P I)
      → top_of locate ts s ≡ record {
        locate = locate;
        timestamp = ts;
        bid_price = (best locate s).0.0;
        bid_shares = (best locate s).0.1;
        ask_price = (best locate s).1.0;
        ask_shares = (best locate s).1.1;
      }
  unfolding top_of
  top_of-best locate ts s = elim (Option-cases (best_bid (s.books locate))) [
    | inl n ↦ rw n (elim (Option-cases (best_ask (s.books locate))) [
      | inl m ↦ rw m refl
      | inr (y, m) ↦ rw m refl
    ])
    | inr (x, n) ↦ rw n (elim (Option-cases (best_ask (s.books locate))) [
      | inl m ↦ rw m refl
      | inr (y, m) ↦ rw m refl
    ])
  ]

  change_book-Told :
      (locate ts : ℕ) (change : Builder P I → Builder P I) (s : Builder P I)
      → (change s).heard ≡ s.heard
      → Told locate ts s (change_book locate ts change s)
  unfolding change_book Told
  change_book-Told locate ts change s h =
      let before : TopOfBook = top_of locate ts s in
      let after : TopOfBook = top_of locate ts (change s) in
      let was : sides before ≡ best locate s = ap sides (top_of-best locate ts s) in
      let is : sides after ≡ best locate (change s) = ap sides (top_of-best locate ts (change s)) in
      elim (and_cases s.notify (moved (top_of locate ts s) (top_of locate ts (change s)))) [
        | inl (y, l, m) ↦ rw y (
            inr (
              l,
              λ e. other_sides before after m (is ∙ e ∙ sym was),
              λ i. top_of-best locate ts (change s) i ∷ h i,
            ))
        | inr (n, inl off) ↦ rw n (inl (inl off, h))
        | inr (n, inr still) ↦ rw n (inl (inr (sym is ∙ same_sides before after still ∙ was), h))
      ]

  note_crossed-heard :
      (locate ts : ℕ) (s : Builder P I) → (note_crossed locate ts s).heard ≡ s.heard
  unfolding note_crossed
  note_crossed-heard locate ts s = elim (Bool-cases (s.market_open && crossed (s.books locate))) [
    | inl y ↦ rw y refl
    | inr n ↦ rw n refl
  ]

  module _ (pools : OrderPool P) (maps : OrderMap I) where
    add_order-heard :
        (locate ts ref : ℕ) (side : BookSide) (shares price : ℕ) (s : Builder P I)
        → (add_order pools maps locate ts ref side shares price s).heard ≡ s.heard
    unfolding add_order book_add record_depth count_live
    add_order-heard locate ts ref side shares price s =
        elim (Bool-cases ((maps.try_insert ref (pools.acquire s.pool).0 s.index).0)) [
          | inl y ↦ rw y (note_crossed-heard locate ts _)
          | inr n ↦ rw n refl
        ]

    remove_order-heard : (p : ℕ) (s : Builder P I) → (remove_order pools maps p s).heard ≡ s.heard
    unfolding remove_order book_remove record_depth
    remove_order-heard p s = refl

    take_shares-heard :
        (p shares : ℕ) (s : Builder P I) → (take_shares pools maps p shares s).heard ≡ s.heard
    unfolding take_shares book_reduce record_depth
    take_shares-heard p shares s = elim (Bool-cases (shares == (s.store p).shares)) [
      | inl y ↦ rw y (remove_order-heard p s)
      | inr n ↦ rw n refl
    ]

    take-heard : (p shares : ℕ) (s : Builder P I) → (take pools maps p shares s).heard ≡ s.heard
    unfolding take
    take-heard p shares s = elim (Bool-cases (ltb (s.store p).shares shares)) [
      | inl y ↦ rw y (take_shares-heard p (s.store p).shares _)
      | inr n ↦ rw n (take_shares-heard p shares s)
    ]

    -- When an execution, a cancel, a delete or a replace finds its order, and there is a listener, it hears
    -- the best bid and ask of that order's book after the event, with the locate and the time, once, if
    -- one of their prices and shares differs from before the event, and otherwise hears nothing.
    pub on_event-Told :
        (e : OrderEvent) (locate ts p : ℕ) (s : Builder P I)
        → maps.find (event_ref e) s.index ≡ some p
        → Told (s.store p).locate ts s (on_event pools maps e locate ts s)
    unfolding on_executed on_executed_with_price on_cancel on_delete on_replace change_order Told
        top_of
    on_event-Told (executed m) locate ts p s h =
        let r : Builder P I = record s { stats = count_event (executed m) s.stats } in
        subst (Told (s.store p).locate ts s)
          (sym (
            with_order-some pools maps m.ref p
              (λ q s'. change_order pools maps q ts (take pools maps q m.shares) (record s' {
                last_price = put_at (s'.store q).locate (s'.store q).price s'.last_price;
              }))
              r h))
          (change_book-Told (s.store p).locate ts (take pools maps p m.shares)
            (record r { last_price = put_at (s.store p).locate (s.store p).price s.last_price })
            (take-heard p m.shares _))
    on_event-Told (executed_with_price m) locate ts p s h =
        let r : Builder P I = record s { stats = count_event (executed_with_price m) s.stats } in
        subst (Told (s.store p).locate ts s)
          (sym (
            with_order-some pools maps m.ref p
              (λ q s'. change_order pools maps q ts (take pools maps q m.shares) (
                if m.printable == b'Y'
                then record s' { last_price = put_at (s'.store q).locate m.price s'.last_price }
                else s'))
              r h))
          (elim (Bool-cases (m.printable == b'Y')) [
            | inl y ↦ rw y (
                change_book-Told (s.store p).locate ts (take pools maps p m.shares)
                  (record r { last_price = put_at (s.store p).locate m.price s.last_price })
                  (take-heard p m.shares _))
            | inr n ↦ rw n (
                change_book-Told (s.store p).locate ts (take pools maps p m.shares) r
                  (take-heard p m.shares r))
          ])
    on_event-Told (cancelled m) locate ts p s h =
        let r : Builder P I = record s { stats = count_event (cancelled m) s.stats } in
        subst (Told (s.store p).locate ts s)
          (sym (
            with_order-some pools maps m.ref p
              (λ q. change_order pools maps q ts (take pools maps q m.shares)) r h))
          (change_book-Told (s.store p).locate ts (take pools maps p m.shares) r
            (take-heard p m.shares r))
    on_event-Told (deleted m) locate ts p s h =
        let r : Builder P I = record s { stats = count_event (deleted m) s.stats } in
        subst (Told (s.store p).locate ts s)
          (sym (
            with_order-some pools maps m.ref p
              (λ q. change_order pools maps q ts (remove_order pools maps q)) r h))
          (change_book-Told (s.store p).locate ts (remove_order pools maps p) r
            (remove_order-heard p r))
    on_event-Told (replaced m) locate ts p s h =
        let r : Builder P I = record s { stats = count_event (replaced m) s.stats } in
        subst (Told (s.store p).locate ts s)
          (sym (
            with_order-some pools maps m.old_ref p
              (λ q s'.
                change_book (s'.store q).locate ts
                  (λ u.
                    add_order pools maps (s'.store q).locate ts m.new_ref (s'.store q).side m.shares
                      m.price (remove_order pools maps q u))
                  s')
              r h))
          (change_book-Told (s.store p).locate ts
            (λ u.
              add_order pools maps (s.store p).locate ts m.new_ref (s.store p).side m.shares m.price
                (remove_order pools maps p u))
            r
            (add_order-heard (s.store p).locate ts m.new_ref (s.store p).side m.shares m.price
                (remove_order pools maps p r)
              ∙ remove_order-heard p r))
