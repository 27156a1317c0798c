-- ===== src/Book/Updates.antt =====
-- `add`, `reduce` and `remove` of include/L3OrderBook.hpp on the levels of a book, read as a map.
use mini_hft.Base.{
  ℕ, suc, ◌-◌, ◌≡◌, refl, subst, Option-cases, ap, ◌∙◌, Option, none, some, List, length, set, ◌==◌,
  if◌then◌else◌, Bool-cases, inl, inr, arith,
}
use mini_hft.Base.Words.{sub64}
use mini_hft.Book.{
  Book, BookOrder, Store, BookSide, PriceLevel, lower_bound, open_level, new_level, levels,
  set_levels, add, reduce, remove, push_level, pop_level,
}
use mini_hft.Book.Levels.{Ordered, find_level, upsert, discard}
use mini_hft.Book.Places.{level_or, set-open_level, level_at-open_level, depth-open_level, present}
use mini_hft.Book.Effects.{
  Changed, set_levels-Changed, upsert-Ordered, discard-Ordered, find_level-upsert,
  find_level-discard, find_level_price,
}

-- A side whose level at the price of x was written: what the operations that keep a level do.
upsert-Changed :
    (side : BookSide) (price : ℕ) (x : PriceLevel) (b : Book) (depth : ℕ)
    → x.price ≡ price
    → ((s : BookSide) → Ordered s (levels s b))
    → suc depth
      ≡ length (open_level side price (levels side b)) - lower_bound side price (levels side b)
    → Changed side price
        (some x)
        b
        (set_levels side
          (set (open_level side price (levels side b)) (lower_bound side price (levels side b)) x)
          b)
        depth
upsert-Changed side price x b depth e v d =
    let ls : List PriceLevel = levels side b in
    rw (set-open_level side price x ls) (
      set_levels-Changed side price (some x) b (upsert side price x ls) depth v
        (subst (λ p. Ordered side (upsert side p x ls)) e (upsert-Ordered side x ls (v side)))
        (λ q.
          subst
            (λ p. find_level q (upsert side p x ls) ≡ (if p == q then some x else find_level q ls))
            e (find_level-upsert side q x ls))
        (omega (arith, d, depth-open_level side price ls (v side))))

push_level_price : (p shares : ℕ) (l : PriceLevel) → (push_level p shares l).price ≡ l.price
unfolding push_level
push_level_price p shares l = refl

pop_level_price : (o : BookOrder) (l : PriceLevel) → (pop_level o l).price ≡ l.price
unfolding pop_level
pop_level_price o l = refl

level_or_price :
    (price : ℕ) (ls : List PriceLevel)
    → (level_or (new_level price) (find_level price ls)).price ≡ price
level_or_price price ls = elim (Option-cases (find_level price ls)) [
  | inl n ↦ rw n refl
  | inr (x, f) ↦ rw f (find_level_price price x ls f)
]

-- `add` changes the level at the order's price only.
pub add-Changed :
    (p : ℕ) (store : Store) (b : Book)
    → ((s : BookSide) → Ordered s (levels s b))
    → Changed
        (store p).side
        (store p).price
        (some (
          push_level p (store p).shares (
            level_or
              (new_level (store p).price)
              (find_level (store p).price (levels (store p).side b)))))
        b
        (add p store b).1
        (add p store b).2
unfolding add
add-Changed p store b v =
    let side : BookSide = (store p).side in
    let price : ℕ = (store p).price in
    let ls : List PriceLevel = levels side b in
    rw (level_at-open_level side price ls (v side)) (
      upsert-Changed side price
        (push_level p (store p).shares (level_or (new_level price) (find_level price ls))) b
        (length (open_level side price ls) - 1 - lower_bound side price ls)
        (push_level_price p (store p).shares (level_or (new_level price) (find_level price ls))
          ∙ level_or_price price ls)
        v (omega (arith, depth-open_level side price ls (v side))))

-- A level written over the one that its price has.
replace-Changed :
    (side : BookSide) (price : ℕ) (x y : PriceLevel) (b : Book)
    → ((s : BookSide) → Ordered s (levels s b))
    → find_level price (levels side b) ≡ some x
    → y.price ≡ price
    → Changed side price
        (some y)
        b
        (set_levels side (set (levels side b) (lower_bound side price (levels side b)) y) b)
        (length (levels side b) - 1 - lower_bound side price (levels side b))
replace-Changed side price x y b v f e =
    let ls : List PriceLevel = levels side b in
    let (_, same, _) = present side price x ls (v side) f in
    subst
      (λ ms.
        Changed side price (some y) b (set_levels side (set ms (lower_bound side price ls) y) b)
          (length ls - 1 - lower_bound side price ls))
      same
      (upsert-Changed side price y b (length ls - 1 - lower_bound side price ls) e v
        (omega (arith, ap length same, depth-open_level side price ls (v side))))

-- `reduce` changes the level at the order's price only.
pub reduce-Changed :
    (p shares : ℕ) (store : Store) (b : Book) (x : PriceLevel)
    → ((s : BookSide) → Ordered s (levels s b))
    → find_level (store p).price (levels (store p).side b) ≡ some x
    → Changed
        (store p).side
        (store p).price
        (some (record x { shares = sub64 x.shares shares }))
        b
        (reduce p shares store b).1
        (reduce p shares store b).2
unfolding reduce
reduce-Changed p shares store b x v f =
    let (at, _, _) =
      present (store p).side (store p).price x (levels (store p).side b) (v (store p).side) f in
    rw at (
      replace-Changed (store p).side (store p).price x (record x { shares = sub64 x.shares shares })
        b v f (find_level_price (store p).price x (levels (store p).side b) f))

-- What `remove` leaves of a level: none of it when the count of orders reaches 0.
abbrev pub rest_of : PriceLevel → Option PriceLevel
rest_of x = if x.order_count == 0 then none else some x

-- `remove` changes the level at the order's price only.
pub remove-Changed :
    (p : ℕ) (store : Store) (b : Book) (x : PriceLevel)
    → ((s : BookSide) → Ordered s (levels s b))
    → find_level (store p).price (levels (store p).side b) ≡ some x
    → Changed
        (store p).side
        (store p).price
        (rest_of (pop_level (store p) x))
        b
        (remove p store b).1
        (remove p store b).2
unfolding remove
remove-Changed p store b x v f =
    let side : BookSide = (store p).side in
    let price : ℕ = (store p).price in
    let ls : List PriceLevel = levels side b in
    let y : PriceLevel = pop_level (store p) x in
    let (at, same, erased) = present side price x ls (v side) f in
    rw at (elim (Bool-cases (y.order_count == 0)) [
      | inl gone ↦
          rw (gone, erased)
            (set_levels-Changed side price none b (discard side price ls)
              (length ls - 1 - lower_bound side price ls) v (discard-Ordered side price ls (v side))
              (λ q. find_level-discard side price q x ls (v side) f)
              (omega (arith, ap length same, depth-open_level side price ls (v side))))
      | inr left ↦ rw left (
          replace-Changed side price x y b v f
            (pop_level_price (store p) x ∙ find_level_price price x ls f))
    ])
