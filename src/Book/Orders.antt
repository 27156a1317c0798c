-- ===== src/Book/Orders.antt =====
-- `add` of include/L3OrderBook.hpp on the orders at a price.
use mini_hft.Base.{
  ℕ, ◌+◌, ◌<◌, ◌≡◌, refl, sym, subst, ap, ◌∙◌, false, Option, none, some, List, [], ◌∷◌, ◌++◌,
  length, length-append, arith,
}
use mini_hft.Base.Words.{u32, u64}
use mini_hft.Book.{
  Book, BookSide, PriceLevel, Store, write_order, link_order, push_level, new_level, levels, add,
}
use mini_hft.Book.Links.{mem, first_or, last_or, set_next, last_or-last}
use mini_hft.Book.Queue.{
  IsQueue, Relinked, total, total-append, total-same, Distinct-join, Apart-one,
}
use mini_hft.Book.Chains.{linked_behind, linked_behind-Linked, linked_behind-Relinked}
use mini_hft.Book.Levels.{Ordered, find_level}
use mini_hft.Book.Places.{level_or, level_at-open_level}
use mini_hft.Book.Effects.{Changed}
use mini_hft.Book.Updates.{add-Changed}

-- The orders at a price, oldest first: those of the level's queue, and none when there is no level.
abbrev pub OrdersAt : Store → Option PriceLevel → List ℕ → Type 0
OrdersAt s none ps = ps ≡ []
OrdersAt s (some l) ps = IsQueue s l ps × (0 < length ps)

link_order-linked_behind :
    (s : Store) (l : PriceLevel) (p : ℕ) (ps : List ℕ)
    → l.tail ≡ last_or none ps
    → link_order p l s ≡ linked_behind p ps s
unfolding link_order linked_behind
link_order-linked_behind s l p ps e =
    let o = s p in
    ap (λ t. set_next t (some p) (write_order p (record o { prev = t; next = none }) s)) e

push_level-head :
    (s : Store) (l : PriceLevel) (p : ℕ) (ps : List ℕ)
    → IsQueue s l ps
    → (push_level p (s p).shares l).head ≡ first_or (ps ++ p ∷ []) none
unfolding push_level
push_level-head s l p [] q = rw q.tail refl
push_level-head s l p (x ∷ xs) q = rw (q.tail, last_or-last x xs) q.head

last_or-end : (a : Option ℕ) (xs : List ℕ) (p : ℕ) → last_or a (xs ++ p ∷ []) ≡ some p
last_or-end a [] p = refl
last_or-end a (x ∷ xs) p = last_or-end (some x) xs p

push_level-tail :
    (p n : ℕ) (l : PriceLevel) (ps : List ℕ) → (push_level p n l).tail ≡ last_or none (ps ++ p ∷ [])
unfolding push_level
push_level-tail p n l [] = refl
push_level-tail p n l (x ∷ xs) = sym (last_or-end (some x) xs p)

push_level-count :
    (p : ℕ) (l : PriceLevel) (ps : List ℕ) (n : ℕ)
    → l.order_count ≡ u32 (length ps)
    → (push_level p n l).order_count ≡ u32 (length (ps ++ p ∷ []))
unfolding push_level
push_level-count p l ps n e = omega (arith, e, length-append ps (p ∷ []))

push_level-shares :
    (p : ℕ) (l : PriceLevel) (n t : ℕ) → l.shares ≡ u64 t → (push_level p n l).shares ≡ u64 (t + n)
unfolding push_level
push_level-shares p l n t e = omega (arith, e)

push_level-IsQueue :
    (s : Store) (l : PriceLevel) (p : ℕ) (ps : List ℕ)
    → IsQueue s l ps
    → mem p ps ≡ false
    → IsQueue (link_order p l s) (push_level p (s p).shares l) (ps ++ p ∷ [])
      × Relinked (ps ++ p ∷ []) s (link_order p l s)
push_level-IsQueue s l p ps q h =
    let same : link_order p l s ≡ linked_behind p ps s = link_order-linked_behind s l p ps q.tail in
    let r = linked_behind-Relinked p ps s in
    let t = total-same s (linked_behind p ps s) (λ x. (r x).0.shares) (ps ++ p ∷ []) in
    subst
      (λ s'. IsQueue s' (push_level p (s p).shares l) (ps ++ p ∷ []) × Relinked (ps ++ p ∷ []) s s')
      (sym same)
      (
        record {
          distinct = Distinct-join ps (p ∷ []) q.distinct (refl, tt) (Apart-one ps p h);
          head = push_level-head s l p ps q;
          tail = push_level-tail p (s p).shares l ps;
          links = linked_behind-Linked p ps s h q.distinct q.links;
          count = push_level-count p l ps (s p).shares q.count;
          shares =
              push_level-shares p l (s p).shares (total s ps) q.shares
              ∙ ap u64 {x = total s ps + (s p).shares}
                  (omega (arith, t, total-append s ps (p ∷ [])));
        },
        r,
      )

level-IsQueue :
    (s : Store) (price : ℕ) (o : Option PriceLevel) (ps : List ℕ)
    → OrdersAt s o ps
    → IsQueue s (level_or (new_level price) o) ps
level-IsQueue s price none ps e =
    subst (IsQueue s (new_level price)) (sym e)
      (record { distinct = tt; head = refl; tail = refl; links = tt; count = refl; shares = refl })
level-IsQueue s price (some l) ps q = q.0

add-store :
    (p : ℕ) (store : Store) (b : Book)
    → ((s : BookSide) → Ordered s (levels s b))
    → (add p store b).0
      ≡ link_order p
          (level_or
            (new_level (store p).price)
            (find_level (store p).price (levels (store p).side b)))
          store
unfolding add
add-store p store b v =
    ap (λ l. link_order p l store)
      (level_at-open_level (store p).side (store p).price (levels (store p).side b)
        (v (store p).side))

-- When both sides of a book are sorted and the orders at the new order's price are a doubly linked queue
-- with their number (modulo 2 ^ 32) and the sum of their shares (modulo 2 ^ 64) in the level, or there is
-- no level and no order, adding an order that is not among them puts it at the back of that queue, in a
-- new level if there was none, and the level has the new number and sum. Both sides stay sorted, no
-- level at another price or on the other side changes, in the store nothing but the links of the orders of
-- this queue, and the result is the number of better levels.
pub add-OrdersAt :
    (p : ℕ) (store : Store) (b : Book) (ps : List ℕ)
    → ((s : BookSide) → Ordered s (levels s b))
    → OrdersAt store (find_level (store p).price (levels (store p).side b)) ps
    → mem p ps ≡ false
    → (o : Option PriceLevel) × Changed
        (store p).side
        (store p).price
        o
        b
        (add p store b).1
        (add p store b).2
      × OrdersAt (add p store b).0 o (ps ++ p ∷ [])
      × Relinked (ps ++ p ∷ []) store (add p store b).0
add-OrdersAt p store b ps v q h =
    let side : BookSide = (store p).side in
    let price : ℕ = (store p).price in
    let l : PriceLevel = level_or (new_level price) (find_level price (levels side b)) in
    let (queue, relinked) =
      push_level-IsQueue store l p ps
        (level-IsQueue store price (find_level price (levels side b)) ps q) h in
    let e : link_order p l store ≡ (add p store b).0 = sym (add-store p store b v) in
    (
      some (push_level p (store p).shares l),
      add-Changed p store b v,
      (
        subst (λ s. IsQueue s (push_level p (store p).shares l) (ps ++ p ∷ [])) e queue,
        omega (arith, length-append ps (p ∷ [])),
      ),
      subst (Relinked (ps ++ p ∷ []) store) e relinked,
    )

pub has_level :
    (s : Store) (o : Option PriceLevel) (p : ℕ) (xs ys : List ℕ)
    → OrdersAt s o (xs ++ p ∷ ys)
    → (l : PriceLevel) × (o ≡ some l) × IsQueue s l (xs ++ p ∷ ys)
has_level s none p xs ys e = absurd (omega (arith, ap length e, length-append xs (p ∷ ys)))
has_level s (some l) p xs ys q = (l, refl, q.0)
