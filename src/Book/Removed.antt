-- ===== src/Book/Removed.antt =====
-- `remove` of include/L3OrderBook.hpp on the orders at a price.
use mini_hft.Base.{
  ℕ, suc, ◌+◌, ◌^◌, ◌<◌, ◌≡◌, refl, sym, subst, ap, ◌∙◌, true, false, Option, none, some, List, [],
  ◌∷◌, ◌++◌, append-nil, length, length-append, ◌==◌, ==_refl, arith,
}
use mini_hft.Base.Words.{u32, u64}
use mini_hft.Book.{
  Book, BookSide, BookOrder, PriceLevel, Store, write_order, unlink_order, pop_level, levels,
  remove,
}
use mini_hft.Book.Links.{first_or, last_or, Linked-split, last_or-last}
use mini_hft.Book.Queue.{
  IsQueue, Relinked, total, total-append, total-same, Distinct-split, Distinct-join, Apart-cons,
}
use mini_hft.Book.Chains.{taken_out, taken_out-Linked, taken_out-Relinked}
use mini_hft.Book.Levels.{Ordered, find_level}
use mini_hft.Book.Effects.{Changed}
use mini_hft.Book.Updates.{rest_of, remove-Changed}
use mini_hft.Book.Orders.{OrdersAt, has_level}

last_or-through :
    (a : Option ℕ) (xs : List ℕ) (y : ℕ) (ys : List ℕ)
    → last_or a (xs ++ y ∷ ys) ≡ last_or (some y) ys
last_or-through a [] y ys = refl
last_or-through a (x ∷ xs) y ys = last_or-through (some x) xs y ys

-- The level that an order between two lists leaves, over the links of the order.
pop_level-head :
    (o : BookOrder) (l : PriceLevel) (p : ℕ) (xs ys : List ℕ)
    → o.prev ≡ last_or none xs
    → o.next ≡ first_or ys none
    → l.head ≡ first_or (xs ++ p ∷ ys) none
    → (pop_level o l).head ≡ first_or (xs ++ ys) none
unfolding pop_level
pop_level-head o l p [] ys e f h = rw e f
pop_level-head o l p (x ∷ xs) ys e f h = rw (e, last_or-last x xs) h

pop_level-tail :
    (o : BookOrder) (l : PriceLevel) (p : ℕ) (xs ys : List ℕ)
    → o.prev ≡ last_or none xs
    → o.next ≡ first_or ys none
    → l.tail ≡ last_or none (xs ++ p ∷ ys)
    → (pop_level o l).tail ≡ last_or none (xs ++ ys)
unfolding pop_level
pop_level-tail o l p xs [] e f h = rw f (e ∙ ap (last_or none) (sym (append-nil xs)))
pop_level-tail o l p xs (y ∷ ys) e f h =
    rw f (h ∙ last_or-through none xs p (y ∷ ys) ∙ sym (last_or-through none xs y ys))

pop_level-sums :
    (o : BookOrder) (l : PriceLevel) (n t : ℕ)
    → o.shares < 2 ^ 64
    → l.order_count ≡ u32 (suc n)
    → l.shares ≡ u64 (o.shares + t)
    → ((pop_level o l).order_count ≡ u32 n) × ((pop_level o l).shares ≡ u64 t)
unfolding pop_level
pop_level-sums o l n t h e f = (omega (arith, e), omega (arith, f))

unlink_order-taken_out :
    (p : ℕ) (s : Store) (a n : Option ℕ)
    → (s p).prev ≡ a
    → (s p).next ≡ n
    → unlink_order p s ≡ taken_out a n p s
unfolding unlink_order taken_out
unlink_order-taken_out p s a n e f = λ i. taken_out (e i) (f i) p s

pop_level-IsQueue :
    (s : Store) (l : PriceLevel) (p : ℕ) (xs ys : List ℕ)
    → IsQueue s l (xs ++ p ∷ ys)
    → (s p).shares < 2 ^ 64
    → IsQueue (unlink_order p s) (pop_level (s p) l) (xs ++ ys)
      × Relinked (xs ++ p ∷ ys) s (unlink_order p s)
pop_level-IsQueue s l p xs ys q h =
    let (_, (prev, next, _)) = Linked-split s none xs (p ∷ ys) none q.links in
    let s' : Store = taken_out (last_or none xs) (first_or ys none) p s in
    let r : Relinked (xs ++ p ∷ ys) s s' = taken_out-Relinked p xs ys s in
    let (dx, dy, apart) = Distinct-split xs (p ∷ ys) q.distinct in
    let sums =
      pop_level-sums (s p) l (length (xs ++ ys)) (total s xs + total s ys) h
        (q.count
          ∙ ap u32 {x = length (xs ++ p ∷ ys)}
              (omega (arith, length-append xs (p ∷ ys), length-append xs ys)))
        (q.shares
          ∙ ap u64 {x = total s (xs ++ p ∷ ys)} (omega (arith, total-append s xs (p ∷ ys)))) in
    subst (λ t. IsQueue t (pop_level (s p) l) (xs ++ ys) × Relinked (xs ++ p ∷ ys) s t)
      (sym (unlink_order-taken_out p s (last_or none xs) (first_or ys none) prev next))
      (
        record {
          distinct = Distinct-join xs ys dx dy.1 (Apart-cons xs p ys apart).1;
          head = pop_level-head (s p) l p xs ys prev next q.head;
          tail = pop_level-tail (s p) l p xs ys prev next q.tail;
          links = taken_out-Linked p xs ys s q.distinct q.links;
          count = sums.0;
          shares =
              sums.1
              ∙ ap u64 {x = total s xs + total s ys} (
                  omega (
                    arith,
                    total-same s s' (λ x. (r x).0.shares) (xs ++ ys),
                    total-append s xs ys,
                  ));
        },
        r,
      )

-- A level is dropped with its last order.
rest_of-OrdersAt :
    (s : Store) (l : PriceLevel) (ps : List ℕ)
    → IsQueue s l ps
    → length ps < 2 ^ 32
    → OrdersAt s (rest_of l) ps
rest_of-OrdersAt s l [] q h = let e : (l.order_count == 0) ≡ true = rw q.count refl in rw e refl
rest_of-OrdersAt s l (p ∷ ps) q h =
    let c : l.order_count ≡ suc (length ps) = omega (arith, q.count) in
    let e : (l.order_count == 0) ≡ false = ground arith in rw e (q, omega arith)

unlinked :
    (p : ℕ) (s : Store) → ((unlink_order p s p).prev ≡ none) × ((unlink_order p s p).next ≡ none)
unfolding unlink_order write_order
unlinked p s = rw (==_refl p) (refl, refl)

remove-store : (p : ℕ) (store : Store) (b : Book) → (remove p store b).0 ≡ unlink_order p store
unfolding remove
remove-store p store b = refl

-- When both sides of a book are sorted and the order stands in the doubly linked queue of its price, of
-- fewer than 2 ^ 32 orders, whose level has their number and the sum of their shares (modulo 2 ^ 64), and
-- its own shares are below 2 ^ 32, removing it leaves the queue of the others in their order, with their
-- number and sum in the level, and no level when none is left. The order's own links are null. Both sides stay
-- sorted, no other level changes, in the store nothing but the links of the orders of this queue, and
-- the result is the number of better levels.
pub remove-OrdersAt :
    (p : ℕ) (store : Store) (b : Book) (xs ys : List ℕ)
    → ((s : BookSide) → Ordered s (levels s b))
    → OrdersAt store (find_level (store p).price (levels (store p).side b)) (xs ++ p ∷ ys)
    → length (xs ++ p ∷ ys) < 2 ^ 32
    → (store p).shares < 2 ^ 32
    → (o : Option PriceLevel) × Changed
        (store p).side
        (store p).price
        o
        b
        (remove p store b).1
        (remove p store b).2
      × OrdersAt (remove p store b).0 o (xs ++ ys)
      × Relinked (xs ++ p ∷ ys) store (remove p store b).0
      × (((remove p store b).0 p).prev ≡ none)
      × (((remove p store b).0 p).next ≡ none)
remove-OrdersAt p store b xs ys v q few small =
    let (l, found, queue) =
      has_level store (find_level (store p).price (levels (store p).side b)) p xs ys q in
    let (left, relinked) = pop_level-IsQueue store l p xs ys queue (omega arith) in
    let out = unlinked p store in
    let e : unlink_order p store ≡ (remove p store b).0 = sym (remove-store p store b) in
    (
      rest_of (pop_level (store p) l),
      remove-Changed p store b l v found,
      subst (λ s. OrdersAt s (rest_of (pop_level (store p) l)) (xs ++ ys)) e
          (rest_of-OrdersAt (unlink_order p store) (pop_level (store p) l) (xs ++ ys) left
            (omega (arith, length-append xs (p ∷ ys), length-append xs ys))),
      subst (Relinked (xs ++ p ∷ ys) store) e relinked,
      subst (λ s. (s p).prev ≡ none) e out.0,
      subst (λ s. (s p).next ≡ none) e out.1,
    )
