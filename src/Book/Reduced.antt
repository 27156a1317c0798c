-- ===== src/Book/Reduced.antt =====
-- `reduce` of include/L3OrderBook.hpp on the orders at a price.
use mini_hft.Base.{
  ℕ, ◌+◌, ◌-◌, ◌^◌, ◌≤◌, ◌<◌, ◌≡◌, refl, sym, subst, ap, ◌∙◌, false, Option, none, some, List, [],
  ◌∷◌, ◌++◌, length-append, ◌==◌, ==→eq, if◌then◌else◌, Bool-cases, inl, inr, arith,
}
use mini_hft.Base.Words.{sub64}
use mini_hft.Book.{Book, BookSide, BookOrder, PriceLevel, Store, write_order, levels, reduce}
use mini_hft.Book.Links.{mem, Linked-Agree, Agree, or_false, write-same, write-other}
use mini_hft.Book.Queue.{IsQueue, total, total-append, Distinct-split, Apart-cons}
use mini_hft.Book.Levels.{Ordered, find_level}
use mini_hft.Book.Effects.{Changed}
use mini_hft.Book.Updates.{reduce-Changed}
use mini_hft.Book.Orders.{OrdersAt, has_level}

-- An order rewritten with the same links.
keep-Agree :
    (s : Store) (p : ℕ) (o : BookOrder) (ps : List ℕ)
    → o.prev ≡ (s p).prev
    → o.next ≡ (s p).next
    → Agree s (write_order p o s) ps
keep-Agree s p o [] e f = tt
keep-Agree s p o (x ∷ xs) e f = elim (Bool-cases (p == x)) [
  | inr n ↦
      let w = write-other p x o s n in
      (ap (λ z. z.prev) w, ap (λ z. z.next) w, keep-Agree s p o xs e f)
  | inl y ↦
      let w = write-same p o s in
      let g = ==→eq p x y in
      (
        subst (λ z. (write_order p o s z).prev ≡ (s z).prev) g (ap (λ z. z.prev) w ∙ e),
        subst (λ z. (write_order p o s z).next ≡ (s z).next) g (ap (λ z. z.next) w ∙ f),
        keep-Agree s p o xs e f,
      )
]

total-write :
    (s : Store) (p : ℕ) (o : BookOrder) (ps : List ℕ)
    → mem p ps ≡ false
    → total (write_order p o s) ps ≡ total s ps
total-write s p o [] h = refl
total-write s p o (x ∷ xs) h =
    let (n, m) = or_false (p == x) (mem p xs) h in
    omega (arith, ap (λ z. z.shares) (write-other p x o s n), total-write s p o xs m)

-- The order after `reduce`.
abbrev pub less : ℕ → BookOrder → BookOrder
less shares o = record o { shares = o.shares - shares }

reduce-store :
    (p shares : ℕ) (store : Store) (b : Book)
    → shares ≤ (store p).shares
    → (store p).shares < 2 ^ 32
    → (reduce p shares store b).0 ≡ write_order p (less shares (store p)) store
unfolding reduce
reduce-store p shares store b h small =
    let o = store p in
    ap (λ n. write_order p (record o { shares = n }) store) {x = sub64 o.shares shares}
      (omega arith)

written : (p q : ℕ) (o : BookOrder) (s : Store) → write_order p o s q ≡ (if p == q then o else s q)
unfolding write_order
written p q o s = refl

less-IsQueue :
    (s : Store) (l : PriceLevel) (p shares : ℕ) (xs ys : List ℕ)
    → IsQueue s l (xs ++ p ∷ ys)
    → shares ≤ (s p).shares
    → (s p).shares < 2 ^ 32
    → IsQueue
        (write_order p (less shares (s p)) s)
        (record l { shares = sub64 l.shares shares })
        (xs ++ p ∷ ys)
less-IsQueue s l p shares xs ys q h small =
    let o : BookOrder = less shares (s p) in
    let s' : Store = write_order p o s in
    let (dx, dy, apart) = Distinct-split xs (p ∷ ys) q.distinct in
    let fresh = (Apart-cons xs p ys apart).0 in
    let all : total s' (xs ++ p ∷ ys) + shares ≡ total s (xs ++ p ∷ ys) = omega (
      arith,
      total-append s xs (p ∷ ys),
      total-append s' xs (p ∷ ys),
      total-write s p o xs fresh,
      total-write s p o ys dy.0,
      ap (λ z. z.shares) (write-same p o s),
    ) in
    record {
      distinct = q.distinct;
      head = q.head;
      tail = q.tail;
      links =
          Linked-Agree s s' none (xs ++ p ∷ ys) none (keep-Agree s p o (xs ++ p ∷ ys) refl refl)
            q.links;
      count = q.count;
      shares = omega (arith, q.shares, all);
    }

-- When both sides of a book are sorted and the order stands in the doubly linked queue of its price, whose
-- level has the number of orders (modulo 2 ^ 32) and the sum of their shares (modulo 2 ^ 64), and the order
-- has at least the shares to be taken off, and fewer than 2 ^ 32, reducing it takes them off the order
-- and leaves the same queue, with the new sum in the level. Both sides stay sorted, no other level and nothing
-- else in the store changes, and the result is the number of better levels.
pub reduce-OrdersAt :
    (p shares : ℕ) (store : Store) (b : Book) (xs ys : List ℕ)
    → ((s : BookSide) → Ordered s (levels s b))
    → OrdersAt store (find_level (store p).price (levels (store p).side b)) (xs ++ p ∷ ys)
    → shares ≤ (store p).shares
    → (store p).shares < 2 ^ 32
    → (o : Option PriceLevel) × Changed
        (store p).side
        (store p).price
        o
        b
        (reduce p shares store b).1
        (reduce p shares store b).2
      × OrdersAt (reduce p shares store b).0 o (xs ++ p ∷ ys)
      × ((q : ℕ)
          → (reduce p shares store b).0 q ≡ (if p == q then less shares (store p) else store q))
reduce-OrdersAt p shares store b xs ys v q h small =
    let (l, found, queue) =
      has_level store (find_level (store p).price (levels (store p).side b)) p xs ys q in
    let e = reduce-store p shares store b h small in
    (
      some (record l { shares = sub64 l.shares shares }),
      reduce-Changed p shares store b l v found,
      (
        subst (λ s. IsQueue s (record l { shares = sub64 l.shares shares }) (xs ++ p ∷ ys)) (sym e)
            (less-IsQueue store l p shares xs ys queue h small),
        omega (arith, length-append xs (p ∷ ys)),
      ),
      λ x. ap (λ s. s x) e ∙ written p x (less shares (store p)) store,
    )
