-- ===== src/Book/Queue.antt =====
-- The queue of orders at a price, in include/L3OrderBook.hpp.
use mini_hft.Base.{
  ℕ, ◌+◌, ◌≡◌, refl, sym, subst, ◌∙◌, true, false, Option, none, some, List, [], ◌∷◌, ◌++◌, length,
  ◌==◌, ◌||◌, ==_refl, ==→eq, Bool-cases, inl, inr, ◌⊎◌, arith,
}
use mathlib.Core.Option.{some-injective}
use mini_hft.Base.Words.{u32, u64}
use mini_hft.Book.{BookOrder, PriceLevel, Store, write_order}
use mini_hft.Book.Links.{
  mem, Distinct, Agree-refl, first_or, last_or, Linked, Agree, write-same, write-other, or_false,
  write-Agree, last, last_or-last, set_next, set_prev,
}

-- The shares of the orders of a list.
abbrev pub total : Store → List ℕ → ℕ
total s [] = 0
total s (p ∷ ps) = (s p).shares + total s ps

-- A level is the queue of the orders of a list, oldest first.
pub record IsQueue (s : Store) (l : PriceLevel) (ps : List ℕ) : Type 0 where
  pub distinct : Distinct ps
  pub head : l.head ≡ first_or ps none
  pub tail : l.tail ≡ last_or none ps
  pub links : Linked s none ps none
  pub count : l.order_count ≡ u32 (length ps)
  pub shares : l.shares ≡ u64 (total s ps)

-- Orders that are the same but for their links.
pub record SameOrder (o o' : BookOrder) : Type 0 where
  pub ref : o'.ref ≡ o.ref
  pub price : o'.price ≡ o.price
  pub shares : o'.shares ≡ o.shares
  pub locate : o'.locate ≡ o.locate
  pub side : o'.side ≡ o.side

-- Nothing but the links of the orders of a list differs.
abbrev pub Relinked : List ℕ → Store → Store → Type 0
Relinked ps s s' = (q : ℕ) → SameOrder (s q) (s' q) × ((s' q ≡ s q) ⊎ (mem q ps ≡ true))

-- Distinct lists, and what stands in them.
pub mem-append : (q : ℕ) (xs ys : List ℕ) → mem q (xs ++ ys) ≡ (mem q xs || mem q ys)
mem-append q [] ys = refl
mem-append q (x ∷ xs) ys = elim (Bool-cases (q == x)) [
  | inl e ↦ rw e refl
  | inr e ↦ rw (e, mem-append q xs ys) refl
]

-- No order of one list stands in another.
abbrev pub Apart : List ℕ → List ℕ → Type 0
Apart [] ys = Unit
Apart (x ∷ xs) ys = (mem x ys ≡ false) × Apart xs ys

pub not_in_append :
    (q : ℕ) (xs ys : List ℕ) → mem q (xs ++ ys) ≡ false → (mem q xs ≡ false) × (mem q ys ≡ false)
not_in_append q xs ys h = or_false (mem q xs) (mem q ys) (sym (mem-append q xs ys) ∙ h)

pub in_neither :
    (q : ℕ) (xs ys : List ℕ) → mem q xs ≡ false → mem q ys ≡ false → mem q (xs ++ ys) ≡ false
in_neither q xs ys h k = rw (mem-append q xs ys, h) k

pub Distinct-split :
    (xs ys : List ℕ) → Distinct (xs ++ ys) → Distinct xs × Distinct ys × Apart xs ys
Distinct-split [] ys d = (tt, d, tt)
Distinct-split (x ∷ xs) ys d =
    let (a, b, c) = Distinct-split xs ys d.1 in
    let (h, k) = not_in_append x xs ys d.0 in ((h, a), b, (k, c))

pub Distinct-join : (xs ys : List ℕ) → Distinct xs → Distinct ys → Apart xs ys → Distinct (xs ++ ys)
Distinct-join [] ys d e a = e
Distinct-join (x ∷ xs) ys d e a = (in_neither x xs ys d.0 a.0, Distinct-join xs ys d.1 e a.1)

pub Apart-cons :
    (xs : List ℕ) (y : ℕ) (ys : List ℕ) → Apart xs (y ∷ ys) → (mem y xs ≡ false) × Apart xs ys
Apart-cons [] y ys a = (refl, tt)
Apart-cons (x ∷ xs) y ys a =
    let (h, k) = or_false (x == y) (mem x ys) a.0 in
    let (l, m) = Apart-cons xs y ys a.1 in
    let e : (y == x) ≡ false = ground arith in (rw e l, (k, m))

Apart-nil : (xs : List ℕ) → Apart xs []
Apart-nil [] = tt
Apart-nil (x ∷ xs) = (refl, Apart-nil xs)

pub Apart-one : (xs : List ℕ) (y : ℕ) → mem y xs ≡ false → Apart xs (y ∷ [])
Apart-one [] y h = tt
Apart-one (x ∷ xs) y h =
    let (k, l) = or_false (y == x) (mem y xs) h in
    let e : (x == y) ≡ false = ground arith in (rw e refl, Apart-one xs y l)

pub total-same :
    (s s' : Store)
    → ((q : ℕ) → (s' q).shares ≡ (s q).shares)
    → (ps : List ℕ) → total s' ps ≡ total s ps
total-same s s' e [] = refl
total-same s s' e (p ∷ ps) = rw (e p, total-same s s' e ps) refl

pub total-append : (s : Store) (xs ys : List ℕ) → total s (xs ++ ys) ≡ total s xs + total s ys
total-append s [] ys = omega arith
total-append s (x ∷ xs) ys = omega (arith, total-append s xs ys)

SameOrder-refl : (o : BookOrder) → SameOrder o o
SameOrder-refl o = record { ref = refl; price = refl; shares = refl; locate = refl; side = refl }

pub Relinked-trans :
    (ps : List ℕ) (s t u : Store) → Relinked ps s t → Relinked ps t u → Relinked ps s u
Relinked-trans ps s t u a b q =
    let x = (a q).0 in
    let y = (b q).0 in
    (
      record {
        ref = y.ref ∙ x.ref;
        price = y.price ∙ x.price;
        shares = y.shares ∙ x.shares;
        locate = y.locate ∙ x.locate;
        side = y.side ∙ x.side;
      },
      elim (b q).1 [ inr m ↦ inr m | inl e ↦ elim (a q).1 [ inr m ↦ inr m | inl f ↦ inl (e ∙ f) ] ],
    )

pub write-Relinked :
    (p : ℕ) (o : BookOrder) (s : Store) (ps : List ℕ)
    → mem p ps ≡ true
    → SameOrder (s p) o
    → Relinked ps s (write_order p o s)
write-Relinked p o s ps h e q = elim (Bool-cases (p == q)) [
  | inr n ↦
      let f = write-other p q o s n in
      (subst (SameOrder (s q)) (sym f) (SameOrder-refl (s q)), inl f)
  | inl y ↦
      let f = ==→eq p q y in
      (
        subst (λ r. SameOrder (s r) (write_order p o s r)) f
            (subst (SameOrder (s p)) (sym (write-same p o s)) e),
        inr (subst (λ r. mem r ps ≡ true) f h),
      )
]

-- Links set at the ends of a chain.
pub set_next-Relinked :
    (a c : Option ℕ) (s : Store) (ps : List ℕ)
    → ((x : ℕ) → a ≡ some x → mem x ps ≡ true)
    → Relinked ps s (set_next a c s)
set_next-Relinked none c s ps h q = (SameOrder-refl (s q), inl refl)
set_next-Relinked (some x) c s ps h q =
    let o = s x in
    write-Relinked x (record o { next = c }) s ps (h x refl)
      (record { ref = refl; price = refl; shares = refl; locate = refl; side = refl }) q

pub set_prev-Relinked :
    (a c : Option ℕ) (s : Store) (ps : List ℕ)
    → ((x : ℕ) → a ≡ some x → mem x ps ≡ true)
    → Relinked ps s (set_prev a c s)
set_prev-Relinked none c s ps h q = (SameOrder-refl (s q), inl refl)
set_prev-Relinked (some x) c s ps h q =
    let o = s x in
    write-Relinked x (record o { prev = c }) s ps (h x refl)
      (record { ref = refl; price = refl; shares = refl; locate = refl; side = refl }) q

mem-last : (x : ℕ) (xs : List ℕ) → mem (last x xs) (x ∷ xs) ≡ true
mem-last x [] = rw (==_refl x) refl
mem-last x (y ∷ ys) = elim (Bool-cases (last y ys == x)) [
  | inl e ↦ rw e refl
  | inr n ↦ rw n (mem-last y ys)
]

-- The ends of a chain stand in it.
pub last_or-mem : (xs : List ℕ) (x : ℕ) → last_or none xs ≡ some x → mem x xs ≡ true
last_or-mem [] x e = absurd (cc)
last_or-mem (y ∷ ys) x e =
    subst (λ z. mem z (y ∷ ys) ≡ true) (some-injective (last y ys) x (sym (last_or-last y ys) ∙ e))
      (mem-last y ys)

pub first_or-mem : (xs : List ℕ) (x : ℕ) → first_or xs none ≡ some x → mem x xs ≡ true
first_or-mem [] x e = absurd (cc)
first_or-mem (y ∷ ys) x e = rw (some-injective y x e, ==_refl x) refl

pub mem-left : (q : ℕ) (xs ys : List ℕ) → mem q xs ≡ true → mem q (xs ++ ys) ≡ true
mem-left q xs ys h = rw (mem-append q xs ys, h) refl

pub mem-right : (q : ℕ) (xs ys : List ℕ) → mem q ys ≡ true → mem q (xs ++ ys) ≡ true
mem-right q xs ys h = rw (mem-append q xs ys, h) (ground arith)

pub Apart-mem : (xs ys : List ℕ) (x : ℕ) → Apart xs ys → mem x xs ≡ true → mem x ys ≡ false
Apart-mem [] ys x a h = absurd (cc)
Apart-mem (z ∷ zs) ys x a h = elim (Bool-cases (x == z)) [
  | inl e ↦ subst (λ w. mem w ys ≡ false) (sym (==→eq x z e)) a.0
  | inr n ↦ Apart-mem zs ys x a.1 (rw n at h)
]

pub Apart-sym : (xs ys : List ℕ) → Apart xs ys → Apart ys xs
Apart-sym xs [] a = tt
Apart-sym xs (y ∷ ys) a = let (h, b) = Apart-cons xs y ys a in (h, Apart-sym xs ys b)

pub set_next-Agree :
    (a c : Option ℕ) (s : Store) (ps : List ℕ)
    → ((x : ℕ) → a ≡ some x → mem x ps ≡ false)
    → Agree s (set_next a c s) ps
set_next-Agree none c s ps h = Agree-refl s ps
set_next-Agree (some x) c s ps h =
    let o = s x in write-Agree x (record o { next = c }) s ps (h x refl)

pub set_prev-Agree :
    (a c : Option ℕ) (s : Store) (ps : List ℕ)
    → ((x : ℕ) → a ≡ some x → mem x ps ≡ false)
    → Agree s (set_prev a c s) ps
set_prev-Agree none c s ps h = Agree-refl s ps
set_prev-Agree (some x) c s ps h =
    let o = s x in write-Agree x (record o { prev = c }) s ps (h x refl)
