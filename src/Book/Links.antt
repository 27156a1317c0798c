-- ===== src/Book/Links.antt =====
-- Chains of orders in include/L3OrderBook.hpp: what the pointer writes of `add` and `remove` do to them.
use mini_hft.Base.{
  ℕ, ◌≡◌, refl, sym, subst, ap, ◌∙◌, Bool, true, false, Option, none, some, List, [], ◌∷◌, ◌++◌,
  ◌==◌, ◌||◌, ==_refl, arith,
}
use mini_hft.Book.{BookOrder, Store, write_order}

abbrev pub mem : ℕ → List ℕ → Bool
mem q [] = false
mem q (p ∷ ps) = q == p || mem q ps

abbrev pub Distinct : List ℕ → Type 0
Distinct [] = Unit
Distinct (p ∷ ps) = (mem p ps ≡ false) × Distinct ps

abbrev pub first_or : List ℕ → Option ℕ → Option ℕ
first_or [] b = b
first_or (p ∷ ps) b = some p

abbrev pub last_or : Option ℕ → List ℕ → Option ℕ
last_or a [] = a
last_or a (p ∷ ps) = last_or (some p) ps

-- The orders of a list point to one another in both directions, from what stands before to what stands behind.
abbrev pub Linked : Store → Option ℕ → List ℕ → Option ℕ → Type 0
Linked s a [] b = Unit
Linked s a (p ∷ ps) b = ((s p).prev ≡ a) × ((s p).next ≡ first_or ps b) × Linked s (some p) ps b

-- Two stores with the same links at the orders of a list.
abbrev pub Agree : Store → Store → List ℕ → Type 0
Agree s s' [] = Unit
Agree s s' (p ∷ ps) = ((s' p).prev ≡ (s p).prev) × ((s' p).next ≡ (s p).next) × Agree s s' ps

pub Agree-refl : (s : Store) (ps : List ℕ) → Agree s s ps
Agree-refl s [] = tt
Agree-refl s (p ∷ ps) = (refl, refl, Agree-refl s ps)

pub Linked-Agree :
    (s s' : Store) (a : Option ℕ) (ps : List ℕ) (b : Option ℕ)
    → Agree s s' ps
    → Linked s a ps b
    → Linked s' a ps b
Linked-Agree s s' a [] b e v = tt
Linked-Agree s s' a (p ∷ ps) b e v = (e.0 ∙ v.0, e.1 ∙ v.1, Linked-Agree s s' (some p) ps b e.2 v.2)

first_or-append :
    (xs ys : List ℕ) (b : Option ℕ) → first_or (xs ++ ys) b ≡ first_or xs (first_or ys b)
first_or-append [] ys b = refl
first_or-append (x ∷ xs) ys b = refl

pub Linked-split :
    (s : Store) (a : Option ℕ) (xs ys : List ℕ) (b : Option ℕ)
    → Linked s a (xs ++ ys) b
    → Linked s a xs (first_or ys b) × Linked s (last_or a xs) ys b
Linked-split s a [] ys b v = (tt, v)
Linked-split s a (x ∷ xs) ys b v =
    let r = Linked-split s (some x) xs ys b v.2 in ((v.0, v.1 ∙ first_or-append xs ys b, r.0), r.1)

pub Linked-join :
    (s : Store) (a : Option ℕ) (xs ys : List ℕ) (b : Option ℕ)
    → Linked s a xs (first_or ys b)
    → Linked s (last_or a xs) ys b
    → Linked s a (xs ++ ys) b
Linked-join s a [] ys b v w = w
Linked-join s a (x ∷ xs) ys b v w =
    (v.0, v.1 ∙ sym (first_or-append xs ys b), Linked-join s (some x) xs ys b v.2 w)

pub write-same : (p : ℕ) (o : BookOrder) (s : Store) → write_order p o s p ≡ o
unfolding write_order
write-same p o s = rw (==_refl p) refl

pub write-other :
    (p q : ℕ) (o : BookOrder) (s : Store) → (p == q) ≡ false → write_order p o s q ≡ s q
unfolding write_order
write-other p q o s h = rw h refl

pub or_false : (a b : Bool) → (a || b) ≡ false → (a ≡ false) × (b ≡ false)
or_false false b h = (refl, h)
or_false true b h = absurd (cc)

pub write-Agree :
    (p : ℕ) (o : BookOrder) (s : Store) (ps : List ℕ)
    → mem p ps ≡ false
    → Agree s (write_order p o s) ps
write-Agree p o s [] h = tt
write-Agree p o s (q ∷ qs) h =
    let (ne, rest) = or_false (p == q) (mem p qs) h in
    let e = write-other p q o s ne in
    (ap (λ x. x.prev) e, ap (λ x. x.next) e, write-Agree p o s qs rest)

-- The last of a list that is not empty.
abbrev pub last : ℕ → List ℕ → ℕ
last x [] = x
last x (y ∷ ys) = last y ys

pub last_or-last : (x : ℕ) (xs : List ℕ) → last_or (some x) xs ≡ some (last x xs)
last_or-last x [] = refl
last_or-last x (y ∷ ys) = last_or-last y ys

not_last : (x y : ℕ) (ys : List ℕ) → mem x (y ∷ ys) ≡ false → (x == last y ys) ≡ false
not_last x y [] h = (or_false (x == y) false h).0
not_last x y (z ∷ zs) h = not_last x z zs (or_false (x == y) (mem x (z ∷ zs)) h).1

flip : (x y : ℕ) → (x == y) ≡ false → (y == x) ≡ false
flip x y h = ground arith

-- The order that a pointer points to, if to any, gets another successor or another predecessor.
abbrev pub set_next : Option ℕ → Option ℕ → Store → Store
set_next a c s = elim a [
  | none ↦ s
  | some q ↦ let o = s q in write_order q (record o { next = c }) s
]

abbrev pub set_prev : Option ℕ → Option ℕ → Store → Store
set_prev a c s = elim a [
  | none ↦ s
  | some q ↦ let o = s q in write_order q (record o { prev = c }) s
]

end_Linked :
    (s : Store) (a : Option ℕ) (x : ℕ) (xs : List ℕ) (b c : Option ℕ)
    → Linked s a (x ∷ xs) b
    → Distinct (x ∷ xs)
    → let o = s (last x xs) in
      Linked (write_order (last x xs) (record o { next = c }) s) a (x ∷ xs) c
end_Linked s a x [] b c v d =
    let o = s x in
    let e = write-same x (record o { next = c }) s in
    (ap (λ y. y.prev) e ∙ v.0, ap (λ y. y.next) e, tt)
end_Linked s a x (y ∷ ys) b c v d =
    let o = s (last y ys) in
    let e =
      write-other (last y ys) x (record o { next = c }) s
        (flip x (last y ys) (not_last x y ys d.0)) in
    (ap (λ z. z.prev) e ∙ v.0, ap (λ z. z.next) e ∙ v.1, end_Linked s (some x) y ys b c v.2 d.1)

-- The end of a chain linked to something else.
pub set_next-Linked :
    (s : Store) (xs : List ℕ) (b c : Option ℕ)
    → Linked s none xs b
    → Distinct xs
    → Linked (set_next (last_or none xs) c s) none xs c
set_next-Linked s [] b c v d = tt
set_next-Linked s (x ∷ xs) b c v d =
    subst (λ t. Linked (set_next t c s) none (x ∷ xs) c) (sym (last_or-last x xs))
      (end_Linked s none x xs b c v d)

-- The front of a chain linked to something else.
pub set_prev-Linked :
    (s : Store) (ys : List ℕ) (a c b : Option ℕ)
    → Linked s a ys b
    → Distinct ys
    → Linked (set_prev (first_or ys none) c s) c ys b
set_prev-Linked s [] a c b v d = tt
set_prev-Linked s (y ∷ ys) a c b v d =
    let o = s y in
    let e = write-same y (record o { prev = c }) s in
    (
      ap (λ z. z.prev) e,
      ap (λ z. z.next) e ∙ v.1,
      Linked-Agree s (write_order y (record o { prev = c }) s) (some y) ys b
          (write-Agree y (record o { prev = c }) s ys d.0) v.2,
    )
