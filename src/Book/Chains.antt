-- ===== src/Book/Chains.antt =====
-- Orders put behind a chain and taken out of one, in include/L3OrderBook.hpp.
use mini_hft.Base.{
  ℕ, ◌≡◌, refl, ap, ◌∙◌, false, Option, none, some, List, [], ◌∷◌, ◌++◌, ◌==◌, ==_refl, Bool-cases,
  inl, inr,
}
use mini_hft.Book.{BookOrder, Store, write_order}
use mini_hft.Book.Links.{
  mem, Distinct, first_or, last_or, Linked, Linked-Agree, Linked-split, Linked-join, write-same,
  write-Agree, set_next, set_prev, set_next-Linked, set_prev-Linked,
}
use mini_hft.Book.Queue.{
  Relinked, Distinct-split, Apart-cons, Apart-one, Relinked-trans, write-Relinked,
  set_next-Relinked, set_prev-Relinked, last_or-mem, first_or-mem, mem-left, mem-right, Apart-mem,
  Apart-sym, set_next-Agree, set_prev-Agree,
}

-- An order linked behind a chain.
unfoldable pub linked_behind : ℕ → List ℕ → Store → Store
linked_behind p ps s =
    let o = s p in
    set_next (last_or none ps) (some p)
      (write_order p (record o { prev = last_or none ps; next = none }) s)

pub linked_behind-Linked :
    (p : ℕ) (ps : List ℕ) (s : Store)
    → mem p ps ≡ false
    → Distinct ps
    → Linked s none ps none
    → Linked (linked_behind p ps s) none (ps ++ p ∷ []) none
unfolding linked_behind
linked_behind-Linked p ps s h d v =
    let o = s p in
    let at_p : BookOrder = record o { prev = last_or none ps; next = none } in
    let first : Store = write_order p at_p s in
    let e = write-same p at_p s in
    let apart = Apart-one ps p h in
    let same =
      set_next-Agree (last_or none ps) (some p) first (p ∷ [])
        (λ x l. Apart-mem ps (p ∷ []) x apart (last_or-mem ps x l)) in
    Linked-join (set_next (last_or none ps) (some p) first) none ps (p ∷ []) none
      (set_next-Linked first ps none (some p)
        (Linked-Agree s first none ps none (write-Agree p at_p s ps h) v) d)
      (same.0 ∙ ap (λ z. z.prev) e, same.1 ∙ ap (λ z. z.next) e, tt)

pub linked_behind-Relinked :
    (p : ℕ) (ps : List ℕ) (s : Store) → Relinked (ps ++ p ∷ []) s (linked_behind p ps s)
unfolding linked_behind
linked_behind-Relinked p ps s =
    let o = s p in
    let at_p : BookOrder = record o { prev = last_or none ps; next = none } in
    let first : Store = write_order p at_p s in
    Relinked-trans (ps ++ p ∷ []) s first (set_next (last_or none ps) (some p) first)
      (write-Relinked p at_p s (ps ++ p ∷ []) (mem-right p ps (p ∷ []) (rw (==_refl p) refl))
        (record { ref = refl; price = refl; shares = refl; locate = refl; side = refl }))
      (set_next-Relinked (last_or none ps) (some p) first (ps ++ p ∷ [])
        (λ x l. mem-left x ps (p ∷ []) (last_or-mem ps x l)))

-- An order taken out between two chains.
unfoldable pub taken_out : Option ℕ → Option ℕ → ℕ → Store → Store
taken_out a n p s =
    let right : Store = set_prev n a (set_next a n s) in
    let gone = right p in write_order p (record gone { prev = none; next = none }) right

pub taken_out-Linked :
    (p : ℕ) (xs ys : List ℕ) (s : Store)
    → Distinct (xs ++ p ∷ ys)
    → Linked s none (xs ++ p ∷ ys) none
    → Linked (taken_out (last_or none xs) (first_or ys none) p s) none (xs ++ ys) none
unfolding taken_out
taken_out-Linked p xs ys s d v =
    let (dx, dy, apart) = Distinct-split xs (p ∷ ys) d in
    let (fresh, beside) = Apart-cons xs p ys apart in
    let (vx, vy) = Linked-split s none xs (p ∷ ys) none v in
    let a : Option ℕ = last_or none xs in
    let n : Option ℕ = first_or ys none in
    let s1 : Store = set_next a n s in
    let s2 : Store = set_prev n a s1 in
    let gone = s2 p in
    let o : BookOrder = record gone { prev = none; next = none } in
    let x1 = set_next-Linked s xs (some p) n vx dx in
    let y1 =
      Linked-Agree s s1 (some p) ys none
        (set_next-Agree a n s ys λ x l. Apart-mem xs ys x beside (last_or-mem xs x l)) vy.2 in
    let y2 = set_prev-Linked s1 ys (some p) a none y1 dy.1 in
    let x2 =
      Linked-Agree s1 s2 none xs n
        (set_prev-Agree n a s1 xs
          λ x l. Apart-mem ys xs x (Apart-sym xs ys beside) (first_or-mem ys x l))
        x1 in
    Linked-join (write_order p o s2) none xs ys none
      (Linked-Agree s2 (write_order p o s2) none xs n (write-Agree p o s2 xs fresh) x2)
      (Linked-Agree s2 (write_order p o s2) a ys none (write-Agree p o s2 ys dy.0) y2)

pub taken_out-Relinked :
    (p : ℕ) (xs ys : List ℕ) (s : Store)
    → Relinked (xs ++ p ∷ ys) s (taken_out (last_or none xs) (first_or ys none) p s)
unfolding taken_out
taken_out-Relinked p xs ys s =
    let ps : List ℕ = xs ++ p ∷ ys in
    let a : Option ℕ = last_or none xs in
    let n : Option ℕ = first_or ys none in
    let s1 : Store = set_next a n s in
    let s2 : Store = set_prev n a s1 in
    let gone = s2 p in
    let o : BookOrder = record gone { prev = none; next = none } in
    Relinked-trans ps s s2 (write_order p o s2)
      (Relinked-trans ps s s1 s2
        (set_next-Relinked a n s ps λ x l. mem-left x xs (p ∷ ys) (last_or-mem xs x l))
        (set_prev-Relinked n a s1 ps λ x l.
          mem-right x xs (p ∷ ys) (elim (Bool-cases (x == p)) [
            | inl e ↦ rw e refl
            | inr d ↦ rw d (first_or-mem ys x l)
          ])))
      (write-Relinked p o s2 ps (mem-right p xs (p ∷ ys) (rw (==_refl p) refl))
        (record { ref = refl; price = refl; shares = refl; locate = refl; side = refl }))
