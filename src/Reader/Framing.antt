-- ===== src/Reader/Framing.antt =====
-- Bytes in the framing that include/ItchParser.hpp reads, cut at any place.
use mini_hft.Base.{
  ℕ, zero, suc, ◌+◌, ◌-◌, ◌≤◌, ◌<◌, ◌≡◌, refl, sym, ap, ◌∙◌, List, [], ◌∷◌, ◌++◌, length, drop,
  get_or, ltb, arith,
}
use mini_hft.Itch.Bytes.{be16}

get_or-drop : (n i : ℕ) (xs : List ℕ) → get_or (drop n xs) i 0 ≡ get_or xs (n + i) 0
get_or-drop zero i xs = let e : i ≡ 0 + i = omega arith in ap (λ k. get_or xs k 0) e
get_or-drop (suc n) i [] = refl
get_or-drop (suc n) i (x ∷ xs) =
    let e : suc (n + i) ≡ suc n + i = omega arith in
    get_or-drop n i xs ∙ ap (λ k. get_or (x ∷ xs) k 0) e

get_or-front : (xs ys : List ℕ) (i : ℕ) → i < length xs → get_or (xs ++ ys) i 0 ≡ get_or xs i 0
get_or-front [] ys i h = absurd (omega arith)
get_or-front (x ∷ xs) ys zero h = refl
get_or-front (x ∷ xs) ys (suc i) h = get_or-front xs ys i (omega arith)

-- Bytes that begin with `a` and are cut somewhere behind it.
pub record Cut (xs ys a b : List ℕ) : Type 0 where
  pub more : List ℕ
  pub here : xs ≡ a ++ more
  pub there : more ++ ys ≡ b

pub Cut-append : (xs ys a b : List ℕ) → xs ++ ys ≡ a ++ b → length a ≤ length xs → Cut xs ys a b
Cut-append xs ys [] b e h = record { more = xs; here = refl; there = e }
Cut-append [] ys (x ∷ a) b e h = absurd (omega arith)
Cut-append (x ∷ xs) ys (y ∷ a) b e h =
    let c = Cut-append xs ys a b (ap (drop 1) e) (omega arith) in
    record { more = c.more; here = (λ j. get_or (e j) 0 x ∷ c.here j); there = c.there }

-- What a length prefix reads as, wherever it stands in the buffer.
pub be16-stream :
    (b rest t : List ℕ) (s : ℕ) → 2 ≤ length (drop s b) → drop s b ++ rest ≡ t → be16 b s ≡ be16 t 0
unfolding be16
be16-stream b rest t s h e =
    let at : (i : ℕ) → i < 2 → get_or b (s + i) 0 ≡ get_or t i 0 = λ i l.
      sym (get_or-drop s i b)
      ∙ sym (get_or-front (drop s b) rest i (omega arith))
      ∙ ap (λ xs. get_or xs i 0) e in
    let self : s ≡ s + 0 = omega arith in
    let zeroth : get_or b s 0 ≡ get_or t 0 0 = ap (λ k. get_or b k 0) self ∙ at 0 (omega arith) in
    omega (arith, zeroth, at 1 (omega arith))

pub same_test : (a b n : ℕ) → n ≡ b - a → ltb a b ≡ ltb 0 n
same_test a b n h = ground arith

-- Input that ends inside a length prefix or a message, or is empty.
abbrev pub IsCut : List ℕ → Type 0
IsCut t = length t < 2 + be16 t 0
