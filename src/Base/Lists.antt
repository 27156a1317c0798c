-- ===== src/Base/Lists.antt =====
-- Lists measured and indexed by native numbers, under the library's names.
use Prim.Native.Nat.{ℕ, zero, suc, ◌+◌, ◌-◌, ◌<◌, min}
use mathlib.Core.Path.{◌≡◌, refl, ap}
use mathlib.Core.Logic.{◌≢◌}
use mathlib.Core.List.{List, [], ◌∷◌, ◌++◌}
use mathlib.Core.Option.{Option, none, some}
use native.Mathlib.Omega.{arith}

module _ {ℓ} {A : Type ℓ} where
  abbrev pub length : List A → ℕ
  length [] = 0
  length (x ∷ xs) = suc (length xs)

  abbrev pub get_elem? : List A → ℕ → Option A
  get_elem? [] i = none
  get_elem? (x ∷ xs) zero = some x
  get_elem? (x ∷ xs) (suc i) = get_elem? xs i

  abbrev pub get_or : List A → ℕ → A → A
  get_or [] i d = d
  get_or (x ∷ xs) zero d = x
  get_or (x ∷ xs) (suc i) d = get_or xs i d

  -- A write out of bounds changes nothing.
  abbrev pub set : List A → ℕ → A → List A
  set [] i v = []
  set (x ∷ xs) zero v = v ∷ xs
  set (x ∷ xs) (suc i) v = x ∷ set xs i v

  abbrev pub take : ℕ → List A → List A
  take zero xs = []
  take (suc n) [] = []
  take (suc n) (x ∷ xs) = x ∷ take n xs

  abbrev pub drop : ℕ → List A → List A
  drop zero xs = xs
  drop (suc n) [] = []
  drop (suc n) (x ∷ xs) = drop n xs

  abbrev pub replicate : ℕ → A → List A
  replicate zero a = []
  replicate (suc n) a = a ∷ replicate n a

  abbrev pub All {κ} : (A → Type κ) → List A → Type κ
  All P [] = Unit
  All P (x ∷ xs) = P x × All P xs

module _ {ℓ} {A : Type ℓ} where
  pub length-append : (xs ys : List A) → length (xs ++ ys) ≡ length xs + length ys
  length-append [] ys = omega arith
  length-append (x ∷ xs) ys = omega (arith, length-append xs ys)

  pub length-set : (xs : List A) (i : ℕ) (v : A) → length (set xs i v) ≡ length xs
  length-set [] i v = refl
  length-set (x ∷ xs) zero v = refl
  length-set (x ∷ xs) (suc i) v = ap suc (length-set xs i v)

  pub length-take : (n : ℕ) (xs : List A) → length (take n xs) ≡ min n (length xs)
  length-take zero xs = omega arith
  length-take (suc n) [] = omega arith
  length-take (suc n) (x ∷ xs) = omega (arith, length-take n xs)

  pub length-drop : (n : ℕ) (xs : List A) → length (drop n xs) ≡ length xs - n
  length-drop zero xs = omega arith
  length-drop (suc n) [] = omega arith
  length-drop (suc n) (x ∷ xs) = omega (arith, length-drop n xs)

  pub length-replicate : (n : ℕ) (a : A) → length (replicate n a) ≡ n
  length-replicate zero a = refl
  length-replicate (suc n) a = ap suc (length-replicate n a)

  pub get_or-set_self :
      (xs : List A) (i : ℕ) (v d : A) → i < length xs → get_or (set xs i v) i d ≡ v
  get_or-set_self [] i v d h = absurd (omega arith)
  get_or-set_self (x ∷ xs) zero v d h = refl
  get_or-set_self (x ∷ xs) (suc i) v d h = get_or-set_self xs i v d (omega arith)

  pub get_or-set_ne :
      (xs : List A) (i j : ℕ) (v d : A) → i ≢ j → get_or (set xs i v) j d ≡ get_or xs j d
  get_or-set_ne [] i j v d h = refl
  get_or-set_ne (x ∷ xs) zero zero v d h = absurd (h refl)
  get_or-set_ne (x ∷ xs) zero (suc j) v d h = refl
  get_or-set_ne (x ∷ xs) (suc i) zero v d h = refl
  get_or-set_ne (x ∷ xs) (suc i) (suc j) v d h = get_or-set_ne xs i j v d (λ e. h (ap suc e))

  pub take-length-append : (xs ys : List A) → take (length xs) (xs ++ ys) ≡ xs
  take-length-append [] ys = refl
  take-length-append (x ∷ xs) ys = ap (◌∷◌ x) (take-length-append xs ys)

  pub drop-length-append : (xs ys : List A) → drop (length xs) (xs ++ ys) ≡ ys
  drop-length-append [] ys = refl
  drop-length-append (x ∷ xs) ys = drop-length-append xs ys

  pub All-append {κ} : (P : A → Type κ) (xs ys : List A) → All P xs → All P ys → All P (xs ++ ys)
  All-append P [] ys hx hy = hy
  All-append P (x ∷ xs) ys hx hy = (hx.0, All-append P xs ys hx.1 hy)

module _ {ℓ} {A : Type ℓ} where
  pub get_or-append :
      (pre xs : List A) (i : ℕ) (d : A) → get_or (pre ++ xs) (length pre + i) d ≡ get_or xs i d
  get_or-append [] xs i d = let e : 0 + i ≡ i = omega arith in rw e refl
  get_or-append (x ∷ pre) xs i d =
      let e : suc (length pre) + i ≡ suc (length pre + i) = omega arith in
      rw e (get_or-append pre xs i d)

  pub drop-append : (pre xs : List A) (i : ℕ) → drop (length pre + i) (pre ++ xs) ≡ drop i xs
  drop-append [] xs i = let e : 0 + i ≡ i = omega arith in rw e refl
  drop-append (x ∷ pre) xs i =
      let e : suc (length pre) + i ≡ suc (length pre + i) = omega arith in
      rw e (drop-append pre xs i)

  pub drop-cons :
      (l : List A) (i : ℕ) (d : A) → i < length l → drop i l ≡ get_or l i d ∷ drop (suc i) l
  drop-cons [] i d h = absurd (omega arith)
  drop-cons (x ∷ l) zero d h = refl
  drop-cons (x ∷ l) (suc i) d h = drop-cons l i d (omega arith)

  pub drop-drop : (n m : ℕ) (l : List A) → drop m (drop n l) ≡ drop (n + m) l
  drop-drop zero m l = let e : 0 + m ≡ m = omega arith in rw e refl
  drop-drop (suc n) zero [] = let e : suc n + 0 ≡ suc n = omega arith in rw e refl
  drop-drop (suc n) (suc m) [] = let e : suc n + suc m ≡ suc (n + suc m) = omega arith in rw e refl
  drop-drop (suc n) m (x ∷ l) =
      let e : suc n + m ≡ suc (n + m) = omega arith in rw e (drop-drop n m l)

  pub drop-length : (i : ℕ) (l : List A) → i ≡ length l → drop i l ≡ []
  drop-length zero [] h = refl
  drop-length (suc i) [] h = refl
  drop-length zero (x ∷ l) h = absurd (omega arith)
  drop-length (suc i) (x ∷ l) h = drop-length i l (omega arith)

  pub take-append-drop : (n : ℕ) (l : List A) → take n l ++ drop n l ≡ l
  take-append-drop zero l = refl
  take-append-drop (suc n) [] = refl
  take-append-drop (suc n) (x ∷ l) = ap (◌∷◌ x) (take-append-drop n l)
