-- ===== src/Pool/Safety.antt =====
-- The slots that a client of include/ObjectPool.hpp holds, under any sequence of calls.
use mini_hft.Base.{
  ℕ, suc, ◌+◌, ◌*◌, ◌≤◌, ◌≡◌, refl, Bool-cases, inl, inr, List, [], ◌∷◌, ◌==◌, ==→eq, ==_refl, true,
  false, if◌then◌else◌, arith,
}
use mini_hft.Pool.{ObjectPool, new, acquire, acquire_unused, add_block, release}

-- How often a slot stands in a list.
unfoldable pub copies : ℕ → List ℕ → ℕ
copies x [] = 0
copies x (y ∷ ys) = let rest = copies x ys in if y == x then suc rest else rest

-- A list without one of the places where a slot stands.
unfoldable pub without : ℕ → List ℕ → List ℕ
without x [] = []
without x (y ∷ ys) = let rest = without x ys in if y == x then ys else y ∷ rest

-- The calls of a client: it releases only slots that it holds.
pub data Reach (block_size : ℕ) : ObjectPool → List ℕ → Type 0 where
  fresh_pool : Reach block_size new []
  then_acquire :
      (p : ObjectPool) (held : List ℕ)
      → Reach block_size p held
      → Reach block_size (acquire block_size p).1 ((acquire block_size p).0 ∷ held)
  then_release :
      (p : ObjectPool) (held : List ℕ) (x : ℕ)
      → Reach block_size p held
      → 1 ≤ copies x held
      → Reach block_size (release x p) (without x held)

pub record Inv (block_size : ℕ) (p : ObjectPool) (held : List ℕ) : Type 0 where
  pub once : (x : ℕ) → copies x held + copies x p.free ≤ 1
  pub beyond : (x : ℕ) → p.newest * block_size + p.used ≤ x → copies x held + copies x p.free ≡ 0
  pub room : p.used ≤ block_size

copies-without :
    (x y : ℕ) (ys : List ℕ)
    → 1 ≤ copies x ys
    → copies y (without x ys) + copies y (x ∷ []) ≡ copies y ys
unfolding copies without
copies-without x y [] h = absurd (omega arith)
copies-without x y (z ∷ zs) h = elim (Bool-cases (z == x)) [
  | inl e ↦ rw e (ground arith)
  | inr n ↦
      let more : 1 ≤ copies x zs = ground arith in rw n (ground (arith, copies-without x y zs more))
]

-- A slot that no one holds or has released joins those that are held.
grown-Inv :
    (block_size slot : ℕ) (p r : ObjectPool) (held : List ℕ)
    → Inv block_size p held
    → r.free ≡ p.free
    → slot ≡ p.newest * block_size + p.used
    → r.newest * block_size + r.used ≡ suc slot
    → r.used ≤ block_size
    → Inv block_size r (slot ∷ held)
unfolding copies
grown-Inv block_size slot p r held v same next top fits = record {
  once = λ x. elim (Bool-cases (slot == x)) [
    | inl e ↦ rw (e, same) (omega (arith, v.beyond x (omega (arith, ==→eq slot x e))))
    | inr n ↦ rw (n, same) (v.once x)
  ];
  beyond = λ x h.
      let other : (slot == x) ≡ false = ground arith in rw (other, same) (v.beyond x (omega arith));
  room = fits;
}

acquire_unused-Inv :
    (block_size : ℕ) (p : ObjectPool) (held : List ℕ)
    → 1 ≤ block_size
    → Inv block_size p held
    → Inv block_size (acquire_unused block_size p).1 ((acquire_unused block_size p).0 ∷ held)
unfolding acquire_unused add_block
acquire_unused-Inv block_size p held pos v = elim (Bool-cases (p.used == block_size)) [
  | inl e ↦ rw e (
      grown-Inv block_size (suc p.newest * block_size + 0) p
        (record { newest = suc p.newest; used = 1; free = p.free }) held v refl
        (omega (arith, ==→eq p.used block_size e)) (omega arith) pos)
  | inr n ↦ rw n (
      grown-Inv block_size (p.newest * block_size + p.used) p
        (record { newest = p.newest; used = suc p.used; free = p.free }) held v refl refl
        (omega arith) (ground arith))
]

acquire-Inv :
    (block_size newest used : ℕ) (free held : List ℕ)
    → 1 ≤ block_size
    → Inv block_size (record { newest = newest; used = used; free = free }) held
    → Inv block_size
        (acquire block_size (record { newest = newest; used = used; free = free })).1
        ((acquire block_size (record { newest = newest; used = used; free = free })).0 ∷ held)
unfolding acquire copies
acquire-Inv block_size newest used [] held pos v =
    acquire_unused-Inv block_size (record { newest = newest; used = used; free = [] }) held pos v
acquire-Inv block_size newest used (slot ∷ rest) held pos v = record {
  once = λ x. ground (arith, v.once x);
  beyond = λ x h. ground (arith, v.beyond x h);
  room = v.room;
}

release-Inv :
    (block_size x : ℕ) (p : ObjectPool) (held : List ℕ)
    → 1 ≤ copies x held
    → Inv block_size p held
    → Inv block_size (release x p) (without x held)
unfolding release copies
release-Inv block_size x p held h v = record {
  once = λ y. ground (arith, v.once y, copies-without x y held h);
  beyond = λ y k. ground (arith, v.beyond y k, copies-without x y held h);
  room = v.room;
}

new-Inv : (block_size : ℕ) → Inv block_size new []
unfolding copies
new-Inv block_size = record { once = λ x. omega arith; beyond = λ x h. refl; room = omega arith }

Reach-Inv :
    (block_size : ℕ) (p : ObjectPool) (held : List ℕ)
    → 1 ≤ block_size
    → Reach block_size p held
    → Inv block_size p held
Reach-Inv block_size _ _ pos fresh_pool = new-Inv block_size
Reach-Inv block_size _ _ pos (then_acquire p held r) =
    acquire-Inv block_size p.newest p.used p.free held pos (Reach-Inv block_size p held pos r)
Reach-Inv block_size _ _ pos (then_release p held x r h) =
    release-Inv block_size x p held h (Reach-Inv block_size p held pos r)

-- Under any sequence of calls by a client that releases only slots that it holds, no slot is held twice, no slot
-- that is held is on the free list, and the slot that the next `acquire` returns is not held.
pub Reach-distinct :
    (block_size : ℕ) (p : ObjectPool) (held : List ℕ)
    → 1 ≤ block_size
    → Reach block_size p held
    → ((x : ℕ) → copies x held + copies x p.free ≤ 1) × (copies (acquire block_size p).0 held ≡ 0)
unfolding copies
Reach-distinct block_size p held pos r =
    let v : Inv block_size p held = Reach-Inv block_size p held pos r in
    let w : Inv block_size (acquire block_size p).1 ((acquire block_size p).0 ∷ held) =
      Reach-Inv block_size _ _ pos (then_acquire p held r) in
    let slot : ℕ = (acquire block_size p).0 in
    let same : (slot == slot) ≡ true = ==_refl slot in (v.once, ground (arith, w.once slot, same))
