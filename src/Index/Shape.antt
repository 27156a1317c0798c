-- ===== src/Index/Shape.antt =====
-- The capacity, the mask and the shift of include/OrderIndex.hpp belong together.
use mini_hft.Base.{
  ℕ, zero, suc, ◌+◌, ◌-◌, ◌*◌, ◌/◌, ◌%◌, ◌^◌, ◌≤◌, ◌<◌, ◌≡◌, refl, sym, ap, ◌∙◌, subst, true, some,
  List, [], ◌∷◌, length, set, length-set, length-replicate, ltb, lt→ltb, ltb→lt, ltb→le, ◌==◌,
  Bool-cases, inl, inr, arith,
}
use native.Mathlib.Decide.{dec_lt}
use native.Mathlib.Nat.{mul_assoc}
use mini_hft.Base.Words.{u64}
use mini_hft.Base.Mask.{pow2, pow2_pos, pow2_le_63, bit_and-mask, pow2_le}
use native.Mathlib.Nat.{mod-lt, div-lt_iff_lt-mul}
use mini_hft.Index.{
  OrderIndex, Slot, empty_slot, home, next_slot, place_unique, place_all, shift_down, blank, rehash,
  grow, capacity_for, new, make_room, try_insert, shift_back, erase, empty_key, slot_at, stays,
  probe, first_empty, Probe, at_key, at_empty, lost, insert_at, clear_slot, erase_at,
}

pub record Shape {V : Type 0} (k : ℕ) (t : OrderIndex V) : Type 0 where
  pub low : 4 ≤ k
  pub high : k ≤ 63
  pub slots : length t.slots ≡ pow2 k
  pub mask : t.mask ≡ pow2 k - 1
  pub shift : t.shift ≡ 64 - k

shift_down_lem : (fuel k s : ℕ) → k ≤ fuel → shift_down fuel (pow2 k) s ≡ s - k
unfolding shift_down
shift_down_lem zero k s h = omega arith
shift_down_lem (suc fuel) zero s h = omega arith
shift_down_lem (suc fuel) (suc k) s h =
    let half : 2 * pow2 k / 2 ≡ pow2 k = omega arith in
    let more : ltb 1 (2 * pow2 k) ≡ true = lt→ltb 1 (2 * pow2 k) (omega (arith, pow2_pos k)) in
    rw (more, half) (omega (arith, shift_down_lem fuel k (s - 1) (omega arith)))

pub blank-Shape : {V : Type 0} (k : ℕ) → 4 ≤ k → k ≤ 63 → Shape k (blank {V = V} (pow2 k))
unfolding blank
blank-Shape k lo hi = record {
  low = lo;
  high = hi;
  slots = length-replicate (pow2 k) empty_slot;
  mask = omega (arith, pow2_pos k, pow2_le_63 k hi);
  shift = shift_down_lem 64 k 64 (omega arith);
}

-- A capacity that `capacityFor` may return for n entries.
pub record Capacity (n c : ℕ) : Type 0 where
  pub bits : ℕ
  pub low : 4 ≤ bits
  pub high : bits ≤ 63
  pub power : c ≡ pow2 bits
  pub enough : n * 2 ≤ c

top_case : (k n : ℕ) → n ≤ 2 ^ 62 → k ≡ 63 → pow2 k < u64 (n * 2) → ⊥
top_case k n small e h =
    let full : 2 ^ 63 < u64 (n * 2) = subst (λ j. pow2 j < u64 (n * 2)) e h in omega arith

not_top : (k n : ℕ) → n ≤ 2 ^ 62 → k ≤ 63 → pow2 k < u64 (n * 2) → k < 63
not_top k n small hi h = elim (dec_lt k 63) [
  | yes y ↦ y
  | no z ↦ absurd (top_case k n small (omega arith) h)
]

grow-Capacity :
    (fuel k n : ℕ) → n ≤ 2 ^ 62 → 4 ≤ k → k ≤ 63 → 63 ≤ k + fuel → Capacity n (grow fuel (pow2 k) n)
unfolding grow
grow-Capacity zero k n small lo hi h =
    let e : k ≡ 63 = omega arith in
    record {
      bits = k;
      low = lo;
      high = hi;
      power = refl;
      enough = subst (λ j. n * 2 ≤ pow2 j) (sym e) (omega arith);
    }
grow-Capacity (suc fuel) k n small lo hi h = elim (Bool-cases (ltb (pow2 k) (u64 (n * 2)))) [
  | inl more ↦
      let below : k < 63 = not_top k n small hi (ltb→lt (pow2 k) (u64 (n * 2)) more) in
      let double : u64 (pow2 k * 2) ≡ pow2 (suc k) = omega (arith, pow2_le k 62 (omega arith)) in
      rw (more, double)
        (grow-Capacity fuel (suc k) n small (omega arith) (omega arith) (omega arith))
  | inr done ↦ rw done (record {
    bits = k;
    low = lo;
    high = hi;
    power = refl;
    enough = omega (arith, ltb→le (pow2 k) (u64 (n * 2)) done);
  })
]

top_power : (k : ℕ) → k ≡ 63 → pow2 k ≤ 2 ^ 62 → ⊥
top_power k e h = let full : 2 ^ 63 ≤ 2 ^ 62 = subst (λ j. pow2 j ≤ 2 ^ 62) e h in omega arith

below_top : (k : ℕ) → pow2 k ≤ 2 ^ 62 → k ≤ 63 → k < 63
below_top k h hi = elim (dec_lt k 63) [ yes y ↦ y | no z ↦ absurd (top_power k (omega arith) h) ]

pow2_add : (a b : ℕ) → pow2 (a + b) ≡ pow2 a * pow2 b
pow2_add zero b = let e : 0 + b ≡ b = omega arith in rw e (omega arith)
pow2_add (suc a) b =
    let e : suc a + b ≡ suc (a + b) = omega arith in
    rw (e, pow2_add a b, mul_assoc 2 (pow2 a) (pow2 b)) refl

module _ {V : Type 0} where
  -- In a table of the right shape every probe starts inside the table, and goes on to a slot inside it.
  pub probes_inside :
      (k key i : ℕ) (t : OrderIndex V)
      → Shape k t
      → (home key t < length t.slots)
        × (next_slot i t.mask ≡ (i + 1) % length t.slots)
        × (next_slot i t.mask < length t.slots)
  unfolding home next_slot
  probes_inside k key i t v =
      let whole : k + (64 - k) ≡ 64 = omega (arith, v.high) in
      let split : pow2 k * pow2 (64 - k) ≡ 2 ^ 64 = sym (pow2_add k (64 - k)) ∙ ap pow2 whole in
      let hashed : ℕ = u64 (key * 0x9e37_79b9_7f4a_7c15) in
      let inside : hashed / pow2 (64 - k) < pow2 k =
        (div-lt_iff_lt-mul {k = pow2 (64 - k)} {x = hashed} {y = pow2 k} (pow2_pos (64 - k))).1
          (omega (arith, split)) in
      rw (v.slots, v.mask, v.shift, bit_and-mask k (i + 1))
        (inside, refl, mod-lt (i + 1) {m = pow2 k} (pow2_pos k))

  place_unique-Shape :
      (k : ℕ) (s : Slot V) (t : OrderIndex V) → Shape k t → Shape k (place_unique s t)
  unfolding place_unique
  place_unique-Shape k s t v = record {
    low = v.low;
    high = v.high;
    slots = length-set t.slots (first_empty (length t.slots) (home s.key t) t) s ∙ v.slots;
    mask = v.mask;
    shift = v.shift;
  }

  place_all-Shape :
      (k : ℕ) (ss : List (Slot V)) (t : OrderIndex V) → Shape k t → Shape k (place_all ss t)
  unfolding place_all
  place_all-Shape k [] t v = v
  place_all-Shape k (s ∷ ss) t v = elim (Bool-cases (s.key == empty_key)) [
    | inl y ↦ rw y (place_all-Shape k ss t v)
    | inr n ↦ rw n (place_all-Shape k ss (place_unique s t) (place_unique-Shape k s t v))
  ]

  -- A table of some shape.
  unfoldable pub Shaped : OrderIndex V → Type 0
  Shaped t = (k : ℕ) × Shape k t

  make_room-Shaped : (t : OrderIndex V) → length t.slots ≤ 2 ^ 62 → Shaped t → Shaped (make_room t)
  unfolding make_room rehash Shaped
  make_room-Shaped t small (k, v) =
      elim (Bool-cases (ltb (length t.slots) (u64 (u64 (t.size + 1) * 2)))) [
        | inl more ↦
            let below : k < 63 = below_top k (omega (arith, v.slots)) v.high in
            let double : u64 (length t.slots * 2) ≡ pow2 (suc k) = omega (arith, v.slots) in
            rw (more, double)
              (
                suc k,
                place_all-Shape (suc k) t.slots (blank (pow2 (suc k)))
                    (blank-Shape (suc k) (omega (arith, v.low)) below),
              )
        | inr enough ↦ rw enough (k, v)
      ]

  shift_back-Shape :
      (fuel hole j k : ℕ) (t : OrderIndex V) → Shape k t → Shape k (shift_back fuel hole j t).0
  unfolding shift_back
  shift_back-Shape zero hole j k t v = v
  shift_back-Shape (suc fuel) hole j k t v =
      elim (Bool-cases ((slot_at j t.slots).key == empty_key)) [
        | inl y ↦ rw y v
        | inr n ↦ rw n (elim (Bool-cases (stays hole (home (slot_at j t.slots).key t) j)) [
          | inl keep ↦ rw keep (shift_back-Shape fuel hole (next_slot j t.mask) k t v)
          | inr back ↦ rw back (
              shift_back-Shape fuel j (next_slot j t.mask) k
                (record t { slots = set t.slots hole (slot_at j t.slots) })
                (record {
                  low = v.low;
                  high = v.high;
                  slots = length-set t.slots hole (slot_at j t.slots) ∙ v.slots;
                  mask = v.mask;
                  shift = v.shift;
                }))
        ])
      ]

  insert_at-Shape :
      (key : ℕ) (value : V) (k : ℕ) (r : OrderIndex V) (o : Probe)
      → Shape k r
      → Shape k (insert_at key value r o).1
  unfolding insert_at
  insert_at-Shape key value k r (at_key i) v = v
  insert_at-Shape key value k r lost v = v
  insert_at-Shape key value k r (at_empty i) v = record {
    low = v.low;
    high = v.high;
    slots = length-set r.slots i (record { key = key; value = some value }) ∙ v.slots;
    mask = v.mask;
    shift = v.shift;
  }

  clear_slot-Shape : (hole k : ℕ) (u : OrderIndex V) → Shape k u → Shape k (clear_slot hole u)
  unfolding clear_slot
  clear_slot-Shape hole k u v = record {
    low = v.low;
    high = v.high;
    slots = length-set u.slots hole _ ∙ v.slots;
    mask = v.mask;
    shift = v.shift;
  }

  erase_at-Shape : (k : ℕ) (t : OrderIndex V) (o : Probe) → Shape k t → Shape k (erase_at t o).1
  unfolding erase_at
  erase_at-Shape k t (at_key i) v =
      let r = shift_back (length t.slots) i (next_slot i t.mask) t in
      clear_slot-Shape r.1 k r.0 (shift_back-Shape (length t.slots) i (next_slot i t.mask) k t v)
  erase_at-Shape k t (at_empty i) v = v
  erase_at-Shape k t lost v = v

  try_insert-Shaped :
      (key : ℕ) (value : V) (t : OrderIndex V)
      → length t.slots ≤ 2 ^ 62
      → Shaped t
      → Shaped (try_insert key value t).1
  unfolding try_insert Shaped
  try_insert-Shaped key value t small v = elim (Bool-cases (key == empty_key)) [
    | inl y ↦ rw y v
    | inr n ↦
        let (k, w) : (k : ℕ) × Shape k (make_room t) = make_room-Shaped t small v in
        let r : OrderIndex V = make_room t in
        rw n (k, insert_at-Shape key value k r (probe (length r.slots) key (home key r) r) w)
  ]

  erase-Shaped : (key : ℕ) (t : OrderIndex V) → Shaped t → Shaped (erase key t).1
  unfolding erase Shaped
  erase-Shaped key t (k, v) = elim (Bool-cases (key == empty_key)) [
    | inl y ↦ rw y (k, v)
    | inr n ↦ rw n (k, erase_at-Shape k t (probe (length t.slots) key (home key t) t) v)
  ]

  -- `tryInsert` and `erase` keep the capacity a power of two, from 16 to 2^63, with the mask and the
  -- shift that belong to it, in a table of at most 2^62 slots.
  pub calls-Shaped :
      (key : ℕ) (value : V) (t : OrderIndex V)
      → length t.slots ≤ 2 ^ 62
      → Shaped t
      → Shaped (try_insert key value t).1 × Shaped (erase key t).1
  calls-Shaped key value t small v = (try_insert-Shaped key value t small v, erase-Shaped key t v)

-- A new table for at most 2^62 entries has a capacity that is a power of two, at least twice the entries, with
-- the mask and the shift that belong to it.
pub new-Shaped :
    (V : Type 0) (n : ℕ)
    → n ≤ 2 ^ 62
    → Shaped (new {V = V} n) × (n * 2 ≤ length (new {V = V} n).slots)
unfolding new capacity_for Shaped
new-Shaped V n small =
    let c : Capacity n (grow 64 16 n) =
      grow-Capacity 64 4 n small (omega arith) (omega arith) (omega arith) in
    rw c.power (
      let b = blank-Shape c.bits c.low c.high in
      ((c.bits, b), omega (arith, b.slots, c.power, c.enough)))
