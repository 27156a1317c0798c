-- ===== src/Index.antt =====
-- The hash table of include/OrderIndex.hpp. The value of an unused slot is never read.
mod Tests
pub mod Shape
pub mod Stays
pub mod Erase
use mini_hft.Base.{
  ℕ, zero, suc, ◌+◌, ◌-◌, ◌*◌, ◌/◌, ◌%◌, ◌^◌, Bool, true, false, Option, none, some, List, [], ◌∷◌,
  length, set, get_or, replicate, ltb, leb, ◌==◌, ◌&&◌, ◌||◌, not, if◌then◌else◌,
}
use mini_hft.Base.Words.{u64, sub64}
use mini_hft.Base.Mask.{pow2}
use Prim.Native.Nat.{bit_and}

abbrev pub empty_key : ℕ
empty_key = 2 ^ 64 - 1

pub record Slot (V : Type 0) : Type 0 where
  pub key : ℕ
  pub value : Option V

pub record OrderIndex (V : Type 0) : Type 0 where
  pub slots : List (Slot V)
  pub mask : ℕ
  pub shift : ℕ
  pub size : ℕ

unfoldable pub next_slot : ℕ → ℕ → ℕ
next_slot i mask = bit_and (i + 1) mask

-- What a probe ends at: the slot of the key, or an unused one.
pub data Probe : Type 0 where
  at_key at_empty : ℕ → Probe
  lost : Probe

-- `for (size_t c = newCapacity; c > 1; c >>= 1) --shift_`, on fuel.
unfoldable pub shift_down : ℕ → ℕ → ℕ → ℕ
shift_down zero c shift = shift
shift_down (suc fuel) c shift =
    let rest = shift_down fuel (c / 2) (shift - 1) in if ltb 1 c then rest else shift

-- `capacityFor`, on fuel: the capacity doubles until it holds twice the entries.
unfoldable pub grow : ℕ → ℕ → ℕ → ℕ
grow zero c entries = c
grow (suc fuel) c entries =
    let rest = grow fuel (u64 (c * 2)) entries in if ltb c (u64 (entries * 2)) then rest else c

unfoldable pub capacity_for : ℕ → ℕ
capacity_for entries = grow 64 16 entries

-- Whether the entry at j, whose home is h, may stay when the slot `hole` is unused.
unfoldable pub stays : ℕ → ℕ → ℕ → Bool
stays hole h j = if ltb hole j then ltb hole h && leb h j else ltb hole h || leb h j

module _ {V : Type 0} where
  abbrev pub empty_slot : Slot V
  empty_slot = record { key = empty_key; value = none }

  abbrev pub slot_at : ℕ → List (Slot V) → Slot V
  slot_at i slots = get_or slots i empty_slot

  -- Fibonacci hashing: multiply, keep the top bits.
  unfoldable pub home : ℕ → OrderIndex V → ℕ
  home key t = u64 (key * 0x9e37_79b9_7f4a_7c15) / pow2 t.shift

  -- The probe loop of `find`, `tryInsert` and `erase`, on fuel.
  unfoldable pub probe : ℕ → ℕ → ℕ → OrderIndex V → Probe
  probe zero key i t = lost
  probe (suc fuel) key i t =
      let rest = probe fuel key (next_slot i t.mask) t in
      if (slot_at i t.slots).key == key
      then at_key i
      else if (slot_at i t.slots).key == empty_key
      then at_empty i
      else rest

  unfoldable pub find : ℕ → OrderIndex V → Option V
  find key t = if key == empty_key then none else elim (probe (length t.slots) key (home key t) t) [
    | at_key i ↦ (slot_at i t.slots).value
    | at_empty i ↦ none
    | lost ↦ none
  ]

  -- The loop of `placeUnique`, on fuel.
  unfoldable pub first_empty : ℕ → ℕ → OrderIndex V → ℕ
  first_empty zero i t = i
  first_empty (suc fuel) i t =
      let rest = first_empty fuel (next_slot i t.mask) t in
      if (slot_at i t.slots).key == empty_key then i else rest

  unfoldable pub place_unique : Slot V → OrderIndex V → OrderIndex V
  place_unique s t =
      let i = first_empty (length t.slots) (home s.key t) t in
      record t { slots = set t.slots i s; size = u64 (t.size + 1) }

  unfoldable pub place_all : List (Slot V) → OrderIndex V → OrderIndex V
  place_all [] t = t
  place_all (s ∷ ss) t =
      if s.key == empty_key then place_all ss t else place_all ss (place_unique s t)

  -- An empty table of a capacity, as `rehash` sets it up.
  unfoldable pub blank : ℕ → OrderIndex V
  blank capacity = record {
    slots = replicate capacity empty_slot;
    mask = sub64 capacity 1;
    shift = shift_down 64 capacity 64;
    size = 0;
  }

  unfoldable pub rehash : ℕ → OrderIndex V → OrderIndex V
  rehash capacity t = place_all t.slots (blank capacity)

  unfoldable pub new : ℕ → OrderIndex V
  new entries = blank (capacity_for entries)

  -- The table after the load factor was kept at one half.
  unfoldable pub make_room : OrderIndex V → OrderIndex V
  make_room t =
      let n = length t.slots in
      if ltb n (u64 (u64 (t.size + 1) * 2)) then rehash (u64 (n * 2)) t else t

  -- `tryInsert` where its probe ends.
  unfoldable pub insert_at : ℕ → V → OrderIndex V → Probe → Bool × OrderIndex V
  insert_at key value r (at_key i) = (false, r)
  insert_at key value r (at_empty i) = (
    true,
    record r {
      slots = set r.slots i (record { key = key; value = some value });
      size = u64 (r.size + 1);
    },
  )
  insert_at key value r lost = (false, r)

  unfoldable pub try_insert : ℕ → V → OrderIndex V → Bool × OrderIndex V
  try_insert key value t =
      let r = make_room t in
      if key == empty_key
      then (false, t)
      else insert_at key value r (probe (length r.slots) key (home key r) r)

  -- The backward shift of `erase`, on fuel: from slot j on. The result has the last hole.
  unfoldable pub shift_back : ℕ → ℕ → ℕ → OrderIndex V → OrderIndex V × ℕ
  shift_back zero hole j t = (t, hole)
  shift_back (suc fuel) hole j t =
      let s = slot_at j t.slots in
      let keep = stays hole (home s.key t) j in
      let rest =
        shift_back fuel (if keep then hole else j) (next_slot j t.mask)
          (if keep then t else record t { slots = set t.slots hole s }) in
      if s.key == empty_key then (t, hole) else rest

  -- The slot that is a hole in the end becomes unused.
  unfoldable pub clear_slot : ℕ → OrderIndex V → OrderIndex V
  clear_slot hole u =
      let last = slot_at hole u.slots in
      record u { slots = set u.slots hole (record last { key = empty_key }); size = sub64 u.size 1 }

  -- `erase` where its probe ends.
  unfoldable pub erase_at : OrderIndex V → Probe → Bool × OrderIndex V
  erase_at t (at_key i) =
      let (u, hole) = shift_back (length t.slots) i (next_slot i t.mask) t in
      (true, clear_slot hole u)
  erase_at t (at_empty i) = (false, t)
  erase_at t lost = (false, t)

  unfoldable pub erase : ℕ → OrderIndex V → Bool × OrderIndex V
  erase key t =
      if key == empty_key
      then (false, t)
      else erase_at t (probe (length t.slots) key (home key t) t)
