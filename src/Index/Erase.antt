-- ===== src/Index/Erase.antt =====
-- The backward shift of `erase` in include/OrderIndex.hpp against one that counts the steps of probes.
use mini_hft.Base.{
  ℕ, zero, suc, ◌+◌, ◌%◌, ◌<◌, ◌≡◌, refl, sym, ap, ◌∙◌, Bool, true, false, length, set, length-set,
  ltb, ◌==◌, not, if◌then◌else◌, Bool-cases, inl, inr, arith,
}
use mini_hft.Index.{
  OrderIndex, Slot, Probe, at_key, at_empty, lost, home, next_slot, probe, shift_back, clear_slot,
  erase, erase_at, empty_key, slot_at,
}
use mini_hft.Index.Shape.{Shape, probes_inside}
use mini_hft.Index.Stays.{steps_to, stays-steps_to}

-- The slot of a probe that has found its key.
abbrev InTable : ℕ → Probe → Type 0
InTable n (at_key i) = i < n
InTable n (at_empty i) = Unit
InTable n lost = Unit

module _ {V : Type 0} where
  -- From slot j on to the next unused slot: an entry moves into the hole when the probe for it, which
  -- starts at its home, meets the hole first; its slot is then the hole.
  unfoldable pub shift_by_steps : ℕ → ℕ → ℕ → OrderIndex V → OrderIndex V × ℕ
  shift_by_steps zero hole j t = (t, hole)
  shift_by_steps (suc fuel) hole j t =
      let s = slot_at j t.slots in
      let n = length t.slots in
      let meets = ltb (steps_to n (home s.key t) hole) (steps_to n (home s.key t) j) in
      let moved = shift_by_steps fuel j ((j + 1) % n) (record t { slots = set t.slots hole s }) in
      let kept = shift_by_steps fuel hole ((j + 1) % n) t in
      if s.key == empty_key then (t, hole) else (if meets then moved else kept)

  shift_back-steps :
      (fuel hole j k : ℕ) (t : OrderIndex V)
      → Shape k t
      → hole < length t.slots
      → j < length t.slots
      → shift_back fuel hole j t ≡ shift_by_steps fuel hole j t
  unfolding shift_back shift_by_steps
  shift_back-steps zero hole j k t v a b = refl
  shift_back-steps (suc fuel) hole j k t v a b =
      elim (Bool-cases ((slot_at j t.slots).key == empty_key)) [
        | inl y ↦ rw y refl
        | inr n ↦
            let s : Slot V = slot_at j t.slots in
            let (in_table, step, on) = probes_inside k s.key j t v in
            let test = stays-steps_to (length t.slots) hole (home s.key t) j a in_table b in
            elim (Bool-cases (
              ltb (steps_to (length t.slots) (home s.key t) hole)
                (steps_to (length t.slots) (home s.key t) j))) [
                  | inl m ↦
                      let t' : OrderIndex V = record t { slots = set t.slots hole s } in
                      let same : length t'.slots ≡ length t.slots = length-set t.slots hole s in
                      let v' : Shape k t' = record {
                        low = v.low;
                        high = v.high;
                        slots = same ∙ v.slots;
                        mask = v.mask;
                        shift = v.shift;
                      } in
                      rw (n, test ∙ ap not m, m, sym step)
                        (shift_back-steps fuel j (next_slot j t.mask) k t' v' (omega (arith, same))
                          (omega (arith, same, on)))
                  | inr m ↦
                      rw (n, test ∙ ap not m, m, sym step)
                        (shift_back-steps fuel hole (next_slot j t.mask) k t v a on)
                ]
      ]

  probe-InTable :
      (fuel key i k : ℕ) (t : OrderIndex V)
      → Shape k t
      → i < length t.slots
      → InTable (length t.slots) (probe fuel key i t)
  unfolding probe
  probe-InTable zero key i k t v a = tt
  probe-InTable (suc fuel) key i k t v a = elim (Bool-cases ((slot_at i t.slots).key == key)) [
    | inl y ↦ rw y a
    | inr n ↦ rw n (elim (Bool-cases ((slot_at i t.slots).key == empty_key)) [
      | inl y ↦ rw y tt
      | inr m ↦
          rw m (probe-InTable fuel key (next_slot i t.mask) k t v (probes_inside k key i t v).2)
    ])
  ]

  unfoldable pub erase_at_by_steps : OrderIndex V → Probe → Bool × OrderIndex V
  erase_at_by_steps t (at_key i) =
      let r = shift_by_steps (length t.slots) i ((i + 1) % length t.slots) t in
      (true, clear_slot r.1 r.0)
  erase_at_by_steps t (at_empty i) = (false, t)
  erase_at_by_steps t lost = (false, t)

  -- `erase` with the shift that counts steps.
  unfoldable pub erase_by_steps : ℕ → OrderIndex V → Bool × OrderIndex V
  erase_by_steps key t =
      if key == empty_key
      then (false, t)
      else erase_at_by_steps t (probe (length t.slots) key (home key t) t)

  erase_at-steps :
      (k : ℕ) (t : OrderIndex V) (o : Probe)
      → Shape k t
      → InTable (length t.slots) o
      → erase_at t o ≡ erase_at_by_steps t o
  unfolding erase_at erase_at_by_steps
  erase_at-steps k t (at_key i) v a =
      let (_, step, on) = probes_inside k 0 i t v in
      rw (sym step) (
        ap (λ r. (true, clear_slot r.1 r.0))
          (shift_back-steps (length t.slots) i (next_slot i t.mask) k t v a on))
  erase_at-steps k t (at_empty i) v a = refl
  erase_at-steps k t lost v a = refl

  -- In a table of the right shape, `erase` moves back exactly those entries, up to the next unused
  -- slot, for which a probe from the entry's home meets the hole before the entry.
  pub erase-steps : (k key : ℕ) (t : OrderIndex V) → Shape k t → erase key t ≡ erase_by_steps key t
  unfolding erase erase_by_steps
  erase-steps k key t v = elim (Bool-cases (key == empty_key)) [
    | inl y ↦ rw y refl
    | inr n ↦ rw n (
        erase_at-steps k t (probe (length t.slots) key (home key t) t) v
          (probe-InTable (length t.slots) key (home key t) k t v (probes_inside k key 0 t v).0))
  ]
