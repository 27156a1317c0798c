-- ===== src/Index/Tests.antt =====
-- A small table of include/OrderIndex.hpp.
use mini_hft.Base.{ℕ, ◌+◌, ◌*◌, ◌%◌, ◌^◌, ◌≤◌, ◌<◌, ◌≡◌, refl, true, false, length, arith}
use mini_hft.Index.{OrderIndex, new, home, next_slot, try_insert, erase, stays}
use mini_hft.Index.Shape.{Shape, Shaped, new-Shaped, probes_inside, calls-Shaped, blank-Shape}
use mini_hft.Index.Erase.{erase_by_steps, erase-steps}
use mini_hft.Index.{blank}
use mini_hft.Base.Mask.{pow2}

new-Shaped_example : Shaped (new {V = ℕ} 100) × (100 * 2 ≤ length (new {V = ℕ} 100).slots)
new-Shaped_example = new-Shaped ℕ 100 (omega arith)

-- The smallest table, of 16 slots.
abbrev sixteen : OrderIndex ℕ
sixteen = blank (pow2 4)

sixteen-Shape : Shape 4 sixteen
sixteen-Shape = blank-Shape 4 (omega arith) (omega arith)

sixteen_small : length sixteen.slots ≤ 2 ^ 62
sixteen_small = omega (arith, sixteen-Shape.slots)

probes_inside_example :
    (home 7 sixteen < length sixteen.slots)
    × (next_slot 15 sixteen.mask ≡ (15 + 1) % length sixteen.slots)
    × (next_slot 15 sixteen.mask < length sixteen.slots)
probes_inside_example = probes_inside 4 7 15 sixteen sixteen-Shape

calls-Shaped_example : Shaped (try_insert 7 1 sixteen).1 × Shaped (erase 7 sixteen).1
unfolding Shaped
calls-Shaped_example = calls-Shaped 7 1 sixteen sixteen_small (4, sixteen-Shape)

-- The entry at slot 1 with home 15 moves back into the hole at slot 0; with home 1 it stays.
stays-run : (stays 0 15 1 ≡ false) × (stays 0 1 1 ≡ true)
unfolding stays
stays-run = (refl, refl)

erase-steps_example :
    erase 7 (try_insert 7 1 sixteen).1 ≡ erase_by_steps 7 (try_insert 7 1 sixteen).1
unfolding Shaped
erase-steps_example =
    let (k, v) = (calls-Shaped 7 1 sixteen sixteen_small (4, sixteen-Shape)).0 in
    erase-steps k 7 (try_insert 7 1 sixteen).1 v
