-- ===== src/Pool/Tests.antt =====
-- A pool of include/ObjectPool.hpp with blocks of two slots.
use mini_hft.Base.{ℕ, ◌+◌, ◌≤◌, ◌≡◌, refl, List, [], ◌∷◌, arith}
use mini_hft.Pool.{ObjectPool, new, acquire, acquire_unused, add_block, release}
use mini_hft.Pool.Safety.{
  Reach, fresh_pool, then_acquire, then_release, copies, without, Reach-distinct,
}

abbrev after_acquire : ObjectPool → ObjectPool
after_acquire p = (acquire 2 p).1

-- Three slots acquired, from two blocks.
abbrev three : ObjectPool
three = after_acquire (after_acquire (after_acquire new))

acquire-run : (acquire 2 (release 1 three)).0 ≡ 1
unfolding acquire acquire_unused add_block release
acquire-run = refl

abbrev held_slots : List ℕ
held_slots = (acquire 2 (after_acquire new)).0 ∷ (acquire 2 new).0 ∷ []

two_held : Reach 2 (after_acquire (after_acquire new)) held_slots
two_held =
    then_acquire (after_acquire new) ((acquire 2 new).0 ∷ []) (then_acquire new [] fresh_pool)

zero_held : 1 ≤ copies 0 held_slots
unfolding copies acquire acquire_unused add_block
zero_held = omega arith

Reach-distinct_example :
    ((x : ℕ)
      → copies x (without 0 held_slots)
          + copies x (release 0 (after_acquire (after_acquire new))).free
        ≤ 1)
    × (copies (acquire 2 (release 0 (after_acquire (after_acquire new)))).0 (without 0 held_slots)
        ≡ 0)
Reach-distinct_example =
    Reach-distinct 2 (release 0 (after_acquire (after_acquire new))) (without 0 held_slots)
      (omega arith)
      (then_release (after_acquire (after_acquire new)) held_slots 0 two_held zero_held)
