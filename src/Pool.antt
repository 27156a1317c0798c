-- ===== src/Pool.antt =====
-- The object pool of include/ObjectPool.hpp. A slot is a number: the block's number times the block
-- size, plus its place in the block. The objects in the slots are not modelled.
mod Tests
pub mod Safety
use mini_hft.Base.{ℕ, suc, ◌+◌, ◌*◌, List, [], ◌∷◌, ◌==◌, if◌then◌else◌}

-- `newest` is the number of the newest block, and `free` the free list, its head first.
pub record ObjectPool : Type 0 where
  pub newest : ℕ
  pub used : ℕ
  pub free : List ℕ

abbrev pub new : ObjectPool
new = record { newest = 0; used = 0; free = [] }

unfoldable pub add_block : ObjectPool → ObjectPool
add_block p = record { newest = suc p.newest; used = 0; free = p.free }

-- The next unused slot, from a new block if the newest is full.
unfoldable pub acquire_unused : ℕ → ObjectPool → ℕ × ObjectPool
acquire_unused block_size p =
    let r = if p.used == block_size then add_block p else p in
    (r.newest * block_size + r.used, record r { used = suc r.used })

unfoldable pub acquire : ℕ → ObjectPool → ℕ × ObjectPool
acquire block_size p = elim p.free [
  | [] ↦ acquire_unused block_size p
  | slot ∷ rest ↦ (slot, record p { free = rest })
]

unfoldable pub release : ℕ → ObjectPool → ObjectPool
release slot p = record p { free = slot ∷ p.free }
