-- ===== src/Itch/Bytes.antt =====
-- The big-endian helpers of include/ItchMessages.hpp, and the `memset` and `memcpy` that it calls.
-- A pointer into a buffer is the buffer, a list of bytes, with an offset. Bytes are below 256, so
-- the `|` of shifted bytes is a sum. A read outside the buffer is 0 here; the callers check lengths.
use mini_hft.Base.{
  ℕ, zero, suc, ◌+◌, ◌*◌, ◌/◌, ◌%◌, ◌^◌, ◌≤◌, ◌<◌, ◌≡◌, refl, ap, List, [], ◌∷◌, ◌++◌, length,
  replicate, take, drop, set, get_or, arith,
}
use mini_hft.Base.Words.{u16, u32}

abbrev pub byte : List ℕ → ℕ → ℕ
byte m o = get_or m o 0

unfoldable pub be16 : List ℕ → ℕ → ℕ
be16 m o = byte m o * 2 ^ 8 + byte m (o + 1)

unfoldable pub be32 : List ℕ → ℕ → ℕ
be32 m o = byte m o * 2 ^ 24 + byte m (o + 1) * 2 ^ 16 + byte m (o + 2) * 2 ^ 8 + byte m (o + 3)

unfoldable pub be48 : List ℕ → ℕ → ℕ
unfolding be16 be32
be48 m o = be16 m o * 2 ^ 32 + be32 m (o + 2)

unfoldable pub be64 : List ℕ → ℕ → ℕ
unfolding be32
be64 m o = be32 m o * 2 ^ 32 + be32 m (o + 4)

unfoldable pub put_be16 : List ℕ → ℕ → ℕ → List ℕ
put_be16 m o v = set (set m o (v / 2 ^ 8 % 2 ^ 8)) (o + 1) (v % 2 ^ 8)

unfoldable pub put_be32 : List ℕ → ℕ → ℕ → List ℕ
unfolding put_be16
put_be32 m o v = put_be16 (put_be16 m o (u16 (v / 2 ^ 16))) (o + 2) (u16 v)

unfoldable pub put_be48 : List ℕ → ℕ → ℕ → List ℕ
unfolding put_be16 put_be32
put_be48 m o v = put_be32 (put_be16 m o (u16 (v / 2 ^ 32))) (o + 2) (u32 v)

unfoldable pub put_be64 : List ℕ → ℕ → ℕ → List ℕ
unfolding put_be32
put_be64 m o v = put_be32 (put_be32 m o (u32 (v / 2 ^ 32))) (o + 4) (u32 v)

-- memset(out, 0, n)
unfoldable pub zero_fill : ℕ → List ℕ → List ℕ
zero_fill zero m = m
zero_fill (suc n) [] = []
zero_fill (suc n) (x ∷ m) = 0 ∷ zero_fill n m

-- memcpy(out + o, bytes, number of bytes)
unfoldable pub copy_at : List ℕ → ℕ → List ℕ → List ℕ
copy_at m o [] = m
copy_at m o (x ∷ xs) = copy_at (set m o x) (o + 1) xs

-- The `n` bytes at `m + o`.
abbrev pub bytes_at : List ℕ → ℕ → ℕ → List ℕ
bytes_at m o n = take n (drop o m)

-- What is put is read back, if it fits the width.
abbrev blank : List ℕ
blank = 0 ∷ 0 ∷ 0 ∷ 0 ∷ 0 ∷ 0 ∷ 0 ∷ 0 ∷ []

pub be16-put_be16 : (v : ℕ) → v < 2 ^ 16 → be16 (put_be16 blank 0 v) 0 ≡ v
unfolding be16 put_be16
be16-put_be16 v h = omega arith

pub be32-put_be32 : (v : ℕ) → v < 2 ^ 32 → be32 (put_be32 blank 0 v) 0 ≡ v
unfolding be32 put_be32
be32-put_be32 v h = omega arith

pub be48-put_be48 : (v : ℕ) → v < 2 ^ 48 → be48 (put_be48 blank 0 v) 0 ≡ v
unfolding be48 put_be48
be48-put_be48 v h = omega arith

pub be64-put_be64 : (v : ℕ) → v < 2 ^ 64 → be64 (put_be64 blank 0 v) 0 ≡ v
unfolding be64 put_be64
be64-put_be64 v h = omega arith

pub zero_fill_lem : (n : ℕ) (m : List ℕ) → n ≤ length m → zero_fill n m ≡ replicate n 0 ++ drop n m
unfolding zero_fill
zero_fill_lem zero m h = refl
zero_fill_lem (suc n) [] h = absurd (omega arith)
zero_fill_lem (suc n) (x ∷ m) h = ap (◌∷◌ 0) (zero_fill_lem n m (omega arith))
