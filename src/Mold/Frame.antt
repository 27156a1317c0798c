-- ===== src/Mold/Frame.antt =====
-- What `decode` of include/MoldUdp64.hpp accepts: length-prefixed messages that fill the datagram.
use mini_hft.Base.{
  ℕ, zero, suc, ◌+◌, ◌/◌, ◌%◌, ◌^◌, ◌≤◌, ◌<◌, ◌≡◌, refl, sym, ap, ◌∙◌, List, [], ◌∷◌, ◌++◌, length,
  drop, get_or, All, arith, append_assoc, length-append, length-take, length-drop,
  take-length-append, get_or-append, drop-append, drop-cons, drop-drop, take-append-drop,
}
use mini_hft.Base.Words.{u64}
use mini_hft.Itch.Bytes.{be16, bytes_at}
use mini_hft.Mold.Packet.{Packet, Call}

-- The length prefix of a message and the message.
abbrev pub block : List ℕ → List ℕ
block m = (length m / 2 ^ 8) ∷ (length m % 2 ^ 8) ∷ m

abbrev pub frame : List (List ℕ) → List ℕ
frame [] = []
frame (m ∷ ms) = block m ++ frame ms

-- A message that a length prefix can describe.
abbrev pub IsMessage : List ℕ → Type 0
IsMessage m = (0 < length m) × (length m < 2 ^ 16)

-- Messages numbered from `n`.
abbrev pub number_from : ℕ → List (List ℕ) → List Call
number_from n [] = []
number_from n (m ∷ ms) = (u64 n, m) ∷ number_from (n + 1) ms

module _ (pre m rest : List ℕ) where
  -- Reading a block that starts after `pre`.
  be16-block : length m < 2 ^ 16 → be16 (pre ++ (block m ++ rest)) (length pre) ≡ length m
  unfolding be16
  be16-block h =
      let e : length pre ≡ length pre + 0 = omega arith in
      let first : get_or (pre ++ (block m ++ rest)) (length pre) 0 ≡ length m / 2 ^ 8 =
        ap (λ k. get_or (pre ++ (block m ++ rest)) k 0) e
        ∙ get_or-append pre (block m ++ rest) 0 0 in
      omega (arith, first, get_or-append pre (block m ++ rest) 1 0)

  bytes_at-block : bytes_at (pre ++ (block m ++ rest)) (length pre + 2) (length m) ≡ m
  bytes_at-block = rw (drop-append pre (block m ++ rest) 2) (take-length-append m rest)

  pub length-pre-block : length (pre ++ block m) ≡ length pre + (2 + length m)
  length-pre-block = omega (arith, length-append pre (block m))

-- The packet's blocks are `pre`, then framed messages; `m` is the first of them.
module _ (p : Packet) (pre m : List ℕ) (ms : List (List ℕ))
    (e : p.blocks ≡ pre ++ frame (m ∷ ms)) where
  pub next_split : p.blocks ≡ (pre ++ block m) ++ frame ms
  next_split = e ∙ sym (append_assoc pre (block m) (frame ms))

  pub be16-next : length m < 2 ^ 16 → be16 p.blocks (length pre) ≡ length m
  be16-next h = rw e (be16-block pre m (frame ms) h)

  pub bytes_at-next : bytes_at p.blocks (length pre + 2) (length m) ≡ m
  bytes_at-next = rw e (bytes_at-block pre m (frame ms))

  pub length-next : length p.blocks ≡ length pre + (2 + length m) + length (frame ms)
  length-next = omega (
    arith,
    ap length next_split,
    length-append (pre ++ block m) (frame ms),
    length-pre-block pre m [],
  )

abbrev pub IsBytes : List ℕ → Type 0
IsBytes = All (λ b. b < 2 ^ 8)

pub get_or-IsBytes : (l : List ℕ) (i : ℕ) → IsBytes l → get_or l i 0 < 2 ^ 8
get_or-IsBytes [] i a = omega arith
get_or-IsBytes (x ∷ l) zero a = a.0
get_or-IsBytes (x ∷ l) (suc i) a = get_or-IsBytes l i a.1

pub drop-IsBytes : (n : ℕ) (l : List ℕ) → IsBytes l → IsBytes (drop n l)
drop-IsBytes zero l a = a
drop-IsBytes (suc n) [] a = a
drop-IsBytes (suc n) (x ∷ l) a = drop-IsBytes n l a.1

pub be16-lt : (l : List ℕ) (i : ℕ) → IsBytes l → be16 l i < 2 ^ 16
unfolding be16
be16-lt l i a = omega (arith, get_or-IsBytes l i a, get_or-IsBytes l (i + 1) a)

-- A block that lies inside the bytes.
pub drop-block :
    (l : List ℕ) (i : ℕ)
    → IsBytes l
    → i + (2 + be16 l i) ≤ length l
    → drop i l ≡ block (bytes_at l (i + 2) (be16 l i)) ++ drop (i + (2 + be16 l i)) l
unfolding be16
drop-block l i a h =
    let n = be16 l i in
    let body = bytes_at l (i + 2) n in
    let size : length body ≡ n =
      omega (arith, length-take n (drop (i + 2) l), length-drop (i + 2) l) in
    let one : suc i ≡ i + 1 = omega arith in
    let two : suc (i + 1) ≡ i + 2 = omega arith in
    let hi : get_or l i 0 ≡ length body / 2 ^ 8 = omega (arith, size, get_or-IsBytes l (i + 1) a) in
    let lo : get_or l (i + 1) 0 ≡ length body % 2 ^ 8 =
      omega (arith, size, get_or-IsBytes l (i + 1) a) in
    let rest : drop (i + 2) l ≡ body ++ drop (i + (2 + n)) l = sym (
      let e : i + (2 + n) ≡ i + 2 + n = omega arith in
      rw (e, ← drop-drop (i + 2) n l) (take-append-drop n (drop (i + 2) l))) in
    let heads : drop i l ≡ get_or l i 0 ∷ get_or l (i + 1) 0 ∷ drop (i + 2) l =
      drop-cons l i 0 (omega arith)
      ∙ ap (◌∷◌ (get_or l i 0)) (rw one (drop-cons l (i + 1) 0 (omega arith) ∙ rw two refl)) in
    heads ∙ (λ j. hi j ∷ lo j ∷ rest j)
