-- ===== src/Feed/Packed.antt =====
-- The packets that src/mold_send.cpp fills: a message that fits an empty one is taken, and a finished
-- one carries what went in.
use mini_hft.Base.{
  ℕ, zero, suc, ◌+◌, ◌^◌, ◌≤◌, ◌<◌, ◌≡◌, refl, ap, ◌∙◌, subst, true, false, List, [], ◌∷◌, ◌++◌,
  length, replicate, if◌then◌else◌, arith,
}
use mini_hft.Mold.Packet.{decode}
use mini_hft.Mold.Frame.{IsBytes, IsMessage}
use mini_hft.Mold.Writer.{PacketWriter, begin, add, finish, finish_with_count, control}
use mini_hft.Mold.Written.{Wrote, add-Wrote}
use mini_hft.Mold.Finished.{finished, finished_decoded, finish-finished, control_decoded}
use mini_hft.Feed.Arrived.{Stream, carries, ends}

-- A message that fits a packet of `capacity` bytes by itself.
abbrev pub Fits : ℕ → List ℕ → Type 0
Fits capacity m = IsMessage m × IsBytes m × (22 + length m ≤ capacity)

add-Fits :
    (m : List ℕ) (w : PacketWriter)
    → Fits w.capacity m
    → w.count ≡ 0
    → w.body ≡ []
    → w.capacity < 2 ^ 64
    → (add m w).0 ≡ true
unfolding add
add-Fits m w f c b h = let size : length w.body ≡ 0 = ap length b in ground (arith, f, c, size)

pub add-capacity : (m : List ℕ) (w : PacketWriter) → (add m w).1.capacity ≡ w.capacity
unfolding add
add-capacity m w = ground arith

-- A message that a writer has no room for, but an empty one has: the writer is not empty.
pub refused-some :
    (n : ℕ) (name : List ℕ) (pre : List (List ℕ)) (m : List ℕ) (w : PacketWriter)
    → Wrote n name pre w
    → Fits w.capacity m
    → w.capacity < 2 ^ 64
    → (add m w).0 ≡ false
    → 0 < length pre
refused-some n name [] m w v f h full = absurd (let e = add-Fits m w f v.number v.framed h in cc)
refused-some n name (x ∷ pre) m w v f h full = omega arith

pub begin-Wrote :
    (n : ℕ) (name : List ℕ) (w : PacketWriter) → w.session ≡ name → Wrote n name [] (begin n w)
unfolding begin
begin-Wrote n name w e = record {
  same_session = e;
  same_sequence = refl;
  number = refl;
  framed = refl;
  each = tt;
  few = omega arith;
  bytes = tt;
}

pub taken-Wrote :
    (n : ℕ) (name : List ℕ) (pre : List (List ℕ)) (m : List ℕ) (w : PacketWriter)
    → IsBytes m
    → Wrote n name pre w
    → (add m w).0 ≡ true
    → Wrote n name (pre ++ m ∷ []) (add m w).1
taken-Wrote n name pre m w b v took =
    subst (λ t. Wrote n name (if t then pre ++ m ∷ [] else pre) (add m w).1) took
      (add-Wrote n name pre m w b v)

pub empty_taken :
    (n : ℕ) (name : List ℕ) (m : List ℕ) (w : PacketWriter)
    → Wrote n name [] w
    → Fits w.capacity m
    → w.capacity < 2 ^ 64
    → (add m w).0 ≡ true
empty_taken n name m w v f h = add-Fits m w f v.number v.framed h

zeros-IsBytes : (n : ℕ) → IsBytes (replicate n 0)
zeros-IsBytes zero = tt
zeros-IsBytes (suc n) = (omega arith, zeros-IsBytes n)

-- The datagram of a writer that is not empty.
pub finish-Stream :
    (n : ℕ) (name : List ℕ) (pre rest ds : List (List ℕ)) (w : PacketWriter)
    → length name ≡ 10
    → IsBytes name
    → Wrote n name pre w
    → 0 < length pre
    → n + 0xffff ≤ 2 ^ 64
    → Stream name (n + length pre) rest ds
    → Stream name n (pre ++ rest) (finish w ∷ ds)
finish-Stream n name pre rest ds w e b v some_left h st =
    let read = finished_decoded name n pre e b v.each v.bytes v.few h in
    let blank =
      finished_decoded (replicate 10 0) n pre refl (zeros-IsBytes 10) v.each v.bytes v.few h in
    carries (ap decode (finish-finished n name pre w v) ∙ read.0)
      (record {
        same_session = refl;
        first = refl;
        count = refl;
        some_messages = some_left;
        few = v.few;
        fits = omega (arith, v.few);
        calls = blank.1;
      })
      st

-- The end-of-session datagram.
pub control-Stream :
    (n : ℕ) (name : List ℕ) (ds : List (List ℕ)) (w : PacketWriter)
    → length name ≡ 10
    → w.session ≡ name
    → n < 2 ^ 64
    → Stream name n [] (control n 0xffff w ∷ ds)
unfolding control finish_with_count begin
control-Stream n name ds w e s h =
    ends (ap (λ x. decode (finished x n 0xffff [])) s ∙ control_decoded name n e h)
      (record { same_session = refl; at_end = refl; count = refl }) h
