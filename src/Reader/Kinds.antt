-- ===== src/Reader/Kinds.antt =====
-- What the messages in the framing of include/ItchParser.hpp are, by the layouts of ITCH 5.0.
use mini_hft.Base.{
  ℕ, suc, ◌≡◌, refl, ◌∙◌, Bool, true, false, List, [], ◌∷◌, length, ◌==◌, not, if◌then◌else◌, arith,
}
use mini_hft.Itch.Types.{message_length}
use mini_hft.Reader.{Verdict, good, unknown, mismatch, judge}

-- Each type of message with the length that it has.
abbrev pub layouts : List (ℕ × ℕ)
layouts =
    (b'S', 12)
    ∷ (b'R', 39)
    ∷ (b'H', 25)
    ∷ (b'Y', 20)
    ∷ (b'L', 26)
    ∷ (b'V', 35)
    ∷ (b'W', 12)
    ∷ (b'K', 28)
    ∷ (b'J', 35)
    ∷ (b'h', 21)
    ∷ (b'A', 36)
    ∷ (b'F', 40)
    ∷ (b'E', 31)
    ∷ (b'C', 36)
    ∷ (b'X', 23)
    ∷ (b'D', 19)
    ∷ (b'U', 35)
    ∷ (b'P', 44)
    ∷ (b'Q', 40)
    ∷ (b'B', 19)
    ∷ (b'I', 50)
    ∷ (b'N', 20)
    ∷ (b'O', 48)
    ∷ []

-- What a message of n bytes, the first of them t, is in a table of layouts: a good one when the table
-- gives its type that length, one of a wrong length when it gives another, and else of an unknown type.
abbrev pub kind_in : List (ℕ × ℕ) → ℕ → ℕ → Verdict
kind_in [] t n = unknown
kind_in ((type, size) ∷ table) t n =
    if t == type then (if size == n then good else mismatch) else kind_in table t n

-- A message without a type has a wrong length.
abbrev pub kind : List ℕ → Verdict
kind [] = mismatch
kind (t ∷ m) = kind_in layouts t (suc (length m))

swapped : (b : Bool) → (if not b then mismatch else good) ≡ (if b then good else mismatch)
swapped true = refl
swapped false = refl

-- The tests of `next` behind that of an empty message.
abbrev by_length : ℕ → ℕ → Verdict
by_length expected n =
    if expected == 0 then unknown else if not (expected == n) then mismatch else good

judge-by_length :
    (t : ℕ) (m : List ℕ) → judge (t ∷ m) ≡ by_length (message_length t) (suc (length m))
unfolding judge
judge-by_length t m = let e : (suc (length m) == 0) ≡ false = ground arith in rw e refl

by_length-kind_in : (t n : ℕ) → by_length (message_length t) n ≡ kind_in layouts t n
unfolding message_length
by_length-kind_in t n = ground arith

pub judge-kind : (m : List ℕ) → judge m ≡ kind m
unfolding judge
judge-kind [] = refl
judge-kind (t ∷ m) = judge-by_length t m ∙ by_length-kind_in t (suc (length m))
