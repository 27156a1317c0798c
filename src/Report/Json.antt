-- ===== src/Report/Json.antt =====
-- A reader of JSON strings, and what it makes of the strings of bench/BenchCommon.hpp.
use mini_hft.Base.{
  ℕ, zero, suc, ◌+◌, ◌-◌, ◌*◌, ◌/◌, ◌%◌, ◌<◌, ◌≡◌, refl, sym, ap, ◌∙◌, inl, inr, true, false,
  Option, none, some, List, [], ◌∷◌, ◌++◌, get_or, append_assoc, append-nil, ltb, leb, ◌==◌, ◌&&◌,
  ◌||◌, if◌then◌else◌, Bool-cases, arith, ==→eq, ltb→lt,
}
use mini_hft.Report.{escape, escape_all, json_string, hex_digits}

-- Where the reader is: before the string, in it, behind a backslash, before so many digits of a \u escape
-- with the value so far, or behind the closing quotation mark.
pub data Mode : Type 0 where
  before_text : Mode
  in_text : Mode
  escaped : Mode
  digit : ℕ → ℕ → Mode
  behind : Mode
  wrong : Mode

-- The value of a hexadecimal digit.
abbrev unhex : ℕ → Option ℕ
unhex d =
    if leb 48 d && leb d 57
    then some (d - 48)
    else if leb 97 d && leb d 102
    then some (d - 87)
    else if leb 65 d && leb d 70
    then some (d - 55)
    else none

-- What a character behind a backslash stands for: JSON's escapes but \u, and no other.
abbrev unescape : ℕ → Option ℕ
unescape c =
    if c == 34 || (c == 92 || c == 47)
    then some c
    else if c == 98
    then some 8
    else if c == 102
    then some 12
    else if c == 110
    then some 10
    else if c == 114
    then some 13
    else if c == 116
    then some 9
    else none

-- The mode after a hexadecimal digit, if it is one.
abbrev read_digit : ℕ → ℕ → Option ℕ → Mode × List ℕ
read_digit n value none = (wrong, [])
read_digit n value (some d) =
    if n == 1 then (in_text, (value * 16 + d) ∷ []) else (digit (n - 1) (value * 16 + d), [])

-- One byte more: the mode, and what is read by it. A \u escape stands for the code that it gives.
abbrev read_byte : Mode → ℕ → Mode × List ℕ
read_byte before_text c = (if c == 34 then in_text else wrong, [])
read_byte in_text c =
    if c == 34
    then (behind, [])
    else if c == 92
    then (escaped, [])
    else if ltb c 32
    then (wrong, [])
    else (in_text, c ∷ [])
read_byte escaped c =
    if c == 117
    then (digit 4 0, [])
    else elim (unescape c) [ none ↦ (wrong, []) | some d ↦ (in_text, d ∷ []) ]
read_byte (digit n value) c = read_digit n value (unhex c)
read_byte behind c = (wrong, [])
read_byte wrong c = (wrong, [])

abbrev pub read_from : Mode → List ℕ → Mode × List ℕ
read_from mode [] = (mode, [])
read_from mode (c ∷ cs) =
    let one = read_byte mode c in let rest = read_from one.0 cs in (rest.0, one.1 ++ rest.1)

read_from-append :
    (mode : Mode) (xs ys : List ℕ)
    → read_from mode (xs ++ ys) ≡ (
      (read_from (read_from mode xs).0 ys).0,
      (read_from mode xs).1 ++ (read_from (read_from mode xs).0 ys).1,
    )
read_from-append mode [] ys = refl
read_from-append mode (x ∷ xs) ys =
    let one = read_byte mode x in
    let e = read_from-append one.0 xs ys in
    λ j. (
      (e j).0,
      (ap (λ q. one.1 ++ q.1) e
            ∙ sym
                (append_assoc one.1 (read_from one.0 xs).1 (read_from (read_from one.0 xs).0 ys).1))
          j,
    )

unhex-hex_digits : (n : ℕ) → n < 16 → unhex (get_or hex_digits n 0) ≡ some n
unhex-hex_digits zero h = refl
unhex-hex_digits (suc zero) h = refl
unhex-hex_digits (suc (suc zero)) h = refl
unhex-hex_digits (suc (suc (suc zero))) h = refl
unhex-hex_digits (suc (suc (suc (suc zero)))) h = refl
unhex-hex_digits (suc (suc (suc (suc (suc zero))))) h = refl
unhex-hex_digits (suc (suc (suc (suc (suc (suc zero)))))) h = refl
unhex-hex_digits (suc (suc (suc (suc (suc (suc (suc zero))))))) h = refl
unhex-hex_digits (suc (suc (suc (suc (suc (suc (suc (suc zero)))))))) h = refl
unhex-hex_digits (suc (suc (suc (suc (suc (suc (suc (suc (suc zero))))))))) h = refl
unhex-hex_digits (suc (suc (suc (suc (suc (suc (suc (suc (suc (suc zero)))))))))) h = refl
unhex-hex_digits (suc (suc (suc (suc (suc (suc (suc (suc (suc (suc (suc zero))))))))))) h = refl
unhex-hex_digits (suc (suc (suc (suc (suc (suc (suc (suc (suc (suc (suc (suc zero)))))))))))) h =
    refl
unhex-hex_digits (suc (suc (suc (suc (suc (suc (suc (suc (suc (suc (suc (suc (suc zero)))))))))))))
      h =
    refl
unhex-hex_digits
      (suc (suc (suc (suc (suc (suc (suc (suc (suc (suc (suc (suc (suc (suc zero)))))))))))))) h =
    refl
unhex-hex_digits
      (suc (suc (suc (suc (suc (suc (suc (suc (suc (suc (suc (suc (suc (suc (suc zero)))))))))))))))
      h =
    refl
unhex-hex_digits
      (suc
        (suc (suc (suc (suc (suc (suc (suc (suc (suc (suc (suc (suc (suc (suc (suc n))))))))))))))))
      h =
    ground arith

-- The reader's steps on a byte that stands for itself and on the six of a control character's escape.
plain :
    (c : ℕ)
    → (c == 34) ≡ false
    → (c == 92) ≡ false
    → ltb c 32 ≡ false
    → read_from in_text (c ∷ []) ≡ (in_text, c ∷ [])
plain c q b l = rw q (rw b (rw l refl))

one_byte : (c d : ℕ) → (c == d) ≡ true → ◌≡◌ {A = Mode × List ℕ} (in_text, d ∷ []) (in_text, c ∷ [])
one_byte c d e = ap {B = Mode × List ℕ} (λ x. (in_text, x ∷ [])) (sym (==→eq c d e))

read_from-control :
    (c : ℕ)
    → c < 32
    → read_from in_text
        (92 ∷ 117 ∷ 48 ∷ 48 ∷ get_or hex_digits (c / 16) 0 ∷ get_or hex_digits (c % 16) 0 ∷ [])
      ≡ (in_text, c ∷ [])
read_from-control c h = rw (unhex-hex_digits (c / 16) (omega arith)) (
    rw (unhex-hex_digits (c % 16) (omega arith))
      (ap {B = Mode × List ℕ} (λ x. (in_text, x ∷ [])) (omega arith)))

read_from-escape : (c : ℕ) → read_from in_text (escape c) ≡ (in_text, c ∷ [])
unfolding escape
read_from-escape c = elim (Bool-cases (c == 34)) [
  | inl e ↦ rw e (one_byte c 34 e)
  | inr q ↦ rw q (elim (Bool-cases (c == 92)) [
    | inl e ↦ rw e (one_byte c 92 e)
    | inr b ↦ rw b (elim (Bool-cases (c == 10)) [
      | inl e ↦ rw e (one_byte c 10 e)
      | inr n ↦ rw n (elim (Bool-cases (c == 13)) [
        | inl e ↦ rw e (one_byte c 13 e)
        | inr r ↦ rw r (elim (Bool-cases (c == 9)) [
          | inl e ↦ rw e (one_byte c 9 e)
          | inr t ↦ rw t (elim (Bool-cases (ltb c 32)) [
            | inl l ↦ rw l (read_from-control c (ltb→lt c 32 l))
            | inr l ↦ rw l (plain c q b l)
          ])
        ])
      ])
    ])
  ])
]

read_from-escape_all : (text : List ℕ) → read_from in_text (escape_all text) ≡ (in_text, text)
unfolding escape_all
read_from-escape_all [] = refl
read_from-escape_all (c ∷ text) =
    let e = read_from-escape c in
    let rest = read_from-escape_all text in
    read_from-append in_text (escape c) (escape_all text) ∙ rw e (rw rest refl)

-- Reading the string that jsonString writes gives back the text, whatever its bytes, and nothing is left over.
pub read_from-json_string :
    (text : List ℕ) → read_from before_text (json_string text) ≡ (behind, text)
unfolding json_string
read_from-json_string text =
    rw (read_from-append in_text (escape_all text) (34 ∷ []))
      (rw (read_from-escape_all text) (ap (λ x. (behind, x)) (append-nil text)))
