-- ===== src/Report.antt =====
-- The options and the JSON strings of bench/BenchCommon.hpp. A text is its list of bytes, none of them
-- NUL in an argument, and the arguments stand without argv[0].
mod Tests
mod Numbers
pub mod Json
use mini_hft.Base.{
  ℕ, zero, suc, ◌/◌, ◌%◌, Bool, true, false, Option, none, some, List, [], ◌∷◌, ◌++◌, drop, length,
  get_or, ltb, ◌==◌, ◌&&◌, ◌||◌, not, if◌then◌else◌,
}

-- `std::strncmp(text, prefix, prefix.size()) == 0`, and `starts_with`.
unfoldable pub starts_with : List ℕ → List ℕ → Bool
starts_with [] text = true
starts_with (c ∷ prefix) [] = false
starts_with (c ∷ prefix) (d ∷ text) = c == d && starts_with prefix text

-- "--name="
unfoldable pub option_prefix : List ℕ → List ℕ
option_prefix name = 45 ∷ 45 ∷ (name ++ 61 ∷ [])

-- The value of the first argument that gives the option.
unfoldable pub find_option : List ℕ → List (List ℕ) → Option (List ℕ)
unfolding starts_with
find_option prefix [] = none
find_option prefix (arg ∷ args) =
    if starts_with prefix arg then some (drop (length prefix) arg) else find_option prefix args

unfoldable pub arg_string : List (List ℕ) → List ℕ → List ℕ
unfolding find_option option_prefix
arg_string args name = elim (find_option (option_prefix name) args) [
  | none ↦ []
  | some value ↦ value
]

-- `std::atoll` is the parameter.
unfoldable pub arg_int : {I : Type 0} → (List ℕ → I) → List (List ℕ) → List ℕ → I → I
unfolding find_option option_prefix
arg_int atoll args name fallback = elim (find_option (option_prefix name) args) [
  | none ↦ fallback
  | some value ↦ atoll value
]

unfoldable pub after_comma : List ℕ → List ℕ
after_comma [] = []
after_comma (c ∷ text) = if c == 44 then text else c ∷ text

-- The numbers of a list, up to what is no number. `std::strtoll` is the parameter: the number, and how
-- many bytes it takes, none where there is no number. The first argument is fuel.
unfoldable pub numbers : {I : Type 0} → ℕ → (List ℕ → I × ℕ) → List ℕ → List I
unfolding after_comma
numbers zero strtoll text = []
numbers (suc fuel) strtoll [] = []
numbers (suc fuel) strtoll (c ∷ text) =
    let value = strtoll (c ∷ text) in
    let rest = numbers fuel strtoll (after_comma (drop value.1 (c ∷ text))) in
    if value.1 == 0 then [] else value.0 ∷ rest

unfoldable pub arg_int_list :
    {I : Type 0} → (List ℕ → I × ℕ) → List (List ℕ) → List ℕ → List I → List I
unfolding find_option option_prefix numbers
arg_int_list strtoll args name fallback = elim (find_option (option_prefix name) args) [
  | none ↦ fallback
  | some value ↦ numbers (length value) strtoll value
]

unfoldable pub same_text : List ℕ → List ℕ → Bool
same_text [] [] = true
same_text [] (d ∷ ds) = false
same_text (c ∷ cs) [] = false
same_text (c ∷ cs) (d ∷ ds) = c == d && same_text cs ds

unfoldable pub has_flag : List (List ℕ) → List ℕ → Bool
unfolding same_text
has_flag [] flag = false
has_flag (arg ∷ args) flag = if same_text arg flag then true else has_flag args flag

-- The arguments that JsonReport records: json, commit and label are left out.
unfoldable pub recorded_args : List (List ℕ) → List (List ℕ)
unfolding starts_with option_prefix
recorded_args [] = []
recorded_args (arg ∷ args) =
    let rest = recorded_args args in
    if starts_with (option_prefix (106 ∷ 115 ∷ 111 ∷ 110 ∷ [])) arg
      || starts_with (option_prefix (99 ∷ 111 ∷ 109 ∷ 109 ∷ 105 ∷ 116 ∷ [])) arg
      || starts_with (option_prefix (108 ∷ 97 ∷ 98 ∷ 101 ∷ 108 ∷ [])) arg
    then rest
    else arg ∷ rest

-- `kHex`
abbrev pub hex_digits : List ℕ
hex_digits = 48 ∷ 49 ∷ 50 ∷ 51 ∷ 52 ∷ 53 ∷ 54 ∷ 55 ∷ 56 ∷ 57 ∷ 97 ∷ 98 ∷ 99 ∷ 100 ∷ 101 ∷ 102 ∷ []

-- What jsonString appends for one byte: quotation mark, backslash, n, r, t, another control character,
-- or any other byte.
unfoldable pub escape : ℕ → List ℕ
escape c =
    if c == 34
    then 92 ∷ 34 ∷ []
    else if c == 92
    then 92 ∷ 92 ∷ []
    else if c == 10
    then 92 ∷ 110 ∷ []
    else if c == 13
    then 92 ∷ 114 ∷ []
    else if c == 9
    then 92 ∷ 116 ∷ []
    else if ltb c 32
    then 92 ∷ 117 ∷ 48 ∷ 48 ∷ get_or hex_digits (c / 16) 0 ∷ get_or hex_digits (c % 16) 0 ∷ []
    else c ∷ []

unfoldable pub escape_all : List ℕ → List ℕ
unfolding escape
escape_all [] = []
escape_all (c ∷ text) = escape c ++ escape_all text

unfoldable pub json_string : List ℕ → List ℕ
unfolding escape_all
json_string text = 34 ∷ (escape_all text ++ 34 ∷ [])
