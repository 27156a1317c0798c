-- ===== src/Report/Tests.antt =====
-- Runs of the options and the JSON strings of bench/BenchCommon.hpp.
use mini_hft.Base.{ℕ, true, List, [], ◌∷◌, ◌≡◌, refl}
use mini_hft.Report.{arg_string, has_flag, recorded_args, json_string}
use mini_hft.Report.Json.{before_text, behind, read_from, read_from-json_string}

-- "--n=7", "--json=a", "--v"
abbrev args : List (List ℕ)
args =
    (45 ∷ 45 ∷ 110 ∷ 61 ∷ 55 ∷ [])
    ∷ (45 ∷ 45 ∷ 106 ∷ 115 ∷ 111 ∷ 110 ∷ 61 ∷ 97 ∷ [])
    ∷ (45 ∷ 45 ∷ 118 ∷ [])
    ∷ []

arg_string-run : arg_string args (110 ∷ []) ≡ 55 ∷ []
unfolding arg_string
arg_string-run = refl

has_flag-run : has_flag args (45 ∷ 45 ∷ 118 ∷ []) ≡ true
unfolding has_flag
has_flag-run = refl

recorded_args-run : recorded_args args ≡ (45 ∷ 45 ∷ 110 ∷ 61 ∷ 55 ∷ []) ∷ (45 ∷ 45 ∷ 118 ∷ []) ∷ []
unfolding recorded_args
recorded_args-run = refl

-- A quotation mark, a control character, a newline and a letter.
abbrev label : List ℕ
label = 34 ∷ 1 ∷ 10 ∷ 97 ∷ []

read_from-json_string_example : read_from before_text (json_string label) ≡ (behind, label)
read_from-json_string_example = read_from-json_string label
