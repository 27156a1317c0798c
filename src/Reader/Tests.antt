-- ===== src/Reader/Tests.antt =====
-- Files for the reader of include/ItchParser.hpp, and what it reads of them.
use mini_hft.Base.{
  ℕ, ◌<◌, ◌≡◌, refl, sym, List, [], ◌∷◌, ◌++◌, length, take, drop, length-take, take-append-drop,
  arith,
}
use Prim.Native.Nat.{min}
use mini_hft.Mold.Frame.{frame}
use mini_hft.Itch.Bytes.{be16}
use mini_hft.Itch.Types.{message_length}
use mini_hft.Reader.{
  new, next, ensure, fill, next_round, make_room, judge, judged, take_message, count_skipped,
}
use mini_hft.Reader.Ensure.{IsFile}
use mini_hft.Reader.Refine.{ReadFile, read_all, read_all-ReadFile}

-- A file of bytes, of which a read returns two at most.
abbrev read_two : ℕ → List ℕ → List ℕ × List ℕ
read_two n f = (take (min n 2) f, drop (min n 2) f)

abbrev unread : List ℕ → List ℕ
unread f = f

none_read : (n : ℕ) (f : List ℕ) → 0 < n → length (take (min n 2) f) ≡ 0 → f ≡ []
none_read n [] p h = refl
none_read n (x ∷ f) p h = absurd (omega (arith, length-take (min n 2) (x ∷ f)))

read_two-IsFile : IsFile read_two unread
read_two-IsFile = record {
  reads = λ n f. sym (take-append-drop (min n 2) f);
  at_most = λ n f. omega (arith, length-take (min n 2) f);
  ends = λ n f. none_read n f;
}

-- An order delete message that is too short, a system event, an unknown type, and half a prefix.
abbrev event : List ℕ
event = 83 ∷ 0 ∷ 0 ∷ 0 ∷ 0 ∷ 0 ∷ 0 ∷ 0 ∷ 0 ∷ 0 ∷ 0 ∷ 79 ∷ []

abbrev inputs : List (List ℕ)
inputs = (68 ∷ 0 ∷ []) ∷ event ∷ (33 ∷ []) ∷ []

read_all-ReadFile_example :
    ReadFile read_two unread read_two-IsFile inputs
      (0 ∷ [])
      (read_all read_two unread read_two-IsFile 4 4 (new (frame inputs ++ 0 ∷ []) 1))
unfolding be16
read_all-ReadFile_example =
    read_all-ReadFile read_two unread read_two-IsFile inputs (0 ∷ []) (frame inputs ++ 0 ∷ []) 1 4 4
      refl (omega arith, (omega arith, (omega arith, tt))) (omega arith) (omega arith) (omega arith)

read_all-run :
    (read_all read_two unread read_two-IsFile 4 4 (new (frame inputs ++ 0 ∷ []) 1)).0 ≡ event ∷ []
unfolding new next ensure fill next_round make_room judge judged take_message count_skipped be16
    message_length
read_all-run = refl
