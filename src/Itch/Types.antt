-- ===== src/Itch/Types.antt =====
-- The decoded messages and the message lengths of include/ItchMessages.hpp. A `char` is its code.
use mini_hft.Base.{ℕ, List, ◌==◌, if◌then◌else◌}

pub record Header : Type 0 where
  pub type : ℕ
  pub locate : ℕ
  pub tracking : ℕ
  pub timestamp : ℕ

pub record AddOrder : Type 0 where
  pub ref : ℕ
  pub side : ℕ
  pub shares : ℕ
  pub stock : List ℕ
  pub price : ℕ

pub record OrderExecuted : Type 0 where
  pub ref : ℕ
  pub shares : ℕ
  pub match_number : ℕ

pub record OrderExecutedWithPrice : Type 0 where
  pub ref : ℕ
  pub shares : ℕ
  pub match_number : ℕ
  pub printable : ℕ
  pub price : ℕ

pub record OrderCancel : Type 0 where
  pub ref : ℕ
  pub shares : ℕ

pub record OrderDelete : Type 0 where
  pub ref : ℕ

pub record OrderReplace : Type 0 where
  pub old_ref : ℕ
  pub new_ref : ℕ
  pub shares : ℕ
  pub price : ℕ

pub record Trade : Type 0 where
  pub ref : ℕ
  pub side : ℕ
  pub shares : ℕ
  pub stock : List ℕ
  pub price : ℕ
  pub match_number : ℕ

pub record StockDirectory : Type 0 where
  pub stock : List ℕ

pub record SystemEvent : Type 0 where
  pub code : ℕ

pub record TradingAction : Type 0 where
  pub stock : List ℕ
  pub state : ℕ
  pub reason : List ℕ

-- `messageLength`: 0 for an unknown type.
unfoldable pub message_length : ℕ → ℕ
message_length t =
    if t == b'S'
    then 12
    else if t == b'R'
    then 39
    else if t == b'H'
    then 25
    else if t == b'Y'
    then 20
    else if t == b'L'
    then 26
    else if t == b'V'
    then 35
    else if t == b'W'
    then 12
    else if t == b'K'
    then 28
    else if t == b'J'
    then 35
    else if t == b'h'
    then 21
    else if t == b'A'
    then 36
    else if t == b'F'
    then 40
    else if t == b'E'
    then 31
    else if t == b'C'
    then 36
    else if t == b'X'
    then 23
    else if t == b'D'
    then 19
    else if t == b'U'
    then 35
    else if t == b'P'
    then 44
    else if t == b'Q'
    then 40
    else if t == b'B'
    then 19
    else if t == b'I'
    then 50
    else if t == b'N'
    then 20
    else if t == b'O'
    then 48
    else 0
