-- ===== src/Builder/State.antt =====
-- The state of `BasicItchBookBuilder` in include/ItchBook.hpp, with the interfaces of its pool and
-- its index.
use mini_hft.Base.{ℕ, Bool, false, Option, none, List, [], ◌==◌, if◌then◌else◌}
use mini_hft.Book.{Book, BookOrder, bid, Store, empty_book}
use mini_hft.Builder.Stats.{TopOfBook, CrossedEvent, ItchBookStats, no_stats}

-- What the builder uses of ObjectPool<BookOrder>: slots are pointers.
pub record OrderPool (P : Type 0) : Type 0 where
  pub acquire : P → ℕ × P
  pub release : ℕ → P → P

-- What the builder uses of OrderIndex<BookOrder*>.
pub record OrderMap (I : Type 0) : Type 0 where
  pub find : ℕ → I → Option ℕ
  pub try_insert : ℕ → ℕ → I → Bool × I
  pub erase : ℕ → I → I

-- The vectors indexed by stock locate are functions. `notify` is false for NoListener, and
-- `heard` is what the listener has heard, the latest first.
pub record Builder (P I : Type 0) : Type 0 where
  pub books : ℕ → Book
  pub symbols : ℕ → List ℕ
  pub last_price : ℕ → ℕ
  pub trading_state : ℕ → ℕ
  pub crossed_by_locate : ℕ → ℕ
  pub last_trading_action : ℕ → ℕ
  pub crossed_events : List CrossedEvent
  pub store : Store
  pub pool : P
  pub index : I
  pub stats : ItchBookStats
  pub market_open : Bool
  pub notify : Bool
  pub heard : List TopOfBook

-- The members of a new BookOrder.
abbrev pub default_order : BookOrder
default_order = record {
  ref = 0;
  price = 0;
  shares = 0;
  locate = 0;
  side = bid;
  prev = none;
  next = none;
}

unfoldable pub new : {P I : Type 0} → Bool → P → I → Builder P I
new notify pool index = record {
  books = λ _. empty_book;
  symbols = λ _. [];
  last_price = λ _. 0;
  trading_state = λ _. b'T';
  crossed_by_locate = λ _. 0;
  last_trading_action = λ _. 0;
  crossed_events = [];
  store = λ _. default_order;
  pool = pool;
  index = index;
  stats = no_stats;
  market_open = false;
  notify = notify;
  heard = [];
}

-- A write to a vector indexed by stock locate.
unfoldable pub put_at {ℓ} : {A : Type ℓ} → ℕ → A → (ℕ → A) → ℕ → A
put_at i a f j = if i == j then a else f j
