-- ===== src/Builder/Stats.antt =====
-- `TopOfBook`, `CrossedEvent` and `ItchBookStats` of include/ItchBook.hpp.
use mini_hft.Base.{ℕ, ◌+◌, List, [], ◌∷◌, set, get_or, ltb, ◌==◌, if◌then◌else◌}
use mini_hft.Base.Words.{u64}

pub record TopOfBook : Type 0 where
  pub locate : ℕ
  pub timestamp : ℕ
  pub bid_price : ℕ
  pub bid_shares : ℕ
  pub ask_price : ℕ
  pub ask_shares : ℕ

pub record CrossedEvent : Type 0 where
  pub locate : ℕ
  pub timestamp : ℕ
  pub last_trading_action : ℕ

pub record ItchBookStats : Type 0 where
  pub adds : ℕ
  pub executions : ℕ
  pub cancels : ℕ
  pub deletes : ℕ
  pub replaces : ℕ
  pub trades : ℕ
  pub unknown_refs : ℕ
  pub duplicate_refs : ℕ
  pub over_executions : ℕ
  pub crossed_during_market : ℕ
  pub crossed_while_trading : ℕ
  pub trading_actions : ℕ
  pub live_orders : ℕ
  pub peak_live_orders : ℕ
  pub depth_histogram : List ℕ

abbrev pub no_stats : ItchBookStats
no_stats = record {
  adds = 0;
  executions = 0;
  cancels = 0;
  deletes = 0;
  replaces = 0;
  trades = 0;
  unknown_refs = 0;
  duplicate_refs = 0;
  over_executions = 0;
  crossed_during_market = 0;
  crossed_while_trading = 0;
  trading_actions = 0;
  live_orders = 0;
  peak_live_orders = 0;
  depth_histogram = 0 ∷ 0 ∷ 0 ∷ 0 ∷ 0 ∷ 0 ∷ [];
}

abbrev pub inc64 : ℕ → ℕ
inc64 n = u64 (n + 1)

-- The bucket of `recordDepth`.
unfoldable pub depth_bucket : ℕ → ℕ
depth_bucket depth =
    if depth == 0
    then 0
    else if depth == 1
    then 1
    else if ltb depth 5
    then 2
    else if ltb depth 10
    then 3
    else if ltb depth 50
    then 4
    else 5

unfoldable pub count_depth : ℕ → ItchBookStats → ItchBookStats
count_depth depth t =
    let i = depth_bucket depth in
    record t { depth_histogram = set t.depth_histogram i (inc64 (get_or t.depth_histogram i 0)) }
