-- ===== src/Builder/Listeners.antt =====
-- The listeners of bench/Listeners.hpp, one called directly and two behind a virtual interface.
use mini_hft.Base.{ℕ, ◌+◌, ◌*◌, ◌^◌, ◌≡◌, refl, List, [], ◌∷◌}
use mini_hft.Base.Words.{u64}
use mini_hft.Builder.Stats.{TopOfBook}

-- The prices are of 32 bits, so the `|` of the source adds.
unfoldable pub fold_quote : ℕ → TopOfBook → ℕ
fold_quote checksum t =
    u64 (checksum * 31 + (t.bid_price * 2 ^ 32 + t.ask_price) + t.bid_shares + t.ask_shares)

pub record QuoteCounter : Type 0 where
  pub updates : ℕ
  pub checksum : ℕ

unfoldable pub on_top_of_book : TopOfBook → QuoteCounter → QuoteCounter
unfolding fold_quote
on_top_of_book t c = record c { updates = u64 (c.updates + 1); checksum = fold_quote c.checksum t }

-- The objects that a TopOfBookHandler pointer may point at, with the members of the base class.
pub data TopOfBookHandler : Type 0 where
  counting_handler : QuoteCounter → TopOfBookHandler
  ignoring_handler : QuoteCounter → TopOfBookHandler

-- The virtual call, as `VirtualListener` makes it.
unfoldable pub forward : TopOfBook → TopOfBookHandler → TopOfBookHandler
unfolding fold_quote
forward t (counting_handler c) =
    counting_handler
      (record c { updates = u64 (c.updates + 1); checksum = fold_quote c.checksum t })
forward t (ignoring_handler c) = ignoring_handler (record c { updates = u64 (c.updates + 1) })

abbrev counted : List TopOfBook → QuoteCounter → QuoteCounter
counted [] c = c
counted (t ∷ ts) c = counted ts (on_top_of_book t c)

abbrev forwarded : List TopOfBook → TopOfBookHandler → TopOfBookHandler
forwarded [] h = h
forwarded (t ∷ ts) h = forwarded ts (forward t h)

-- Behind the interface, the counting handler does the work of the counter that is called directly.
pub forwarded-counting_handler :
    (ts : List TopOfBook) (c : QuoteCounter)
    → forwarded ts (counting_handler c) ≡ counting_handler (counted ts c)
unfolding forward on_top_of_book
forwarded-counting_handler [] c = refl
forwarded-counting_handler (t ∷ ts) c = forwarded-counting_handler ts (on_top_of_book t c)
