-- ===== src/Builder/Tests.antt =====
-- A builder of include/ItchBook.hpp with a counter as its pool and an association list as its index.
use mini_hft.Base.{
  ℕ, suc, ◌≡◌, refl, Bool, true, false, Option, none, some, List, [], ◌∷◌, ◌==◌, if◌then◌else◌,
}
use mini_hft.Book.{add, open_level, lower_bound, insert_at, best_bid, back, write_order, push_level}
use mini_hft.Itch.Types.{AddOrder}
use mini_hft.Builder.State.{OrderPool, OrderMap, Builder, new, put_at}
use mini_hft.Builder.Change.{
  change_book, add_order, book_add, record_depth, count_live, note_crossed, moved, top_of,
}
use mini_hft.Builder.Handlers.{on_add}
use mini_hft.Builder.Events.{OrderEvent, deleted, on_event}
use mini_hft.Builder.Notify.{Told, on_event-Told}

abbrev Entries : Type 0
Entries = List (ℕ × ℕ)

unfoldable find_entry : ℕ → Entries → Option ℕ
find_entry k [] = none
find_entry k ((j, p) ∷ es) = let rest = find_entry k es in if j == k then some p else rest

unfoldable erase_entry : ℕ → Entries → Entries
erase_entry k [] = []
erase_entry k ((j, p) ∷ es) = let rest = erase_entry k es in if j == k then es else (j, p) ∷ rest

abbrev counter : OrderPool ℕ
counter = record { acquire = λ n. (n, suc n); release = λ p n. n }

unfoldable insert_entry : ℕ → ℕ → Entries → Bool × Entries
insert_entry k p es = elim (find_entry k es) [ none ↦ (true, (k, p) ∷ es) | some q ↦ (false, es) ]

abbrev entries : OrderMap Entries
entries = record { find = find_entry; try_insert = insert_entry; erase = erase_entry }

abbrev add_7 : AddOrder
add_7 = record { ref = 7; side = b'B'; shares = 100; stock = []; price = 5000 }

-- One live order, number 7, in pointer 0.
abbrev one_order : Builder ℕ Entries
one_order = on_add counter entries 3 1 add_7 (new true 0 [])

one_order-finds : find_entry 7 one_order.index ≡ some 0
unfolding find_entry insert_entry on_add change_book add_order new book_add record_depth count_live
    note_crossed moved add open_level lower_bound top_of insert_at best_bid back put_at write_order
    push_level
one_order-finds = refl

abbrev delete_7 : OrderEvent
delete_7 = deleted (record { ref = 7 })

on_event-Told_example :
    Told (one_order.store 0).locate 5 one_order (on_event counter entries delete_7 3 5 one_order)
on_event-Told_example = on_event-Told counter entries delete_7 3 5 0 one_order one_order-finds
