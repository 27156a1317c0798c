-- ===== src/Builder/Events.antt =====
-- The messages about one live order, for include/ItchBook.hpp: those that look an order up.
use mini_hft.Base.{ℕ, ◌≡◌, refl, ap, none, some}
use mini_hft.Itch.Types.{
  OrderExecuted, OrderExecutedWithPrice, OrderCancel, OrderDelete, OrderReplace,
}
use mini_hft.Builder.Stats.{ItchBookStats, inc64}
use mini_hft.Builder.State.{OrderPool, OrderMap, Builder}
use mini_hft.Builder.Change.{lookup}
use mini_hft.Builder.Handlers.{
  with_order, on_executed, on_executed_with_price, on_cancel, on_delete, on_replace,
}

pub data OrderEvent : Type 0 where
  executed : OrderExecuted → OrderEvent
  executed_with_price : OrderExecutedWithPrice → OrderEvent
  cancelled : OrderCancel → OrderEvent
  deleted : OrderDelete → OrderEvent
  replaced : OrderReplace → OrderEvent

abbrev pub event_ref : OrderEvent → ℕ
event_ref (executed m) = m.ref
event_ref (executed_with_price m) = m.ref
event_ref (cancelled m) = m.ref
event_ref (deleted m) = m.ref
event_ref (replaced m) = m.old_ref

-- The counter that each kind of event has.
abbrev pub count_event : OrderEvent → ItchBookStats → ItchBookStats
count_event (executed m) t = record t { executions = inc64 t.executions }
count_event (executed_with_price m) t = record t { executions = inc64 t.executions }
count_event (cancelled m) t = record t { cancels = inc64 t.cancels }
count_event (deleted m) t = record t { deletes = inc64 t.deletes }
count_event (replaced m) t = record t { replaces = inc64 t.replaces }

module _ {P I : Type 0} (pools : OrderPool P) (maps : OrderMap I) where
  abbrev pub on_event : OrderEvent → ℕ → ℕ → Builder P I → Builder P I
  on_event (executed m) locate ts s = on_executed pools maps locate ts m s
  on_event (executed_with_price m) locate ts s = on_executed_with_price pools maps locate ts m s
  on_event (cancelled m) locate ts s = on_cancel pools maps locate ts m s
  on_event (deleted m) locate ts s = on_delete pools maps locate ts m s
  on_event (replaced m) locate ts s = on_replace pools maps locate ts m s

  lookup-some :
      (ref p : ℕ) (s : Builder P I)
      → maps.find ref s.index ≡ some p
      → lookup pools maps ref s ≡ (some p, s)
  unfolding lookup
  lookup-some ref p s h = rw (lookup, h) refl

  pub with_order-some :
      (ref p : ℕ) (act : ℕ → Builder P I → Builder P I) (s : Builder P I)
      → maps.find ref s.index ≡ some p
      → with_order pools maps ref act s ≡ act p s
  unfolding with_order
  with_order-some ref p act s h =
      ap (λ r. elim r.0 [ none ↦ r.1 | some q ↦ act q r.1 ]) (lookup-some ref p s h)
