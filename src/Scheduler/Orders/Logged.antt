-- ===== src/Scheduler/Orders/Logged.antt =====
-- The orders that are due are logged.
use auto_options_call_debit.Common.{ℤ, ℕ, Option, none, some}
use auto_options_call_debit.Domain.State.{OrderIntent, Order, open_order, close_order}
use auto_options_call_debit.Execution.{
  FillStatus, filled, limit_not_met, quote_missing, quote_unusable, size_inadequate,
  not_yet_eligible, expired,
}
use auto_options_call_debit.Scheduler.Market.{Market}
use auto_options_call_debit.Scheduler.Orders.{
  resolve_order, resolve_orders, open_fill, attempt, on_outcome, by_intent,
}
use auto_options_call_debit.Scheduler.Logged.{IsLogged, logged}
use auto_options_call_debit.Scheduler.Market.Logged.{expire_order-IsLogged, apply_fill-IsLogged}

module _ (m : Market) where
  open_fill-IsLogged : (o : Order) (credit : ℤ) (t : ℕ) → IsLogged (open_fill m o credit t)
  unfolding open_fill
  open_fill-IsLogged o credit t = search (logged, expire_order-IsLogged, apply_fill-IsLogged)

  by_intent-IsLogged :
      (o : Order) (price : ℤ) (t : ℕ) (i : OrderIntent) → IsLogged (by_intent m o price t i)
  unfolding by_intent
  by_intent-IsLogged o price t open_order = open_fill-IsLogged o price t
  by_intent-IsLogged o price t close_order = apply_fill-IsLogged m o price _ t

  on_outcome-IsLogged :
      (o : Order) (t : ℕ) (s : FillStatus) (price : Option ℤ) → IsLogged (on_outcome m o t s price)
  unfolding on_outcome
  on_outcome-IsLogged o t filled (some price) = search (logged, by_intent-IsLogged)
  on_outcome-IsLogged o t filled none = search logged
  on_outcome-IsLogged o t limit_not_met price = expire_order-IsLogged m o t
  on_outcome-IsLogged o t expired price = expire_order-IsLogged m o t
  on_outcome-IsLogged o t size_inadequate price = expire_order-IsLogged m o t
  on_outcome-IsLogged o t quote_missing price = search logged
  on_outcome-IsLogged o t quote_unusable price = search logged
  on_outcome-IsLogged o t not_yet_eligible price = search logged

  attempt-IsLogged : (o : Order) (t : ℕ) → IsLogged (attempt m o t)
  unfolding attempt
  attempt-IsLogged o t = search (logged, on_outcome-IsLogged)

  resolve_order-IsLogged : (t : ℕ) (o : Order) → IsLogged (resolve_order m t o)
  unfolding resolve_order
  resolve_order-IsLogged t o = search (logged, attempt-IsLogged, expire_order-IsLogged)

  pub resolve_orders-IsLogged : (t : ℕ) → IsLogged (resolve_orders m t)
  unfolding resolve_orders
  resolve_orders-IsLogged t = search (logged, resolve_order-IsLogged)
