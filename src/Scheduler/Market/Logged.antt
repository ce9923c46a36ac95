-- ===== src/Scheduler/Market/Logged.antt =====
-- Expiries and fills are logged.
use auto_options_call_debit.Common.{ℤ}
use auto_options_call_debit.Scheduler.Market.{apply_fill, fill_agent}
use auto_options_call_debit.Common.{ℕ, Option, none, some}
use auto_options_call_debit.Domain.State.{
  OrderIntent, Order, Reservation, Agent, open_order, close_order,
}
use auto_options_call_debit.Scheduler.Market.{expire_order, Market, unpend, expire_agent}
use auto_options_call_debit.Scheduler.Logged.{IsLogged, logged}

module _ (m : Market) where
  unpend-IsLogged : (t : ℕ) (r : Option Reservation) → IsLogged (unpend m t r)
  unfolding unpend
  unpend-IsLogged t none = search logged
  unpend-IsLogged t (some r) = search logged

  expire_agent-IsLogged :
      (o : Order) (t : ℕ) (agent : Agent) (i : OrderIntent) → IsLogged (expire_agent m o t agent i)
  unfolding expire_agent
  expire_agent-IsLogged o t agent open_order = search (logged, unpend-IsLogged)
  expire_agent-IsLogged o t agent close_order = search logged

  pub expire_order-IsLogged : (o : Order) (t : ℕ) → IsLogged (expire_order m o t)
  unfolding expire_order
  expire_order-IsLogged o t = search (logged, expire_agent-IsLogged)

  fill_agent-IsLogged :
      (o : Order) (price fees : ℤ) (t : ℕ) (agent : Agent) (i : OrderIntent)
      → IsLogged (fill_agent m o price fees t agent i)
  unfolding fill_agent
  fill_agent-IsLogged o price fees t agent open_order = search logged
  fill_agent-IsLogged o price fees t agent close_order = search logged

  pub apply_fill-IsLogged :
      (o : Order) (price fees : ℤ) (t : ℕ) → IsLogged (apply_fill m o price fees t)
  unfolding apply_fill
  apply_fill-IsLogged o price fees t = search (logged, fill_agent-IsLogged)
