-- ===== src/Scheduler/Close/Logged.antt =====
-- Settlements and the end of a session are logged.
use auto_options_call_debit.Common.{ℕ, Option, none, some}
use auto_options_call_debit.Domain.Money.{Decimal}
use auto_options_call_debit.Domain.State.{Order, Position, Reservation, Agent}
use auto_options_call_debit.Scheduler.Market.{SettlementRow, Market}
use auto_options_call_debit.Scheduler.Close.{
  settle_due, session_close, end_agent, settle_position, settle_row, end_reservation, end_order,
  pay, settle_found, settle,
}
use auto_options_call_debit.Scheduler.Logged.{IsLogged, logged}
use auto_options_call_debit.Scheduler.Market.Logged.{expire_order-IsLogged}

module _ (m : Market) where
  pay-IsLogged : (t : ℕ) (p : Position) (value : Decimal) → IsLogged (pay m t p value)
  unfolding pay
  pay-IsLogged t p value = search logged

  settle_row-IsLogged :
      (t : ℕ) (p : Position) (value : Option Decimal) (a b c : Option ℕ)
      → IsLogged (settle_row m t p value a b c)
  unfolding settle_row settle
  settle_row-IsLogged t p none a b c = search logged
  settle_row-IsLogged t p (some value) none b c = search logged
  settle_row-IsLogged t p (some value) (some a) none c = search logged
  settle_row-IsLogged t p (some value) (some a) (some b) none = search logged
  settle_row-IsLogged t p (some value) (some a) (some b) (some c) = search (logged, pay-IsLogged)

  settle_found-IsLogged :
      (t : ℕ) (p : Position) (row : Option SettlementRow) → IsLogged (settle_found m t p row)
  unfolding settle_found
  settle_found-IsLogged t p none = search logged
  settle_found-IsLogged t p (some row) = search (settle_row-IsLogged)

  settle_position-IsLogged : (day t : ℕ) (p : Position) → IsLogged (settle_position m day t p)
  unfolding settle_position
  settle_position-IsLogged day t p = search (logged, settle_found-IsLogged)

  pub settle_due-IsLogged : (day t : ℕ) → IsLogged (settle_due m day t)
  unfolding settle_due
  settle_due-IsLogged day t = search (logged, settle_position-IsLogged)

  end_order-IsLogged : (t : ℕ) (o : Order) → IsLogged (end_order m t o)
  unfolding end_order
  end_order-IsLogged t o = search (logged, expire_order-IsLogged)

  end_agent-IsLogged : (t k : ℕ) (a : Option Agent) → IsLogged (end_agent m t k a)
  unfolding end_agent
  end_agent-IsLogged t k none = search logged
  end_agent-IsLogged t k (some a) = search logged

  end_reservation-IsLogged : (t : ℕ) (r : Reservation) → IsLogged (end_reservation m t r)
  unfolding end_reservation
  end_reservation-IsLogged t r = search (logged, end_agent-IsLogged)

  pub session_close-IsLogged : (t : ℕ) → IsLogged (session_close m t)
  unfolding session_close
  session_close-IsLogged t = search (logged, end_order-IsLogged, end_reservation-IsLogged)
