-- ===== src/Scheduler/Session/Logged.antt =====
-- The phases of a session are logged.
use auto_options_call_debit.Common.{ℕ, Bool}
use auto_options_call_debit.Scheduler.Market.{Market}
use auto_options_call_debit.Scheduler.Session.{
  market_work, close_work, settlement_work, record_valuation,
}
use auto_options_call_debit.Scheduler.Logged.{IsLogged, logged}
use auto_options_call_debit.Scheduler.Orders.Logged.{resolve_orders-IsLogged}
use auto_options_call_debit.Scheduler.Close.Logged.{settle_due-IsLogged, session_close-IsLogged}

module _ (m : Market) where
  record_valuation-IsLogged : (t : ℕ) (allow : Bool) → IsLogged (record_valuation m t allow)
  unfolding record_valuation
  record_valuation-IsLogged t allow = search logged

  pub market_work-IsLogged :
      (day t : ℕ) (first_review : Bool) → IsLogged (market_work m day t first_review)
  unfolding market_work
  market_work-IsLogged day t first_review =
      search (logged, resolve_orders-IsLogged, settle_due-IsLogged, record_valuation-IsLogged)

  pub close_work-IsLogged : (day t : ℕ) (scored : Bool) → IsLogged (close_work m day t scored)
  unfolding close_work
  close_work-IsLogged day t scored =
      search (logged, session_close-IsLogged, settle_due-IsLogged, record_valuation-IsLogged)

  pub settlement_work-IsLogged : (day t : ℕ) → IsLogged (settlement_work m day t)
  unfolding settlement_work
  settlement_work-IsLogged day t = search (logged, settle_due-IsLogged, record_valuation-IsLogged)
