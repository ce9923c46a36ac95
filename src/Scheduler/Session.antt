-- ===== src/Scheduler/Session.antt =====
-- The work of the phases of a session (engine/scheduler.py).
pub mod Logged
use auto_options_call_debit.Scheduler.{set_valuation}
use auto_options_call_debit.Scheduler.Valuing.{nothing_valued, valuation_of, value_positions}
use auto_options_call_debit.Common.Lists.{sorted}
use auto_options_call_debit.Common.Action.{pure, lift, gets, guard_not, ◌>>=◌, ◌>>◌}
use auto_options_call_debit.Common.{pos, ltb_ℤ, ℕ, Bool, true, false, not, ◌||◌, leb, if◌then◌else◌}
use auto_options_call_debit.Common.Outcome.{data_pause}
use auto_options_call_debit.Domain.Contract.{CreditSpread}
use auto_options_call_debit.Domain.State.{Position}
use auto_options_call_debit.Ledger.Event.{other, open_positions}
use auto_options_call_debit.Scheduler.{Work, emit, set_manager_due, for_each}
use auto_options_call_debit.Scheduler.Market.{Market}
use auto_options_call_debit.Scheduler.Orders.{resolve_orders}
use auto_options_call_debit.Scheduler.Close.{by_position, settle_due, session_close}

module _ (m : Market) where
  -- `_record_valuation`
  unfoldable pub record_valuation : ℕ → Bool → Work
  record_valuation t allow_unknown = do
    positions ← gets (λ e. sorted by_position (open_positions e.state))
    sums ← lift (value_positions m t allow_unknown positions nothing_valued)
    set_valuation (valuation_of t sums)
    emit t "VALUATION" (other "VALUATION_RECORDED")

  -- `market`, whose last argument is whether this is the first review
  unfoldable pub market_work : ℕ → ℕ → Bool → Work
  market_work day t first_review = do
    resolve_orders m t
    settle_due m day t
    record_valuation t false
    if first_review then set_manager_due else pure tt

  -- `close`, whose last argument is whether this is the last scored session
  unfoldable pub close_work : ℕ → ℕ → Bool → Work
  close_work day t scored = do
    session_close m t
    settle_due m day t
    record_valuation t false
    if scored then emit t "VALUATION" (other "SCORED_END_VALUATION") else pure tt

  -- `settle`
  unfoldable pub settlement_work : ℕ → ℕ → Work
  settlement_work day t = do settle_due m day t; record_valuation t true
