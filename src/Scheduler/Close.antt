-- ===== src/Scheduler/Close.antt =====
-- Settlements, and the end of a session (engine/scheduler.py).
pub mod Logged
use auto_options_call_debit.Common.Lists.{sorted}
use auto_options_call_debit.Common.Action.{pure, raise, lift, gets, guard_not, ◌>>=◌, ◌>>◌}
use auto_options_call_debit.Common.{
  ◌*ℤ◌, ℕ, Bool, not, ◌||◌, Option, none, some, ltb, if◌then◌else◌,
}
use auto_options_call_debit.Common.Outcome.{data_pause}
use auto_options_call_debit.Common.Dict.{lookup, values}
use auto_options_call_debit.Domain.Money.{quantize, Decimal}
use auto_options_call_debit.Domain.Contract.{spread_expiration}
use auto_options_call_debit.Domain.State.{
  is_pending, is_live, is_searching, Order, Position, Reservation, Agent, was_settled, res_expired,
  settled, expired_state,
}
use auto_options_call_debit.Accounting.{available}
use auto_options_call_debit.Settlement.{expiration_liability_points, require_settlement_value}
use auto_options_call_debit.Ledger.Event.{reservation_released, position_settled, open_positions}
use auto_options_call_debit.Scheduler.{Work, emit, set_manager_due, retire_agent, for_each}
use auto_options_call_debit.Scheduler.Market.{expire_order, SettlementRow, Market}

abbrev by_order : Order → Order → Bool
by_order a b = ltb a.order_id b.order_id

abbrev pub by_position : Position → Position → Bool
by_position a b = ltb a.position_id b.position_id

abbrev by_reservation : Reservation → Reservation → Bool
by_reservation a b = ltb a.reservation_id b.reservation_id

module _ (m : Market) where
  -- The settlement of a position, at a value that may turn out bad.
  pay : ℕ → Position → Decimal → Work
  pay t p value = do
    v ← lift (require_settlement_value (some value))
    emit t "SETTLEMENT" (
        position_settled p.position_id (expiration_liability_points p.spread v)
          (quantize (m.settlement_fee *ℤ 2)) was_settled)
    retire_agent p.agent_id t settled
    set_manager_due

  settle : ℕ → Position → ℕ → ℕ → ℕ → Decimal → Work
  unfolding pay
  settle t p available published settled_at value = do
    last ← lift (m.last_trading p)
    guard_not (ltb available published || (ltb available settled_at || ltb settled_at last))
        (data_pause "INVALID_SETTLEMENT_TIME")
    if ltb t available then pure tt else pay t p value

  settle_row : ℕ → Position → Option Decimal → Option ℕ → Option ℕ → Option ℕ → Work
  unfolding settle
  settle_row t p none a b c = raise (data_pause "MISSING_SETTLEMENT_VALUE")
  settle_row t p (some value) (some available) (some published) (some settled_at) =
      settle t p available published settled_at value
  settle_row t p (some value) _ _ _ = raise (data_pause "UNVERIFIED_SETTLEMENT_TIME")

  settle_found : ℕ → Position → Option SettlementRow → Work
  unfolding settle_row
  settle_found t p none = raise (data_pause "MISSING_SETTLEMENT_VALUE")
  settle_found t p (some row) = settle_row t p row.value row.available row.published row.settled

  settle_position : ℕ → ℕ → Position → Work
  unfolding settle_found
  settle_position day t p = if ltb day (spread_expiration p.spread) then pure tt else do
    last ← lift (m.last_trading p)
    if ltb t last then pure tt else settle_found t p (m.settlement_for (spread_expiration p.spread))

  -- `_settle_due`
  unfoldable pub settle_due : ℕ → ℕ → Work
  unfolding settle_position
  settle_due day t = do
    positions ← gets (λ e. sorted by_position (open_positions e.state))
    for_each positions (settle_position day t)

  -- The end of the session, for one order and for one reservation.
  end_order : ℕ → Order → Work
  end_order t o = if is_pending o.status then expire_order m o t else pure tt

  end_agent : ℕ → ℕ → Option Agent → Work
  end_agent t k none = pure tt
  end_agent t k (some a) = if is_searching a.state then retire_agent k t expired_state else pure tt

  end_reservation : ℕ → Reservation → Work
  unfolding end_agent
  end_reservation t r = if not (is_live r.status) then pure tt else do
    emit t "RESERVATION" (reservation_released r.reservation_id res_expired)
    a ← gets (λ e. lookup r.agent_id e.state.agents)
    end_agent t r.agent_id a
    set_manager_due

  -- `_session_close`
  unfoldable pub session_close : ℕ → Work
  unfolding end_order end_reservation
  session_close t = do
    orders ← gets (λ e. sorted by_order (values e.state.orders))
    for_each orders (end_order t)
    reservations ← gets (λ e. sorted by_reservation (values e.state.reservations))
    for_each reservations (end_reservation t)
