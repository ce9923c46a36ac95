-- ===== src/Scheduler/Market.antt =====
-- Expired orders and fills, and what the phases ask of the rest of the program
-- (engine/scheduler.py).
pub mod Logged
use auto_options_call_debit.Common.Action.{pure, lift, gets, ◌>>=◌, ◌>>◌}
use auto_options_call_debit.Common.{ℤ, ℕ, Option, none, some, if◌then◌else◌}
use auto_options_call_debit.Common.Outcome.{Result}
use auto_options_call_debit.Common.Dict.{Dict, lookup}
use auto_options_call_debit.Domain.Money.{Decimal}
use auto_options_call_debit.Domain.Quote.{Quote}
use auto_options_call_debit.Domain.Contract.{CreditSpread}
use auto_options_call_debit.Domain.State.{
  is_entry_pending, OrderIntent, Order, Position, Reservation, Agent, open_order, close_order,
  order_filled, order_expired, was_closed, res_seeking, res_filled, seeking_entry, open_state,
  closed,
}
use auto_options_call_debit.Ledger.Event.{
  reservation_status, order_resolved, position_opened, position_closed,
}
use auto_options_call_debit.Ledger.Payload.{spread_payload}
use auto_options_call_debit.Scheduler.{
  Work, emit, new_id, set_manager_due, agent_state_event, retire_agent, state_item, state_item_or,
}

-- A row of the archive's settlements.
pub record SettlementRow : Type 0 where
  pub value : Option Decimal
  pub available : Option ℕ
  pub published : Option ℕ
  pub settled : Option ℕ

-- What the phases ask of the profile, the calendar and the archive.
pub record Market : Type 0 where
  -- `_next_grid`, `calendar.ny_date` and `_last_trading_time`
  pub next_grid : ℕ → ℕ
  pub ny_date : ℕ → ℕ
  pub last_trading : Position → Result ℕ
  -- `_pair`: the quotes of the two legs, checked
  pub pair : CreditSpread → ℕ → Result (Quote × Quote)
  -- `archive.settlement_for`, by expiration date
  pub settlement_for : ℕ → Option SettlementRow
  pub opening_fee : ℤ
  pub closing_fee : ℤ
  pub settlement_fee : ℤ
  pub max_risk : Option ℤ

-- `d.get(k or "")`
reservation_of : Option ℕ → Dict Reservation → Option Reservation
reservation_of none d = none
reservation_of (some k) d = lookup k d

module _ (m : Market) where
  -- The reservation of an entry goes back to seeking, if it is pending.
  unpend : ℕ → Option Reservation → Work
  unpend t none = pure tt
  unpend t (some r) =
      if is_entry_pending r.status
      then emit t "ORDER" (reservation_status r.reservation_id res_seeking)
      else pure tt

  expire_agent : Order → ℕ → Agent → OrderIntent → Work
  unfolding unpend reservation_of
  expire_agent o t agent open_order = do
    r ← gets (λ e. reservation_of agent.reservation_id e.state.reservations)
    unpend t r
    agent_state_event o.agent_id seeking_entry t (m.next_grid t) none
  expire_agent o t agent close_order =
      agent_state_event o.agent_id open_state t (m.next_grid t) none

  -- `_expire_order`
  unfoldable pub expire_order : Order → ℕ → Work
  unfolding expire_agent
  expire_order o t = do
    emit t "ORDER" (order_resolved o.order_id order_expired)
    agent ← state_item (λ s. s.agents) o.agent_id
    expire_agent o t agent o.intent

  fill_agent : Order → ℤ → ℤ → ℕ → Agent → OrderIntent → Work
  fill_agent o price fees t agent open_order = do
    r ← state_item_or (λ s. s.reservations) agent.reservation_id
    k ← new_id
    emit t "ORDER" (reservation_status r.reservation_id res_filled)
    emit t "POSITION" (
        position_opened k agent.agent_id (spread_payload o.spread) price fees t (m.ny_date t)
          r.reserve_usd)
    agent_state_event o.agent_id open_state t (m.next_grid t) (some k)
  fill_agent o price fees t agent close_order = do
    p ← state_item_or (λ s. s.positions) agent.position_id
    emit t "POSITION" (position_closed p.position_id price fees was_closed)
    retire_agent o.agent_id t closed

  -- `_apply_fill`
  unfoldable pub apply_fill : Order → ℤ → ℤ → ℕ → Work
  unfolding fill_agent
  apply_fill o price fees t = do
    quotes ← lift (m.pair o.spread t)
    emit t "ORDER" (order_resolved o.order_id order_filled)
    agent ← state_item (λ s. s.agents) o.agent_id
    fill_agent o price fees t agent o.intent
    set_manager_due
