-- ===== src/Ledger/Event.antt =====
-- Events and the state that they are folded into (domain/state.py, engine/ledger.py).
use auto_options_call_debit.Common.{ℤ, ℕ, String, Bool, not, Option, List}
use auto_options_call_debit.Common.Dict.{Dict, values}
use auto_options_call_debit.Common.Lists.{keep}
use auto_options_call_debit.Domain.Contract.{Direction}
use auto_options_call_debit.Domain.State.{
  is_open, is_terminal, OrderIntent, OrderStatus, Order, PositionStatus, Position,
  ReservationStatus, Reservation, AgentState, Agent,
}
use auto_options_call_debit.Accounting.{AccountSnapshot}
use auto_options_call_debit.Ledger.Payload.{SpreadPayload}

-- The type of an event with the part of its payload that `fold` reads.
pub data Body : Type 0 where
  reservation_held : (reservation_id agent_id : ℕ) → Direction → ℤ → (created expires : ℕ) → Body
  reservation_status : ℕ → ReservationStatus → Body
  reservation_released : ℕ → ReservationStatus → Body
  agent_created : Agent → Body
  -- the last two are the optional keys `reservation_id` and `position_id`
  agent_state : ℕ → AgentState → (next_review : ℕ) → (reservation position : Option ℕ) → Body
  order_submitted :
      (order_id agent_id : ℕ) → SpreadPayload → OrderIntent → ℤ → (submitted eligible : ℕ) → Body
  order_resolved : ℕ → OrderStatus → Body
  position_opened :
      (position_id agent_id : ℕ)
      → SpreadPayload
      → (credit fees : ℤ) → (at day : ℕ) → (reserve : ℤ) → Body
  position_closed : ℕ → (debit fees : ℤ) → PositionStatus → Body
  position_settled : ℕ → (liability fees : ℤ) → PositionStatus → Body
  manager_paused manager_resumed : Body
  -- a type that `fold` passes over, such as VALUATION_RECORDED
  other : String → Body

pub record Event : Type 0 where
  pub run_id : ℕ
  pub seq : ℕ
  pub sim_time_utc : ℕ
  pub phase : String
  pub body : Body

pub record EngineState : Type 0 where
  pub run_id : ℕ
  pub account : AccountSnapshot
  pub agents : Dict Agent
  pub positions : Dict Position
  pub orders : Dict Order
  pub reservations : Dict Reservation
  pub paused : Bool
  pub seq : ℕ

unfoldable pub live_agents : EngineState → List Agent
live_agents s = keep (λ a. not (is_terminal a.state)) (values s.agents)

unfoldable pub open_positions : EngineState → List Position
open_positions s = keep (λ p. is_open p.status) (values s.positions)
