-- ===== src/Domain/State.antt =====
-- The aggregates of a run (domain/state.py).
use auto_options_call_debit.Common.{ℤ, ℕ, Bool, true, false, Option}
use auto_options_call_debit.Domain.Contract.{Direction, CreditSpread}

pub data OrderIntent : Type 0 where
  open_order close_order : OrderIntent

pub data OrderStatus : Type 0 where
  pending order_filled order_expired order_cancelled order_rejected : OrderStatus

pub record Order : Type 0 where
  pub order_id : ℕ
  pub agent_id : ℕ
  pub spread : CreditSpread
  pub intent : OrderIntent
  pub limit_points : ℤ
  pub submitted_at_utc : ℕ
  pub first_eligible_at_utc : ℕ
  pub status : OrderStatus

pub data PositionStatus : Type 0 where
  still_open was_closed was_settled : PositionStatus

pub record Position : Type 0 where
  pub position_id : ℕ
  pub agent_id : ℕ
  pub spread : CreditSpread
  pub entry_credit_points : ℤ
  pub entry_fees_usd : ℤ
  pub entry_at_utc : ℕ
  pub entry_ny_date : ℕ
  pub reserve_usd : ℤ
  pub status : PositionStatus

pub data ReservationStatus : Type 0 where
  res_seeking res_pending res_filled res_released res_expired : ReservationStatus

pub record Reservation : Type 0 where
  pub reservation_id : ℕ
  pub agent_id : ℕ
  pub direction : Direction
  pub reserve_usd : ℤ
  pub created_at_utc : ℕ
  pub expires_at_utc : ℕ
  pub status : ReservationStatus

pub data AgentState : Type 0 where
  created seeking_entry entry_pending open_state exit_pending : AgentState
  closed settled expired_state cancelled archived : AgentState

pub data Role : Type 0 where
  spread_role manager_role : Role

pub record Agent : Type 0 where
  pub agent_id : ℕ
  pub role : Role
  pub direction : Option Direction
  pub state : AgentState
  pub created_at_utc : ℕ
  pub next_review_at_utc : ℕ
  pub reservation_id : Option ℕ
  pub position_id : Option ℕ

-- `status is OrderStatus.PENDING`
abbrev pub is_pending : OrderStatus → Bool
is_pending pending = true
is_pending _ = false

-- `status is PositionStatus.OPEN`
abbrev pub is_open : PositionStatus → Bool
is_open still_open = true
is_open _ = false

-- `status in (SEEKING_ENTRY, ENTRY_PENDING)`
abbrev pub is_live : ReservationStatus → Bool
is_live res_seeking = true
is_live res_pending = true
is_live _ = false

abbrev pub is_seeking : ReservationStatus → Bool
is_seeking res_seeking = true
is_seeking _ = false

abbrev pub is_entry_pending : ReservationStatus → Bool
is_entry_pending res_pending = true
is_entry_pending _ = false

-- `state in {ARCHIVED, EXPIRED, CANCELLED}`
abbrev pub is_terminal : AgentState → Bool
is_terminal archived = true
is_terminal expired_state = true
is_terminal cancelled = true
is_terminal _ = false

abbrev pub is_searching : AgentState → Bool
is_searching seeking_entry = true
is_searching entry_pending = true
is_searching _ = false
