-- ===== src/Scheduler/Decisions.antt =====
-- Accepted proposals turned into events (engine/scheduler.py).

pub mod Logged
pub mod Slots
use auto_options_call_debit.Policy.{given, Kind}
use auto_options_call_debit.Common.Action.{Action, pure, gets, need, guard_not, ◌>>=◌, ◌>>◌}
use auto_options_call_debit.Common.{
  ℤ, pos, pos_part, ltb_ℤ, ◌+ℤ◌, ◌-ℤ◌, ◌*ℤ◌, ℕ, zero, suc, ◌+◌, String, Bool, not, ◌||◌, Option,
  none, some, List, [], ◌∷◌, str_eq, ltb, if◌then◌else◌,
}
use auto_options_call_debit.Common.Outcome.{rejection, key_error}
use auto_options_call_debit.Common.Dict.{values}
use auto_options_call_debit.Domain.Contract.{
  width_points, spread_multiplier, Direction, bull_put_credit, bear_call_credit,
}
use auto_options_call_debit.Domain.State.{
  is_live, Position, Reservation, Agent, open_order, close_order, res_pending, res_released,
  seeking_entry, entry_pending, exit_pending, cancelled, spread_role,
}
use auto_options_call_debit.Accounting.{available, reserve_required_usd}
use auto_options_call_debit.Ledger.Event.{
  EngineState, reservation_held, reservation_status, reservation_released, agent_created,
  order_submitted, manager_paused, manager_resumed, other, open_positions,
}
use auto_options_call_debit.Ledger.Payload.{spread_payload}
use auto_options_call_debit.Policy.{
  Counts, number, count, Candidate, LimitTemplate, SpreadView, Proposal, open_spread, close_spread,
  allocate, pause_new, resume_new, retire_slots,
}
use auto_options_call_debit.Scheduler.{
  Work, emit, new_id, agent_state_event, retire_agent, state_item, state_item_or, for_each, Engine,
}

-- What the decisions ask of the profile, the calendar and the archive.
pub record Desk : Type 0 where
  pub next_grid : ℕ → ℕ
  -- the close of the session of that minute's day, or the minute itself
  pub session_close : ℕ → ℕ
  -- the multipliers of the contracts that are visible
  pub multipliers : ℕ → List ℕ
  pub max_width : ℤ
  pub buffer : ℤ
  pub max_aggregate_risk : Option ℤ
  -- whether entries have ended at that minute
  pub after_scored_end : ℕ → Bool
  pub delay : ℕ

-- `max(..., default=100)`
unfoldable pub max_multiplier : List ℕ → ℕ
max_multiplier [] = 100
max_multiplier (x ∷ []) = x
max_multiplier (x ∷ y ∷ xs) = let rest = max_multiplier (y ∷ xs) in if ltb rest x then x else rest

position_risk : List Position → ℤ
position_risk [] = pos 0
position_risk (p ∷ ps) =
    (width_points p.spread -ℤ p.entry_credit_points) *ℤ spread_multiplier p.spread
    +ℤ position_risk ps

reservation_risk : List Reservation → ℤ
reservation_risk [] = pos 0
reservation_risk (r ∷ rs) =
    if is_live r.status then r.reserve_usd +ℤ reservation_risk rs else reservation_risk rs

-- `_committed_risk_usd`
unfoldable pub committed_risk : EngineState → ℤ
unfolding position_risk reservation_risk
committed_risk s = position_risk (open_positions s) +ℤ reservation_risk (values s.reservations)

total : Counts → ℤ
total [] = pos 0
total (entry ∷ rest) = number entry.1 +ℤ total rest

module _ (m : Desk) where
  -- `_reservation_reserve_usd`
  unfoldable pub reservation_reserve : ℕ → ℤ
  unfolding max_multiplier
  reservation_reserve t =
      reserve_required_usd m.max_width (max_multiplier (m.multipliers t)) m.buffer

  within_risk : Option ℤ → ℤ → Work
  within_risk none risk = pure tt
  within_risk (some most) risk =
      guard_not (ltb_ℤ most risk) (rejection "RESERVE_EXCEEDS_RISK_LIMIT")

  capacity_of : Bool → Option Counts → ℕ → Work
  unfolding within_risk total
  capacity_of positive_equity none t = pure tt
  capacity_of positive_equity (some []) t = pure tt
  capacity_of positive_equity (some (entry ∷ entries)) t = do
    guard_not (not positive_equity) (rejection "EQUITY_NOT_POSITIVE")
    risk ← gets (λ e. committed_risk e.state)
    within_risk m.max_aggregate_risk
        (risk +ℤ reservation_reserve t *ℤ pos_part (total (entry ∷ entries)))

  -- `_check_manager_capacity`, given whether the equity is positive.
  unfoldable pub check_capacity : Bool → Proposal → ℕ → Work
  unfolding capacity_of
  check_capacity positive_equity p t = elim p.kind [
    | allocate ↦ capacity_of positive_equity p.allocation t
    | _ ↦ pure tt
  ]

  -- One reservation with its agent.
  unfoldable pub hold_one : ℕ → Direction → ℤ → Work
  hold_one t direction reserve = do
    r ← new_id
    a ← new_id
    emit t "RESERVATION" (reservation_held r a direction reserve t (m.session_close t))
    emit t "AGENT" (
        agent_created (record {
          agent_id = a;
          role = spread_role;
          direction = some direction;
          state = seeking_entry;
          created_at_utc = t;
          next_review_at_utc = m.next_grid t;
          reservation_id = some r;
          position_id = none;
        }))

  -- The inner loop: it breaks off when the cash is short, and returns how many were held.
  unfoldable pub allocate_side : ℕ → Direction → ℤ → ℕ → Action Engine ℕ
  unfolding hold_one
  allocate_side t direction reserve zero = pure 0
  allocate_side t direction reserve (suc n) = do
    short ← gets (λ e. ltb_ℤ (available e.state.account) reserve)
    if short then pure 0 else (do
      hold_one t direction reserve
      k ← allocate_side t direction reserve n
      pure (suc k))

  -- ALLOCATE: the sides in the order of their names, then the shortfall.
  allocate_counts : ℕ → ℤ → Counts → Work
  unfolding allocate_side
  allocate_counts t reserve counts = do
    let bears = pos_part (count counts "bearish")
    let bulls = pos_part (count counts "bullish")
    b ← allocate_side t bear_call_credit reserve bears
    c ← allocate_side t bull_put_credit reserve bulls
    if ltb b bears || ltb c bulls then emit t "DECISION" (other "ALLOCATION_SHORTFALL") else pure tt

  retire_slot : ℕ → ℕ → Work
  retire_slot t k = do
    r ← state_item (λ s. s.reservations) k
    emit t "RESERVATION" (reservation_released k res_released)
    retire_agent r.agent_id t cancelled

  allocation_of : ℕ → Option Counts → Work
  unfolding allocate_counts
  allocation_of t none = pure tt
  allocation_of t (some counts) = allocate_counts t (reservation_reserve t) counts

  manager_kind : ℕ → Proposal → Kind → Work
  unfolding allocation_of retire_slot
  manager_kind t p allocate = allocation_of t p.allocation
  manager_kind t p pause_new = emit t "MANAGER" manager_paused
  manager_kind t p resume_new = emit t "MANAGER" manager_resumed
  manager_kind t p retire_slots = for_each p.retire_reservation_ids (retire_slot t)
  manager_kind t p _ = pure tt

  -- `_apply_manager`
  unfoldable pub apply_manager : ℕ → Proposal → Work
  unfolding manager_kind
  apply_manager t p = manager_kind t p p.kind

  candidate_of : Option String → List Candidate → Option Candidate
  candidate_of none cs = none
  candidate_of (some id) [] = none
  candidate_of (some id) (c ∷ cs) =
      if str_eq c.candidate_id id then some c else candidate_of (some id) cs

  template_of : Option String → List LimitTemplate → Option LimitTemplate
  template_of none ts = none
  template_of (some id) [] = none
  template_of (some id) (x ∷ ts) =
      if str_eq x.template_id id then some x else template_of (some id) ts

  submit_open : ℕ → Agent → SpreadView → Proposal → Work
  unfolding candidate_of template_of
  submit_open t a view p = do
    guard_not (m.after_scored_end t) (rejection "ENTRY_AFTER_SCORED_END")
    c ← need (candidate_of p.candidate_id view.candidates) key_error
    x ← need (template_of p.limit_template_id view.entry_limit_templates) key_error
    k ← new_id
    emit t "ORDER" (
        order_submitted k a.agent_id (spread_payload c.spread) open_order x.limit_points t
          (t + m.delay))
    r ← state_item_or (λ s. s.reservations) a.reservation_id
    emit t "ORDER" (reservation_status r.reservation_id res_pending)
    agent_state_event a.agent_id entry_pending t (t + m.delay) none

  submit_close : ℕ → Agent → LimitTemplate → Option Position → Work
  submit_close t a x none = pure tt
  submit_close t a x (some q) = do
    k ← new_id
    emit t "ORDER" (
        order_submitted k a.agent_id (spread_payload q.spread) close_order x.limit_points t
          (t + m.delay))
    agent_state_event a.agent_id exit_pending t (t + m.delay) none

  spread_kind : Agent → SpreadView → ℕ → Proposal → Kind → Work
  unfolding submit_open submit_close template_of
  spread_kind a view t p open_spread = submit_open t a view p
  spread_kind a view t p close_spread = do
    x ← need (template_of p.limit_template_id view.exit_limit_templates) key_error
    submit_close t a x view.position
  spread_kind a view t p _ = agent_state_event a.agent_id a.state t (m.next_grid t) none

  -- `_apply_spread`
  unfoldable pub apply_spread : Agent → SpreadView → ℕ → Proposal → Work
  unfolding spread_kind
  apply_spread a view t p = spread_kind a view t p p.kind
