-- ===== src/Scheduler/Barrier.antt =====
-- The decision barrier: proposals are checked against one state, then committed in order
-- (engine/scheduler.py).
pub mod Logged
use auto_options_call_debit.Common.Action.{Action, lift}
use auto_options_call_debit.Common.Outcome.{Result, err, ok}
use auto_options_call_debit.Policy.Validation.{validate_spread_proposal, validate_manager_proposal}
use auto_options_call_debit.Scheduler.{Engine}
use auto_options_call_debit.Scheduler.Decisions.{check_capacity}
use auto_options_call_debit.Common.Action.{pure, gets, ◌>>=◌, ◌>>◌, modify}
use auto_options_call_debit.Common.{
  ℕ, String, Bool, true, false, not, ◌&&◌, Option, none, some, List, ◌==◌, if◌then◌else◌,
}
use auto_options_call_debit.Common.Outcome.{rejection}
use auto_options_call_debit.Common.Dict.{lookup}
use auto_options_call_debit.Domain.State.{
  AgentState, Role, Agent, created, seeking_entry, entry_pending, open_state, exit_pending, closed,
  settled, expired_state, cancelled, archived, spread_role, manager_role,
}
use auto_options_call_debit.Ledger.Event.{EngineState, other}
use auto_options_call_debit.Policy.{number, SpreadView, DecisionContext, Proposal}
use auto_options_call_debit.Scheduler.{Work, emit, for_each}
use auto_options_call_debit.Scheduler.Decisions.{apply_manager, apply_spread, Desk}

-- An entry of `prepared`: the last field is the code of a rejection.
pub record Prepared : Type 0 where
  pub context : DecisionContext
  pub actor_id : ℕ
  pub proposal : Proposal
  pub has_witness : Bool
  pub reason : Option String

abbrev state_number : AgentState → ℕ
state_number created = 0
state_number seeking_entry = 1
state_number entry_pending = 2
state_number open_state = 3
state_number exit_pending = 4
state_number closed = 5
state_number settled = 6
state_number expired_state = 7
state_number cancelled = 8
state_number archived = 9

-- `current is None or previous is None or current.state is not previous.state`
state_changed : Option Agent → Option SpreadView → Bool
state_changed (some current) (some view) =
    not (state_number current.state == state_number view.agent.state)
state_changed _ _ = true

abbrev is_spread : Role → Bool
is_spread spread_role = true
is_spread manager_role = false

-- The reason for a rejection as it stands at the commit.
unfoldable pub reason_now : Prepared → EngineState → Option String
unfolding state_changed
reason_now p s = elim p.reason [
  | some reason ↦ some reason
  | none ↦
      if is_spread p.context.role
        && state_changed (lookup p.actor_id s.agents) p.context.spread_view
      then some "STATE_CHANGED_AT_COMMIT"
      else none
]

record_witness : ℕ → Bool → Work
record_witness t present = if present then emit t "DECISION" (other "DECISION_WITNESS") else pure tt

-- `except Rejection`: the rejection's code; any other exception goes on.
caught : Result (Unit {0}) × Engine → Result (Option String) × Engine
caught (ok u, e) = (ok none, e)
caught (err (rejection code), e) = (ok (some code), e)
caught (err x, e) = (err x, e)

module _ (m : Desk) where
  rule_check : Role → DecisionContext → Proposal → Bool → ℕ → Work
  rule_check manager_role ctx p positive_equity t = do
    lift (validate_manager_proposal ctx p)
    check_capacity m positive_equity p t
  rule_check spread_role ctx p positive_equity t = lift (validate_spread_proposal ctx p)

  -- An entry of `prepared`, for a proposal, whether it has a witness and whether the equity is positive.
  unfoldable pub prepare : DecisionContext → ℕ → Proposal → Bool → Bool → ℕ → Action Engine Prepared
  unfolding caught rule_check
  prepare ctx actor p witness positive_equity t = do
    reason ← (λ e. caught (rule_check ctx.role ctx p positive_equity t e))
    pure (record {
      context = ctx;
      actor_id = actor;
      proposal = p;
      has_witness = witness;
      reason = reason;
    })

  apply_view : ℕ → Proposal → Option SpreadView → Work
  apply_view t p none = pure tt
  apply_view t p (some view) = apply_spread m view.agent view t p

  apply_role : ℕ → Proposal → DecisionContext → Role → Work
  unfolding apply_view
  apply_role t p ctx manager_role = apply_manager m t p
  apply_role t p ctx spread_role = apply_view t p ctx.spread_view

  record_decision : ℕ → Prepared → Option String → Work
  unfolding record_witness apply_role
  record_decision t p (some reason) = do
    record_witness t p.has_witness
    emit t "DECISION" (other "DECISION_REJECTED")
  record_decision t p none = do
    record_witness t p.has_witness
    emit t "DECISION" (other "DECISION_MADE")
    apply_role t p.proposal p.context p.context.role

  commit_one : ℕ → Prepared → Work
  unfolding record_decision
  commit_one t p = do reason ← gets (λ e. reason_now p e.state); record_decision t p reason

  -- `commit_actions`: the number of data findings, whether the manager was due, and `prepared`.
  unfoldable pub commit_actions : ℕ → List ℕ → Bool → List Prepared → Work
  unfolding commit_one
  commit_actions t findings due prepared = do
    for_each findings (λ _. emit t "DATA" (other "DATA_QUALITY_FINDING"))
    modify (λ e. record e { manager_due = e.manager_due && not due })
    for_each prepared (commit_one t)
