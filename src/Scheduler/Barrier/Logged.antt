-- ===== src/Scheduler/Barrier/Logged.antt =====
-- The committed decisions are logged.
use auto_options_call_debit.Common.{ℕ, String, Bool, not, ◌&&◌, Option, none, some, List}
use auto_options_call_debit.Domain.State.{Role, spread_role, manager_role}
use auto_options_call_debit.Policy.{SpreadView, DecisionContext, Proposal}
use auto_options_call_debit.Scheduler.{Engine}
use auto_options_call_debit.Scheduler.Decisions.{Desk}
use auto_options_call_debit.Scheduler.Barrier.{
  commit_actions, Prepared, record_witness, record_decision, apply_role, modify, commit_one,
  apply_view,
}
use auto_options_call_debit.Scheduler.Logged.{IsLogged, logged}
use auto_options_call_debit.Scheduler.Decisions.Logged.{
  apply_manager-IsLogged, apply_spread-IsLogged,
}

record_witness-IsLogged : (t : ℕ) (present : Bool) → IsLogged (record_witness t present)
unfolding record_witness
record_witness-IsLogged t present = search logged

keep_due-IsLogged :
    (due : Bool)
    → IsLogged (modify (λ (e : Engine). record e { manager_due = e.manager_due && not due }))
unfolding IsLogged
keep_due-IsLogged due base e r = r

module _ (m : Desk) where
  apply_view-IsLogged :
      (t : ℕ) (p : Proposal) (view : Option SpreadView) → IsLogged (apply_view m t p view)
  unfolding apply_view
  apply_view-IsLogged t p none = search logged
  apply_view-IsLogged t p (some view) = apply_spread-IsLogged m view.agent view t p

  apply_role-IsLogged :
      (t : ℕ) (p : Proposal) (ctx : DecisionContext) (role : Role)
      → IsLogged (apply_role m t p ctx role)
  unfolding apply_role
  apply_role-IsLogged t p ctx manager_role = apply_manager-IsLogged m t p
  apply_role-IsLogged t p ctx spread_role = apply_view-IsLogged t p ctx.spread_view

  record_decision-IsLogged :
      (t : ℕ) (p : Prepared) (reason : Option String) → IsLogged (record_decision m t p reason)
  unfolding record_decision
  record_decision-IsLogged t p (some reason) = search (logged, record_witness-IsLogged)
  record_decision-IsLogged t p none = search (logged, record_witness-IsLogged, apply_role-IsLogged)

  commit_one-IsLogged : (t : ℕ) (p : Prepared) → IsLogged (commit_one m t p)
  unfolding commit_one
  commit_one-IsLogged t p = search (logged, record_decision-IsLogged)

  pub commit_actions-IsLogged :
      (t : ℕ) (findings : List ℕ) (due : Bool) (prepared : List Prepared)
      → IsLogged (commit_actions m t findings due prepared)
  unfolding commit_actions
  commit_actions-IsLogged t findings due prepared =
      search (logged, keep_due-IsLogged, commit_one-IsLogged)
