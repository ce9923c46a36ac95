-- ===== src/Runtime/Attempts.antt =====
-- Decisions and the paid attempts to make them (persistence/runtime.py).
use auto_options_call_debit.Common.{
  ℕ, ◌+◌, String, Bool, true, false, not, ◌&&◌, ◌||◌, Option, none, some, List, [], ◌∷◌, str_eq,
  ltb, ◌==◌, if◌then◌else◌, is_some,
}
use auto_options_call_debit.Common.Outcome.{
  ◌>>=◌, ◌>>◌, raise_if, or_raise, Result, ledger_error, key_error, err, ok,
}
use auto_options_call_debit.Common.Lists.{keep}
use auto_options_call_debit.Domain.Money.{Decimal}
use auto_options_call_debit.Runtime.{
  Transaction, money, find_row, decision_key, attempt_key, require_run, put_run, put_decision,
  put_attempt, journaled, is_finished, optional_eq, optional_json_eq, Pause, RunRow, DecisionRow,
  AttemptRow, Tables, Json,
}

unfoldable pub paused_for : String → Option Pause → Bool
paused_for category none = false
paused_for category (some pause) = str_eq pause.category category

unfoldable pub other_cap : Option ℕ → ℕ → Bool
other_cap none limit = false
other_cap (some held) limit = not (held == limit)

unfoldable pub optional_money : Option Decimal → Result (Option ℕ)
optional_money none = ok none
optional_money (some amount) = money amount >>= λ n. ok (some n)

module _ {J : Type 0} where
  -- The sums of `_totals`, over the attempts of a run.
  unfoldable pub committed_usd : ℕ → List (AttemptRow J) → ℕ
  committed_usd run [] = 0
  committed_usd run (a ∷ rest) =
      if a.run_id == run
      then (elim a.actual_usd [ none ↦ 0 | some n ↦ n ]) + committed_usd run rest
      else committed_usd run rest

  unfoldable pub reserved_usd_of : ℕ → List (AttemptRow J) → ℕ
  reserved_usd_of run [] = 0
  reserved_usd_of run (a ∷ rest) =
      if a.run_id == run
      then (elim a.actual_usd [ none ↦ a.reserved_usd | some n ↦ 0 ]) + reserved_usd_of run rest
      else reserved_usd_of run rest

  -- An attempt that cost more than was reserved for it.
  unfoldable pub overran : AttemptRow J → Bool
  overran a = elim a.actual_usd [ none ↦ false | some n ↦ ltb a.reserved_usd n ]

  -- `_has_overrun`
  unfoldable pub has_overrun : ℕ → List (AttemptRow J) → Bool
  unfolding overran
  has_overrun run [] = false
  has_overrun run (a ∷ rest) = if (a.run_id == run) && overran a then true else has_overrun run rest

  -- An attempt of a run, whose cost is not known yet, for a decision or for any
  unfoldable pub unresolved : ℕ → Option ℕ → List (AttemptRow J) → Bool
  unresolved run decision [] = false
  unresolved run decision (a ∷ rest) =
      if (a.run_id == run)
        && ((elim decision [ none ↦ true | some d ↦ a.decision_id == d ])
            && not (is_some a.actual_usd))
      then true
      else unresolved run decision rest

  -- `totals["cap"]`
  unfoldable pub cap_of_row : RunRow J → ℕ
  cap_of_row run = elim run.budget_cap [ none ↦ 0 | some limit ↦ limit ]

  unfoldable pub over_cap : RunRow J → List (AttemptRow J) → Bool
  unfolding cap_of_row committed_usd reserved_usd_of
  over_cap run attempts =
      ltb (cap_of_row run) (committed_usd run.run_id attempts + reserved_usd_of run.run_id attempts)

  unfoldable pub new_attempt : ℕ → ℕ → ℕ → ℕ → Option J → AttemptRow J
  new_attempt run decision attempt reserve request = record {
    run_id = run;
    attempt_id = attempt;
    decision_id = decision;
    reserved_usd = reserve;
    actual_usd = none;
    outcome = "DISPATCH_RESERVED";
    response = none;
    error_code = "";
    request = request;
  }

  -- The row of a completed attempt
  unfoldable pub completed : AttemptRow J → Option J → Option ℕ → String → String → AttemptRow J
  completed row response actual outcome error_code = record row {
    response = response;
    actual_usd = actual;
    outcome = (elim actual [ none ↦ "BILLING_UNCERTAIN" | some n ↦ outcome ]);
    error_code = error_code;
  }

  -- Why a completion pauses the run, if it does
  unfoldable pub pause_code : RunRow J → AttemptRow J → List (AttemptRow J) → Option String
  unfolding overran over_cap
  pause_code run row attempts =
      if not (is_some row.actual_usd)
      then some "BILLING_UNCERTAIN"
      else if over_cap run attempts
      then some "BUDGET_EXCEEDED"
      else if overran row
      then some "BUDGET_OVERRUN"
      else none

  unfoldable pub reconciled_code : RunRow J → List (AttemptRow J) → String
  unfolding over_cap
  reconciled_code run attempts =
      if over_cap run attempts
      then "BUDGET_EXCEEDED"
      else if has_overrun run.run_id attempts
      then "BUDGET_OVERRUN"
      else if unresolved run.run_id none attempts
      then "BILLING_UNCERTAIN"
      else "BILLING_RECONCILED"

  unfoldable pub reconciled : AttemptRow J → ℕ → AttemptRow J
  reconciled row amount = record row {
    actual_usd = some amount;
    outcome = "RECONCILED";
    error_code = "";
  }

  unfoldable pub resolved_for : Option (AttemptRow J) → ℕ → Result (Unit {0})
  resolved_for none decision = err (ledger_error "UNRESOLVED_DECISION_ATTEMPT")
  resolved_for (some a) decision =
      raise_if (not (a.decision_id == decision) || not (is_some a.actual_usd))
        (ledger_error "UNRESOLVED_DECISION_ATTEMPT")

module _ {J : Type 0} (json : Json J) where
  -- An attempt identifier grants one dispatch.
  unfoldable pub prior_attempt : Option (AttemptRow J) → ℕ → ℕ → Option J → Result (Unit {0})
  prior_attempt none decision reserve request = ok tt
  prior_attempt (some prior) decision reserve request =
      if not (prior.decision_id == decision)
        || not (prior.reserved_usd == reserve)
        || not (optional_json_eq json prior.request request)
      then err (ledger_error "ATTEMPT_ID_MISMATCH")
      else err (ledger_error "ATTEMPT_ALREADY_RESERVED")

  -- Whether the fields that a completion sets are as they are wanted
  unfoldable pub same_completion : AttemptRow J → AttemptRow J → Bool
  same_completion row wanted =
      optional_json_eq json row.response wanted.response
      && (optional_eq row.actual_usd wanted.actual_usd
          && (str_eq row.outcome wanted.outcome && str_eq row.error_code wanted.error_code))

module _ {P J : Type 0} where
  -- The response goes into the decision's row.
  unfoldable pub record_response : Option J → DecisionRow J → Tables P J → Tables P J
  record_response none decision s = s
  record_response (some response) decision s =
      put_decision (record decision { response = some response; status = "RESPONSE_RECORDED" }) s

  unfoldable pub pause_run : Option String → RunRow J → Tables P J → Tables P J
  pause_run none run s = s
  pause_run (some code) run s =
      put_run
        (record run {
          status = "PAUSED";
          pause = some (record { category = "BUDGET"; code = code });
        })
        s

  -- The end of `complete_attempt`, once the row is to be changed
  unfoldable pub complete_row :
      ℕ → RunRow J → AttemptRow J → DecisionRow J → Tables P J → AttemptRow J × Tables P J
  unfolding record_response pause_code pause_run
  complete_row run run_row wanted decision s =
      let with_row = put_attempt wanted s in
      let recorded = record_response wanted.response decision with_row in
      (
        wanted,
        journaled run "ATTEMPT_COMPLETED"
            (pause_run (pause_code run_row wanted recorded.attempts) run_row recorded),
      )

  -- The code of a budget pause is set anew.
  unfoldable pub repause : Option Pause → RunRow J → Tables P J → Tables P J
  unfolding reconciled_code
  repause none run s = s
  repause (some pause) run s =
      if str_eq pause.category "BUDGET"
      then put_run
          (record run {
            status = "PAUSED";
            pause = some (record pause { code = reconciled_code run s.attempts });
          })
          s
      else s

  -- `reconcile_attempt`; `blank` says whether the evidence is blank
  unfoldable pub reconcile_attempt : ℕ → ℕ → Decimal → Bool → Transaction P J (AttemptRow J)
  unfolding repause
  reconcile_attempt run attempt actual_usd blank s = do
    amount ← money actual_usd
    raise_if blank (ledger_error "RECONCILIATION_EVIDENCE_REQUIRED")
    run_row ← require_run run s
    row ←
        or_raise (find_row (attempt_key run attempt) s.attempts)
          (ledger_error "ATTEMPT_NOT_UNCERTAIN")
    raise_if (is_some row.actual_usd) (ledger_error "ATTEMPT_NOT_UNCERTAIN")
    let changed = put_attempt (reconciled row amount) s
    ok (
      reconciled row amount,
      journaled run "ATTEMPT_RECONCILED" (repause run_row.pause run_row changed),
    )

  -- `list_attempts`
  unfoldable pub list_attempts : ℕ → ℕ → Tables P J → List (AttemptRow J)
  list_attempts run decision s =
      keep (λ a. (a.run_id == run) && (a.decision_id == decision)) s.attempts

  unfoldable pub attempt_resolved : ℕ → ℕ → Option ℕ → Tables P J → Result (Unit {0})
  unfolding resolved_for
  attempt_resolved run decision none s = ok tt
  attempt_resolved run decision (some attempt) s =
      resolved_for (find_row (attempt_key run attempt) s.attempts) decision

module _ {P J : Type 0} (json : Json J) where
  -- `prepare_decision`
  unfoldable pub prepare_decision : ℕ → ℕ → J → Transaction P J (DecisionRow J)
  prepare_decision run id request s = require_run run s >>= λ _.
      elim (find_row (decision_key run id) s.decisions) [
        | some row ↦
            raise_if (not (row.request_hash == json.record_hash request))
              (ledger_error "DECISION_REQUEST_MISMATCH")
            >> ok (row, s)
        | none ↦
            let row : DecisionRow J = record {
              run_id = run;
              decision_id = id;
              request_hash = json.record_hash request;
              request = request;
              response = none;
              status = "PREPARED";
              result = none;
              accepted_attempt_id = none;
            } in
            ok (row, journaled run "DECISION_PREPARED" (put_decision row s))
      ]

  -- The checks of `start_attempt`, on the rows of the run and of the decision
  unfoldable pub may_start :
      ℕ → ℕ → ℕ → ℕ → ℕ → Option J → Tables P J → RunRow J → Result (Unit {0})
  unfolding prior_attempt paused_for other_cap
  may_start run decision attempt reserve limit request s row = do
    raise_if (is_finished row.status) (ledger_error "TERMINAL_RUN_IMMUTABLE")
    raise_if (paused_for "EPISTEMIC" row.pause) (ledger_error "EPISTEMIC_RUN_PAUSED")
    found ←
        or_raise (find_row (decision_key run decision) s.decisions)
          (ledger_error "DECISION_NOT_PREPARED")
    raise_if (other_cap row.budget_cap limit) (ledger_error "RUN_BUDGET_MISMATCH")
    raise_if (has_overrun run s.attempts) (ledger_error "BUDGET_OVERRUN")
    prior_attempt json (find_row (attempt_key run attempt) s.attempts) decision reserve request
    raise_if (unresolved run (some decision) s.attempts) (ledger_error "BILLING_UNCERTAIN")
    raise_if (str_eq found.status "ACCEPTED") (ledger_error "DECISION_ALREADY_ACCEPTED")
    raise_if (ltb limit (committed_usd run s.attempts + reserved_usd_of run s.attempts + reserve))
        (ledger_error "BUDGET_EXCEEDED")

  -- `start_attempt`
  unfoldable pub start_attempt :
      ℕ → ℕ → ℕ → Decimal → Decimal → Option J → Transaction P J (AttemptRow J)
  start_attempt run decision attempt reserved budget request s = do
    reserve ← money reserved
    limit ← money budget
    row ← require_run run s
    may_start run decision attempt reserve limit request s row
    let new : AttemptRow J = new_attempt run decision attempt reserve request
    ok (
      new,
      journaled run "ATTEMPT_RESERVED"
          (put_attempt new (put_run (record row { budget_cap = some limit }) s)),
    )

  -- `complete_attempt`
  unfoldable pub complete_attempt :
      ℕ → ℕ → Option J → Option Decimal → String → String → Transaction P J (AttemptRow J)
  unfolding optional_money same_completion
  complete_attempt run attempt response actual_usd outcome error_code s = do
    actual ← optional_money actual_usd
    run_row ← require_run run s
    row ←
        or_raise (find_row (attempt_key run attempt) s.attempts)
          (ledger_error "ATTEMPT_NOT_RESERVED")
    let wanted : AttemptRow J = completed row response actual outcome error_code
    if not (str_eq row.outcome "DISPATCH_RESERVED")
        then (raise_if (not (same_completion json row wanted))
              (ledger_error "ATTEMPT_COMPLETION_MISMATCH")
            >> ok (row, s))
        else (or_raise (find_row (decision_key run row.decision_id) s.decisions) key_error
            >>= λ decision. ok (complete_row run run_row wanted decision s))

  -- `accept_decision`
  unfoldable pub accept_decision : ℕ → ℕ → J → Option ℕ → Transaction P J (DecisionRow J)
  unfolding attempt_resolved
  accept_decision run id result attempt s = do
    run_row ← require_run run s
    raise_if (has_overrun run s.attempts) (ledger_error "BUDGET_OVERRUN")
    row ←
        or_raise (find_row (decision_key run id) s.decisions) (ledger_error "DECISION_NOT_PREPARED")
    if str_eq row.status "ACCEPTED"
        then (raise_if
              (not (optional_json_eq json row.result (some result))
                || not (optional_eq row.accepted_attempt_id attempt))
              (ledger_error "DECISION_ACCEPTANCE_MISMATCH")
            >> ok (row, s))
        else (attempt_resolved run id attempt s >>= λ _.
            let accepted : DecisionRow J = record row {
              status = "ACCEPTED";
              result = some result;
              accepted_attempt_id = attempt;
            } in
            ok (accepted, journaled run "DECISION_ACCEPTED" (put_decision accepted s)))
