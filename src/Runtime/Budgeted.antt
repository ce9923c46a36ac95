-- ===== src/Runtime/Budgeted.antt =====
-- The attempts of a run stay under its budget.
use auto_options_call_debit.Runtime.Spending.{still_overrun}
use auto_options_call_debit.Runtime.Attempts.{pause_code, complete_attempt}
use auto_options_call_debit.Runtime.Rows.{find_row-All}
use auto_options_call_debit.Runtime.Steps.{Yields-if}
use auto_options_call_debit.Common.{is_some}
use auto_options_call_debit.Runtime.Attempts.{completed, reconciled, complete_row}
use auto_options_call_debit.Knowledge.Atoms.Known.{raised_none}
use auto_options_call_debit.Common.{not, List}
use auto_options_call_debit.Domain.Money.{Decimal}
use auto_options_call_debit.Runtime.{Pause, DecisionRow}
use auto_options_call_debit.Runtime.Attempts.{
  reconciled_code, pause_run, repause, reconcile_attempt, start_attempt, record_response,
}
use auto_options_call_debit.Runtime.Spending.{put_old-Fits}
use auto_options_call_debit.Runtime.Steps.{put_run-cap, Yields, Yields-bind, Yields-ok}
use auto_options_call_debit.Common.{sym}
use auto_options_call_debit.Runtime.Spending.{spent-put_new}
use auto_options_call_debit.Runtime.Steps.{required_run}
use auto_options_call_debit.Runtime.Attempts.{paused_for, other_cap, prior_attempt}
use auto_options_call_debit.Runtime.Spending.{put_new-Fits}
use auto_options_call_debit.Runtime.Rows.{find_row-true, put_row-All}
use auto_options_call_debit.Common.{
  ℕ, ◌+◌, ◌≤◌, String, ◌≡◌, refl, ap, ◌∙◌, inl, inr, Bool, true, false, Option, none, some, arith,
  str_eq, ltb, ◌==◌, if◌then◌else◌, Bool-cases,
}
use auto_options_call_debit.Common.Outcome.{raise_if, or_raise, >>=-eq-ok, ledger_error, ok}
use auto_options_call_debit.Common.Lists.{All}
use auto_options_call_debit.Runtime.{
  find_row, put_row, run_key, decision_key, attempt_key, require_run, put_run, put_attempt,
  journaled, is_finished, RunRow, AttemptRow, Tables, Json,
}
use auto_options_call_debit.Runtime.Attempts.{
  committed_usd, reserved_usd_of, has_overrun, unresolved, new_attempt, may_start,
}
use auto_options_call_debit.Runtime.Rows.{find_run-put}
use auto_options_call_debit.Runtime.Spending.{spent, totals-spent, Fits}
use auto_options_call_debit.Runtime.Steps.{cap_of, cap_in, SameMoney}

-- An attempt that is only reserved has no cost yet.
abbrev pub Tentative : {J : Type 0} → AttemptRow J → Type 0
Tentative a = str_eq a.outcome "DISPATCH_RESERVED" ≡ true → a.actual_usd ≡ none

passed_test : (b : Bool) (code : String) → raise_if b (ledger_error code) ≡ ok tt → b ≡ false
passed_test b code passed = ground (arith, passed)

passed_cap :
    (limit n : ℕ) → raise_if (ltb limit n) (ledger_error "BUDGET_EXCEEDED") ≡ ok tt → n ≤ limit
passed_cap limit n passed = ground (arith, passed)

not_known :
    (o : Option ℕ) → raise_if (is_some o) (ledger_error "ATTEMPT_NOT_UNCERTAIN") ≡ ok tt → o ≡ none
not_known none uncertain = refl
not_known (some n) uncertain = cc

settled_completed :
    (actual : Option ℕ) (outcome : String)
    → str_eq outcome "DISPATCH_RESERVED" ≡ false
    → str_eq (elim actual [ none ↦ "BILLING_UNCERTAIN" | some n ↦ outcome ]) "DISPATCH_RESERVED"
      ≡ true
    → actual ≡ none
settled_completed none outcome settled reserved = refl
settled_completed (some n) outcome settled reserved = cc

own_weight : (run n reserve : ℕ) → n + (if run == run then reserve else 0) ≡ n + reserve
own_weight run n reserve = ground arith

module _ {P J : Type 0} where
  unfoldable pub Budgeted : Tables P J → Type 0
  Budgeted s = ((run : ℕ) → Fits (cap_in s.runs run) run s.attempts) × All Tentative s.attempts

  SameMoney-Budgeted : (s t : Tables P J) → SameMoney s t → Budgeted s → Budgeted t
  unfolding SameMoney Budgeted
  SameMoney-Budgeted s t (attempts, caps) (fits, tentative) =
      (λ run. rw (caps run, attempts) (fits run), rw attempts tentative)

  -- The store stays under its budgets, and an overrun stays one.
  unfoldable pub Goes : Tables P J → Tables P J → Type 0
  Goes s t =
      Budgeted t
      × ((run : ℕ) → has_overrun run s.attempts ≡ true → has_overrun run t.attempts ≡ true)

  Goes-refl : (s : Tables P J) → Budgeted s → Goes s s
  unfolding Goes
  Goes-refl s good = (good, λ run over. over)

  pub SameMoney-Goes : (s t : Tables P J) → SameMoney s t → Budgeted s → Goes s t
  unfolding SameMoney Goes
  SameMoney-Goes s t same good = (
    SameMoney-Budgeted s t same good,
    λ run over. ap (λ (attempts : List (AttemptRow J)). has_overrun run attempts) same.0 ∙ over,
  )

  capped :
      (s : Tables P J) (row : RunRow J) (limit r : ℕ)
      → cap_in (put_row (run_key row.run_id) (record row { budget_cap = some limit }) s.runs) r
        ≡ (if row.run_id == r then some limit else cap_in s.runs r)
  capped s row limit r = elim (Bool-cases (row.run_id == r)) [
    | inl mine ↦
        ap cap_of (find_run-put r (record row { budget_cap = some limit }) s.runs) ∙ rw mine refl
    | inr other ↦
        ap cap_of (find_run-put r (record row { budget_cap = some limit }) s.runs) ∙ rw other refl
  ]

module _ {J : Type 0} (json : Json J) where
  no_prior :
      (o : Option (AttemptRow J)) (decision reserve : ℕ) (request : Option J)
      → prior_attempt json o decision reserve request ≡ ok tt
      → o ≡ none
  unfolding prior_attempt
  no_prior none decision reserve request passed = refl
  no_prior (some a) decision reserve request passed = ground (arith, passed)

module _ {P J : Type 0} (json : Json J) where
  -- What the checks before an attempt say.
  pub started_under :
      (run decision attempt reserve limit : ℕ) (request : Option J) (s : Tables P J)
      (row : RunRow J)
      → may_start json run decision attempt reserve limit request s row ≡ ok tt
      → (has_overrun run s.attempts ≡ false)
        × (find_row (attempt_key run attempt) s.attempts ≡ none)
        × (spent run s.attempts + reserve ≤ limit)
  unfolding may_start
  started_under run decision attempt reserve limit request s row passed =
      let (_, _, r1) =
        >>=-eq-ok (raise_if (is_finished row.status) (ledger_error "TERMINAL_RUN_IMMUTABLE")) _
          passed in
      let (_, _, r2) =
        >>=-eq-ok
          (raise_if (paused_for "EPISTEMIC" row.pause) (ledger_error "EPISTEMIC_RUN_PAUSED")) _
          r1 in
      let (found, _, r3) =
        >>=-eq-ok
          (or_raise (find_row (decision_key run decision) s.decisions)
            (ledger_error "DECISION_NOT_PREPARED"))
          _ r2 in
      let (_, _, r4) =
        >>=-eq-ok (raise_if (other_cap row.budget_cap limit) (ledger_error "RUN_BUDGET_MISMATCH")) _
          r3 in
      let (_, kept, r5) =
        >>=-eq-ok (raise_if (has_overrun run s.attempts) (ledger_error "BUDGET_OVERRUN")) _ r4 in
      let (_, fresh, r6) =
        >>=-eq-ok
          (prior_attempt json (find_row (attempt_key run attempt) s.attempts) decision reserve
            request)
          _ r5 in
      let (_, _, r7) =
        >>=-eq-ok
          (raise_if (unresolved run (some decision) s.attempts) (ledger_error "BILLING_UNCERTAIN"))
          _ r6 in
      let (_, _, r8) =
        >>=-eq-ok
          (raise_if (str_eq found.status "ACCEPTED") (ledger_error "DECISION_ALREADY_ACCEPTED")) _
          r7 in
      (
        passed_test (has_overrun run s.attempts) "BUDGET_OVERRUN" kept,
        no_prior json (find_row (attempt_key run attempt) s.attempts) decision reserve request
            fresh,
        omega (
          arith,
          totals-spent run s.attempts,
          passed_cap limit (committed_usd run s.attempts + reserved_usd_of run s.attempts + reserve)
              r8,
        ),
      )

  start-Budgeted :
      (run decision attempt reserve limit : ℕ) (request : Option J) (s : Tables P J)
      (row : RunRow J)
      → require_run run s ≡ ok row
      → may_start json run decision attempt reserve limit request s row ≡ ok tt
      → Budgeted s
      → Budgeted (
          journaled run "ATTEMPT_RESERVED" (
            put_attempt
              (new_attempt run decision attempt reserve request)
              (put_run (record row { budget_cap = some limit }) s)))
  unfolding Budgeted new_attempt
  start-Budgeted run decision attempt reserve limit request s row required passed
        (fits, tentative) =
      let (kept, fresh, under) =
        started_under run decision attempt reserve limit request s row passed in
      let new : AttemptRow J = new_attempt run decision attempt reserve request in
      (
        λ r. elim (Bool-cases (row.run_id == r)) [
          | inl mine ↦
              let own : row.run_id == run ≡ true =
                find_row-true (run_key run) s.runs row (required_run run s row required) in
              let is_r : run ≡ r = ground (arith, own, mine) in
              rw (capped s row limit r, mine)
                (λ later.
                  let (more, _) = spent-put_new r run attempt new s.attempts fresh refl in
                  let all : spent r (put_row (attempt_key run attempt) new s.attempts)
                      ≡ spent r s.attempts + reserve =
                    more ∙ rw (sym is_r) (own_weight run (spent run s.attempts) reserve) in
                  let same : spent run s.attempts ≡ spent r s.attempts =
                    ap (λ (k : ℕ). spent k s.attempts) is_r in
                  omega (arith, all, same, under))
          | inr other ↦
              let own : row.run_id == run ≡ true =
                find_row-true (run_key run) s.runs row (required_run run s row required) in
              let elsewhere : run == r ≡ false = ground (arith, own, other) in
              rw (capped s row limit r, other)
                (put_new-Fits (cap_in s.runs r) r run attempt new s.attempts fresh refl elsewhere
                  (fits r))
        ],
        put_row-All Tentative (attempt_key run attempt) new s.attempts (λ _. refl) tentative,
      )

  start-Goes :
      (run decision attempt reserve limit : ℕ) (request : Option J) (s : Tables P J)
      (row : RunRow J)
      → require_run run s ≡ ok row
      → may_start json run decision attempt reserve limit request s row ≡ ok tt
      → Budgeted s
      → Goes s (
          journaled run "ATTEMPT_RESERVED" (
            put_attempt
              (new_attempt run decision attempt reserve request)
              (put_run (record row { budget_cap = some limit }) s)))
  unfolding Goes new_attempt
  start-Goes run decision attempt reserve limit request s row required passed good =
      let (_, fresh, _) = started_under run decision attempt reserve limit request s row passed in
      (
        start-Budgeted run decision attempt reserve limit request s row required passed good,
        λ r over.
            (spent-put_new r run attempt (new_attempt run decision attempt reserve request)
              s.attempts fresh refl).1
            ∙ over,
      )

  pub start_attempt-Goes :
      (run decision attempt : ℕ) (reserved budget : Decimal) (request : Option J) (s : Tables P J)
      → Budgeted s
      → Yields (Goes s) (start_attempt json run decision attempt reserved budget request s)
  unfolding start_attempt
  start_attempt-Goes run decision attempt reserved budget request s good =
      search (Yields-bind, Yields-ok, start-Goes, good) depth 20

module _ {P J : Type 0} where
  -- An attempt whose cost was not known is replaced by one of the same run and reservation.
  replaced-Budgeted :
      (s t : Tables P J) (run attempt : ℕ) (old new : AttemptRow J)
      → find_row (attempt_key run attempt) s.attempts ≡ some old
      → old.actual_usd ≡ none
      → new.run_id ≡ old.run_id
      → new.attempt_id ≡ old.attempt_id
      → new.reserved_usd ≡ old.reserved_usd
      → Tentative new
      → t.attempts ≡ put_row (attempt_key new.run_id new.attempt_id) new s.attempts
      → ((r : ℕ) → cap_in t.runs r ≡ cap_in s.runs r)
      → Budgeted s
      → Budgeted t
  unfolding Budgeted
  replaced-Budgeted s t run attempt old new found unknown same_run same_id same_reserve settled
        changed caps (fits, tentative) =
      let is_old : attempt_key run attempt old ≡ true =
        find_row-true (attempt_key run attempt) s.attempts old found in
      let is_run : new.run_id ≡ run = ground (arith, is_old, same_run) in
      let is_attempt : new.attempt_id ≡ attempt = ground (arith, is_old, same_id) in
      let found_new : find_row (attempt_key new.run_id new.attempt_id) s.attempts ≡ some old =
        rw (is_run, is_attempt) found in
      (
        λ r.
            rw (caps r, changed)
              (put_old-Fits (cap_in s.runs r) r new.run_id new.attempt_id new old s.attempts
                found_new unknown same_run same_reserve (fits r)),
        rw changed (
            put_row-All Tentative (attempt_key new.run_id new.attempt_id) new s.attempts settled
              tentative),
      )

  replaced-Goes :
      (s t : Tables P J) (run attempt : ℕ) (old new : AttemptRow J)
      → find_row (attempt_key run attempt) s.attempts ≡ some old
      → old.actual_usd ≡ none
      → new.run_id ≡ old.run_id
      → new.attempt_id ≡ old.attempt_id
      → new.reserved_usd ≡ old.reserved_usd
      → Tentative new
      → t.attempts ≡ put_row (attempt_key new.run_id new.attempt_id) new s.attempts
      → ((r : ℕ) → cap_in t.runs r ≡ cap_in s.runs r)
      → Budgeted s
      → Goes s t
  unfolding Goes
  replaced-Goes s t run attempt old new found unknown same_run same_id same_reserve settled changed
        caps good =
      let is_old : attempt_key run attempt old ≡ true =
        find_row-true (attempt_key run attempt) s.attempts old found in
      let is_run : new.run_id ≡ run = ground (arith, is_old, same_run) in
      let is_attempt : new.attempt_id ≡ attempt = ground (arith, is_old, same_id) in
      let found_new : find_row (attempt_key new.run_id new.attempt_id) s.attempts ≡ some old =
        rw (is_run, is_attempt) found in
      (
        replaced-Budgeted s t run attempt old new found unknown same_run same_id same_reserve
            settled changed caps good,
        λ r over.
            rw changed
              (still_overrun r new.run_id new.attempt_id new old s.attempts found_new unknown over),
      )

  run_put_cap :
      (s t : Tables P J) (run : ℕ) (row new : RunRow J)
      → require_run run s ≡ ok row
      → t.runs ≡ s.runs
      → new.run_id ≡ row.run_id
      → new.budget_cap ≡ row.budget_cap
      → (r : ℕ) → cap_in (put_row (run_key new.run_id) new t.runs) r ≡ cap_in s.runs r
  run_put_cap s t run row new required same same_id same_cap r =
      ap (λ (runs : List (RunRow J)). cap_in (put_row (run_key new.run_id) new runs) r) same
      ∙ put_run-cap s.runs run row new (required_run run s row required) same_id same_cap r

  same_runs_cap : (s t : Tables P J) → t.runs ≡ s.runs → (r : ℕ) → cap_in t.runs r ≡ cap_in s.runs r
  same_runs_cap s t same r = ap (λ (runs : List (RunRow J)). cap_in runs r) same

  paused_caps :
      (s t : Tables P J) (run : ℕ) (row : RunRow J) (code : Option String)
      → require_run run s ≡ ok row
      → t.runs ≡ s.runs
      → ((pause_run code row t).attempts ≡ t.attempts)
        × ((r : ℕ) → cap_in (pause_run code row t).runs r ≡ cap_in s.runs r)
  unfolding pause_run
  paused_caps s t run row none required same = (refl, same_runs_cap s t same)
  paused_caps s t run row (some code) required same = (
    refl,
    run_put_cap s t run row
        (record row {
          status = "PAUSED";
          pause = some (record { category = "BUDGET"; code = code });
        })
        required same refl refl,
  )

  recorded_same :
      (response : Option J) (decision : DecisionRow J) (t : Tables P J)
      → ((record_response response decision t).attempts ≡ t.attempts)
        × ((record_response response decision t).runs ≡ t.runs)
  unfolding record_response
  recorded_same none decision t = (refl, refl)
  recorded_same (some response) decision t = (refl, refl)

  repaused_caps :
      (s t : Tables P J) (run : ℕ) (row : RunRow J) (pause : Option Pause)
      → require_run run s ≡ ok row
      → t.runs ≡ s.runs
      → ((repause pause row t).attempts ≡ t.attempts)
        × ((r : ℕ) → cap_in (repause pause row t).runs r ≡ cap_in s.runs r)
  unfolding repause
  repaused_caps s t run row none required same = (refl, same_runs_cap s t same)
  repaused_caps s t run row (some pause) required same =
      elim (Bool-cases (str_eq pause.category "BUDGET")) [
        | inr other ↦ rw other (refl, same_runs_cap s t same)
        | inl budget ↦ rw budget (
          refl,
          run_put_cap s t run row
              (record row {
                status = "PAUSED";
                pause = some (record pause { code = reconciled_code row t.attempts });
              })
              required same refl refl,
        )
      ]

  reconciled-Goes :
      (run attempt amount : ℕ) (s : Tables P J) (run_row : RunRow J) (row : AttemptRow J)
      → require_run run s ≡ ok run_row
      → or_raise
          (find_row (attempt_key run attempt) s.attempts)
          (ledger_error "ATTEMPT_NOT_UNCERTAIN")
        ≡ ok row
      → raise_if (is_some row.actual_usd) (ledger_error "ATTEMPT_NOT_UNCERTAIN") ≡ ok tt
      → Budgeted s
      → Goes s (
          journaled run "ATTEMPT_RECONCILED"
            (repause run_row.pause run_row (put_attempt (reconciled row amount) s)))
  unfolding reconciled
  reconciled-Goes run attempt amount s run_row row required found uncertain good =
      let changed : Tables P J = put_attempt (reconciled row amount) s in
      let (attempts, caps) = repaused_caps s changed run run_row run_row.pause required refl in
      replaced-Goes s _ run attempt row (reconciled row amount)
        (raised_none (find_row (attempt_key run attempt) s.attempts)
          (ledger_error "ATTEMPT_NOT_UNCERTAIN") found)
        (not_known row.actual_usd uncertain) refl refl refl (λ reserved. cc) attempts caps good

  pub reconcile_attempt-Goes :
      (run attempt : ℕ) (actual : Decimal) (blank : Bool) (s : Tables P J)
      → Budgeted s
      → Yields (Goes s) (reconcile_attempt run attempt actual blank s)
  unfolding reconcile_attempt
  reconcile_attempt-Goes run attempt actual blank s good =
      search (Yields-bind, Yields-ok, reconciled-Goes, good) depth 20

  still_open :
      (s : Tables P J) (run attempt : ℕ) (row : AttemptRow J)
      → Budgeted s
      → find_row (attempt_key run attempt) s.attempts ≡ some row
      → str_eq row.outcome "DISPATCH_RESERVED" ≡ true
      → row.actual_usd ≡ none
  unfolding Budgeted
  still_open s run attempt row (fits, tentative) found reserved =
      find_row-All Tentative (attempt_key run attempt) s.attempts row found tentative reserved

  complete_row-Goes :
      (run attempt : ℕ) (s : Tables P J) (run_row : RunRow J) (row : AttemptRow J)
      (decision : DecisionRow J) (response : Option J) (actual : Option ℕ)
      (outcome error_code : String)
      → require_run run s ≡ ok run_row
      → or_raise
          (find_row (attempt_key run attempt) s.attempts)
          (ledger_error "ATTEMPT_NOT_RESERVED")
        ≡ ok row
      → not (str_eq row.outcome "DISPATCH_RESERVED") ≡ false
      → str_eq outcome "DISPATCH_RESERVED" ≡ false
      → Budgeted s
      → Goes s
          (complete_row run run_row (completed row response actual outcome error_code) decision s).1
  unfolding complete_row completed
  complete_row-Goes run attempt s run_row row decision response actual outcome error_code required
        found reserved settled good =
      let wanted : AttemptRow J = completed row response actual outcome error_code in
      let with_row : Tables P J = put_attempt wanted s in
      let recorded : Tables P J = record_response response decision with_row in
      let (same_attempts, same_runs) = recorded_same response decision with_row in
      let (attempts, caps) =
        paused_caps s recorded run run_row (pause_code run_row wanted recorded.attempts) required
          same_runs in
      let there : find_row (attempt_key run attempt) s.attempts ≡ some row =
        raised_none (find_row (attempt_key run attempt) s.attempts)
          (ledger_error "ATTEMPT_NOT_RESERVED") found in
      replaced-Goes s _ run attempt row wanted there
        (still_open s run attempt row good there (ground (arith, reserved))) refl refl refl
        (settled_completed actual outcome settled) (attempts ∙ same_attempts) caps good

  pub complete_attempt-Goes :
      (json : Json J) (run attempt : ℕ) (response : Option J) (actual_usd : Option Decimal)
      (outcome error_code : String) (s : Tables P J)
      → str_eq outcome "DISPATCH_RESERVED" ≡ false
      → Budgeted s
      → Yields (Goes s) (complete_attempt json run attempt response actual_usd outcome error_code s)
  unfolding complete_attempt
  complete_attempt-Goes json run attempt response actual_usd outcome error_code s settled good =
      search (Yields-bind, Yields-ok, Yields-if, complete_row-Goes, Goes-refl, good, settled) depth
        20
