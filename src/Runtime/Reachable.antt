-- ===== src/Runtime/Reachable.antt =====
-- The stores that a fresh store leads to.
use auto_options_call_debit.Common.{◌≢◌, Option, none, List}
use auto_options_call_debit.Common.Outcome.{>>=-eq-ok, ok}
use auto_options_call_debit.Runtime.{money, require_run, AttemptRow, Decimal}
use auto_options_call_debit.Common.{
  ℕ, ◌+◌, ◌≤◌, ◌≡◌, refl, sym, ap, ◌∙◌, true, false, some, [], arith,
}
use auto_options_call_debit.Store.{Hashing}
use auto_options_call_debit.Knowledge.Observations.{empty_ledger}
use auto_options_call_debit.Runtime.{find_row, run_key, RunRow, Tables, Json}
use auto_options_call_debit.Runtime.Attempts.{
  committed_usd, reserved_usd_of, has_overrun, start_attempt, may_start,
}
use auto_options_call_debit.Runtime.Barriers.{Barriers}
use auto_options_call_debit.Runtime.Spending.{totals-spent, Fits}
use auto_options_call_debit.Runtime.Steps.{
  cap_of, cap_in, Yields-returned, persist_cursor-SameMoney, prepare_decision-SameMoney,
  accept_decision-SameMoney, prepare_barrier-SameMoney, begin_run-SameMoney,
  append_run_batch-SameMoney, commit_barrier-SameMoney, Step, begun, cursor_kept, appended,
  barrier_prepared, barrier_committed, decision_prepared, attempt_started, attempt_completed,
  attempt_reconciled, decision_accepted,
}
use auto_options_call_debit.Runtime.Budgeted.{
  Budgeted, Goes, SameMoney-Goes, start_attempt-Goes, reconcile_attempt-Goes, complete_attempt-Goes,
  started_under,
}

unfoldable pub empty_tables : (P J : Type 0) → Tables P J
empty_tables P J = record {
  runs = [];
  decisions = [];
  attempts = [];
  barriers = [];
  journal = [];
  events = [];
  observations = empty_ledger J;
  outbox = [];
}

Fits-at :
    {J : Type 0} (o : Option ℕ) (limit run : ℕ) (attempts : List (AttemptRow J))
    → o ≡ some limit
    → Fits o run attempts
    → Fits (some limit) run attempts
Fits-at none limit run attempts same fits = cc
Fits-at (some n) limit run attempts same fits = let equal : n ≡ limit = cc in rw (sym equal) fits

module _ {P J : Type 0} (hashing : Hashing P) (json : Json J) (barriers : Barriers P J) where
  -- Any number of operations that return; one that raises leaves the store as it was.
  pub data Leads (s : Tables P J) : Tables P J → Type 0 where
    stay : Leads s s
    further : (t u : Tables P J) → Leads s t → Step hashing json barriers t u → Leads s u

  step-Goes : (s t : Tables P J) → Step hashing json barriers s t → Budgeted s → Goes s t
  step-Goes _ _ (begun s t run manifest row h) good =
      SameMoney-Goes s t
        (Yields-returned _ _ row t (begin_run-SameMoney hashing json barriers run manifest s) h)
        good
  step-Goes _ _ (cursor_kept s t run cursor status pause h) good =
      SameMoney-Goes s t
        (Yields-returned _ _ tt t
          (persist_cursor-SameMoney hashing json barriers run cursor status pause s) h)
        good
  step-Goes _ _ (appended s t events out expected h) good =
      SameMoney-Goes s t
        (Yields-returned _ _ out t
          (append_run_batch-SameMoney hashing json barriers events expected s) h)
        good
  step-Goes _ _ (barrier_prepared s t run barrier expected requests cursor h) good =
      SameMoney-Goes s t
        (Yields-returned _ _ tt t
          (prepare_barrier-SameMoney hashing json barriers run barrier expected requests cursor s)
          h)
        good
  step-Goes _ _ (barrier_committed s t run barrier expected events out cursor recs outbox obs h)
        good =
      SameMoney-Goes s t
        (Yields-returned _ _ out t
          (commit_barrier-SameMoney hashing json barriers run barrier expected events cursor recs
            outbox obs s)
          h)
        good
  step-Goes _ _ (decision_prepared s t run decision request row h) good =
      SameMoney-Goes s t
        (Yields-returned _ _ row t
          (prepare_decision-SameMoney hashing json barriers run decision request s) h)
        good
  step-Goes _ _ (attempt_started s t run decision attempt reserved budget request row h) good =
      Yields-returned _ _ row t
        (start_attempt-Goes json run decision attempt reserved budget request s good) h
  step-Goes _ _ (attempt_completed s t run attempt response actual outcome error_code row settled h)
        good =
      Yields-returned _ _ row t
        (complete_attempt-Goes json run attempt response actual outcome error_code s settled good) h
  step-Goes _ _ (attempt_reconciled s t run attempt actual blank row h) good =
      Yields-returned _ _ row t (reconcile_attempt-Goes run attempt actual blank s good) h
  step-Goes _ _ (decision_accepted s t run decision result attempt row h) good =
      SameMoney-Goes s t
        (Yields-returned _ _ row t
          (accept_decision-SameMoney hashing json barriers run decision result attempt s) h)
        good

  empty-Budgeted : Budgeted (empty_tables P J)
  unfolding Budgeted empty_tables
  empty-Budgeted = (λ run. refl, tt)

  Leads-Budgeted : (s t : Tables P J) → Leads s t → Budgeted s → Budgeted t
  unfolding Goes
  Leads-Budgeted s _ stay good = good
  Leads-Budgeted s _ (further t u before step) good =
      (step-Goes t u step (Leads-Budgeted s t before good)).0

  Leads-overrun :
      (s t : Tables P J) (run : ℕ)
      → Leads s t
      → Budgeted s
      → has_overrun run s.attempts ≡ true
      → has_overrun run t.attempts ≡ true
  unfolding Goes
  Leads-overrun s _ run stay good over = over
  Leads-overrun s _ run (further t u before step) good over =
      (step-Goes t u step (Leads-Budgeted s t before good)).1 run
        (Leads-overrun s t run before good over)

  row_cap :
      (t : Tables P J) (run limit : ℕ) (row : RunRow J)
      → Budgeted t
      → find_row (run_key run) t.runs ≡ some row
      → row.budget_cap ≡ some limit
      → has_overrun run t.attempts ≡ false
      → committed_usd run t.attempts + reserved_usd_of run t.attempts ≤ limit
  unfolding Budgeted
  row_cap t run limit row (fits, _) found held kept =
      let capped : cap_in t.runs run ≡ some limit = ap cap_of found ∙ held in
      let under : Fits (some limit) run t.attempts =
        Fits-at (cap_in t.runs run) limit run t.attempts capped (fits run) in
      omega (arith, totals-spent run t.attempts, under kept)

  -- In every store that operations lead to from an empty one, what the attempts of a run have cost and
  -- what is reserved for those without a known cost are together within the run's cap, unless an
  -- attempt cost more than was reserved for it; no completion among the operations has the outcome
  -- DISPATCH_RESERVED.
  pub Leads-WithinCap :
      (t : Tables P J) (run limit : ℕ) (row : RunRow J)
      → Leads (empty_tables P J) t
      → find_row (run_key run) t.runs ≡ some row
      → row.budget_cap ≡ some limit
      → has_overrun run t.attempts ≡ false
      → committed_usd run t.attempts + reserved_usd_of run t.attempts ≤ limit
  Leads-WithinCap t run limit row leads found held kept =
      row_cap t run limit row (Leads-Budgeted (empty_tables P J) t leads empty-Budgeted) found held
        kept

  start-no_overrun :
      (run decision attempt : ℕ) (reserved budget : Decimal) (request : Option J) (t u : Tables P J)
      (row : AttemptRow J)
      → start_attempt json run decision attempt reserved budget request t ≡ ok (row, u)
      → has_overrun run t.attempts ≡ false
  unfolding start_attempt
  start-no_overrun run decision attempt reserved budget request t u row returned =
      let (reserve, _, r1) = >>=-eq-ok (money reserved) _ returned in
      let (limit, _, r2) = >>=-eq-ok (money budget) _ r1 in
      let (run_row, _, r3) = >>=-eq-ok (require_run run t) _ r2 in
      let (_, passed, _) =
        >>=-eq-ok (may_start json run decision attempt reserve limit request t run_row) _ r3 in
      (started_under json run decision attempt reserve limit request t run_row passed).0

  -- Once an attempt of a run has cost more than was reserved for it, no operations make the run start
  -- another attempt, where no completion among the operations has the outcome DISPATCH_RESERVED.
  pub overrun_stops :
      (s t u : Tables P J) (run decision attempt : ℕ) (reserved budget : Decimal)
      (request : Option J) (row : AttemptRow J)
      → Leads (empty_tables P J) s
      → has_overrun run s.attempts ≡ true
      → Leads s t
      → start_attempt json run decision attempt reserved budget request t ≢ ok (row, u)
  overrun_stops s t u run decision attempt reserved budget request row leads over later =
      λ returned.
        let still : has_overrun run t.attempts ≡ true =
          Leads-overrun s t run later (Leads-Budgeted (empty_tables P J) s leads empty-Budgeted)
            over in
        let kept : has_overrun run t.attempts ≡ false =
          start-no_overrun run decision attempt reserved budget request t u row returned in
        cc
