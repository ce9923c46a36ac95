-- ===== src/Runtime/Tests.antt =====
-- A run whose second attempt costs more than was reserved for it.
use auto_options_call_debit.Common.{
  pos, ℕ, ◌+◌, ◌≤◌, ◌≡◌, refl, ◌≢◌, true, false, none, some, [], ◌∷◌, ◌==◌,
}
use auto_options_call_debit.Common.Outcome.{ok}
use auto_options_call_debit.Domain.Money.{finite}
use auto_options_call_debit.Store.{tip_from, log_of, tip, Hashing}
use auto_options_call_debit.Knowledge.Observations.{empty_ledger}
use auto_options_call_debit.Runtime.{
  money, require_run, optional_eq, RunRow, DecisionRow, AttemptRow, Tables, Json, unnamed,
}
use auto_options_call_debit.Runtime.Attempts.{
  paused_for, other_cap, optional_money, committed_usd, reserved_usd_of, overran, has_overrun,
  unresolved, cap_of_row, over_cap, new_attempt, completed, pause_code, prior_attempt, pause_run,
  complete_row, prepare_decision, may_start, start_attempt, complete_attempt, record_response,
}
use auto_options_call_debit.Runtime.Barriers.{new_run, begin_run, Barriers}
use auto_options_call_debit.Runtime.Steps.{
  begun, decision_prepared, attempt_started, attempt_completed,
}
use auto_options_call_debit.Runtime.Reachable.{
  empty_tables, Leads-WithinCap, overrun_stops, Leads, stay, further,
}

abbrev plain_json : Json ℕ
plain_json = record {
  json_eq = λ a b. a == b;
  record_hash = λ a. a;
  format_version = λ a. some 2;
  ledger_position = λ a. unnamed;
  nothing = 0;
}

abbrev plain_hashing : Hashing ℕ
plain_hashing = record { payload_digest = λ p. p; envelope_digest = λ e. e.seq }

abbrev plain_barriers : Barriers ℕ ℕ
plain_barriers = record { batch_digest = λ e c r o x. 0; payload_status = λ p. none }

abbrev prepared_run : RunRow ℕ
prepared_run = new_run plain_json 1 40

abbrev prepared_decision : DecisionRow ℕ
prepared_decision = record {
  run_id = 1;
  decision_id = 5;
  request_hash = 41;
  request = 41;
  response = none;
  status = "PREPARED";
  result = none;
  accepted_attempt_id = none;
}

abbrev reserved_attempt : ℕ → ℕ → AttemptRow ℕ
reserved_attempt id amount = record {
  run_id = 1;
  attempt_id = id;
  decision_id = 5;
  reserved_usd = amount;
  actual_usd = none;
  outcome = "DISPATCH_RESERVED";
  response = none;
  error_code = "";
  request = some 42;
}

abbrev failed_attempt : AttemptRow ℕ
failed_attempt = record (reserved_attempt 6 30) {
  actual_usd = some 50;
  outcome = "FAILED";
  error_code = "TIMEOUT";
}

abbrev at_first : Tables ℕ ℕ
at_first = record {
  runs = [];
  decisions = [];
  attempts = [];
  barriers = [];
  journal = [];
  events = [];
  observations = empty_ledger ℕ;
  outbox = [];
}

abbrev with_run : Tables ℕ ℕ
with_run = record at_first { runs = prepared_run ∷ []; journal = (1, "RUN_PREPARED") ∷ [] }

abbrev with_decision : Tables ℕ ℕ
with_decision = record with_run {
  decisions = prepared_decision ∷ [];
  journal = (1, "RUN_PREPARED") ∷ (1, "DECISION_PREPARED") ∷ [];
}

abbrev with_attempt : Tables ℕ ℕ
with_attempt = record with_decision {
  runs = record prepared_run { budget_cap = some 100 } ∷ [];
  attempts = reserved_attempt 6 30 ∷ [];
  journal = (1, "RUN_PREPARED") ∷ (1, "DECISION_PREPARED") ∷ (1, "ATTEMPT_RESERVED") ∷ [];
}

abbrev with_overrun : Tables ℕ ℕ
with_overrun = record with_attempt {
  runs =
      record prepared_run {
        budget_cap = some 100;
        status = "PAUSED";
        pause = some (record { category = "BUDGET"; code = "BUDGET_OVERRUN" });
      }
      ∷ [];
  attempts = failed_attempt ∷ [];
  journal =
      (1, "RUN_PREPARED")
      ∷ (1, "DECISION_PREPARED")
      ∷ (1, "ATTEMPT_RESERVED")
      ∷ (1, "ATTEMPT_COMPLETED")
      ∷ [];
}

run_begins :
    begin_run plain_hashing plain_json plain_barriers 1 40 (empty_tables ℕ ℕ)
    ≡ ok (prepared_run, with_run)
unfolding begin_run empty_tables optional_eq tip log_of tip_from
run_begins = refl

decision_prepares :
    prepare_decision plain_json 1 5 41 with_run ≡ ok (prepared_decision, with_decision)
unfolding prepare_decision require_run
decision_prepares = refl

attempt_starts :
    start_attempt plain_json 1 5 6 (finite (pos 30)) (finite (pos 100)) (some 42) with_decision
    ≡ ok (reserved_attempt 6 30, with_attempt)
unfolding start_attempt money require_run may_start prior_attempt paused_for other_cap has_overrun
    unresolved committed_usd reserved_usd_of new_attempt
attempt_starts = refl

attempt_fails :
    complete_attempt plain_json 1 6 none (some (finite (pos 50))) "FAILED" "TIMEOUT" with_attempt
    ≡ ok (failed_attempt, with_overrun)
unfolding complete_attempt optional_money money require_run completed complete_row record_response
    pause_code pause_run over_cap cap_of_row committed_usd reserved_usd_of overran
attempt_fails = refl

to_attempt : Leads plain_hashing plain_json plain_barriers (empty_tables ℕ ℕ) with_attempt
to_attempt =
    further with_decision with_attempt
      (further with_run with_decision
        (further (empty_tables ℕ ℕ) with_run stay
          (begun (empty_tables ℕ ℕ) with_run 1 40 prepared_run run_begins))
        (decision_prepared with_run with_decision 1 5 41 prepared_decision decision_prepares))
      (attempt_started with_decision with_attempt 1 5 6 (finite (pos 30)) (finite (pos 100))
        (some 42) (reserved_attempt 6 30) attempt_starts)

to_overrun : Leads plain_hashing plain_json plain_barriers (empty_tables ℕ ℕ) with_overrun
to_overrun = further with_attempt with_overrun to_attempt (
    attempt_completed with_attempt with_overrun 1 6 none (some (finite (pos 50))) "FAILED" "TIMEOUT"
      failed_attempt refl attempt_fails)

not_over : has_overrun 1 with_attempt.attempts ≡ false
unfolding has_overrun overran
not_over = refl

over_now : has_overrun 1 with_overrun.attempts ≡ true
unfolding has_overrun overran
over_now = refl

Leads-WithinCap_example :
    committed_usd 1 with_attempt.attempts + reserved_usd_of 1 with_attempt.attempts ≤ 100
Leads-WithinCap_example =
    Leads-WithinCap plain_hashing plain_json plain_barriers with_attempt 1 100
      (record prepared_run { budget_cap = some 100 }) to_attempt refl refl not_over

overrun_stops_example :
    start_attempt plain_json 1 5 7 (finite (pos 10)) (finite (pos 100)) (some 42) with_overrun
    ≢ ok (reserved_attempt 7 10, with_overrun)
overrun_stops_example =
    overrun_stops plain_hashing plain_json plain_barriers with_overrun with_overrun with_overrun 1 5
      7 (finite (pos 10)) (finite (pos 100)) (some 42) (reserved_attempt 7 10) to_overrun over_now
      stay
