-- ===== src/Pipeline/Attempts.antt =====
-- What one call of the model and the check of its proposal do to the number of attempts (agents/graphs.py).
use auto_options_call_debit.Pipeline.Graph.{judge_parsed}
use auto_options_call_debit.Common.{
  ℤ, pos, ◌+◌, ◌≤◌, String, ◌≡◌, refl, ◌≢◌, ◌⊎◌, inl, inr, Bool, true, false, not, Option, none,
  some, arith, if◌then◌else◌,
}
use auto_options_call_debit.Common.Outcome.{
  Result, domain_error, ledger_error, model_error, harness_error, calendar_error, rejection,
  data_pause, key_error, no_fuel, err, ok,
}
use auto_options_call_debit.Knowledge.Proposals.{ProposalJson, Witness}
use auto_options_call_debit.Knowledge.Proposals.Ends.{validate-Ends}
use auto_options_call_debit.Knowledge.Atoms.Terminates.{Ends, ends}
use auto_options_call_debit.Budget.{reserve_amount, Budget}
use auto_options_call_debit.Pipeline.{
  taped_decision, is_empty_text, ModelRequest, ModelResponse, Reply, Hooks, TapeRecord, Deps, World,
  DecisionRun, replied, failed,
}
use auto_options_call_debit.Pipeline.Call.{
  price_of, code_of, failed_call, paid, answered, after_reply, gateway_call, after_reserve,
  reserved_call, next_request, after_pricing, dispatch, call_or_recall, call_model,
}
use auto_options_call_debit.Pipeline.Graph.{judge, refuse, judged, check_response, validate_run}
use auto_options_call_debit.Common.{ℕ}

-- The run can be retried only after one more attempt than `before`, and at most `most` calls are made.
unfoldable pub Moves : ℕ → ℕ → DecisionRun × World → Type 0
Moves before most (s, w) =
    ((is_empty_text s.error ≡ true) ⊎ (s.fatal ≡ true) ⊎ (s.attempts ≡ before + 1))
    × (w.calls ≤ most)

failed_call-Moves :
    (r : ℤ) (code : String) (uncertain : Bool) (s : DecisionRun) (w : World) (most : ℕ)
    → w.calls ≤ most
    → Moves s.attempts most (failed_call r code uncertain s w)
unfolding Moves failed_call
failed_call-Moves r code uncertain s w most few = (inr (inr refl), few)

answered-Moves :
    (hooks : Hooks) (req : ModelRequest) (r : ℤ) (resp : ModelResponse) (b : Option Budget)
    (s : DecisionRun) (w : World) (most : ℕ)
    → w.calls ≤ most
    → Moves s.attempts most (answered hooks req r resp b s, w)
unfolding Moves answered
answered-Moves hooks req r resp b s w most few = (ground arith, few)

after_reply-Moves :
    (deps : Deps) (req : ModelRequest) (r : ℤ) (reply : Reply) (s : DecisionRun) (w : World)
    (most : ℕ)
    → w.calls ≤ most
    → Moves s.attempts most (after_reply deps req r reply s w)
unfolding after_reply
after_reply-Moves deps req r (failed code uncertain) s w most few =
    failed_call-Moves r code uncertain s w most few
after_reply-Moves deps req r (replied resp) s w most few =
    answered-Moves deps.hooks req r resp (paid r resp w.budget) s
      (record w { budget = paid r resp w.budget }) most few

gateway_call-Moves :
    (deps : Deps) (req : ModelRequest) (r : ℤ) (s : DecisionRun) (w : World) (most : ℕ)
    → w.calls + 1 ≤ most
    → Moves s.attempts most (gateway_call deps req r s w)
unfolding gateway_call
gateway_call-Moves deps req r s w most few =
    after_reply-Moves deps req r (deps.hooks.complete w.calls req) s
      (record w { calls = w.calls + 1 }) most few

after_reserve-Moves :
    (deps : Deps) (req : ModelRequest) (r : ℤ) (hold : Result ℤ × Budget) (s : DecisionRun)
    (w : World) (most : ℕ)
    → w.calls + 1 ≤ most
    → Moves s.attempts most (after_reserve deps req r hold s w)
unfolding after_reserve
after_reserve-Moves deps req r (err e, held) s w most few =
    failed_call-Moves r (code_of e) false s (record w { budget = some held }) most
      (omega (arith, few))
after_reserve-Moves deps req r (ok _, held) s w most few =
    gateway_call-Moves deps req r s (record w { budget = some held }) most few

reserved_call-Moves :
    (deps : Deps) (req : ModelRequest) (r : ℤ) (b : Option Budget) (s : DecisionRun) (w : World)
    (most : ℕ)
    → w.calls + 1 ≤ most
    → Moves s.attempts most (reserved_call deps req r b s w)
unfolding reserved_call
reserved_call-Moves deps req r none s w most few = gateway_call-Moves deps req r s w most few
reserved_call-Moves deps req r (some b) s w most few =
    after_reserve-Moves deps req r (reserve_amount r b) s w most few

after_pricing-Moves :
    (deps : Deps) (req : ModelRequest) (price : Result ℤ) (s : DecisionRun) (w : World) (most : ℕ)
    → w.calls + 1 ≤ most
    → Moves s.attempts most (after_pricing deps req price s w)
unfolding after_pricing
after_pricing-Moves deps req (err e) s w most few =
    failed_call-Moves (pos 0) (code_of e) false s w most (omega (arith, few))
after_pricing-Moves deps req (ok r) s w most few =
    reserved_call-Moves deps req r w.budget s w most few

dispatch-Moves :
    (deps : Deps) (s : DecisionRun) (w : World) (most : ℕ)
    → w.calls + 1 ≤ most
    → Moves s.attempts most (dispatch deps s w)
unfolding dispatch
dispatch-Moves deps s w most few =
    after_pricing-Moves deps (next_request s) (price_of deps (next_request s) w.budget) s w most few

call_or_recall-Moves :
    (taped : Option TapeRecord) (deps : Deps) (s : DecisionRun) (w : World)
    → Moves s.attempts (w.calls + 1) (call_or_recall taped deps s w)
unfolding call_or_recall Moves
call_or_recall-Moves (some rec) deps s w = (inl refl, omega arith)
call_or_recall-Moves none deps s w = dispatch-Moves deps s w (w.calls + 1) (omega arith)

pub call_model-Moves :
    (deps : Deps) (s : DecisionRun) (w : World)
    → Moves s.attempts (w.calls + 1) (call_model deps s w)
unfolding call_model
call_model-Moves deps s w = call_or_recall-Moves (taped_decision s.decision_id w.tape) deps s w

-- What a validated run is, with its calls
unfoldable pub Checked : ℕ → ℕ → Result (DecisionRun × World) → Type 0
Checked before most (err e) = e ≢ no_fuel
Checked before most (ok done) = Moves before most done

judge_parsed-Ends :
    (deps : Deps) (s : DecisionRun) (parsed : Option ProposalJson)
    → Ends (judge_parsed deps s parsed)
unfolding judge_parsed
judge_parsed-Ends deps s none = search ends
judge_parsed-Ends deps s (some parsed) = validate-Ends deps.secrets parsed s.compiled

judge-Ends : (deps : Deps) (s : DecisionRun) (resp : ModelResponse) → Ends (judge deps s resp)
unfolding judge
judge-Ends deps s resp = search (ends, judge_parsed-Ends)

key_error-Checked : (before most : ℕ) → Checked before most (err key_error)
unfolding Checked
key_error-Checked before most = λ same. cc

kept-Checked :
    (before most : ℕ) (done : DecisionRun × World)
    → Moves before most done
    → Checked before most (ok done)
unfolding Checked
kept-Checked before most done moves = moves

pub few_calls :
    (before most : ℕ) (done : DecisionRun × World) → Moves before most done → done.1.calls ≤ most
unfolding Moves
few_calls before most (s, w) moves = moves.1

judged-Checked :
    (deps : Deps) (s : DecisionRun) (resp : ModelResponse) (w : World) (verdict : Result Witness)
    (before most : ℕ)
    → w.calls ≤ most
    → Ends verdict
    → Checked before most (judged deps s resp w verdict)
unfolding judged Checked Moves Ends refuse
judged-Checked deps s resp w (ok witness) before most few ends_well = (inl refl, few)
judged-Checked deps s resp w (err (harness_error code)) before most few ends_well =
    (inr (inl refl), few)
judged-Checked deps s resp w (err (domain_error code)) before most few ends_well = λ same. cc
judged-Checked deps s resp w (err (ledger_error code)) before most few ends_well = λ same. cc
judged-Checked deps s resp w (err (model_error code)) before most few ends_well = λ same. cc
judged-Checked deps s resp w (err (calendar_error code)) before most few ends_well = λ same. cc
judged-Checked deps s resp w (err (rejection code)) before most few ends_well = λ same. cc
judged-Checked deps s resp w (err (data_pause code)) before most few ends_well = λ same. cc
judged-Checked deps s resp w (err key_error) before most few ends_well = λ same. cc
judged-Checked deps s resp w (err no_fuel) before most few ends_well = λ same. ends_well refl

check_response-Checked :
    (resp : Option ModelResponse) (deps : Deps) (s : DecisionRun) (w : World) (before most : ℕ)
    → w.calls ≤ most
    → Checked before most (check_response resp deps s w)
unfolding check_response
check_response-Checked none deps s w before most few = key_error-Checked before most
check_response-Checked (some resp) deps s w before most few =
    judged-Checked deps s resp w (judge deps s resp) before most few (judge-Ends deps s resp)

if-Checked :
    (before most : ℕ) (b : Bool) (c d : Result (DecisionRun × World))
    → Checked before most c
    → Checked before most d
    → Checked before most (if b then c else d)
if-Checked before most true c d first second = first
if-Checked before most false c d first second = second

pub validate_run-Checked :
    (deps : Deps) (s : DecisionRun) (w : World) (before most : ℕ)
    → Moves before most (s, w)
    → Checked before most (validate_run deps s w)
unfolding validate_run
validate_run-Checked deps s w before most moves =
    if-Checked before most (not (is_empty_text s.error)) _ _ (kept-Checked before most (s, w) moves)
      (check_response-Checked s.response deps s w before most (few_calls before most (s, w) moves))
