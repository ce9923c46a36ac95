-- ===== src/Pipeline/Graph.antt =====
-- The check of a proposal and the loop of the graph (`_validate`, `_route` and `run_decision` of
-- agents/graphs.py).
use auto_options_call_debit.Common.{
  suc, ◌+◌, String, true, not, ◌&&◌, ◌||◌, Option, none, some, List, [], ◌∷◌, ◌++◌, str_eq,
  text_append, leb, ◌==◌, if◌then◌else◌,
}
use auto_options_call_debit.Common.Outcome.{
  ◌>>=◌, Result, harness_error, key_error, no_fuel, err, ok,
}
use auto_options_call_debit.Common.Lists.{among}
use auto_options_call_debit.Knowledge.Observations.{quarantine, next_incident_id, Incident}
use auto_options_call_debit.Knowledge.Proposals.{ProposalJson, validate, Witness}
use auto_options_call_debit.Pipeline.{
  taped_request, is_empty_text, ModelResponse, TapeRecord, Deps, World, DecisionRun,
}
use auto_options_call_debit.Pipeline.Call.{call_model}
use auto_options_call_debit.Common.{ℕ, zero}

-- The code of a proposal that is refused, or the witness of one that is accepted
unfoldable pub judge_parsed : Deps → DecisionRun → Option ProposalJson → Result Witness
judge_parsed deps s none = err (harness_error "SCHEMA")
judge_parsed deps s (some parsed) = validate deps.secrets parsed s.compiled

unfoldable pub judge : Deps → DecisionRun → ModelResponse → Result Witness
unfolding judge_parsed
judge deps s resp =
    if not (resp.request_hash == deps.hooks.request_hash s.request)
      || not (str_eq resp.model_id s.request.model_id)
    then err (harness_error "MODEL_RESPONSE_IDENTITY_MISMATCH")
    else judge_parsed deps s resp.parsed

unfoldable pub incident :
    DecisionRun → ModelResponse → String → World → Incident (Option ProposalJson)
incident s resp code w = record {
  incident_id = next_incident_id w.ledger s.compiled.context.run_id;
  run_id = s.compiled.context.run_id;
  branch_id = s.compiled.context.branch_id;
  actor_id = s.compiled.context.actor_id;
  code = code;
  rejected_payload = resp.parsed;
  at = s.compiled.context.as_of;
}

unfoldable pub refuse : DecisionRun → ModelResponse → String → World → DecisionRun × World
refuse s resp code w = (
  record s { error = text_append "EPISTEMIC:" code; attempts = s.attempts + 1; fatal = true },
  record w { ledger = quarantine (incident s resp code w) w.ledger },
)

-- `tape.append`, of a request that is not on the tape
unfoldable pub recorded_on : Deps → DecisionRun → ModelResponse → List TapeRecord → List TapeRecord
recorded_on deps s resp tape = elim (taped_request (deps.hooks.request_hash s.request) tape) [
  | some rec ↦ tape
  | none ↦
      tape
      ++ record {
        request_hash = deps.hooks.request_hash s.request;
        response = resp;
        decision_id = s.decision_id;
        accepted_request = some s.request;
      }
        ∷ []
]

-- What follows on the judgement; an error that is none of the harness is raised
unfoldable pub judged :
    Deps → DecisionRun → ModelResponse → World → Result Witness → Result (DecisionRun × World)
judged deps s resp w (err (harness_error code)) = ok (refuse s resp code w)
judged deps s resp w (err other) = err other
judged deps s resp w (ok witness) = ok (
  record s { witness = some witness; error = "" },
  record w { tape = recorded_on deps s resp w.tape },
)

unfoldable pub check_response :
    Option ModelResponse → Deps → DecisionRun → World → Result (DecisionRun × World)
check_response none deps s w = err key_error
check_response (some resp) deps s w = judged deps s resp w (judge deps s resp)

-- `_validate`
unfoldable pub validate_run : Deps → DecisionRun → World → Result (DecisionRun × World)
validate_run deps s w =
    if not (is_empty_text s.error) then ok (s, w) else check_response s.response deps s w

pub data Next : Type 0 where
  to_end to_resolve to_call : Next

abbrev pub passing_errors : List String
passing_errors =
    "RATE_LIMIT" ∷ "TRANSPORT" ∷ "TIMEOUT" ∷ "INCOMPLETE" ∷ "REFUSAL" ∷ "SCHEMA" ∷ "PROVIDER_FAILED"
    ∷ []

-- `_route`
unfoldable pub route : Deps → DecisionRun → Next
route deps s =
    if s.fatal
    then to_end
    else if is_empty_text s.error
    then to_resolve
    else if leb s.attempts deps.max_retries && among s.error passing_errors
    then to_call
    else to_end

-- The edges of the graph, up to its end or to `resolve`; `again` is the edge back to the call.
unfoldable pub follow :
    (DecisionRun → World → Result (DecisionRun × World))
    → Next
    → DecisionRun
    → World
    → Result (DecisionRun × World)
follow again to_end s w = ok (s, w)
follow again to_resolve s w = ok (s, w)
follow again to_call s w = again s w

unfoldable pub run_within : ℕ → Deps → DecisionRun → World → Result (DecisionRun × World)
run_within zero deps s w = err no_fuel
run_within (suc fuel) deps s w =
    let (called, after) = call_model deps s w in
    validate_run deps called after >>= λ checked.
    follow (run_within fuel deps) (route deps checked.0) checked.0 checked.1

-- The first call, and one more for each retry, are enough.
unfoldable pub run_graph : Deps → DecisionRun → World → Result (DecisionRun × World)
run_graph deps s w = run_within (suc deps.max_retries) deps s w
