-- ===== src/Pipeline/Call.antt =====
-- The call of the model (`_call_model` of agents/graphs.py).
use auto_options_call_debit.Common.{
  ℤ, pos, ltb_ℤ, eqb_ℤ, ◌+◌, String, Bool, true, false, not, ◌||◌, Option, none, some, List, [],
  ◌∷◌, str_eq, ◌==◌, if◌then◌else◌,
}
use auto_options_call_debit.Common.Outcome.{◌>>=◌, or_raise, Error, Result, model_error, err, ok}
use auto_options_call_debit.Common.Lists.{among}
use auto_options_call_debit.Knowledge.Packet.{find_text}
use auto_options_call_debit.Budget.{bound, reserve_amount, commit, abort, Budget}
use auto_options_call_debit.Pipeline.{
  taped_decision, is_empty_text, ModelRequest, ModelResponse, Reply, Hooks, TapeRecord, Deps, World,
  DecisionRun, replied, failed,
}

-- What is reserved for a call: nothing without a budget
unfoldable pub price_of : Deps → ModelRequest → Option Budget → Result ℤ
price_of deps req none = ok (pos 0)
price_of deps req (some b) = do
  sheet ← or_raise (find_text req.model_id deps.sheets) (model_error "PRICE_MODEL_MISMATCH")
  n ← bound sheet (record {
    model_id = req.model_id;
    max_output_tokens = req.max_output_tokens;
    body_length = deps.hooks.body_length req;
  })
  ok (pos n)

unfoldable pub code_of : Error → String
code_of (model_error code) = code
code_of _ = ""

abbrev pub fatal_codes : List String
fatal_codes =
    "BUDGET_EXCEEDED" ∷ "PRICE_MODEL_MISMATCH" ∷ "INVALID_BUDGET" ∷ "ATTEMPT_ALREADY_RESERVED" ∷ []

-- `if deps.budget is not None and reservation and not uncertain: abort`
unfoldable pub give_up : ℤ → Bool → Option Budget → Option Budget
give_up reservation uncertain none = none
give_up reservation uncertain (some b) =
    if eqb_ℤ reservation (pos 0) || uncertain then some b else some (abort reservation b)

-- The `except` branch
unfoldable pub failed_call : ℤ → String → Bool → DecisionRun → World → DecisionRun × World
failed_call reservation code uncertain s w = (
  record s {
    error = (if uncertain then "BILLING_UNCERTAIN" else code);
    attempts = s.attempts + 1;
    fatal = uncertain || among code fatal_codes;
  },
  record w { budget = give_up reservation uncertain w.budget },
)

unfoldable pub paid : ℤ → ModelResponse → Option Budget → Option Budget
paid reservation resp none = none
paid reservation resp (some b) =
    if resp.billing_uncertain then some b else some (commit reservation resp.cost_usd b)

unfoldable pub over_budget : ℤ → ModelResponse → Option Budget → Bool
over_budget reservation resp none = false
over_budget reservation resp (some b) = ltb_ℤ reservation resp.cost_usd || b.overrun

-- What an answer makes of the run
unfoldable pub answered :
    Hooks → ModelRequest → ℤ → ModelResponse → Option Budget → DecisionRun → DecisionRun
answered hooks req reservation resp budget s =
    if resp.billing_uncertain
    then record s {
      error = (if is_empty_text resp.error_code then "BILLING_UNCERTAIN" else resp.error_code);
      fatal = true;
      attempts = s.attempts + 1;
    }
    else if not (resp.request_hash == hooks.request_hash req)
        || not (str_eq resp.model_id req.model_id)
    then record s { error = "EPISTEMIC:MODEL_RESPONSE_IDENTITY_MISMATCH"; fatal = true }
    else if over_budget reservation resp budget
    then record s { error = "BUDGET_OVERRUN"; fatal = true; attempts = s.attempts + 1 }
    else record s {
      response = some resp;
      request = req;
      error = resp.error_code;
      attempts = (if is_empty_text resp.error_code then s.attempts else s.attempts + 1);
      fatal = false;
    }

-- What follows on the gateway's reply
unfoldable pub after_reply :
    Deps → ModelRequest → ℤ → Reply → DecisionRun → World → DecisionRun × World
after_reply deps req reservation (failed code uncertain) s w =
    failed_call reservation code uncertain s w
after_reply deps req reservation (replied resp) s w =
    let left : Option Budget = paid reservation resp w.budget in
    (answered deps.hooks req reservation resp left s, record w { budget = left })

unfoldable pub gateway_call : Deps → ModelRequest → ℤ → DecisionRun → World → DecisionRun × World
gateway_call deps req reservation s w =
    after_reply deps req reservation (deps.hooks.complete w.calls req) s
      (record w { calls = w.calls + 1 })

-- What follows on `reserve_amount`: the call if it returns
unfoldable pub after_reserve :
    Deps → ModelRequest → ℤ → Result ℤ × Budget → DecisionRun → World → DecisionRun × World
after_reserve deps req reservation (err e, held) s w =
    failed_call reservation (code_of e) false s (record w { budget = some held })
after_reserve deps req reservation (ok _, held) s w =
    gateway_call deps req reservation s (record w { budget = some held })

unfoldable pub reserved_call :
    Deps → ModelRequest → ℤ → Option Budget → DecisionRun → World → DecisionRun × World
reserved_call deps req reservation none s w = gateway_call deps req reservation s w
reserved_call deps req reservation (some b) s w =
    after_reserve deps req reservation (reserve_amount reservation b) s w

-- The request is sent again with the code of the error.
unfoldable pub next_request : DecisionRun → ModelRequest
next_request s =
    if is_empty_text s.error then s.request else record (s.request) { retry_error_code = s.error }

-- What follows on the pricing of the request
unfoldable pub after_pricing :
    Deps → ModelRequest → Result ℤ → DecisionRun → World → DecisionRun × World
after_pricing deps req (err e) s w = failed_call (pos 0) (code_of e) false s w
after_pricing deps req (ok reservation) s w = reserved_call deps req reservation w.budget s w

unfoldable pub dispatch : Deps → DecisionRun → World → DecisionRun × World
dispatch deps s w =
    after_pricing deps (next_request s) (price_of deps (next_request s) w.budget) s w

or_request : Option ModelRequest → ModelRequest → ModelRequest
or_request none req = req
or_request (some accepted) req = accepted

-- `_call_model`, given what the tape has of the decision
unfoldable pub call_or_recall : Option TapeRecord → Deps → DecisionRun → World → DecisionRun × World
unfolding or_request
call_or_recall (some rec) deps s w = (
  record s {
    response = some rec.response;
    request = or_request rec.accepted_request s.request;
    error = "";
  },
  w,
)
call_or_recall none deps s w = dispatch deps s w

unfoldable pub call_model : Deps → DecisionRun → World → DecisionRun × World
call_model deps s w = call_or_recall (taped_decision s.decision_id w.tape) deps s w
