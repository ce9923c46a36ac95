-- ===== src/Pipeline/Tests.antt =====
-- A decision whose model times out at its first call and raises a fatal error at its second.
use auto_options_call_debit.Pipeline.{
  taped_decision, ModelRequest, Reply, Deps, World, DecisionRun, failed,
}
use auto_options_call_debit.Pipeline.Call.{
  price_of, give_up, failed_call, after_reply, gateway_call, reserved_call, next_request,
  after_pricing, dispatch, call_or_recall, call_model,
}
use auto_options_call_debit.Pipeline.Graph.{validate_run, route, follow, run_within, run_graph}
use auto_options_call_debit.Budget.Cover.{WithinCap}
use auto_options_call_debit.Budget.{cached_rate, amount, higher_cached}
use auto_options_call_debit.Common.{Option}
use auto_options_call_debit.Knowledge.Proposals.{ProposalJson}
use auto_options_call_debit.Common.{
  pos, ◌+ℤ◌, ℕ, suc, ◌+◌, ◌≡◌, refl, false, none, some, [], ◌∷◌, arith, ◌==◌, if◌then◌else◌,
}
use auto_options_call_debit.Common.Outcome.{model_error, err, ok}
use auto_options_call_debit.Domain.Money.{aware}
use auto_options_call_debit.Policy.{ManagerView}
use auto_options_call_debit.Policy.Mechanical.{mechanical_counts}
use auto_options_call_debit.Budget.{cost, bound, reserve_amount, abort, PriceSheet, Budget}
use auto_options_call_debit.Knowledge.{Context}
use auto_options_call_debit.Knowledge.Observations.{empty_ledger}
use auto_options_call_debit.Knowledge.Packet.{Public, Compiled}
use auto_options_call_debit.Pipeline.Settled.{Settled, run_graph-Settled}
use auto_options_call_debit.Pipeline.Allocation.{manager_allocation, manager_allocation_mechanical}
use auto_options_call_debit.Pipeline.Reservation.{refused_run, call_model-regrants}

abbrev context : Context
context = record {
  run_id = 1;
  branch_id = 2;
  actor_id = 3;
  actor_role = "SPREAD";
  as_of = aware 500;
  session_index = pos 1;
  minute_from_open = pos 30;
  alias_namespace = 7;
  prior_visible_belief_hash = 0;
}

abbrev packet : Public
packet = record {
  schema_version = "2.1";
  actor_role = "SPREAD";
  episode_token = "e";
  decision_token = "d";
  packet_token = "p";
  prior_belief_token = "b";
  session_index = pos 1;
  minute_from_open = pos 30;
  premises = [];
  assessments = [];
  unknown_codes = [];
  action_menu = [];
}

abbrev compiled : Compiled
compiled = record { public_packet = packet; context = context; premise_map = []; action_map = [] }

abbrev request : ModelRequest
request = record {
  body = 400;
  model_id = "model-a";
  max_output_tokens = pos 100;
  retry_error_code = "";
}

abbrev sheet : PriceSheet
sheet = record {
  model_id = "model-a";
  input_per_million = 3;
  output_per_million = 15;
  cached_input_per_million = none;
  model_context_limit = some (pos 1000);
}

times_out : ℕ → ModelRequest → Reply
times_out call req = if call == 0 then failed "TIMEOUT" false else failed "AUTHENTICATION" false

abbrev deps : Deps
deps = record {
  sheets = ("model-a", sheet) ∷ [];
  max_retries = 2;
  secrets = record { token = λ n k s. k; packet_digest = λ p. "digest" };
  hooks = record {
    request_hash = λ req. req.body;
    body_length = λ req. req.body;
    complete = times_out;
  };
}

abbrev run : DecisionRun
run = record {
  decision_id = 9;
  compiled = compiled;
  request = request;
  response = none;
  witness = none;
  error = "";
  attempts = 0;
  fatal = false;
}

abbrev world : World
world = record { ledger = empty_ledger (Option ProposalJson); budget = none; tape = []; calls = 0 }

abbrev budget : ℕ → Budget
budget cap = record { cap = pos cap; committed = pos 1000; reserved = pos 2000; overrun = false }

abbrev after : DecisionRun
after = record run { error = "AUTHENTICATION"; attempts = 2 }

-- 1,000 tokens of input and 100 of output
bounded : (cap : ℕ) → price_of deps (next_request run) (some (budget cap)) ≡ ok (pos 4500)
unfolding price_of next_request bound cost ◌+ℤ◌ higher_cached amount cached_rate
bounded cap = refl

untaped : taped_decision 9 [] ≡ none
unfolding taped_decision
untaped = refl

refused : (reserve_amount (pos 4500) (budget 7000)).0 ≡ err (model_error "BUDGET_EXCEEDED")
unfolding reserve_amount ◌+ℤ◌
refused = refl

fits : WithinCap (budget 7000)
unfolding ◌+ℤ◌
fits = omega arith

-- The second call is the last.
second_is_last : run_graph deps run world ≡ ok (after, record world { calls = 2 })
unfolding run_graph run_within call_model call_or_recall taped_decision dispatch after_pricing
    price_of reserved_call gateway_call after_reply failed_call give_up validate_run follow route
    times_out next_request
second_is_last = refl

run_graph-Settled_example : Settled deps (0 + suc 2) (run_graph deps run world)
run_graph-Settled_example = run_graph-Settled deps run world

call_model-regrants_example :
    (call_model deps run (record world { budget = some (budget 7000) })
      ≡ (refused_run run, record world { budget = some (abort (pos 4500) (budget 7000)) }))
    × (reserve_amount (pos 4500) (abort (pos 4500) (budget 7000)) ≡ (ok (pos 4500), budget 7000))
call_model-regrants_example =
    call_model-regrants deps run world (budget 7000) (pos 4500) (model_error "BUDGET_EXCEEDED")
      untaped (bounded 7000) refused refl fits refl

abbrev view : ManagerView
view = record {
  active_bullish = pos 1;
  active_bearish = pos 3;
  reserved_bullish = pos 0;
  reserved_bearish = pos 0;
  capacity = pos 6;
  bullish_target = pos 3;
  bearish_target = pos 2;
  paused = false;
  reservations = [];
}

manager_allocation_mechanical_example : manager_allocation view ≡ mechanical_counts view
manager_allocation_mechanical_example = manager_allocation_mechanical view
