-- ===== src/Pipeline.antt =====
-- One decision: call the model, check its proposal, and call again on an error that may pass
-- (agents/graphs.py), where no run store is at hand and the gateway is a live one.
pub mod Call
pub mod Graph
pub mod Attempts
pub mod Allocation
pub mod Settled
pub mod Reservation
mod Tests
use auto_options_call_debit.Common.{
  ℤ, pos, ltb_ℤ, eqb_ℤ, ℕ, zero, suc, ◌+◌, String, Bool, true, false, not, ◌&&◌, ◌||◌, Option, none,
  some, List, [], ◌∷◌, ◌++◌, str_eq, text_append, leb, ◌==◌, if◌then◌else◌,
}
use auto_options_call_debit.Common.Outcome.{
  ◌>>=◌, ◌>>◌, or_raise, Error, Result, model_error, harness_error, key_error, no_fuel, err, ok,
}
use auto_options_call_debit.Common.Lists.{length, among}
use auto_options_call_debit.Knowledge.Observations.{
  quarantine, next_incident_id, Incident, ObservationLedger,
}
use auto_options_call_debit.Knowledge.Packet.{TextDict, find_text, Compiled, Secrets}
use auto_options_call_debit.Knowledge.Proposals.{ProposalJson, validate, Witness, text, object}
use auto_options_call_debit.Budget.{bound, reserve_amount, commit, abort, PriceSheet, Budget}

-- A request, of which `body` stands for the packet, the prompt and the schema.
pub record ModelRequest : Type 0 where
  pub body : ℕ
  pub model_id : String
  pub max_output_tokens : ℤ
  pub retry_error_code : String

-- The parsed answer is none where it is no object.
pub record ModelResponse : Type 0 where
  pub request_hash : ℕ
  pub model_id : String
  pub cost_usd : ℤ
  pub billing_uncertain : Bool
  pub error_code : String
  pub parsed : Option ProposalJson

-- What the gateway does: it answers, or raises a `ModelError`, whose bill may be uncertain.
pub data Reply : Type 0 where
  replied : ModelResponse → Reply
  failed : String → Bool → Reply

-- The digest of a request, the length of its canonical body, and the model, which may answer each call
-- in another way.
pub record Hooks : Type 0 where
  pub request_hash : ModelRequest → ℕ
  pub body_length : ModelRequest → ℕ
  pub complete : ℕ → ModelRequest → Reply

pub record TapeRecord : Type 0 where
  pub request_hash : ℕ
  pub response : ModelResponse
  pub decision_id : ℕ
  pub accepted_request : Option ModelRequest

-- The parts of `PolicyDeps` that do not change.
pub record Deps : Type 0 where
  pub sheets : TextDict PriceSheet
  pub max_retries : ℕ
  pub secrets : Secrets
  pub hooks : Hooks

-- The parts of `PolicyDeps` that do, with the number of calls to the model.
pub record World : Type 0 where
  pub ledger : ObservationLedger (Option ProposalJson)
  pub budget : Option Budget
  pub tape : List TapeRecord
  pub calls : ℕ

-- `DecisionRun`
pub record DecisionRun : Type 0 where
  pub decision_id : ℕ
  pub compiled : Compiled
  pub request : ModelRequest
  pub response : Option ModelResponse
  pub witness : Option Witness
  pub error : String
  pub attempts : ℕ
  pub fatal : Bool

-- `tape.decision` and `tape.lookup`, of a tape that is complete and not a legacy one
unfoldable pub taped_decision : ℕ → List TapeRecord → Option TapeRecord
taped_decision id [] = none
taped_decision id (rec ∷ recs) = if rec.decision_id == id then some rec else taped_decision id recs

unfoldable pub taped_request : ℕ → List TapeRecord → Option TapeRecord
taped_request hash [] = none
taped_request hash (rec ∷ recs) =
    if rec.request_hash == hash then some rec else taped_request hash recs

abbrev pub is_empty_text : String → Bool
is_empty_text code = str_eq code ""
