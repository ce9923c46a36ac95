-- ===== src/Runtime.antt =====
-- The durable run store (persistence/runtime.py): its rows and the tables that hold them. A
-- transaction either returns with the next store or raises and leaves the store as it was.
pub mod Attempts
pub mod Barriers
pub mod Rows
pub mod Spending
pub mod Steps
pub mod Budgeted
pub mod Reachable
pub mod Memory
mod Tests
use auto_options_call_debit.Common.{
  pos, ℕ, String, Bool, true, false, not, ◌&&◌, ◌||◌, Option, none, some, List, [], ◌∷◌, ◌++◌,
  str_eq, ◌==◌, if◌then◌else◌,
}
use auto_options_call_debit.Common.Outcome.{or_raise, Result, ledger_error, err, ok}
use auto_options_call_debit.Domain.Money.{Decimal, finite}
use auto_options_call_debit.Store.{Hash, Linked}
use auto_options_call_debit.Common.Dict.{Dict}
use auto_options_call_debit.Knowledge.Observations.{ObservationLedger}

-- The part of a pause that the store reads.
pub record Pause : Type 0 where
  pub category : String
  pub code : String

pub record RunRow (J : Type 0) : Type 0 where
  pub run_id : ℕ
  pub manifest : J
  pub manifest_hash : ℕ
  pub status : String
  pub cursor : J
  pub pause : Option Pause
  pub budget_cap : Option ℕ

pub record DecisionRow (J : Type 0) : Type 0 where
  pub run_id : ℕ
  pub decision_id : ℕ
  pub request_hash : ℕ
  pub request : J
  pub response : Option J
  pub status : String
  pub result : Option J
  pub accepted_attempt_id : Option ℕ

-- Amounts have passed `_money`: they are not negative.
pub record AttemptRow (J : Type 0) : Type 0 where
  pub run_id : ℕ
  pub attempt_id : ℕ
  pub decision_id : ℕ
  pub reserved_usd : ℕ
  pub actual_usd : Option ℕ
  pub outcome : String
  pub response : Option J
  pub error_code : String
  pub request : Option J

pub record BarrierRow (J : Type 0) : Type 0 where
  pub run_id : ℕ
  pub barrier_id : ℕ
  pub expected_seq : ℕ
  pub request_hashes : J
  pub cursor : J
  pub batch_hash : Option ℕ
  pub last_seq : Option ℕ
  pub status : String

-- The tables, with the events, the observations and the journal's runs and kinds of entries.
pub record Tables (P J : Type 0) : Type 0 where
  pub runs : List (RunRow J)
  pub decisions : List (DecisionRow J)
  pub attempts : List (AttemptRow J)
  pub barriers : List (BarrierRow J)
  pub journal : List (ℕ × String)
  pub events : Dict (List (Linked P))
  pub observations : ObservationLedger J
  pub outbox : List J

-- Whether a cursor names a position of the ledger, and which.
pub data LedgerPosition : Type 0 where
  unnamed incomplete : LedgerPosition
  position : ℕ → Hash → LedgerPosition

-- What the store does with JSON values: their equality, their SHA-256, and the fields that it reads.
pub record Json (J : Type 0) : Type 0 where
  pub json_eq : J → J → Bool
  pub record_hash : J → ℕ
  pub format_version : J → Option ℕ
  pub ledger_position : J → LedgerPosition
  pub nothing : J

abbrev pub Transaction : Type 0 → Type 0 → Type 0 → Type 0
Transaction P J A = Tables P J → Result (A × Tables P J)

-- `_money`
unfoldable pub money : Decimal → Result ℕ
money (finite (pos n)) = ok n
money _ = err (ledger_error "INVALID_BUDGET_AMOUNT")

module _ {Row : Type 0} where
  -- `get`: the row under a key
  abbrev pub find_row : (Row → Bool) → List Row → Option Row
  find_row here [] = none
  find_row here (row ∷ rows) = if here row then some row else find_row here rows

  -- `put`: in place of the row under the key, or at the end
  abbrev pub put_row : (Row → Bool) → Row → List Row → List Row
  put_row here new [] = new ∷ []
  put_row here new (row ∷ rows) = if here row then new ∷ rows else row ∷ put_row here new rows

module _ {J : Type 0} where
  abbrev pub run_key : ℕ → RunRow J → Bool
  run_key run row = row.run_id == run

  abbrev pub decision_key : ℕ → ℕ → DecisionRow J → Bool
  decision_key run id row = (row.run_id == run) && (row.decision_id == id)

  abbrev pub attempt_key : ℕ → ℕ → AttemptRow J → Bool
  attempt_key run id row = (row.run_id == run) && (row.attempt_id == id)

  abbrev pub barrier_key : ℕ → ℕ → BarrierRow J → Bool
  barrier_key run id row = (row.run_id == run) && (row.barrier_id == id)

module _ {P J : Type 0} where
  -- `_require`
  unfoldable pub require_run : ℕ → Tables P J → Result (RunRow J)
  require_run run s =
      or_raise (find_row (run_key run) s.runs) (ledger_error "RUN_NOT_PREPARED_OR_LEGACY")

  abbrev pub put_run : RunRow J → Tables P J → Tables P J
  put_run row s = record s { runs = put_row (run_key row.run_id) row s.runs }

  abbrev pub put_decision : DecisionRow J → Tables P J → Tables P J
  put_decision row s = record s {
    decisions = put_row (decision_key row.run_id row.decision_id) row s.decisions;
  }

  abbrev pub put_attempt : AttemptRow J → Tables P J → Tables P J
  put_attempt row s = record s {
    attempts = put_row (attempt_key row.run_id row.attempt_id) row s.attempts;
  }

  abbrev pub put_barrier : BarrierRow J → Tables P J → Tables P J
  put_barrier row s = record s {
    barriers = put_row (barrier_key row.run_id row.barrier_id) row s.barriers;
  }

  abbrev pub journaled : ℕ → String → Tables P J → Tables P J
  journaled run kind s = record s { journal = s.journal ++ (run, kind) ∷ [] }

-- The truth value of `status in {"COMPLETED", "FAILED"}`
abbrev pub is_finished : String → Bool
is_finished status = str_eq status "COMPLETED" || str_eq status "FAILED"

unfoldable pub optional_eq : Option ℕ → Option ℕ → Bool
optional_eq none none = true
optional_eq (some a) (some b) = a == b
optional_eq _ _ = false

unfoldable pub optional_json_eq : {J : Type 0} → Json J → Option J → Option J → Bool
optional_json_eq json none none = true
optional_json_eq json (some a) (some b) = json.json_eq a b
optional_json_eq json _ _ = false
