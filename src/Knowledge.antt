-- ===== src/Knowledge.antt =====
-- The temporal knowledge boundary: what an actor may know at an instant (epistemics/types.py). The
-- children have the checks of atoms and the ledger of observations. A branch, an actor and an atom
-- are known by numbers in the order of their texts.
pub mod Vocabulary
pub mod Atoms
pub mod Observations
pub mod Packet
pub mod Proposals
pub mod Beliefs
mod Tests
use auto_options_call_debit.Common.{
  ℤ, ℕ, String, Bool, true, false, Option, List, [], ◌∷◌, ◌==◌, if◌then◌else◌,
}
use auto_options_call_debit.Common.Outcome.{Result, harness_error, err, ok}
use auto_options_call_debit.Domain.Money.{Decimal, Datetime, aware, naive}

-- `aware_check`
unfoldable pub aware_check : Datetime → Result ℕ
aware_check (aware t) = ok t
aware_check (naive t) = err (harness_error "NAIVE_TIME")

-- The instant of a time that has been checked.
abbrev pub instant : Datetime → ℕ
instant (aware t) = t
instant (naive t) = t

-- The value of an atom: a text with what `Decimal` reads in it, or an object that is no text.
pub data Value : Type 0 where
  text_value : String → Option Decimal → Value
  not_text : Value

pub data Recipient : Type 0 where
  public : Recipient
  actor : ℕ → Recipient

pub record Atom : Type 0 where
  pub atom_id : ℕ
  pub metric : String
  pub value : Value
  pub unit : String
  pub kind : String
  pub published_at : Datetime
  pub available_at : Datetime
  pub subject_at : Datetime
  pub source_checked : Bool
  pub recipients : List Recipient
  pub dependencies : List ℕ
  pub transform : Option String

pub record Delivery : Type 0 where
  pub run_id : ℕ
  pub branch_id : ℕ
  pub actor_id : ℕ
  pub atom_id : ℕ
  pub delivered_at : Datetime

pub record Context : Type 0 where
  pub run_id : ℕ
  pub branch_id : ℕ
  pub actor_id : ℕ
  pub actor_role : String
  pub as_of : Datetime
  pub session_index : ℤ
  pub minute_from_open : ℤ
  pub alias_namespace : ℕ
  pub prior_visible_belief_hash : ℕ

pub record MenuChoice : Type 0 where
  pub internal_id : ℕ
  pub kind : String
  pub required_atoms : List ℕ
  pub target_internal_id : Option ℕ
  pub limit_internal_id : Option ℕ
  pub attributes : List (String × Value × String)

-- `"PUBLIC" in recipients or actor_id in recipients`
unfoldable pub addressed : ℕ → List Recipient → Bool
addressed who [] = false
addressed who (public ∷ others) = true
addressed who (actor one ∷ others) = if who == one then true else addressed who others
