-- ===== src/Policy.antt =====
-- The decision interface and the rule check on proposals (engine/policy.py), and the mechanical policy
-- (research/mechanical.py). A position or reservation is named by its number; candidates and limit
-- templates by their texts, of which the empty one counts as missing.
pub mod Validation
pub mod Mechanical
mod Tests
use auto_options_call_debit.Common.{
  ℤ, pos, ℕ, String, Bool, true, false, not, Option, none, some, List, [], ◌∷◌, str_eq,
  if◌then◌else◌,
}
use auto_options_call_debit.Domain.Contract.{IntArg, CreditSpread, int, bool}
use auto_options_call_debit.Domain.State.{Position, Reservation, Role, Agent}

pub record Candidate : Type 0 where
  pub candidate_id : String
  pub spread : CreditSpread
  pub credit_points : ℤ

pub record LimitTemplate : Type 0 where
  pub template_id : String
  pub kind : String
  pub limit_points : ℤ

-- The fields of `SpreadView` that decide. `profit_fraction` is in any unit that the triggers share.
pub record SpreadView : Type 0 where
  pub agent : Agent
  pub position : Option Position
  pub current_close_debit_points : Option ℤ
  pub profit_fraction : Option ℤ
  pub days_held : ℤ
  pub candidates : List Candidate
  pub entry_limit_templates : List LimitTemplate
  pub exit_limit_templates : List LimitTemplate

-- The fields of `ManagerView` that decide.
pub record ManagerView : Type 0 where
  pub active_bullish : ℤ
  pub active_bearish : ℤ
  pub reserved_bullish : ℤ
  pub reserved_bearish : ℤ
  pub capacity : ℤ
  pub bullish_target : ℤ
  pub bearish_target : ℤ
  pub paused : Bool
  pub reservations : List Reservation

pub record DecisionContext : Type 0 where
  pub role : Role
  pub spread_view : Option SpreadView
  pub manager_view : Option ManagerView

-- The texts of `SpreadAction` and `ManagerAction`, and any other text.
pub data Kind : Type 0 where
  wait open_spread hold close_spread : Kind
  allocate pause_new resume_new retire_slots no_change : Kind
  unknown_kind : String → Kind

-- `dict[str, int]`
abbrev pub Counts : Type 0
Counts = List (String × IntArg)

pub record Proposal : Type 0 where
  pub kind : Kind
  pub candidate_id : Option String
  pub limit_template_id : Option String
  pub position_id : Option ℕ
  pub allocation : Option Counts
  pub retire_reservation_ids : List ℕ
  pub reason_codes : List String

-- The truth value of an optional text.
unfoldable pub given : Option String → Bool
given none = false
given (some text) = not (str_eq text "")

unfoldable pub nonempty {ℓ} : {A : Type ℓ} → List A → Bool
nonempty [] = false
nonempty (x ∷ xs) = true

-- The truth value of `p.allocation`.
unfoldable pub allocates : Option Counts → Bool
unfolding nonempty
allocates none = false
allocates (some counts) = nonempty counts

abbrev pub number : IntArg → ℤ
number (int n) = n
number (bool true) = pos 1
number (bool false) = pos 0

-- `counts.get(key, 0)`
unfoldable pub count : Counts → String → ℤ
count [] key = pos 0
count (entry ∷ rest) key = if str_eq key entry.0 then number entry.1 else count rest key

-- `counts[key] = n`
unfoldable pub set_count : Counts → String → IntArg → Counts
set_count [] key n = (key, n) ∷ []
set_count (entry ∷ rest) key n =
    if str_eq key entry.0 then (key, n) ∷ rest else entry ∷ set_count rest key n
