-- ===== src/Policy/Validation.antt =====
-- The rule checks on a proposal (engine/policy.py).
pub mod Permitted
use auto_options_call_debit.Common.{
  ℤ, pos, ltb_ℤ, ◌+ℤ◌, ℕ, String, Bool, true, false, not, ◌&&◌, ◌||◌, Option, none, some, List, [],
  ◌∷◌, str_eq, text_append, ◌==◌, is_some,
}
use auto_options_call_debit.Common.Outcome.{◌>>◌, raise_if, Result, rejection, err}
use auto_options_call_debit.Domain.State.{
  is_seeking, Position, Reservation, AgentState, seeking_entry, open_state,
}
use auto_options_call_debit.Domain.Contract.{IntArg, int, bool}
use auto_options_call_debit.Policy.{
  Counts, given, nonempty, allocates, count, Candidate, LimitTemplate, SpreadView, ManagerView,
  DecisionContext, Kind, Proposal, wait, open_spread, hold, close_spread, allocate, pause_new,
  resume_new, retire_slots, no_change,
}

reject_if : Bool → String → Result (Unit {0})
reject_if test code = raise_if test (rejection code)

unfoldable pub among_candidates : String → List Candidate → Bool
among_candidates id [] = false
among_candidates id (c ∷ cs) = str_eq id c.candidate_id || among_candidates id cs

unfoldable pub among_templates : String → List LimitTemplate → Bool
among_templates id [] = false
among_templates id (t ∷ ts) = str_eq id t.template_id || among_templates id ts

abbrev pub is_seeking_entry : AgentState → Bool
is_seeking_entry seeking_entry = true
is_seeking_entry _ = false

abbrev pub is_open_state : AgentState → Bool
is_open_state open_state = true
is_open_state _ = false

-- `view.position is not None and view.position.position_id == p.position_id`
unfoldable pub own_position : Option Position → Option ℕ → Bool
own_position (some q) (some id) = q.position_id == id
own_position _ _ = false

-- f"entry:{candidate_id}"
abbrev pub entry_template_id : String → String
entry_template_id id = text_append "entry:" id

-- The three tests on the ids of OPEN, whose fields are given.
open_ids : SpreadView → Option String → Option String → Result (Unit {0})
unfolding reject_if
open_ids view (some candidate) (some template) = do
  reject_if (not (among_candidates candidate view.candidates)) "UNKNOWN_CANDIDATE"
  reject_if (not (among_templates template view.entry_limit_templates)) "UNKNOWN_LIMIT_TEMPLATE"
  reject_if (not (str_eq template (entry_template_id candidate))) "CANDIDATE_LIMIT_MISMATCH"
open_ids view _ _ = err (rejection "OPEN_FIELDS")

exit_id : SpreadView → Option String → Result (Unit {0})
unfolding reject_if
exit_id view none = err (rejection "CLOSE_FIELDS")
exit_id view (some template) =
    reject_if (not (among_templates template view.exit_limit_templates)) "UNKNOWN_LIMIT_TEMPLATE"

unfoldable pub spread_action : Kind → SpreadView → Proposal → Result (Unit {0})
unfolding reject_if open_ids exit_id
spread_action wait view p =
    reject_if
      (not (is_seeking_entry view.agent.state)
        || (given p.candidate_id || (is_some p.position_id || given p.limit_template_id)))
      "WAIT_FIELDS"
spread_action open_spread view p = do
  reject_if (not (is_seeking_entry view.agent.state)) "NOT_ENTRY_STATE"
  reject_if
      (not (given p.candidate_id) || (is_some p.position_id || not (given p.limit_template_id)))
      "OPEN_FIELDS"
  open_ids view p.candidate_id p.limit_template_id
spread_action hold view p = do
  reject_if
      (not (is_open_state view.agent.state)
        || (not (is_some p.position_id) || (given p.candidate_id || given p.limit_template_id)))
      "HOLD_FIELDS"
  reject_if (not (own_position view.position p.position_id)) "NOT_OWN_POSITION"
spread_action close_spread view p = do
  reject_if
      (not (is_open_state view.agent.state)
        || (not (is_some p.position_id) || given p.candidate_id))
      "CLOSE_FIELDS"
  reject_if (not (given p.limit_template_id)) "CLOSE_FIELDS"
  reject_if (not (own_position view.position p.position_id)) "NOT_OWN_POSITION"
  exit_id view p.limit_template_id
spread_action _ view p = err (rejection "UNKNOWN_ACTION")

unfoldable pub check_spread : SpreadView → Proposal → Result (Unit {0})
unfolding reject_if
check_spread view p = do
  reject_if (allocates p.allocation || nonempty p.retire_reservation_ids) "SPREAD_FIELDS"
  spread_action p.kind view p

unfoldable pub validate_spread_proposal : DecisionContext → Proposal → Result (Unit {0})
validate_spread_proposal ctx p = elim ctx.spread_view [
  | none ↦ err (rejection "NO_SPREAD_VIEW")
  | some view ↦ check_spread view p
]

-- `not set(counts) - {"bullish", "bearish"}`
unfoldable pub known_sides : Counts → Bool
known_sides [] = true
known_sides (entry ∷ rest) =
    (str_eq entry.0 "bullish" || str_eq entry.0 "bearish") && known_sides rest

-- `type(v) is int and v > 0`
unfoldable pub positive_int : IntArg → Bool
positive_int (int n) = ltb_ℤ (pos 0) n
positive_int (bool b) = false

unfoldable pub positive_counts : Counts → Bool
unfolding positive_int
positive_counts [] = true
positive_counts (entry ∷ rest) = positive_int entry.1 && positive_counts rest

abbrev pub bullish_after : ManagerView → Counts → ℤ
bullish_after view counts = view.active_bullish +ℤ view.reserved_bullish +ℤ count counts "bullish"

abbrev pub bearish_after : ManagerView → Counts → ℤ
bearish_after view counts = view.active_bearish +ℤ view.reserved_bearish +ℤ count counts "bearish"

-- ALLOCATE, of a given allocation.
unfoldable pub allocation_rules : ManagerView → Counts → List ℕ → Result (Unit {0})
unfolding reject_if
allocation_rules view counts retired = do
  reject_if (not (nonempty counts) || (not (known_sides counts) || nonempty retired))
      "ALLOCATE_FIELDS"
  reject_if (not (positive_counts counts)) "ALLOCATE_FIELDS"
  reject_if view.paused "ALLOCATIONS_PAUSED"
  reject_if (ltb_ℤ view.capacity (bullish_after view counts +ℤ bearish_after view counts))
      "CAPACITY_EXCEEDED"
  reject_if
      (ltb_ℤ view.bullish_target (bullish_after view counts)
        || ltb_ℤ view.bearish_target (bearish_after view counts))
      "ALLOCATION_TARGET_EXCEEDED"

unfoldable pub seeks : ℕ → List Reservation → Bool
seeks id [] = false
seeks id (r ∷ rs) = ((r.reservation_id == id) && is_seeking r.status) || seeks id rs

-- `set(ids) <= live`
unfoldable pub all_seek : List Reservation → List ℕ → Bool
unfolding seeks
all_seek rs [] = true
all_seek rs (id ∷ ids) = seeks id rs && all_seek rs ids

unfoldable pub occurs : ℕ → List ℕ → Bool
occurs id [] = false
occurs id (other ∷ others) = (id == other) || occurs id others

-- `len(set(ids)) == len(ids)`
unfoldable pub no_repeats : List ℕ → Bool
unfolding occurs
no_repeats [] = true
no_repeats (id ∷ ids) = not (occurs id ids) && no_repeats ids

allocate_fields : ManagerView → Option Counts → List ℕ → Result (Unit {0})
allocate_fields view none retired = err (rejection "ALLOCATE_FIELDS")
allocate_fields view (some counts) retired = allocation_rules view counts retired

fields_empty : Proposal → Result (Unit {0})
unfolding reject_if
fields_empty p =
    reject_if
      (allocates p.allocation || (nonempty p.retire_reservation_ids || given p.candidate_id))
      "FIELDS_NOT_EMPTY"

unfoldable pub manager_action : Kind → ManagerView → Proposal → Result (Unit {0})
unfolding reject_if allocate_fields fields_empty
manager_action allocate view p = allocate_fields view p.allocation p.retire_reservation_ids
manager_action retire_slots view p = do
  reject_if (allocates p.allocation) "RETIRE_FIELDS"
  reject_if (not (all_seek view.reservations p.retire_reservation_ids)) "UNKNOWN_RESERVATION"
  reject_if (not (nonempty p.retire_reservation_ids) || not (no_repeats p.retire_reservation_ids))
      "RETIRE_FIELDS"
manager_action pause_new view p = fields_empty p
manager_action resume_new view p = fields_empty p
manager_action no_change view p = fields_empty p
manager_action _ view p = err (rejection "UNKNOWN_ACTION")

unfoldable pub check_manager : ManagerView → Proposal → Result (Unit {0})
unfolding reject_if
check_manager view p = do
  reject_if (given p.candidate_id || (is_some p.position_id || given p.limit_template_id))
      "MANAGER_FIELDS"
  manager_action p.kind view p

unfoldable pub validate_manager_proposal : DecisionContext → Proposal → Result (Unit {0})
validate_manager_proposal ctx p = elim ctx.manager_view [
  | none ↦ err (rejection "NO_MANAGER_VIEW")
  | some view ↦ check_manager view p
]
