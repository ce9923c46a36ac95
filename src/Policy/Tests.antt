-- ===== src/Policy/Tests.antt =====
-- The mechanical policy and the rule check at work.
use auto_options_call_debit.Common.{
  String, ◌≢◌, pos, negsuc, ◌+ℤ◌, ◌-ℤ◌, ◌*ℤ◌, abs, ◌≡◌, refl, false, none, some, [], ◌∷◌, arith,
}
use auto_options_call_debit.Common.Outcome.{rejection, err, ok}
use auto_options_call_debit.Domain.State.{Agent, seeking_entry, spread_role}
use auto_options_call_debit.Domain.Contract.{width_points, bull_put_credit, int}
use auto_options_call_debit.Domain.Tests.{bull_put}
use auto_options_call_debit.Policy.{
  Counts, given, nonempty, count, set_count, SpreadView, ManagerView, Proposal, open_spread,
  allocate,
}
use auto_options_call_debit.Policy.Validation.{
  validate_spread_proposal, known_sides, positive_int, positive_counts, allocation_rules,
  manager_action, check_manager, validate_manager_proposal,
}
use auto_options_call_debit.Policy.Validation.Permitted.{Permitted, validate_manager-Permitted}
use auto_options_call_debit.Policy.Mechanical.{
  proposal, enough_credit, find_template, choose, decide_spread, add_one, fill_slots,
  mechanical_counts, decide_manager, decide, MechanicalPolicy,
}
use auto_options_call_debit.Policy.Mechanical.Manager.{
  UsesAll, manager_context, decide_manager-IsAccepted,
}
use auto_options_call_debit.Policy.Mechanical.Spread.{spread_context, decide_spread-IsAccepted}

-- One bullish slot is taken, and three of the two targets of two fit.
abbrev manager_view : ManagerView
manager_view = record {
  active_bullish = pos 1;
  active_bearish = pos 0;
  reserved_bullish = pos 0;
  reserved_bearish = pos 0;
  capacity = pos 3;
  bullish_target = pos 2;
  bearish_target = pos 2;
  paused = false;
  reservations = [];
}

abbrev policy : MechanicalPolicy
policy = record {
  profit_trigger = pos 35;
  loss_trigger = negsuc 24;
  loss_activation_days = pos 25;
  min_entry_credit_fraction = 50000;
}

abbrev one_each : Counts
one_each = ("bearish", int (pos 1)) ∷ ("bullish", int (pos 1)) ∷ []

-- The larger deficit is filled first.
both_sides :
    decide policy (manager_context manager_view)
    ≡ record (proposal allocate ("ALLOCATION_DEFICIT" ∷ [])) { allocation = some one_each }
unfolding decide decide_manager mechanical_counts fill_slots nonempty add_one set_count count ◌+ℤ◌
    ◌-ℤ◌
both_sides = refl

decide_manager-IsAccepted_example :
    (validate_manager_proposal
        (manager_context manager_view)
        (decide policy (manager_context manager_view))
      ≡ ok tt)
    × UsesAll manager_view (mechanical_counts manager_view)
unfolding ◌+ℤ◌
decide_manager-IsAccepted_example =
    decide_manager-IsAccepted policy manager_view (omega arith, omega arith)

-- A call for a third bullish slot is turned down, though the capacity has room.
too_many :
    validate_manager_proposal
      (manager_context manager_view)
      (record (proposal allocate []) { allocation = some (("bullish", int (pos 2)) ∷ []) })
    ≡ err (rejection "ALLOCATION_TARGET_EXCEEDED")
unfolding validate_manager_proposal check_manager manager_action given allocation_rules nonempty
    known_sides positive_counts positive_int count ◌+ℤ◌
too_many = refl

abbrev allocation : Proposal
allocation = record (proposal allocate []) { allocation = some one_each }

accepted : validate_manager_proposal (manager_context manager_view) allocation ≡ ok tt
unfolding validate_manager_proposal check_manager manager_action given allocation_rules nonempty
    known_sides positive_counts positive_int count ◌+ℤ◌
accepted = refl

validate_manager-Permitted_example : Permitted manager_view allocate allocation
validate_manager-Permitted_example =
    validate_manager-Permitted (manager_context manager_view) manager_view allocation refl accepted

abbrev seeker : Agent
seeker = record {
  agent_id = 21;
  role = spread_role;
  direction = some bull_put_credit;
  state = seeking_entry;
  created_at_utc = 100;
  next_review_at_utc = 130;
  reservation_id = some 11;
  position_id = none;
}

abbrev spread_view : SpreadView
spread_view = record {
  agent = seeker;
  position = none;
  current_close_debit_points = none;
  profit_fraction = none;
  days_held = pos 0;
  candidates =
      record { candidate_id = "cand-1"; spread = bull_put; credit_points = pos 1000000 } ∷ [];
  entry_limit_templates =
      record { template_id = "entry:cand-1"; kind = "NATURAL"; limit_points = pos 1000000 } ∷ [];
  exit_limit_templates = [];
}

opens :
    decide policy (spread_context spread_view)
    ≡ record (proposal open_spread ("ENTRY_CRITERIA" ∷ [])) {
      candidate_id = some "cand-1";
      limit_template_id = some "entry:cand-1";
    }
unfolding decide decide_spread choose enough_credit find_template width_points abs ◌-ℤ◌ ◌*ℤ◌
opens = refl

named : ◌≢◌ {A = String} "cand-1" ""
named h = cc

decide_spread-IsAccepted_example :
    validate_spread_proposal
      (spread_context spread_view)
      (decide policy (spread_context spread_view))
    ≡ ok tt
decide_spread-IsAccepted_example = decide_spread-IsAccepted policy spread_view ((named, tt), tt) tt
