-- ===== src/Knowledge/Vocabulary.antt =====
-- The registered words of evidence and of proposals (epistemics/types.py).
use auto_options_call_debit.Common.{
  String, Option, none, some, List, [], ◌∷◌, str_eq, if◌then◌else◌,
}

-- A metric's unit, and the texts it may take; without texts, its values are finite decimals.
abbrev pub Registration : Type 0
Registration = String × Option (List String)

abbrev vocabulary : List (String × Registration)
vocabulary =
    ("days_held", ("calendar_days", none))
    ∷ ("dte", ("calendar_days", none))
    ∷ ("profit_band_low", ("fraction_of_initial_credit", none))
    ∷ ("profit_band_high", ("fraction_of_initial_credit", none))
    ∷ ("loss_band_low", ("fraction_of_initial_credit", none))
    ∷ ("loss_band_high", ("fraction_of_initial_credit", none))
    ∷ ("loss_activation_days", ("calendar_days", none))
    ∷ ("spread_width", ("index_points", none))
    ∷ ("credit_to_width", ("fraction_of_width", none))
    ∷ ("limit_to_width", ("fraction_of_width", none))
    ∷ ("short_delta", ("delta", none))
    ∷ ("short_moneyness", ("strike_over_spot", none))
    ∷ ("long_moneyness", ("strike_over_spot", none))
    ∷ ("available_risk_fraction", ("fraction_of_equity", none))
    ∷ ("bullish_count", ("slots", none))
    ∷ ("bearish_count", ("slots", none))
    ∷ ("policy_rate_bps", ("basis_points", none))
    ∷ ("policy_delta_bps", ("basis_points", none))
    ∷ ("expected_rate_bps", ("basis_points", none))
    ∷ ("profit_fraction", ("fraction_of_initial_credit", none))
    ∷ ("candidate_max_risk", ("fraction_of_equity", none))
    ∷ ("minutes_to_meeting", ("minutes", none))
    ∷ ("available_slots", ("slots", none))
    ∷ ("bull_deficit", ("slots", none))
    ∷ ("bear_deficit", ("slots", none))
    ∷ ("direction_target", ("bullish_per_bearish", none))
    ∷ ("advisory_rule", ("policy", some ("DISCRETIONARY" ∷ "MANDATORY" ∷ "UNKNOWN" ∷ [])))
    ∷ (
      "direction_mandate",
      ("policy", some ("BULL_PUT_CREDIT" ∷ "BEAR_CALL_CREDIT" ∷ "UNKNOWN" ∷ [])),
    )
    ∷ ("DGS10", ("percent", none))
    ∷ ("FED_TARGET_UPPER_BPS", ("basis_points", none))
    ∷ []

find_metric : String → List (String × Registration) → Option Registration
find_metric metric [] = none
find_metric metric (entry ∷ rest) =
    if str_eq metric entry.0 then some entry.1 else find_metric metric rest

-- `VOCAB.get(metric)`
unfoldable pub registration : String → Option Registration
unfolding find_metric
registration metric = find_metric metric vocabulary

abbrev pub kinds : List String
kinds =
    "OBSERVATION" ∷ "ANNOUNCEMENT" ∷ "SCHEDULE" ∷ "SOURCE_FORECAST" ∷ "DERIVED" ∷ "APPROVED_RULE"
    ∷ []

abbrev pub confidence : List String
confidence = "LOW" ∷ "MEDIUM" ∷ "HIGH" ∷ "UNASSESSABLE" ∷ []

abbrev pub reasons : List String
reasons =
    "POLICY_UNCERTAINTY" ∷ "PROFIT_BAND" ∷ "LOSS_BAND" ∷ "RISK_BUDGET" ∷ "ALLOCATION_DEFICIT"
    ∷ "ENTRY_CRITERIA" ∷ "QUOTE_QUALITY" ∷ "MAINTAIN_THESIS" ∷ "INSUFFICIENT_EVIDENCE"
    ∷ "LIFECYCLE_RESTRICTION" ∷ []

abbrev pub unknowns : List String
unknowns =
    "UNKNOWN_FUTURE_POLICY_PATH" ∷ "UNKNOWN_FUTURE_PRICE_PATH" ∷ "UNVERIFIED_PROBABILITY"
    ∷ "AMBIGUOUS_MACRO" ∷ "QUOTE_LIMITATION" ∷ "DISCRETIONARY_LOSS_LIMIT" ∷ "NONE_IDENTIFIED" ∷ []

-- `TOPICS.get(topic)`
unfoldable pub topic_values : String → Option (List String)
topic_values topic =
    if str_eq topic "POLICY_DIRECTION"
    then some ("TIGHTENING_RECENTLY" ∷ "EASING_RECENTLY" ∷ "NO_CLEAR_CHANGE" ∷ [])
    else if str_eq topic "RATE_OUTLOOK"
    then some ("CUTS_PLAUSIBLE" ∷ "HIKES_PLAUSIBLE" ∷ "UNCERTAIN" ∷ [])
    else if str_eq topic "RISK_OUTLOOK"
    then some ("ELEVATED_RISK" ∷ "ORDINARY_RISK" ∷ "UNCERTAIN" ∷ [])
    else if str_eq topic "MANAGEMENT_OUTLOOK"
    then some ("MAINTAIN" ∷ "RECONSIDER" ∷ "UNCERTAIN" ∷ [])
    else none

-- `ACTIONS.get(role)`
unfoldable pub actions : String → Option (List String)
actions role =
    if str_eq role "SPREAD"
    then some ("WAIT" ∷ "OPEN" ∷ "HOLD" ∷ "CLOSE" ∷ [])
    else if str_eq role "MANAGER"
    then some (
        "ALLOCATE" ∷ "PAUSE_NEW_ALLOCATIONS" ∷ "RESUME_NEW_ALLOCATIONS" ∷ "RETIRE_SEARCH_SLOTS"
        ∷ "NO_CHANGE" ∷ [])
    else none
