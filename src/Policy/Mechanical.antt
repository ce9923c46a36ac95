-- ===== src/Policy/Mechanical.antt =====
-- The mechanical comparison policy (research/mechanical.py). `credit / width >= fraction` is tested
-- by multiplying out, as a width is positive.
pub mod Slots
pub mod Manager
pub mod Spread
use auto_options_call_debit.Common.{
  ℤ, pos, pos_part, ltb_ℤ, leb_ℤ, ◌+ℤ◌, ◌-ℤ◌, ◌*ℤ◌, ℕ, zero, suc, String, Bool, true, false, ◌&&◌,
  ◌||◌, Option, none, some, List, [], ◌∷◌, str_eq, if◌then◌else◌,
}
use auto_options_call_debit.Domain.State.{
  Position, AgentState, Role, seeking_entry, open_state, spread_role, manager_role,
}
use auto_options_call_debit.Domain.Contract.{width_points, int}
use auto_options_call_debit.Policy.{
  Counts, nonempty, count, set_count, Candidate, LimitTemplate, SpreadView, ManagerView,
  DecisionContext, Kind, Proposal, wait, open_spread, hold, close_spread, allocate, no_change,
}
use auto_options_call_debit.Policy.Validation.{entry_template_id}

-- The triggers; the entry fraction in millionths.
pub record MechanicalPolicy : Type 0 where
  pub profit_trigger : ℤ
  pub loss_trigger : ℤ
  pub loss_activation_days : ℤ
  pub min_entry_credit_fraction : ℕ

abbrev pub proposal : Kind → List String → Proposal
proposal kind reasons = record {
  kind = kind;
  candidate_id = none;
  limit_template_id = none;
  position_id = none;
  allocation = none;
  retire_reservation_ids = [];
  reason_codes = reasons;
}

-- `frac >= self.min_entry_credit_fraction`
unfoldable pub enough_credit : ℕ → Candidate → Bool
enough_credit fraction c = leb_ℤ (width_points c.spread *ℤ fraction) (c.credit_points *ℤ 1000000)

-- `next((t for t in templates if t.template_id == id), None)`
unfoldable pub find_template : String → List LimitTemplate → Option LimitTemplate
find_template id [] = none
find_template id (t ∷ ts) = if str_eq t.template_id id then some t else find_template id ts

-- The loop over the candidates, which ends at the first with enough credit.
unfoldable pub choose : ℕ → List LimitTemplate → List Candidate → Option (Candidate × LimitTemplate)
choose fraction ts [] = none
choose fraction ts (c ∷ cs) =
    if enough_credit fraction c
    then elim (find_template (entry_template_id c.candidate_id) ts) [
      | none ↦ none
      | some t ↦ some (c, t)
    ]
    else choose fraction ts cs

entry : MechanicalPolicy → SpreadView → Proposal
entry m view =
    elim (choose m.min_entry_credit_fraction view.entry_limit_templates view.candidates) [
      | none ↦ proposal wait ("ENTRY_CRITERIA" ∷ "QUOTE_QUALITY" ∷ [])
      | some (c, t) ↦ record (proposal open_spread ("ENTRY_CRITERIA" ∷ [])) {
        candidate_id = some c.candidate_id;
        limit_template_id = some t.template_id;
      }
    ]

holding : Position → Proposal
holding q = record (proposal hold ("MAINTAIN_THESIS" ∷ [])) { position_id = some q.position_id }

closing : Position → Bool → List LimitTemplate → Proposal
unfolding holding
closing q profit [] = holding q
closing q profit (t ∷ ts) =
    record (proposal close_spread ((if profit then "PROFIT_BAND" else "LOSS_BAND") ∷ [])) {
      position_id = some q.position_id;
      limit_template_id = some t.template_id;
    }

exit_rules : MechanicalPolicy → SpreadView → Position → Option ℤ → Option ℤ → Proposal
unfolding holding closing
exit_rules m view q (some fraction) (some debit) =
    let take_profit = leb_ℤ m.profit_trigger fraction in
    let aged_loss = leb_ℤ m.loss_activation_days view.days_held && leb_ℤ fraction m.loss_trigger in
    if take_profit || aged_loss then closing q take_profit view.exit_limit_templates else holding q
exit_rules m view q _ _ = holding q

by_state : MechanicalPolicy → SpreadView → AgentState → Option Position → Proposal
unfolding entry exit_rules
by_state m view seeking_entry q = entry m view
by_state m view open_state (some q) =
    exit_rules m view q view.profit_fraction view.current_close_debit_points
by_state m view _ q = proposal wait ("LIFECYCLE_RESTRICTION" ∷ [])

-- `_spread`
unfoldable pub decide_spread : MechanicalPolicy → DecisionContext → Proposal
unfolding by_state
decide_spread m ctx = elim ctx.spread_view [
  | none ↦ proposal wait ("INSUFFICIENT_EVIDENCE" ∷ [])
  | some view ↦ by_state m view view.agent.state view.position
]

-- `alloc[side] = alloc.get(side, 0) + 1`
unfoldable pub add_one : Counts → String → Counts
add_one counts side = set_count counts side (int (count counts side +ℤ pos 1))

-- The loop, on `free`.
unfoldable pub fill_slots : ℕ → ℤ → ℤ → Counts → Counts
fill_slots zero bull bear counts = counts
fill_slots (suc free) bull bear counts =
    if ltb_ℤ (pos 0) bull || ltb_ℤ (pos 0) bear
    then if leb_ℤ bear bull && ltb_ℤ (pos 0) bull
      then fill_slots free (bull -ℤ pos 1) bear (add_one counts "bullish")
      else fill_slots free bull (bear -ℤ pos 1) (add_one counts "bearish")
    else counts

unfoldable pub mechanical_counts : ManagerView → Counts
mechanical_counts view =
    let bull = view.bullish_target -ℤ (view.active_bullish +ℤ view.reserved_bullish) in
    let bear = view.bearish_target -ℤ (view.active_bearish +ℤ view.reserved_bearish) in
    let committed =
      view.active_bullish +ℤ view.reserved_bullish +ℤ view.active_bearish
      +ℤ view.reserved_bearish in
    fill_slots (pos_part (view.capacity -ℤ committed)) bull bear []

manage : ManagerView → Proposal
manage view =
    if view.paused
    then proposal no_change ("LIFECYCLE_RESTRICTION" ∷ [])
    else let counts = mechanical_counts view in
      if nonempty counts
      then record (proposal allocate ("ALLOCATION_DEFICIT" ∷ [])) { allocation = some counts }
      else proposal no_change ("MAINTAIN_THESIS" ∷ [])

-- `_manager`
unfoldable pub decide_manager : DecisionContext → Proposal
unfolding manage
decide_manager ctx = elim ctx.manager_view [
  | none ↦ proposal no_change ("INSUFFICIENT_EVIDENCE" ∷ [])
  | some view ↦ manage view
]

abbrev pub is_manager : Role → Bool
is_manager manager_role = true
is_manager spread_role = false

-- `MechanicalPolicy.decide`
unfoldable pub decide : MechanicalPolicy → DecisionContext → Proposal
decide m ctx = if is_manager ctx.role then decide_manager ctx else decide_spread m ctx
