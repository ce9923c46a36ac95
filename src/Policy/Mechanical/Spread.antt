-- ===== src/Policy/Mechanical/Spread.antt =====
-- The spread proposals of the mechanical policy.
use auto_options_call_debit.Common.{sym, ◌∙◌, ℕ}
use auto_options_call_debit.Common.Outcome.{ok}
use auto_options_call_debit.Policy.{Candidate}
use auto_options_call_debit.Policy.Validation.{among_candidates, entry_template_id, check_spread}
use auto_options_call_debit.Policy.Mechanical.{
  choose, MechanicalPolicy, entry, holding, closing, exit_rules, by_state,
}
use auto_options_call_debit.Common.{
  ℤ, leb_ℤ, refl, inl, inr, Bool, ◌&&◌, ◌||◌, none, Bool-cases, Option-cases,
}
use auto_options_call_debit.Domain.State.{
  created, entry_pending, exit_pending, closed, settled, expired_state, cancelled, archived,
  spread_role,
}
use auto_options_call_debit.Policy.{given, nonempty, allocates, DecisionContext, wait, open_spread}
use auto_options_call_debit.Policy.Validation.{
  own_position, spread_action, validate_spread_proposal,
}
use auto_options_call_debit.Policy.Mechanical.{proposal, decide_spread, decide}
use Prim.Native.Char.{Char}
use Prim.Native.String.append
use Prim.Native.String.{◌∷◌ as ◌∷ₜ◌}
use text.Mathlib.TextEquality.{eq_iff}
use auto_options_call_debit.Common.{String, ◌≡◌, ◌≢◌, true, Option, some, List, [], ◌∷◌, arith}
use auto_options_call_debit.Common.Lists.{All}
use auto_options_call_debit.Domain.State.{Position, AgentState, seeking_entry, open_state}
use auto_options_call_debit.Policy.{LimitTemplate, SpreadView}
use auto_options_call_debit.Policy.Validation.{among_templates}
use auto_options_call_debit.Policy.Mechanical.{find_template}

-- The ids on a menu are not empty.
abbrev pub HasIds : SpreadView → Type 0
HasIds view =
    All (λ c. c.candidate_id ≢ "") view.candidates
    × All (λ t. t.template_id ≢ "") view.exit_limit_templates

-- A spread agent is reviewed while it seeks an entry, or with its open position.
abbrev pub IsReviewed : AgentState → Option Position → Type 0
IsReviewed seeking_entry q = Unit
IsReviewed open_state (some q) = Unit
IsReviewed _ _ = ⊥

found :
    (id : String) (ts : List LimitTemplate) (t : LimitTemplate)
    → find_template id ts ≡ some t
    → (t.template_id ≡ id) × (among_templates t.template_id ts ≡ true)
unfolding find_template among_templates
found id [] t h = ground arith
found id (u ∷ ts) t h =
    ground (arith, eq_iff u.template_id id, eq_iff t.template_id u.template_id, found id ts t)

-- What OPEN is checked for, of the candidate and the template that the loop returns.
abbrev IsChoice : List LimitTemplate → List Candidate → Candidate → LimitTemplate → Type 0
IsChoice ts cs c t =
    (among_candidates c.candidate_id cs ≡ true)
    × (c.candidate_id ≢ "")
    × (t.template_id ≡ entry_template_id c.candidate_id)
    × (among_templates t.template_id ts ≡ true)

choose-IsChoice :
    (fraction : ℕ) (ts : List LimitTemplate) (cs : List Candidate) (c : Candidate)
    (t : LimitTemplate)
    → All (λ k. k.candidate_id ≢ "") cs
    → choose fraction ts cs ≡ some (c, t)
    → IsChoice ts cs c t
unfolding choose among_candidates
choose-IsChoice fraction ts [] c t ids h = ground arith
choose-IsChoice fraction ts (k ∷ cs) c t ids h = ground (
  arith,
  eq_iff c.candidate_id k.candidate_id,
  found (entry_template_id k.candidate_id) ts t,
  choose-IsChoice fraction ts cs c t ids.1,
)

cons_not_empty : (c : Char) (s : String) → (c ∷ₜ s) ≢ ""
cons_not_empty c s h = cc

entry_not_empty : (id : String) → entry_template_id id ≢ ""
entry_not_empty id h = cons_not_empty _ _ (sym (append.cons _ "ntry:" id) ∙ h)

open_accepted :
    (view : SpreadView) (c : Candidate) (t : LimitTemplate) (reasons : List String)
    → view.agent.state ≡ seeking_entry
    → IsChoice view.entry_limit_templates view.candidates c t
    → check_spread view (record (proposal open_spread reasons) {
      candidate_id = some c.candidate_id;
      limit_template_id = some t.template_id;
    })
      ≡ ok tt
unfolding check_spread spread_action given allocates nonempty
open_accepted view c t reasons seeking chosen = ground (
  arith,
  eq_iff c.candidate_id "",
  eq_iff t.template_id "",
  eq_iff t.template_id (entry_template_id c.candidate_id),
  entry_not_empty c.candidate_id,
)

wait_accepted :
    (view : SpreadView) (reasons : List String)
    → view.agent.state ≡ seeking_entry
    → check_spread view (proposal wait reasons) ≡ ok tt
unfolding check_spread spread_action given allocates nonempty
wait_accepted view reasons seeking = ground arith

hold_accepted :
    (view : SpreadView) (q : Position)
    → view.agent.state ≡ open_state
    → view.position ≡ some q
    → check_spread view (holding q) ≡ ok tt
unfolding check_spread spread_action given allocates nonempty holding own_position
hold_accepted view q opened has = ground arith

close_accepted :
    (view : SpreadView) (q : Position) (profit : Bool) (ts : List LimitTemplate)
    → view.agent.state ≡ open_state
    → view.position ≡ some q
    → view.exit_limit_templates ≡ ts
    → All (λ t. t.template_id ≢ "") ts
    → check_spread view (closing q profit ts) ≡ ok tt
unfolding check_spread spread_action given allocates nonempty closing own_position among_templates
close_accepted view q profit [] opened has menu ids = hold_accepted view q opened has
close_accepted view q profit (t ∷ ts) opened has menu ids =
    ground (arith, eq_iff t.template_id "", eq_iff t.template_id t.template_id)

entry_accepted :
    (m : MechanicalPolicy) (view : SpreadView)
    → HasIds view
    → view.agent.state ≡ seeking_entry
    → check_spread view (entry m view) ≡ ok tt
unfolding entry
entry_accepted m view ids seeking =
    elim (Option-cases
      (choose m.min_entry_credit_fraction view.entry_limit_templates view.candidates)) [
        | inl nothing ↦ rw (nothing, entry) (wait_accepted view _ seeking)
        | inr ((c, t), chosen) ↦
            rw (chosen, entry)
              (open_accepted view c t _ seeking
                (choose-IsChoice _ view.entry_limit_templates view.candidates c t ids.0 chosen))
      ]

exit_accepted :
    (m : MechanicalPolicy) (view : SpreadView) (q : Position) (fraction debit : Option ℤ)
    → HasIds view
    → view.agent.state ≡ open_state
    → view.position ≡ some q
    → check_spread view (exit_rules m view q fraction debit) ≡ ok tt
unfolding exit_rules
exit_accepted m view q (some fraction) (some debit) ids opened has =
    elim (Bool-cases (
      leb_ℤ m.profit_trigger fraction
      || (leb_ℤ m.loss_activation_days view.days_held && leb_ℤ fraction m.loss_trigger))) [
        | inl fires ↦
            rw (fires, exit_rules)
              (close_accepted view q _ view.exit_limit_templates opened has refl ids.1)
        | inr quiet ↦ rw (quiet, exit_rules) (hold_accepted view q opened has)
      ]
exit_accepted m view q none debit ids opened has = hold_accepted view q opened has
exit_accepted m view q (some fraction) none ids opened has = hold_accepted view q opened has

by_state_accepted :
    (m : MechanicalPolicy) (view : SpreadView) (state : AgentState) (q : Option Position)
    → HasIds view
    → IsReviewed state q
    → view.agent.state ≡ state
    → view.position ≡ q
    → check_spread view (by_state m view state q) ≡ ok tt
unfolding by_state
by_state_accepted m view seeking_entry q ids r at has = entry_accepted m view ids at
by_state_accepted m view open_state (some q) ids r at has =
    exit_accepted m view q view.profit_fraction view.current_close_debit_points ids at has
by_state_accepted m view open_state none ids r at has = absurd r
by_state_accepted m view created q ids r at has = absurd r
by_state_accepted m view entry_pending q ids r at has = absurd r
by_state_accepted m view exit_pending q ids r at has = absurd r
by_state_accepted m view closed q ids r at has = absurd r
by_state_accepted m view settled q ids r at has = absurd r
by_state_accepted m view expired_state q ids r at has = absurd r
by_state_accepted m view cancelled q ids r at has = absurd r
by_state_accepted m view archived q ids r at has = absurd r

-- What a spread agent decides from.
abbrev pub spread_context : SpreadView → DecisionContext
spread_context view = record { role = spread_role; spread_view = some view; manager_view = none }

-- The rule check accepts each proposal of the mechanical policy for a spread agent that seeks an entry
-- or is open with its position, if no id on its menu is empty.
pub decide_spread-IsAccepted :
    (m : MechanicalPolicy) (view : SpreadView)
    → HasIds view
    → IsReviewed view.agent.state view.position
    → validate_spread_proposal (spread_context view) (decide m (spread_context view)) ≡ ok tt
unfolding validate_spread_proposal decide decide_spread
decide_spread-IsAccepted m view ids r =
    by_state_accepted m view view.agent.state view.position ids r refl refl
