-- ===== src/Pipeline/Reservation.antt =====
-- What a call leaves reserved in the budget (agents/graphs.py, llm/budget.py).
use auto_options_call_debit.Pipeline.{
  taped_decision, Deps, World, DecisionRun, Error, ok, err, model_error,
}
use auto_options_call_debit.Pipeline.Call.{
  price_of, code_of, give_up, failed_call, after_reserve, reserved_call, next_request,
  after_pricing, dispatch, call_or_recall, call_model,
}
use auto_options_call_debit.Budget.Cover.{WithinCap}
use auto_options_call_debit.Common.{◌||◌, ◌+◌, ◌-ℤ◌, ltb_ℤ, arith}
use auto_options_call_debit.Budget.{reserve_amount}
use auto_options_call_debit.Common.{
  ℤ, pos, eqb_ℤ, eq_of_parts, int_laws, ◌+ℤ◌, ◌≡◌, refl, ◌⊎◌, inl, inr, true, false, some,
  Bool-cases, none, ap, ◌∙◌,
}
use auto_options_call_debit.Budget.{abort, Budget}

-- The call was made; what was held for it is held no more, or the run is fatal.
unfoldable pub Released : ℤ → Budget → DecisionRun × World → Type 0
Released r b (s, w) =
    (left : Budget) × (w.budget ≡ some left)
    × ((left.reserved ≡ b.reserved) ⊎ ((s.fatal ≡ true) × (left.reserved ≡ b.reserved +ℤ r)))

held : ℤ → Budget → Budget
held r b = record b { reserved = b.reserved +ℤ r }

refused_hold :
    (r : ℤ) (b : Budget) (e : Error)
    → (reserve_amount r b).0 ≡ err e
    → reserve_amount r b ≡ (err (model_error "BUDGET_EXCEEDED"), b)
unfolding reserve_amount
refused_hold r b e refused =
    elim (Bool-cases (b.overrun || ltb_ℤ b.cap (b.committed +ℤ b.reserved +ℤ r))) [
      | inl over ↦ rw over refl
      | inr fits ↦ cc
    ]

-- A run whose reservation is refused
unfoldable pub refused_run : DecisionRun → DecisionRun
refused_run s = record s { error = "BUDGET_EXCEEDED"; attempts = s.attempts + 1; fatal = true }

call_model-refused :
    (deps : Deps) (s : DecisionRun) (w : World) (b : Budget) (r : ℤ) (e : Error)
    → taped_decision s.decision_id w.tape ≡ none
    → price_of deps (next_request s) (some b) ≡ ok r
    → (reserve_amount r b).0 ≡ err e
    → eqb_ℤ r (pos 0) ≡ false
    → call_model deps s (record w { budget = some b })
      ≡ (refused_run s, record w { budget = some (abort r b) })
unfolding call_model call_or_recall dispatch after_pricing reserved_call after_reserve failed_call
    give_up code_of refused_run
call_model-refused deps s w b r e untaped bounded refused costs =
    rw untaped (rw bounded (rw (refused_hold r b e refused) (rw costs refl)))

minus_plus : (a r : ℤ) → a -ℤ r +ℤ r ≡ a
minus_plus a r = omega int_laws

room : (c h r : ℤ) → c +ℤ (h -ℤ r) +ℤ r ≡ c +ℤ h
room c h r = eq_of_parts _ _ (omega int_laws)

granted_again :
    (r : ℤ) (b : Budget)
    → WithinCap b
    → b.overrun ≡ false
    → reserve_amount r (abort r b) ≡ (ok r, held r (abort r b))
unfolding reserve_amount abort held
granted_again r b fits fine = rw fine (ground (arith, room b.committed b.reserved r))

held-abort : (r : ℤ) (b : Budget) → held r (abort r b) ≡ b
unfolding held abort
held-abort r b = ap (λ (t : ℤ). record b { reserved = t }) (minus_plus b.reserved r)

-- A budget within its cap refuses the reservation, which is not zero: no call is made and the run is
-- fatal, but the reservation is taken off what the budget had reserved before. So the budget grants the
-- same reservation to the next run, although nothing was released.
pub call_model-regrants :
    (deps : Deps) (s : DecisionRun) (w : World) (b : Budget) (r : ℤ) (e : Error)
    → taped_decision s.decision_id w.tape ≡ none
    → price_of deps (next_request s) (some b) ≡ ok r
    → (reserve_amount r b).0 ≡ err e
    → eqb_ℤ r (pos 0) ≡ false
    → WithinCap b
    → b.overrun ≡ false
    → (call_model deps s (record w { budget = some b })
        ≡ (refused_run s, record w { budget = some (abort r b) }))
      × (reserve_amount r (abort r b) ≡ (ok r, b))
call_model-regrants deps s w b r e untaped bounded refused costs fits fine = (
  call_model-refused deps s w b r e untaped bounded refused costs,
  granted_again r b fits fine ∙ ap (λ (c : Budget). (ok r, c)) (held-abort r b),
)
