-- ===== src/Pipeline/Allocation.antt =====
-- The manager's allocation when a model chooses to allocate (`_manager_allocation` of agents/graphs.py),
-- against the mechanical policy's.
use auto_options_call_debit.Common.{
  zero, refl, ℤ, pos, pos_part, ◌≤ℤ◌, max_zero, one_sign, eq_of_parts, int_laws, ◌+ℤ◌, ◌-ℤ◌, max_ℤ,
  ◌≡◌, [], ℕ, suc, sym, ◌∙◌, arith, ap,
}
use auto_options_call_debit.Policy.{Counts, ManagerView}
use auto_options_call_debit.Policy.Mechanical.{fill_slots, mechanical_counts, add_one}

-- The deficits, none of them negative.
unfoldable pub manager_allocation : ManagerView → Counts
manager_allocation view =
    let bull =
      max_ℤ (view.bullish_target -ℤ (view.active_bullish +ℤ view.reserved_bullish)) (pos 0) in
    let bear =
      max_ℤ (view.bearish_target -ℤ (view.active_bearish +ℤ view.reserved_bearish)) (pos 0) in
    let committed =
      view.active_bullish +ℤ view.active_bearish +ℤ view.reserved_bullish
      +ℤ view.reserved_bearish in
    fill_slots (pos_part (view.capacity -ℤ committed)) bull bear []

max_pred : (a : ℤ) → pos 1 ≤ℤ a → max_ℤ a (pos 0) -ℤ pos 1 ≡ max_ℤ (a -ℤ pos 1) (pos 0)
max_pred a h =
    eq_of_parts _ _
      (omega (int_laws, max_zero a, max_zero (a -ℤ pos 1), one_sign a, one_sign (a -ℤ pos 1)))

-- A deficit below zero is filled like one of zero.
fill_clamped :
    (n : ℕ) (bull bear : ℤ) (counts : Counts)
    → fill_slots n bull bear counts ≡ fill_slots n (max_ℤ bull (pos 0)) (max_ℤ bear (pos 0)) counts
unfolding fill_slots
fill_clamped zero bull bear counts = refl
fill_clamped (suc n) bull bear counts = ground (
  arith,
  max_zero bull,
  max_zero bear,
  one_sign bull,
  one_sign bear,
  max_pred bull,
  max_pred bear,
  fill_clamped n (bull -ℤ pos 1) bear (add_one counts "bullish"),
  fill_clamped n bull (bear -ℤ pos 1) (add_one counts "bearish"),
)

sum_swap : (a b c d : ℤ) → a +ℤ b +ℤ c +ℤ d ≡ a +ℤ c +ℤ b +ℤ d
sum_swap a b c d = omega int_laws

-- For every view, the allocation of a decision that chooses to allocate is the mechanical policy's.
pub manager_allocation_mechanical :
    (view : ManagerView) → manager_allocation view ≡ mechanical_counts view
unfolding manager_allocation mechanical_counts
manager_allocation_mechanical view =
    sym (fill_clamped _ _ _ [])
    ∙ ap
        (λ (t : ℤ).
          fill_slots (pos_part (view.capacity -ℤ t))
            (view.bullish_target -ℤ (view.active_bullish +ℤ view.reserved_bullish))
            (view.bearish_target -ℤ (view.active_bearish +ℤ view.reserved_bearish)) [])
        (sum_swap view.active_bullish view.active_bearish view.reserved_bullish
          view.reserved_bearish)
