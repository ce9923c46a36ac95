-- ===== src/Policy/Mechanical/Manager.antt =====
-- The manager proposals of the mechanical policy.
use auto_options_call_debit.Policy.Validation.Permitted.{KeepsLimits}
use auto_options_call_debit.Common.{none}
use auto_options_call_debit.Common.{String, List}
use auto_options_call_debit.Policy.{Proposal, allocate, no_change}
use auto_options_call_debit.Policy.Mechanical.{proposal}
use auto_options_call_debit.Common.{refl, ◌≢◌, true, false, some, ◌∷◌, arith, Bool-cases}
use auto_options_call_debit.Common.Outcome.{ok}
use auto_options_call_debit.Domain.State.{manager_role}
use auto_options_call_debit.Policy.{given, nonempty, allocates, DecisionContext}
use auto_options_call_debit.Policy.Validation.{
  known_sides, positive_counts, allocation_rules, manager_action, check_manager,
  validate_manager_proposal,
}
use auto_options_call_debit.Policy.Mechanical.{
  fill_slots, decide_manager, decide, MechanicalPolicy, manage,
}
use auto_options_call_debit.Policy.Mechanical.Slots.{IsWellFormed, fill_slots-IsWellFormed}
use auto_options_call_debit.Common.{
  ℤ, pos, pos_part, ◌≤ℤ◌, ◌<ℤ◌, one_sign, int_laws, ◌+ℤ◌, ◌-ℤ◌, ◌≡◌, ◌⊎◌, inl, inr, [],
}
use auto_options_call_debit.Policy.{Counts, count, ManagerView}
use auto_options_call_debit.Policy.Validation.{bullish_after, bearish_after}
use auto_options_call_debit.Policy.Mechanical.{mechanical_counts}
use auto_options_call_debit.Policy.Mechanical.Slots.{Grows, fill_slots-Fills}

-- Neither side has more than its target yet.
abbrev pub WithinTargets : ManagerView → Type 0
WithinTargets view =
    (view.active_bullish +ℤ view.reserved_bullish ≤ℤ view.bullish_target)
    × (view.active_bearish +ℤ view.reserved_bearish ≤ℤ view.bearish_target)

abbrev committed : ManagerView → ℤ
committed view =
    view.active_bullish +ℤ view.reserved_bullish +ℤ view.active_bearish +ℤ view.reserved_bearish

-- One that leaves no slot that a further allocation could fill.
abbrev pub UsesAll : ManagerView → Counts → Type 0
UsesAll view counts =
    (view.capacity ≤ℤ bullish_after view counts +ℤ bearish_after view counts)
    ⊎ ((view.bullish_target ≤ℤ bullish_after view counts)
        × (view.bearish_target ≤ℤ bearish_after view counts))

slots-Grows :
    (view : ManagerView)
    → WithinTargets view
    → Grows
        (pos_part (view.capacity -ℤ committed view))
        (view.bullish_target -ℤ (view.active_bullish +ℤ view.reserved_bullish))
        (view.bearish_target -ℤ (view.active_bearish +ℤ view.reserved_bearish))
        (pos 0)
        (pos 0)
        (count (mechanical_counts view) "bullish")
        (count (mechanical_counts view) "bearish")
unfolding mechanical_counts count
slots-Grows view w =
    fill_slots-Fills (pos_part (view.capacity -ℤ committed view))
      (view.bullish_target -ℤ (view.active_bullish +ℤ view.reserved_bullish))
      (view.bearish_target -ℤ (view.active_bearish +ℤ view.reserved_bearish)) [] (omega int_laws)
      (omega int_laws)

-- The counts that the mechanical policy arrives at use all that the capacity and the targets allow.
slots-UsesAll : (view : ManagerView) → WithinTargets view → UsesAll view (mechanical_counts view)
slots-UsesAll view w = elim (slots-Grows view w).5 [
  | inl full ↦ inl (omega (int_laws, one_sign (view.capacity -ℤ committed view), full))
  | inr done ↦ inr (omega (int_laws, done), omega (int_laws, done))
]

slots-KeepsLimits :
    (view : ManagerView)
    → WithinTargets view
    → committed view <ℤ view.capacity
    → KeepsLimits view (mechanical_counts view)
slots-KeepsLimits view w free = (
  omega (int_laws, slots-Grows view w),
  omega (int_laws, slots-Grows view w),
  omega (int_laws, slots-Grows view w, one_sign (view.capacity -ℤ committed view)),
)

no_part : (a b : ℤ) → a ≤ℤ b → pos_part (a -ℤ b) ≡ 0
no_part a b h = omega (int_laws, one_sign (a -ℤ b))

dec_le : (a b : ℤ) → (a ≤ℤ b) ⊎ (b <ℤ a)
dec_le a b = ground arith

not_empty : (counts : Counts) → counts ≡ [] → nonempty counts ≢ true
unfolding nonempty
not_empty [] e h = ground arith
not_empty (c ∷ cs) e h = ground arith

none_free : (view : ManagerView) → view.capacity ≤ℤ committed view → mechanical_counts view ≡ []
unfolding mechanical_counts fill_slots
none_free view full = rw (no_part view.capacity (committed view) full) refl

accepted_rules :
    (view : ManagerView) (counts : Counts)
    → view.paused ≡ false
    → nonempty counts ≡ true
    → IsWellFormed counts
    → KeepsLimits view counts
    → allocation_rules view counts [] ≡ ok tt
unfolding allocation_rules nonempty
accepted_rules view counts unpaused some_count formed limits = ground arith

mechanical-IsWellFormed : (view : ManagerView) → IsWellFormed (mechanical_counts view)
unfolding mechanical_counts known_sides positive_counts
mechanical-IsWellFormed view = fill_slots-IsWellFormed _ _ _ [] (refl, refl)

-- An allocation that the policy proposes passes the rules: a nonempty one was made on a free slot.
proposed_rules :
    (view : ManagerView)
    → WithinTargets view
    → view.paused ≡ false
    → nonempty (mechanical_counts view) ≡ true
    → allocation_rules view (mechanical_counts view) [] ≡ ok tt
proposed_rules view w unpaused some_count = elim (dec_le view.capacity (committed view)) [
  | inl full ↦ absurd (not_empty (mechanical_counts view) (none_free view full) some_count)
  | inr free ↦
      accepted_rules view (mechanical_counts view) unpaused some_count
        (mechanical-IsWellFormed view) (slots-KeepsLimits view w free)
]

-- `ALLOCATE` with these counts.
abbrev allocating : Counts → Proposal
allocating counts = record (proposal allocate ("ALLOCATION_DEFICIT" ∷ [])) {
  allocation = some counts;
}

manage_cases :
    (view : ManagerView)
    → ((reasons : List String) × (manage view ≡ proposal no_change reasons))
      ⊎ ((view.paused ≡ false)
          × (nonempty (mechanical_counts view) ≡ true)
          × (manage view ≡ allocating (mechanical_counts view)))
unfolding manage
manage_cases view = elim (Bool-cases view.paused) [
  | inl paused ↦ inl ("LIFECYCLE_RESTRICTION" ∷ [], ground arith)
  | inr unpaused ↦ elim (Bool-cases (nonempty (mechanical_counts view))) [
    | inl some_count ↦ inr (unpaused, some_count, ground arith)
    | inr no_count ↦ inl ("MAINTAIN_THESIS" ∷ [], ground arith)
  ]
]

manage_accepted :
    (view : ManagerView) → WithinTargets view → check_manager view (manage view) ≡ ok tt
unfolding check_manager manager_action given allocates nonempty
manage_accepted view w = elim (manage_cases view) [
  | inl (reasons, idle) ↦ rw idle refl
  | inr (unpaused, some_count, chosen) ↦ rw chosen (proposed_rules view w unpaused some_count)
]

-- What a manager decides from.
abbrev pub manager_context : ManagerView → DecisionContext
manager_context view = record { role = manager_role; spread_view = none; manager_view = some view }

-- While both sides are within their targets, the rule check accepts each proposal of the mechanical
-- policy as a manager, and the counts that it arrives at (its allocation, if there are any and
-- allocations are not paused) reach the capacity or both targets.
pub decide_manager-IsAccepted :
    (m : MechanicalPolicy) (view : ManagerView)
    → WithinTargets view
    → (validate_manager_proposal (manager_context view) (decide m (manager_context view)) ≡ ok tt)
      × UsesAll view (mechanical_counts view)
unfolding validate_manager_proposal decide decide_manager
decide_manager-IsAccepted m view w = (manage_accepted view w, slots-UsesAll view w)
